-- ===== src/Revocation/Lists.antt =====
-- Changes to a status list, and the statuses that it shows.
use agentcreds.Prelude.{
  ℕ, zero, suc, ◌≤◌, ◌<◌, ◌≡◌, ◌≢◌, inl, inr, refl, ◌∙◌, ap, Bool, true, false, Bool-cases, Option,
  List, [], ◌∷◌, ltb, ◌==◌, length, set, length-set, arith, if◌then◌else◌,
}
use agentcreds.Outcome.{ok, err, guard, revocation_index_out_of_bounds}
use agentcreds.Text.{Text}
use agentcreds.Crypto.{Crypto, CryptoLaws}
use agentcreds.Did.{AgentIdentity, TrustAnchor}
use agentcreds.Did.Laws.{software_anchor, IsKeyed}
use agentcreds.Revocation.{
  StatusCrates, RevocationList, bit_at, decode_and_decompress, decode_bits, check_index,
  update_bits, new_list, size_or_default, changed_bits, change_at, revoke, unrevoke, is_revoked,
  verify_list, alg_for, resign,
}
use agentcreds.Revocation.Laws.{StatusLaws}
use agentcreds.Revocation.Signing.{sign_list-verify_list, compress-decode}

-- A change of one status.
pub data Change : Type 0 where
  revoked : ℕ → Change
  unrevoked : ℕ → Change

-- The specification: the last change of an index decides its status, and there is none at first.
unfoldable pub status_after : List Change → ℕ → Bool
status_after [] i = false
status_after (revoked k ∷ earlier) i =
    let rest = status_after earlier i in if i == k then true else rest
status_after (unrevoked k ∷ earlier) i =
    let rest = status_after earlier i in if i == k then false else rest

bit_at-set_self : (bs : List Bool) (i : ℕ) (v : Bool) → i < length bs → bit_at (set bs i v) i ≡ v
bit_at-set_self [] i v h = absurd (omega arith)
bit_at-set_self (b ∷ bs) zero v h = refl
bit_at-set_self (b ∷ bs) (suc i) v h = bit_at-set_self bs i v (omega arith)

bit_at-set_ne : (bs : List Bool) (i j : ℕ) (v : Bool) → i ≢ j → bit_at (set bs i v) j ≡ bit_at bs j
bit_at-set_ne [] i j v h = refl
bit_at-set_ne (b ∷ bs) zero zero v h = absurd (h refl)
bit_at-set_ne (b ∷ bs) zero (suc j) v h = refl
bit_at-set_ne (b ∷ bs) (suc i) zero v h = refl
bit_at-set_ne (b ∷ bs) (suc i) (suc j) v h = bit_at-set_ne bs i j v (λ e. h (ap suc e))

bit_at-set :
    (bs : List Bool) (index i : ℕ) (value before : Bool)
    → index < length bs
    → bit_at bs i ≡ before
    → bit_at (set bs index value) i ≡ (if i == index then value else before)
bit_at-set bs index i value before within old = elim (Bool-cases (i == index)) [
  | inl same ↦
      let here : i ≡ index = ground (arith, same) in
      rw (same, here) (bit_at-set_self bs index value within)
  | inr other ↦ rw other (bit_at-set_ne bs index i value (λ e. ground (arith, other, e)) ∙ old)
]

module _ (c : Crypto) (s : StatusCrates) where
  -- The list has the size, and its bits are the statuses.
  pub record Shows (n : ℕ) (status : ℕ → Bool) (list : RevocationList) : Type 0 where
    pub size : list.size ≡ n
    pub raw : Text
    pub encoded : decode_and_decompress c s list.encoded_list ≡ ok raw
    pub room : n ≤ length (s.from_vec raw)
    pub bits : (i : ℕ) → i < n → bit_at (s.from_vec raw) i ≡ status i

  -- A list made by the agent's anchor, as it stands after some changes: it has its size, shows the
  -- statuses, and verifies.
  pub record IsKept (a : AgentIdentity) (n : ℕ) (status : ℕ → Bool) (list : RevocationList)
      : Type 0 where
    pub shows : Shows n status list
    pub verifies : verify_list c s list (software_anchor a) ≡ ok tt

  -- What a list shows is what its lookup returns, and only within its size.
  pub Shows-is_revoked :
      (n : ℕ) (status : ℕ → Bool) (list : RevocationList)
      → Shows n status list
      → (i : ℕ)
      → is_revoked c s list i
        ≡ (if ltb i n then ok (status i) else err (revocation_index_out_of_bounds i n))
  unfolding is_revoked check_index decode_bits
  Shows-is_revoked n status list h i = elim (Bool-cases (ltb i n)) [
    | inl within ↦ rw (h.size, within, h.encoded, h.bits i (ground (arith, within))) refl
    | inr past ↦ rw (h.size, past) refl
  ]

  module _ (L : CryptoLaws c) (S : StatusLaws s) (a : AgentIdentity) (keyed : IsKeyed c a) where
    new_list-IsKept :
        (id : Text) (size : Option ℕ) (now : ℕ)
        → (list : RevocationList) × (new_list c s id (software_anchor a) size now ≡ ok list)
          × IsKept a (size_or_default size) (λ i. false) list
    unfolding new_list
    new_list-IsKept id size now =
        let n = size_or_default size in
        let (e, encoded, decoded) = compress-decode c s L S a keyed (s.zero_bits n) in
        let draft : RevocationList = record {
          id = id;
          issuer = a.did;
          alg = alg_for (software_anchor a);
          updated = now;
          size = n;
          bits = 1;
          encoded_list = e;
          signature = [];
        } in
        let (sig, signed, verified) = sign_list-verify_list c s L S a keyed draft in
        (
          record draft { signature = sig },
          rw (encoded, signed) refl,
          record {
            shows = record {
              size = refl;
              raw = s.zero_bits n;
              encoded = decoded;
              room = S.zero_bits_length n;
              bits = λ i _. S.zero_bits_unset n i;
            };
            verifies = verified;
          },
        )

    changed_bits-within :
        (n : ℕ) (status : ℕ → Bool) (list : RevocationList) (h : Shows n status list) (index : ℕ)
        (value : Bool)
        → index < n
        → changed_bits c s list index value ≡ ok (set (s.from_vec h.raw) index value)
    unfolding changed_bits check_index decode_bits
    changed_bits-within n status list h index value within =
        let checked : ltb index list.size ≡ true = ground (arith, h.size, within) in
        let held : ltb index (length (s.from_vec h.raw)) ≡ true = ground (arith, h.room, within) in
        rw (checked, h.encoded, held) refl

    changed_bits-past :
        (n : ℕ) (status : ℕ → Bool) (list : RevocationList) (h : Shows n status list) (index : ℕ)
        (value : Bool)
        → n ≤ index
        → changed_bits c s list index value ≡ err (revocation_index_out_of_bounds index n)
    unfolding changed_bits check_index
    changed_bits-past n status list h index value past =
        let checked : ltb index n ≡ false = ground (arith, past) in rw (h.size, checked) refl

    -- A change within the size succeeds and writes that status alone.
    change_at-IsKept :
        (n : ℕ) (status : ℕ → Bool) (list : RevocationList) (index : ℕ) (value : Bool) (now : ℕ)
        → IsKept a n status list
        → index < n
        → (list' : RevocationList) × (change_at c s list index value now (software_anchor a)
            ≡ (list', ok tt))
          × IsKept a n (λ i. if i == index then value else status i) list'
    unfolding change_at update_bits
    change_at-IsKept n status list index value now k within =
        let bits = set (s.from_vec k.shows.raw) index value in
        let (e, encoded, decoded) = compress-decode c s L S a keyed (s.into_vec bits) in
        let draft : RevocationList = record list { encoded_list = e; updated = now } in
        let (sig, signed, verified) = sign_list-verify_list c s L S a keyed draft in
        let written =
          S.from-into_vec k.shows.raw bits (length-set (s.from_vec k.shows.raw) index value) in
        (
          record draft { signature = sig },
          rw
              (
                change_at,
                changed_bits-within n status list k.shows index value within,
                update_bits,
                encoded,
                signed,
              )
              refl,
          record {
            shows = record {
              size = k.shows.size;
              raw = s.into_vec bits;
              encoded = decoded;
              room = rw (written, length-set (s.from_vec k.shows.raw) index value) (k.shows.room);
              bits = λ i below.
                  ap (λ (bs : List Bool). bit_at bs i) written
                  ∙ bit_at-set (s.from_vec k.shows.raw) index i value (status i)
                      (omega (arith, within, k.shows.room)) (k.shows.bits i below);
            };
            verifies = verified;
          },
        )

    -- A change past the size is refused and changes nothing.
    change_at-past :
        (n : ℕ) (status : ℕ → Bool) (list : RevocationList) (index : ℕ) (value : Bool) (now : ℕ)
        → IsKept a n status list
        → n ≤ index
        → change_at c s list index value now (software_anchor a)
          ≡ (list, err (revocation_index_out_of_bounds index n))
    unfolding change_at
    change_at-past n status list index value now k past =
        rw (change_at, changed_bits-past n status list k.shows index value past) refl

    IsKept-same :
        (n : ℕ) (status status' : ℕ → Bool) (list : RevocationList)
        → IsKept a n status list
        → ((i : ℕ) → i < n → status i ≡ status' i)
        → IsKept a n status' list
    IsKept-same n status status' list k same = record {
      shows = record {
        size = k.shows.size;
        raw = k.shows.raw;
        encoded = k.shows.encoded;
        room = k.shows.room;
        bits = λ i below. k.shows.bits i below ∙ same i below;
      };
      verifies = k.verifies;
    }

    resign-IsKept :
        (n : ℕ) (status : ℕ → Bool) (list : RevocationList) (now : ℕ)
        → IsKept a n status list
        → IsKept a n status (resign c s list now (software_anchor a)).0
    unfolding resign
    resign-IsKept n status list now k =
        let (sig, signed, verified) =
          sign_list-verify_list c s L S a keyed (record list { updated = now }) in
        rw signed (record {
          shows = record {
            size = k.shows.size;
            raw = k.shows.raw;
            encoded = k.shows.encoded;
            room = k.shows.room;
            bits = k.shows.bits;
          };
          verifies = verified;
        })

    -- Any change leaves a list that shows the statuses with the one at the index written, within the size.
    IsKept-change_at :
        (n : ℕ) (status : ℕ → Bool) (list : RevocationList) (index : ℕ) (value : Bool) (now : ℕ)
        → IsKept a n status list
        → IsKept a n
            (λ i. if i == index then value else status i)
            (change_at c s list index value now (software_anchor a)).0
    IsKept-change_at n status list index value now k = elim (Bool-cases (ltb index n)) [
      | inl within ↦
          let (list', done, kept) =
            change_at-IsKept n status list index value now k (ground (arith, within)) in
          rw done kept
      | inr past ↦ rw (change_at-past n status list index value now k (ground (arith, past))) (
          IsKept-same n status (λ i. if i == index then value else status i) list k
            (λ i below. ground (arith, below, past)))
    ]

  -- The lists that an anchor makes of a size, with the changes that it called for, the latest first.
  pub data Made (anchor : TrustAnchor) (n : ℕ) : List Change → RevocationList → Type 0 where
    made :
        {list : RevocationList} (id : Text) (size : Option ℕ) (now : ℕ)
        → size_or_default size ≡ n
        → new_list c s id anchor size now ≡ ok list
        → Made anchor n [] list
    after_revoke :
        {changes : List Change} {list : RevocationList}
        → Made anchor n changes list
        → (index now : ℕ)
        → Made anchor n (revoked index ∷ changes) (revoke c s list index now anchor).0
    after_unrevoke :
        {changes : List Change} {list : RevocationList}
        → Made anchor n changes list
        → (index now : ℕ)
        → Made anchor n (unrevoked index ∷ changes) (unrevoke c s list index now anchor).0
    after_resign :
        {changes : List Change} {list : RevocationList}
        → Made anchor n changes list
        → (now : ℕ) → Made anchor n changes (resign c s list now anchor).0

  module _ (L : CryptoLaws c) (S : StatusLaws s) (a : AgentIdentity) (keyed : IsKeyed c a) where
    Made-IsKept :
        (n : ℕ) (changes : List Change) (list : RevocationList)
        → Made (software_anchor a) n changes list
        → IsKept a n (status_after changes) list
    unfolding revoke unrevoke status_after
    Made-IsKept n changes list (made id size now count h) =
        let (list', made', kept) = new_list-IsKept L S a keyed id size now in
        let same : list' ≡ list = ground (arith, h, made') in rw count at (rw same at kept)
    Made-IsKept n changes list (after_revoke {changes = before} {list = from} m index now) =
        IsKept-change_at L S a keyed n (status_after before) from index true now
          (Made-IsKept n before from m)
    Made-IsKept n changes list (after_unrevoke {changes = before} {list = from} m index now) =
        IsKept-change_at L S a keyed n (status_after before) from index false now
          (Made-IsKept n before from m)
    Made-IsKept n changes list (after_resign {list = from} m now) =
        resign-IsKept L S a keyed n (status_after changes) from now (Made-IsKept n changes from m)

    -- A keyed anchor's list, after any changes and however often it was signed again, verifies, and its
    -- lookup returns the status that the last change of the index gave it, or false without one; an index
    -- past the size is refused, by the lookup and by a revocation.
    pub Made-is_revoked :
        (n : ℕ) (changes : List Change) (list : RevocationList)
        → Made (software_anchor a) n changes list
        → (verify_list c s list (software_anchor a) ≡ ok tt)
          × ((i : ℕ)
              → is_revoked c s list i ≡ (
                  if ltb i n
                  then ok (status_after changes i)
                  else err (revocation_index_out_of_bounds i n)))
          × ((i now : ℕ)
              → (revoke c s list i now (software_anchor a)).1
                ≡ guard (ltb i n) (revocation_index_out_of_bounds i n))
    unfolding revoke
    Made-is_revoked n changes list m =
        let kept = Made-IsKept n changes list m in
        (
          kept.verifies,
          Shows-is_revoked n (status_after changes) list kept.shows,
          λ i now. elim (Bool-cases (ltb i n)) [
            | inl within ↦
                let (_, done, _) =
                  change_at-IsKept L S a keyed n (status_after changes) list i true now kept
                    (ground (arith, within)) in
                rw (done, within) refl
            | inr past ↦
                rw
                  (
                    change_at-past L S a keyed n (status_after changes) list i true now kept
                        (ground (arith, past)),
                    past,
                  )
                  refl
          ],
        )
