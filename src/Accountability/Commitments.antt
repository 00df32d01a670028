-- ===== src/Accountability/Commitments.antt =====
-- The bytes of an ownership commitment of agentcreds-core/src/accountability.rs.
use agentcreds.Prelude.{
  ℕ, ◌^◌, ◌<◌, ◌≡◌, ◌⊎◌, inl, inr, refl, sym, ◌∙◌, ap, true, not, List, [], ◌∷◌, ltb, length, arith,
}
use agentcreds.Outcome.{ok, guard-eq-ok}
use agentcreds.Text.{Text, contains, sort_texts, contains-sort_texts}
use agentcreds.Text.Order.{dedup, dedup-sort_texts-IsStrict, contains-dedup, IsStrict-equal}
use agentcreds.Codec.{u64_le, Fits, le_bytes_injective, hash_field_injective, append_injective}
use agentcreds.Crypto.{Crypto, DigestLaws, IsShaCollision, equal_or_collision}
use agentcreds.Text.Case.{eq_ignore_ascii_case_refl, eq_ignore_ascii_case-lower}
use agentcreds.Accountability.{
  OwnershipRecord, ownership_domain, min_salt_len, is_blank, new_ownership, member_fields,
  ownership_bytes, ownership_commitment, matches_commitment,
}

abbrev pub AllFit : List Text → Type 0
AllFit [] = Unit
AllFit (m ∷ ms) = Fits m × AllFit ms

-- The numbers are of 64 bits and the strings shorter than 2 ^ 64 bytes.
pub record IsSized (r : OwnershipRecord) : Type 0 where
  pub party_id : Fits r.party_id
  pub version : r.version < 2 ^ 64
  pub salt : Fits r.salt
  pub count : length r.members < 2 ^ 64
  pub members : AllFit r.members

member_fields_injective :
    (ms ns : List Text)
    → length ms ≡ length ns
    → AllFit ms
    → AllFit ns
    → member_fields ms ≡ member_fields ns
    → ms ≡ ns
unfolding member_fields
member_fields_injective [] [] l hm hn e = refl
member_fields_injective [] (n ∷ ns) l hm hn e = absurd (omega arith)
member_fields_injective (m ∷ ms) [] l hm hn e = absurd (omega arith)
member_fields_injective (m ∷ ms) (n ∷ ns) l hm hn e =
    let (same, later) =
      hash_field_injective m n (member_fields ms) (member_fields ns) hm.0 hn.0 e in
    let rest = member_fields_injective ms ns (omega arith) hm.1 hn.1 later in
    ground (arith, same, rest)

ownership_bytes_injective :
    (a b : OwnershipRecord) → IsSized a → IsSized b → ownership_bytes a ≡ ownership_bytes b → a ≡ b
unfolding ownership_bytes u64_le
ownership_bytes_injective a b ha hb e =
    let (_, r₀) = append_injective ownership_domain ownership_domain _ _ refl e in
    let (e₁, r₁) = hash_field_injective a.party_id b.party_id _ _ ha.party_id hb.party_id r₀ in
    let (e₂, r₂) = le_bytes_injective 8 a.version b.version _ _ ha.version hb.version r₁ in
    let (e₃, r₃) = hash_field_injective a.salt b.salt _ _ ha.salt hb.salt r₂ in
    let (len, r₄) =
      le_bytes_injective 8 (length a.members) (length b.members) _ _ ha.count hb.count r₃ in
    let e₅ = member_fields_injective a.members b.members len ha.members hb.members r₄ in
    ground (arith, e₁, e₂, e₃, e₅)

-- A record that `new` made.
new_ownership-members :
    (party_id : Text) (version : ℕ) (members : List Text) (salt : Text) (r : OwnershipRecord)
    → new_ownership party_id version members salt ≡ ok r
    → r.members ≡ dedup (sort_texts members)
unfolding new_ownership
new_ownership-members party_id version members salt r h =
    let (_, h₁) = guard-eq-ok (not (is_blank party_id)) _ _ h in
    let (_, h₂) = guard-eq-ok (not (ltb (length salt) min_salt_len)) _ _ h₁ in ground (arith, h₂)

same_members :
    (ms ns : List Text)
    → ((t : Text) → contains ms t ≡ contains ns t)
    → dedup (sort_texts ms) ≡ dedup (sort_texts ns)
same_members ms ns h =
    IsStrict-equal (dedup (sort_texts ms)) (dedup (sort_texts ns)) (dedup-sort_texts-IsStrict ms)
      (dedup-sort_texts-IsStrict ns)
      (λ t.
        contains-dedup (sort_texts ms) t
        ∙ (contains-sort_texts ms t
            ∙ (h t ∙ sym (contains-dedup (sort_texts ns) t ∙ contains-sort_texts ns t))))

contains-members : (ms : List Text) (t : Text) → contains (dedup (sort_texts ms)) t ≡ contains ms t
contains-members ms t = contains-dedup (sort_texts ms) t ∙ contains-sort_texts ms t

members_of :
    (a b : OwnershipRecord) (ms ns : List Text)
    → a ≡ b
    → a.members ≡ dedup (sort_texts ms)
    → b.members ≡ dedup (sort_texts ns)
    → (t : Text) → contains ms t ≡ contains ns t
members_of a b ms ns same ha hb t =
    sym (contains-members ms t)
    ∙ (ap (λ (l : List Text). contains l t)
          (sym ha ∙ (ap (λ (r : OwnershipRecord). r.members) same ∙ hb))
        ∙ contains-members ns t)

-- The order and the repetitions of the members make no difference: two lists with the same members give
-- the same result, be it a record or an error; and a record matches its own commitment.
pub new_ownership_of_members :
    (c : Crypto) (party_id : Text) (version : ℕ) (ms ns : List Text) (salt : Text)
    → ((t : Text) → contains ms t ≡ contains ns t)
    → (new_ownership party_id version ms salt ≡ new_ownership party_id version ns salt)
      × ((r : OwnershipRecord) → matches_commitment c r (ownership_commitment c r) ≡ true)
unfolding new_ownership matches_commitment
new_ownership_of_members c party_id version ms ns salt h =
    (rw (same_members ms ns h) refl, λ r. eq_ignore_ascii_case_refl (ownership_commitment c r))

-- A record that matches another's commitment, the numbers of both of 64 bits and their strings shorter
-- than 2 ^ 64 bytes, is that record, and the lists of members that the two were made of have the same
-- members, or their bytes are a collision of SHA-256.
pub matches_commitment-members :
    (c : Crypto) (D : DigestLaws c) (a b : OwnershipRecord) (ms ns : List Text)
    → IsSized a
    → IsSized b
    → new_ownership a.party_id a.version ms a.salt ≡ ok a
    → new_ownership b.party_id b.version ns b.salt ≡ ok b
    → matches_commitment c a (ownership_commitment c b) ≡ true
    → ((a ≡ b) × ((t : Text) → contains ms t ≡ contains ns t))
      ⊎ IsShaCollision c (ownership_bytes a) (ownership_bytes b)
unfolding matches_commitment ownership_commitment
matches_commitment-members c D a b ms ns ha hb made_a made_b h =
    let lowers =
      eq_ignore_ascii_case-lower (ownership_commitment c a) (ownership_commitment c b) h in
    let digests = D.hex_encode_injective _ _ (
      sym (D.lower-hex_encode (c.sha256 (ownership_bytes a)))
      ∙ (lowers ∙ D.lower-hex_encode (c.sha256 (ownership_bytes b)))) in
    elim (equal_or_collision c (ownership_bytes a) (ownership_bytes b) digests) [
      | inl bytes ↦
          let same = ownership_bytes_injective a b ha hb bytes in
          inl (
            same,
            members_of a b ms ns same
                (new_ownership-members a.party_id a.version ms a.salt a made_a)
                (new_ownership-members b.party_id b.version ns b.salt b made_b),
          )
      | inr collision ↦ inr collision
    ]
