-- ===== src/Spiffe/Svids/Parts.antt =====
-- The parts of a JWT, and a SPIFFE identifier and its text.
use agentcreds.Prelude.{
  ℕ, ◌≡◌, ◌≢◌, refl, sym, Bool, true, false, not, Option, none, some, List, [], ◌∷◌, Among, inl,
  inr, ◌++◌, ◌==◌, arith,
}
use mathlib.Core.List.{append-nil}
use agentcreds.Outcome.{ok, >>=-eq-ok, guard-eq-ok, ok_or-eq-ok, ok_or}
use agentcreds.Text.{Text, codes, strip_prefix}
use agentcreds.Credential.{is_empty}
use agentcreds.Spiffe.{
  SpiffeId, slash_step, split_slash, parse_spiffe_id, id_of, uri, split_dots, split_step,
}

strip_prefix_sound : (p t rest : Text) → strip_prefix p t ≡ some rest → t ≡ p ++ rest
unfolding strip_prefix
strip_prefix_sound [] t rest h = ground (arith, h)
strip_prefix_sound (x ∷ xs) [] rest h = cc
strip_prefix_sound (x ∷ xs) (y ∷ ys) rest h = ground (arith, h, strip_prefix_sound xs ys rest)

split_slash_sound : (t a b : Text) → split_slash t ≡ some (a, b) → t ≡ a ++ b'/' ∷ b
unfolding split_slash
split_slash_sound [] a b h = cc
split_slash_sound (x ∷ xs) a b h =
    split (x == b'/') (split_slash xs) (λ e. ground (arith, e))
      (λ c d e. split_slash_sound xs c d e) h
  where
    split :
        (test : Bool) (o : Option (Text × Text))
        → (test ≡ true → x ≡ b'/')
        → ((c d : Text) → o ≡ some (c, d) → xs ≡ c ++ b'/' ∷ d)
        → slash_step x xs test o ≡ some (a, b)
        → x ∷ xs ≡ a ++ b'/' ∷ b
    split true o at ih k = ground (arith, at refl, k)
    split false none at ih k = cc
    split false (some (c, d)) at ih k = ground (arith, ih c d refl, k)

id_of-render :
    (rest : Text) (o : Option (Text × Text))
    → split_slash rest ≡ o
    → (id_of rest o).trust_domain ++ (id_of rest o).path ≡ rest
id_of-render rest none h = append-nil rest
id_of-render rest (some (d, p)) h = sym (split_slash_sound rest d p h)

-- An identifier that is parsed is rendered back as it was.
pub parse_spiffe_id-uri : (t : Text) (id : SpiffeId) → parse_spiffe_id t ≡ ok id → uri id ≡ t
unfolding parse_spiffe_id uri
parse_spiffe_id-uri t id h =
    let (rest, e, h₁) = >>=-eq-ok (ok_or (strip_prefix (codes "spiffe://") t) _) _ h in
    let parsed = id_of rest (split_slash rest) in
    let (_, h₂) = guard-eq-ok (not (is_empty parsed.trust_domain)) _ _ h₁ in
    let same : parsed ≡ id = ground (arith, h₂) in
    let whole =
      strip_prefix_sound (codes "spiffe://") t rest
        (ok_or-eq-ok (strip_prefix (codes "spiffe://") t) _ e) in
    rw (sym same, id_of-render rest (split_slash rest) refl) (sym whole)

-- The domain ends at the first slash, and the path is the rest from there on.
pub record IsSpiffeId (id : SpiffeId) : Type 0 where
  pub named : id.trust_domain ≢ []
  pub domain : ¬ Among b'/' id.trust_domain
  pub path : (x : ℕ) (xs : Text) → id.path ≡ x ∷ xs → x ≡ b'/'

id_of-domain : (t : Text) → ¬ Among b'/' (id_of t (split_slash t)).trust_domain
unfolding split_slash
id_of-domain [] = λ p. p
id_of-domain (x ∷ xs) =
    split (x == b'/') (split_slash xs) (λ e same. ground (arith, e, same)) (id_of-domain xs)
  where
    split :
        (test : Bool) (o : Option (Text × Text))
        → (test ≡ false → x ≢ b'/')
        → ¬ Among b'/' (id_of xs o).trust_domain
        → ¬ Among b'/' (id_of (x ∷ xs) (slash_step x xs test o)).trust_domain
    split true o other ih p = p
    split false none other ih p = elim p [ inl here ↦ other refl (sym here) | inr later ↦ ih later ]
    split false (some (c, d)) other ih p = elim p [
      | inl here ↦ other refl (sym here)
      | inr later ↦ ih later
    ]

id_of-path :
    (t : Text) (o : Option (Text × Text)) (x : ℕ) (xs : Text) → (id_of t o).path ≡ x ∷ xs → x ≡ b'/'
id_of-path t none x xs h = cc
id_of-path t (some (d, p)) x xs h = ground (arith, h)

is_empty_false : (t : Text) → not (is_empty t) ≡ true → t ≢ []
is_empty_false [] h e = cc
is_empty_false (x ∷ xs) h e = cc

pub parse_spiffe_id-IsSpiffeId :
    (t : Text) (id : SpiffeId) → parse_spiffe_id t ≡ ok id → IsSpiffeId id
unfolding parse_spiffe_id
parse_spiffe_id-IsSpiffeId t id h =
    let (rest, _, h₁) = >>=-eq-ok (ok_or (strip_prefix (codes "spiffe://") t) _) _ h in
    let parsed = id_of rest (split_slash rest) in
    let (full, h₂) = guard-eq-ok (not (is_empty parsed.trust_domain)) _ _ h₁ in
    let same : parsed ≡ id = ground (arith, h₂) in
    let valid : IsSpiffeId parsed = record {
      named = is_empty_false parsed.trust_domain full;
      domain = id_of-domain rest;
      path = id_of-path rest (split_slash rest);
    } in
    rw same at valid

abbrev pub join_dots : List Text → Text
join_dots [] = []
join_dots (p ∷ []) = p
join_dots (p ∷ q ∷ qs) = p ++ b'.' ∷ join_dots (q ∷ qs)

join_step :
    (x : ℕ) (xs : Text) (test : Bool) (ps : List Text)
    → (test ≡ true → x ≡ b'.')
    → ps ≢ []
    → join_dots ps ≡ xs
    → join_dots (split_step x test ps) ≡ x ∷ xs
join_step x xs test [] at some_part h = absurd (some_part refl)
join_step x xs true (p ∷ ps) at some_part h = ground (arith, at refl, h)
join_step x xs false (p ∷ []) at some_part h = ground (arith, h)
join_step x xs false (p ∷ q ∷ qs) at some_part h = ground (arith, h)

split_step-nonempty : (x : ℕ) (test : Bool) (ps : List Text) → split_step x test ps ≢ []
split_step-nonempty x true ps e = cc
split_step-nonempty x false [] e = cc
split_step-nonempty x false (p ∷ ps) e = cc

split_dots-nonempty : (t : Text) → split_dots t ≢ []
unfolding split_dots
split_dots-nonempty [] e = cc
split_dots-nonempty (x ∷ xs) e = split_step-nonempty x (x == b'.') (split_dots xs) e

-- The parts are joined back.
pub split_dots-join_dots : (t : Text) → join_dots (split_dots t) ≡ t
unfolding split_dots
split_dots-join_dots [] = refl
split_dots-join_dots (x ∷ xs) =
    join_step x xs (x == b'.') (split_dots xs) (λ e. ground (arith, e)) (split_dots-nonempty xs)
      (split_dots-join_dots xs)
