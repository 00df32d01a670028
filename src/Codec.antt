-- ===== src/Codec.antt =====
-- The byte encodings that are hashed before signing: little-endian words and length-prefixed fields
-- (`hash_field` of agentcreds-core/src/approval.rs, `write_field` of agentcreds-core/src/rotation.rs,
-- and the same pattern written out in delegation/mod.rs and pop.rs). A hash is modelled by what is
-- fed to it, in order.
use agentcreds.Prelude.{
  ℕ, zero, suc, ◌/◌, ◌%◌, ◌^◌, ◌<◌, ◌≡◌, refl, ap, Option, none, some, [], ◌∷◌, ◌++◌, arith, length,
}
use native.Mathlib.Nat.{pow-suc}
use agentcreds.Text.{Text}

-- `to_le_bytes` of a k-byte word.
unfoldable pub le_bytes : ℕ → ℕ → Text
le_bytes zero n = []
le_bytes (suc k) n = (n % 256) ∷ le_bytes k (n / 256)

unfoldable pub u64_le : ℕ → Text
u64_le n = le_bytes 8 n

unfoldable pub hash_field : Text → Text
unfolding u64_le le_bytes
hash_field f = u64_le (length f) ++ f

-- `Some` is a one byte and the field, `None` a zero byte.
unfoldable pub opt_field : Option Text → Text
unfolding hash_field
opt_field none = 0 ∷ []
opt_field (some f) = 1 ∷ hash_field f

pub length-le_bytes : (k n : ℕ) → length (le_bytes k n) ≡ k
unfolding le_bytes
length-le_bytes zero n = refl
length-le_bytes (suc k) n = ap suc (length-le_bytes k (n / 256))

-- Two equal byte strings that begin with words of one width have equal words and equal rests.
pub le_bytes_injective :
    (k m n : ℕ) (xs ys : Text)
    → m < 256 ^ k
    → n < 256 ^ k
    → le_bytes k m ++ xs ≡ le_bytes k n ++ ys
    → (m ≡ n) × (xs ≡ ys)
unfolding le_bytes
le_bytes_injective zero m n xs ys hm hn e = (omega arith, e)
le_bytes_injective (suc k) m n xs ys hm hn e =
    let (same, rest) =
      le_bytes_injective k (m / 256) (n / 256) xs ys (below m hm) (below n hn) (ground arith) in
    (ground (arith, same), rest)
  where
    below : (i : ℕ) → i < 256 ^ suc k → i / 256 < 256 ^ k
    below i h = omega (arith, pow-suc 256 k)

pub append_injective :
    (as' bs xs ys : Text) → length as' ≡ length bs → as' ++ xs ≡ bs ++ ys → (as' ≡ bs) × (xs ≡ ys)
append_injective [] [] xs ys l e = (refl, e)
append_injective [] (b ∷ bs) xs ys l e = absurd (omega arith)
append_injective (a ∷ as') [] xs ys l e = absurd (omega arith)
append_injective (a ∷ as') (b ∷ bs) xs ys l e =
    let (same, rest) = append_injective as' bs xs ys (omega arith) (ground arith) in
    (ground (arith, same), rest)

-- What a 64-bit length can hold.
abbrev pub Fits : Text → Type 0
Fits f = length f < 2 ^ 64

abbrev pub FitsOpt : Option Text → Type 0
FitsOpt none = Unit
FitsOpt (some f) = Fits f

pub hash_field_injective :
    (f g xs ys : Text)
    → Fits f
    → Fits g
    → hash_field f ++ xs ≡ hash_field g ++ ys
    → (f ≡ g) × (xs ≡ ys)
unfolding hash_field
hash_field_injective f g xs ys hf hg e =
    let (len, rest) = le_bytes_injective 8 (length f) (length g) (f ++ xs) (g ++ ys) hf hg e in
    append_injective f g xs ys len rest

pub opt_field_injective :
    (f g : Option Text) (xs ys : Text)
    → FitsOpt f
    → FitsOpt g
    → opt_field f ++ xs ≡ opt_field g ++ ys
    → (f ≡ g) × (xs ≡ ys)
unfolding opt_field
opt_field_injective none none xs ys hf hg e = (refl, ground arith)
opt_field_injective none (some g) xs ys hf hg e = absurd (ground arith)
opt_field_injective (some f) none xs ys hf hg e = absurd (ground arith)
opt_field_injective (some f) (some g) xs ys hf hg e =
    let (same, rest) = hash_field_injective f g xs ys hf hg (ground arith) in (ap some same, rest)

-- The same at the end of the string.
pub opt_field_injective_end :
    (f g : Option Text) → FitsOpt f → FitsOpt g → opt_field f ≡ opt_field g → f ≡ g
opt_field_injective_end f g hf hg e =
    (opt_field_injective f g [] [] hf hg (ap (λ (t : Text). t ++ []) e)).0

pub hash_field_injective_end : (f g : Text) → Fits f → Fits g → hash_field f ≡ hash_field g → f ≡ g
hash_field_injective_end f g hf hg e =
    (hash_field_injective f g [] [] hf hg (ap (λ (t : Text). t ++ []) e)).0
