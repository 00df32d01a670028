-- ===== src/Text/Case.antt =====
-- Comparison of strings up to the case of ASCII letters.
use agentcreds.Prelude.{
  ℕ, ◌+◌, ◌≡◌, refl, true, false, Bool, ◌&&◌, [], ◌∷◌, leb, ◌==◌, arith, if◌then◌else◌,
}
use agentcreds.Text.{Text}

-- `eq_ignore_ascii_case`
abbrev pub ascii_lower : ℕ → ℕ
ascii_lower b = if leb 65 b && leb b 90 then b + 32 else b

unfoldable pub eq_ignore_ascii_case : Text → Text → Bool
eq_ignore_ascii_case [] [] = true
eq_ignore_ascii_case (x ∷ xs) (y ∷ ys) =
    ascii_lower x == ascii_lower y && eq_ignore_ascii_case xs ys
eq_ignore_ascii_case _ _ = false

abbrev pub lower : Text → Text
lower [] = []
lower (x ∷ xs) = ascii_lower x ∷ lower xs

pub eq_ignore_ascii_case_refl : (t : Text) → eq_ignore_ascii_case t t ≡ true
unfolding eq_ignore_ascii_case
eq_ignore_ascii_case_refl [] = refl
eq_ignore_ascii_case_refl (x ∷ xs) = ground (arith, eq_ignore_ascii_case_refl xs)

-- Strings that compare equal are equal in lower case.
pub eq_ignore_ascii_case-lower : (s t : Text) → eq_ignore_ascii_case s t ≡ true → lower s ≡ lower t
unfolding eq_ignore_ascii_case
eq_ignore_ascii_case-lower [] [] h = refl
eq_ignore_ascii_case-lower [] (y ∷ ys) h = cc
eq_ignore_ascii_case-lower (x ∷ xs) [] h = cc
eq_ignore_ascii_case-lower (x ∷ xs) (y ∷ ys) h =
    let first : ascii_lower x ≡ ascii_lower y = ground (arith, h) in
    let rest = eq_ignore_ascii_case-lower xs ys (ground (arith, h)) in rw (first, rest) refl
