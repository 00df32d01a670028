-- ===== src/Text.antt =====
-- Rust strings as their bytes: equality, order, prefixes, and the sets and sorted vectors of strings
-- that agentcreds-core/src/delegation/mod.rs uses. A `HashSet` is a list of its elements in some order.
pub mod Case
pub mod Order
use Prim.Native.Char.{code}
use Prim.Native.Nat.{compare, Ordering}
use agentcreds.Prelude.{
  sym, ◌∙◌, ℕ, ◌≡◌, ◌↔◌, ◌⊎◌, inl, inr, Among, Bool-cases, refl, Bool, true, false, ◌&&◌, ◌||◌,
  Option, none, some, List, [], ◌∷◌, ◌++◌, arith, ◌==◌, if◌then◌else◌, String,
}

abbrev pub Text : Type 0
Text = List ℕ

-- The bytes of an ASCII literal.
abbrev pub codes : String → Text
codes String.[] = []
codes (String.◌∷◌ c s) = code c ∷ codes s

unfoldable pub text_eq : Text → Text → Bool
text_eq [] [] = true
text_eq (x ∷ xs) (y ∷ ys) = x == y && text_eq xs ys
text_eq _ _ = false

pub text_eq→eq : (s t : Text) → text_eq s t ≡ true → s ≡ t
unfolding text_eq
text_eq→eq [] [] h = refl
text_eq→eq [] (y ∷ ys) h = cc
text_eq→eq (x ∷ xs) [] h = cc
text_eq→eq (x ∷ xs) (y ∷ ys) h = ground (arith, text_eq→eq xs ys)

pub text_eq_refl : (s : Text) → text_eq s s ≡ true
unfolding text_eq
text_eq_refl [] = refl
text_eq_refl (x ∷ xs) = ground (arith, text_eq_refl xs)

-- `Ord for str`, bytewise.
unfoldable pub text_le : Text → Text → Bool
text_le [] t = true
text_le (x ∷ xs) [] = false
text_le (x ∷ xs) (y ∷ ys) =
    let rest = text_le xs ys in
    elim (compare x y) [ Ordering.lt ↦ true | Ordering.eq ↦ rest | Ordering.gt ↦ false ]

-- `str::starts_with` and `str::strip_prefix`.
unfoldable pub strip_prefix : Text → Text → Option Text
strip_prefix [] t = some t
strip_prefix (x ∷ xs) [] = none
strip_prefix (x ∷ xs) (y ∷ ys) = let rest = strip_prefix xs ys in if x == y then rest else none

unfoldable pub starts_with : Text → Text → Bool
starts_with [] t = true
starts_with (x ∷ xs) [] = false
starts_with (x ∷ xs) (y ∷ ys) = x == y && starts_with xs ys

-- A prefix is what some suffix completes.
pub starts_with_sound : (p t : Text) → starts_with p t ≡ true → (rest : Text) × (t ≡ p ++ rest)
unfolding starts_with
starts_with_sound [] t h = (t, refl)
starts_with_sound (x ∷ xs) [] h = cc
starts_with_sound (x ∷ xs) (y ∷ ys) h =
    let (rest, e) = starts_with_sound xs ys (ground arith) in (rest, ground arith)

pub starts_with-append : (p rest : Text) → starts_with p (p ++ rest) ≡ true
unfolding starts_with
starts_with-append [] rest = refl
starts_with-append (x ∷ xs) rest = ground (arith, starts_with-append xs rest)

-- `strip_suffix('*').unwrap_or(p)`.
unfoldable pub strip_star : Text → Text
strip_star [] = []
strip_star (c ∷ []) = if c == b'*' then [] else c ∷ []
strip_star (c ∷ d ∷ rest) = c ∷ strip_star (d ∷ rest)

-- `Iterator::any(|u| u == t)` and `HashSet::contains`.
unfoldable pub contains : List Text → Text → Bool
unfolding text_eq
contains [] t = false
contains (u ∷ us) t = text_eq u t || contains us t

-- `HashSet::is_subset`.
unfoldable pub is_subset : List Text → List Text → Bool
is_subset [] bs = true
is_subset (a ∷ as') bs = contains bs a && is_subset as' bs

-- `self.difference(other).next()`.
unfoldable pub first_outside : List Text → List Text → Option Text
first_outside [] bs = none
first_outside (a ∷ as') bs = if contains bs a then first_outside as' bs else some a

-- The test decides membership.
pub contains_iff : (us : List Text) (t : Text) → (contains us t ≡ true) ↔ Among t us
unfolding contains
contains_iff [] t = (λ h. cc, λ p. absurd p)
contains_iff (u ∷ us) t = (
  λ h. elim (Bool-cases (text_eq u t)) [
    | inl same ↦ inl (sym (text_eq→eq u t same))
    | inr other ↦ inr ((contains_iff us t).0 (ground (arith, h, other)))
  ],
  λ p. elim p [
    | inl here ↦ ground (arith, here, text_eq_refl u)
    | inr later ↦ ground (arith, (contains_iff us t).1 later)
  ],
)

pub contains_of_subset :
    (as' bs : List Text) (t : Text)
    → is_subset as' bs ≡ true
    → contains as' t ≡ true
    → contains bs t ≡ true
unfolding is_subset contains
contains_of_subset [] bs t s h = cc
contains_of_subset (a ∷ as') bs t s h = ground (arith, contains_of_subset as' bs t, text_eq→eq a t)

is_subset_skip :
    (as' bs : List Text) (b : Text) → is_subset as' bs ≡ true → is_subset as' (b ∷ bs) ≡ true
unfolding is_subset contains
is_subset_skip [] bs b h = refl
is_subset_skip (a ∷ as') bs b h = ground (arith, is_subset_skip as' bs b)

pub is_subset_refl : (as' : List Text) → is_subset as' as' ≡ true
unfolding is_subset contains
is_subset_refl [] = refl
is_subset_refl (a ∷ as') =
    ground (arith, text_eq_refl a, is_subset_skip as' as' a (is_subset_refl as'))

pub subset_trans :
    (as' bs cs : List Text)
    → is_subset as' bs ≡ true
    → is_subset bs cs ≡ true
    → is_subset as' cs ≡ true
unfolding is_subset
subset_trans [] bs cs s t = refl
subset_trans (a ∷ as') bs cs s t =
    ground (arith, subset_trans as' bs cs, contains_of_subset bs cs a)

pub first_outside-none :
    (as' bs : List Text) → is_subset as' bs ≡ true → first_outside as' bs ≡ none
unfolding is_subset first_outside
first_outside-none [] bs s = refl
first_outside-none (a ∷ as') bs s = ground (arith, first_outside-none as' bs)

pub first_outside-some :
    (as' bs : List Text) (t : Text)
    → first_outside as' bs ≡ some t
    → (contains as' t ≡ true) × (contains bs t ≡ false)
unfolding first_outside contains
first_outside-some [] bs t h = cc
first_outside-some (a ∷ as') bs t h = ground (arith, first_outside-some as' bs t, text_eq_refl a)

-- `sort_unstable` on strings; equal strings cannot be told apart.
unfoldable pub insert_sorted : Text → List Text → List Text
insert_sorted t [] = t ∷ []
insert_sorted t (u ∷ us) = if text_le t u then t ∷ u ∷ us else u ∷ insert_sorted t us

unfoldable pub sort_texts : List Text → List Text
sort_texts [] = []
sort_texts (t ∷ ts) = insert_sorted t (sort_texts ts)

pub contains-insert_sorted :
    (t u : Text) (us : List Text) → contains (insert_sorted t us) u ≡ (text_eq t u || contains us u)
unfolding insert_sorted contains
contains-insert_sorted t u [] = refl
contains-insert_sorted t u (v ∷ vs) = ground (arith, contains-insert_sorted t u vs)

-- Sorting keeps the elements.
pub contains-sort_texts : (ts : List Text) (u : Text) → contains (sort_texts ts) u ≡ contains ts u
unfolding sort_texts contains
contains-sort_texts [] u = refl
contains-sort_texts (t ∷ ts) u =
    ground (arith, contains-insert_sorted t u (sort_texts ts), contains-sort_texts ts u)

pub is_subset_of_contains :
    (as' bs : List Text)
    → ((t : Text) → contains as' t ≡ true → contains bs t ≡ true)
    → is_subset as' bs ≡ true
unfolding is_subset contains
is_subset_of_contains [] bs h = refl
is_subset_of_contains (a ∷ as') bs h =
    ground
      (arith, h a, text_eq_refl a, is_subset_of_contains as' bs (λ t m. h t (ground (arith, m))))

-- Sorting the smaller set keeps it a subset.
pub is_subset-sort_texts :
    (as' bs : List Text) → is_subset as' bs ≡ true → is_subset (sort_texts as') bs ≡ true
is_subset-sort_texts as' bs h =
    is_subset_of_contains (sort_texts as') bs
      (λ t m. contains_of_subset as' bs t h (sym (contains-sort_texts as' t) ∙ m))
