-- ===== src/Text/Order.antt =====
-- The order of strings, and `Vec::dedup` on sorted vectors.
use agentcreds.Prelude.{
  ◌≡◌, inl, inr, refl, true, false, Bool-cases, List, [], ◌∷◌, arith, if◌then◌else◌,
}
use agentcreds.Text.{
  Text, text_eq, text_eq→eq, text_eq_refl, text_le, contains, insert_sorted, sort_texts,
}

pub text_le_total : (s t : Text) → text_le s t ≡ false → text_le t s ≡ true
unfolding text_le
text_le_total [] t h = cc
text_le_total (x ∷ xs) [] h = refl
text_le_total (x ∷ xs) (y ∷ ys) h = ground (arith, text_le_total xs ys)

pub text_le_antisym : (s t : Text) → text_le s t ≡ true → text_le t s ≡ true → s ≡ t
unfolding text_le
text_le_antisym [] [] h k = refl
text_le_antisym [] (y ∷ ys) h k = cc
text_le_antisym (x ∷ xs) [] h k = cc
text_le_antisym (x ∷ xs) (y ∷ ys) h k = ground (arith, text_le_antisym xs ys)

pub text_le_trans : (s t u : Text) → text_le s t ≡ true → text_le t u ≡ true → text_le s u ≡ true
unfolding text_le
text_le_trans [] t u h k = refl
text_le_trans (x ∷ xs) [] u h k = cc
text_le_trans (x ∷ xs) (y ∷ ys) [] h k = cc
text_le_trans (x ∷ xs) (y ∷ ys) (z ∷ zs) h k = ground (arith, text_le_trans xs ys zs)

-- `Vec::dedup`.
unfoldable pub dedup : List Text → List Text
dedup [] = []
dedup (t ∷ []) = t ∷ []
dedup (t ∷ u ∷ us) = let rest = dedup (u ∷ us) in if text_eq t u then rest else t ∷ rest

abbrev AllLe : Text → List Text → Type 0
AllLe t [] = Unit
AllLe t (u ∷ us) = (text_le t u ≡ true) × AllLe t us

abbrev IsSorted : List Text → Type 0
IsSorted [] = Unit
IsSorted (t ∷ ts) = AllLe t ts × IsSorted ts

-- The string comes before every string of the list.
abbrev AllLt : Text → List Text → Type 0
AllLt t [] = Unit
AllLt t (u ∷ us) = (text_le t u ≡ true) × (text_eq t u ≡ false) × AllLt t us

-- In order and without repetitions.
abbrev pub IsStrict : List Text → Type 0
IsStrict [] = Unit
IsStrict (t ∷ ts) = AllLt t ts × IsStrict ts

AllLe-trans : (t u : Text) (us : List Text) → text_le t u ≡ true → AllLe u us → AllLe t us
AllLe-trans t u [] h k = tt
AllLe-trans t u (v ∷ vs) h k = (text_le_trans t u v h k.0, AllLe-trans t u vs h k.1)

AllLe-insert_sorted :
    (a t : Text) (ts : List Text) → text_le a t ≡ true → AllLe a ts → AllLe a (insert_sorted t ts)
unfolding insert_sorted
AllLe-insert_sorted a t [] h k = (h, tt)
AllLe-insert_sorted a t (u ∷ us) h k = elim (Bool-cases (text_le t u)) [
  | inl le ↦ rw le (h, k)
  | inr gt ↦ rw gt (k.0, AllLe-insert_sorted a t us h k.1)
]

insert_sorted-IsSorted : (t : Text) (ts : List Text) → IsSorted ts → IsSorted (insert_sorted t ts)
unfolding insert_sorted
insert_sorted-IsSorted t [] s = (tt, tt)
insert_sorted-IsSorted t (u ∷ us) s = elim (Bool-cases (text_le t u)) [
  | inl le ↦ rw le ((le, AllLe-trans t u us le s.0), s)
  | inr gt ↦
      rw gt (AllLe-insert_sorted u t us (text_le_total t u gt) s.0, insert_sorted-IsSorted t us s.1)
]

sort_texts-IsSorted : (ts : List Text) → IsSorted (sort_texts ts)
unfolding sort_texts
sort_texts-IsSorted [] = tt
sort_texts-IsSorted (t ∷ ts) = insert_sorted-IsSorted t (sort_texts ts) (sort_texts-IsSorted ts)

-- What comes before the head of a sorted list comes before all of it.
AllLt-sorted :
    (t u : Text) (us : List Text)
    → text_le t u ≡ true
    → text_eq t u ≡ false
    → AllLe u us
    → AllLt t us
AllLt-sorted t u [] le ne h = tt
AllLt-sorted t u (v ∷ vs) le ne h = (
  text_le_trans t u v le h.0,
  elim (Bool-cases (text_eq t v)) [
    | inr other ↦ other
    | inl same ↦
        let is_v = text_eq→eq t v same in
        let back : text_le u t ≡ true = rw is_v (h.0) in
        absurd (ground (arith, ne, text_le_antisym t u le back, text_eq_refl u))
  ],
  AllLt-sorted t u vs le ne h.1,
)

AllLt-dedup : (t : Text) (ts : List Text) → AllLt t ts → AllLt t (dedup ts)
unfolding dedup
AllLt-dedup t [] h = tt
AllLt-dedup t (u ∷ []) h = h
AllLt-dedup t (u ∷ v ∷ vs) h = elim (Bool-cases (text_eq u v)) [
  | inl same ↦ rw same (AllLt-dedup t (v ∷ vs) h.2)
  | inr other ↦ rw other (h.0, h.1, AllLt-dedup t (v ∷ vs) h.2)
]

dedup-IsStrict : (ts : List Text) → IsSorted ts → IsStrict (dedup ts)
unfolding dedup
dedup-IsStrict [] s = tt
dedup-IsStrict (t ∷ []) s = (tt, tt)
dedup-IsStrict (t ∷ u ∷ us) s = elim (Bool-cases (text_eq t u)) [
  | inl same ↦ rw same (dedup-IsStrict (u ∷ us) s.1)
  | inr other ↦ rw other (
    AllLt-dedup t (u ∷ us) (s.0.0, other, AllLt-sorted t u us s.0.0 other s.1.0),
    dedup-IsStrict (u ∷ us) s.1,
  )
]

-- Sorting and then removing repetitions is in order and without repetitions.
pub dedup-sort_texts-IsStrict : (ts : List Text) → IsStrict (dedup (sort_texts ts))
dedup-sort_texts-IsStrict ts = dedup-IsStrict (sort_texts ts) (sort_texts-IsSorted ts)

pub contains-dedup : (ts : List Text) (t : Text) → contains (dedup ts) t ≡ contains ts t
unfolding dedup contains
contains-dedup [] t = refl
contains-dedup (u ∷ []) t = refl
contains-dedup (u ∷ v ∷ vs) t =
    ground (arith, contains-dedup (v ∷ vs) t, text_eq→eq u v, text_eq_refl v)

AllLt-contains : (t : Text) (ts : List Text) → AllLt t ts → contains ts t ≡ false
unfolding contains
AllLt-contains t [] h = refl
AllLt-contains t (u ∷ us) h =
    ground (arith, h, AllLt-contains t us h.2, text_eq→eq u t, text_eq_refl t)

AllLt-le : (t u : Text) (ts : List Text) → AllLt t ts → contains ts u ≡ true → text_le t u ≡ true
unfolding contains
AllLt-le t u [] h k = cc
AllLt-le t u (v ∷ vs) h k = ground (arith, h, k, AllLt-le t u vs h.2, text_eq→eq v u)

-- Lists in order and without repetitions that have the same elements are equal.
pub IsStrict-equal :
    (ts us : List Text)
    → IsStrict ts
    → IsStrict us
    → ((t : Text) → contains ts t ≡ contains us t)
    → ts ≡ us
unfolding contains
IsStrict-equal [] [] st su h = refl
IsStrict-equal [] (u ∷ us) st su h = absurd (ground (arith, h u, text_eq_refl u))
IsStrict-equal (t ∷ ts) [] st su h = absurd (ground (arith, h t, text_eq_refl t))
IsStrict-equal (t ∷ ts) (u ∷ us) st su h =
    let same = heads t u ts us st.0 su.0 (h t) (h u) in
    let rest = IsStrict-equal ts us st.1 su.1 (tails t u ts us same st.0 su.0 h) in
    ground (arith, same, rest)
  where
    heads :
        (t u : Text) (ts us : List Text)
        → AllLt t ts
        → AllLt u us
        → contains (t ∷ ts) t ≡ contains (u ∷ us) t
        → contains (t ∷ ts) u ≡ contains (u ∷ us) u
        → t ≡ u
    heads t u ts us st su ht hu = ground (
      arith,
      ht,
      hu,
      text_eq_refl t,
      text_eq_refl u,
      text_eq→eq t u,
      text_eq→eq u t,
      AllLt-le t u ts st,
      AllLt-le u t us su,
      text_le_antisym t u,
    )

    tails :
        (t u : Text) (ts us : List Text)
        → t ≡ u
        → AllLt t ts
        → AllLt u us
        → ((x : Text) → contains (t ∷ ts) x ≡ contains (u ∷ us) x)
        → (x : Text) → contains ts x ≡ contains us x
    tails t u ts us same st su h x = ground (
      arith,
      h x,
      same,
      AllLt-contains t ts st,
      AllLt-contains u us su,
      text_eq→eq t x,
      text_eq→eq u x,
    )
