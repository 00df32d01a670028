-- ===== src/Audit/Order.antt =====
-- The order of the chain of custody: sorting, distinct keys, and lists with the same entries.
use agentcreds.Prelude.{
  ℕ, ◌≡◌, ◌≢◌, ◌⊎◌, inl, inr, refl, sym, ◌∙◌, true, false, Bool-cases, none, List, [], ◌∷◌, ◌++◌,
  arith,
}
use agentcreds.Text.{Text, text_eq→eq, text_eq_refl}
use agentcreds.Audit.{CompositeEntry, is_at, find_entry, entry_le, insert_composite, sort_composite}
use agentcreds.Audit.Precedence.{SameKey, entry_le_total, entry_le_antisym, entry_le_trans}

-- The entry comes no later than every entry of the list.
abbrev pub AllLe : CompositeEntry → List CompositeEntry → Type 0
AllLe e [] = Unit
AllLe e (f ∷ fs) = (entry_le e f ≡ true) × AllLe e fs

abbrev pub IsSorted : List CompositeEntry → Type 0
IsSorted [] = Unit
IsSorted (e ∷ es) = AllLe e es × IsSorted es

-- No two entries are of one organization and number.
abbrev pub IsDistinct : List CompositeEntry → Type 0
IsDistinct [] = Unit
IsDistinct (e ∷ es) = (find_entry es e.org_id e.seq ≡ none) × IsDistinct es

abbrev pub Present : CompositeEntry → List CompositeEntry → Type 0
Present e [] = ⊥
Present e (f ∷ fs) = (e ≡ f) ⊎ Present e fs

AllLe-trans :
    (a b : CompositeEntry) (es : List CompositeEntry)
    → entry_le a b ≡ true
    → AllLe b es
    → AllLe a es
AllLe-trans a b [] h k = tt
AllLe-trans a b (e ∷ es) h k = (entry_le_trans a b e h k.0, AllLe-trans a b es h k.1)

AllLe-insert_composite :
    (a e : CompositeEntry) (es : List CompositeEntry)
    → entry_le a e ≡ true
    → AllLe a es
    → AllLe a (insert_composite e es)
unfolding insert_composite
AllLe-insert_composite a e [] h k = (h, tt)
AllLe-insert_composite a e (f ∷ fs) h k = elim (Bool-cases (entry_le e f)) [
  | inl le ↦ rw le (h, k)
  | inr gt ↦ rw gt (k.0, AllLe-insert_composite a e fs h k.1)
]

insert_composite-IsSorted :
    (e : CompositeEntry) (es : List CompositeEntry) → IsSorted es → IsSorted (insert_composite e es)
unfolding insert_composite
insert_composite-IsSorted e [] s = (tt, tt)
insert_composite-IsSorted e (f ∷ fs) s = elim (Bool-cases (entry_le e f)) [
  | inl le ↦ rw le ((le, AllLe-trans e f fs le s.0), s)
  | inr gt ↦ rw gt (
    AllLe-insert_composite f e fs (entry_le_total e f gt) s.0,
    insert_composite-IsSorted e fs s.1,
  )
]

pub sort_composite-IsSorted : (es : List CompositeEntry) → IsSorted (sort_composite es)
unfolding sort_composite
sort_composite-IsSorted [] = tt
sort_composite-IsSorted (e ∷ es) =
    insert_composite-IsSorted e (sort_composite es) (sort_composite-IsSorted es)

insert_composite-least :
    (e : CompositeEntry) (es : List CompositeEntry) → AllLe e es → insert_composite e es ≡ e ∷ es
unfolding insert_composite
insert_composite-least e [] h = refl
insert_composite-least e (f ∷ fs) h = rw (h.0) refl

-- A sorted list is its own sorting.
pub sort_composite-sorted : (es : List CompositeEntry) → IsSorted es → sort_composite es ≡ es
unfolding sort_composite
sort_composite-sorted [] s = refl
sort_composite-sorted (e ∷ es) s =
    rw (sort_composite-sorted es s.1) (insert_composite-least e es s.0)

pub is_at-key :
    (org : Text) (seq : ℕ) (e : CompositeEntry)
    → is_at org seq e ≡ true
    → (e.org_id ≡ org) × (e.seq ≡ seq)
unfolding is_at
is_at-key org seq e h = (text_eq→eq e.org_id org (ground (arith, h)), ground (arith, h))

pub is_at_self : (e : CompositeEntry) → is_at e.org_id e.seq e ≡ true
unfolding is_at
is_at_self e = ground (arith, text_eq_refl e.org_id)

-- Inserting an entry of a new key is adding it, to a search.
find_entry-insert_composite :
    (e : CompositeEntry) (es : List CompositeEntry) (org : Text) (seq : ℕ)
    → find_entry es e.org_id e.seq ≡ none
    → find_entry (insert_composite e es) org seq ≡ find_entry (e ∷ es) org seq
unfolding insert_composite find_entry
find_entry-insert_composite e [] org seq h = refl
find_entry-insert_composite e (f ∷ fs) org seq h = ground (
  arith,
  h,
  find_entry-insert_composite e fs org seq,
  is_at-key org seq e,
  is_at-key org seq f,
  is_at_self f,
)

pub absent-cons :
    (f : CompositeEntry) (fs : List CompositeEntry) (org : Text) (seq : ℕ)
    → find_entry (f ∷ fs) org seq ≡ none
    → (is_at org seq f ≡ false) × (find_entry fs org seq ≡ none)
unfolding find_entry
absent-cons f fs org seq h = (ground (arith, h), ground (arith, h))

absent_of_key :
    (e f : CompositeEntry) (fs : List CompositeEntry)
    → is_at e.org_id e.seq f ≡ false
    → find_entry fs f.org_id f.seq ≡ none
    → find_entry (e ∷ fs) f.org_id f.seq ≡ none
unfolding find_entry
absent_of_key e f fs other h =
    ground (arith, other, h, is_at-key f.org_id f.seq e, is_at_self e, is_at_self f)

insert_composite-IsDistinct :
    (e : CompositeEntry) (es : List CompositeEntry)
    → find_entry es e.org_id e.seq ≡ none
    → IsDistinct es
    → IsDistinct (insert_composite e es)
unfolding insert_composite
insert_composite-IsDistinct e [] h d = (h, tt)
insert_composite-IsDistinct e (f ∷ fs) h d = elim (Bool-cases (entry_le e f)) [
  | inl le ↦ rw le (h, d)
  | inr gt ↦
      let (later, other) = absent-cons f fs e.org_id e.seq h in
      rw gt (
        find_entry-insert_composite e fs f.org_id f.seq other ∙ absent_of_key e f fs later d.0,
        insert_composite-IsDistinct e fs other d.1,
      )
]

-- Sorting keeps what a search finds, and keeps keys distinct.
pub find_entry-sort_composite :
    (es : List CompositeEntry) (org : Text) (seq : ℕ)
    → IsDistinct es
    → find_entry (sort_composite es) org seq ≡ find_entry es org seq
unfolding sort_composite find_entry
find_entry-sort_composite [] org seq d = refl
find_entry-sort_composite (e ∷ es) org seq d =
    let absent = find_entry-sort_composite es e.org_id e.seq d.1 ∙ d.0 in
    find_entry-insert_composite e (sort_composite es) org seq absent
    ∙ ground (arith, find_entry-sort_composite es org seq d.1)

pub sort_composite-IsDistinct :
    (es : List CompositeEntry) → IsDistinct es → IsDistinct (sort_composite es)
unfolding sort_composite
sort_composite-IsDistinct [] d = tt
sort_composite-IsDistinct (e ∷ es) d =
    insert_composite-IsDistinct e (sort_composite es)
      (find_entry-sort_composite es e.org_id e.seq d.1 ∙ d.0) (sort_composite-IsDistinct es d.1)

-- An entry that is present is found under its key.
pub Present-not_absent :
    (e f : CompositeEntry) (es : List CompositeEntry)
    → SameKey e f
    → Present e es
    → find_entry es f.org_id f.seq ≢ none
unfolding find_entry
Present-not_absent e f [] k p h = absurd p
Present-not_absent e f (g ∷ gs) k (inl p) h =
    ground (arith, absent-cons g gs f.org_id f.seq h, p, k.org_id, k.seq, is_at_self g)
Present-not_absent e f (g ∷ gs) k (inr p) h =
    Present-not_absent e f gs k p (absent-cons g gs f.org_id f.seq h).1

-- In a list of distinct keys the entries of one key are one entry.
Present-unique :
    (e f : CompositeEntry) (es : List CompositeEntry)
    → IsDistinct es
    → SameKey e f
    → Present e es
    → Present f es
    → e ≡ f
Present-unique e f [] d k p q = absurd p
Present-unique e f (g ∷ gs) d k (inl p) (inl q) = p ∙ sym q
Present-unique e f (g ∷ gs) d k (inl p) (inr q) = absurd (
    Present-not_absent f g gs
      (record { org_id = ground (arith, k.org_id, p); seq = ground (arith, k.seq, p) }) q d.0)
Present-unique e f (g ∷ gs) d k (inr p) (inl q) = absurd (
    Present-not_absent e g gs
      (record { org_id = ground (arith, k.org_id, q); seq = ground (arith, k.seq, q) }) p d.0)
Present-unique e f (g ∷ gs) d k (inr p) (inr q) = Present-unique e f gs d.1 k p q

AllLe-Present :
    (e f : CompositeEntry) (es : List CompositeEntry)
    → AllLe e es
    → Present f es
    → entry_le e f ≡ true
AllLe-Present e f [] h p = absurd p
AllLe-Present e f (g ∷ gs) h (inl p) = rw p (h.0)
AllLe-Present e f (g ∷ gs) h (inr p) = AllLe-Present e f gs h.1 p

-- What the tails of lists with equal heads have.
tail_within :
    (e f : CompositeEntry) (es fs : List CompositeEntry)
    → e ≡ f
    → IsDistinct (e ∷ es)
    → ((x : CompositeEntry) → Present x (e ∷ es) → Present x (f ∷ fs))
    → (x : CompositeEntry) → Present x es
    → Present x fs
tail_within e f es fs same d there x p = elim (there x (inr p)) [
  | inl at_head ↦ absurd (
      Present-not_absent x e es
        (record { org_id = ground (arith, at_head, same); seq = ground (arith, at_head, same) }) p
        d.0)
  | inr later ↦ later
]

-- Sorted lists of distinct keys with the same entries are equal.
pub sorted-equal :
    (es fs : List CompositeEntry)
    → IsSorted es
    → IsSorted fs
    → IsDistinct es
    → IsDistinct fs
    → ((x : CompositeEntry) → Present x es → Present x fs)
    → ((x : CompositeEntry) → Present x fs → Present x es)
    → es ≡ fs
sorted-equal [] [] se sf de df there back = refl
sorted-equal [] (f ∷ fs) se sf de df there back = absurd (back f (inl refl))
sorted-equal (e ∷ es) [] se sf de df there back = absurd (there e (inl refl))
sorted-equal (e ∷ es) (f ∷ fs) se sf de df there back =
    let same : e ≡ f = elim (there e (inl refl)) [
      | inl here ↦ here
      | inr q ↦ elim (back f (inl refl)) [
        | inl here ↦ sym here
        | inr r ↦
            let key =
              entry_le_antisym e f (AllLe-Present e f es se.0 r) (AllLe-Present f e fs sf.0 q) in
            Present-unique e f (e ∷ es) de key (inl refl) (inr r)
      ]
    ] in
    let rest =
      sorted-equal es fs se.1 sf.1 de.1 df.1 (tail_within e f es fs same de there)
        (tail_within f e fs es (sym same) df back) in
    ground (arith, same, rest)

-- Sorting keeps the entries.
Present-insert_composite :
    (x e : CompositeEntry) (es : List CompositeEntry)
    → (Present x (insert_composite e es) → Present x (e ∷ es))
      × (Present x (e ∷ es) → Present x (insert_composite e es))
unfolding insert_composite
Present-insert_composite x e [] = (λ p. p, λ p. p)
Present-insert_composite x e (f ∷ fs) = elim (Bool-cases (entry_le e f)) [
  | inl le ↦ rw le (λ p. p, λ p. p)
  | inr gt ↦
      let (back, there) = Present-insert_composite x e fs in
      rw gt (
        λ p. elim p [
          | inl here ↦ inr (inl here)
          | inr later ↦ elim (back later) [ inl at ↦ inl at | inr q ↦ inr (inr q) ]
        ],
        λ p. elim p [
          | inl here ↦ inr (there (inl here))
          | inr later ↦ elim later [ inl at ↦ inl at | inr q ↦ inr (there (inr q)) ]
        ],
      )
]

pub Present-sort_composite :
    (x : CompositeEntry) (es : List CompositeEntry)
    → (Present x (sort_composite es) → Present x es)
      × (Present x es → Present x (sort_composite es))
unfolding sort_composite
Present-sort_composite x [] = (λ p. p, λ p. p)
Present-sort_composite x (e ∷ es) =
    let (back, there) = Present-sort_composite x es in
    let (out, into) = Present-insert_composite x e (sort_composite es) in
    (
      λ p. elim (out p) [ inl here ↦ inl here | inr later ↦ inr (back later) ],
      λ p. into (elim p [ inl here ↦ inl here | inr later ↦ inr (there later) ]),
    )

pub Present-append :
    (x : CompositeEntry) (es fs : List CompositeEntry)
    → (Present x (es ++ fs) → Present x es ⊎ Present x fs)
      × (Present x es ⊎ Present x fs → Present x (es ++ fs))
Present-append x [] fs = (λ p. inr p, λ p. elim p [ inl q ↦ absurd q | inr q ↦ q ])
Present-append x (e ∷ es) fs =
    let (out, into) = Present-append x es fs in
    (
      λ p. elim p [
        | inl here ↦ inl (inl here)
        | inr later ↦ elim (out later) [ inl q ↦ inl (inr q) | inr q ↦ inr q ]
      ],
      λ p. elim p [
        | inl q ↦ elim q [ inl here ↦ inl here | inr later ↦ inr (into (inl later)) ]
        | inr q ↦ inr (into (inr q))
      ],
    )
