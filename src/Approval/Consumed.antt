-- ===== src/Approval/Consumed.antt =====
-- `ConsumedApprovals`: the approvals a relying party has already relied upon. The set is a list.
use agentcreds.Prelude.{
  ℕ, ◌+◌, ◌≤◌, ◌≡◌, refl, Bool, true, false, not, ◌||◌, List, [], ◌∷◌, if◌then◌else◌, arith,
}
use agentcreds.Text.{Text, text_eq, text_eq→eq, contains}

pub record ConsumedApprovals : Type 0 where
  pub seen : List Text

abbrev pub empty : ConsumedApprovals
empty = record { seen = [] }

unfoldable pub has_consumed : ConsumedApprovals → Text → Bool
has_consumed s id = contains s.seen id

-- `HashSet::insert` returns whether the element is new.
unfoldable pub try_consume : ConsumedApprovals → Text → ConsumedApprovals × Bool
unfolding has_consumed
try_consume s id = if has_consumed s id then (s, false) else (record s { seen = id ∷ s.seen }, true)

-- Consuming a list of ids in turn, with the answer to each.
unfoldable pub consume_all : ConsumedApprovals → List Text → List Bool
consume_all s [] = []
consume_all s (id ∷ ids) = let (s', fresh) = try_consume s id in fresh ∷ consume_all s' ids

-- How often an id was granted.
unfoldable pub grants : Text → List Text → List Bool → ℕ
grants id (i ∷ ids) (b ∷ bs) = (if text_eq i id then (if b then 1 else 0) else 0) + grants id ids bs
grants id _ _ = 0

-- What one attempt does: it answers whether the id is new, and afterwards the id is not.
pub try_consume-answer :
    (s : ConsumedApprovals) (i : Text) → (try_consume s i).1 ≡ not (has_consumed s i)
unfolding try_consume
try_consume-answer s i = ground arith

pub has_consumed-try_consume :
    (s : ConsumedApprovals) (i id : Text)
    → has_consumed (try_consume s i).0 id ≡ (text_eq i id || has_consumed s id)
unfolding try_consume contains
has_consumed-try_consume s i id = ground (arith, text_eq→eq i id)

consumed-grants :
    (id : Text) (s : ConsumedApprovals) (ids : List Text)
    → has_consumed s id ≡ true
    → grants id ids (consume_all s ids) ≡ 0
unfolding consume_all grants
consumed-grants id s [] h = refl
consumed-grants id s (i ∷ ids) h = ground (
  arith,
  try_consume-answer s i,
  has_consumed-try_consume s i id,
  text_eq→eq i id,
  consumed-grants id (try_consume s i).0 ids,
)

-- Whatever the record and the sequence of attempts, an approval is granted at most once.
pub grants-le-one :
    (id : Text) (s : ConsumedApprovals) (ids : List Text) → grants id ids (consume_all s ids) ≤ 1
unfolding consume_all grants
grants-le-one id s [] = omega arith
grants-le-one id s (i ∷ ids) = ground (
  arith,
  has_consumed-try_consume s i id,
  consumed-grants id (try_consume s i).0 ids,
  grants-le-one id (try_consume s i).0 ids,
)
