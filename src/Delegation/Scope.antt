-- ===== src/Delegation/Scope.antt =====
-- `Scope`, its builders and the subset test.
pub mod Order
use agentcreds.Prelude.{
  ℕ, ◌≡◌, Bool, true, false, not, ◌&&◌, Option, none, some, List, [], ◌∷◌, ◌++◌, leb, ltb,
  if◌then◌else◌,
}
use agentcreds.Text.{Text, is_subset, first_outside, contains, strip_star, starts_with}
use agentcreds.Gate.{Gate, approval_gate}

-- Amounts are cents, u32.
pub record Scope : Type 0 where
  pub tools : List Text
  pub budget_usd : Option ℕ
  pub max_action_cost : Option ℕ
  pub max_depth : ℕ
  pub resources : List Text
  pub gates : List Gate

unfoldable pub new : List Text → Scope
new tools = record {
  tools = tools;
  budget_usd = none;
  max_action_cost = none;
  max_depth = 0;
  resources = [];
  gates = [];
}

unfoldable pub with_budget_and_depth : List Text → Option ℕ → ℕ → Scope
with_budget_and_depth tools budget depth = record {
  tools = tools;
  budget_usd = budget;
  max_action_cost = none;
  max_depth = depth;
  resources = [];
  gates = [];
}

unfoldable pub with_max_action_cost : Scope → ℕ → Scope
with_max_action_cost s cents = record s { max_action_cost = some cents }

unfoldable pub with_resources : Scope → List Text → Scope
with_resources s resources = record s { resources = resources }

unfoldable pub require_approval : Scope → Text → Scope
require_approval s tool = record s { gates = s.gates ++ approval_gate tool ∷ [] }

unfoldable pub with_gates : Scope → List Gate → Scope
with_gates s gates = record s { gates = s.gates ++ gates }

-- `if let (Some(a), Some(b)) = … { if a > b { return false } }`
unfoldable pub within : Option ℕ → Option ℕ → Bool
within (some a) (some b) = not (ltb b a)
within (some a) none = true
within none b = true

-- The match on the two caps: removing a cap is widening.
unfoldable pub cap_tightens : Option ℕ → Option ℕ → Bool
cap_tightens child none = true
cap_tightens none (some cap) = false
cap_tightens (some child) (some cap) = not (ltb cap child)

unfoldable pub is_subset_of : Scope → Scope → Bool
is_subset_of self parent =
    if not (is_subset self.tools parent.tools)
    then false
    else if not (within self.budget_usd parent.budget_usd)
    then false
    else if ltb parent.max_depth self.max_depth
    then false
    else if not (cap_tightens self.max_action_cost parent.max_action_cost)
    then false
    else within self.max_action_cost parent.budget_usd

unfoldable pub first_widening_capability : Scope → Scope → Option Text
first_widening_capability self parent = first_outside self.tools parent.tools

-- The resource lies under one of the patterns, a trailing `*` stripped.
unfoldable pub resource_within_authority : Text → List Text → Bool
resource_within_authority resource [] = false
resource_within_authority resource (p ∷ ps) =
    let rest = resource_within_authority resource ps in
    if starts_with (strip_star p) resource then true else rest

-- The first resource outside the patterns.
unfoldable pub first_uncovered : List Text → List Text → Option Text
first_uncovered [] patterns = none
first_uncovered (r ∷ rs) patterns =
    let rest = first_uncovered rs patterns in
    if resource_within_authority r patterns then rest else some r
