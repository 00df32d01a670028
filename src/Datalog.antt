-- ===== src/Datalog.antt =====
-- The Datalog that agentcreds-core/src/delegation/mod.rs writes into Biscuit blocks and requests, each
-- statement by what it says instead of its text, and when a check holds (Biscuit's documentation of
-- `check if`: some visible facts satisfy it). A block's checks see the request, the authority block
-- and the block's own facts.
pub mod Laws
use agentcreds.Prelude.{
  ℕ, Bool, true, false, ◌&&◌, ◌||◌, List, [], ◌∷◌, ◌++◌, leb, Option, none, some,
}
use agentcreds.Prelude.Int.{ℤ}
use agentcreds.Text.{Text, text_eq, contains}

-- Numbers of a token are i64, as a query returns them; those of a request are written by the verifier.
pub data Fact : Type 0 where
  vc_id issuer subject root_tool principal root_resource hop : Text → Fact
  operation resource acting_for : Text → Fact
  max_depth budget max_action_cost : ℤ → Fact
  time action_cost : ℕ → Fact
  gate : Text → Text → Fact

pub data Check : Type 0 where
  -- check if operation($op), [..].contains($op)
  operation_in : List Text → Check
  -- check if time($t), $t <= date, in seconds
  time_until : ℕ → Check
  -- check if acting_for($p), principal($p)
  acting_for_principal : Check
  -- check if resource($r), [..].contains($r)
  resource_in : List Text → Check
  -- check if action_cost($c), $c <= cap
  cost_at_most : ℕ → Check

pub record Block : Type 0 where
  pub facts : List Fact
  pub checks : List Check

-- The facts of one predicate, in order.
unfoldable pub select {ℓ} : {A : Type ℓ} → (Fact → Option A) → List Fact → List A
select f [] = []
select f (x ∷ xs) = let rest = select f xs in elim (f x) [ none ↦ rest | some a ↦ a ∷ rest ]

abbrev pub operation_of : Fact → Option Text
operation_of (operation t) = some t
operation_of _ = none

abbrev pub resource_of : Fact → Option Text
resource_of (resource t) = some t
resource_of _ = none

abbrev pub acting_for_of : Fact → Option Text
acting_for_of (acting_for t) = some t
acting_for_of _ = none

abbrev pub principal_of : Fact → Option Text
principal_of (principal t) = some t
principal_of _ = none

abbrev pub time_of : Fact → Option ℕ
time_of (time t) = some t
time_of _ = none

abbrev pub cost_of : Fact → Option ℕ
cost_of (action_cost t) = some t
cost_of _ = none

-- Some text of the first list is in the second.
unfoldable pub meets : List Text → List Text → Bool
meets [] us = false
meets (t ∷ ts) us = contains us t || meets ts us

-- Some number is at most the bound.
unfoldable pub some_at_most : List ℕ → ℕ → Bool
some_at_most [] bound = false
some_at_most (n ∷ ns) bound = leb n bound || some_at_most ns bound

unfoldable pub holds : List Fact → Check → Bool
holds facts (operation_in ts) = meets (select operation_of facts) ts
holds facts (time_until bound) = some_at_most (select time_of facts) bound
holds facts acting_for_principal = meets (select acting_for_of facts) (select principal_of facts)
holds facts (resource_in ts) = meets (select resource_of facts) ts
holds facts (cost_at_most cap) = some_at_most (select cost_of facts) cap

unfoldable pub all_hold : List Fact → List Check → Bool
all_hold facts [] = true
all_hold facts (k ∷ ks) = holds facts k && all_hold facts ks

-- Every check of every block, under the facts of the request and of the authority block.
unfoldable pub blocks_pass : List Fact → List Block → Bool
blocks_pass facts [] = true
blocks_pass facts (b ∷ bs) = all_hold (facts ++ b.facts) b.checks && blocks_pass facts bs

unfoldable pub authority_facts : List Block → List Fact
authority_facts [] = []
authority_facts (b ∷ bs) = b.facts

-- The whole token.
unfoldable pub token_passes : List Fact → List Block → Bool
unfolding authority_facts
token_passes request blocks = blocks_pass (request ++ authority_facts blocks) blocks
