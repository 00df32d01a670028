-- ===== src/Delegation/Permits.antt =====
-- What a request must satisfy to pass an honest block: the scope, the expiry and the principal that
-- the block was built from.
use agentcreds.Prelude.{
  ℕ, ◌≡◌, ◌≤◌, refl, true, Option, none, some, List, [], ◌∷◌, ◌++◌, map, arith, leb, leb→le,
}
use agentcreds.Text.{Text, contains, sort_texts, contains-sort_texts}
use agentcreds.Action.{Action}
use agentcreds.Did.{AgentIdentity}
use agentcreds.Credential.{CapabilityCredential, on_behalf_of, required_gates}
use agentcreds.Credential.Claims.{PrincipalAuthorization}
use agentcreds.Datalog
use agentcreds.Datalog.{
  Fact, Check, Block, select, operation_of, resource_of, acting_for_of, principal_of, time_of,
  cost_of, meets, some_at_most, holds, all_hold, operation_in, time_until, resource_in,
  cost_at_most, acting_for_principal,
}
use agentcreds.Delegation.Scope.{Scope}
use agentcreds.Delegation.Statements.{Statement, check, facts_of, checks_of}
use agentcreds.Delegation.Mint.{
  seconds, text_fact, gate_fact, budget_statements, cap_statements, resource_check,
  principal_statements, authority_statements,
}
use agentcreds.Delegation.Attenuate.{hop_statements}
use agentcreds.Delegation.Visible.{
  is_request, request_free, request_free-facts_of, request_free-texts, request_free-gates,
  select-visible, request_facts, to_list, operation_only, resource_only, time_only, cost_only,
  request_operation, request_time, request_resource, request_cost, all_hold-checks_of,
}

-- A capped scope needs a priced action, at most at the cap.
abbrev pub CostWithin : Option ℕ → Option ℕ → Type 0
CostWithin none cost = Unit
CostWithin (some cap) none = ⊥
CostWithin (some cap) (some cost) = cost ≤ cap

-- A scope with resources needs an action on one of them.
abbrev pub ResourceWithin : List Text → Option Text → Type 0
ResourceWithin [] resource = Unit
ResourceWithin (r ∷ rs) none = ⊥
ResourceWithin (r ∷ rs) (some resource) = contains (r ∷ rs) resource ≡ true

pub record Permits (scope : Scope) (expires_at : ℕ) (action : Action) (now : ℕ) : Type 0 where
  pub tool : contains scope.tools action.tool ≡ true
  pub time : seconds now ≤ seconds expires_at
  pub cost : CostWithin scope.max_action_cost action.cost
  pub resource : ResourceWithin (sort_texts scope.resources) action.resource

priced :
    (cost : Option ℕ) (cap : ℕ)
    → some_at_most (to_list cost) cap ≡ true
    → CostWithin (some cap) cost
unfolding some_at_most
priced none cap h = cc
priced (some cost) cap h = ground arith

on_resource :
    (r : Text) (rs : List Text) (resource : Option Text)
    → meets (to_list resource) (r ∷ rs) ≡ true
    → ResourceWithin (r ∷ rs) resource
unfolding meets
on_resource r rs none h = cc
on_resource r rs (some t) h = ground arith

split_checks :
    (facts : List Fact) (ss us : List Statement)
    → all_hold facts (checks_of (ss ++ us)) ≡ true
    → (all_hold facts (checks_of ss) ≡ true) × (all_hold facts (checks_of us) ≡ true)
split_checks facts ss us h = ground (arith, all_hold-checks_of facts ss us)

-- What an honest block's checks see.
module _ (action : Action) (now : ℕ) (authority own : List Fact)
    (ha : request_free authority ≡ true) (ho : request_free own ≡ true) where
  abbrev visible : List Fact
  visible = (request_facts action now ++ authority) ++ own

  holds-operation_in : (ts : List Text) → holds visible (operation_in ts) ≡ contains ts action.tool
  unfolding holds
  holds-operation_in ts =
      rw
        (
          select-visible operation_of (request_facts action now) authority own operation_only ha ho,
          request_operation action now,
        )
        (unfold meets in ground arith)

  holds-time_until : (bound : ℕ) → holds visible (time_until bound) ≡ leb (seconds now) bound
  unfolding holds
  holds-time_until bound =
      rw
        (
          select-visible time_of (request_facts action now) authority own time_only ha ho,
          request_time action now,
        )
        (unfold some_at_most in ground arith)

  holds-resource_in :
      (ts : List Text) → holds visible (resource_in ts) ≡ meets (to_list action.resource) ts
  unfolding holds
  holds-resource_in ts = rw (
    select-visible resource_of (request_facts action now) authority own resource_only ha ho,
    request_resource action now,
  )

  holds-cost_at_most :
      (cap : ℕ) → holds visible (cost_at_most cap) ≡ some_at_most (to_list action.cost) cap
  unfolding holds
  holds-cost_at_most cap = rw (
    select-visible cost_of (request_facts action now) authority own cost_only ha ho,
    request_cost action now,
  )

  cap_within :
      (cap : Option ℕ)
      → all_hold visible (checks_of (cap_statements cap)) ≡ true
      → CostWithin cap action.cost
  unfolding checks_of cap_statements all_hold
  cap_within none h = tt
  cap_within (some cap) h = priced action.cost cap (ground (arith, holds-cost_at_most cap))

  resource_within :
      (rs : List Text)
      → all_hold visible (checks_of (resource_check rs)) ≡ true
      → ResourceWithin rs action.resource
  unfolding checks_of resource_check all_hold
  resource_within [] h = tt
  resource_within (r ∷ rs) h =
      on_resource r rs action.resource (ground (arith, holds-resource_in (r ∷ rs)))

  -- The checks that the authority block and a hop's block share.
  module _ (scope : Scope) (expires_at : ℕ) where
    abbrev tools_and_time : List Statement
    tools_and_time =
        check (sort_texts scope.tools) (operation_in (sort_texts scope.tools))
        ∷ check [] (time_until (seconds expires_at))
        ∷ []

    pub checks-Permits :
        all_hold visible (checks_of tools_and_time) ≡ true
        → all_hold visible (checks_of (cap_statements scope.max_action_cost)) ≡ true
        → all_hold visible (checks_of (resource_check (sort_texts scope.resources))) ≡ true
        → Permits scope expires_at action now
    unfolding checks_of all_hold
    checks-Permits shared cap resources = record {
      tool = ground (
        arith,
        holds-operation_in (sort_texts scope.tools),
        contains-sort_texts scope.tools action.tool,
      );
      time =
          leb→le (seconds now) (seconds expires_at)
            (ground (arith, holds-time_until (seconds expires_at)));
      cost = cap_within scope.max_action_cost cap;
      resource = resource_within (sort_texts scope.resources) resources;
    }

    pub hop-Permits :
        (agent : AgentIdentity)
        → all_hold visible (checks_of (hop_statements scope expires_at agent)) ≡ true
        → Permits scope expires_at action now
    unfolding hop_statements checks_of
    hop-Permits agent h =
        let resources = resource_check (sort_texts scope.resources) in
        let cap = cap_statements scope.max_action_cost in
        let (shared, rest) =
          split_checks visible tools_and_time (resources ++ (cap ++ map gate_fact scope.gates)) h in
        let (limits, rest') =
          split_checks visible resources (cap ++ map gate_fact scope.gates) rest in
        let (capped, _) = split_checks visible cap (map gate_fact scope.gates) rest' in
        checks-Permits shared capped limits

    pub authority-Permits :
        (vc : CapabilityCredential)
        → all_hold visible (checks_of (authority_statements vc scope expires_at)) ≡ true
        → Permits scope expires_at action now
    unfolding authority_statements checks_of
    authority-Permits vc h =
        let cap = cap_statements scope.max_action_cost in
        let tools = map (text_fact Datalog.Fact.root_tool) (sort_texts scope.tools) in
        let principal = principal_statements (on_behalf_of vc) in
        let facts = map (text_fact Datalog.Fact.root_resource) (sort_texts scope.resources) in
        let resources = resource_check (sort_texts scope.resources) in
        let gates = map gate_fact (scope.gates ++ required_gates vc) in
        let (_, h₁) = split_checks visible (budget_statements scope.budget_usd) _ h in
        let (capped, h₂) = split_checks visible cap _ h₁ in
        let (_, h₃) = split_checks visible tools _ h₂ in
        let (shared, h₄) =
          split_checks visible tools_and_time (principal ++ (facts ++ (resources ++ gates))) h₃ in
        let (_, h₅) = split_checks visible principal (facts ++ (resources ++ gates)) h₄ in
        let (_, h₆) = split_checks visible facts (resources ++ gates) h₅ in
        checks-Permits shared capped (split_checks visible resources gates h₆).0

budget_free : (o : Option ℕ) → request_free (facts_of (budget_statements o)) ≡ true
unfolding budget_statements facts_of request_free is_request
budget_free none = refl
budget_free (some b) = refl

cap_free : (o : Option ℕ) → request_free (facts_of (cap_statements o)) ≡ true
unfolding cap_statements facts_of request_free is_request
cap_free none = refl
cap_free (some b) = refl

principal_free :
    (o : Option PrincipalAuthorization) → request_free (facts_of (principal_statements o)) ≡ true
unfolding principal_statements facts_of request_free is_request
principal_free none = refl
principal_free (some b) = refl

resource_free : (rs : List Text) → request_free (facts_of (resource_check rs)) ≡ true
unfolding resource_check facts_of request_free
resource_free [] = refl
resource_free (r ∷ rs) = refl

-- The facts of the blocks that this crate writes are of no request's kind.
pub authority-request_free :
    (vc : CapabilityCredential) (scope : Scope) (expires_at : ℕ)
    → request_free (facts_of (authority_statements vc scope expires_at)) ≡ true
unfolding authority_statements facts_of request_free is_request
authority-request_free vc scope expires_at =
    let tools = sort_texts scope.tools in
    let resources = sort_texts scope.resources in
    request_free-facts_of (budget_statements scope.budget_usd) _ (budget_free scope.budget_usd) (
      request_free-facts_of (cap_statements scope.max_action_cost) _
        (cap_free scope.max_action_cost)
        (request_free-facts_of (map (text_fact Datalog.Fact.root_tool) tools) _
          (request_free-texts Datalog.Fact.root_tool (λ t. refl) tools)
          (request_free-facts_of (principal_statements (on_behalf_of vc)) _
            (principal_free (on_behalf_of vc))
            (request_free-facts_of (map (text_fact Datalog.Fact.root_resource) resources) _
              (request_free-texts Datalog.Fact.root_resource (λ t. refl) resources)
              (request_free-facts_of (resource_check resources) _ (resource_free resources)
                (request_free-gates (scope.gates ++ required_gates vc)))))))

pub hop-request_free :
    (scope : Scope) (expires_at : ℕ) (agent : AgentIdentity)
    → request_free (facts_of (hop_statements scope expires_at agent)) ≡ true
unfolding hop_statements facts_of request_free is_request
hop-request_free scope expires_at agent =
    let resources = sort_texts scope.resources in
    request_free-facts_of (resource_check resources) _ (resource_free resources) (
      request_free-facts_of (cap_statements scope.max_action_cost) _
        (cap_free scope.max_action_cost) (request_free-gates scope.gates))
