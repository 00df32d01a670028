-- ===== src/Delegation/Visible.antt =====
-- Which facts of a request the checks of an honest block see: the blocks that this crate writes hold
-- no fact of the kinds that a request brings.
use agentcreds.Prelude.{
  ℕ, ◌≡◌, refl, Bool, true, false, not, ◌&&◌, Option, none, some, List, [], ◌∷◌, ◌++◌, map, arith,
}
use mathlib.Core.List.{append-nil}
use agentcreds.Text.{Text}
use agentcreds.Gate.{Gate}
use agentcreds.Action.{Action}
use agentcreds.Datalog
use agentcreds.Datalog.{
  Fact, Check, Block, select, operation_of, resource_of, acting_for_of, principal_of, time_of,
  cost_of, all_hold,
}
use agentcreds.Datalog.Laws.{select-append, all_hold-append}
use agentcreds.Delegation.Statements.{
  Statement, facts_of, checks_of, facts_of-append, checks_of-append,
}
use agentcreds.Delegation.Mint.{seconds, text_fact, gate_fact}
use agentcreds.Delegation.Verify.{request_statements}

unfoldable pub is_request : Fact → Bool
is_request (Datalog.Fact.operation t) = true
is_request (Datalog.Fact.resource t) = true
is_request (Datalog.Fact.acting_for t) = true
is_request (Datalog.Fact.time t) = true
is_request (Datalog.Fact.action_cost t) = true
is_request _ = false

unfoldable pub request_free : List Fact → Bool
request_free [] = true
request_free (f ∷ fs) = not (is_request f) && request_free fs

pub request_free-append :
    (fs gs : List Fact) → request_free (fs ++ gs) ≡ (request_free fs && request_free gs)
unfolding request_free
request_free-append [] gs = refl
request_free-append (f ∷ fs) gs = ground (arith, request_free-append fs gs)

pub request_free-facts_of :
    (ss us : List Statement)
    → request_free (facts_of ss) ≡ true
    → request_free (facts_of us) ≡ true
    → request_free (facts_of (ss ++ us)) ≡ true
request_free-facts_of ss us p q =
    rw (facts_of-append ss us) (ground (arith, request_free-append (facts_of ss) (facts_of us)))

pub request_free-texts :
    (f : Text → Fact)
    → ((t : Text) → is_request (f t) ≡ false)
    → (ts : List Text) → request_free (facts_of (map (text_fact f) ts)) ≡ true
unfolding request_free facts_of
request_free-texts f p [] = refl
request_free-texts f p (t ∷ ts) = ground (arith, p t, request_free-texts f p ts)

pub request_free-gates : (gs : List Gate) → request_free (facts_of (map gate_fact gs)) ≡ true
unfolding request_free facts_of is_request
request_free-gates [] = refl
request_free-gates (g ∷ gs) = request_free-gates gs

-- A selector that picks only facts of a request.
abbrev pub OnlyRequest {ℓ} : {A : Type ℓ} → (Fact → Option A) → Type ℓ
OnlyRequest f = (x : Fact) → is_request x ≡ false → f x ≡ none

pub select-request_free {ℓ} :
    {A : Type ℓ} (f : Fact → Option A) (fs : List Fact)
    → OnlyRequest f
    → request_free fs ≡ true
    → select f fs ≡ []
unfolding select request_free
select-request_free f [] p h = refl
select-request_free f (x ∷ xs) p h = ground (arith, p x, select-request_free f xs p)

-- What the checks of an honest block see of such a selector is what the request says.
pub select-visible {ℓ} :
    {A : Type ℓ} (f : Fact → Option A) (request authority own : List Fact)
    → OnlyRequest f
    → request_free authority ≡ true
    → request_free own ≡ true
    → select f ((request ++ authority) ++ own) ≡ select f request
select-visible f request authority own p ha ho =
    rw
      (
        select-append f (request ++ authority) own,
        select-append f request authority,
        select-request_free f authority p ha,
        select-request_free f own p ho,
        append-nil (select f request ++ []),
      )
      (append-nil (select f request))

pub operation_only : OnlyRequest operation_of
unfolding is_request
operation_only (Datalog.Fact.operation t) h = cc
operation_only _ h = refl

pub resource_only : OnlyRequest resource_of
unfolding is_request
resource_only (Datalog.Fact.resource t) h = cc
resource_only _ h = refl

pub acting_for_only : OnlyRequest acting_for_of
unfolding is_request
acting_for_only (Datalog.Fact.acting_for t) h = cc
acting_for_only _ h = refl

pub time_only : OnlyRequest time_of
unfolding is_request
time_only (Datalog.Fact.time t) h = cc
time_only _ h = refl

pub cost_only : OnlyRequest cost_of
unfolding is_request
cost_only (Datalog.Fact.action_cost t) h = cc
cost_only _ h = refl

abbrev pub request_facts : Action → ℕ → List Fact
request_facts action now = facts_of (request_statements action now)

abbrev pub to_list {ℓ} : {A : Type ℓ} → Option A → List A
to_list none = []
to_list (some a) = a ∷ []

-- What a request says.
module _ (action : Action) (now : ℕ) where
  pub request_operation : select operation_of (request_facts action now) ≡ action.tool ∷ []
  unfolding request_statements facts_of select
  request_operation = ground arith

  pub request_time : select time_of (request_facts action now) ≡ seconds now ∷ []
  unfolding request_statements facts_of select
  request_time = ground arith

  pub request_resource : select resource_of (request_facts action now) ≡ to_list action.resource
  unfolding request_statements facts_of select
  request_resource = ground arith

  pub request_cost : select cost_of (request_facts action now) ≡ to_list action.cost
  unfolding request_statements facts_of select
  request_cost = ground arith

  pub request_acting_for :
      select acting_for_of (request_facts action now) ≡ to_list action.acting_for
  unfolding request_statements facts_of select
  request_acting_for = ground arith

  pub request_principal : select principal_of (request_facts action now) ≡ []
  unfolding request_statements facts_of select
  request_principal = ground arith

-- The checks of two lists of statements.
pub all_hold-checks_of :
    (facts : List Fact) (ss us : List Statement)
    → all_hold facts (checks_of (ss ++ us))
      ≡ (all_hold facts (checks_of ss) && all_hold facts (checks_of us))
all_hold-checks_of facts ss us =
    rw (checks_of-append ss us) (all_hold-append facts (checks_of ss) (checks_of us))
