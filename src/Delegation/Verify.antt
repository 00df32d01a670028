-- ===== src/Delegation/Verify.antt =====
-- `DelegationToken::verify_inner` and the identity check of every hop.
use agentcreds.Prelude.{
  ℕ, zero, suc, ◌-◌, Bool, false, not, Option, none, some, List, [], ◌∷◌, ◌++◌, ltb, ◌==◌, length,
  get_elem?,
}
use agentcreds.Outcome.{
  Result, ok, ◌>>=◌, ◌>>◌, guard, ok_or, invalid_biscuit_signature, delegation_depth_exceeded,
  token_expired, acting_for_mismatch, action_denied,
}
use agentcreds.Text.{Text, text_eq}
use agentcreds.Crypto.{Crypto}
use agentcreds.Did.{Resolver, verify_delegation_attestation_resolved}
use agentcreds.Action.{Action}
use agentcreds.Datalog
use agentcreds.Biscuit.{Biscuit}
use agentcreds.Delegation.Statements.{Statement, fact, add_all, empty_block}
use agentcreds.Delegation.Token.{Hop, DelegationToken, depth, min_expiry, parse}
use agentcreds.Delegation.Mint.{seconds, text_fact}

-- `external.get(k).and_then(|o| o.as_ref())`
abbrev pub join {ℓ} : {A : Type ℓ} → Option (Option A) → Option A
join none = none
join (some o) = o

abbrev pub option_fact : (Text → Datalog.Fact) → Option Text → List Statement
option_fact f none = []
option_fact f (some t) = text_fact f t ∷ []

abbrev pub cost_fact : Option ℕ → List Statement
cost_fact none = []
cost_fact (some cost) = fact [] (Datalog.Fact.action_cost cost) ∷ []

-- The facts of a request.
unfoldable pub request_statements : Action → ℕ → List Statement
request_statements action now =
    fact [] (Datalog.Fact.time (seconds now))
    ∷ text_fact Datalog.Fact.operation action.tool
    ∷ (option_fact Datalog.Fact.resource action.resource
        ++ (cost_fact action.cost ++ option_fact Datalog.Fact.acting_for action.acting_for))

unfoldable pub check_expiry : Option ℕ → ℕ → Result (Unit {0})
check_expiry none now = ok tt
check_expiry (some e) now = guard (not (ltb e now)) (token_expired (seconds (now - e)))

abbrev pub same_principal : Option Text → Text → Bool
same_principal none principal = false
same_principal (some p) principal = text_eq p principal

unfoldable pub check_principal : Option Text → Action → Result (Unit {0})
check_principal none action = ok tt
check_principal (some principal) action =
    guard (same_principal action.acting_for principal)
      (acting_for_mismatch principal action.acting_for)

-- The recorded key of hop k + 1 must be the signer of block k + 1.
unfoldable pub check_signer : List (Option Text) → ℕ → Hop → Result (Unit {0})
check_signer external zero hop = ok tt
check_signer external (suc k) hop = do
  signer ←
      ok_or (join (get_elem? external (suc k)))
        (invalid_biscuit_signature "not a third-party block")
  guard (text_eq signer hop.delegation_public)
      (invalid_biscuit_signature "block signer does not match the hop delegation key")
  ok tt

module _ (c : Crypto) (B : Biscuit) where
  -- The loop over the hops, from index k.
  unfoldable pub check_hops :
      Option Resolver → List (Option Text) → ℕ → List Hop → Result (Unit {0})
  check_hops resolver external k [] = ok tt
  check_hops resolver external k (hop ∷ hops) = do
    verify_delegation_attestation_resolved c hop.agent_did hop.delegation_public hop.attestation
        resolver
    check_signer external k hop
    check_hops resolver external (suc k) hops

  unfoldable pub parse_and_check_identity : DelegationToken → Option Resolver → Result B.Token
  parse_and_check_identity token resolver = do
    parsed ← parse B token
    guard (B.block_count parsed.1 == length token.hops)
        (invalid_biscuit_signature "block count does not match hop count")
    guard (text_eq token.subject_cache parsed.0.agent_did)
        (invalid_biscuit_signature "authority subject does not match root signer DID")
    check_hops resolver (B.external_public_keys parsed.1) zero token.hops
    ok parsed.1

  unfoldable pub authorize_action : B.Token → Action → ℕ → Result (Unit {0})
  authorize_action t action now = do
    request ← add_all B (request_statements action now) empty_block
    guard (B.authorize t request.facts) (action_denied action.tool "authorization")
    ok tt

  unfoldable pub verify_inner : DelegationToken → Action → Option Resolver → ℕ → Result (Unit {0})
  verify_inner token action resolver now = do
    t ← parse_and_check_identity token resolver
    guard (not (ltb token.root_max_depth_cache (depth token)))
        (delegation_depth_exceeded (depth token) token.root_max_depth_cache)
    check_expiry (min_expiry token.hops) now
    check_principal token.principal_cache action
    authorize_action t action now
