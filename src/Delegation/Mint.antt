-- ===== src/Delegation/Mint.antt =====
-- `DelegationToken::mint`. The clock, which the code reads twice, is one argument.
use Prim.Native.Nat.{min}
use agentcreds.Prelude.{ℕ, ◌+◌, ◌/◌, ◌^◌, not, Option, none, some, List, [], ◌∷◌, ◌++◌, ltb, map}
use agentcreds.Prelude.Int.{pos}
use agentcreds.Outcome.{
  Result, ok, err, ◌>>=◌, ◌>>◌, guard, credential_expired, invalid_biscuit_signature, out_of_bounds,
  scope_widening_attempt, consent_violation,
}
use agentcreds.Text.{Text, codes, text_eq, sort_texts}
use agentcreds.Gate.{Gate}
use agentcreds.Did.{AgentIdentity}
use agentcreds.Credential.{
  CapabilityCredential, claims, subject_did, on_behalf_of, required_gates, is_valid_at,
}
use agentcreds.Credential.Claims.{PrincipalAuthorization, max_token_ttl_secs, nanos}
use agentcreds.Datalog
use agentcreds.Datalog.{
  Block, operation_in, time_until, acting_for_principal, resource_in, cost_at_most,
}
use agentcreds.Biscuit.{Biscuit}
use agentcreds.Delegation.Scope.{
  Scope, with_budget_and_depth, is_subset_of, first_widening_capability, first_uncovered,
}
use agentcreds.Delegation.Statements.{Statement, fact, check, add_all, empty_block}
use agentcreds.Delegation.Token.{Hop, DelegationToken, unhydrated, bz, secret_ok, hydrate}

-- `first_widening_capability(..).unwrap_or_else(|| "budget or depth".into())`
abbrev pub or_budget : Option Text → Text
or_budget none = codes "budget or depth"
or_budget (some t) = t

-- A date literal has second precision.
abbrev pub seconds : ℕ → ℕ
seconds t = t / 10 ^ 9

-- The authority that the credential grants, as a scope.
unfoldable pub vc_scope : CapabilityCredential → Scope
vc_scope vc =
    with_budget_and_depth (claims vc).tools (claims vc).budget_usd (claims vc).max_delegation_depth

unfoldable pub refuse_ceiling : Option Text → Result (Unit {0})
refuse_ceiling none = ok tt
refuse_ceiling (some r) = err (scope_widening_attempt r)

unfoldable pub within_ceiling : List Text → Option (List Text) → Result (Unit {0})
unfolding refuse_ceiling
within_ceiling resources none = ok tt
within_ceiling resources (some allowed) = refuse_ceiling (first_uncovered resources allowed)

unfoldable pub refuse_consent : Option Text → Result (Unit {0})
refuse_consent none = ok tt
refuse_consent (some r) = err (consent_violation r)

-- The resources lie within the entitlement of the principal, where it lists one.
unfoldable pub within_entitlement : List Text → List Text → Result (Unit {0})
unfolding refuse_consent
within_entitlement resources [] = ok tt
within_entitlement resources (p ∷ ps) = refuse_consent (first_uncovered resources (p ∷ ps))

unfoldable pub within_consent : List Text → Option PrincipalAuthorization → Result (Unit {0})
unfolding within_entitlement
within_consent resources none = ok tt
within_consent resources (some obo) = within_entitlement resources obo.resource_authority

abbrev pub text_fact : (Text → Datalog.Fact) → Text → Statement
text_fact f t = fact (t ∷ []) (f t)

unfoldable pub budget_statements : Option ℕ → List Statement
budget_statements none = []
budget_statements (some budget) = fact [] (Datalog.Fact.budget (pos budget)) ∷ []

unfoldable pub cap_statements : Option ℕ → List Statement
cap_statements none = []
cap_statements (some cap) =
    fact [] (Datalog.Fact.max_action_cost (pos cap)) ∷ check [] (cost_at_most cap) ∷ []

unfoldable pub resource_check : List Text → List Statement
resource_check [] = []
resource_check (r ∷ rs) = check (r ∷ rs) (resource_in (r ∷ rs)) ∷ []

unfoldable pub principal_statements : Option PrincipalAuthorization → List Statement
principal_statements none = []
principal_statements (some obo) =
    text_fact Datalog.Fact.principal obo.principal_did ∷ check [] acting_for_principal ∷ []

abbrev pub gate_fact : Gate → Statement
gate_fact g = fact (g.kind ∷ g.tool ∷ []) (Datalog.Fact.gate g.kind g.tool)

-- The authority block, statement by statement.
unfoldable pub authority_statements : CapabilityCredential → Scope → ℕ → List Statement
authority_statements vc scope expires_at =
    text_fact Datalog.Fact.vc_id vc.id
    ∷ text_fact Datalog.Fact.issuer vc.issuer
    ∷ text_fact Datalog.Fact.subject (subject_did vc)
    ∷ fact [] (Datalog.Fact.max_depth (pos scope.max_depth))
    ∷ (budget_statements scope.budget_usd
        ++ (cap_statements scope.max_action_cost
            ++ (map (text_fact Datalog.Fact.root_tool) (sort_texts scope.tools)
                ++ (check (sort_texts scope.tools) (operation_in (sort_texts scope.tools))
                    ∷ check [] (time_until (seconds expires_at))
                    ∷ (principal_statements (on_behalf_of vc)
                        ++ (map (text_fact Datalog.Fact.root_resource) (sort_texts scope.resources)
                            ++ (resource_check (sort_texts scope.resources)
                                ++ map gate_fact (scope.gates ++ required_gates vc))))))))

unfoldable pub root_hop : CapabilityCredential → Scope → ℕ → ℕ → AgentIdentity → Hop
root_hop vc scope expires_at now agent = record {
  agent_did = agent.did;
  delegation_public = agent.delegation_public;
  attestation = agent.delegation_attestation;
  tools = sort_texts scope.tools;
  resources = sort_texts scope.resources;
  budget_usd = scope.budget_usd;
  max_action_cost = scope.max_action_cost;
  issued_at = now;
  expires_at = expires_at;
  depth = 0;
}

-- What `mint` checks before it builds anything.
unfoldable pub mint_guards :
    CapabilityCredential → Scope → ℕ → AgentIdentity → ℕ → Result (Unit {0})
mint_guards vc scope ttl_secs agent now = do
  guard (is_valid_at vc now) (credential_expired vc.expiration_date)
  guard (text_eq agent.did (subject_did vc))
      (invalid_biscuit_signature "minting agent is not the credential subject")
  guard (not (ltb (max_token_ttl_secs (claims vc).autonomy_level) ttl_secs))
      (out_of_bounds "ttl_secs")
  guard (is_subset_of scope (vc_scope vc))
      (scope_widening_attempt (or_budget (first_widening_capability scope (vc_scope vc))))
  within_ceiling scope.resources (claims vc).resources
  within_consent scope.resources (on_behalf_of vc)

unfoldable pub mint_expiry : CapabilityCredential → ℕ → ℕ → ℕ
mint_expiry vc ttl_secs now = min vc.expiration_date (now + nanos ttl_secs)

module _ (B : Biscuit) where
  unfoldable pub mint :
      CapabilityCredential → Scope → ℕ → AgentIdentity → ℕ → Result DelegationToken
  mint vc scope ttl_secs agent now = do
    mint_guards vc scope ttl_secs agent now
    let expires_at = mint_expiry vc ttl_secs now
    secret_ok B agent.delegation_key_ed25519
    block ← add_all B (authority_statements vc scope expires_at) empty_block
    biscuit ← bz (B.build agent.delegation_key_ed25519 block)
    bytes ← bz (B.to_vec biscuit)
    hydrate B (unhydrated bytes (root_hop vc scope expires_at now agent ∷ []))
