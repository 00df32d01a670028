-- ===== src/Delegation/Anchoring.antt =====
-- What `verify_rooted` establishes about the credential, and what it leaves to the token's own checks.
use agentcreds.Prelude.{ℕ, ◌≤◌, ◌≡◌, ◌≢◌, true, Option, none, some, List, [], Among, arith}
use agentcreds.Outcome.{ok, >>=-eq-ok}
use agentcreds.Text.{Text, contains, contains_of_subset}
use agentcreds.Crypto.{Crypto}
use agentcreds.Did.{Resolver, TrustAnchor, AgentIdentity}
use agentcreds.Action.{Action}
use agentcreds.Credential.{CapabilityCredential, Payload, claims, subject_did, on_behalf_of}
use agentcreds.Credential.Claims.{PrincipalAuthorization}
use agentcreds.Credential.Proofs.{IsVerified}
use agentcreds.Datalog.{Fact, Block}
use agentcreds.Biscuit.{Biscuit, BiscuitLaws}
use agentcreds.Delegation.Scope.{Scope, with_budget_and_depth}
use agentcreds.Delegation.Scope.Order.{AtMost, Covered}
use agentcreds.Delegation.Statements.{add_all, empty_block}
use agentcreds.Delegation.Token.{Hop, DelegationToken, parse}
use agentcreds.Delegation.Mint.{mint_expiry, vc_scope, seconds}
use agentcreds.Delegation.Verify.{
  verify_inner, parse_and_check_identity, authorize_action, request_statements, check_principal,
}
use agentcreds.Delegation.Rooted.{verify_rooted_inner}
use agentcreds.Delegation.Permits.{Permits}
use agentcreds.Delegation.Issued.{Grant, Issued, minted, attenuated, mint-Minted}
use agentcreds.Delegation.Lifetimes.{IsMintable, mint_guards-IsMintable}
use agentcreds.Delegation.Narrowing.{WithinAll, identity_parses, verify-WithinAll}

-- The same request for another tool.
abbrev pub with_tool : Action → Text → Action
with_tool action tool = record action { tool = tool }

-- The grant of the token's root hop is within the credential.
root-Permits :
    (vc : CapabilityCredential) (scope : Scope) (ttl_secs : ℕ) (agent : AgentIdentity) (start : ℕ)
    (action : Action) (now : ℕ)
    → IsMintable vc scope ttl_secs agent start
    → Permits scope (mint_expiry vc ttl_secs start) action now
    → (contains (claims vc).tools action.tool ≡ true) × (seconds now ≤ seconds vc.expiration_date)
unfolding mint_expiry vc_scope with_budget_and_depth
root-Permits vc scope ttl_secs agent start action now m p = (
  contains_of_subset scope.tools (claims vc).tools action.tool m.narrower.tools p.tool,
  omega (arith, p.time),
)

root_grant :
    {B : Biscuit} {vc : CapabilityCredential} {token : DelegationToken} {gs : List Grant}
    (action : Action) (now : ℕ)
    → Issued B vc token gs
    → WithinAll gs action now
    → (contains (claims vc).tools action.tool ≡ true) × (seconds now ≤ seconds vc.expiration_date)
root_grant {B} {vc} action now (minted scope ttl_secs agent start e) w =
    root-Permits vc scope ttl_secs agent start action now
      (mint_guards-IsMintable vc scope ttl_secs agent start
        (mint-Minted B vc scope ttl_secs agent start e).guards)
      w.0
root_grant action now (attenuated parent narrow ttl_secs agent start issued leaf e) w =
    root_grant action now issued w.1

-- Every resource is under a pattern of the authority, where that lists any.
abbrev pub Entitled : List Text → List Text → Type 0
Entitled resources authority = authority ≢ [] → (r : Text) → Among r resources → Covered r authority

-- Both name the same principal, whose entitlement covers the resources, or neither names one.
abbrev pub SamePrincipal : Option Text → Option PrincipalAuthorization → List Text → Type 0
SamePrincipal none none resources = Unit
SamePrincipal none (some obo) resources = ⊥
SamePrincipal (some t) none resources = ⊥
SamePrincipal (some t) (some obo) resources =
    (t ≡ obo.principal_did) × Entitled resources obo.resource_authority

-- The scope of a token's authority block is within what the credential grants.
pub record IsWithin (token : DelegationToken) (vc : CapabilityCredential) : Type 0 where
  pub tools : (t : Text) → Among t token.root_tools_cache → Among t (claims vc).tools
  pub depth : token.root_max_depth_cache ≤ (claims vc).max_delegation_depth
  pub budget : AtMost token.root_budget_cache (claims vc).budget_usd
  pub action_cost : AtMost token.root_max_action_cost_cache (claims vc).budget_usd

module _ (c : Crypto) (payload : Payload) (B : Biscuit) where
  authorize_ignores_tool :
      (t : B.Token) (action : Action) (tool : Text) (now : ℕ) {request : Block}
      → ((facts : List Fact) → B.authorize t facts ≡ true)
      → add_all B (request_statements (with_tool action tool) now) empty_block ≡ ok request
      → authorize_action c B t (with_tool action tool) now ≡ ok tt
  unfolding authorize_action
  authorize_ignores_tool t action tool now {request = request} accepts written =
      rw written (rw (accepts request.facts))

  verify_inner_ignores_tool :
      (token : DelegationToken) (action : Action) (tool : Text) (resolver : Option Resolver)
      (now : ℕ) {request : Block}
      → ((h : Hop) (t : B.Token)
          → parse B token ≡ ok (h, t)
          → (facts : List Fact) → B.authorize t facts ≡ true)
      → add_all B (request_statements (with_tool action tool) now) empty_block ≡ ok request
      → verify_inner c B token action resolver now ≡ ok tt
      → verify_inner c B token (with_tool action tool) resolver now ≡ ok tt
  unfolding verify_inner check_principal
  verify_inner_ignores_tool token action tool resolver now accepts written v =
      let (t, identity, v₁) = >>=-eq-ok (parse_and_check_identity c B token resolver) _ v in
      let (h, parsed) = identity_parses c B token resolver identity in
      rw identity
        (ground (arith, v₁, authorize_ignores_tool t action tool now (accepts h t parsed) written))

  -- `verify_rooted` compares the root scope with the credential and leaves the requested tool to the
  -- Biscuit's own checks. A token whose Biscuit accepts every request, as one with no checks does,
  -- that is accepted for one tool is accepted for every tool whose facts the crate can write, the
  -- tools that the credential does not grant included.
  pub rooted_ignores_tool :
      (token : DelegationToken) (action : Action) (vc : CapabilityCredential) (anchor : TrustAnchor)
      (resolver : Option Resolver) (now : ℕ) (tool : Text) (request : Block)
      → ((h : Hop) (t : B.Token)
          → parse B token ≡ ok (h, t)
          → (facts : List Fact) → B.authorize t facts ≡ true)
      → add_all B (request_statements (with_tool action tool) now) empty_block ≡ ok request
      → verify_rooted_inner c payload B token action vc anchor resolver now ≡ ok tt
      → verify_rooted_inner c payload B token (with_tool action tool) vc anchor resolver now ≡ ok tt
  unfolding verify_rooted_inner
  rooted_ignores_tool token action vc anchor resolver now tool request accepts written h =
      ground (arith, h, verify_inner_ignores_tool token action tool resolver now accepts written)

  -- What a rooted verification that accepts shows.
  pub record IsAnchored (token : DelegationToken) (action : Action) (vc : CapabilityCredential)
      (anchor : TrustAnchor) (resolver : Option Resolver) (now : ℕ) : Type 0 where
    pub credential : IsVerified c payload vc anchor now
    pub vc_id : token.vc_id_cache ≡ vc.id
    pub token_issuer : token.issuer_cache ≡ vc.issuer
    pub subject : token.subject_cache ≡ subject_did vc
    pub scope : IsWithin token vc
    pub principal : SamePrincipal token.principal_cache (on_behalf_of vc) token.root_resources_cache
    pub chain : verify_inner c B token action resolver now ≡ ok tt

-- A token issued from a credential accepts a request only for a tool of the credential, and not after
-- the second in which the credential expires.
pub verify-within_credential :
    (B : Biscuit) (L : BiscuitLaws B) (c : Crypto) (vc : CapabilityCredential)
    (token : DelegationToken) (gs : List Grant) (action : Action) (resolver : Option Resolver)
    (now : ℕ)
    → Issued B vc token gs
    → verify_inner c B token action resolver now ≡ ok tt
    → (contains (claims vc).tools action.tool ≡ true) × (seconds now ≤ seconds vc.expiration_date)
verify-within_credential B L c vc token gs action resolver now issued v =
    root_grant action now issued (verify-WithinAll B L c action resolver now issued v)
