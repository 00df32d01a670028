-- ===== src/Delegation/Rooted.antt =====
-- `verify_rooted_inner` and the gated check, which roots a token in an anchor-issued credential.
use agentcreds.Prelude.{
  ℕ, Bool, true, not, ◌&&◌, Option, none, some, List, [], ◌∷◌, ◌++◌, if◌then◌else◌,
}
use agentcreds.Outcome.{
  Result, ok, err, ◌>>=◌, ◌>>◌, guard, ok_or, is_ok, invalid_biscuit_signature,
  scope_widening_attempt, principal_mismatch, action_denied,
}
use agentcreds.Text.{Text, codes, text_eq, contains}
use agentcreds.Crypto.{Crypto}
use agentcreds.Gate.{Gate, approval_kind, approval_key_kind, contains_gate}
use agentcreds.Did.{Resolver, TrustAnchor}
use agentcreds.Action.{Action}
use agentcreds.Credential.{
  CapabilityCredential, Payload, subject_did, on_behalf_of, required_gates, verify_at,
}
use agentcreds.Credential.Claims.{PrincipalAuthorization}
use agentcreds.Approval.Directory.{ApproverDirectory}
use agentcreds.Approval.Evidence.{ApprovalEvidence, verify_evidence, verify_with_directory}
use agentcreds.Biscuit.{Biscuit}
use agentcreds.Delegation.Scope.{
  Scope, with_budget_and_depth, is_subset_of, first_widening_capability,
}
use agentcreds.Delegation.Token.{DelegationToken}
use agentcreds.Delegation.Mint.{vc_scope, or_budget, within_entitlement}
use agentcreds.Delegation.Verify.{verify_inner}

-- The scope that the Biscuit's authority block asserts.
unfoldable pub root_scope : DelegationToken → Scope
root_scope token =
    record (with_budget_and_depth token.root_tools_cache token.root_budget_cache
      token.root_max_depth_cache) { max_action_cost = token.root_max_action_cost_cache }

abbrev pub no_principal : Text
no_principal = codes "<none>"

-- The token's principal against the credential's.
unfoldable pub check_obo :
    Option Text → Option PrincipalAuthorization → List Text → Result (Unit {0})
check_obo (some tok) (some obo) resources = do
  guard (text_eq tok obo.principal_did) (principal_mismatch obo.principal_did tok)
  within_entitlement resources obo.resource_authority
check_obo (some tok) none resources = err (principal_mismatch no_principal tok)
check_obo none (some obo) resources = err (principal_mismatch obo.principal_did no_principal)
check_obo none none resources = ok tt

unfoldable pub gates_for : List Gate → Text → List Gate
gates_for [] tool = []
gates_for (g ∷ gs) tool =
    let rest = gates_for gs tool in if text_eq g.tool tool then g ∷ rest else rest

-- `if g.tool == action.tool && !effective.contains(g) { effective.push(g.clone()) }`
unfoldable pub push_mandated : List Gate → Gate → Text → List Gate
push_mandated effective g tool =
    if text_eq g.tool tool && not (contains_gate effective g)
    then effective ++ g ∷ []
    else effective

unfoldable pub add_mandated : List Gate → List Gate → Text → List Gate
add_mandated [] effective tool = effective
add_mandated (g ∷ gs) effective tool = add_mandated gs (push_mandated effective g tool) tool

-- The designations of the token and of the credential for this tool.
unfoldable pub effective_gates : DelegationToken → CapabilityCredential → Action → List Gate
effective_gates token vc action =
    add_mandated (required_gates vc) (gates_for token.gates_cache action.tool) action.tool

unfoldable pub find_evidence :
    (ApprovalEvidence → Bool) → List ApprovalEvidence → Option ApprovalEvidence
find_evidence p [] = none
find_evidence p (e ∷ es) = let rest = find_evidence p es in if p e then some e else rest

module _ (c : Crypto) where
  -- Evidence that satisfies an anchor gate, and an approver-key gate.
  unfoldable pub anchor_evidence : Action → TrustAnchor → ℕ → ApprovalEvidence → Bool
  anchor_evidence action anchor now_unix e =
      text_eq e.kind approval_kind && is_ok (verify_evidence c e action anchor now_unix)

  unfoldable pub key_evidence :
      Action → ApproverDirectory → TrustAnchor → ℕ → ApprovalEvidence → Bool
  key_evidence action dir anchor now_unix e =
      text_eq e.kind approval_key_kind
      && is_ok (verify_with_directory c e action dir anchor now_unix none)

  -- The handler of a recognized gate.
  unfoldable pub satisfy_known :
      Action
      → TrustAnchor
      → List ApprovalEvidence
      → Option ApproverDirectory
      → ℕ
      → Gate
      → Result ApprovalEvidence
  satisfy_known action anchor evidence directory now_unix gate =
      if text_eq gate.kind approval_kind
      then ok_or (find_evidence (anchor_evidence action anchor now_unix) evidence)
          (action_denied action.tool "action requires human approval")
      else if text_eq gate.kind approval_key_kind
      then (do
        dir ← ok_or directory (action_denied action.tool "no approver directory is configured")
        ok_or (find_evidence (key_evidence action dir anchor now_unix) evidence)
            (action_denied action.tool "action requires approver-key approval"))
      else err (action_denied action.tool "gate kind is recognized but has no handler")

  -- The evidence that one gate relies upon.
  unfoldable pub satisfy_gate :
      Action
      → TrustAnchor
      → List ApprovalEvidence
      → Option ApproverDirectory
      → List Text
      → ℕ
      → Gate
      → Result ApprovalEvidence
  satisfy_gate action anchor evidence directory recognized now_unix gate = do
    guard (contains recognized gate.kind)
        (action_denied action.tool "unrecognized execution-time gate kind")
    satisfy_known action anchor evidence directory now_unix gate

  unfoldable pub satisfy_gates :
      Action
      → TrustAnchor
      → List ApprovalEvidence
      → Option ApproverDirectory
      → List Text
      → ℕ
      → List Gate
      → Result (List Text)
  satisfy_gates action anchor evidence directory recognized now_unix [] = ok []
  satisfy_gates action anchor evidence directory recognized now_unix (gate ∷ gates) = do
    e ← satisfy_gate action anchor evidence directory recognized now_unix gate
    relied ← satisfy_gates action anchor evidence directory recognized now_unix gates
    ok (e.approval_id ∷ relied)

module _ (c : Crypto) (payload : Payload) (B : Biscuit) where
  unfoldable pub verify_rooted_inner :
      DelegationToken
      → Action
      → CapabilityCredential
      → TrustAnchor
      → Option Resolver
      → ℕ
      → Result (Unit {0})
  verify_rooted_inner token action vc anchor resolver now = do
    verify_at c payload vc anchor true now
    guard (text_eq token.vc_id_cache vc.id)
        (invalid_biscuit_signature "token vc_id does not match the supplied credential")
    guard (text_eq token.issuer_cache vc.issuer)
        (invalid_biscuit_signature "token issuer does not match the credential issuer")
    guard (text_eq token.subject_cache (subject_did vc))
        (invalid_biscuit_signature "token subject does not match the credential subject")
    guard (is_subset_of (root_scope token) (vc_scope vc)) (
        scope_widening_attempt
          (or_budget (first_widening_capability (root_scope token) (vc_scope vc))))
    check_obo token.principal_cache (on_behalf_of vc) token.root_resources_cache
    verify_inner c B token action resolver now

  -- `verify_rooted_gated_with_directory`; `now` is the clock of `verify_rooted`.
  unfoldable pub verify_rooted_gated_with_directory :
      DelegationToken
      → Action
      → CapabilityCredential
      → TrustAnchor
      → List ApprovalEvidence
      → Option ApproverDirectory
      → List Text
      → ℕ
      → ℕ
      → Result (List Text)
  verify_rooted_gated_with_directory token action vc anchor evidence directory recognized now_unix
        now =
      do
        verify_rooted_inner token action vc anchor none now
        satisfy_gates c action anchor evidence directory recognized now_unix
            (effective_gates token vc action)
