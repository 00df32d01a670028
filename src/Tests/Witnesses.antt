-- ===== src/Tests/Witnesses.antt =====
-- Each theorem of the header's list at a concrete input.
use agentcreds.Prelude.{◌+◌, ◌≤◌, ◌≡◌, ◌↔◌, ◌⊎◌, refl, true, false, none, some, [], ◌∷◌, arith}
use agentcreds.Outcome.{ok}
use agentcreds.Text.{Text, codes, contains, text_eq_refl}
use agentcreds.Gate.{Gate, approval_gate, contains_gate, approval_kind}
use agentcreds.Action.{Action, approval_bytes, approval_binding, request_bytes, request_binding}
use agentcreds.Action.Bindings.{IsSized}
use agentcreds.Did.{TrustAnchor, public_only, ed25519, anchor_from_did_key, public_key_from_did_key}
use agentcreds.Credential.{CapabilityCredential, claims, issue, verify_at, required_gates}
use agentcreds.Credential.Claims.{validate}
use agentcreds.Signed.{live}
use agentcreds.Approval.Evidence.{ApprovalEvidence, verify_evidence}
use agentcreds.Approval.Consumed.{empty, consume_all, grants, grants-le-one}
use agentcreds.Biscuit.{Biscuit}
use agentcreds.Delegation.Scope.{
  Scope, is_subset_of, with_budget_and_depth, resource_within_authority,
}
use agentcreds.Delegation.Scope.Order.{budget_escape, Covered, resource_within_authority_iff}
use agentcreds.Delegation.Statements.{add_all, empty_block, facts_of}
use agentcreds.Delegation.Token.{depth, min_expiry, parse}
use agentcreds.Delegation.Mint.{seconds}
use agentcreds.Delegation.Verify.{
  authorize_action, verify_inner, parse_and_check_identity, request_statements, check_principal,
  check_expiry,
}
use agentcreds.Delegation.Rooted.{
  verify_rooted_inner, verify_rooted_gated_with_directory, effective_gates, satisfy_gates,
}
use agentcreds.Delegation.Narrowing.{WithinAll, verify-WithinAll}
use agentcreds.Delegation.Gating.{Relied, gated-fails_closed}
use agentcreds.Delegation.Anchoring.{verify-within_credential, rooted_ignores_tool, with_tool}
use agentcreds.Delegation.Lifetimes.{IsChain, Issued-IsChain, attenuate-depth}
use agentcreds.Tests.Toy.{toy, agent, anchor, search, start, payload, credential, signature}
use agentcreds.Tests.ToyBiscuit
use agentcreds.Tests.ToyBiscuit.{
  toy_biscuit, toy_biscuit_laws, root_scope, narrow_scope, root_expiry, leaf_expiry,
}
use agentcreds.Tests.Chain.{
  root_hop, leaf_hop, root_token, leaf_token, request, attenuating, verifying, leaf-Issued,
}

verify-WithinAll_example :
    WithinAll
      (record { scope = narrow_scope; expires_at = leaf_expiry }
        ∷ record { scope = root_scope; expires_at = root_expiry }
        ∷ [])
      request
      start
verify-WithinAll_example =
    verify-WithinAll toy_biscuit toy_biscuit_laws toy request none start leaf-Issued verifying

verify-within_credential_example :
    (contains (claims credential).tools search ≡ true)
    × (seconds start ≤ seconds credential.expiration_date)
verify-within_credential_example =
    verify-within_credential toy_biscuit toy_biscuit_laws toy credential leaf_token _ request none
      start leaf-Issued verifying

Issued-IsChain_example : IsChain credential (root_hop ∷ leaf_hop ∷ [])
Issued-IsChain_example = Issued-IsChain leaf-Issued

attenuate-depth_example : (depth leaf_token ≡ depth root_token + 1) × (depth leaf_token ≤ 2)
attenuate-depth_example =
    attenuate-depth toy_biscuit root_token leaf_token narrow_scope 300 (agent 3) start attenuating

pub credential_verifies : verify_at toy payload credential anchor true start ≡ ok tt
unfolding verify_at agentcreds.Text.text_eq agentcreds.Credential.verify_format
    agentcreds.Credential.verify_w3c agentcreds.Credential.hash_payload
    agentcreds.Did.verify_signature agentcreds.Did.verify agentcreds.Did.verify_by
    agentcreds.Did.verify_ed25519
credential_verifies = refl

pub rooted_verifies :
    verify_rooted_inner toy payload toy_biscuit leaf_token request credential anchor none start
    ≡ ok tt
unfolding verify_rooted_inner agentcreds.Text.text_eq is_subset_of agentcreds.Text.is_subset
    agentcreds.Delegation.Rooted.root_scope with_budget_and_depth contains
    agentcreds.Delegation.Mint.vc_scope agentcreds.Credential.Claims.new_claims
    agentcreds.Delegation.Scope.within agentcreds.Delegation.Scope.cap_tightens
    agentcreds.Delegation.Rooted.check_obo
rooted_verifies = rw (credential_verifies, verifying)

-- The approval of the request by the anchor.
abbrev pub evidence : ApprovalEvidence
evidence = record {
  approval_id = 5 ∷ [];
  kind = approval_kind;
  binding = approval_binding toy request;
  approver = 6 ∷ [];
  expires_at = 2000;
  signature = signature;
  approver_did = none;
}

one_gate : effective_gates leaf_token credential request ≡ approval_gate search ∷ []
unfolding effective_gates agentcreds.Delegation.Rooted.add_mandated
    agentcreds.Delegation.Rooted.push_mandated agentcreds.Text.text_eq approval_gate contains_gate
    agentcreds.Delegation.Rooted.gates_for
one_gate = refl

pub evidence_verifies : verify_evidence toy evidence request anchor 1000 ≡ ok tt
unfolding verify_evidence agentcreds.Text.text_eq approval_binding agentcreds.Action.approval_bytes
    agentcreds.Signed.decode_signature agentcreds.Did.verify_signature agentcreds.Did.verify
    agentcreds.Did.verify_by agentcreds.Did.verify_ed25519
evidence_verifies = refl

gates_satisfied :
    satisfy_gates toy request anchor
      (evidence ∷ [])
      none
      (approval_kind ∷ [])
      1000
      (effective_gates leaf_token credential request)
    ≡ ok ((5 ∷ []) ∷ [])
unfolding satisfy_gates agentcreds.Delegation.Rooted.satisfy_gate
    agentcreds.Delegation.Rooted.satisfy_known agentcreds.Delegation.Rooted.find_evidence
    agentcreds.Delegation.Rooted.anchor_evidence agentcreds.Text.text_eq contains approval_gate
gates_satisfied = rw (one_gate, evidence_verifies)

gated_verifies :
    verify_rooted_gated_with_directory toy payload toy_biscuit leaf_token request credential anchor
      (evidence ∷ [])
      none
      (approval_kind ∷ [])
      1000
      start
    ≡ ok ((5 ∷ []) ∷ [])
unfolding verify_rooted_gated_with_directory
gated_verifies = rw (rooted_verifies, gates_satisfied)

gated-fails_closed_example :
    (verify_rooted_inner toy payload toy_biscuit leaf_token request credential anchor none start
      ≡ ok tt)
    × ((g : Gate)
        → (contains_gate leaf_token.gates_cache g ≡ true)
          ⊎ (contains_gate (required_gates credential) g ≡ true)
        → g.tool ≡ search
        → Relied toy request anchor
            (evidence ∷ [])
            none
            (approval_kind ∷ [])
            1000
            g
            ((5 ∷ []) ∷ []))
gated-fails_closed_example =
    gated-fails_closed toy payload toy_biscuit leaf_token request credential anchor (evidence ∷ [])
      none (approval_kind ∷ []) 1000 start ((5 ∷ []) ∷ []) gated_verifies

-- A Biscuit crate in which every token has the facts of the root block and no checks.
abbrev unchecked : Biscuit
unchecked = record toy_biscuit { authorize = λ t facts. true }

delete : Text
delete = 77 ∷ []

delete_written :
    add_all unchecked (request_statements (with_tool request delete) start) empty_block
    ≡ ok (record {
      facts = facts_of (request_statements (with_tool request delete) start);
      checks = [];
    })
unfolding add_all request_statements agentcreds.Delegation.Statements.all_quotable
    agentcreds.Delegation.Statements.strings agentcreds.Delegation.Statements.parses
    agentcreds.Delegation.Statements.quotable delete agentcreds.Delegation.Statements.extend
    facts_of
delete_written = refl

unchecked_identified :
    parse_and_check_identity toy unchecked root_token none ≡ ok ToyBiscuit.root_token
unfolding parse_and_check_identity parse agentcreds.Text.text_eq
    agentcreds.Delegation.Verify.check_hops agentcreds.Did.verify_delegation_attestation_resolved
    agentcreds.Did.primary_key agentcreds.Text.starts_with agentcreds.Did.public_key_from_did_key
    agentcreds.Text.strip_prefix agentcreds.Did.key_of_codec agentcreds.Did.verify
    agentcreds.Did.verify_by agentcreds.Did.verify_ed25519 agentcreds.Delegation.Verify.check_signer
unchecked_identified = refl

unchecked_authorized : authorize_action toy unchecked ToyBiscuit.root_token request start ≡ ok tt
unfolding authorize_action add_all request_statements agentcreds.Delegation.Statements.all_quotable
    agentcreds.Delegation.Statements.strings agentcreds.Delegation.Statements.parses
    agentcreds.Delegation.Statements.quotable
unchecked_authorized = refl

unchecked_inner : verify_inner toy unchecked root_token request none start ≡ ok tt
unfolding verify_inner depth min_expiry check_expiry check_principal
unchecked_inner = rw (unchecked_identified, unchecked_authorized)

unchecked_verifies :
    verify_rooted_inner toy payload unchecked root_token request credential anchor none start
    ≡ ok tt
unfolding verify_rooted_inner agentcreds.Text.text_eq is_subset_of agentcreds.Text.is_subset
    agentcreds.Delegation.Rooted.root_scope with_budget_and_depth contains
    agentcreds.Delegation.Mint.vc_scope agentcreds.Credential.Claims.new_claims
    agentcreds.Delegation.Scope.within agentcreds.Delegation.Scope.cap_tightens
    agentcreds.Delegation.Rooted.check_obo
unchecked_verifies = rw (credential_verifies, unchecked_inner)

rooted_ignores_tool_example :
    verify_rooted_inner toy payload unchecked root_token
      (with_tool request delete)
      credential
      anchor
      none
      start
    ≡ ok tt
rooted_ignores_tool_example =
    rooted_ignores_tool toy payload unchecked root_token request credential anchor none start delete
      _ (λ h t e facts. refl) delete_written unchecked_verifies

budget_escape_example :
    (is_subset_of (record root_scope { budget_usd = none }) root_scope ≡ true)
    × (is_subset_of
          (record root_scope { budget_usd = some 9999 })
          (record root_scope { budget_usd = none })
        ≡ true)
    × (is_subset_of (record root_scope { budget_usd = some 9999 }) root_scope ≡ false)
unfolding with_budget_and_depth
budget_escape_example = budget_escape root_scope 500 9999 refl refl (omega arith)

resource_within_authority_iff_example :
    (resource_within_authority (codes "db/users") (codes "db/*" ∷ []) ≡ true)
    ↔ Covered (codes "db/users") (codes "db/*" ∷ [])
resource_within_authority_iff_example =
    resource_within_authority_iff (codes "db/users") (codes "db/*" ∷ [])

pub request-IsSized : IsSized request
request-IsSized = record {
  tool = omega arith;
  parameters = omega arith;
  resource = tt;
  acting_for = tt;
}

grants-le-one_example :
    grants (5 ∷ []) ((5 ∷ []) ∷ (5 ∷ []) ∷ []) (consume_all empty ((5 ∷ []) ∷ (5 ∷ []) ∷ [])) ≤ 1
grants-le-one_example = grants-le-one (5 ∷ []) empty ((5 ∷ []) ∷ (5 ∷ []) ∷ [])
