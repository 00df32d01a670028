-- ===== src/Tests/Issuances.antt =====
-- The results about credentials, approvals and directories at concrete inputs.
use agentcreds.Prelude.{ℕ, ◌≤◌, ◌<◌, ◌≢◌, ◌≡◌, ◌⊎◌, refl, true, none, [], ◌∷◌}
use agentcreds.Outcome.{ok}
use agentcreds.Action.{approval_bytes}
use agentcreds.Action.Bindings.{SameRequest}
use agentcreds.Did.Laws.{IsKeyed, keyed_ed25519, software_anchor}
use agentcreds.Credential.{CapabilityCredential, claims, issue, verify_at, required_gates}
use agentcreds.Credential.Claims.{validate}
use agentcreds.Credential.Proofs.{IsVerified, verify_at-IsVerified, issue-verify_at}
use agentcreds.Signed.{live}
use agentcreds.Approval.Directory.{
  ApproverEntry, ApproverDirectory, sort_entries, seal, verify_current,
}
use agentcreds.Approval.Bound.{
  IsCollision, evidence-binds-one, approve-verify_evidence, seal-verify_current,
}
use agentcreds.Approval.Evidence.{ApprovalEvidence, approve, verify_evidence}
use agentcreds.Tests.Toy.{
  agent_key, agent_did, toy, toy_laws, agent, anchor, start, payload, credential,
}
use agentcreds.Tests.Chain.{request}
use agentcreds.Tests.Witnesses.{request-IsSized, credential_verifies, evidence_verifies, evidence}

keyed : IsKeyed toy (agent 1)
keyed = keyed_ed25519 (agent_key 1) refl refl refl refl

verify_at-IsVerified_example : IsVerified toy payload credential anchor start
verify_at-IsVerified_example =
    verify_at-IsVerified toy payload credential anchor start credential_verifies

valid_claims : validate (claims credential) ≡ ok tt
unfolding validate agentcreds.Credential.Claims.new_claims
valid_claims = refl

issue-verify_at_example :
    (vc : CapabilityCredential) × (issue toy payload
        (software_anchor (agent 1))
        (agent_did 2)
        (claims credential)
        none
        start
      ≡ ok vc)
    × (vc.credential_subject ≡ record { id = agent_did 2; claims = claims credential })
    × ((at : ℕ)
        → at ≤ vc.expiration_date
        → verify_at toy payload vc (software_anchor (agent 1)) true at ≡ ok tt)
issue-verify_at_example =
    issue-verify_at toy payload toy_laws (agent 1) (agent_did 2) (claims credential) none start _
      keyed valid_claims refl

evidence-binds-one_example :
    (SameRequest request request × (request.acting_for ≡ request.acting_for))
    ⊎ IsCollision toy (approval_bytes request) (approval_bytes request)
evidence-binds-one_example =
    evidence-binds-one toy evidence request request anchor anchor 1000 1000 request-IsSized
      request-IsSized evidence_verifies evidence_verifies

approve-verify_evidence_example :
    (e : ApprovalEvidence) × (approve toy request (6 ∷ []) (5 ∷ []) 2000 (software_anchor (agent 1))
      ≡ ok e)
    × ((now_unix : ℕ)
        → now_unix < 2000
        → verify_evidence toy e request (software_anchor (agent 1)) now_unix ≡ ok tt)
    × ((now_unix : ℕ)
        → 2000 ≤ now_unix
        → verify_evidence toy e request (software_anchor (agent 1)) now_unix ≢ ok tt)
approve-verify_evidence_example =
    approve-verify_evidence toy toy_laws (agent 1) request (6 ∷ []) (5 ∷ []) 2000 keyed

abbrev approver : ApproverEntry
approver = record { approver_id = 6 ∷ []; approver_did = agent_did 6; roles = []; not_after = none }

seal-verify_current_example :
    (d : ApproverDirectory) × (seal toy (approver ∷ []) 1 start none (software_anchor (agent 1))
      ≡ ok d)
    × (d.entries ≡ sort_entries (approver ∷ []))
    × ((now : ℕ)
        → live none now ≡ true
        → verify_current toy d (software_anchor (agent 1)) now ≡ ok tt)
seal-verify_current_example =
    seal-verify_current toy toy_laws (agent 1) (approver ∷ []) 1 start none keyed
