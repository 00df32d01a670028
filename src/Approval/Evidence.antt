-- ===== src/Approval/Evidence.antt =====
-- `ApprovalEvidence`: the signed decision of an approver, bound to one action. Times are Unix seconds,
-- `now_unix` within the range of chrono's `from_timestamp`.
use agentcreds.Prelude.{ℕ, Bool, true, not, Option, none, some, [], ◌++◌, leb}
use agentcreds.Outcome.{Result, ok, ◌>>=◌, ◌>>◌, guard, ok_or, map_err, invalid_vc_proof}
use agentcreds.Text.{Text, codes, text_eq, contains}
use agentcreds.Codec.{u64_le, hash_field}
use agentcreds.Crypto.{Crypto}
use agentcreds.Did.{
  AgentIdentity, TrustAnchor, sign, anchor_sign, verify, verify_signature, public_key_from_did_key,
}
use agentcreds.Gate.{approval_kind, approval_key_kind}
use agentcreds.Action.{Action, approval_binding}
use agentcreds.Credential.Claims.{nanos}
use agentcreds.Signed.{decode_signature}
use agentcreds.Approval.Directory.{ApproverDirectory, ApproverEntry, lookup, verify_current}

pub record ApprovalEvidence : Type 0 where
  pub approval_id : Text
  pub kind : Text
  pub binding : Text
  pub approver : Text
  pub expires_at : ℕ
  pub signature : Text
  pub approver_did : Option Text

abbrev pub domain : Text
domain = codes "agentcreds-approval-evidence-v1"

abbrev pub domain_key : Text
domain_key = codes "agentcreds-approval-evidence-key-v1"

-- The four strings that both modes hash.
unfoldable pub common_bytes : ApprovalEvidence → Text → Text
common_bytes e rest =
    hash_field e.approval_id
    ++ (hash_field e.kind ++ (hash_field e.binding ++ (hash_field e.approver ++ rest)))

unfoldable pub mode_bytes : Option Text → ApprovalEvidence → Text
mode_bytes none e = domain ++ common_bytes e (u64_le e.expires_at)
mode_bytes (some did) e = domain_key ++ common_bytes e (hash_field did ++ u64_le e.expires_at)

-- What `signing_payload` feeds to the hash.
unfoldable pub evidence_bytes : ApprovalEvidence → Text
unfolding mode_bytes
evidence_bytes e = mode_bytes e.approver_did e

abbrev pub holds_role : Option Text → ApproverEntry → Bool
holds_role none entry = true
holds_role (some role) entry = contains entry.roles role

module _ (c : Crypto) where
  unfoldable pub signing_payload : ApprovalEvidence → Text
  signing_payload e = c.sha256 (evidence_bytes e)

  unfoldable pub approve : Action → Text → Text → ℕ → TrustAnchor → Result ApprovalEvidence
  approve action approver approval_id expires_at anchor = do
    let ev : ApprovalEvidence = record {
      approval_id = approval_id;
      kind = approval_kind;
      binding = approval_binding c action;
      approver = approver;
      expires_at = expires_at;
      signature = [];
      approver_did = none;
    }
    sig ← anchor_sign c anchor (signing_payload ev)
    ok (record ev { signature = c.base64_encode sig })

  unfoldable pub approve_by_key : Action → Text → AgentIdentity → Text → ℕ → Result ApprovalEvidence
  approve_by_key action approver_id approver approval_id expires_at = do
    let ev : ApprovalEvidence = record {
      approval_id = approval_id;
      kind = approval_key_kind;
      binding = approval_binding c action;
      approver = approver_id;
      expires_at = expires_at;
      signature = [];
      approver_did = some approver.did;
    }
    sig ← sign c approver (signing_payload ev)
    ok (record ev { signature = c.base64_encode sig })

  -- `ApprovalEvidence::verify`, against the anchor.
  unfoldable pub verify_evidence : ApprovalEvidence → Action → TrustAnchor → ℕ → Result (Unit {0})
  verify_evidence e action anchor now_unix = do
    guard (text_eq e.binding (approval_binding c action))
        (invalid_vc_proof "approval evidence is not bound to this action/principal")
    guard (not (leb e.expires_at now_unix)) (invalid_vc_proof "approval evidence has expired")
    sig ← decode_signature c e.signature
    map_err (verify_signature c anchor (signing_payload e) sig)
        (invalid_vc_proof "approval evidence signature does not verify")

  -- `ApprovalEvidence::verify_with_directory`, against an enrolled approver's key.
  unfoldable pub verify_with_directory :
      ApprovalEvidence
      → Action
      → ApproverDirectory
      → TrustAnchor
      → ℕ
      → Option Text
      → Result (Unit {0})
  verify_with_directory e action directory anchor now_unix required_role = do
    verify_current c directory anchor (nanos now_unix)
    approver_did ← ok_or e.approver_did (invalid_vc_proof "evidence is not approver-key signed")
    entry ←
        ok_or (lookup directory approver_did (nanos now_unix))
          (invalid_vc_proof "approver not enrolled or entry expired")
    guard (holds_role required_role entry) (invalid_vc_proof "approver lacks required role")
    guard (text_eq e.binding (approval_binding c action))
        (invalid_vc_proof "approval evidence is not bound to this action/principal")
    guard (not (leb e.expires_at now_unix)) (invalid_vc_proof "approval evidence has expired")
    key ← public_key_from_did_key c approver_did
    sig ← decode_signature c e.signature
    map_err (verify c key (signing_payload e) sig)
        (invalid_vc_proof "approver-key evidence signature does not verify")
