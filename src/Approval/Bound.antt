-- ===== src/Approval/Bound.antt =====
-- Approval evidence and directories: what signing makes verification accept, and to what evidence is bound.
use agentcreds.Prelude.{
  ℕ, ◌≤◌, ◌<◌, ◌≡◌, ◌≢◌, ◌⊎◌, inl, inr, refl, sym, ◌∙◌, true, Option, none, List, [], arith,
  Bool-cases,
}
use agentcreds.Outcome.{ok, guard-eq-ok}
use agentcreds.Text.{Text, text_eq, text_eq→eq, text_eq_refl}
use agentcreds.Crypto.{Crypto, CryptoLaws}
use agentcreds.Did.{TrustAnchor, AgentIdentity, anchor_sign, signer_sign, verify_signature}
use agentcreds.Did.Laws.{software_anchor, IsKeyed, sign-verify}
use agentcreds.Gate.{approval_kind}
use agentcreds.Action.{Action, approval_bytes, approval_binding}
use agentcreds.Action.Bindings.{IsSized, SameRequest, approval_bytes_injective}
use agentcreds.Signed.{live, decode_signature, verify_anchor_signed}
use agentcreds.Approval.Directory.{
  ApproverEntry, ApproverDirectory, directory_bytes, digest, seal, sort_entries, verify_current,
}
use agentcreds.Approval.Evidence.{
  ApprovalEvidence, common_bytes, mode_bytes, evidence_bytes, signing_payload, approve,
  verify_evidence,
}

-- Two byte strings with one digest.
pub record IsCollision (c : Crypto) (xs ys : Text) : Type 0 where
  pub differ : xs ≢ ys
  pub same_digest : c.hex_encode (c.sha256 xs) ≡ c.hex_encode (c.sha256 ys)

module _ (c : Crypto) where
  verify_evidence-bound :
      (e : ApprovalEvidence) (action : Action) (anchor : TrustAnchor) (now_unix : ℕ)
      → verify_evidence c e action anchor now_unix ≡ ok tt
      → e.binding ≡ approval_binding c action
  unfolding verify_evidence
  verify_evidence-bound e action anchor now_unix h =
      text_eq→eq e.binding (approval_binding c action)
        (guard-eq-ok (text_eq e.binding (approval_binding c action)) _ _ h).0

  -- Evidence that verifies for two actions, whose strings are shorter than 2 ^ 64 bytes, is for the
  -- same tool, parameters, resource and principal, unless their approval bytes are a collision.
  pub evidence-binds-one :
      (e : ApprovalEvidence) (a b : Action) (anchor anchor' : TrustAnchor) (now_unix now_unix' : ℕ)
      → IsSized a
      → IsSized b
      → verify_evidence c e a anchor now_unix ≡ ok tt
      → verify_evidence c e b anchor' now_unix' ≡ ok tt
      → (SameRequest a b × (a.acting_for ≡ b.acting_for))
        ⊎ IsCollision c (approval_bytes a) (approval_bytes b)
  unfolding approval_binding
  evidence-binds-one e a b anchor anchor' now_unix now_unix' ha hb va vb =
      let same =
        sym (verify_evidence-bound e a anchor now_unix va)
        ∙ verify_evidence-bound e b anchor' now_unix' vb in
      elim (Bool-cases (text_eq (approval_bytes a) (approval_bytes b))) [
        | inl equal ↦ inl (
            approval_bytes_injective a b ha hb
              (text_eq→eq (approval_bytes a) (approval_bytes b) equal))
        | inr other ↦ inr (record {
          differ = λ equal. ground (arith, other, equal, text_eq_refl (approval_bytes a));
          same_digest = same;
        })
      ]

  module _ (L : CryptoLaws c) where
    -- A keyed anchor can approve every action, and the evidence verifies for that action under the
    -- anchor at every time before it expires and at none after.
    pub approve-verify_evidence :
        (a : AgentIdentity) (action : Action) (approver approval_id : Text) (expires_at : ℕ)
        → IsKeyed c a
        → (e : ApprovalEvidence) × (approve c action approver approval_id expires_at
              (software_anchor a)
            ≡ ok e)
          × ((now_unix : ℕ)
              → now_unix < expires_at
              → verify_evidence c e action (software_anchor a) now_unix ≡ ok tt)
          × ((now_unix : ℕ)
              → expires_at ≤ now_unix
              → verify_evidence c e action (software_anchor a) now_unix ≢ ok tt)
    unfolding approve verify_evidence signing_payload evidence_bytes mode_bytes common_bytes
        anchor_sign signer_sign verify_signature decode_signature
    approve-verify_evidence a action approver approval_id expires_at keyed =
        let draft : ApprovalEvidence = record {
          approval_id = approval_id;
          kind = approval_kind;
          binding = approval_binding c action;
          approver = approver;
          expires_at = expires_at;
          signature = [];
          approver_did = none;
        } in
        let (s, signed, verified) = sign-verify c L a (c.sha256 (evidence_bytes draft)) keyed in
        (
          record draft { signature = c.base64_encode s },
          rw signed refl,
          λ now h. ground (
            arith,
            h,
            text_eq_refl (approval_binding c action),
            L.base64-decode-encode s,
            verified,
          ),
          λ now h v. ground (arith, h, v, text_eq_refl (approval_binding c action)),
        )

    -- A keyed anchor can seal every list of entries, and the directory verifies under that anchor at
    -- every instant up to its end.
    pub seal-verify_current :
        (a : AgentIdentity) (entries : List ApproverEntry) (version generated_at : ℕ)
        (not_after : Option ℕ)
        → IsKeyed c a
        → (d : ApproverDirectory) × (seal c entries version generated_at not_after
              (software_anchor a)
            ≡ ok d)
          × (d.entries ≡ sort_entries entries)
          × ((now : ℕ)
              → live not_after now ≡ true
              → verify_current c d (software_anchor a) now ≡ ok tt)
    unfolding seal verify_current digest directory_bytes verify_anchor_signed anchor_sign
        signer_sign verify_signature decode_signature
    seal-verify_current a entries version generated_at not_after keyed =
        let draft : ApproverDirectory = record {
          version = version;
          generated_at = generated_at;
          issuer_did = a.did;
          entries = sort_entries entries;
          not_after = not_after;
          signature = [];
        } in
        let (s, signed, verified) = sign-verify c L a (c.sha256 (directory_bytes draft)) keyed in
        (
          record draft { signature = c.base64_encode s },
          rw signed refl,
          refl,
          λ now h. ground (arith, h, text_eq_refl a.did, L.base64-decode-encode s, verified),
        )
