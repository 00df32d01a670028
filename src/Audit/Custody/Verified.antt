-- ===== src/Audit/Custody/Verified.antt =====
-- What a commitment that agentcreds-core/src/audit.rs verifies gives its entry.
use agentcreds.Prelude.{◌≡◌, inl, inr, refl, some, Among, List, ◌∷◌, ◌++◌}
use agentcreds.Outcome.{
  ok, invalid_vc_proof, guard-eq-ok, >>=-eq-ok, ok_or, ok_or-eq-ok, map_err-eq-ok,
}
use agentcreds.Text.{Text, text_eq, text_eq→eq}
use agentcreds.Crypto.{Crypto}
use agentcreds.Codec.{u64_le, hash_field}
use agentcreds.Did.{TrustAnchor, verify_signature}
use agentcreds.Approval.Directory.{seconds_le}
use agentcreds.Audit.{
  signature_domain, commitment_bytes, AuditCommitment, CompositeEntry, entry_of, verify_commitment,
}

-- The message that the organization signs.
abbrev pub commitment_message : AuditCommitment → Text
commitment_message m =
    signature_domain
    ++ (hash_field m.correlation_id
        ++ (hash_field m.org_id
            ++ (u64_le m.seq ++ (seconds_le m.timestamp ++ hash_field m.commitment))))

module _ (c : Crypto) (correlation_id : Text) (anchor : TrustAnchor) where
  -- The entry stands for one of the commitments, of this correlation, that carries a signature of the
  -- anchor of its organization over its fields.
  pub record IsVerified (ms : List AuditCommitment) (e : CompositeEntry) : Type 0 where
    pub commitment : AuditCommitment
    pub among : Among commitment ms
    pub org : e.org_id ≡ commitment.org_id
    pub number : e.seq ≡ commitment.seq
    pub time : e.timestamp ≡ commitment.timestamp
    pub committed : e.commitment ≡ commitment.commitment
    pub correlates : commitment.correlation_id ≡ correlation_id
    pub own : e.org_id ≡ anchor.did
    pub signature : Text
    pub decoded : c.base64_decode commitment.signature ≡ some signature
    pub signs :
        verify_signature c anchor (c.sha256 (commitment_message commitment)) signature ≡ ok tt

  pub IsVerified-cons :
      (m : AuditCommitment) {ms : List AuditCommitment} {e : CompositeEntry}
      → IsVerified ms e
      → IsVerified (m ∷ ms) e
  IsVerified-cons m v = record {
    commitment = v.commitment;
    among = inr v.among;
    org = v.org;
    number = v.number;
    time = v.time;
    committed = v.committed;
    correlates = v.correlates;
    own = v.own;
    signature = v.signature;
    decoded = v.decoded;
    signs = v.signs;
  }

  pub verified_org :
      (m : AuditCommitment) → verify_commitment c m anchor ≡ ok tt → m.org_id ≡ anchor.did
  unfolding verify_commitment
  verified_org m h =
      let (same, _) = guard-eq-ok (text_eq m.org_id anchor.did) _ _ h in
      text_eq→eq m.org_id anchor.did same

  pub IsVerified-of_verified :
      (m : AuditCommitment)
      → m.correlation_id ≡ correlation_id
      → verify_commitment c m anchor ≡ ok tt
      → (ms : List AuditCommitment) → IsVerified (m ∷ ms) (entry_of m)
  unfolding verify_commitment entry_of commitment_bytes
  IsVerified-of_verified m correlates h ms =
      let (_, h₁) = guard-eq-ok (text_eq m.org_id anchor.did) _ _ h in
      let (sig, e, h₂) =
        >>=-eq-ok (ok_or (c.base64_decode m.signature) (invalid_vc_proof "signature base64")) _
          h₁ in
      record {
        commitment = m;
        among = inl refl;
        org = refl;
        number = refl;
        time = refl;
        committed = refl;
        correlates = correlates;
        own = verified_org m h;
        signature = sig;
        decoded = ok_or-eq-ok (c.base64_decode m.signature) _ e;
        signs =
            map_err-eq-ok (verify_signature c anchor (c.sha256 (commitment_message m)) sig) _ h₂;
      }
