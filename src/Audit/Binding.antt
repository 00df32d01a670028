-- ===== src/Audit/Binding.antt =====
-- The bytes of commitments of agentcreds-core/src/audit.rs, and their signatures.
use agentcreds.Prelude.{ℕ, ◌/◌, ◌^◌, ◌<◌, ◌≡◌, refl, sym, ap, ◌∙◌, true, arith, ◌⊎◌, inl, inr}
use agentcreds.Outcome.{ok, >>=-eq-ok, ok_or}
use agentcreds.Text.{text_eq→eq}
use agentcreds.Codec.{
  Fits, u64_le, le_bytes_injective, hash_field_injective, hash_field_injective_end,
  append_injective,
}
use agentcreds.Crypto.{Crypto, DigestLaws, IsShaCollision, equal_or_collision}
use agentcreds.Did.{TrustAnchor}
use agentcreds.Approval.Directory.{seconds_le}
use agentcreds.Audit.{
  AuditRecord, AuditCommitment, AuditCompositor, CompositeEntry, commitment_domain, find_entry,
  record_bytes, commitment_bytes, commitment_of, verify_commitment, verify_revealed,
}

-- The numbers are of 64 bits and the strings shorter than 2 ^ 64 bytes.
pub record IsSized (r : AuditRecord) : Type 0 where
  pub correlation_id : Fits r.correlation_id
  pub org_id : Fits r.org_id
  pub seq : r.seq < 2 ^ 64
  pub agent_did : Fits r.agent_did
  pub action : Fits r.action
  pub outcome : Fits r.outcome
  pub timestamp : r.timestamp / 10 ^ 9 < 2 ^ 64
  pub salt : Fits r.salt

pub record SameRecord (a b : AuditRecord) : Type 0 where
  pub correlation_id : a.correlation_id ≡ b.correlation_id
  pub agent_did : a.agent_did ≡ b.agent_did
  pub action : a.action ≡ b.action
  pub outcome : a.outcome ≡ b.outcome
  pub second : a.timestamp / 10 ^ 9 ≡ b.timestamp / 10 ^ 9
  pub salt : a.salt ≡ b.salt

record_bytes_injective :
    (a b : AuditRecord) → IsSized a → IsSized b → record_bytes a ≡ record_bytes b → SameRecord a b
unfolding record_bytes seconds_le u64_le
record_bytes_injective a b ha hb e =
    let (_, r₀) = append_injective commitment_domain commitment_domain _ _ refl e in
    let (e₁, r₁) =
      hash_field_injective a.correlation_id b.correlation_id _ _ ha.correlation_id hb.correlation_id
        r₀ in
    let (_, r₂) = hash_field_injective a.org_id b.org_id _ _ ha.org_id hb.org_id r₁ in
    let (_, r₃) = le_bytes_injective 8 a.seq b.seq _ _ ha.seq hb.seq r₂ in
    let (e₄, r₄) = hash_field_injective a.agent_did b.agent_did _ _ ha.agent_did hb.agent_did r₃ in
    let (e₅, r₅) = hash_field_injective a.action b.action _ _ ha.action hb.action r₄ in
    let (e₆, r₆) = hash_field_injective a.outcome b.outcome _ _ ha.outcome hb.outcome r₅ in
    let (e₇, r₇) =
      le_bytes_injective 8 (a.timestamp / 10 ^ 9) (b.timestamp / 10 ^ 9) _ _ ha.timestamp
        hb.timestamp r₆ in
    let e₈ = hash_field_injective_end a.salt b.salt ha.salt hb.salt r₇ in
    record {
      correlation_id = e₁;
      agent_did = e₄;
      action = e₅;
      outcome = e₆;
      second = e₇;
      salt = e₈;
    }

-- Two records of one organization and number that one compositor confirms are the same but for parts of
-- a second, or their bytes are a collision of SHA-256, where their numbers are of 64 bits and their
-- strings shorter than 2 ^ 64 bytes.
pub verify_revealed-SameRecord :
    (c : Crypto) (D : DigestLaws c) (comp : AuditCompositor) (a b : AuditRecord)
    → IsSized a
    → IsSized b
    → a.org_id ≡ b.org_id
    → a.seq ≡ b.seq
    → verify_revealed c comp a ≡ ok true
    → verify_revealed c comp b ≡ ok true
    → SameRecord a b ⊎ IsShaCollision c (record_bytes a) (record_bytes b)
unfolding verify_revealed commitment_of
verify_revealed-SameRecord c D comp a b ha hb org seq va vb =
    let (x, fa, ea) = >>=-eq-ok (ok_or (find_entry comp.entries a.org_id a.seq) _) _ va in
    let (y, fb, eb) = >>=-eq-ok (ok_or (find_entry comp.entries b.org_id b.seq) _) _ vb in
    let same : x ≡ y = ground (arith, fa, fb, org, seq) in
    let xa = text_eq→eq x.commitment (commitment_of c a) (ground (arith, ea)) in
    let yb = text_eq→eq y.commitment (commitment_of c b) (ground (arith, eb)) in
    let digests =
      D.hex_encode_injective _ _ (sym xa ∙ (ap (λ (e : CompositeEntry). e.commitment) same ∙ yb)) in
    elim (equal_or_collision c (record_bytes a) (record_bytes b) digests) [
      | inl bytes ↦ inl (record_bytes_injective a b ha hb bytes)
      | inr collision ↦ inr collision
    ]

-- A commitment whose time is changed within its second verifies where the original does.
pub verify_commitment-within_second :
    (c : Crypto) (m : AuditCommitment) (anchor : TrustAnchor) (t : ℕ)
    → t / 10 ^ 9 ≡ m.timestamp / 10 ^ 9
    → verify_commitment c (record m { timestamp = t }) anchor ≡ verify_commitment c m anchor
unfolding verify_commitment commitment_bytes seconds_le
verify_commitment-within_second c m anchor t h = rw h refl
