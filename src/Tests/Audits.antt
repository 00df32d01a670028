-- ===== src/Tests/Audits.antt =====
-- The results about audit logs and compositors at concrete inputs.
use agentcreds.Prelude.{ℕ, ◌+◌, ◌≡◌, ◌⊎◌, refl, true, some, [], ◌∷◌, arith, List}
use agentcreds.Outcome.{ok, err, invalid_vc_proof}
use agentcreds.Text.{Text, codes}
use agentcreds.Crypto.{IsShaCollision}
use agentcreds.Did.{TrustAnchor, public_only, ed25519}
use agentcreds.Did.Laws.{software_anchor}
use agentcreds.Audit
use agentcreds.Audit.{
  AuditRecord, AuditCommitment, AuditLog, AuditCompositor, CompositeEntry, new_log, record_at,
  reveal, export, new_compositor, ingest, record_bytes, commitment_of, verify_commitment,
  verify_revealed,
}
use agentcreds.Audit.Binding.{IsSized, SameRecord, verify_revealed-SameRecord}
use agentcreds.Audit.Custody.{
  started, ingested, IsComposited, Reached-IsComposited, IsMerged, ingest-IsMerged,
  ingest-IsStopped,
}
use agentcreds.Audit.Custody.Stops.{IsStopped}
use agentcreds.Audit.Merging.{ingest_commute}
use agentcreds.Audit.Reveal.{opened, recorded, export-verify_revealed}
use agentcreds.Tests.Toy.{
  agent, agent_did, agent-IsKeyed, toy, toy_laws, start, signature, digests, digest_laws,
}

abbrev correlation : Text
correlation = 9 ∷ []

-- A commitment of agent n, who is its own organization.
abbrev statement : ℕ → ℕ → AuditCommitment
statement n seq = record {
  correlation_id = correlation;
  org_id = agent_did n;
  seq = seq;
  timestamp = start + n;
  commitment = n ∷ seq ∷ [];
  signature = signature;
}

-- One of another correlation.
abbrev stray : AuditCommitment
stray = record (statement 1 1) { correlation_id = [] }

abbrev org : ℕ → TrustAnchor
org n = software_anchor (agent n)

abbrev entry : ℕ → ℕ → CompositeEntry
entry n seq = record {
  org_id = agent_did n;
  seq = seq;
  timestamp = start + n;
  commitment = n ∷ seq ∷ [];
}

abbrev composed : List CompositeEntry → AuditCompositor
composed es = record { correlation_id = correlation; entries = es }

one_run :
    ingest toy (new_compositor correlation) (statement 2 0 ∷ []) (org 2)
    ≡ (composed (entry 2 0 ∷ []), ok tt)
unfolding ingest Audit.finish Audit.ingest_loop Audit.ingest_one agentcreds.Text.text_eq Audit.admit
    Audit.find_entry Audit.is_at Audit.sort_composite Audit.insert_composite Audit.entry_of
    Audit.entry_le new_compositor agentcreds.Text.text_le verify_commitment
    agentcreds.Did.verify_signature agentcreds.Did.verify agentcreds.Did.verify_by
    agentcreds.Did.verify_ed25519
one_run = refl

second_run :
    ingest toy (composed (entry 2 0 ∷ [])) (statement 1 0 ∷ []) (org 1)
    ≡ (composed (entry 1 0 ∷ entry 2 0 ∷ []), ok tt)
unfolding ingest Audit.finish Audit.ingest_loop Audit.ingest_one agentcreds.Text.text_eq Audit.admit
    Audit.find_entry Audit.is_at Audit.sort_composite Audit.insert_composite Audit.entry_of
    Audit.entry_le new_compositor agentcreds.Text.text_le verify_commitment
    agentcreds.Did.verify_signature agentcreds.Did.verify agentcreds.Did.verify_by
    agentcreds.Did.verify_ed25519
second_run = refl

failed_run : ingest toy (composed (entry 2 0 ∷ [])) (statement 1 0 ∷ stray ∷ []) (org 1) ≡ (
  composed (entry 2 0 ∷ entry 1 0 ∷ []),
  err (invalid_vc_proof "commitment correlation_id does not match"),
)
unfolding ingest Audit.finish Audit.ingest_loop Audit.ingest_one agentcreds.Text.text_eq Audit.admit
    Audit.find_entry Audit.is_at Audit.sort_composite Audit.insert_composite Audit.entry_of
    Audit.entry_le new_compositor agentcreds.Text.text_le verify_commitment
    agentcreds.Did.verify_signature agentcreds.Did.verify agentcreds.Did.verify_by
    agentcreds.Did.verify_ed25519
failed_run = refl

Reached-IsComposited_example :
    IsComposited toy correlation
      ((statement 2 0 ∷ [], org 2) ∷ [])
      (ingest toy (new_compositor correlation) (statement 2 0 ∷ []) (org 2)).0
Reached-IsComposited_example =
    Reached-IsComposited toy correlation ((statement 2 0 ∷ [], org 2) ∷ [])
      (ingest toy (new_compositor correlation) (statement 2 0 ∷ []) (org 2)).0
      (ingested started (statement 2 0 ∷ []) (org 2))

ingest-IsMerged_example :
    IsMerged toy
      (composed (entry 2 0 ∷ []))
      (statement 1 0 ∷ [])
      (org 1)
      (composed (entry 1 0 ∷ entry 2 0 ∷ []))
unfolding Audit.find_entry
ingest-IsMerged_example =
    ingest-IsMerged toy (composed (entry 2 0 ∷ [])) (composed (entry 1 0 ∷ entry 2 0 ∷ []))
      (statement 1 0 ∷ []) (org 1) (refl, tt) second_run

ingest-IsStopped_example :
    IsStopped toy correlation
      (org 1)
      (entry 2 0 ∷ [])
      (entry 2 0 ∷ entry 1 0 ∷ [])
      (statement 1 0 ∷ stray ∷ [])
      (invalid_vc_proof "commitment correlation_id does not match")
    × (correlation ≡ correlation)
ingest-IsStopped_example =
    ingest-IsStopped toy (composed (entry 2 0 ∷ [])) (composed (entry 2 0 ∷ entry 1 0 ∷ []))
      (statement 1 0 ∷ stray ∷ []) (org 1) _ failed_run

ingest_commute_example :
    (p : AuditCompositor) × (ingest toy (new_compositor correlation) (statement 1 0 ∷ []) (org 1)
      ≡ (p, ok tt))
    × (ingest toy p (statement 2 0 ∷ []) (org 2) ≡ (composed (entry 1 0 ∷ entry 2 0 ∷ []), ok tt))
unfolding new_compositor
ingest_commute_example =
    ingest_commute toy (new_compositor correlation) (composed (entry 2 0 ∷ []))
      (composed (entry 1 0 ∷ entry 2 0 ∷ [])) (statement 2 0 ∷ []) (statement 1 0 ∷ []) (org 2)
      (org 1) tt (λ e. ground (arith, e)) one_run second_run

abbrev log : AuditLog
log =
    (record_at (new_log correlation (agent_did 1)) (agent_did 3) (4 ∷ []) (5 ∷ []) start (6 ∷ [])).0

export-verify_revealed_example :
    (ms : List AuditCommitment) × (comp : AuditCompositor) × (export toy log (org 1) ≡ ok ms)
    × (ingest toy (new_compositor correlation) ms (org 1) ≡ (comp, ok tt))
    × ((i : ℕ) (r : AuditRecord) → reveal log i ≡ some r → verify_revealed toy comp r ≡ ok true)
export-verify_revealed_example =
    export-verify_revealed toy toy_laws (agent 1) (agent-IsKeyed 1) correlation log
      (recorded opened (agent_did 3) (4 ∷ []) (5 ∷ []) start (6 ∷ []))

abbrev logged : AuditRecord
logged = record {
  correlation_id = correlation;
  org_id = agent_did 1;
  seq = 0;
  agent_did = agent_did 3;
  action = 4 ∷ [];
  outcome = 5 ∷ [];
  timestamp = start;
  salt = 6 ∷ [];
}

logged-IsSized : IsSized logged
logged-IsSized = record {
  correlation_id = omega arith;
  org_id = omega arith;
  seq = omega arith;
  agent_did = omega arith;
  action = omega arith;
  outcome = omega arith;
  timestamp = omega arith;
  salt = omega arith;
}

abbrev confirming : AuditCompositor
confirming = composed (record (entry 1 0) { commitment = commitment_of digests logged } ∷ [])

confirms : verify_revealed digests confirming logged ≡ ok true
unfolding verify_revealed Audit.find_entry Audit.is_at agentcreds.Text.text_eq commitment_of
    record_bytes agentcreds.Codec.hash_field agentcreds.Approval.Directory.seconds_le
confirms = refl

verify_revealed-SameRecord_example :
    SameRecord logged logged ⊎ IsShaCollision digests (record_bytes logged) (record_bytes logged)
verify_revealed-SameRecord_example =
    verify_revealed-SameRecord digests digest_laws confirming logged logged logged-IsSized
      logged-IsSized refl refl confirms confirms
