-- ===== src/Tests/Records.antt =====
-- The results about decision records at concrete inputs, on toy crates whose digests have 32 bytes.
use agentcreds.Prelude.{ℕ, ◌≡◌, refl, none, [], ◌∷◌, arith, ◌⊎◌}
use Prim.Native.Nat.{max}
use agentcreds.Outcome.{ok}
use agentcreds.Crypto.{IsShaCollision, HasShaCollision}
use agentcreds.Adr.{deny, verify, expired}
use agentcreds.Adr.Record.{AuthzDecision, decision_bytes}
use agentcreds.Adr.Stream.{
  new_stream, record_all, replay, with_capacity, AdrCheckpoint, sign_checkpoint, verify_checkpoint,
  head_hex,
}
use agentcreds.Adr.Content.{IsSized, SameContent, decision_digest-SameContent}
use agentcreds.Adr.Chain.{
  SameLinks, Numbered, new_stream-replay, replay-SameLinks, sign-verify_checkpoint,
}
use agentcreds.Adr.Retention.{emit_all, latest, with_capacity-latest}
use agentcreds.Did.Laws.{software_anchor}
use agentcreds.Tests.Toy.{
  agent, agent_did, agent-IsKeyed, toy, toy_laws, start, digests, digest_laws,
}

-- Agent 1 is refused for an expired token.
abbrev refusal : ℕ → AuthzDecision
refusal n = record {
  id = n ∷ [];
  seq = 0;
  timestamp = start;
  kind = verify;
  decision = deny;
  subject_did = agent_did 1;
  root_agent_did = [];
  issuer_did = [];
  vc_id = [];
  action = none;
  principal_did = none;
  accountable_party = none;
  party_version = none;
  party_commitment = none;
  evaluation = none;
  admission = none;
  accountability_source = none;
  depth = 0;
  max_depth = 0;
  signals = expired ∷ [];
  reason = none;
}

refusal-IsSized : IsSized (refusal 1)
refusal-IsSized = record {
  id = omega arith;
  timestamp = omega arith;
  subject_did = omega arith;
  root_agent_did = omega arith;
  issuer_did = omega arith;
  vc_id = omega arith;
  action = omega arith;
  reason = omega arith;
  principal_did = tt;
  accountable_party = tt;
  accountability_source = tt;
  party_version = tt;
  party_commitment = tt;
  depth = omega arith;
  max_depth = omega arith;
  signals = omega arith;
}

decision_digest-SameContent_example :
    SameContent (refusal 1) (refusal 1)
    ⊎ IsShaCollision digests (decision_bytes (refusal 1)) (decision_bytes (refusal 1))
decision_digest-SameContent_example =
    decision_digest-SameContent digests (refusal 1) (refusal 1) refusal-IsSized refusal-IsSized refl

new_stream-replay_example :
    (head_hex digests (record_all digests (new_stream digests) (refusal 1 ∷ refusal 2 ∷ [])).0
      ≡ replay digests (record_all digests (new_stream digests) (refusal 1 ∷ refusal 2 ∷ [])).1)
    × ((record_all digests (new_stream digests) (refusal 1 ∷ refusal 2 ∷ [])).0.seq ≡ 2)
    × Numbered 0 (record_all digests (new_stream digests) (refusal 1 ∷ refusal 2 ∷ [])).1
new_stream-replay_example = new_stream-replay digests (refusal 1 ∷ refusal 2 ∷ [])

replay-SameLinks_example :
    SameLinks digests (refusal 1 ∷ refusal 2 ∷ []) (refusal 1 ∷ refusal 2 ∷ [])
    ⊎ HasShaCollision digests
replay-SameLinks_example =
    replay-SameLinks digests digest_laws (refusal 1 ∷ refusal 2 ∷ []) (refusal 1 ∷ refusal 2 ∷ [])
      refl (omega arith, (omega arith, tt)) (omega arith, (omega arith, tt)) refl

sign-verify_checkpoint_example :
    (cp : AdrCheckpoint) × (sign_checkpoint toy (new_stream toy) (software_anchor (agent 1))
      ≡ ok cp)
    × (cp.count ≡ 0)
    × (cp.head ≡ head_hex toy (new_stream toy))
    × (verify_checkpoint toy cp (software_anchor (agent 1)) ≡ ok tt)
unfolding new_stream
sign-verify_checkpoint_example =
    sign-verify_checkpoint toy toy_laws (agent 1) (new_stream toy) (agent-IsKeyed 1)

with_capacity-latest_example :
    (emit_all (with_capacity 2) (refusal 1 ∷ refusal 2 ∷ refusal 3 ∷ [])).records
    ≡ latest (max 2 1) (refusal 1 ∷ refusal 2 ∷ refusal 3 ∷ [])
with_capacity-latest_example = with_capacity-latest 2 (refusal 1 ∷ refusal 2 ∷ refusal 3 ∷ [])
