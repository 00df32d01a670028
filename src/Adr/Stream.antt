-- ===== src/Adr/Stream.antt =====
-- `InMemorySink`, `AdrStream`, `replay` and `AdrCheckpoint`. The sinks of a stream are in-memory ones,
-- each seen by its records; a head is the 32 bytes, and `resume` is given those that hex decodes to.
use agentcreds.Prelude.{
  ℕ, ◌+◌, Option, none, some, List, [], ◌∷◌, ◌++◌, length, leb, ◌==◌, if◌then◌else◌,
}
use Prim.Native.Nat.{max}
use agentcreds.Outcome.{
  Result, ok, err, ◌>>=◌, ◌>>◌, guard, ok_or, map_err, invalid_vc_proof, malformed_claims,
}
use agentcreds.Text.{Text, codes, text_eq}
use agentcreds.Codec.{u64_le, hash_field}
use agentcreds.Crypto.{Crypto}
use agentcreds.Did.{TrustAnchor, anchor_sign, verify_signature}
use agentcreds.Adr.Record.{AuthzDecision, decision_digest}

pub record InMemorySink : Type 0 where
  pub capacity : ℕ
  pub records : List AuthzDecision

unfoldable pub with_capacity : ℕ → InMemorySink
with_capacity capacity = record { capacity = max capacity 1; records = [] }

-- `records.remove(0)`
abbrev pub remove_first {ℓ} : {A : Type ℓ} → List A → List A
remove_first [] = []
remove_first (x ∷ xs) = xs

unfoldable pub emit : InMemorySink → AuthzDecision → InMemorySink
emit sink d =
    let kept =
      if leb sink.capacity (length sink.records) then remove_first sink.records else sink.records in
    record sink { records = kept ++ d ∷ [] }

unfoldable pub emit_each : List InMemorySink → AuthzDecision → List InMemorySink
emit_each [] d = []
emit_each (s ∷ ss) d = emit s d ∷ emit_each ss d

pub record AdrStream : Type 0 where
  pub sinks : List InMemorySink
  pub seq : ℕ
  pub head : Text

abbrev pub chain_domain : Text
chain_domain = codes "agentcreds-adr-chain-v1"

abbrev pub checkpoint_domain : Text
checkpoint_domain = codes "agentcreds-adr-checkpoint-v1"

unfoldable pub subscribe : AdrStream → InMemorySink → AdrStream
subscribe s sink = record s { sinks = s.sinks ++ sink ∷ [] }

unfoldable pub resume : ℕ → Option Text → Result AdrStream
resume count none = err (malformed_claims "ADR chain head is not valid hex")
resume count (some bytes) =
    if length bytes == 32
    then ok (record { sinks = []; seq = count; head = bytes })
    else err (malformed_claims "ADR chain head must be 32 bytes")

-- What `fold` feeds to the hash.
unfoldable pub link_bytes : Text → ℕ → Text → Text
link_bytes prev_head seq digest = chain_domain ++ (prev_head ++ (u64_le seq ++ digest))

pub record AdrCheckpoint : Type 0 where
  pub count : ℕ
  pub head : Text
  pub issuer_did : Text
  pub signature : Text

unfoldable pub checkpoint_bytes : AdrCheckpoint → Text
checkpoint_bytes cp =
    checkpoint_domain ++ (u64_le cp.count ++ (hash_field cp.head ++ hash_field cp.issuer_did))

module _ (c : Crypto) where
  unfoldable pub fold : Text → ℕ → Text → Text
  fold prev_head seq digest = c.sha256 (link_bytes prev_head seq digest)

  unfoldable pub genesis_head : Text
  genesis_head = c.sha256 chain_domain

  unfoldable pub new_stream : AdrStream
  new_stream = record { sinks = []; seq = 0; head = genesis_head }

  -- `AdrStream::record`.
  unfoldable pub record_decision : AdrStream → AuthzDecision → AdrStream × AuthzDecision
  record_decision s decision =
      let stamped : AuthzDecision = record decision { seq = s.seq } in
      (
        record {
          sinks = emit_each s.sinks stamped;
          seq = s.seq + 1;
          head = fold s.head s.seq (decision_digest c stamped);
        },
        stamped,
      )

  -- Recording one decision after the other.
  unfoldable pub record_all : AdrStream → List AuthzDecision → AdrStream × List AuthzDecision
  record_all s [] = (s, [])
  record_all s (d ∷ ds) =
      let (t, stamped) = record_decision s d in
      let (u, rest) = record_all t ds in (u, stamped ∷ rest)

  -- The loop of `replay`.
  unfoldable pub replay_from : Text → List AuthzDecision → Text
  replay_from head [] = head
  replay_from head (d ∷ ds) = replay_from (fold head d.seq (decision_digest c d)) ds

  unfoldable pub replay : List AuthzDecision → Text
  replay ds = c.hex_encode (replay_from genesis_head ds)

  unfoldable pub head_hex : AdrStream → Text
  head_hex s = c.hex_encode s.head

  unfoldable pub sign_checkpoint : AdrStream → TrustAnchor → Result AdrCheckpoint
  sign_checkpoint s anchor = do
    let cp : AdrCheckpoint = record {
      count = s.seq;
      head = head_hex s;
      issuer_did = anchor.did;
      signature = [];
    }
    sig ← anchor_sign c anchor (c.sha256 (checkpoint_bytes cp))
    ok (record cp { signature = c.base64_encode sig })

  unfoldable pub verify_checkpoint : AdrCheckpoint → TrustAnchor → Result (Unit {0})
  verify_checkpoint cp anchor = do
    guard (text_eq cp.issuer_did anchor.did)
        (invalid_vc_proof "checkpoint issuer does not match the anchor")
    sig ← ok_or (c.base64_decode cp.signature) (invalid_vc_proof "signature base64")
    map_err (verify_signature c anchor (c.sha256 (checkpoint_bytes cp)) sig)
        (invalid_vc_proof "checkpoint signature does not verify")
