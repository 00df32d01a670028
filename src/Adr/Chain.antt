-- ===== src/Adr/Chain.antt =====
-- The head of a stream, the replay of its log, and what a checkpoint binds.
use agentcreds.Prelude.{
  ℕ, ◌+◌, ◌^◌, ◌<◌, ◌≡◌, refl, sym, ◌∙◌, ap, List, [], ◌∷◌, length, arith, ◌⊎◌, inl, inr,
}
use agentcreds.Outcome.{ok}
use agentcreds.Text.{Text, text_eq_refl}
use agentcreds.Codec.{u64_le, le_bytes_injective, append_injective}
use agentcreds.Crypto.{Crypto, CryptoLaws, DigestLaws, HasShaCollision, equal_or_collision}
use agentcreds.Did.{AgentIdentity, anchor_sign, signer_sign, verify_signature}
use agentcreds.Did.Laws.{software_anchor, IsKeyed, sign-verify}
use agentcreds.Adr.Record.{AuthzDecision, decision_digest}
use agentcreds.Adr.Stream.{
  AdrStream, AdrCheckpoint, link_bytes, chain_domain, fold, genesis_head, new_stream,
  record_decision, record_all, replay_from, replay, head_hex, checkpoint_bytes, sign_checkpoint,
  verify_checkpoint,
}

-- The records are numbered one by one from a number on.
abbrev pub Numbered : ℕ → List AuthzDecision → Type 0
Numbered n [] = Unit
Numbered n (d ∷ ds) = (d.seq ≡ n) × Numbered (n + 1) ds

-- Two logs have the same numbers and the same digests at every place.
abbrev pub SameLinks : Crypto → List AuthzDecision → List AuthzDecision → Type 0
SameLinks c [] [] = Unit
SameLinks c [] (e ∷ es) = ⊥
SameLinks c (d ∷ ds) [] = ⊥
SameLinks c (d ∷ ds) (e ∷ es) =
    (d.seq ≡ e.seq) × (decision_digest c d ≡ decision_digest c e) × SameLinks c ds es

-- The numbers of a log are of 64 bits.
abbrev pub AllU64 : List AuthzDecision → Type 0
AllU64 [] = Unit
AllU64 (d ∷ ds) = (d.seq < 2 ^ 64) × AllU64 ds

module _ (c : Crypto) where
  -- Recording keeps the head the replay of the log, counts the records and numbers them in order.
  pub record_all-replay_from :
      (s : AdrStream) (ds : List AuthzDecision)
      → ((record_all c s ds).0.head ≡ replay_from c s.head (record_all c s ds).1)
        × ((record_all c s ds).0.seq ≡ s.seq + length (record_all c s ds).1)
        × (length (record_all c s ds).1 ≡ length ds)
        × Numbered s.seq (record_all c s ds).1
  unfolding record_all replay_from record_decision
  record_all-replay_from s [] = (refl, omega arith, refl, tt)
  record_all-replay_from s (d ∷ ds) =
      let (head, count, len, numbered) = record_all-replay_from (record_decision c s d).0 ds in
      (head, omega (arith, count), omega (arith, len), (refl, numbered))

  -- A new stream's head, in hexadecimal, is the replay of the log that it has recorded, in which the
  -- records are numbered from zero in order; its count is their number.
  pub new_stream-replay :
      (ds : List AuthzDecision)
      → (head_hex c (record_all c (new_stream c) ds).0
          ≡ replay c (record_all c (new_stream c) ds).1)
        × ((record_all c (new_stream c) ds).0.seq ≡ length ds)
        × Numbered 0 (record_all c (new_stream c) ds).1
  unfolding head_hex replay new_stream
  new_stream-replay ds =
      let (head, count, len, numbered) = record_all-replay_from (new_stream c) ds in
      (ap c.hex_encode head, omega (arith, count, len), numbered)

  module _ (D : DigestLaws c) where
    -- One link: equal heads have equal predecessors, numbers and digests, or there is a collision.
    fold-injective :
        (g h : Text) (d e : AuthzDecision)
        → length g ≡ length h
        → d.seq < 2 ^ 64
        → e.seq < 2 ^ 64
        → fold c g d.seq (decision_digest c d) ≡ fold c h e.seq (decision_digest c e)
        → ((g ≡ h) × (d.seq ≡ e.seq) × (decision_digest c d ≡ decision_digest c e))
          ⊎ HasShaCollision c
    unfolding fold link_bytes u64_le
    fold-injective g h d e len hd he same =
        elim (equal_or_collision c (link_bytes g d.seq (decision_digest c d))
          (link_bytes h e.seq (decision_digest c e)) same) [
            | inl bytes ↦
                let (_, r₁) = append_injective chain_domain chain_domain _ _ refl bytes in
                let (heads, r₂) = append_injective g h _ _ len r₁ in
                let (seqs, digests) = le_bytes_injective 8 d.seq e.seq _ _ hd he r₂ in
                inl (heads, seqs, digests)
            | inr collision ↦ inr (record { left = _; right = _; collision = collision })
          ]

    replay_from-injective :
        (ds es : List AuthzDecision) (g h : Text)
        → length g ≡ length h
        → length ds ≡ length es
        → AllU64 ds
        → AllU64 es
        → replay_from c g ds ≡ replay_from c h es
        → (SameLinks c ds es × (g ≡ h)) ⊎ HasShaCollision c
    unfolding replay_from
    replay_from-injective [] [] g h len n hd he same = inl (tt, same)
    replay_from-injective [] (e ∷ es) g h len n hd he same = absurd (omega arith)
    replay_from-injective (d ∷ ds) [] g h len n hd he same = absurd (omega arith)
    replay_from-injective (d ∷ ds) (e ∷ es) g h len n hd he same =
        let next : length (fold c g d.seq (decision_digest c d))
            ≡ length (fold c h e.seq (decision_digest c e)) =
          unfold fold in D.sha256_length _ ∙ sym (D.sha256_length _) in
        elim (replay_from-injective ds es _ _ next (omega arith) hd.1 he.1 same) [
          | inl (rest, heads) ↦ elim (fold-injective g h d e len hd.0 he.0 heads) [
            | inl (start, seqs, digests) ↦ inl ((seqs, digests, rest), start)
            | inr collision ↦ inr collision
          ]
          | inr collision ↦ inr collision
        ]

    -- Two logs of one length, their numbers of 64 bits, that replay to one head have the same numbers
    -- and the same digests at every place, or SHA-256 has a collision.
    pub replay-SameLinks :
        (ds es : List AuthzDecision)
        → length ds ≡ length es
        → AllU64 ds
        → AllU64 es
        → replay c ds ≡ replay c es
        → SameLinks c ds es ⊎ HasShaCollision c
    unfolding replay
    replay-SameLinks ds es n hd he same =
        elim (replay_from-injective ds es (genesis_head c) (genesis_head c) refl n hd he
          (D.hex_encode_injective _ _ same)) [
            | inl (links, _) ↦ inl links
            | inr collision ↦ inr collision
          ]

  module _ (L : CryptoLaws c) where
    -- A keyed anchor signs a checkpoint of every stream; it has the stream's count and head and verifies
    -- under that anchor.
    pub sign-verify_checkpoint :
        (a : AgentIdentity) (s : AdrStream)
        → IsKeyed c a
        → (cp : AdrCheckpoint) × (sign_checkpoint c s (software_anchor a) ≡ ok cp)
          × (cp.count ≡ s.seq)
          × (cp.head ≡ head_hex c s)
          × (verify_checkpoint c cp (software_anchor a) ≡ ok tt)
    unfolding sign_checkpoint verify_checkpoint checkpoint_bytes anchor_sign signer_sign
        verify_signature
    sign-verify_checkpoint a s keyed =
        let draft : AdrCheckpoint = record {
          count = s.seq;
          head = head_hex c s;
          issuer_did = a.did;
          signature = [];
        } in
        let (sig, signed, verified) = sign-verify c L a (c.sha256 (checkpoint_bytes draft)) keyed in
        (
          record draft { signature = c.base64_encode sig },
          rw signed refl,
          refl,
          refl,
          ground (arith, text_eq_refl a.did, L.base64-decode-encode sig, verified),
        )
