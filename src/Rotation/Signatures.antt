-- ===== src/Rotation/Signatures.antt =====
-- The messages that agentcreds-core/src/rotation.rs signs, and the signatures of a key history.
use agentcreds.Prelude.{
  ℕ, ◌≡◌, ◌≢◌, refl, sym, ◌∙◌, ap, true, false, Option, none, some, List, [], ◌∷◌, ◌++◌, ◌≤◌,
  length, arith,
}
use mathlib.Core.List.{append_assoc}
use agentcreds.Outcome.{
  ok, >>=-eq-ok, guard-eq-ok, ok_or, ok_or-eq-ok, map_err-eq-ok, invalid_did_signature,
}
use agentcreds.Text.{Text, text_eq, text_eq→eq, sort_texts}
use agentcreds.Codec.{u64_le, hash_field}
use agentcreds.Crypto.{Crypto}
use agentcreds.Did.{TrustAnchor, anchor_from_did_key, verify_signature}
use agentcreds.Credential.{is_empty}
use agentcreds.Signed.{live}
use agentcreds.Approval.Directory.{seconds_le, opt_seconds}
use agentcreds.Rotation.{
  RotationStatement, KeyHistory, statement_domain, seal_domain, statement_bytes, rotation_bytes,
  did_bytes, history_bytes, verify_statement, verify_chain,
}

pub is_empty-nonempty : (t : Text) → is_empty t ≡ false → t ≢ []
is_empty-nonempty [] h e = cc
is_empty-nonempty (x ∷ xs) h e = cc

-- The bytes that `f` writes for each element, one after the other.
abbrev pub written {ℓ} : {A : Type ℓ} → (A → Text) → List A → Text
written f [] = []
written f (x ∷ xs) = f x ++ written f xs

-- The message that the replaced key signs.
abbrev pub rotation_message : RotationStatement → Text
rotation_message s =
    statement_domain
    ++ (hash_field s.previous_did ++ (hash_field s.next_did ++ seconds_le s.effective_at))

abbrev pub rotation_fields : RotationStatement → Text
rotation_fields r =
    hash_field r.previous_did
    ++ (hash_field r.next_did ++ (seconds_le r.effective_at ++ hash_field r.signature))

-- The message that the current key signs: all the fields of the history but the seal.
abbrev pub seal_message : KeyHistory → Text
seal_message h =
    seal_domain
    ++ (u64_le h.version
        ++ (hash_field h.root_did
            ++ (u64_le (length h.rotations)
                ++ (written rotation_fields h.rotations
                    ++ (u64_le (length h.repudiated)
                        ++ (written hash_field (sort_texts h.repudiated)
                            ++ opt_seconds h.not_after))))))

rotation_bytes-written :
    (rs : List RotationStatement) → rotation_bytes rs ≡ written rotation_fields rs
unfolding rotation_bytes
rotation_bytes-written [] = refl
rotation_bytes-written (r ∷ rs) = rw (rotation_bytes-written rs) (
    sym (
      append_assoc (hash_field r.previous_did) _ _
      ∙ ap (λ (t : Text). hash_field r.previous_did ++ t)
          (append_assoc (hash_field r.next_did) _ _
            ∙ ap (λ (t : Text). hash_field r.next_did ++ t)
                (append_assoc (seconds_le r.effective_at) _ _))))

did_bytes-written : (ds : List Text) → did_bytes ds ≡ written hash_field ds
unfolding did_bytes
did_bytes-written [] = refl
did_bytes-written (d ∷ ds) = rw (did_bytes-written ds) refl

pub history_bytes-seal_message : (h : KeyHistory) → history_bytes h ≡ seal_message h
unfolding history_bytes
history_bytes-seal_message h =
    rw (rotation_bytes-written h.rotations, did_bytes-written (sort_texts h.repudiated)) refl

pub live-before :
    (not_after : Option ℕ) (now end : ℕ)
    → live not_after now ≡ true
    → not_after ≡ some end
    → now ≤ end
live-before none now end h e = cc
live-before (some t) now end h e = ground arith

module _ (c : Crypto) where
  -- The key that `did` names signed the message, with the signature that `encoded` holds.
  pub record IsSigned (did message encoded : Text) : Type 0 where
    pub anchor : TrustAnchor
    pub key : anchor_from_did_key c did ≡ ok anchor
    pub signature : Text
    pub decoded : c.base64_decode encoded ≡ some signature
    pub verifies : verify_signature c anchor (c.sha256 message) signature ≡ ok tt

  pub signed_as :
      {did did' message message' encoded : Text}
      → did ≡ did'
      → message ≡ message'
      → IsSigned did message encoded
      → IsSigned did' message' encoded
  signed_as e f x = rw (e, f) at x

  -- The rotations lead from one key to another: each replaces the key before it, which signed it.
  abbrev pub Chained : Text → List RotationStatement → Text → Type 0
  Chained did [] end = did ≡ end
  Chained did (s ∷ ss) end =
      (s.previous_did ≡ did)
      × IsSigned s.previous_did (rotation_message s) s.signature
      × Chained s.next_did ss end

  pub Chained-as :
      (ss : List RotationStatement) {did did' end end' : Text}
      → did ≡ did'
      → end ≡ end'
      → Chained did ss end
      → Chained did' ss end'
  Chained-as ss e f x = rw (e, f) at x

  verify_statement-IsSigned :
      (s : RotationStatement)
      → verify_statement c s ≡ ok tt
      → IsSigned s.previous_did (rotation_message s) s.signature
  unfolding verify_statement statement_bytes
  verify_statement-IsSigned s h =
      let (anchor, key, h₁) = >>=-eq-ok (anchor_from_did_key c s.previous_did) _ h in
      let (sig, e, h₂) =
        >>=-eq-ok (ok_or (c.base64_decode s.signature) (invalid_did_signature "signature base64")) _
          h₁ in
      record {
        anchor = anchor;
        key = key;
        signature = sig;
        decoded = ok_or-eq-ok (c.base64_decode s.signature) _ e;
        verifies =
            map_err-eq-ok (verify_signature c anchor (c.sha256 (rotation_message s)) sig) _ h₂;
      }

  pub verify_chain-Chained :
      (ss : List RotationStatement) (did : Text) {end : Text}
      → verify_chain c did ss ≡ ok end
      → Chained did ss end
  unfolding verify_chain
  verify_chain-Chained [] did h = ground arith
  verify_chain-Chained (s ∷ ss) did {end} h =
      let (same, h₁) = guard-eq-ok (text_eq s.previous_did did) _ _ h in
      let (_, v, h₂) = >>=-eq-ok (verify_statement c s) _ h₁ in
      (
        text_eq→eq s.previous_did did same,
        verify_statement-IsSigned s (ground (arith, v)),
        verify_chain-Chained ss s.next_did {end = end} h₂,
      )
