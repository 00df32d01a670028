-- ===== src/Credential/Proofs.antt =====
-- What issuance makes verification accept, and what verification accepts.
use agentcreds.Prelude.{
  ℕ, ◌≢◌, ◌≤◌, ◌≡◌, refl, true, false, not, ◌&&◌, Option, some, [], ◌∷◌, ltb, arith, length,
}
use agentcreds.Outcome.{
  ok, >>=-eq-ok, guard-eq-ok, ok_or-eq-ok, map_err-eq-ok, ok_or, json, invalid_vc_proof,
}
use agentcreds.Text.{Text, text_eq, text_eq→eq, text_eq_refl}
use agentcreds.Crypto.{Crypto, CryptoLaws}
use agentcreds.Did.{TrustAnchor, AgentIdentity, anchor_sign, signer_sign, verify_signature}
use agentcreds.Did.Laws.{software_anchor, IsKeyed, sign-verify}
use agentcreds.Credential.{
  CredentialFormat, w3c_linked_data, sd_jwt_vc, CredentialStatus, CapabilityCredential, Payload,
  is_empty, hash_payload, payload_of, generate_id, issue_expiry, signed_credential, issue,
  verify_w3c, verify_format, verify_at,
}
use agentcreds.Credential.Claims.{CapabilityClaims, validate}

nonempty : (t : Text) → length t ≢ 0 → is_empty t ≡ false
nonempty [] h = absurd (h refl)
nonempty (x ∷ xs) h = refl

module _ (c : Crypto) (payload : Payload) where
  -- What a verified credential has: this anchor as its issuer, an expiry that is not past, the W3C
  -- format, the hash of its payload, and a signature of the anchor over that payload.
  pub record IsVerified (vc : CapabilityCredential) (anchor : TrustAnchor) (now : ℕ) : Type 0 where
    pub issuer : vc.issuer ≡ anchor.did
    pub unexpired : now ≤ vc.expiration_date
    pub w3c : vc.format ≡ w3c_linked_data
    pub bytes : Text
    pub signed_payload : payload_of c payload vc ≡ some bytes
    pub hash : hash_payload c payload bytes ≡ vc.proof.payload_hash
    pub signature : Text
    pub decoded : c.base64_decode vc.proof.proof_value ≡ some signature
    pub verifies : verify_signature c anchor bytes signature ≡ ok tt

  verify_w3c-format :
      (f : CredentialFormat) (vc : CapabilityCredential) (anchor : TrustAnchor)
      → verify_format c payload f vc anchor ≡ ok tt
      → (f ≡ w3c_linked_data) × (verify_w3c c payload vc anchor ≡ ok tt)
  unfolding verify_format
  verify_w3c-format w3c_linked_data vc anchor h = (refl, h)
  verify_w3c-format sd_jwt_vc vc anchor h = cc

  -- A credential that verifies strictly is one that the anchor signed: the issuer is the anchor, the
  -- expiry is not past, the format is W3C, the hash is that of the payload, and the anchor's key
  -- verifies the signature over the payload.
  pub verify_at-IsVerified :
      (vc : CapabilityCredential) (anchor : TrustAnchor) (now : ℕ)
      → verify_at c payload vc anchor true now ≡ ok tt
      → IsVerified vc anchor now
  unfolding verify_at verify_w3c
  verify_at-IsVerified vc anchor now h =
      let (strict, h₁) = guard-eq-ok (not (true && not (text_eq vc.issuer anchor.did))) _ _ h in
      let (dated, h₂) = guard-eq-ok (not (ltb vc.expiration_date now)) _ _ h₁ in
      let (w3c, h₃) = verify_w3c-format vc.format vc anchor h₂ in
      let (bytes, e, h₄) = >>=-eq-ok (ok_or (payload_of c payload vc) json) _ h₃ in
      let (_, h₅) = guard-eq-ok (not (is_empty vc.proof.payload_hash)) _ _ h₄ in
      let (hash, h₆) =
        guard-eq-ok (text_eq (hash_payload c payload bytes) vc.proof.payload_hash) _ _ h₅ in
      let (sig, d, h₇) =
        >>=-eq-ok
          (ok_or (c.base64_decode vc.proof.proof_value) (invalid_vc_proof "base64 decode failed")) _
          h₆ in
      record {
        issuer = text_eq→eq vc.issuer anchor.did (ground (arith, strict));
        unexpired = ground (arith, dated);
        w3c = w3c;
        bytes = bytes;
        signed_payload = ok_or-eq-ok (payload_of c payload vc) _ e;
        hash = text_eq→eq (hash_payload c payload bytes) vc.proof.payload_hash hash;
        signature = sig;
        decoded = ok_or-eq-ok (c.base64_decode vc.proof.proof_value) _ d;
        verifies = map_err-eq-ok (verify_signature c anchor bytes sig) _ h₇;
      }

  module _ (L : CryptoLaws c) where
    signed_credential-verify_at :
        (anchor : TrustAnchor) (subject : Text) (cl : CapabilityClaims)
        (status : Option CredentialStatus) (now : ℕ) (bytes sig : Text) (at : ℕ)
        → payload
            (generate_id c payload anchor.did subject now)
            anchor.did
            now
            (issue_expiry c payload cl now)
            (record { id = subject; claims = cl })
          ≡ some bytes
        → verify_signature c anchor bytes sig ≡ ok tt
        → at ≤ issue_expiry c payload cl now
        → verify_at c payload
            (signed_credential c payload anchor subject cl status now bytes sig)
            anchor
            true
            at
          ≡ ok tt
    unfolding verify_at verify_format verify_w3c payload_of signed_credential hash_payload
    signed_credential-verify_at anchor subject cl status now bytes sig at encoded verified live =
        ground (
          arith,
          encoded,
          verified,
          live,
          text_eq_refl anchor.did,
          text_eq_refl (c.hex_encode (c.sha256 bytes)),
          nonempty (c.hex_encode (c.sha256 bytes)) (L.hex_digest_nonempty bytes),
          L.base64-decode-encode sig,
        )

    -- A keyed anchor issues a credential for valid claims whose payload serializes, and the credential
    -- has the subject and the claims asked for and verifies strictly under that anchor until it expires.
    pub issue-verify_at :
        (a : AgentIdentity) (subject : Text) (cl : CapabilityClaims)
        (status : Option CredentialStatus) (now : ℕ) (bytes : Text)
        → IsKeyed c a
        → validate cl ≡ ok tt
        → payload
            (generate_id c payload a.did subject now)
            a.did
            now
            (issue_expiry c payload cl now)
            (record { id = subject; claims = cl })
          ≡ some bytes
        → (vc : CapabilityCredential) × (issue c payload (software_anchor a) subject cl status now
            ≡ ok vc)
          × (vc.credential_subject ≡ record { id = subject; claims = cl })
          × ((at : ℕ)
              → at ≤ vc.expiration_date
              → verify_at c payload vc (software_anchor a) true at ≡ ok tt)
    unfolding issue signed_credential anchor_sign signer_sign verify_signature
    issue-verify_at a subject cl status now bytes keyed valid encoded =
        let (s, signed, verified) = sign-verify c L a bytes keyed in
        (
          signed_credential c payload (software_anchor a) subject cl status now bytes s,
          rw (valid, encoded, signed) refl,
          refl,
          λ at live.
              signed_credential-verify_at (software_anchor a) subject cl status now bytes s at
                encoded verified live,
        )
