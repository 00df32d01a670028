-- ===== src/Rotation/Sealing.antt =====
-- Sealing a key history, `KeyHistory::seal` of agentcreds-core/src/rotation.rs, and using it.
use agentcreds.Prelude.{ℕ, ◌≡◌, refl, sym, ◌∙◌, true, false, not, ◌&&◌, Option, some, [], arith}
use agentcreds.Outcome.{ok}
use agentcreds.Did
use agentcreds.Text.{Text, text_eq_refl, contains}
use agentcreds.Crypto.{Crypto, CryptoLaws}
use agentcreds.Did.{
  AgentIdentity, TrustAnchor, public_only, sign, anchor_sign, signer_sign, verify_signature,
  public_key_from_did_key, anchor_from_did_key,
}
use agentcreds.Did.Laws.{IsKeyed, software_anchor, sign-verify}
use agentcreds.Credential.{is_empty}
use agentcreds.Signed.{live}
use agentcreds.Rotation.{
  KeyHistory, dids, active_dids, history_bytes, is_current, verify_history, seal_draft,
  seal_history, verify_sealed, verify_history_current, authorize_issuer,
}
use agentcreds.Rotation.Continuity.{contains-active_dids, verify_history-chain}

module _ (c : Crypto) where
  seal_draft-ok :
      (draft : KeyHistory) (a : AgentIdentity) (s : Text)
      → sign c a (c.sha256 (history_bytes draft)) ≡ ok s
      → seal_draft c draft (software_anchor a)
        ≡ (record draft { signature = c.base64_encode s }, ok tt)
  unfolding seal_draft anchor_sign signer_sign
  seal_draft-ok draft a s signed = rw (seal_draft, signed) refl

  sealed_by :
      (a : AgentIdentity) (h : KeyHistory) (root s : Text)
      → public_key_from_did_key c a.did ≡ ok a.public_key
      → verify_history c h root ≡ ok a.did
      → is_empty h.signature ≡ false
      → c.base64_decode h.signature ≡ some s
      → Did.verify c a.public_key (c.sha256 (history_bytes h)) s ≡ ok tt
      → verify_sealed c h root ≡ ok a.did
  unfolding verify_sealed anchor_from_did_key verify_signature
  sealed_by a h root s named v full decoded verified =
      ground (arith, v, full, named, decoded, verified)

  verify_sealed-authorize_issuer :
      (h : KeyHistory) (root current issuer : Text) (now : ℕ) (anchor : TrustAnchor)
      → verify_sealed c h root ≡ ok current
      → live h.not_after now ≡ true
      → contains (active_dids h) issuer ≡ true
      → anchor_from_did_key c issuer ≡ ok anchor
      → authorize_issuer c h root issuer now ≡ ok anchor
  unfolding authorize_issuer verify_history_current is_current
  verify_sealed-authorize_issuer h root current issuer now anchor sealed fresh active key =
      let both : (contains (dids h) issuer && not (contains h.repudiated issuer)) ≡ true =
        sym (contains-active_dids h issuer) ∙ active in
      ground (arith, sealed, fresh, both, key)

  module _ (L : CryptoLaws c) where
    -- A keyed identity, whose DID names its key and whose signatures are not written as the empty text,
    -- seals every history that verifies with its key as the current one. The seal keeps the root, the
    -- rotations and the repudiations, and at every instant up to its end the sealed history authorizes
    -- every key of the history that is not repudiated and whose DID can be read, as that key.
    pub seal_history-authorize_issuer :
        (a : AgentIdentity) (h : KeyHistory) (root : Text) (version : ℕ) (not_after : Option ℕ)
        → IsKeyed c a
        → public_key_from_did_key c a.did ≡ ok a.public_key
        → ((m s : Text) → sign c a m ≡ ok s → is_empty (c.base64_encode s) ≡ false)
        → verify_history c h root ≡ ok a.did
        → (h' : KeyHistory) × (seal_history c h (software_anchor a) version not_after ≡ (h', ok tt))
          × (h'.root_did ≡ h.root_did)
          × (h'.rotations ≡ h.rotations)
          × (h'.repudiated ≡ h.repudiated)
          × ((issuer : Text) (now : ℕ) (anchor : TrustAnchor)
              → live not_after now ≡ true
              → contains (active_dids h) issuer ≡ true
              → anchor_from_did_key c issuer ≡ ok anchor
              → authorize_issuer c h' root issuer now ≡ ok anchor)
    unfolding seal_history verify_history active_dids dids history_bytes
    seal_history-authorize_issuer a h root version not_after keyed named written v =
        let (at_root, chain, at_end) = verify_history-chain c h root a.did v in
        let draft : KeyHistory = record h {
          version = version;
          not_after = not_after;
          signature = [];
        } in
        let (s, signed, verified) = sign-verify c L a (c.sha256 (history_bytes draft)) keyed in
        let h' : KeyHistory = record draft { signature = c.base64_encode s } in
        let full = written (c.sha256 (history_bytes draft)) s signed in
        let v' : verify_history c h' root ≡ ok a.did = v in
        let sealed = sealed_by a h' root s named v' full (L.base64-decode-encode s) verified in
        (
          h',
          rw (← at_end, text_eq_refl a.did) (seal_draft-ok draft a s signed),
          refl,
          refl,
          refl,
          λ issuer now anchor fresh active key.
              verify_sealed-authorize_issuer h' root a.did issuer now anchor sealed fresh active
                key,
        )
