-- ===== src/Revocation/Signing.antt =====
-- Signing a status list, and writing and reading its bits.
use agentcreds.Prelude.{◌/◌, ◌^◌, ◌++◌, ◌≡◌, refl, ◌∷◌}
use agentcreds.Outcome.{ok}
use agentcreds.Text.{Text}
use agentcreds.Crypto.{Crypto, CryptoLaws}
use agentcreds.Did.{AgentIdentity, anchor_sign, signer_sign, verify_signature}
use agentcreds.Did.Laws.{software_anchor, IsKeyed, sign-verify}
use agentcreds.Revocation.{
  StatusCrates, RevocationList, b64url_decode, compress_and_encode, decode_and_decompress,
  header_b64, payload_b64, signing_input, sign_list, verify_list, status_list_typ,
}
use agentcreds.Revocation.Laws.{StatusLaws}

module _ (c : Crypto) (s : StatusCrates) (L : CryptoLaws c) (S : StatusLaws s) (a : AgentIdentity)
    (keyed : IsKeyed c a) where
  pub signing_input-total : (list : RevocationList) → (t : Text) × (signing_input c s list ≡ ok t)
  unfolding signing_input header_b64 payload_b64
  signing_input-total list =
      let (h, header, _, _) = S.header_written status_list_typ list.alg list.issuer in
      let (p, payload, _, _) =
        S.payload_written list.id (list.updated / 10 ^ 9) list.bits list.encoded_list in
      (s.url_encode h ++ b'.' ∷ s.url_encode p, rw (header, payload) refl)

  pub signing_input-unsigned :
      (list : RevocationList) (sig : Text)
      → signing_input c s (record list { signature = sig }) ≡ signing_input c s list
  unfolding signing_input header_b64 payload_b64
  signing_input-unsigned list sig = refl

  sign_list-signed :
      (list : RevocationList) (input sig : Text)
      → signing_input c s list ≡ ok input
      → anchor_sign c (software_anchor a) input ≡ ok sig
      → sign_list c s list (software_anchor a)
        ≡ (record list { signature = s.url_encode sig }, ok tt)
  unfolding sign_list
  sign_list-signed list input sig covered signed = rw (sign_list, covered, signed) refl

  verify_list-signed :
      (list : RevocationList) (input sig : Text)
      → signing_input c s list ≡ ok input
      → verify_signature c (software_anchor a) input sig ≡ ok tt
      → verify_list c s (record list { signature = s.url_encode sig }) (software_anchor a) ≡ ok tt
  unfolding b64url_decode verify_list
  verify_list-signed list input sig covered verified =
      rw
        (signing_input-unsigned list (s.url_encode sig), covered, S.url-decode-encode sig, verified)
        refl

  -- A keyed anchor signs any list, and the list then verifies.
  pub sign_list-verify_list :
      (list : RevocationList)
      → (sig : Text) × (sign_list c s list (software_anchor a)
          ≡ (record list { signature = sig }, ok tt))
        × (verify_list c s (record list { signature = sig }) (software_anchor a) ≡ ok tt)
  unfolding anchor_sign signer_sign verify_signature
  sign_list-verify_list list =
      let (input, covered) = signing_input-total list in
      let (sig, signed, verified) = sign-verify c L a input keyed in
      (
        s.url_encode sig,
        sign_list-signed list input sig covered signed,
        verify_list-signed list input sig covered verified,
      )

  pub compress-decode :
      (raw : Text)
      → (e : Text) × (compress_and_encode c s raw ≡ ok e) × (decode_and_decompress c s e ≡ ok raw)
  unfolding compress_and_encode decode_and_decompress b64url_decode
  compress-decode raw =
      let (z, deflated, inflated) = S.deflate-inflate raw in
      (s.url_encode z, rw deflated refl, rw (S.url-decode-encode z, inflated) refl)
