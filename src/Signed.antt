-- ===== src/Signed.antt =====
-- agentcreds-core/src/signed.rs: the check of an anchor-signed artifact. A reason does not carry the
-- artifact's label.
use agentcreds.Prelude.{ℕ, Bool, true, not, Option, none, some, ltb}
use agentcreds.Outcome.{Result, ok, ◌>>=◌, ◌>>◌, guard, ok_or, map_err, invalid_vc_proof}
use agentcreds.Text.{Text, text_eq}
use agentcreds.Crypto.{Crypto}
use agentcreds.Did.{TrustAnchor, verify_signature}

-- `not_after.map_or(true, |t| now <= t)`
abbrev pub live : Option ℕ → ℕ → Bool
live none now = true
live (some t) now = not (ltb t now)

module _ (c : Crypto) where
  unfoldable pub decode_signature : Text → Result Text
  decode_signature signature =
      ok_or (c.base64_decode signature) (invalid_vc_proof "signature base64")

  unfoldable pub verify_anchor_signed :
      Text → Text → Text → Option ℕ → ℕ → TrustAnchor → Result (Unit {0})
  verify_anchor_signed issuer_did digest signature not_after now anchor = do
    guard (text_eq issuer_did anchor.did) (invalid_vc_proof "issuer does not match the anchor")
    sig ← decode_signature signature
    map_err (verify_signature c anchor digest sig) (invalid_vc_proof "signature does not verify")
    guard (live not_after now) (invalid_vc_proof "expired")
    ok tt
