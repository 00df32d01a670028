-- ===== src/Did/Laws.antt =====
-- Signatures of agent identities and trust anchors verify under their own public keys.
use agentcreds.Prelude.{ℕ, ◌≡◌, refl, true, some, ◌∷◌, [], arith, length, take}
use agentcreds.Outcome.{ok}
use agentcreds.Text.{Text}
use agentcreds.Crypto.{Crypto, CryptoLaws}
use agentcreds.Did.{
  ed25519, p256, AgentIdentity, TrustAnchor, software, verify, verify_by, verify_ed25519,
  verify_p256, sign, sign_by,
}

-- The key material of an identity as its constructors leave it.
pub data IsKeyed (c : Crypto) (a : AgentIdentity) : Type 0 where
  keyed_ed25519 :
      (sk : Text)
      → a.algorithm ≡ ed25519
      → a.signing_key_ed25519 ≡ some sk
      → length sk ≡ 32
      → a.public_key ≡ record { algorithm = ed25519; bytes = c.ed25519_public sk }
      → IsKeyed c a
  keyed_p256 :
      (sk : Text)
      → a.algorithm ≡ p256
      → a.signing_key_p256 ≡ some sk
      → c.p256_secret_ok sk ≡ true
      → a.public_key ≡ record { algorithm = p256; bytes = c.p256_public sk }
      → IsKeyed c a

-- An anchor that holds the keys of a software identity.
abbrev pub software_anchor : AgentIdentity → TrustAnchor
software_anchor a = record { signer = software a; did = a.did }

take-length : (xs : Text) → take (length xs) xs ≡ xs
take-length [] = refl
take-length (x ∷ xs) = rw (take-length xs)

take_all : (n : ℕ) (xs : Text) → length xs ≡ n → take n xs ≡ xs
take_all n xs h = rw (← h) (take-length xs)

module _ (c : Crypto) (L : CryptoLaws c) where
  -- A keyed identity signs every message, and the signature verifies under its public key.
  pub sign-verify :
      (a : AgentIdentity) (message : Text)
      → IsKeyed c a
      → (s : Text) × (sign c a message ≡ ok s) × (verify c a.public_key message s ≡ ok tt)
  unfolding sign sign_by verify verify_by verify_ed25519 verify_p256
  sign-verify a m (keyed_ed25519 sk alg key len pub_key) =
      let whole = take_all 32 sk len in
      (
        c.ed25519_sign sk m,
        rw (alg, key, whole),
        rw pub_key (
            ground (
              arith,
              L.ed25519_public_length sk len,
              L.ed25519_public_ok sk len,
              L.ed25519_signature_length sk m,
              L.ed25519-verify-sign sk m len,
            )),
      )
  sign-verify a m (keyed_p256 sk alg key good pub_key) = (
    c.p256_sign sk m,
    rw (alg, key, good),
    rw pub_key (
        ground
          (arith, L.p256_public_ok sk good, L.p256_sign_ok sk m, L.p256-verify-sign sk m good)),
  )
