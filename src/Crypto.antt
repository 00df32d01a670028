-- ===== src/Crypto.antt =====
-- The cryptographic and encoding crates that agentcreds-core calls (sha2, hex, base64ct, bs58,
-- ed25519-dalek, p256), as a parameter of the model. Random key generation is not modelled.
use agentcreds.Prelude.{
  ◌≡◌, ◌≢◌, ◌⊎◌, inl, inr, Bool, Bool-cases, true, Option, some, length, arith,
}
use agentcreds.Text.Case.{lower}
use agentcreds.Text.{Text, text_eq, text_eq→eq, text_eq_refl}

pub record Crypto : Type 0 where
  pub sha256 : Text → Text
  pub hex_encode : Text → Text
  pub base64_encode : Text → Text
  pub base64_decode : Text → Option Text
  pub bs58_decode : Text → Option Text
  -- `VerifyingKey::from_bytes` accepts the key; `verify key message signature`; `sign secret message`.
  pub ed25519_key_ok : Text → Bool
  pub ed25519_verify : Text → Text → Text → Bool
  pub ed25519_public : Text → Text
  pub ed25519_sign : Text → Text → Text
  pub p256_key_ok : Text → Bool
  pub p256_signature_ok : Text → Bool
  pub p256_verify : Text → Text → Text → Bool
  pub p256_secret_ok : Text → Bool
  pub p256_public : Text → Text
  pub p256_sign : Text → Text → Text

-- What the crates document: a digest in hexadecimal is not empty, decoding inverts encoding, and a
-- signature verifies under the public half of the key that made it.
pub record CryptoLaws (c : Crypto) : Type 0 where
  pub hex_digest_nonempty : (b : Text) → length (c.hex_encode (c.sha256 b)) ≢ 0
  pub base64-decode-encode : (b : Text) → c.base64_decode (c.base64_encode b) ≡ some b
  pub ed25519_public_length : (sk : Text) → length sk ≡ 32 → length (c.ed25519_public sk) ≡ 32
  pub ed25519_public_ok :
      (sk : Text) → length sk ≡ 32 → c.ed25519_key_ok (c.ed25519_public sk) ≡ true
  pub ed25519_signature_length : (sk m : Text) → length (c.ed25519_sign sk m) ≡ 64
  pub ed25519-verify-sign :
      (sk m : Text)
      → length sk ≡ 32
      → c.ed25519_verify (c.ed25519_public sk) m (c.ed25519_sign sk m) ≡ true
  pub p256_public_ok :
      (sk : Text) → c.p256_secret_ok sk ≡ true → c.p256_key_ok (c.p256_public sk) ≡ true
  pub p256_sign_ok : (sk m : Text) → c.p256_signature_ok (c.p256_sign sk m) ≡ true
  pub p256-verify-sign :
      (sk m : Text)
      → c.p256_secret_ok sk ≡ true
      → c.p256_verify (c.p256_public sk) m (c.p256_sign sk m) ≡ true

-- What the sha2 and hex crates document of their output: 32 bytes, and hexadecimal can be
-- read back and is in lower case.
pub record DigestLaws (c : Crypto) : Type 0 where
  pub sha256_length : (b : Text) → length (c.sha256 b) ≡ 32
  pub lower-hex_encode : (a : Text) → lower (c.hex_encode a) ≡ c.hex_encode a
  pub hex_encode_injective : (a b : Text) → c.hex_encode a ≡ c.hex_encode b → a ≡ b

-- Two byte strings with one SHA-256 digest.
pub record IsShaCollision (c : Crypto) (xs ys : Text) : Type 0 where
  pub differ : xs ≢ ys
  pub same_digest : c.sha256 xs ≡ c.sha256 ys

-- Some collision of SHA-256.
pub record HasShaCollision (c : Crypto) : Type 0 where
  pub left : Text
  pub right : Text
  pub collision : IsShaCollision c left right

-- Strings of one digest are equal or a collision.
pub equal_or_collision :
    (c : Crypto) (xs ys : Text) → c.sha256 xs ≡ c.sha256 ys → (xs ≡ ys) ⊎ IsShaCollision c xs ys
equal_or_collision c xs ys e = elim (Bool-cases (text_eq xs ys)) [
  | inl same ↦ inl (text_eq→eq xs ys same)
  | inr other ↦
      inr
        (record { differ = λ same. ground (arith, other, same, text_eq_refl xs); same_digest = e })
]
