-- ===== src/Did.antt =====
-- agentcreds-core/src/did.rs: public keys, `did:key` identifiers, agent identities and trust anchors.
-- DID documents keep what verification reads: the type and the key of each verification method.
pub mod Laws
use agentcreds.Prelude.{
  ℕ, ◌≡◌, Bool, true, false, Option, none, some, List, [], ◌∷◌, ◌++◌, length, take, drop, ◌==◌,
  ◌&&◌, if◌then◌else◌,
}
use agentcreds.Outcome.{
  Result, ok, err, ◌>>=◌, ◌>>◌, guard, ok_or, invalid_key_material, invalid_did_signature,
  did_resolution_failed, resolver_required, crypto_error,
}
use agentcreds.Text.{Text, codes, text_eq, strip_prefix, starts_with}
use agentcreds.Crypto.{Crypto}

pub data KeyAlgorithm : Type 0 where
  ed25519 p256 : KeyAlgorithm

pub record PublicKey : Type 0 where
  pub algorithm : KeyAlgorithm
  pub bytes : Text

pub record VerificationMethod : Type 0 where
  pub method_type : Text
  pub public_key_multibase : Text

pub record DidDocument : Type 0 where
  pub id : Text
  pub verification_method : List VerificationMethod

-- `&dyn DidResolver`, by its `resolve`.
abbrev pub Resolver : Type 0
Resolver = Text → Result DidDocument

pub record AgentIdentity : Type 0 where
  pub did : Text
  pub algorithm : KeyAlgorithm
  pub signing_key_ed25519 : Option Text
  pub signing_key_p256 : Option Text
  pub delegation_key_ed25519 : Text
  pub delegation_public : Text
  pub delegation_attestation : Text
  pub public_key : PublicKey

-- The implementors of `AnchorSigner`; `external` is one outside this crate, such as an HSM.
pub data Signer : Type 0 where
  software : AgentIdentity → Signer
  public_only : PublicKey → Signer
  external : PublicKey → (Text → Result Text) → Signer

pub record TrustAnchor : Type 0 where
  pub signer : Signer
  pub did : Text

-- The multicodec prefix and the length of a raw public key.
abbrev pub codec_prefix : KeyAlgorithm → Text
codec_prefix ed25519 = 0xed ∷ 0x01 ∷ []
codec_prefix p256 = 0x12 ∷ 0x00 ∷ []

abbrev pub key_length : KeyAlgorithm → ℕ
key_length ed25519 = 32
key_length p256 = 33

-- The match on the first two bytes of the decoded body, and the length check.
unfoldable pub key_of_codec : Text → Result PublicKey
key_of_codec decoded =
    if text_eq (take 2 decoded) (codec_prefix ed25519)
    then sized ed25519
    else if text_eq (take 2 decoded) (codec_prefix p256)
    then sized p256
    else err (invalid_key_material "unrecognised did:key multicodec prefix")
  where
    sized : KeyAlgorithm → Result PublicKey
    sized algorithm = do
      guard (length (drop 2 decoded) == key_length algorithm)
          (invalid_key_material "did:key public key length does not match algorithm")
      ok (record { algorithm = algorithm; bytes = drop 2 decoded })

unfoldable pub delegation_attestation_message : Text → Text
delegation_attestation_message delegation_public =
    codes "agentcreds-delegation-key-v1" ++ delegation_public

abbrev pub method_algorithm : Text → Option KeyAlgorithm
method_algorithm method_type =
    if text_eq method_type (codes "Ed25519VerificationKey2020")
    then some ed25519
    else if text_eq method_type (codes "EcdsaSecp256r1VerificationKey2019")
    then some p256
    else none

abbrev pub signer_public_key : Signer → PublicKey
signer_public_key (software identity) = identity.public_key
signer_public_key (public_only key) = key
signer_public_key (external key sign) = key

abbrev pub public_key : TrustAnchor → PublicKey
public_key anchor = signer_public_key anchor.signer

abbrev first {ℓ} : {A : Type ℓ} → List A → Option A
first [] = none
first (x ∷ xs) = some x

module _ (c : Crypto) where
  -- `registry::decode_multibase`.
  unfoldable pub decode_multibase : Text → Option Text
  decode_multibase value = elim (strip_prefix (codes "z") value) [
    | none ↦ none
    | some encoded ↦ c.bs58_decode encoded
  ]

  unfoldable pub public_key_from_did_key : Text → Result PublicKey
  public_key_from_did_key did = do
    body ←
        ok_or (strip_prefix (codes "did:key:") did)
          (invalid_key_material "not a did:key identifier")
    encoded ←
        ok_or (strip_prefix (codes "z") body)
          (invalid_key_material "did:key body is not base58btc multibase (expected 'z' prefix)")
    decoded ← ok_or (c.bs58_decode encoded) (invalid_key_material "did:key base58 decode failed")
    key_of_codec decoded

  unfoldable pub verify_ed25519 : Text → Text → Text → Result (Unit {0})
  verify_ed25519 key message signature = do
    guard (length key == 32) (invalid_key_material "Ed25519 public key wrong length")
    guard (c.ed25519_key_ok key) (invalid_key_material "Ed25519 public key")
    guard (length signature == 64) (invalid_did_signature "signature wrong length")
    guard (c.ed25519_verify key message signature) (invalid_did_signature "Ed25519 signature")
    ok tt

  unfoldable pub verify_p256 : Text → Text → Text → Result (Unit {0})
  verify_p256 key message signature = do
    guard (c.p256_key_ok key) (invalid_key_material "P-256 public key")
    guard (c.p256_signature_ok signature) (invalid_did_signature "DER signature")
    guard (c.p256_verify key message signature) (invalid_did_signature "P-256 signature")
    ok tt

  unfoldable pub verify_by : KeyAlgorithm → Text → Text → Text → Result (Unit {0})
  verify_by ed25519 = verify_ed25519
  verify_by p256 = verify_p256

  -- `PublicKey::verify`.
  unfoldable pub verify : PublicKey → Text → Text → Result (Unit {0})
  verify key message signature = verify_by key.algorithm key.bytes message signature

  unfoldable pub sign_by : KeyAlgorithm → AgentIdentity → Text → Result Text
  sign_by ed25519 identity message = do
    raw ← ok_or identity.signing_key_ed25519 (invalid_key_material "Ed25519 key not initialized")
    ok (c.ed25519_sign (take 32 raw) message)
  sign_by p256 identity message = do
    raw ← ok_or identity.signing_key_p256 (invalid_key_material "P-256 key not initialized")
    guard (c.p256_secret_ok raw) (crypto_error "P-256 secret key")
    ok (c.p256_sign raw message)

  -- `AgentIdentity::sign`.
  unfoldable pub sign : AgentIdentity → Text → Result Text
  sign identity message = sign_by identity.algorithm identity message

  unfoldable pub signer_sign : Signer → Text → Result Text
  signer_sign (software identity) message = sign identity message
  signer_sign (public_only key) message =
      err (crypto_error "verify-only trust anchor has no private key and cannot sign")
  signer_sign (external key raw_sign) message = raw_sign message

  -- `TrustAnchor::sign`, `TrustAnchor::verify_signature` and `TrustAnchor::from_did_key`.
  unfoldable pub anchor_sign : TrustAnchor → Text → Result Text
  anchor_sign anchor message = signer_sign anchor.signer message

  unfoldable pub verify_signature : TrustAnchor → Text → Text → Result (Unit {0})
  verify_signature anchor message signature = verify (public_key anchor) message signature

  unfoldable pub anchor_from_did_key : Text → Result TrustAnchor
  anchor_from_did_key did = do
    key ← public_key_from_did_key did
    ok (record { signer = public_only key; did = did })

  unfoldable pub public_key_from_did_document : Text → DidDocument → Result PublicKey
  public_key_from_did_document did document = do
    vm ←
        ok_or (first document.verification_method)
          (did_resolution_failed did "resolved DID document has no verification method")
    bytes ←
        ok_or (decode_multibase vm.public_key_multibase)
          (did_resolution_failed did "base58 decode failed")
    algorithm ←
        ok_or (method_algorithm vm.method_type)
          (did_resolution_failed did "unsupported verification method type")
    raw ←
        ok_or (strip_prefix (codec_prefix algorithm) bytes)
          (did_resolution_failed did "unexpected multicodec prefix on the public key")
    ok (record { algorithm = algorithm; bytes = raw })

  -- The primary key of an agent: in its `did:key`, or in the document that the resolver returns.
  unfoldable pub primary_key : Text → Option Resolver → Result PublicKey
  primary_key did resolver =
      if starts_with (codes "did:key:") did then public_key_from_did_key did else do
        resolve ← ok_or resolver (resolver_required did)
        document ← resolve did
        public_key_from_did_document did document

  unfoldable pub verify_delegation_attestation_resolved :
      Text → Text → Text → Option Resolver → Result (Unit {0})
  verify_delegation_attestation_resolved did delegation_public attestation resolver = do
    primary ← primary_key did resolver
    verify primary (delegation_attestation_message delegation_public) attestation
