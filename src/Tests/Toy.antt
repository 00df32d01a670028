-- ===== src/Tests/Toy.antt =====
-- Toy crates that satisfy the documented laws, and the cast of the examples. A hash is the first byte,
-- a signature is a constant of the right length, and a Biscuit is its list of blocks.
use agentcreds.Prelude.{
  ℕ, ◌≡◌, ◌+◌, ◌^◌, ◌*◌, refl, true, none, some, [], ◌∷◌, ◌++◌, replicate, take, length, arith,
}
use agentcreds.Text.{Text, codes, text_eq, text_eq_refl}
use agentcreds.Text.Case.{lower}
use agentcreds.Crypto.{Crypto, CryptoLaws, DigestLaws}
use agentcreds.Did.{ed25519, AgentIdentity, TrustAnchor, software}
use agentcreds.Did.Laws.{IsKeyed, keyed_ed25519}
use agentcreds.Gate.{approval_gate}
use agentcreds.Credential.{CapabilityCredential, w3c_linked_data, Payload}
use agentcreds.Credential.Claims.{new_claims}

abbrev pub signature : Text
signature = replicate 64 7

abbrev pub toy : Crypto
toy = record {
  sha256 = λ b. take 1 b;
  hex_encode = λ b. 0 ∷ b;
  base64_encode = λ b. b;
  base64_decode = λ b. some b;
  bs58_decode = λ b. some (0xed ∷ 0x01 ∷ (replicate 31 0 ++ b));
  ed25519_key_ok = λ k. true;
  ed25519_verify = λ k m s. text_eq (take 1 s) (7 ∷ []);
  ed25519_public = λ s. s;
  ed25519_sign = λ s m. signature;
  p256_key_ok = λ k. true;
  p256_signature_ok = λ s. true;
  p256_verify = λ k m s. text_eq (take 1 s) (7 ∷ []);
  p256_secret_ok = λ s. true;
  p256_public = λ s. s;
  p256_sign = λ s m. signature;
}

abbrev pub toy_laws : CryptoLaws toy
toy_laws = record {
  hex_digest_nonempty = λ b e. omega (arith, e);
  base64-decode-encode = λ b. refl;
  ed25519_public_length = λ sk h. h;
  ed25519_public_ok = λ sk h. refl;
  ed25519_signature_length = λ sk m. refl;
  ed25519-verify-sign = λ sk m h. text_eq_refl (7 ∷ []);
  p256_public_ok = λ sk h. refl;
  p256_sign_ok = λ sk m. refl;
  p256-verify-sign = λ sk m h. text_eq_refl (7 ∷ []);
}

-- The same with digests of 32 bytes that tell lengths apart.
abbrev raise : Text → Text
raise [] = []
raise (x ∷ xs) = (x + 200) ∷ raise xs

abbrev pub digests : Crypto
digests = record toy { sha256 = λ b. length b ∷ replicate 31 0; hex_encode = raise }

raise_injective : (a b : Text) → raise a ≡ raise b → a ≡ b
raise_injective [] [] e = refl
raise_injective [] (y ∷ ys) e = absurd (ground (arith, e))
raise_injective (x ∷ xs) [] e = absurd (ground (arith, e))
raise_injective (x ∷ xs) (y ∷ ys) e = ground (arith, e, raise_injective xs ys)

lower-raise : (a : Text) → lower (raise a) ≡ raise a
lower-raise [] = refl
lower-raise (x ∷ xs) = ground (arith, lower-raise xs)

pub digest_laws : DigestLaws digests
digest_laws = record {
  sha256_length = λ b. refl;
  lower-hex_encode = lower-raise;
  hex_encode_injective = raise_injective;
}

-- An Ed25519 agent, whose key ends in its number.
abbrev pub agent_key : ℕ → Text
agent_key n = replicate 31 0 ++ n ∷ []

abbrev pub agent_did : ℕ → Text
agent_did n = codes "did:key:z" ++ n ∷ []

abbrev pub agent : ℕ → AgentIdentity
agent n = record {
  did = agent_did n;
  algorithm = ed25519;
  signing_key_ed25519 = some (agent_key n);
  signing_key_p256 = none;
  delegation_key_ed25519 = n ∷ [];
  delegation_public = n ∷ [];
  delegation_attestation = signature;
  public_key = record { algorithm = ed25519; bytes = agent_key n };
}

pub agent-IsKeyed : (n : ℕ) → IsKeyed toy (agent n)
agent-IsKeyed n = keyed_ed25519 (agent_key n) refl refl refl refl

abbrev pub anchor : TrustAnchor
anchor = record { signer = software (agent 1); did = agent_did 1 }

abbrev pub search : Text
search = 1 ∷ []

abbrev pub email : Text
email = 2 ∷ []

abbrev pub start : ℕ
start = 1000 * 10 ^ 9

abbrev pub payload : Payload
payload = λ id issuer issued expires subject. some id

abbrev pub credential : CapabilityCredential
credential = record {
  context = [];
  id = 9 ∷ [];
  types = [];
  issuer = agent_did 1;
  issuance_date = start;
  expiration_date = start + 3600 * 10 ^ 9;
  credential_subject = record {
    id = agent_did 2;
    claims = record (new_claims (search ∷ email ∷ []) 2 3600) {
      required_gates = approval_gate search ∷ [];
    };
  };
  credential_status = none;
  proof = record {
    proof_type = [];
    created = start;
    verification_method = [];
    proof_purpose = [];
    proof_value = signature;
    payload_hash = 0 ∷ 9 ∷ [];
  };
  format = w3c_linked_data;
}
