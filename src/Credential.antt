-- ===== src/Credential.antt =====
-- Capability credentials of agentcreds-core/src/vc.rs: the claims, the principal's authorization,
-- issuance and verification in the W3C format. This is the build without the `sd-jwt` feature.
-- Instants are nanoseconds since the Unix epoch; `serde_json` is a parameter.
pub mod Claims
pub mod Proofs
use agentcreds.Prelude.{
  ℕ, ◌+◌, ◌*◌, ◌^◌, ◌≡◌, Bool, true, false, Option, none, some, List, [], ◌∷◌, ◌++◌, ltb, leb, ◌&&◌,
  not, if◌then◌else◌, take, String,
}
use Prim.Native.Nat.{min}
use agentcreds.Outcome.{
  Result, ok, err, ◌>>=◌, ◌>>◌, guard, ok_or, map_err, json, issuer_mismatch, credential_expired,
  invalid_vc_proof,
}
use agentcreds.Text.{Text, codes, text_eq}
use agentcreds.Codec.{u64_le}
use agentcreds.Crypto.{Crypto}
use agentcreds.Did.{TrustAnchor, anchor_sign, verify_signature}
use agentcreds.Credential.Claims.{CapabilityClaims, PrincipalAuthorization, validate, nanos}
use agentcreds.Gate.{Gate}

pub data CredentialFormat : Type 0 where
  w3c_linked_data sd_jwt_vc : CredentialFormat

pub record LinkedDataProof : Type 0 where
  pub proof_type : Text
  pub created : ℕ
  pub verification_method : Text
  pub proof_purpose : Text
  pub proof_value : Text
  pub payload_hash : Text

pub record CredentialStatus : Type 0 where
  pub id : Text
  pub status_type : Text
  pub status_purpose : Text
  pub status_list_index : ℕ
  pub status_list_credential : Text

pub record CredentialSubject : Type 0 where
  pub id : Text
  pub claims : CapabilityClaims

pub record CapabilityCredential : Type 0 where
  pub context : List Text
  pub id : Text
  pub types : List Text
  pub issuer : Text
  pub issuance_date : ℕ
  pub expiration_date : ℕ
  pub credential_subject : CredentialSubject
  pub credential_status : Option CredentialStatus
  pub proof : LinkedDataProof
  pub format : CredentialFormat

abbrev pub subject_did : CapabilityCredential → Text
subject_did vc = vc.credential_subject.id

abbrev pub claims : CapabilityCredential → CapabilityClaims
claims vc = vc.credential_subject.claims

abbrev pub on_behalf_of : CapabilityCredential → Option PrincipalAuthorization
on_behalf_of vc = (claims vc).on_behalf_of

abbrev pub required_gates : CapabilityCredential → List Gate
required_gates vc = (claims vc).required_gates

unfoldable pub is_valid_at : CapabilityCredential → ℕ → Bool
is_valid_at vc now = leb now vc.expiration_date

abbrev pub is_empty : Text → Bool
is_empty [] = true
is_empty (x ∷ xs) = false

-- `expiry.min(obo.expires_at)` where there is a principal.
abbrev pub cap_expiry : ℕ → Option PrincipalAuthorization → ℕ
cap_expiry expiry none = expiry
cap_expiry expiry (some obo) = min expiry obo.expires_at

-- `serde_json::to_vec` of the unsigned payload: id, issuer, the two dates and the subject.
abbrev pub Payload : Type 0
Payload = Text → Text → ℕ → ℕ → CredentialSubject → Option Text

module _ (c : Crypto) (payload : Payload) where
  -- The timestamp is the count of nanoseconds, or 0 where an i64 does not hold it.
  unfoldable pub generate_id : Text → Text → ℕ → Text
  generate_id issuer subject now =
      codes "urn:vc:agentcreds:"
      ++ c.hex_encode
          (take 16 (c.sha256 (issuer ++ (subject ++ u64_le (if ltb now (2 ^ 63) then now else 0)))))

  unfoldable pub hash_payload : Text → Text
  hash_payload bytes = c.hex_encode (c.sha256 bytes)

  unfoldable pub payload_of : CapabilityCredential → Option Text
  payload_of vc = payload vc.id vc.issuer vc.issuance_date vc.expiration_date vc.credential_subject

  -- The expiry is no later than that of the principal's authorization.
  unfoldable pub issue_expiry : CapabilityClaims → ℕ → ℕ
  issue_expiry cl now = cap_expiry (now + nanos cl.valid_for_secs) cl.on_behalf_of

  -- The credential around a payload and its signature.
  unfoldable pub signed_credential :
      TrustAnchor
      → Text
      → CapabilityClaims
      → Option CredentialStatus
      → ℕ
      → Text
      → Text
      → CapabilityCredential
  signed_credential anchor subject cl revocation now payload_bytes signature_bytes = record {
    context =
        codes "https://www.w3.org/2018/credentials/v1"
        ∷ codes "https://w3id.org/agentcreds/v1"
        ∷ [];
    id = generate_id anchor.did subject now;
    types = codes "VerifiableCredential" ∷ codes "AgentCapabilityCredential" ∷ [];
    issuer = anchor.did;
    issuance_date = now;
    expiration_date = issue_expiry cl now;
    credential_subject = record { id = subject; claims = cl };
    credential_status = revocation;
    proof = record {
      proof_type = codes "Ed25519Signature2020";
      created = now;
      verification_method = anchor.did ++ codes "#key-1";
      proof_purpose = codes "assertionMethod";
      proof_value = c.base64_encode signature_bytes;
      payload_hash = hash_payload payload_bytes;
    };
    format = w3c_linked_data;
  }

  unfoldable pub issue :
      TrustAnchor
      → Text
      → CapabilityClaims
      → Option CredentialStatus
      → ℕ
      → Result CapabilityCredential
  issue anchor subject cl revocation now = do
    validate cl
    let credential_subject : CredentialSubject = record { id = subject; claims = cl }
    payload_bytes ←
        ok_or
          (payload (generate_id anchor.did subject now) anchor.did now (issue_expiry cl now)
            credential_subject)
          json
    signature_bytes ← anchor_sign c anchor payload_bytes
    ok (signed_credential anchor subject cl revocation now payload_bytes signature_bytes)

  unfoldable pub verify_w3c : CapabilityCredential → TrustAnchor → Result (Unit {0})
  unfolding payload_of
  verify_w3c vc anchor = do
    payload_bytes ← ok_or (payload_of vc) json
    guard (not (is_empty vc.proof.payload_hash))
        (invalid_vc_proof "credential carries no W3C payload hash")
    guard (text_eq (hash_payload payload_bytes) vc.proof.payload_hash)
        (invalid_vc_proof "payload hash mismatch")
    sig_bytes ←
        ok_or (c.base64_decode vc.proof.proof_value) (invalid_vc_proof "base64 decode failed")
    map_err (verify_signature c anchor payload_bytes sig_bytes) (invalid_vc_proof "signature")

  unfoldable pub verify_format :
      CredentialFormat → CapabilityCredential → TrustAnchor → Result (Unit {0})
  verify_format w3c_linked_data vc anchor = verify_w3c vc anchor
  verify_format sd_jwt_vc vc anchor =
      err (invalid_vc_proof "SD-JWT VC verification requires the `sd-jwt` feature")

  unfoldable pub verify_at : CapabilityCredential → TrustAnchor → Bool → ℕ → Result (Unit {0})
  verify_at vc anchor strict_issuer now = do
    guard (not (strict_issuer && not (text_eq vc.issuer anchor.did)))
        (issuer_mismatch anchor.did vc.issuer)
    guard (not (ltb vc.expiration_date now)) (credential_expired vc.expiration_date)
    verify_format vc.format vc anchor
