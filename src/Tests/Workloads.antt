-- ===== src/Tests/Workloads.antt =====
-- The results about SPIFFE identities on toy crates: base64url is the identity, a JSON text is read as a
-- fixed header or payload, and a key set is a list of fields.
use agentcreds.Prelude.{◌*◌, ◌^◌, ◌≡◌, refl, some, none, [], ◌∷◌, ◌++◌, true}
use agentcreds.Prelude.Int.{pos}
use agentcreds.Outcome.{ok}
use agentcreds.Text.{Text, codes}
use agentcreds.Spiffe
use agentcreds.Spiffe.{
  SvidCrates, SvidHeader, SvidPayload, SpiffeTrustBundle, BundleEntry, ed25519_key, ValidatedSvid,
  SpiffeId, many, Jwk, new_bundle, validate_jwt_svid,
}
use agentcreds.Spiffe.Svids.{IsValidated, validate_jwt_svid-IsValidated}
use agentcreds.Tests.Toy.{agent_key, signature, start, toy}

abbrev workload : Text
workload = codes "spiffe://example.org/web"

abbrev crates : SvidCrates
crates = record {
  url_encode = λ b. b;
  url_decode = λ b. some b;
  read_header = λ b. some (record { alg = some (codes "EdDSA"); kid = none });
  read_payload = λ b. some (record {
    sub = some workload;
    exp = some (pos 2000);
    aud = many (some (7 ∷ []) ∷ none ∷ []);
  });
  timestamp_ok = λ e. true;
  p256_point = λ sec1. none;
  es256_signature_ok = λ sig. true;
  es256_verify = λ key msg sig. true;
  write_jwks = λ ks. none;
  read_jwks = λ t. none;
}

abbrev bundle : SpiffeTrustBundle
bundle = record { entries = record { kid = none; key = ed25519_key (agent_key 1) } ∷ [] }

abbrev svid : ValidatedSvid
svid = record {
  spiffe_id = record { trust_domain = codes "example.org"; path = codes "/web" };
  expires_at = 2000 * 10 ^ 9;
  audiences = (7 ∷ []) ∷ [];
}

abbrev jwt : Text
jwt = 1 ∷ b'.' ∷ 2 ∷ b'.' ∷ signature

validates : validate_jwt_svid toy crates bundle jwt (some (7 ∷ [])) start ≡ ok svid
unfolding validate_jwt_svid Spiffe.split_dots Spiffe.validate_split Spiffe.validate_parts
    Spiffe.decode_segment Spiffe.bundle_verifies Spiffe.entry_verifies Spiffe.parse_spiffe_id
    Spiffe.split_slash Spiffe.check_exp Spiffe.check_audience Spiffe.extract_audiences
    agentcreds.Text.text_eq agentcreds.Text.contains agentcreds.Text.strip_prefix
validates = refl

validate_jwt_svid-IsValidated_example :
    (h : Text) × (p : Text) × (sig : Text) × (h ++ b'.' ∷ (p ++ b'.' ∷ sig) ≡ jwt)
    × IsValidated toy crates bundle h p sig (some (7 ∷ [])) start svid
validate_jwt_svid-IsValidated_example =
    validate_jwt_svid-IsValidated toy crates bundle jwt (some (7 ∷ [])) start svid validates
