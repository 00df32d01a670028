-- ===== src/Spiffe.antt =====
-- agentcreds-core/src/spiffe.rs: SPIFFE identifiers, trust bundles and the validation of JWT-SVIDs. The
-- clock is an argument.
pub mod Svids
pub mod Bundles
use agentcreds.Prelude.{
  ℕ, ◌*◌, ◌^◌, ◌≡◌, Bool, true, false, not, ◌&&◌, Option, none, some, List, [], ◌∷◌, ◌++◌, ltb, leb,
  ◌==◌, length, map, take, drop, if◌then◌else◌,
}
use agentcreds.Prelude.Int.{ℤ, pos, negsuc}
use agentcreds.Outcome.{Result, ok, err, ◌>>=◌, ◌>>◌, guard, ok_or, json, svid_validation_failed}
use agentcreds.Text.{Text, codes, text_eq, strip_prefix, contains}
use agentcreds.Crypto.{Crypto}
use agentcreds.Did.{TrustAnchor}
use agentcreds.Credential.{CapabilityCredential, Payload, is_empty, issue}
use agentcreds.Credential.Claims.{CapabilityClaims, new_claims}

pub record SpiffeId : Type 0 where
  pub trust_domain : Text
  pub path : Text

-- An Ed25519 key, or a P-256 key by its uncompressed point.
pub data BundleKey : Type 0 where
  ed25519_key : Text → BundleKey
  p256_key : Text → BundleKey

pub record BundleEntry : Type 0 where
  pub kid : Option Text
  pub key : BundleKey

pub record SpiffeTrustBundle : Type 0 where
  pub entries : List BundleEntry

pub record ValidatedSvid : Type 0 where
  pub spiffe_id : SpiffeId
  pub expires_at : ℕ
  pub audiences : List Text

-- What `get` and `as_str` read from a parsed header.
pub record SvidHeader : Type 0 where
  pub alg : Option Text
  pub kid : Option Text

-- The `aud` of a payload: a string, an array with the strings among its elements, or neither.
pub data Audience : Type 0 where
  one : Text → Audience
  many : List (Option Text) → Audience
  neither : Audience

pub record SvidPayload : Type 0 where
  pub sub : Option Text
  pub exp : Option ℤ
  pub aud : Audience

-- A JSON Web Key by its members that are strings.
pub record Jwk : Type 0 where
  pub kty : Option Text
  pub crv : Option Text
  pub x : Option Text
  pub y : Option Text
  pub kid : Option Text

-- The crates that spiffe.rs calls: base64ct, serde_json, chrono's range of timestamps, and p256 with raw
-- signatures. A set of keys reads as nothing where it has no array of keys.
pub record SvidCrates : Type 0 where
  pub url_encode : Text → Text
  pub url_decode : Text → Option Text
  pub read_header : Text → Option SvidHeader
  pub read_payload : Text → Option SvidPayload
  pub timestamp_ok : ℤ → Bool
  -- `from_sec1_bytes`, by the uncompressed point.
  pub p256_point : Text → Option Text
  pub es256_signature_ok : Text → Bool
  pub es256_verify : Text → Text → Text → Bool
  pub write_jwks : List Jwk → Option Text
  pub read_jwks : Text → Option (Option (List Jwk))

-- `split_once('/')`
abbrev pub slash_step : ℕ → Text → Bool → Option (Text × Text) → Option (Text × Text)
slash_step x xs true rest = some ([], xs)
slash_step x xs false none = none
slash_step x xs false (some (a, b)) = some (x ∷ a, b)

unfoldable pub split_slash : Text → Option (Text × Text)
split_slash [] = none
split_slash (x ∷ xs) = slash_step x xs (x == b'/') (split_slash xs)

-- The domain and the path of what follows the scheme.
abbrev pub id_of : Text → Option (Text × Text) → SpiffeId
id_of rest none = record { trust_domain = rest; path = [] }
id_of rest (some (d, p)) = record { trust_domain = d; path = b'/' ∷ p }

-- `SpiffeId::parse`.
unfoldable pub parse_spiffe_id : Text → Result SpiffeId
parse_spiffe_id s = do
  rest ← ok_or (strip_prefix (codes "spiffe://") s) (svid_validation_failed "not a SPIFFE ID")
  let id = id_of rest (split_slash rest)
  guard (not (is_empty id.trust_domain))
      (svid_validation_failed "SPIFFE ID has an empty trust domain")
  ok id

unfoldable pub uri : SpiffeId → Text
uri id = codes "spiffe://" ++ (id.trust_domain ++ id.path)

unfoldable pub new_bundle : SpiffeTrustBundle
new_bundle = record { entries = [] }

-- `split('.')`
abbrev pub split_step : ℕ → Bool → List Text → List Text
split_step x true rest = [] ∷ rest
split_step x false [] = (x ∷ []) ∷ []
split_step x false (p ∷ ps) = (x ∷ p) ∷ ps

unfoldable pub split_dots : Text → List Text
split_dots [] = [] ∷ []
split_dots (x ∷ xs) = split_step x (x == b'.') (split_dots xs)

-- `extract_audiences`, whose `filter_map` keeps the strings.
abbrev pub strings : List (Option Text) → List Text
strings [] = []
strings (none ∷ vs) = strings vs
strings (some s ∷ vs) = s ∷ strings vs

unfoldable pub extract_audiences : SvidPayload → List Text
extract_audiences payload = elim payload.aud [
  | one s ↦ s ∷ []
  | many vs ↦ strings vs
  | neither ↦ []
]

-- The expiry of a payload: its range, and whether it is past. A negative one is past.
unfoldable pub check_exp : (ℤ → Bool) → ℤ → ℕ → Result ℕ
check_exp timestamp_ok (pos n) now = do
  guard (timestamp_ok (pos n)) (svid_validation_failed "JWT-SVID 'exp' is not a valid timestamp")
  guard (ltb now (n * 10 ^ 9)) (svid_validation_failed "JWT-SVID has expired")
  ok (n * 10 ^ 9)
check_exp timestamp_ok (negsuc n) now = do
  guard (timestamp_ok (negsuc n)) (svid_validation_failed "JWT-SVID 'exp' is not a valid timestamp")
  err (svid_validation_failed "JWT-SVID has expired")

unfoldable pub check_audience : Option Text → List Text → Result (Unit {0})
check_audience none audiences = ok tt
check_audience (some expected) audiences =
    guard (contains audiences expected)
      (svid_validation_failed "JWT-SVID audience does not include")

module _ (c : Crypto) (s : SvidCrates) where
  unfoldable pub add_ed25519_key : SpiffeTrustBundle → Option Text → Text → Result SpiffeTrustBundle
  add_ed25519_key b kid key = do
    guard (length key == 32) (svid_validation_failed "Ed25519 public key must be 32 bytes")
    guard (c.ed25519_key_ok key) (svid_validation_failed "invalid Ed25519 key")
    ok (record { entries = b.entries ++ record { kid = kid; key = ed25519_key key } ∷ [] })

  unfoldable pub add_p256_key : SpiffeTrustBundle → Option Text → Text → Result SpiffeTrustBundle
  add_p256_key b kid sec1 = do
    point ← ok_or (s.p256_point sec1) (svid_validation_failed "invalid P-256 key")
    ok (record { entries = b.entries ++ record { kid = kid; key = p256_key point } ∷ [] })

  -- One round of `verify_signature`: whether this entry verifies.
  unfoldable pub entry_verifies : Text → Option Text → Text → Text → BundleEntry → Bool
  entry_verifies alg kid msg sig entry =
      elim kid [ none ↦ true | some k ↦ elim entry.kid [ none ↦ false | some own ↦ text_eq own k ] ]
      && elim entry.key [
        | ed25519_key pk ↦
            text_eq alg (codes "EdDSA")
            && (length sig == 64 && (c.ed25519_key_ok pk && c.ed25519_verify pk msg sig))
        | p256_key point ↦
            text_eq alg (codes "ES256")
            && (s.es256_signature_ok sig && s.es256_verify point msg sig)
      ]

  unfoldable pub bundle_verifies : List BundleEntry → Text → Option Text → Text → Text → Bool
  bundle_verifies [] alg kid msg sig = false
  bundle_verifies (e ∷ es) alg kid msg sig =
      let rest = bundle_verifies es alg kid msg sig in
      if entry_verifies alg kid msg sig e then true else rest

  -- `decode_json` of a segment.
  unfoldable pub decode_segment {ℓ} : {A : Type ℓ} → (Text → Option A) → Text → Result A
  decode_segment read part = do
    bytes ← ok_or (s.url_decode part) (svid_validation_failed "invalid base64url segment")
    ok_or (read bytes) (svid_validation_failed "invalid JSON segment")

  -- The checks of a JWT whose three parts are split.
  unfoldable pub validate_parts :
      SpiffeTrustBundle → Text → Text → Text → Option Text → ℕ → Result ValidatedSvid
  validate_parts b h p sig expected_audience now = do
    header ← decode_segment s.read_header h
    payload ← decode_segment s.read_payload p
    signature ← ok_or (s.url_decode sig) (svid_validation_failed "invalid base64url signature")
    alg ← ok_or header.alg (svid_validation_failed "JWT header missing 'alg'")
    guard (bundle_verifies b.entries alg header.kid (h ++ b'.' ∷ p) signature)
        (svid_validation_failed "no trusted key validated the SVID signature")
    sub ← ok_or payload.sub (svid_validation_failed "JWT-SVID missing 'sub'")
    spiffe_id ← parse_spiffe_id sub
    exp ← ok_or payload.exp (svid_validation_failed "JWT-SVID missing numeric 'exp'")
    expires_at ← check_exp s.timestamp_ok exp now
    check_audience expected_audience (extract_audiences payload)
    ok (record {
      spiffe_id = spiffe_id;
      expires_at = expires_at;
      audiences = extract_audiences payload;
    })

  unfoldable pub validate_split :
      SpiffeTrustBundle → List Text → Option Text → ℕ → Result ValidatedSvid
  validate_split b (h ∷ p ∷ sig ∷ []) expected_audience now =
      validate_parts b h p sig expected_audience now
  validate_split b _ expected_audience now =
      err (svid_validation_failed "JWT-SVID must have three dot-separated parts")

  unfoldable pub validate_jwt_svid :
      SpiffeTrustBundle → Text → Option Text → ℕ → Result ValidatedSvid
  validate_jwt_svid b jwt expected_audience now =
      validate_split b (split_dots jwt) expected_audience now

  unfoldable pub jwk_of : BundleEntry → Jwk
  jwk_of e = elim e.key [
    | ed25519_key pk ↦ record {
      kty = some (codes "OKP");
      crv = some (codes "Ed25519");
      x = some (s.url_encode pk);
      y = none;
      kid = e.kid;
    }
    | p256_key point ↦ record {
      kty = some (codes "EC");
      crv = some (codes "P-256");
      x = some (s.url_encode (take 32 (drop 1 point)));
      y = some (s.url_encode (take 32 (drop 33 point)));
      kid = e.kid;
    }
  ]

  abbrev pub jwks_of : List BundleEntry → List Jwk
  jwks_of [] = []
  jwks_of (e ∷ es) = jwk_of e ∷ jwks_of es

  unfoldable pub to_jwks : SpiffeTrustBundle → Result Text
  to_jwks b = ok_or (s.write_jwks (jwks_of b.entries)) json

  unfoldable pub jwk_coord : Option Text → Result Text
  jwk_coord field = do
    text ← ok_or field (svid_validation_failed "JWK missing")
    ok_or (s.url_decode text) (svid_validation_failed "JWK base64url")

  -- One round of `from_jwks`; a key type that is not known is skipped.
  unfoldable pub add_jwk : SpiffeTrustBundle → Jwk → Result SpiffeTrustBundle
  add_jwk b jwk = elim jwk.kty [
    | none ↦ ok b
    | some kty ↦
        if text_eq kty (codes "OKP")
        then jwk_coord jwk.x >>= (λ x. add_ed25519_key b jwk.kid x)
        else if text_eq kty (codes "EC")
        then jwk_coord jwk.x
          >>= (λ x. jwk_coord jwk.y >>= (λ y. add_p256_key b jwk.kid (4 ∷ x ++ y)))
        else ok b
  ]

  unfoldable pub add_jwks : SpiffeTrustBundle → List Jwk → Result SpiffeTrustBundle
  add_jwks b [] = ok b
  add_jwks b (k ∷ ks) = do b' ← add_jwk b k; add_jwks b' ks

  unfoldable pub from_jwks : Text → Result SpiffeTrustBundle
  from_jwks jwks = do
    doc ← ok_or (s.read_jwks jwks) (svid_validation_failed "JWKS JSON")
    keys ← ok_or doc (svid_validation_failed "JWKS missing 'keys' array")
    add_jwks new_bundle keys

-- `issue_from_svid`, with the serializer of credentials.
unfoldable pub issue_from_svid :
    Crypto
    → Payload
    → TrustAnchor
    → Text
    → ValidatedSvid
    → List Text
    → ℕ
    → ℕ
    → ℕ
    → Result CapabilityCredential
issue_from_svid c payload anchor agent_did svid tools max_delegation_depth valid_for_secs now =
    let claims : CapabilityClaims = record (new_claims tools max_delegation_depth valid_for_secs) {
      authorized_by = some (uri svid.spiffe_id);
    } in
    issue c payload anchor agent_did claims none now
