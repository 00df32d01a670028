-- ===== src/Revocation.antt =====
-- agentcreds-core/src/revocation.rs: the status list, its signed token and the registry of lists. The
-- clock is an argument. A change returns the list as the call leaves it, with its result.
pub mod Laws
pub mod Lists
pub mod Signing
pub mod Tokens
use agentcreds.Prelude.{
  ℕ, zero, suc, ◌+◌, ◌*◌, ◌/◌, ◌-◌, ◌%◌, ◌^◌, ◌≤◌, ◌≡◌, Bool, true, false, not, ◌&&◌, Option, none,
  some, List, [], ◌∷◌, ◌++◌, ltb, leb, ◌==◌, length, get_elem?, set, if◌then◌else◌,
}
use Prim.Native.Nat.{max, min}
use agentcreds.Prelude.Int.{pos}
use agentcreds.Outcome.{
  Result, ok, err, AgentCredsError, ◌>>=◌, ◌>>◌, guard, ok_or, map_err, json, crypto_error,
  did_resolution_failed, credential_revoked, invalid_revocation_list_signature,
  revocation_index_out_of_bounds, revocation_list_stale,
}
use agentcreds.Text.{Text, codes, text_eq}
use agentcreds.Crypto.{Crypto}
use agentcreds.Did.{
  KeyAlgorithm, ed25519, p256, TrustAnchor, public_key, anchor_sign, verify_signature,
}
use agentcreds.Approval.Directory.{seconds_le}
use agentcreds.Credential.{CapabilityCredential, is_empty}

-- What `get` and `as_str` read from a parsed JOSE header.
pub record JoseHeader : Type 0 where
  pub typ : Option Text
  pub alg : Option Text
  pub kid : Option Text

pub record StatusClaim : Type 0 where
  pub bits : Option ℕ
  pub lst : Option Text

-- The same of a parsed payload; a time that `timestamp_opt` refuses reads as absent.
pub record StatusPayload : Type 0 where
  pub sub : Option Text
  pub iat : Option ℕ
  pub status_list : Option StatusClaim

-- The crates that revocation.rs calls: base64ct for base64url, flate2, bitvec and serde_json.
pub record StatusCrates : Type 0 where
  pub url_encode : Text → Text
  pub url_decode : Text → Option Text
  pub deflate : Text → Option Text
  pub inflate : Text → Option Text
  -- The bytes of a vector of zero bits, and the two conversions of `BitVec<u8, Msb0>`.
  pub zero_bits : ℕ → Text
  pub from_vec : Text → List Bool
  pub into_vec : List Bool → Text
  -- The JSON of a header with its `typ`, `alg` and `kid`, and of a payload with its `sub`, `iat`, `bits`
  -- and `lst`; then their parsers.
  pub header_json : Text → Text → Text → Option Text
  pub payload_json : Text → ℕ → ℕ → Text → Option Text
  pub read_header : Text → Option JoseHeader
  pub read_payload : Text → Option StatusPayload

pub record RevocationList : Type 0 where
  pub id : Text
  pub issuer : Text
  pub alg : Text
  pub updated : ℕ
  pub size : ℕ
  pub bits : ℕ
  pub encoded_list : Text
  pub signature : Text

abbrev pub default_list_size : ℕ
default_list_size = 131072

-- `size.unwrap_or(DEFAULT_LIST_SIZE)`
abbrev pub size_or_default : Option ℕ → ℕ
size_or_default none = default_list_size
size_or_default (some n) = n

abbrev pub status_list_typ : Text
status_list_typ = codes "statuslist+jwt"

abbrev pub algorithm_name : KeyAlgorithm → Text
algorithm_name ed25519 = codes "EdDSA"
algorithm_name p256 = codes "ES256"

unfoldable pub alg_for : TrustAnchor → Text
alg_for anchor = algorithm_name (public_key anchor).algorithm

-- `get(index).map_or(false, |b| *b)`
abbrev pub bit_at : List Bool → ℕ → Bool
bit_at [] i = false
bit_at (b ∷ bs) zero = b
bit_at (b ∷ bs) (suc i) = bit_at bs i

-- `count_ones`
unfoldable pub count_ones : List Bool → ℕ
count_ones [] = 0
count_ones (b ∷ bs) = (if b then 1 else 0) + count_ones bs

-- `split_once` at a dot.
unfoldable pub split_dot : Text → Option (Text × Text)
split_dot [] = none
split_dot (x ∷ xs) =
    let rest = split_dot xs in
    if x == b'.' then some ([], xs) else elim rest [ none ↦ none | some (a, b) ↦ some (x ∷ a, b) ]

-- `splitn(3, '.')` where there are three parts.
unfoldable pub three_parts : Text → Option (Text × (Text × Text))
three_parts token = elim (split_dot token) [
  | none ↦ none
  | some (h, rest) ↦ elim (split_dot rest) [ none ↦ none | some (p, sig) ↦ some (h, (p, sig)) ]
]

module _ (c : Crypto) (s : StatusCrates) where
  unfoldable pub b64url_decode : Text → Result Text
  b64url_decode t = ok_or (s.url_decode t) invalid_revocation_list_signature

  unfoldable pub compress_and_encode : Text → Result Text
  compress_and_encode raw = do
    compressed ← ok_or (s.deflate raw) (crypto_error "")
    ok (s.url_encode compressed)

  unfoldable pub decode_and_decompress : Text → Result Text
  decode_and_decompress encoded = do
    compressed ← b64url_decode encoded
    ok_or (s.inflate compressed) (crypto_error "")

  unfoldable pub decode_bits : RevocationList → Result (List Bool)
  decode_bits list = do raw ← decode_and_decompress list.encoded_list; ok (s.from_vec raw)

  unfoldable pub check_index : RevocationList → ℕ → Result (Unit {0})
  check_index list index =
      guard (ltb index list.size) (revocation_index_out_of_bounds index list.size)

  unfoldable pub header_b64 : RevocationList → Result Text
  header_b64 list = do
    header ← ok_or (s.header_json status_list_typ list.alg list.issuer) json
    ok (s.url_encode header)

  unfoldable pub payload_b64 : RevocationList → Result Text
  payload_b64 list = do
    payload ←
        ok_or (s.payload_json list.id (list.updated / 10 ^ 9) list.bits list.encoded_list) json
    ok (s.url_encode payload)

  unfoldable pub signing_input : RevocationList → Result Text
  signing_input list = do
    header ← header_b64 list
    payload ← payload_b64 list
    ok (header ++ b'.' ∷ payload)

  -- `sign`; an error leaves the old signature.
  unfoldable pub sign_list : RevocationList → TrustAnchor → RevocationList × Result (Unit {0})
  sign_list list anchor = elim (signing_input list >>= anchor_sign c anchor) [
    | err e ↦ (list, err e)
    | ok sig ↦ (record list { signature = s.url_encode sig }, ok tt)
  ]

  unfoldable pub update_bits :
      RevocationList → List Bool → ℕ → TrustAnchor → RevocationList × Result (Unit {0})
  update_bits list bits now anchor = elim (compress_and_encode (s.into_vec bits)) [
    | err e ↦ (list, err e)
    | ok encoded ↦ sign_list (record list { encoded_list = encoded; updated = now }) anchor
  ]

  -- `RevocationList::new`.
  unfoldable pub new_list : Text → TrustAnchor → Option ℕ → ℕ → Result RevocationList
  new_list id anchor size now = do
    encoded ← compress_and_encode (s.zero_bits (size_or_default size))
    let draft : RevocationList = record {
      id = id;
      issuer = anchor.did;
      alg = alg_for anchor;
      updated = now;
      size = size_or_default size;
      bits = 1;
      encoded_list = encoded;
      signature = [];
    }
    let (list, signed) = sign_list draft anchor
    signed
    ok list

  -- The part of `revoke` and `unrevoke` before the update: the bits with the one at the index written.
  unfoldable pub changed_bits : RevocationList → ℕ → Bool → Result (List Bool)
  changed_bits list index value = do
    check_index list index
    bits ← decode_bits list
    guard (ltb index (length bits)) (revocation_index_out_of_bounds index list.size)
    ok (set bits index value)

  unfoldable pub change_at :
      RevocationList → ℕ → Bool → ℕ → TrustAnchor → RevocationList × Result (Unit {0})
  change_at list index value now anchor = elim (changed_bits list index value) [
    | err e ↦ (list, err e)
    | ok bits ↦ update_bits list bits now anchor
  ]

  unfoldable pub revoke : RevocationList → ℕ → ℕ → TrustAnchor → RevocationList × Result (Unit {0})
  revoke list index now anchor = change_at list index true now anchor

  unfoldable pub unrevoke :
      RevocationList → ℕ → ℕ → TrustAnchor → RevocationList × Result (Unit {0})
  unrevoke list index now anchor = change_at list index false now anchor

  unfoldable pub resign : RevocationList → ℕ → TrustAnchor → RevocationList × Result (Unit {0})
  resign list now anchor = sign_list (record list { updated = now }) anchor

  unfoldable pub is_revoked : RevocationList → ℕ → Result Bool
  is_revoked list index = do check_index list index; bits ← decode_bits list; ok (bit_at bits index)

  unfoldable pub is_credential_revoked : RevocationList → CapabilityCredential → Result Bool
  is_credential_revoked list vc = elim vc.credential_status [
    | none ↦ ok false
    | some status ↦
        guard (text_eq status.status_list_credential list.id) invalid_revocation_list_signature
        >> is_revoked list status.status_list_index
  ]

  -- `RevocationList::verify`.
  unfoldable pub verify_list : RevocationList → TrustAnchor → Result (Unit {0})
  verify_list list anchor = do
    input ← signing_input list
    sig ← b64url_decode list.signature
    map_err (verify_signature c anchor input sig) invalid_revocation_list_signature

  unfoldable pub check_fresh : RevocationList → ℕ → ℕ → Result (Unit {0})
  check_fresh list now max_age =
      guard (not (ltb (list.updated + max_age) now)) (
        revocation_list_stale list.updated ((now - list.updated) / 10 ^ 9) (pos (max_age / 10 ^ 9)))

  unfoldable pub verify_fresh : RevocationList → TrustAnchor → ℕ → ℕ → Result (Unit {0})
  verify_fresh list anchor now max_age = do verify_list list anchor; check_fresh list now max_age

  unfoldable pub revocation_count : RevocationList → Result ℕ
  revocation_count list = do bits ← decode_bits list; ok (count_ones bits)

  unfoldable pub list_fingerprint : RevocationList → Text
  list_fingerprint list =
      c.hex_encode (c.sha256 (list.id ++ (seconds_le list.updated ++ list.encoded_list)))

  unfoldable pub to_status_list_token : RevocationList → Result Text
  to_status_list_token list = do input ← signing_input list; ok (input ++ b'.' ∷ list.signature)

  -- What `from_status_list_token` takes from the parsed header and payload.
  unfoldable pub list_of_claims : JoseHeader → StatusPayload → Text → Result RevocationList
  list_of_claims header payload sig = do
    let bad = invalid_revocation_list_signature
    guard (elim header.typ [ none ↦ false | some t ↦ text_eq t status_list_typ ]) bad
    issuer ← ok_or header.kid bad
    alg ← ok_or header.alg bad
    id ← ok_or payload.sub bad
    iat ← ok_or payload.iat bad
    claim ← ok_or payload.status_list bad
    let bits : ℕ = elim claim.bits [ none ↦ 1 | some b ↦ b % 2 ^ 8 ]
    encoded ← ok_or claim.lst bad
    raw ← decode_and_decompress encoded
    ok (record {
      id = id;
      issuer = issuer;
      alg = alg;
      updated = iat * 10 ^ 9;
      size = min (length raw * 8) (2 ^ 64 - 1) / max bits 1;
      bits = bits;
      encoded_list = encoded;
      signature = sig;
    })

  unfoldable pub from_status_list_token : Text → Result RevocationList
  from_status_list_token token = do
    let bad = invalid_revocation_list_signature
    (h, (p, sig)) ← ok_or (three_parts token) bad
    guard (not (is_empty h) && (not (is_empty p) && not (is_empty sig))) bad
    header_bytes ← b64url_decode h
    header ← ok_or (s.read_header header_bytes) bad
    payload_bytes ← b64url_decode p
    payload ← ok_or (s.read_payload payload_bytes) bad
    list_of_claims header payload sig

-- `RevocationRegistry`, a map from the identifiers of lists; the first entry of a name is the live one.
pub record RevocationRegistry : Type 0 where
  pub lists : List (Text × RevocationList)

unfoldable pub empty_registry : RevocationRegistry
empty_registry = record { lists = [] }

unfoldable pub register : RevocationRegistry → RevocationList → RevocationRegistry
register r list = record { lists = (list.id, list) ∷ r.lists }

unfoldable pub find_list : List (Text × RevocationList) → Text → Option RevocationList
find_list [] id = none
find_list ((key, list) ∷ rest) id =
    let later = find_list rest id in if text_eq key id then some list else later

unfoldable pub get_list : RevocationRegistry → Text → Option RevocationList
get_list r id = find_list r.lists id

-- `RevocationRegistry::is_revoked`.
unfoldable pub check_revoked :
    Crypto → StatusCrates → RevocationRegistry → Text → ℕ → Text → Result (Unit {0})
check_revoked c s r list_id index credential_id = do
  list ← ok_or (get_list r list_id) (did_resolution_failed list_id "revocation list not found")
  revoked ← is_revoked c s list index
  guard (not revoked) (credential_revoked credential_id)
