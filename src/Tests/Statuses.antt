-- ===== src/Tests/Statuses.antt =====
-- The results about status lists on toy crates: a byte is one bit, encoding shifts bytes past the dot,
-- and JSON is a sequence of fields that end in zero.
use agentcreds.Prelude.{
  ℕ, zero, suc, ◌+◌, ◌-◌, ◌≤◌, ◌≡◌, refl, ap, Bool, true, false, ◌==◌, Option, some, none, List, [],
  ◌∷◌, length, replicate, ltb, arith, if◌then◌else◌,
}
use agentcreds.Outcome.{ok, err, guard, revocation_index_out_of_bounds}
use agentcreds.Text.{Text}
use agentcreds.Did.{ed25519}
use agentcreds.Did.Laws.{software_anchor}
use agentcreds.Credential.{is_empty}
use agentcreds.Revocation
use agentcreds.Revocation.{
  JoseHeader, StatusPayload, StatusClaim, StatusCrates, RevocationList, bit_at, new_list, revoke,
  is_revoked, verify_list, decode_bits, to_status_list_token, from_status_list_token,
}
use agentcreds.Revocation.Laws.{StatusLaws, has_dot}
use agentcreds.Revocation.Lists.{revoked, status_after, made, after_revoke, Made-is_revoked}
use agentcreds.Revocation.Tokens.{published, to-from_status_list_token, oversized-is_revoked}
use agentcreds.Tests.Toy.{agent, agent-IsKeyed, toy, toy_laws, start, signature}

abbrev shift : Text → Text
shift [] = []
shift (x ∷ xs) = (x + 47) ∷ shift xs

abbrev unshift : Text → Text
unshift [] = []
unshift (x ∷ xs) = (x - 47) ∷ unshift xs

unshift-shift : (b : Text) → unshift (shift b) ≡ b
unshift-shift [] = refl
unshift-shift (x ∷ xs) = ground (arith, unshift-shift xs)

shift_dotless : (b : Text) → has_dot (shift b) ≡ false
shift_dotless [] = refl
shift_dotless (x ∷ xs) = ground (arith, shift_dotless xs)

shift_nonempty : (b : Text) → is_empty b ≡ false → is_empty (shift b) ≡ false
shift_nonempty [] h = h
shift_nonempty (x ∷ xs) h = refl

abbrev bits_of : Text → List Bool
bits_of [] = []
bits_of (x ∷ xs) = (x == 1) ∷ bits_of xs

abbrev bytes_of : List Bool → Text
bytes_of [] = []
bytes_of (b ∷ bs) = (if b then 1 else 0) ∷ bytes_of bs

bits-bytes_of : (bs : List Bool) → bits_of (bytes_of bs) ≡ bs
bits-bytes_of [] = refl
bits-bytes_of (false ∷ bs) = ap (λ (r : List Bool). false ∷ r) (bits-bytes_of bs)
bits-bytes_of (true ∷ bs) = ap (λ (r : List Bool). true ∷ r) (bits-bytes_of bs)

zeros_length : (n : ℕ) → n ≤ length (bits_of (replicate n 0))
zeros_length zero = omega arith
zeros_length (suc n) = omega (arith, zeros_length n)

zeros_unset : (n i : ℕ) → bit_at (bits_of (replicate n 0)) i ≡ false
zeros_unset zero i = refl
zeros_unset (suc n) zero = refl
zeros_unset (suc n) (suc i) = zeros_unset n i

-- A field, then whatever follows it.
abbrev pub field : Text → Text → Text
field [] rest = 0 ∷ rest
field (x ∷ xs) rest = suc x ∷ field xs rest

abbrev pub read_field : Text → Text × Text
read_field [] = ([], [])
read_field (zero ∷ rest) = ([], rest)
read_field (suc x ∷ xs) = let (f, rest) = read_field xs in (x ∷ f, rest)

pub read-field : (f rest : Text) → read_field (field f rest) ≡ (f, rest)
read-field [] rest = refl
read-field (x ∷ xs) rest = rw (read-field xs rest) refl

abbrev payload_rest : Text → Text → Option StatusPayload
payload_rest sub (iat ∷ bits ∷ rest) = some (record {
  sub = some sub;
  iat = some iat;
  status_list = some (record { bits = some bits; lst = some (read_field rest).0 });
})
payload_rest sub _ = none

abbrev crates : StatusCrates
crates = record {
  url_encode = shift;
  url_decode = λ b. some (unshift b);
  deflate = λ b. some b;
  inflate = λ b. some b;
  zero_bits = λ n. replicate n 0;
  from_vec = bits_of;
  into_vec = bytes_of;
  header_json = λ typ alg kid. some (field typ (field alg (field kid [])));
  payload_json = λ sub iat bits lst. some (field sub (iat ∷ bits ∷ field lst []));
  read_header = λ t.
      let (typ, rest) = read_field t in
      let (alg, last) = read_field rest in
      some (record { typ = some typ; alg = some alg; kid = some (read_field last).0 });
  read_payload = λ t. let (sub, rest) = read_field t in payload_rest sub rest;
}

field_nonempty : (f rest : Text) → is_empty (field f rest) ≡ false
field_nonempty [] rest = refl
field_nonempty (x ∷ xs) rest = refl

crates_laws : StatusLaws crates
crates_laws = record {
  url-decode-encode = λ b. ap (λ (t : Text). some t) (unshift-shift b);
  url_encode_dotless = shift_dotless;
  url_encode_nonempty = shift_nonempty;
  deflate-inflate = λ raw. (raw, refl, refl);
  zero_bits_length = zeros_length;
  zero_bits_unset = zeros_unset;
  from-into_vec = λ raw bits same. bits-bytes_of bits;
  header_written = λ typ alg kid. (
    field typ (field alg (field kid [])),
    refl,
    field_nonempty typ (field alg (field kid [])),
    rw (read-field typ (field alg (field kid [])), read-field alg (field kid []), read-field kid [])
        refl,
  );
  payload_written = λ sub iat bits lst. (
    field sub (iat ∷ bits ∷ field lst []),
    refl,
    field_nonempty sub (iat ∷ bits ∷ field lst []),
    rw (read-field sub (iat ∷ bits ∷ field lst []), read-field lst []) refl,
  );
}

-- A list of three entries.
abbrev fresh : RevocationList
fresh = record {
  id = 1 ∷ [];
  issuer = (software_anchor (agent 1)).did;
  alg = Revocation.algorithm_name ed25519;
  updated = start;
  size = 3;
  bits = 1;
  encoded_list = shift (0 ∷ 0 ∷ 0 ∷ []);
  signature = shift signature;
}

fresh_made : new_list toy crates (1 ∷ []) (software_anchor (agent 1)) (some 3) start ≡ ok fresh
unfolding new_list Revocation.compress_and_encode Revocation.sign_list Revocation.signing_input
    Revocation.header_b64 Revocation.payload_b64 Revocation.alg_for agentcreds.Did.anchor_sign
    agentcreds.Did.signer_sign agentcreds.Did.sign agentcreds.Did.sign_by
fresh_made = refl

Made-is_revoked_example :
    (verify_list toy crates
        (revoke toy crates fresh 1 start (software_anchor (agent 1))).0
        (software_anchor (agent 1))
      ≡ ok tt)
    × ((i : ℕ)
        → is_revoked toy crates (revoke toy crates fresh 1 start (software_anchor (agent 1))).0 i
          ≡ (if ltb i 3
              then ok (status_after (revoked 1 ∷ []) i)
              else err (revocation_index_out_of_bounds i 3)))
    × ((i now : ℕ)
        → (revoke toy crates
            (revoke toy crates fresh 1 start (software_anchor (agent 1))).0
            i
            now
            (software_anchor (agent 1))).1
          ≡ guard (ltb i 3) (revocation_index_out_of_bounds i 3))
Made-is_revoked_example =
    Made-is_revoked toy crates toy_laws crates_laws (agent 1) (agent-IsKeyed 1) 3 (revoked 1 ∷ [])
      (revoke toy crates fresh 1 start (software_anchor (agent 1))).0
      (after_revoke (made (1 ∷ []) (some 3) start refl fresh_made) 1 start)

fresh_decodes : Revocation.decode_and_decompress toy crates fresh.encoded_list ≡ ok (0 ∷ 0 ∷ 0 ∷ [])
unfolding Revocation.decode_and_decompress Revocation.b64url_decode
fresh_decodes = refl

to-from_status_list_token_example :
    (token : Text) × (to_status_list_token toy crates fresh ≡ ok token)
    × (from_status_list_token toy crates token ≡ ok (published fresh (0 ∷ 0 ∷ 0 ∷ [])))
to-from_status_list_token_example =
    to-from_status_list_token toy crates crates_laws fresh (0 ∷ 0 ∷ 0 ∷ []) (omega arith) refl
      fresh_decodes

fresh_verifies : verify_list toy crates fresh (software_anchor (agent 1)) ≡ ok tt
unfolding verify_list Revocation.signing_input Revocation.header_b64 Revocation.payload_b64
    Revocation.b64url_decode agentcreds.Did.verify_signature agentcreds.Did.verify
    agentcreds.Did.verify_by agentcreds.Did.verify_ed25519 agentcreds.Text.text_eq
fresh_verifies = refl

fresh_bits : decode_bits toy crates fresh ≡ ok (false ∷ false ∷ false ∷ [])
unfolding decode_bits Revocation.decode_and_decompress Revocation.b64url_decode
fresh_bits = refl

oversized-is_revoked_example :
    (verify_list toy crates (record fresh { size = 9 }) (software_anchor (agent 1)) ≡ ok tt)
    × (is_revoked toy crates (record fresh { size = 9 }) 7 ≡ ok false)
oversized-is_revoked_example =
    oversized-is_revoked toy crates fresh (software_anchor (agent 1)) (false ∷ false ∷ false ∷ []) 9
      7 fresh_verifies fresh_bits (omega arith) (omega arith)
