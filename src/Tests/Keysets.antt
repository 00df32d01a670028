-- ===== src/Tests/Keysets.antt =====
-- The key set of a trust bundle at a concrete input, on toy crates that write a key set as its fields.
use agentcreds.Prelude.{
  ℕ, zero, suc, ◌≡◌, refl, some, none, Option, List, [], ◌∷◌, length, true, arith,
}
use agentcreds.Outcome.{ok}
use agentcreds.Text.{Text}
use agentcreds.Spiffe.{
  SvidCrates, SpiffeTrustBundle, ed25519_key, Jwk, new_bundle, add_ed25519_key, to_jwks, from_jwks,
}
use agentcreds.Spiffe.Bundles.{SvidLaws, empty, with_ed25519, to-from_jwks}
use agentcreds.Tests.Statuses.{field, read_field, read-field}
use agentcreds.Tests.Toy.{agent_key, toy}

abbrev opt : Option Text → Text → Text
opt none rest = 0 ∷ rest
opt (some f) rest = 1 ∷ field f rest

abbrev read_opt : Text → Option Text × Text
read_opt [] = (none, [])
read_opt (zero ∷ rest) = (none, rest)
read_opt (suc x ∷ rest) = let (f, last) = read_field rest in (some f, last)

read-opt : (o : Option Text) (rest : Text) → read_opt (opt o rest) ≡ (o, rest)
read-opt none rest = refl
read-opt (some f) rest = rw (read-field f rest) refl

write_key : Jwk → Text → Text
write_key k rest = opt k.kty (opt k.crv (opt k.x (opt k.y (opt k.kid rest))))

read_key : Text → Jwk × Text
read_key t =
    let (kty, t₁) = read_opt t in
    let (crv, t₂) = read_opt t₁ in
    let (x, t₃) = read_opt t₂ in
    let (y, t₄) = read_opt t₃ in
    let (kid, t₅) = read_opt t₄ in (record { kty = kty; crv = crv; x = x; y = y; kid = kid }, t₅)

read_key-write_key : (k : Jwk) (rest : Text) → read_key (write_key k rest) ≡ (k, rest)
unfolding read_key write_key
read_key-write_key k rest =
    rw
      (
        read-opt k.kty (opt k.crv (opt k.x (opt k.y (opt k.kid rest)))),
        read-opt k.crv (opt k.x (opt k.y (opt k.kid rest))),
        read-opt k.x (opt k.y (opt k.kid rest)),
        read-opt k.y (opt k.kid rest),
        read-opt k.kid rest,
      )
      refl

abbrev keys : List Jwk → Text
keys [] = []
keys (k ∷ ks) = write_key k (keys ks)

-- As many keys as the count says.
abbrev read_keys : ℕ → Text → List Jwk
read_keys zero t = []
read_keys (suc n) t = let (k, rest) = read_key t in k ∷ read_keys n rest

read-keys : (ks : List Jwk) → read_keys (length ks) (keys ks) ≡ ks
read-keys [] = refl
read-keys (k ∷ ks) = rw (read_key-write_key k (keys ks), read-keys ks) refl

abbrev read_counted : Text → Option (Option (List Jwk))
read_counted [] = none
read_counted (n ∷ t) = some (some (read_keys n t))

abbrev crates : SvidCrates
crates = record {
  url_encode = λ b. b;
  url_decode = λ b. some b;
  read_header = λ b. none;
  read_payload = λ b. none;
  timestamp_ok = λ e. true;
  p256_point = λ sec1. none;
  es256_signature_ok = λ sig. true;
  es256_verify = λ key msg sig. true;
  write_jwks = λ ks. some (length ks ∷ keys ks);
  read_jwks = read_counted;
}

crates_laws : SvidLaws crates
crates_laws = record {
  url-decode-encode = λ b. refl;
  jwks_written = λ ks. (length ks ∷ keys ks, refl, rw (read-keys ks) refl);
  point_whole = λ sec1 point e. absurd (ground (arith, e));
}

abbrev bundle : SpiffeTrustBundle
bundle = record { entries = record { kid = some (3 ∷ []); key = ed25519_key (agent_key 1) } ∷ [] }

bundle_added : add_ed25519_key toy crates new_bundle (some (3 ∷ [])) (agent_key 1) ≡ ok bundle
unfolding add_ed25519_key new_bundle
bundle_added = refl

to-from_jwks_example :
    (t : Text) × (to_jwks toy crates bundle ≡ ok t) × (from_jwks toy crates t ≡ ok bundle)
to-from_jwks_example =
    to-from_jwks toy crates crates_laws bundle
      (with_ed25519 empty (some (3 ∷ [])) (agent_key 1) bundle_added)
