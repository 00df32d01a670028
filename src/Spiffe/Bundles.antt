-- ===== src/Spiffe/Bundles.antt =====
-- A trust bundle and its key set.
use agentcreds.Prelude.{
  ◌≡◌, ◌==◌, refl, sym, ◌∙◌, ap, Option, some, List, [], ◌∷◌, ◌++◌, length, take, drop, arith,
}
use agentcreds.Outcome.{ok, >>=-eq-ok, guard-eq-ok, ok_or, ok_or-eq-ok}
use agentcreds.Text.{Text, text_eq}
use agentcreds.Crypto.{Crypto}
use agentcreds.Spiffe.{
  ed25519_key, p256_key, BundleEntry, SpiffeTrustBundle, Jwk, SvidCrates, new_bundle,
  add_ed25519_key, add_p256_key, jwk_of, jwks_of, to_jwks, jwk_coord, add_jwk, add_jwks, from_jwks,
}

-- What the crates document: encodings are read back, key sets too, and an uncompressed point is a four
-- and two coordinates, which reads as itself.
pub record SvidLaws (s : SvidCrates) : Type 0 where
  pub url-decode-encode : (b : Text) → s.url_decode (s.url_encode b) ≡ some b
  pub jwks_written :
      (ks : List Jwk) → (t : Text) × (s.write_jwks ks ≡ some t) × (s.read_jwks t ≡ some (some ks))
  pub point_whole :
      (sec1 point : Text)
      → s.p256_point sec1 ≡ some point
      → (4 ∷ take 32 (drop 1 point) ++ take 32 (drop 33 point) ≡ point)
        × (s.p256_point point ≡ some point)

module _ (c : Crypto) (s : SvidCrates) where
  -- The bundles that the two operations build from the empty one.
  pub data Built : SpiffeTrustBundle → Type 0 where
    empty : Built new_bundle
    with_ed25519 :
        {b b' : SpiffeTrustBundle}
        → Built b
        → (kid : Option Text) (key : Text) → add_ed25519_key c s b kid key ≡ ok b'
        → Built b'
    with_p256 :
        {b b' : SpiffeTrustBundle}
        → Built b
        → (kid : Option Text) (sec1 : Text) → add_p256_key c s b kid sec1 ≡ ok b'
        → Built b'

  jwks_of-append :
      (es : List BundleEntry) (e : BundleEntry)
      → jwks_of c s (es ++ e ∷ []) ≡ jwks_of c s es ++ jwk_of c s e ∷ []
  jwks_of-append [] e = refl
  jwks_of-append (f ∷ fs) e = ap (λ (ks : List Jwk). jwk_of c s f ∷ ks) (jwks_of-append fs e)

  add_jwks-append :
      (ks : List Jwk) (k : Jwk) (b₀ b b' : SpiffeTrustBundle)
      → add_jwks c s b₀ ks ≡ ok b
      → add_jwk c s b k ≡ ok b'
      → add_jwks c s b₀ (ks ++ k ∷ []) ≡ ok b'
  unfolding add_jwks
  add_jwks-append [] k b₀ b b' h a = let same : b₀ ≡ b = ground (arith, h) in rw (same, a) refl
  add_jwks-append (j ∷ js) k b₀ b b' h a =
      let (next, first, rest) = >>=-eq-ok (add_jwk c s b₀ j) _ h in
      rw first (add_jwks-append js k next b b' rest a)

  -- One more entry, read back after those before it.
  add_jwks-entry :
      (b b' : SpiffeTrustBundle) (e : BundleEntry)
      → b.entries ++ e ∷ [] ≡ b'.entries
      → add_jwks c s new_bundle (jwks_of c s b.entries) ≡ ok b
      → add_jwk c s b (jwk_of c s e) ≡ ok b'
      → add_jwks c s new_bundle (jwks_of c s b'.entries) ≡ ok b'
  add_jwks-entry b b' e entries h a =
      ap (λ (es : List BundleEntry). add_jwks c s new_bundle (jwks_of c s es)) (sym entries)
      ∙ (ap (λ (ks : List Jwk). add_jwks c s new_bundle ks) (jwks_of-append b.entries e)
          ∙ add_jwks-append (jwks_of c s b.entries) (jwk_of c s e) new_bundle b b' h a)

  ed25519_entry :
      (b b' : SpiffeTrustBundle) (kid : Option Text) (key : Text)
      → add_ed25519_key c s b kid key ≡ ok b'
      → b.entries ++ record { kid = kid; key = ed25519_key key } ∷ [] ≡ b'.entries
  unfolding add_ed25519_key
  ed25519_entry b b' kid key h =
      let (_, h₁) = guard-eq-ok (length key == 32) _ _ h in
      let (_, h₂) = guard-eq-ok (c.ed25519_key_ok key) _ _ h₁ in ground (arith, h₂)

  p256_entry :
      (b b' : SpiffeTrustBundle) (kid : Option Text) (sec1 : Text)
      → add_p256_key c s b kid sec1 ≡ ok b'
      → (point : Text) × (s.p256_point sec1 ≡ some point)
        × (b.entries ++ record { kid = kid; key = p256_key point } ∷ [] ≡ b'.entries)
  unfolding add_p256_key
  p256_entry b b' kid sec1 h =
      let (point, e, h₁) = >>=-eq-ok (ok_or (s.p256_point sec1) _) _ h in
      (point, ok_or-eq-ok (s.p256_point sec1) _ e, ground (arith, h₁))

  module _ (L : SvidLaws s) where
    add_jwk-ed25519 :
        (b b' : SpiffeTrustBundle) (kid : Option Text) (key : Text)
        → add_ed25519_key c s b kid key ≡ ok b'
        → add_jwk c s b (jwk_of c s (record { kid = kid; key = ed25519_key key })) ≡ ok b'
    unfolding add_jwk jwk_of jwk_coord text_eq
    add_jwk-ed25519 b b' kid key h = rw (L.url-decode-encode key, h) refl

    add_jwk-p256 :
        (b b' : SpiffeTrustBundle) (kid : Option Text) (sec1 point : Text)
        → s.p256_point sec1 ≡ some point
        → b.entries ++ record { kid = kid; key = p256_key point } ∷ [] ≡ b'.entries
        → add_jwk c s b (jwk_of c s (record { kid = kid; key = p256_key point })) ≡ ok b'
    unfolding add_jwk jwk_of jwk_coord text_eq add_p256_key
    add_jwk-p256 b b' kid sec1 point e h =
        let (whole, again) = L.point_whole sec1 point e in
        rw
          (
            L.url-decode-encode (take 32 (drop 1 point)),
            L.url-decode-encode (take 32 (drop 33 point)),
            whole,
            again,
            h,
          )
          refl

    Built-add_jwks :
        (b : SpiffeTrustBundle) → Built b → add_jwks c s new_bundle (jwks_of c s b.entries) ≡ ok b
    unfolding add_jwks new_bundle
    Built-add_jwks b empty = refl
    Built-add_jwks b (with_ed25519 {b = before} m kid key h) =
        add_jwks-entry before b (record { kid = kid; key = ed25519_key key })
          (ed25519_entry before b kid key h) (Built-add_jwks before m)
          (add_jwk-ed25519 before b kid key h)
    Built-add_jwks b (with_p256 {b = before} m kid sec1 h) =
        let (point, read, entries) = p256_entry before b kid sec1 h in
        add_jwks-entry before b (record { kid = kid; key = p256_key point }) entries
          (Built-add_jwks before m) (add_jwk-p256 before b kid sec1 point read entries)

    -- A bundle that is built by adding keys is exported as a key set that is read back as that bundle.
    pub to-from_jwks :
        (b : SpiffeTrustBundle)
        → Built b
        → (t : Text) × (to_jwks c s b ≡ ok t) × (from_jwks c s t ≡ ok b)
    unfolding to_jwks from_jwks
    to-from_jwks b m =
        let (t, written, read) = L.jwks_written (jwks_of c s b.entries) in
        (t, rw written refl, rw (read, Built-add_jwks b m) refl)
