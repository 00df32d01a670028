-- ===== src/Spiffe/Svids.antt =====
-- The parts of a JWT-SVID along its validation.
pub mod Parts
pub mod Audiences
use agentcreds.Prelude.{
  ℕ, ◌*◌, ◌^◌, ◌<◌, ◌≡◌, ◌≢◌, ◌⊎◌, inl, inr, refl, sym, ◌∙◌, ap, Bool, true, false, not, Bool-cases,
  Option, none, some, List, [], ◌∷◌, ◌++◌, ltb, ◌==◌, ◌&&◌, ◌↔◌, length, Among, arith,
}
use mathlib.Core.List.{append-nil}
use agentcreds.Prelude.Int.{ℤ, pos, negsuc}
use agentcreds.Outcome.{ok, >>=-eq-ok, guard-eq-ok, ok_or-eq-ok, ok_or}
use agentcreds.Text.{Text, codes, strip_prefix, contains_iff, text_eq, text_eq→eq}
use agentcreds.Crypto.{Crypto}
use agentcreds.Credential.{is_empty}
use agentcreds.Spiffe.{
  SpiffeId, BundleKey, ed25519_key, p256_key, BundleEntry, Audience, one, many, neither, strings,
  SpiffeTrustBundle, ValidatedSvid, SvidHeader, SvidPayload, SvidCrates, slash_step, split_slash,
  parse_spiffe_id, id_of, uri, split_dots, extract_audiences, check_exp, check_audience,
  entry_verifies, bundle_verifies, decode_segment, split_step, validate_split, validate_parts,
  validate_jwt_svid,
}
use Parts.{
  parse_spiffe_id-uri, IsSpiffeId, parse_spiffe_id-IsSpiffeId, join_dots, split_dots-join_dots,
}
use Audiences.{HasAudience, extract_audiences-HasAudience, check_audience-Among}

module _ (c : Crypto) (s : SvidCrates) where
  -- The key is of the kind that the algorithm names and verifies the signature.
  abbrev pub Verifies : Text → Text → Text → BundleKey → Type 0
  Verifies alg msg sig (ed25519_key pk) =
      (alg ≡ codes "EdDSA")
      × (length sig ≡ 64)
      × (c.ed25519_key_ok pk ≡ true)
      × (c.ed25519_verify pk msg sig ≡ true)
  Verifies alg msg sig (p256_key point) =
      (alg ≡ codes "ES256")
      × (s.es256_signature_ok sig ≡ true)
      × (s.es256_verify point msg sig ≡ true)

  -- The entry's key verifies, and it has the key identifier of the header, where that has one.
  pub record IsVerifier (alg : Text) (kid : Option Text) (msg sig : Text) (e : BundleEntry)
      : Type 0 where
    pub named : (k : Text) → kid ≡ some k → e.kid ≡ some k
    pub key : Verifies alg msg sig e.key

  entry_verifies-IsVerifier :
      (e : BundleEntry) (alg : Text) (kid : Option Text) (msg sig : Text)
      → entry_verifies c s alg kid msg sig e ≡ true
      → IsVerifier alg kid msg sig e
  unfolding entry_verifies
  entry_verifies-IsVerifier e alg kid msg sig h = record {
    named = λ k asked. of_kid k kid e.kid asked (ground (arith, h));
    key = of_key e.key (ground (arith, h));
  }
    where
      of_kid :
          (k : Text) (wanted own : Option Text)
          → wanted ≡ some k
          → elim wanted [ none ↦ true | some w ↦ elim own [ none ↦ false | some o ↦ text_eq o w ] ]
            ≡ true
          → own ≡ some k
      of_kid k none own e t = cc
      of_kid k (some w) none e t = cc
      of_kid k (some w) (some o) e t = ap (λ (x : Text). some x) (text_eq→eq o w t) ∙ e

      of_key :
          (key : BundleKey)
          → elim key [
            | ed25519_key pk ↦
                text_eq alg (codes "EdDSA")
                && (length sig == 64 && (c.ed25519_key_ok pk && c.ed25519_verify pk msg sig))
            | p256_key point ↦
                text_eq alg (codes "ES256")
                && (s.es256_signature_ok sig && s.es256_verify point msg sig)
          ]
            ≡ true
          → Verifies alg msg sig key
      of_key (ed25519_key pk) t = (
        text_eq→eq alg (codes "EdDSA") (ground (arith, t)),
        ground (arith, t),
        ground (arith, t),
        ground (arith, t),
      )
      of_key (p256_key point) t =
          (text_eq→eq alg (codes "ES256") (ground (arith, t)), ground (arith, t), ground (arith, t))

  pub bundle_verifies-IsVerifier :
      (es : List BundleEntry) (alg : Text) (kid : Option Text) (msg sig : Text)
      → bundle_verifies c s es alg kid msg sig ≡ true
      → (e : BundleEntry) × Among e es × IsVerifier alg kid msg sig e
  unfolding bundle_verifies
  bundle_verifies-IsVerifier [] alg kid msg sig h = cc
  bundle_verifies-IsVerifier (e ∷ es) alg kid msg sig h =
      elim (Bool-cases (entry_verifies c s alg kid msg sig e)) [
        | inl here ↦ (e, inl refl, entry_verifies-IsVerifier e alg kid msg sig here)
        | inr other ↦
            let (f, held, verifies) =
              bundle_verifies-IsVerifier es alg kid msg sig (ground (arith, h, other)) in
            (f, inr held, verifies)
      ]

  -- A part of a JWT that is read as a value.
  abbrev pub IsSegment : {A : Type 0} → (Text → Option A) → Text → A → Type 0
  IsSegment read part a = (bytes : Text) × (s.url_decode part ≡ some bytes) × (read bytes ≡ some a)

  -- What the parts of a JWT that validates have.
  pub record IsValidated (b : SpiffeTrustBundle) (h p sig : Text) (expected_audience : Option Text)
      (now : ℕ) (svid : ValidatedSvid) : Type 0 where
    pub header : SvidHeader
    pub header_read : IsSegment s.read_header h header
    pub payload : SvidPayload
    pub payload_read : IsSegment s.read_payload p payload
    pub signature : Text
    pub signature_read : s.url_decode sig ≡ some signature
    pub alg : Text
    pub alg_read : header.alg ≡ some alg
    pub entry : BundleEntry
    pub held : Among entry b.entries
    pub verifies : IsVerifier alg header.kid (h ++ b'.' ∷ p) signature entry
    pub subject :
        payload.sub
        ≡ some (codes "spiffe://" ++ (svid.spiffe_id.trust_domain ++ svid.spiffe_id.path))
    pub identifier : IsSpiffeId svid.spiffe_id
    pub exp : ℕ
    pub exp_read : payload.exp ≡ some (pos exp)
    pub expires : svid.expires_at ≡ exp * 10 ^ 9
    pub fresh : now < exp * 10 ^ 9
    pub audiences : (t : Text) → Among t svid.audiences ↔ HasAudience payload.aud t
    pub audience : (t : Text) → expected_audience ≡ some t → HasAudience payload.aud t

  decode_segment-IsSegment :
      {A : Type 0} (read : Text → Option A) (part : Text) (a : A)
      → decode_segment c s read part ≡ ok a
      → IsSegment read part a
  unfolding decode_segment
  decode_segment-IsSegment read part a h =
      let (bytes, e, h₁) = >>=-eq-ok (ok_or (s.url_decode part) _) _ h in
      (bytes, ok_or-eq-ok (s.url_decode part) _ e, ok_or-eq-ok (read bytes) _ h₁)

  check_exp-fresh :
      (exp : ℤ) (now : ℕ) {t : ℕ}
      → check_exp s.timestamp_ok exp now ≡ ok t
      → (n : ℕ) × (exp ≡ pos n) × (t ≡ n * 10 ^ 9) × (now < n * 10 ^ 9)
  unfolding check_exp
  check_exp-fresh (pos n) now {t} h =
      let (_, h₁) = guard-eq-ok (s.timestamp_ok (pos n)) _ _ h in
      let (later, h₂) = guard-eq-ok (ltb now (n * 10 ^ 9)) _ _ h₁ in
      (n, refl, ground (arith, h₂), ground (arith, later))
  check_exp-fresh (negsuc n) now {t} h =
      let (_, h₁) = guard-eq-ok (s.timestamp_ok (negsuc n)) _ _ h in absurd (ground (arith, h₁))

  validate_parts-IsValidated :
      (b : SpiffeTrustBundle) (h p sig : Text) (expected_audience : Option Text) (now : ℕ)
      (svid : ValidatedSvid)
      → validate_parts c s b h p sig expected_audience now ≡ ok svid
      → IsValidated b h p sig expected_audience now svid
  unfolding validate_parts uri
  validate_parts-IsValidated b h p sig expected_audience now svid k =
      let (header, e₁, k₁) = >>=-eq-ok (decode_segment c s s.read_header h) _ k in
      let (payload, e₂, k₂) = >>=-eq-ok (decode_segment c s s.read_payload p) _ k₁ in
      let (signature, e₃, k₃) = >>=-eq-ok (ok_or (s.url_decode sig) _) _ k₂ in
      let (alg, e₄, k₄) = >>=-eq-ok (ok_or header.alg _) _ k₃ in
      let (verified, k₅) =
        guard-eq-ok (bundle_verifies c s b.entries alg header.kid (h ++ b'.' ∷ p) signature) _ _
          k₄ in
      let (sub, e₆, k₆) = >>=-eq-ok (ok_or payload.sub _) _ k₅ in
      let (id, e₇, k₇) = >>=-eq-ok (parse_spiffe_id sub) _ k₆ in
      let (exp, e₈, k₈) = >>=-eq-ok (ok_or payload.exp _) _ k₇ in
      let (t, e₉, k₉) = >>=-eq-ok (check_exp s.timestamp_ok exp now) _ k₈ in
      let (_, e₁₀, k₁₀) =
        >>=-eq-ok (check_audience expected_audience (extract_audiences payload)) _ k₉ in
      let (n, whole, expires, fresh) = check_exp-fresh exp now {t = t} e₉ in
      let (entry, held, verifies) =
        bundle_verifies-IsVerifier b.entries alg header.kid (h ++ b'.' ∷ p) signature verified in
      let made : ValidatedSvid = record {
        spiffe_id = id;
        expires_at = t;
        audiences = extract_audiences payload;
      } in
      let same : made ≡ svid = ground (arith, k₁₀) in
      let valid : IsValidated b h p sig expected_audience now made = record {
        header = header;
        header_read = decode_segment-IsSegment s.read_header h header e₁;
        payload = payload;
        payload_read = decode_segment-IsSegment s.read_payload p payload e₂;
        signature = signature;
        signature_read = ok_or-eq-ok (s.url_decode sig) _ e₃;
        alg = alg;
        alg_read = ok_or-eq-ok header.alg _ e₄;
        entry = entry;
        held = held;
        verifies = verifies;
        subject =
            ok_or-eq-ok payload.sub _ e₆
            ∙ ap (λ (x : Text). some x) (sym (parse_spiffe_id-uri sub id e₇));
        identifier = parse_spiffe_id-IsSpiffeId sub id e₇;
        exp = n;
        exp_read = ok_or-eq-ok payload.exp _ e₈ ∙ ap (λ (x : ℤ). some x) whole;
        expires = expires;
        fresh = fresh;
        audiences = extract_audiences-HasAudience payload;
        audience = λ x asked. (extract_audiences-HasAudience payload x).0 (
            check_audience-Among expected_audience (extract_audiences payload) x
              (ground (arith, e₁₀)) asked);
      } in
      rw same at valid

  -- A JWT-SVID that validates is three parts joined by dots, with a header, a payload and a signature
  -- that decode. A key of the bundle, of the kind that the header's algorithm names and with the
  -- header's key identifier where it has one, verifies the signature over the first two parts. The
  -- payload's subject is the SPIFFE identifier returned, split at its first slash; its `exp` is the expiry returned, which is
  -- later than now; its audiences are those returned, and have the expected one where one is asked for.
  pub validate_jwt_svid-IsValidated :
      (b : SpiffeTrustBundle) (jwt : Text) (expected_audience : Option Text) (now : ℕ)
      (svid : ValidatedSvid)
      → validate_jwt_svid c s b jwt expected_audience now ≡ ok svid
      → (h : Text) × (p : Text) × (sig : Text) × (h ++ b'.' ∷ (p ++ b'.' ∷ sig) ≡ jwt)
        × IsValidated b h p sig expected_audience now svid
  unfolding validate_jwt_svid validate_split
  validate_jwt_svid-IsValidated b jwt expected_audience now svid h =
      parts (split_dots jwt) (split_dots-join_dots jwt) h
    where
      parts :
          (ps : List Text)
          → join_dots ps ≡ jwt
          → validate_split c s b ps expected_audience now ≡ ok svid
          → (h : Text) × (p : Text) × (sig : Text) × (h ++ b'.' ∷ (p ++ b'.' ∷ sig) ≡ jwt)
            × IsValidated b h p sig expected_audience now svid
      parts [] e k = cc
      parts (h ∷ []) e k = cc
      parts (h ∷ p ∷ []) e k = cc
      parts (h ∷ p ∷ sig ∷ []) e k =
          (h, p, sig, e, validate_parts-IsValidated b h p sig expected_audience now svid k)
      parts (h ∷ p ∷ sig ∷ r ∷ rs) e k = cc
