-- ===== src/Pop/Window.antt =====
-- When a proof of possession verifies, and to what it is bound.
use agentcreds.Prelude.{
  ℕ, ◌-◌, ◌/◌, ◌^◌, ◌≤◌, ◌≡◌, ◌⊎◌, inl, inr, refl, sym, ◌∙◌, true, false, not, Option, none, some,
  ◌++◌, ap, ltb, arith, Bool-cases,
}
use agentcreds.Outcome.{
  ok, >>=-eq-ok, guard-eq-ok, map_err-eq-ok, ok_or, ok_or-eq-ok, proof_of_possession_failed,
}
use agentcreds.Text.{Text, text_eq, text_eq→eq, text_eq_refl}
use agentcreds.Codec.{hash_field, opt_field}
use agentcreds.Crypto.{Crypto, CryptoLaws}
use agentcreds.Did.{AgentIdentity, PublicKey, TrustAnchor, verify, public_key_from_did_key}
use agentcreds.Did.Laws.{IsKeyed, sign-verify}
use agentcreds.Action.{Action, request_bytes, request_binding}
use agentcreds.Action.Bindings.{IsSized, SameRequest, request_bytes_injective}
use agentcreds.Credential.{CapabilityCredential, Payload}
use agentcreds.Approval.Directory.{seconds_le}
use agentcreds.Approval.Bound.{IsCollision}
use agentcreds.Biscuit.{Biscuit}
use agentcreds.Delegation.Token.{DelegationToken, leaf_agent_did}
use agentcreds.Delegation.Rooted.{verify_rooted_inner}
use agentcreds.Pop.{
  PopChallenge, ProofOfPossession, pop_domain, challenge_bytes, same_audience, matches, is_stale,
  is_early, leaf_binding, verify_possession, prove_possession, check_request,
  verify_presentation_at,
}

same_audience_refl : (a : Option Text) → same_audience a a ≡ true
unfolding same_audience
same_audience_refl none = refl
same_audience_refl (some t) = text_eq_refl t

matches_refl : (ch : PopChallenge) → matches ch ch ≡ true
unfolding matches
matches_refl ch = ground (arith, text_eq_refl ch.nonce, same_audience_refl ch.audience)

same_audience→eq : (a b : Option Text) → same_audience a b ≡ true → a ≡ b
unfolding same_audience
same_audience→eq none none h = refl
same_audience→eq none (some t) h = cc
same_audience→eq (some t) none h = cc
same_audience→eq (some s) (some t) h = ap (λ (x : Text). some x) (text_eq→eq s t h)

matches→eq :
    (ch issued : PopChallenge)
    → matches ch issued ≡ true
    → (ch.nonce ≡ issued.nonce)
      × (ch.audience ≡ issued.audience)
      × (ch.issued_at ≡ issued.issued_at)
unfolding matches
matches→eq ch issued h = (
  text_eq→eq ch.nonce issued.nonce (ground (arith, h)),
  same_audience→eq ch.audience issued.audience (ground (arith, h)),
  ground (arith, h),
)

module _ (c : Crypto) where
  -- What the leaf agent signs: the challenge as it was issued, with the request it is bound to, and the
  -- digest of the token's bytes.
  abbrev pub possession_message : Option Text → DelegationToken → PopChallenge → Text
  possession_message request token issued =
      pop_domain
      ++ (hash_field issued.nonce
          ++ (opt_field issued.audience
              ++ (seconds_le issued.issued_at
                  ++ (opt_field request ++ c.hex_encode (c.sha256 token.biscuit)))))

  challenge_bytes-possession_message :
      (p : ProofOfPossession) (token : DelegationToken) (issued : PopChallenge)
      → p.challenge.nonce ≡ issued.nonce
      → p.challenge.audience ≡ issued.audience
      → p.challenge.issued_at ≡ issued.issued_at
      → p.token_binding ≡ leaf_binding c token
      → challenge_bytes p.challenge p.token_binding
        ≡ possession_message p.challenge.request_binding token issued
  unfolding challenge_bytes leaf_binding
  challenge_bytes-possession_message p token issued nonce audience issued_at binding =
      rw (nonce, audience, issued_at, binding) refl

  -- What a proof that verifies shows.
  pub record IsPossessed (p : ProofOfPossession) (token : DelegationToken) (issued : PopChallenge)
      (max_age_secs now : ℕ) : Type 0 where
    pub nonce : p.challenge.nonce ≡ issued.nonce
    pub audience : p.challenge.audience ≡ issued.audience
    pub issued_at : p.challenge.issued_at ≡ issued.issued_at
    pub age : (now - p.challenge.issued_at) / 10 ^ 9 ≤ max_age_secs
    pub skew : (p.challenge.issued_at - now) / 10 ^ 9 ≤ 5
    pub token_binding : p.token_binding ≡ c.hex_encode (c.sha256 token.biscuit)
    pub leaf : p.leaf_did ≡ leaf_agent_did token
    pub key : PublicKey
    pub leaf_key : public_key_from_did_key c p.leaf_did ≡ ok key
    pub signature : Text
    pub decoded : c.base64_decode p.signature ≡ some signature
    pub signed :
        verify c key
          (c.sha256 (possession_message p.challenge.request_binding token issued))
          signature
        ≡ ok tt

  -- A proof that verifies has the nonce, the audience and the time of the issued challenge, is no older
  -- than the limit and no more than five seconds early, names the digest of this token's bytes and its
  -- leaf agent, and decodes to a signature by the key of that agent's DID over the issued challenge, the
  -- request that the proof names and the digest of the token.
  pub verify_possession-IsPossessed :
      (p : ProofOfPossession) (token : DelegationToken) (issued : PopChallenge)
      (max_age_secs now : ℕ)
      → verify_possession c p token issued max_age_secs now ≡ ok tt
      → IsPossessed p token issued max_age_secs now
  unfolding verify_possession is_stale is_early leaf_binding
  verify_possession-IsPossessed p token issued max_age_secs now h =
      let (same, h₁) = guard-eq-ok (matches p.challenge issued) _ _ h in
      let (fresh, h₂) =
        guard-eq-ok (not (ltb max_age_secs ((now - p.challenge.issued_at) / 10 ^ 9))) _ _ h₁ in
      let (timely, h₃) =
        guard-eq-ok (not (ltb 5 ((p.challenge.issued_at - now) / 10 ^ 9))) _ _ h₂ in
      let (bound, h₄) = guard-eq-ok (text_eq p.token_binding (leaf_binding c token)) _ _ h₃ in
      let (leaf, h₅) = guard-eq-ok (text_eq p.leaf_did (leaf_agent_did token)) _ _ h₄ in
      let (key, k, h₆) = >>=-eq-ok (public_key_from_did_key c p.leaf_did) _ h₅ in
      let (sig, e, h₇) =
        >>=-eq-ok
          (ok_or (c.base64_decode p.signature)
            (proof_of_possession_failed "signature is not valid base64"))
          _ h₆ in
      let (nonce, audience, issued_at) = matches→eq p.challenge issued same in
      let binding = text_eq→eq p.token_binding (leaf_binding c token) bound in
      let message =
        challenge_bytes-possession_message p token issued nonce audience issued_at binding in
      record {
        nonce = nonce;
        audience = audience;
        issued_at = issued_at;
        age = ground (arith, fresh);
        skew = ground (arith, timely);
        token_binding = binding;
        leaf = text_eq→eq p.leaf_did (leaf_agent_did token) leaf;
        key = key;
        leaf_key = k;
        signature = sig;
        decoded = ok_or-eq-ok (c.base64_decode p.signature) _ e;
        signed =
            ap (λ (m : Text). verify c key (c.sha256 m) sig) (sym message)
            ∙ map_err-eq-ok
                (verify c key (c.sha256 (challenge_bytes p.challenge p.token_binding)) sig) _ h₇;
      }

  check_request-binding :
      (o : Option Text) (b : Text) (action : Action)
      → o ≡ some b
      → check_request c o action ≡ ok tt
      → b ≡ request_binding c action
  unfolding check_request
  check_request-binding none b action e h = cc
  check_request-binding (some t) b action e h =
      ground (arith, e, text_eq→eq t (request_binding c action), h)

  module _ (payload : Payload) (B : Biscuit) where
    presentation-check_request :
        (token : DelegationToken) (a : Action) (vc : CapabilityCredential) (anchor : TrustAnchor)
        (p : ProofOfPossession) (ch : PopChallenge) (max_age_secs now : ℕ)
        → verify_presentation_at c payload B token a vc anchor p ch max_age_secs now ≡ ok tt
        → check_request c p.challenge.request_binding a ≡ ok tt
    unfolding verify_presentation_at
    presentation-check_request token a vc anchor p ch max_age_secs now h =
        let (_, _, h₁) =
          >>=-eq-ok (verify_rooted_inner c payload B token a vc anchor none now) _ h in
        let (_, _, h₂) = >>=-eq-ok (verify_possession c p token ch max_age_secs now) _ h₁ in h₂

    -- A proof whose challenge is bound to a request is accepted for two actions, whose strings are
    -- shorter than 2 ^ 64 bytes, only if they have the same tool, parameters and resource, or their
    -- request bytes are a collision.
    pub presentation-binds-one :
        (token : DelegationToken) (a b : Action) (vc : CapabilityCredential) (anchor : TrustAnchor)
        (p : ProofOfPossession) (ch : PopChallenge) (max_age_secs now now' : ℕ) (binding : Text)
        → p.challenge.request_binding ≡ some binding
        → IsSized a
        → IsSized b
        → verify_presentation_at c payload B token a vc anchor p ch max_age_secs now ≡ ok tt
        → verify_presentation_at c payload B token b vc anchor p ch max_age_secs now' ≡ ok tt
        → SameRequest a b ⊎ IsCollision c (request_bytes a) (request_bytes b)
    unfolding request_binding
    presentation-binds-one token a b vc anchor p ch max_age_secs now now' binding bound ha hb va
          vb =
        let first =
          check_request-binding _ binding a bound
            (presentation-check_request token a vc anchor p ch max_age_secs now va) in
        let second =
          check_request-binding _ binding b bound
            (presentation-check_request token b vc anchor p ch max_age_secs now' vb) in
        elim (Bool-cases (text_eq (request_bytes a) (request_bytes b))) [
          | inl equal ↦ inl (
              request_bytes_injective a b ha hb
                (text_eq→eq (request_bytes a) (request_bytes b) equal))
          | inr other ↦ inr (record {
            differ = λ equal. ground (arith, other, equal, text_eq_refl (request_bytes a));
            same_digest = sym first ∙ second;
          })
        ]

  module _ (L : CryptoLaws c) where
    -- A keyed leaf agent whose DID names its key proves possession of its token, and the proof verifies
    -- against the challenge at every instant at which the challenge is neither stale nor early.
    pub prove-verify_possession :
        (a : AgentIdentity) (token : DelegationToken) (ch : PopChallenge)
        → IsKeyed c a
        → public_key_from_did_key c a.did ≡ ok a.public_key
        → a.did ≡ leaf_agent_did token
        → (p : ProofOfPossession) × (prove_possession c token ch a ≡ ok p)
          × (p.challenge ≡ ch)
          × ((max_age_secs now : ℕ)
              → is_stale ch.issued_at max_age_secs now ≡ false
              → is_early ch.issued_at now ≡ false
              → verify_possession c p token ch max_age_secs now ≡ ok tt)
    unfolding prove_possession verify_possession
    prove-verify_possession a token ch keyed named leaf =
        let (s, signed, verified) =
          sign-verify c L a (c.sha256 (challenge_bytes ch (leaf_binding c token))) keyed in
        let p : ProofOfPossession = record {
          leaf_did = leaf_agent_did token;
          token_binding = leaf_binding c token;
          challenge = ch;
          signature = c.base64_encode s;
        } in
        (
          p,
          ground (arith, signed, leaf, text_eq_refl (leaf_agent_did token)),
          refl,
          λ max_age_secs now fresh timely. ground (
            arith,
            fresh,
            timely,
            named,
            leaf,
            verified,
            matches_refl ch,
            text_eq_refl (leaf_binding c token),
            text_eq_refl (leaf_agent_did token),
            L.base64-decode-encode s,
          ),
        )
