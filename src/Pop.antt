-- ===== src/Pop.antt =====
-- agentcreds-core/src/pop.rs: challenges, proofs of possession and the verification of a
-- presentation. The nonce and the clock are arguments, and the largest age is not negative.
pub mod Window
use agentcreds.Prelude.{
  ℕ, ◌-◌, ◌/◌, ◌^◌, ◌≡◌, Bool, true, false, not, ◌&&◌, Option, none, some, ◌∷◌, ◌++◌, ltb, ◌==◌,
  length,
}
use agentcreds.Outcome.{
  Result, ok, err, ◌>>=◌, ◌>>◌, guard, ok_or, map_err, proof_of_possession_failed,
}
use agentcreds.Text.{Text, codes, text_eq}
use agentcreds.Codec.{u64_le, hash_field, opt_field}
use agentcreds.Crypto.{Crypto}
use agentcreds.Did.{AgentIdentity, TrustAnchor, sign, verify, public_key_from_did_key}
use agentcreds.Action.{Action, request_binding}
use agentcreds.Credential.{CapabilityCredential, Payload}
use agentcreds.Approval.Directory.{seconds_le}
use agentcreds.Biscuit.{Biscuit}
use agentcreds.Delegation.Token.{DelegationToken, leaf_agent_did}
use agentcreds.Delegation.Rooted.{verify_rooted_inner}

pub record PopChallenge : Type 0 where
  pub nonce : Text
  pub audience : Option Text
  pub issued_at : ℕ
  pub request_binding : Option Text

pub record ProofOfPossession : Type 0 where
  pub leaf_did : Text
  pub token_binding : Text
  pub challenge : PopChallenge
  pub signature : Text

abbrev pub pop_domain : Text
pop_domain = codes "agentcreds-pop-v1"

abbrev pub future_skew_secs : ℕ
future_skew_secs = 5

unfoldable pub with_request_binding : PopChallenge → Text → PopChallenge
with_request_binding ch binding = record ch { request_binding = some binding }

-- What `PopChallenge::digest` feeds to the hash.
unfoldable pub challenge_bytes : PopChallenge → Text → Text
challenge_bytes ch token_binding =
    pop_domain
    ++ (hash_field ch.nonce
        ++ (opt_field ch.audience
            ++ (seconds_le ch.issued_at ++ (opt_field ch.request_binding ++ token_binding))))

unfoldable pub same_audience : Option Text → Option Text → Bool
same_audience none none = true
same_audience (some a) (some b) = text_eq a b
same_audience _ _ = false

unfoldable pub matches : PopChallenge → PopChallenge → Bool
matches ch issued =
    text_eq ch.nonce issued.nonce
    && same_audience ch.audience issued.audience
    && ch.issued_at == issued.issued_at

-- `age > max_age_secs` and `age < -FUTURE_SKEW_SECS`, where `num_seconds` truncates towards zero.
unfoldable pub is_stale : ℕ → ℕ → ℕ → Bool
is_stale issued_at max_age_secs now = ltb max_age_secs ((now - issued_at) / 10 ^ 9)

unfoldable pub is_early : ℕ → ℕ → Bool
is_early issued_at now = ltb future_skew_secs ((issued_at - now) / 10 ^ 9)

module _ (c : Crypto) where
  unfoldable pub leaf_binding : DelegationToken → Text
  leaf_binding token = c.hex_encode (c.sha256 token.biscuit)

  -- `ProofOfPossession::verify_at`.
  unfoldable pub verify_possession :
      ProofOfPossession → DelegationToken → PopChallenge → ℕ → ℕ → Result (Unit {0})
  verify_possession p token issued max_age_secs now = do
    guard (matches p.challenge issued)
        (proof_of_possession_failed "challenge does not match the issued challenge")
    guard (not (is_stale p.challenge.issued_at max_age_secs now))
        (proof_of_possession_failed "challenge is stale")
    guard (not (is_early p.challenge.issued_at now))
        (proof_of_possession_failed "challenge issued in the future beyond allowed skew")
    guard (text_eq p.token_binding (leaf_binding token))
        (proof_of_possession_failed "proof is not bound to this token's leaf")
    guard (text_eq p.leaf_did (leaf_agent_did token))
        (proof_of_possession_failed "proof leaf DID does not match the token's leaf agent")
    key ← public_key_from_did_key c p.leaf_did
    sig ←
        ok_or (c.base64_decode p.signature)
          (proof_of_possession_failed "signature is not valid base64")
    map_err (verify c key (c.sha256 (challenge_bytes p.challenge p.token_binding)) sig)
        (proof_of_possession_failed "signature does not verify")

  unfoldable pub prove_possession :
      DelegationToken → PopChallenge → AgentIdentity → Result ProofOfPossession
  prove_possession token challenge leaf_agent = do
    guard (text_eq leaf_agent.did (leaf_agent_did token))
        (proof_of_possession_failed "only the token's leaf agent can prove possession")
    sig ← sign c leaf_agent (c.sha256 (challenge_bytes challenge (leaf_binding token)))
    ok (record {
      leaf_did = leaf_agent_did token;
      token_binding = leaf_binding token;
      challenge = challenge;
      signature = c.base64_encode sig;
    })

  unfoldable pub check_request : Option Text → Action → Result (Unit {0})
  check_request none action = ok tt
  check_request (some binding) action =
      guard (text_eq binding (request_binding c action))
        (proof_of_possession_failed "proof of possession is bound to a different request")

  module _ (payload : Payload) (B : Biscuit) where
    unfoldable pub verify_presentation_at :
        DelegationToken
        → Action
        → CapabilityCredential
        → TrustAnchor
        → ProofOfPossession
        → PopChallenge
        → ℕ
        → ℕ
        → Result (Unit {0})
    verify_presentation_at token action vc anchor proof expected_challenge max_age_secs now = do
      verify_rooted_inner c payload B token action vc anchor none now
      verify_possession proof token expected_challenge max_age_secs now
      check_request proof.challenge.request_binding action
