-- ===== src/Tests/Presentations.antt =====
-- The results about proofs of possession at concrete inputs.
use agentcreds.Prelude.{ℕ, ◌≡◌, ◌⊎◌, refl, false, none, some, [], ◌∷◌}
use agentcreds.Outcome.{ok}
use agentcreds.Text.{Text, codes, contains, text_eq_refl}
use agentcreds.Action.{request_bytes, request_binding}
use agentcreds.Action.Bindings.{SameRequest}
use agentcreds.Did.{TrustAnchor, public_only, ed25519, anchor_from_did_key, public_key_from_did_key}
use agentcreds.Pop.{
  PopChallenge, ProofOfPossession, matches, same_audience, is_stale, is_early, leaf_binding,
  verify_possession, prove_possession, check_request, verify_presentation_at,
}
use agentcreds.Pop.Window.{
  IsPossessed, verify_possession-IsPossessed, presentation-binds-one, prove-verify_possession,
}
use agentcreds.Did.Laws.{IsKeyed, keyed_ed25519}
use agentcreds.Approval.Bound.{IsCollision}
use agentcreds.Delegation.Token.{leaf_agent_did}
use agentcreds.Tests.Toy.{
  agent_key, agent_did, toy, toy_laws, agent, anchor, start, payload, credential, signature,
}
use agentcreds.Tests.ToyBiscuit.{toy_biscuit}
use agentcreds.Tests.Chain.{leaf_token, request}
use agentcreds.Tests.Witnesses.{rooted_verifies, request-IsSized}

-- Agent 3 proves possession of its token for the request.
abbrev challenge : PopChallenge
challenge = record {
  nonce = 8 ∷ [];
  audience = none;
  issued_at = start;
  request_binding = some (request_binding toy request);
}

abbrev proof : ProofOfPossession
proof = record {
  leaf_did = agent_did 3;
  token_binding = 0 ∷ 0 ∷ [];
  challenge = challenge;
  signature = signature;
}

leaf-IsKeyed : IsKeyed toy (agent 3)
leaf-IsKeyed = keyed_ed25519 (agent_key 3) refl refl refl refl

leaf_key : public_key_from_did_key toy (agent_did 3) ≡ ok (agent 3).public_key
unfolding public_key_from_did_key agentcreds.Text.strip_prefix agentcreds.Did.key_of_codec
    agentcreds.Text.text_eq
leaf_key = refl

leaf_named : agent_did 3 ≡ leaf_agent_did leaf_token
unfolding leaf_agent_did
leaf_named = refl

possessed : verify_possession toy proof leaf_token challenge 60 start ≡ ok tt
unfolding verify_possession matches same_audience is_stale is_early agentcreds.Text.text_eq
    leaf_binding leaf_agent_did agentcreds.Did.verify agentcreds.Did.verify_by
    agentcreds.Did.verify_ed25519
possessed = rw leaf_key refl

presented :
    verify_presentation_at toy payload toy_biscuit leaf_token request credential anchor proof
      challenge 60 start
    ≡ ok tt
unfolding verify_presentation_at check_request
presented = rw (rooted_verifies, possessed, text_eq_refl (request_binding toy request))

verify_possession-IsPossessed_example : IsPossessed toy proof leaf_token challenge 60 start
verify_possession-IsPossessed_example =
    verify_possession-IsPossessed toy proof leaf_token challenge 60 start possessed

presentation-binds-one_example :
    SameRequest request request ⊎ IsCollision toy (request_bytes request) (request_bytes request)
presentation-binds-one_example =
    presentation-binds-one toy payload toy_biscuit leaf_token request request credential anchor
      proof challenge 60 start start (request_binding toy request) refl request-IsSized
      request-IsSized presented presented

prove-verify_possession_example :
    (p : ProofOfPossession) × (prove_possession toy leaf_token challenge (agent 3) ≡ ok p)
    × (p.challenge ≡ challenge)
    × ((max_age_secs now : ℕ)
        → is_stale start max_age_secs now ≡ false
        → is_early start now ≡ false
        → verify_possession toy p leaf_token challenge max_age_secs now ≡ ok tt)
prove-verify_possession_example =
    prove-verify_possession toy toy_laws (agent 3) leaf_token challenge leaf-IsKeyed leaf_key
      leaf_named
