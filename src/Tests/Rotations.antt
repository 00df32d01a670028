-- ===== src/Tests/Rotations.antt =====
-- The results about key histories at concrete inputs.
use agentcreds.Prelude.{◌≢◌, ◌≡◌, refl, none, [], ◌∷◌, ℕ, some, true, false, arith}
use agentcreds.Outcome.{ok}
use agentcreds.Text.{Text, codes, contains, text_eq_refl}
use agentcreds.Did.{
  TrustAnchor, public_only, ed25519, anchor_from_did_key, public_key_from_did_key, sign,
  public_key_from_did_key,
}
use agentcreds.Rotation
use agentcreds.Rotation.{
  RotationStatement, KeyHistory, verify_statement, verify_history, push, current_did, verify_sealed,
  authorize_issuer, repudiate, seal_history, active_dids,
}
use agentcreds.Rotation.Continuity.{
  push-verify_history, IsAuthorized, authorize_issuer-IsAuthorized, repudiate-authorize_issuer,
}
use agentcreds.Rotation.Sealing.{seal_history-authorize_issuer}
use agentcreds.Did.Laws.{software_anchor}
use agentcreds.Signed.{live}
use agentcreds.Credential.{is_empty}
use agentcreds.Tests.Toy.{
  agent, agent-IsKeyed, toy_laws, agent_key, agent_did, toy, anchor, start, signature,
}

-- Agent 1's key rotates to agent 2's.
abbrev rotation : RotationStatement
rotation = record {
  previous_did = agent_did 1;
  next_did = agent_did 2;
  effective_at = start;
  signature = signature;
}

abbrev young : KeyHistory
young = record {
  root_did = agent_did 1;
  rotations = [];
  repudiated = [];
  not_after = none;
  version = 0;
  signature = [];
}

abbrev rotated : KeyHistory
rotated = record young { rotations = rotation ∷ [] }

abbrev sealed : KeyHistory
sealed = record rotated { signature = signature; version = 1 }

abbrev cut : KeyHistory
cut = record rotated { repudiated = agent_did 1 ∷ [] }

statement_verifies : verify_statement toy rotation ≡ ok tt
unfolding verify_statement anchor_from_did_key agentcreds.Did.public_key_from_did_key
    agentcreds.Text.strip_prefix agentcreds.Did.key_of_codec agentcreds.Text.text_eq
    agentcreds.Did.verify_signature agentcreds.Did.verify agentcreds.Did.verify_by
    agentcreds.Did.verify_ed25519
statement_verifies = refl

young_verifies : verify_history toy young (agent_did 1) ≡ ok (agent_did 1)
unfolding verify_history agentcreds.Text.text_eq Rotation.verify_chain
young_verifies = refl

pushes : push toy young rotation ≡ ok rotated
unfolding push current_did Rotation.current_from agentcreds.Text.text_eq
pushes = rw statement_verifies

push-verify_history_example :
    (verify_history toy rotated (agent_did 1) ≡ ok (agent_did 2))
    × (current_did rotated ≡ agent_did 2)
push-verify_history_example =
    push-verify_history toy young rotated rotation (agent_did 1) (agent_did 1) young_verifies pushes

abbrev successor : TrustAnchor
successor = record {
  signer = public_only (record { algorithm = ed25519; bytes = agent_key 2 });
  did = agent_did 2;
}

successor_key : anchor_from_did_key toy (agent_did 2) ≡ ok successor
unfolding anchor_from_did_key agentcreds.Did.public_key_from_did_key agentcreds.Text.strip_prefix
    agentcreds.Did.key_of_codec agentcreds.Text.text_eq
successor_key = refl

seal_verifies : verify_sealed toy sealed (agent_did 1) ≡ ok (agent_did 2)
unfolding verify_sealed verify_history Rotation.verify_chain agentcreds.Text.text_eq
    agentcreds.Did.verify_signature agentcreds.Did.verify agentcreds.Did.verify_by
    agentcreds.Did.verify_ed25519
seal_verifies = rw (statement_verifies, successor_key)

authorizes : authorize_issuer toy sealed (agent_did 1) (agent_did 2) start ≡ ok successor
unfolding authorize_issuer Rotation.verify_history_current Rotation.is_current contains
    Rotation.dids Rotation.next_dids agentcreds.Text.text_eq
authorizes = rw (seal_verifies, successor_key)

authorize_issuer-IsAuthorized_example :
    IsAuthorized toy sealed (agent_did 1) (agent_did 2) start successor
authorize_issuer-IsAuthorized_example =
    authorize_issuer-IsAuthorized toy sealed (agent_did 1) (agent_did 2) start successor authorizes

repudiates : repudiate rotated (agent_did 1) ≡ ok cut
unfolding repudiate contains Rotation.dids current_did Rotation.current_from Rotation.add_repudiated
repudiates = refl

repudiate-authorize_issuer_example :
    (current_did cut ≡ current_did rotated)
    × (verify_sealed toy cut (agent_did 1) ≢ ok (current_did cut))
    × (authorize_issuer toy
          (record cut { signature = signature; version = 1; not_after = none })
          (agent_did 1)
          (agent_did 1)
          start
        ≢ ok anchor)
repudiate-authorize_issuer_example =
    repudiate-authorize_issuer toy rotated cut (agent_did 1) (agent_did 1) start 1 none signature
      anchor repudiates

rotated_verifies : verify_history toy rotated (agent_did 1) ≡ ok (agent_did 2)
rotated_verifies =
    (push-verify_history toy young rotated rotation (agent_did 1) (agent_did 1) young_verifies
      pushes).0

agent_named : (n : ℕ) → public_key_from_did_key toy (agent_did n) ≡ ok (agent n).public_key
unfolding public_key_from_did_key agentcreds.Text.strip_prefix agentcreds.Did.key_of_codec
    agentcreds.Text.text_eq
agent_named n = refl

sign_nonempty : (m s : Text) → sign toy (agent 2) m ≡ ok s → is_empty (toy.base64_encode s) ≡ false
unfolding sign agentcreds.Did.sign_by
sign_nonempty m s h = ground (arith, h)

seal_history-authorize_issuer_example :
    (h' : KeyHistory) × (seal_history toy rotated (software_anchor (agent 2)) 1 (some start)
      ≡ (h', ok tt))
    × (h'.root_did ≡ agent_did 1)
    × (h'.rotations ≡ rotation ∷ [])
    × (h'.repudiated ≡ [])
    × ((issuer : Text) (now : ℕ) (anchor : TrustAnchor)
        → live (some start) now ≡ true
        → contains (active_dids rotated) issuer ≡ true
        → anchor_from_did_key toy issuer ≡ ok anchor
        → authorize_issuer toy h' (agent_did 1) issuer now ≡ ok anchor)
seal_history-authorize_issuer_example =
    seal_history-authorize_issuer toy toy_laws (agent 2) rotated (agent_did 1) 1 (some start)
      (agent-IsKeyed 2) (agent_named 2) sign_nonempty rotated_verifies
