-- ===== src/Adr.antt =====
-- agentcreds-core/src/adr.rs: authorization decision records, the hash chain over them, its sinks and
-- its signed checkpoints. This file has the decisions, kinds and signals with their names.
pub mod Record
pub mod Stream
pub mod Names
pub mod Content
pub mod Chain
pub mod Retention
use agentcreds.Prelude.{Bool, true, false, Option, none, some, List, [], ◌∷◌, if◌then◌else◌}
use agentcreds.Outcome
use agentcreds.Outcome.{AgentCredsError}
use agentcreds.Text.{Text, codes, text_eq}

pub data Decision : Type 0 where
  allow deny : Decision

pub data DecisionKind : Type 0 where
  mint attenuate verify verify_rooted presentation revocation : DecisionKind

pub data Signal : Type 0 where
  scope_widening_attempt delegation_depth_exceeded expired revoked issuer_mismatch : Signal
  unrooted_authority signature_invalid action_denied proof_of_possession_failed other : Signal

abbrev pub decision_as_str : Decision → Text
decision_as_str allow = codes "allow"
decision_as_str deny = codes "deny"

abbrev pub decision_kind_as_str : DecisionKind → Text
decision_kind_as_str mint = codes "mint"
decision_kind_as_str attenuate = codes "attenuate"
decision_kind_as_str verify = codes "verify"
decision_kind_as_str verify_rooted = codes "verify_rooted"
decision_kind_as_str presentation = codes "presentation"
decision_kind_as_str revocation = codes "revocation"

-- The arm of a match on a string: the value where the string is the pattern, else the later arms.
abbrev pub arm {ℓ} : {A : Type ℓ} → Text → Text → A → Option A → Option A
arm s pattern value later = if text_eq s pattern then some value else later

unfoldable pub decision_kind_parse : Text → Option DecisionKind
decision_kind_parse s = arm s (codes "mint") mint (
    arm s (codes "attenuate") attenuate (
      arm s (codes "verify") verify (
        arm s (codes "verify_rooted") verify_rooted (
          arm s (codes "presentation") presentation (arm s (codes "revocation") revocation none)))))

abbrev pub signal_as_str : Signal → Text
signal_as_str scope_widening_attempt = codes "scope_widening_attempt"
signal_as_str delegation_depth_exceeded = codes "delegation_depth_exceeded"
signal_as_str expired = codes "expired"
signal_as_str revoked = codes "revoked"
signal_as_str issuer_mismatch = codes "issuer_mismatch"
signal_as_str unrooted_authority = codes "unrooted_authority"
signal_as_str signature_invalid = codes "signature_invalid"
signal_as_str action_denied = codes "action_denied"
signal_as_str proof_of_possession_failed = codes "proof_of_possession_failed"
signal_as_str other = codes "other"

unfoldable pub signal_parse : Text → Option Signal
signal_parse s = arm s (codes "scope_widening_attempt") scope_widening_attempt (
    arm s (codes "delegation_depth_exceeded") delegation_depth_exceeded (
      arm s (codes "expired") expired (
        arm s (codes "revoked") revoked (
          arm s (codes "issuer_mismatch") issuer_mismatch (
            arm s (codes "unrooted_authority") unrooted_authority (
              arm s (codes "signature_invalid") signature_invalid (
                arm s (codes "action_denied") action_denied (
                  arm s (codes "proof_of_possession_failed") proof_of_possession_failed
                    (arm s (codes "other") other none)))))))))

-- `Signal::from_error`.
unfoldable pub from_error : AgentCredsError → Signal
from_error (Outcome.AgentCredsError.scope_widening_attempt t) = scope_widening_attempt
from_error (Outcome.AgentCredsError.delegation_depth_exceeded d m) = delegation_depth_exceeded
from_error (Outcome.AgentCredsError.token_expired s) = expired
from_error (Outcome.AgentCredsError.credential_expired t) = expired
from_error (Outcome.AgentCredsError.credential_revoked t) = revoked
from_error Outcome.AgentCredsError.invalid_revocation_list_signature = revoked
from_error (Outcome.AgentCredsError.revocation_index_out_of_bounds i n) = revoked
from_error (Outcome.AgentCredsError.issuer_mismatch e g) = issuer_mismatch
from_error Outcome.AgentCredsError.root_key_mismatch = unrooted_authority
from_error (Outcome.AgentCredsError.action_denied t r) = action_denied
from_error (Outcome.AgentCredsError.proof_of_possession_failed r) = proof_of_possession_failed
from_error (Outcome.AgentCredsError.invalid_biscuit_signature r) = signature_invalid
from_error (Outcome.AgentCredsError.invalid_vc_proof r) = signature_invalid
from_error (Outcome.AgentCredsError.invalid_did_signature r) = signature_invalid
from_error (Outcome.AgentCredsError.invalid_key_material r) = signature_invalid
from_error (Outcome.AgentCredsError.svid_validation_failed r) = signature_invalid
from_error _ = other
