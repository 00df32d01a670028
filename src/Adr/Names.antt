-- ===== src/Adr/Names.antt =====
-- The names of kinds and signals are read back.
use agentcreds.Prelude.{◌≡◌, refl, sym, ◌∙◌, ap, some, some-injective}
use agentcreds.Text.{text_eq}
use agentcreds.Adr.{
  DecisionKind, Signal, Decision, allow, deny, decision_as_str, decision_kind_as_str,
  decision_kind_parse, signal_as_str, signal_parse, mint, attenuate, verify, verify_rooted,
  presentation, revocation, scope_widening_attempt, delegation_depth_exceeded, expired, revoked,
  issuer_mismatch, unrooted_authority, signature_invalid, action_denied, proof_of_possession_failed,
  other,
}

pub decision_kind_parse-as_str :
    (k : DecisionKind) → decision_kind_parse (decision_kind_as_str k) ≡ some k
unfolding decision_kind_parse text_eq
decision_kind_parse-as_str mint = refl
decision_kind_parse-as_str attenuate = refl
decision_kind_parse-as_str verify = refl
decision_kind_parse-as_str verify_rooted = refl
decision_kind_parse-as_str presentation = refl
decision_kind_parse-as_str revocation = refl

pub signal_parse-as_str : (s : Signal) → signal_parse (signal_as_str s) ≡ some s
unfolding signal_parse text_eq
signal_parse-as_str scope_widening_attempt = refl
signal_parse-as_str delegation_depth_exceeded = refl
signal_parse-as_str expired = refl
signal_parse-as_str revoked = refl
signal_parse-as_str issuer_mismatch = refl
signal_parse-as_str unrooted_authority = refl
signal_parse-as_str signature_invalid = refl
signal_parse-as_str action_denied = refl
signal_parse-as_str proof_of_possession_failed = refl
signal_parse-as_str other = refl

pub decision_kind_as_str-injective :
    (j k : DecisionKind) → decision_kind_as_str j ≡ decision_kind_as_str k → j ≡ k
decision_kind_as_str-injective j k e =
    some-injective
      (sym (decision_kind_parse-as_str j) ∙ ap decision_kind_parse e ∙ decision_kind_parse-as_str k)

pub signal_as_str-injective : (s t : Signal) → signal_as_str s ≡ signal_as_str t → s ≡ t
signal_as_str-injective s t e =
    some-injective (sym (signal_parse-as_str s) ∙ ap signal_parse e ∙ signal_parse-as_str t)

pub decision_as_str-injective : (a b : Decision) → decision_as_str a ≡ decision_as_str b → a ≡ b
decision_as_str-injective allow allow e = refl
decision_as_str-injective allow deny e = cc
decision_as_str-injective deny allow e = cc
decision_as_str-injective deny deny e = refl
