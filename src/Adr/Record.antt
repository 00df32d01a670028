-- ===== src/Adr/Record.antt =====
-- `AuthzDecision`, its builders and its digest. The identifier and the clock are arguments, and so is
-- the text of an error.
use agentcreds.Prelude.{ℕ, Option, none, some, List, [], ◌∷◌, ◌++◌, length}
use agentcreds.Outcome.{Result, ok, err, AgentCredsError}
use agentcreds.Text.{Text, codes}
use agentcreds.Codec.{le_bytes, u64_le, hash_field, opt_field}
use agentcreds.Crypto.{Crypto}
use agentcreds.Approval.Directory.{seconds_le}
use agentcreds.Delegation.Token.{DelegationToken, depth, leaf_agent_did, root_agent_did}
use agentcreds.Adr.{
  Decision, allow, deny, DecisionKind, Signal, decision_as_str, decision_kind_as_str, signal_as_str,
  from_error,
}

pub record AuthzDecision : Type 0 where
  pub id : Text
  pub seq : ℕ
  pub timestamp : ℕ
  pub kind : DecisionKind
  pub decision : Decision
  pub subject_did : Text
  pub root_agent_did : Text
  pub issuer_did : Text
  pub vc_id : Text
  pub action : Option Text
  pub principal_did : Option Text
  pub accountable_party : Option Text
  pub party_version : Option ℕ
  pub party_commitment : Option Text
  pub evaluation : Option Decision
  pub admission : Option Decision
  pub accountability_source : Option Text
  pub depth : ℕ
  pub max_depth : ℕ
  pub signals : List Signal
  pub reason : Option Text

-- `AuthzDecision::bare`.
unfoldable pub bare :
    Text → ℕ → DecisionKind → Text → Decision → List Signal → Option Text → AuthzDecision
bare id now kind subject_did decision signals reason = record {
  id = id;
  seq = 0;
  timestamp = now;
  kind = kind;
  decision = decision;
  subject_did = subject_did;
  root_agent_did = [];
  issuer_did = [];
  vc_id = [];
  action = none;
  principal_did = none;
  accountable_party = none;
  party_version = none;
  party_commitment = none;
  evaluation = none;
  admission = none;
  accountability_source = none;
  depth = 0;
  max_depth = 0;
  signals = signals;
  reason = reason;
}

-- `AuthzDecision::allow` and `AuthzDecision::deny`.
unfoldable pub allowed : Text → ℕ → DecisionKind → Text → AuthzDecision
allowed id now kind subject_did = bare id now kind subject_did allow [] none

unfoldable pub denied : Text → ℕ → DecisionKind → Text → Signal → Text → AuthzDecision
denied id now kind subject_did signal reason =
    bare id now kind subject_did deny (signal ∷ []) (some reason)

abbrev pub decision_of : Result (Unit {0}) → Decision
decision_of (ok _) = allow
decision_of (err e) = deny

abbrev pub signals_of : Result (Unit {0}) → List Signal
signals_of (ok _) = []
signals_of (err e) = from_error e ∷ []

abbrev pub reason_of : (AgentCredsError → Text) → Result (Unit {0}) → Option Text
reason_of display (ok _) = none
reason_of display (err e) = some (display e)

-- `AuthzDecision::from_token`.
unfoldable pub from_token :
    (AgentCredsError → Text)
    → Text
    → ℕ
    → DecisionKind
    → DelegationToken
    → Option Text
    → Result (Unit {0})
    → AuthzDecision
from_token display id now kind token action result = record {
  id = id;
  seq = 0;
  timestamp = now;
  kind = kind;
  decision = decision_of result;
  subject_did = leaf_agent_did token;
  root_agent_did = root_agent_did token;
  issuer_did = token.issuer_cache;
  vc_id = token.vc_id_cache;
  action = action;
  principal_did = token.principal_cache;
  accountable_party = none;
  party_version = none;
  party_commitment = none;
  evaluation = none;
  admission = none;
  accountability_source = none;
  depth = depth token;
  max_depth = token.root_max_depth_cache;
  signals = signals_of result;
  reason = reason_of display result;
}

unfoldable pub with_accountability_source : AuthzDecision → Option Text → AuthzDecision
with_accountability_source d source = record d { accountability_source = source }

unfoldable pub with_accountable_party : AuthzDecision → Option Text → AuthzDecision
with_accountable_party d party = record d { accountable_party = party }

unfoldable pub with_party_record : AuthzDecision → Option ℕ → Option Text → AuthzDecision
with_party_record d version commitment = record d {
  party_version = version;
  party_commitment = commitment;
}

unfoldable pub with_verdicts : AuthzDecision → Option Decision → Option Decision → AuthzDecision
with_verdicts d evaluation admission = record d { evaluation = evaluation; admission = admission }

unfoldable pub with_action : AuthzDecision → Text → AuthzDecision
with_action d action = record d { action = some action }

unfoldable pub with_correlation : AuthzDecision → Text → Text → AuthzDecision
with_correlation d vc_id issuer_did = record d { vc_id = vc_id; issuer_did = issuer_did }

abbrev pub digest_domain : Text
digest_domain = codes "agentcreds-adr-record-v2"

-- `as_deref().unwrap_or("")`
abbrev pub or_empty : Option Text → Text
or_empty none = []
or_empty (some t) = t

unfoldable pub signal_fields : List Signal → Text
signal_fields [] = []
signal_fields (s ∷ ss) = hash_field (signal_as_str s) ++ signal_fields ss

-- The tagged version of a party record.
unfoldable pub opt_u64 : Option ℕ → Text
opt_u64 none = 0 ∷ []
opt_u64 (some v) = 1 ∷ u64_le v

abbrev pub decision_name : Option Decision → Option Text
decision_name none = none
decision_name (some d) = some (decision_as_str d)

-- The fields that the digest writes from the principal on, all with a presence tag.
unfoldable pub accountability_bytes : AuthzDecision → Text
accountability_bytes d =
    opt_field d.principal_did
    ++ (opt_field d.accountable_party
        ++ (opt_field d.accountability_source
            ++ (opt_u64 d.party_version
                ++ (opt_field d.party_commitment
                    ++ (opt_field (decision_name d.evaluation)
                        ++ opt_field (decision_name d.admission))))))

-- The fields from the depths to the reason.
unfoldable pub outcome_bytes : AuthzDecision → Text
outcome_bytes d =
    le_bytes 4 d.depth
    ++ (le_bytes 4 d.max_depth
        ++ (u64_le (length d.signals)
            ++ (signal_fields d.signals
                ++ (hash_field (or_empty d.reason) ++ accountability_bytes d))))

-- What `digest` feeds to the hash.
unfoldable pub decision_bytes : AuthzDecision → Text
decision_bytes d =
    digest_domain
    ++ (hash_field d.id
        ++ (seconds_le d.timestamp
            ++ (hash_field (decision_kind_as_str d.kind)
                ++ (hash_field (decision_as_str d.decision)
                    ++ (hash_field d.subject_did
                        ++ (hash_field d.root_agent_did
                            ++ (hash_field d.issuer_did
                                ++ (hash_field d.vc_id
                                    ++ (hash_field (or_empty d.action) ++ outcome_bytes d)))))))))

module _ (c : Crypto) where
  unfoldable pub decision_digest : AuthzDecision → Text
  decision_digest d = c.sha256 (decision_bytes d)
