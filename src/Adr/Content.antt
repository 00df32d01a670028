-- ===== src/Adr/Content.antt =====
-- The bytes of a decision's digest.
use mathlib.Core.List.{append_assoc}
use agentcreds.Prelude.{
  ℕ, ◌/◌, ◌^◌, ◌<◌, ◌≡◌, refl, ap, Option, none, some, some-injective, List, [], ◌∷◌, ◌++◌, length,
  arith, ◌⊎◌, inl, inr,
}
use agentcreds.Text.{Text}
use agentcreds.Codec.{
  hash_field, Fits, FitsOpt, u64_le, le_bytes_injective, hash_field_injective, opt_field_injective,
  opt_field_injective_end, append_injective,
}
use agentcreds.Crypto.{Crypto, IsShaCollision, equal_or_collision}
use agentcreds.Approval.Directory.{seconds_le}
use agentcreds.Adr.{
  Decision, allow, deny, DecisionKind, Signal, decision_as_str, decision_kind_as_str, signal_as_str,
  mint, attenuate, verify, verify_rooted, presentation, revocation, scope_widening_attempt,
  delegation_depth_exceeded, expired, revoked, issuer_mismatch, unrooted_authority,
  signature_invalid, action_denied, proof_of_possession_failed, other,
}
use agentcreds.Adr.Names.{
  decision_kind_as_str-injective, signal_as_str-injective, decision_as_str-injective,
}
use agentcreds.Adr.Record.{
  AuthzDecision, or_empty, signal_fields, opt_u64, decision_name, accountability_bytes,
  outcome_bytes, decision_bytes, decision_digest, digest_domain,
}

abbrev pub FitsU64 : Option ℕ → Type 0
FitsU64 none = Unit
FitsU64 (some v) = v < 2 ^ 64

-- The numbers are of their machine widths and the strings shorter than 2 ^ 64 bytes.
pub record IsSized (d : AuthzDecision) : Type 0 where
  pub id : Fits d.id
  pub timestamp : d.timestamp / 10 ^ 9 < 2 ^ 64
  pub subject_did : Fits d.subject_did
  pub root_agent_did : Fits d.root_agent_did
  pub issuer_did : Fits d.issuer_did
  pub vc_id : Fits d.vc_id
  pub action : Fits (or_empty d.action)
  pub reason : Fits (or_empty d.reason)
  pub principal_did : FitsOpt d.principal_did
  pub accountable_party : FitsOpt d.accountable_party
  pub accountability_source : FitsOpt d.accountability_source
  pub party_version : FitsU64 d.party_version
  pub party_commitment : FitsOpt d.party_commitment
  pub depth : d.depth < 2 ^ 32
  pub max_depth : d.max_depth < 2 ^ 32
  pub signals : length d.signals < 2 ^ 64

pub record SameAccountability (a b : AuthzDecision) : Type 0 where
  pub principal_did : a.principal_did ≡ b.principal_did
  pub accountable_party : a.accountable_party ≡ b.accountable_party
  pub accountability_source : a.accountability_source ≡ b.accountability_source
  pub party_version : a.party_version ≡ b.party_version
  pub party_commitment : a.party_commitment ≡ b.party_commitment
  pub evaluation : a.evaluation ≡ b.evaluation
  pub admission : a.admission ≡ b.admission

pub record SameOutcome (a b : AuthzDecision) : Type 0 where
  pub depth : a.depth ≡ b.depth
  pub max_depth : a.max_depth ≡ b.max_depth
  pub signals : a.signals ≡ b.signals
  pub reason : or_empty a.reason ≡ or_empty b.reason
  pub accountability : SameAccountability a b

pub record SameContent (a b : AuthzDecision) : Type 0 where
  pub id : a.id ≡ b.id
  pub second : a.timestamp / 10 ^ 9 ≡ b.timestamp / 10 ^ 9
  pub kind : a.kind ≡ b.kind
  pub decision : a.decision ≡ b.decision
  pub subject_did : a.subject_did ≡ b.subject_did
  pub root_agent_did : a.root_agent_did ≡ b.root_agent_did
  pub issuer_did : a.issuer_did ≡ b.issuer_did
  pub vc_id : a.vc_id ≡ b.vc_id
  pub action : or_empty a.action ≡ or_empty b.action
  pub outcome : SameOutcome a b

kind-Fits : (k : DecisionKind) → Fits (decision_kind_as_str k)
kind-Fits mint = omega arith
kind-Fits attenuate = omega arith
kind-Fits verify = omega arith
kind-Fits verify_rooted = omega arith
kind-Fits presentation = omega arith
kind-Fits revocation = omega arith

decision-Fits : (d : Decision) → Fits (decision_as_str d)
decision-Fits allow = omega arith
decision-Fits deny = omega arith

signal-Fits : (s : Signal) → Fits (signal_as_str s)
signal-Fits scope_widening_attempt = omega arith
signal-Fits delegation_depth_exceeded = omega arith
signal-Fits expired = omega arith
signal-Fits revoked = omega arith
signal-Fits issuer_mismatch = omega arith
signal-Fits unrooted_authority = omega arith
signal-Fits signature_invalid = omega arith
signal-Fits action_denied = omega arith
signal-Fits proof_of_possession_failed = omega arith
signal-Fits other = omega arith

name-FitsOpt : (o : Option Decision) → FitsOpt (decision_name o)
name-FitsOpt none = tt
name-FitsOpt (some d) = decision-Fits d

decision_name-injective : (a b : Option Decision) → decision_name a ≡ decision_name b → a ≡ b
decision_name-injective none none e = refl
decision_name-injective none (some d) e = cc
decision_name-injective (some d) none e = cc
decision_name-injective (some a) (some b) e =
    ap some (decision_as_str-injective a b (some-injective e))

opt_u64_injective :
    (a b : Option ℕ) (xs ys : Text)
    → FitsU64 a
    → FitsU64 b
    → opt_u64 a ++ xs ≡ opt_u64 b ++ ys
    → (a ≡ b) × (xs ≡ ys)
unfolding opt_u64 u64_le
opt_u64_injective none none xs ys ha hb e = (refl, ground arith)
opt_u64_injective none (some b) xs ys ha hb e = absurd (ground arith)
opt_u64_injective (some a) none xs ys ha hb e = absurd (ground arith)
opt_u64_injective (some a) (some b) xs ys ha hb e =
    let (same, rest) = le_bytes_injective 8 a b xs ys ha hb (ground arith) in (ap some same, rest)

-- The fields of two lists of signals of one length.
signal_fields_injective :
    (ss ts : List Signal) (xs ys : Text)
    → length ss ≡ length ts
    → signal_fields ss ++ xs ≡ signal_fields ts ++ ys
    → (ss ≡ ts) × (xs ≡ ys)
unfolding signal_fields
signal_fields_injective [] [] xs ys l e = (refl, e)
signal_fields_injective [] (t ∷ ts) xs ys l e = absurd (omega arith)
signal_fields_injective (s ∷ ss) [] xs ys l e = absurd (omega arith)
signal_fields_injective (s ∷ ss) (t ∷ ts) xs ys l e =
    let (name, e₁) =
      hash_field_injective (signal_as_str s) (signal_as_str t) (signal_fields ss ++ xs)
        (signal_fields ts ++ ys) (signal-Fits s) (signal-Fits t)
        (ground (
          arith,
          e,
          append_assoc (hash_field (signal_as_str s)) (signal_fields ss) xs,
          append_assoc (hash_field (signal_as_str t)) (signal_fields ts) ys,
        )) in
    let (rest, e₂) = signal_fields_injective ss ts xs ys (omega arith) e₁ in
    (ground (arith, signal_as_str-injective s t name, rest), e₂)

accountability_bytes_injective :
    (a b : AuthzDecision)
    → IsSized a
    → IsSized b
    → accountability_bytes a ≡ accountability_bytes b
    → SameAccountability a b
unfolding accountability_bytes
accountability_bytes_injective a b ha hb e =
    let (e₁, r₁) =
      opt_field_injective a.principal_did b.principal_did _ _ ha.principal_did hb.principal_did e in
    let (e₂, r₂) =
      opt_field_injective a.accountable_party b.accountable_party _ _ ha.accountable_party
        hb.accountable_party r₁ in
    let (e₃, r₃) =
      opt_field_injective a.accountability_source b.accountability_source _ _
        ha.accountability_source hb.accountability_source r₂ in
    let (e₄, r₄) =
      opt_u64_injective a.party_version b.party_version _ _ ha.party_version hb.party_version r₃ in
    let (e₅, r₅) =
      opt_field_injective a.party_commitment b.party_commitment _ _ ha.party_commitment
        hb.party_commitment r₄ in
    let (e₆, r₆) =
      opt_field_injective (decision_name a.evaluation) (decision_name b.evaluation) _ _
        (name-FitsOpt a.evaluation) (name-FitsOpt b.evaluation) r₅ in
    let e₇ =
      opt_field_injective_end (decision_name a.admission) (decision_name b.admission)
        (name-FitsOpt a.admission) (name-FitsOpt b.admission) r₆ in
    record {
      principal_did = e₁;
      accountable_party = e₂;
      accountability_source = e₃;
      party_version = e₄;
      party_commitment = e₅;
      evaluation = decision_name-injective a.evaluation b.evaluation e₆;
      admission = decision_name-injective a.admission b.admission e₇;
    }

outcome_bytes_injective :
    (a b : AuthzDecision)
    → IsSized a
    → IsSized b
    → outcome_bytes a ≡ outcome_bytes b
    → SameOutcome a b
unfolding outcome_bytes u64_le
outcome_bytes_injective a b ha hb e =
    let (e₁, r₁) = le_bytes_injective 4 a.depth b.depth _ _ ha.depth hb.depth e in
    let (e₂, r₂) = le_bytes_injective 4 a.max_depth b.max_depth _ _ ha.max_depth hb.max_depth r₁ in
    let (len, r₃) =
      le_bytes_injective 8 (length a.signals) (length b.signals) _ _ ha.signals hb.signals r₂ in
    let (e₄, r₄) = signal_fields_injective a.signals b.signals _ _ len r₃ in
    let (e₅, r₅) =
      hash_field_injective (or_empty a.reason) (or_empty b.reason) _ _ ha.reason hb.reason r₄ in
    record {
      depth = e₁;
      max_depth = e₂;
      signals = e₄;
      reason = e₅;
      accountability = accountability_bytes_injective a b ha hb r₅;
    }

decision_bytes_injective :
    (a b : AuthzDecision)
    → IsSized a
    → IsSized b
    → decision_bytes a ≡ decision_bytes b
    → SameContent a b
unfolding decision_bytes seconds_le u64_le
decision_bytes_injective a b ha hb e =
    let (_, r₀) = append_injective digest_domain digest_domain _ _ refl e in
    let (e₁, r₁) = hash_field_injective a.id b.id _ _ ha.id hb.id r₀ in
    let (e₂, r₂) =
      le_bytes_injective 8 (a.timestamp / 10 ^ 9) (b.timestamp / 10 ^ 9) _ _ ha.timestamp
        hb.timestamp r₁ in
    let (e₃, r₃) =
      hash_field_injective (decision_kind_as_str a.kind) (decision_kind_as_str b.kind) _ _
        (kind-Fits a.kind) (kind-Fits b.kind) r₂ in
    let (e₄, r₄) =
      hash_field_injective (decision_as_str a.decision) (decision_as_str b.decision) _ _
        (decision-Fits a.decision) (decision-Fits b.decision) r₃ in
    let (e₅, r₅) =
      hash_field_injective a.subject_did b.subject_did _ _ ha.subject_did hb.subject_did r₄ in
    let (e₆, r₆) =
      hash_field_injective a.root_agent_did b.root_agent_did _ _ ha.root_agent_did hb.root_agent_did
        r₅ in
    let (e₇, r₇) =
      hash_field_injective a.issuer_did b.issuer_did _ _ ha.issuer_did hb.issuer_did r₆ in
    let (e₈, r₈) = hash_field_injective a.vc_id b.vc_id _ _ ha.vc_id hb.vc_id r₇ in
    let (e₉, r₉) =
      hash_field_injective (or_empty a.action) (or_empty b.action) _ _ ha.action hb.action r₈ in
    record {
      id = e₁;
      second = e₂;
      kind = decision_kind_as_str-injective a.kind b.kind e₃;
      decision = decision_as_str-injective a.decision b.decision e₄;
      subject_did = e₅;
      root_agent_did = e₆;
      issuer_did = e₇;
      vc_id = e₈;
      action = e₉;
      outcome = outcome_bytes_injective a b ha hb r₉;
    }

-- Two decisions, their numbers within the machine widths and their strings shorter than 2 ^ 64 bytes,
-- with one digest have the same content, or their bytes are a collision. Same are all fields but the
-- sequence number, the time to the second, and the action and the reason with an absent one as empty.
pub decision_digest-SameContent :
    (c : Crypto) (a b : AuthzDecision)
    → IsSized a
    → IsSized b
    → decision_digest c a ≡ decision_digest c b
    → SameContent a b ⊎ IsShaCollision c (decision_bytes a) (decision_bytes b)
unfolding decision_digest
decision_digest-SameContent c a b ha hb e =
    elim (equal_or_collision c (decision_bytes a) (decision_bytes b) e) [
      | inl same ↦ inl (decision_bytes_injective a b ha hb same)
      | inr collision ↦ inr collision
    ]

-- An absent action and an empty one, and an absent reason and an empty one, are not told apart: a
-- decision and the decision with both written as empty have one digest.
pub absent_and_empty_collide :
    (c : Crypto) (d : AuthzDecision)
    → d.action ≡ none
    → d.reason ≡ none
    → decision_digest c (record d { action = some []; reason = some [] }) ≡ decision_digest c d
unfolding decision_digest decision_bytes outcome_bytes accountability_bytes
absent_and_empty_collide c d ha hr = rw (ha, hr) refl
