-- ===== src/Credential/Claims.antt =====
-- The claims of a credential and their validation (`CapabilityClaims`, `PrincipalAuthorization`,
-- `AuthoritySource` and `PrincipalKind` of agentcreds-core/src/vc.rs).
use agentcreds.Prelude.{
  ℕ, ◌*◌, ◌^◌, Bool, true, false, Option, none, some, List, [], ◌∷◌, ◌++◌, ltb, leb, ◌==◌, not,
  if◌then◌else◌,
}
use agentcreds.Outcome.{
  Result, ok, err, ◌>>◌, guard, missing_field, out_of_bounds, consent_violation,
}
use agentcreds.Text.{Text, codes, text_eq, is_subset, first_outside}
use agentcreds.Gate.{Gate, approval_gate}

pub data AuthoritySource : Type 0 where
  asserted policy attested : AuthoritySource

unfoldable pub source_as_str : AuthoritySource → Text
source_as_str asserted = codes "asserted"
source_as_str policy = codes "policy"
source_as_str attested = codes "attested"

unfoldable pub source_parse : Text → Option AuthoritySource
source_parse s =
    if text_eq s (codes "asserted")
    then some asserted
    else if text_eq s (codes "policy")
    then some policy
    else if text_eq s (codes "attested")
    then some attested
    else none

unfoldable pub source_rank : AuthoritySource → ℕ
source_rank asserted = 0
source_rank policy = 1
source_rank attested = 2

unfoldable pub source_admits : AuthoritySource → AuthoritySource → Bool
unfolding source_rank
source_admits required other = leb (source_rank required) (source_rank other)

pub data PrincipalKind : Type 0 where
  human workload : PrincipalKind

unfoldable pub kind_as_str : PrincipalKind → Text
kind_as_str human = codes "human"
kind_as_str workload = codes "workload"

unfoldable pub kind_parse : Text → Option PrincipalKind
kind_parse s =
    if text_eq s (codes "human")
    then some human
    else if text_eq s (codes "workload")
    then some workload
    else none

pub record PrincipalAuthorization : Type 0 where
  pub principal_did : Text
  pub kind : PrincipalKind
  pub entitlement_source : AuthoritySource
  pub issuer : Text
  pub subject : Text
  pub authorized_at : ℕ
  pub expires_at : ℕ
  pub scope_consented : List Text
  pub resource_authority : List Text

unfoldable pub permits_tools : PrincipalAuthorization → List Text → Bool
permits_tools obo tools = elim obo.scope_consented [ [] ↦ true | t ∷ ts ↦ is_subset tools (t ∷ ts) ]

unfoldable pub first_unconsented_tool : PrincipalAuthorization → List Text → Option Text
first_unconsented_tool obo tools = elim obo.scope_consented [
  | [] ↦ none
  | t ∷ ts ↦ first_outside tools (t ∷ ts)
]

-- `autonomy_level` is a u8, `valid_for_secs` a u64, `budget_usd` and the depth u32.
pub record CapabilityClaims : Type 0 where
  pub tools : List Text
  pub resources : Option (List Text)
  pub budget_usd : Option ℕ
  pub max_delegation_depth : ℕ
  pub valid_for_secs : ℕ
  pub autonomy_level : ℕ
  pub model_version : Option Text
  pub artifact_hash : Option Text
  pub authorized_by : Option Text
  pub accountable_party : Option Text
  pub accountability_source : AuthoritySource
  pub party_version : Option ℕ
  pub party_commitment : Option Text
  pub on_behalf_of : Option PrincipalAuthorization
  pub required_gates : List Gate

unfoldable pub max_token_ttl_secs : ℕ → ℕ
max_token_ttl_secs level =
    if level == 0 then 3600 else if level == 1 then 1800 else if level == 2 then 900 else 300

-- A century.
abbrev pub max_valid_for_secs : ℕ
max_valid_for_secs = 100 * 365 * 24 * 3600

abbrev pub nanos : ℕ → ℕ
nanos secs = secs * 10 ^ 9

unfoldable pub new_claims : List Text → ℕ → ℕ → CapabilityClaims
new_claims tools depth secs = record {
  tools = tools;
  resources = none;
  budget_usd = none;
  max_delegation_depth = depth;
  valid_for_secs = secs;
  autonomy_level = 0;
  model_version = none;
  artifact_hash = none;
  authorized_by = none;
  accountable_party = none;
  accountability_source = asserted;
  party_version = none;
  party_commitment = none;
  on_behalf_of = none;
  required_gates = [];
}

unfoldable pub require_approval : CapabilityClaims → Text → CapabilityClaims
require_approval cl tool = record cl {
  required_gates = cl.required_gates ++ approval_gate tool ∷ [];
}

abbrev pub no_tools : List Text → Bool
no_tools [] = true
no_tools (t ∷ ts) = false

unfoldable pub refuse_tool : Option Text → Result (Unit {0})
refuse_tool none = ok tt
refuse_tool (some tool) = err (consent_violation tool)

unfoldable pub validate_principal : Option PrincipalAuthorization → List Text → Result (Unit {0})
unfolding refuse_tool first_unconsented_tool
validate_principal none tools = ok tt
validate_principal (some obo) tools = do
  guard (not (leb obo.expires_at obo.authorized_at)) (out_of_bounds "on_behalf_of.expires_at")
  refuse_tool (first_unconsented_tool obo tools)

unfoldable pub validate : CapabilityClaims → Result (Unit {0})
unfolding validate_principal
validate cl = do
  guard (not (no_tools cl.tools)) (missing_field "tools")
  guard (not (cl.valid_for_secs == 0)) (out_of_bounds "valid_for_secs")
  guard (not (ltb max_valid_for_secs cl.valid_for_secs)) (out_of_bounds "valid_for_secs")
  guard (not (ltb 10 cl.max_delegation_depth)) (out_of_bounds "max_delegation_depth")
  guard (not (ltb 3 cl.autonomy_level)) (out_of_bounds "autonomy_level")
  validate_principal cl.on_behalf_of cl.tools
