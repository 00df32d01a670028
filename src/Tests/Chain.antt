-- ===== src/Tests/Chain.antt =====
-- A run: agent 1's organization grants agent 2 two tools, agent 2 mints a token and attenuates it for
-- agent 3, whose request verifies.
use agentcreds.Prelude.{◌≡◌, refl, true, none, some, List, [], ◌∷◌}
use agentcreds.Outcome.{ok}
use agentcreds.Text.{Text, codes}
use agentcreds.Gate.{approval_gate}
use agentcreds.Action.{Action}
use agentcreds.Delegation.Token.{
  Hop, DelegationToken, unhydrated, hydrate, last, parse, depth, min_expiry,
}
use agentcreds.Delegation.Mint.{mint, mint_guards, authority_statements}
use agentcreds.Delegation.Statements.{add_all, empty_block}
use agentcreds.Delegation.Mint
use native.Mathlib.Decide.{ℕ_discrete}
use agentcreds.Delegation.Attenuate.{attenuate, narrows, hop_statements, next_hop, hop_expiry}
use agentcreds.Delegation.Verify.{
  verify_inner, parse_and_check_identity, authorize_action, check_expiry, check_principal,
}
use agentcreds.Delegation.Issued.{Issued, minted, attenuated}
use agentcreds.Tests.Toy.{toy, agent, search, email, start, credential}
use agentcreds.Tests.ToyBiscuit
use agentcreds.Tests.ToyBiscuit.{
  leaf_token as leaf_bytes, token_discrete, write, toy_biscuit, toy_biscuit_laws, block_of,
  root_scope, narrow_scope, root_expiry, leaf_expiry,
}

abbrev pub root_hop : Hop
root_hop = record {
  agent_did = (agent 2).did;
  delegation_public = (agent 2).delegation_public;
  attestation = (agent 2).delegation_attestation;
  tools = search ∷ email ∷ [];
  resources = [];
  budget_usd = some 500;
  max_action_cost = none;
  issued_at = start;
  expires_at = root_expiry;
  depth = 0;
}

abbrev pub leaf_hop : Hop
leaf_hop = record {
  agent_did = (agent 3).did;
  delegation_public = (agent 3).delegation_public;
  attestation = (agent 3).delegation_attestation;
  tools = search ∷ [];
  resources = [];
  budget_usd = some 200;
  max_action_cost = none;
  issued_at = start;
  expires_at = leaf_expiry;
  depth = 1;
}

abbrev pub cached : Text → List Hop → DelegationToken
cached bytes hops = record {
  biscuit = bytes;
  hops = hops;
  vc_id_cache = credential.id;
  issuer_cache = credential.issuer;
  subject_cache = (agent 2).did;
  root_tools_cache = search ∷ email ∷ [];
  root_budget_cache = some 500;
  root_max_action_cost_cache = none;
  root_max_depth_cache = 2;
  principal_cache = none;
  root_resources_cache = [];
  gates_cache = approval_gate search ∷ [];
}

abbrev pub root_token : DelegationToken
root_token = cached [] (root_hop ∷ [])

abbrev pub leaf_token : DelegationToken
leaf_token = cached (0 ∷ []) (root_hop ∷ leaf_hop ∷ [])

abbrev pub request : Action
request = record {
  tool = search;
  parameters = [];
  timestamp = start;
  resource = none;
  acting_for = none;
  cost = none;
}

guarded : mint_guards credential root_scope 600 (agent 2) start ≡ ok tt
unfolding mint_guards agentcreds.Credential.is_valid_at agentcreds.Text.text_eq
    agentcreds.Credential.Claims.max_token_ttl_secs agentcreds.Credential.Claims.new_claims
    agentcreds.Delegation.Scope.is_subset_of agentcreds.Text.is_subset
    agentcreds.Delegation.Scope.with_budget_and_depth agentcreds.Text.contains
    agentcreds.Delegation.Mint.vc_scope agentcreds.Delegation.Scope.within
    agentcreds.Delegation.Scope.cap_tightens agentcreds.Delegation.Mint.within_ceiling
    agentcreds.Delegation.Mint.within_consent
guarded = refl

hydrated : hydrate toy_biscuit (unhydrated [] (root_hop ∷ [])) ≡ ok root_token
unfolding hydrate agentcreds.Delegation.Token.parse unhydrated
    agentcreds.Delegation.Token.hydrate_from agentcreds.Datalog.select
    agentcreds.Datalog.authority_facts agentcreds.Delegation.Statements.facts_of
    authority_statements agentcreds.Text.sort_texts agentcreds.Delegation.Mint.budget_statements
    agentcreds.Delegation.Token.least agentcreds.Delegation.Token.as_u32
    agentcreds.Delegation.Token.dedup_gates agentcreds.Delegation.Scope.with_budget_and_depth
    agentcreds.Delegation.Token.sort_gates agentcreds.Delegation.Mint.cap_statements
    agentcreds.Text.insert_sorted agentcreds.Text.text_le
    agentcreds.Delegation.Mint.principal_statements agentcreds.Credential.Claims.new_claims
    agentcreds.Delegation.Mint.resource_check agentcreds.Delegation.Token.insert_gate
hydrated = refl

built :
    add_all toy_biscuit (authority_statements credential root_scope root_expiry) empty_block
    ≡ ok (block_of (authority_statements credential root_scope root_expiry))
unfolding add_all authority_statements agentcreds.Delegation.Statements.all_quotable
    agentcreds.Delegation.Statements.strings agentcreds.Delegation.Statements.quotable
    agentcreds.Delegation.Statements.parses agentcreds.Delegation.Mint.budget_statements
    agentcreds.Delegation.Scope.with_budget_and_depth agentcreds.Delegation.Mint.cap_statements
    agentcreds.Text.sort_texts agentcreds.Text.insert_sorted agentcreds.Text.text_le
    agentcreds.Delegation.Mint.principal_statements agentcreds.Credential.Claims.new_claims
    agentcreds.Delegation.Mint.resource_check agentcreds.Delegation.Statements.extend
    agentcreds.Delegation.Statements.facts_of agentcreds.Delegation.Statements.checks_of
    agentcreds.Delegation.Statements.illegal_char approval_gate
built = refl

written :
    write (record {
      content = block_of (authority_statements credential root_scope root_expiry) ∷ [];
      signers = none ∷ [];
    })
    ≡ some []
unfolding token_discrete ℕ_discrete authority_statements
    agentcreds.Delegation.Statements.all_quotable agentcreds.Delegation.Statements.strings
    agentcreds.Delegation.Statements.quotable agentcreds.Delegation.Statements.parses
    agentcreds.Delegation.Mint.budget_statements agentcreds.Delegation.Scope.with_budget_and_depth
    agentcreds.Delegation.Mint.cap_statements agentcreds.Text.sort_texts
    agentcreds.Text.insert_sorted agentcreds.Text.text_le
    agentcreds.Delegation.Mint.principal_statements agentcreds.Credential.Claims.new_claims
    agentcreds.Delegation.Mint.resource_check agentcreds.Delegation.Statements.extend
    agentcreds.Delegation.Statements.facts_of agentcreds.Delegation.Statements.checks_of
    agentcreds.Delegation.Statements.illegal_char approval_gate
written = refl

first_hop : Mint.root_hop credential root_scope root_expiry start (agent 2) ≡ root_hop
unfolding Mint.root_hop agentcreds.Text.sort_texts agentcreds.Delegation.Mint.budget_statements
    agentcreds.Delegation.Token.least agentcreds.Delegation.Token.as_u32
    agentcreds.Delegation.Token.dedup_gates agentcreds.Delegation.Scope.with_budget_and_depth
    agentcreds.Delegation.Token.sort_gates agentcreds.Delegation.Mint.cap_statements
    agentcreds.Text.insert_sorted agentcreds.Text.text_le
    agentcreds.Delegation.Mint.principal_statements agentcreds.Credential.Claims.new_claims
    agentcreds.Delegation.Mint.resource_check
first_hop = refl

pub minting : mint toy_biscuit credential root_scope 600 (agent 2) start ≡ ok root_token
unfolding mint Mint.mint_expiry
minting = rw (guarded, built, written, first_hop, hydrated)

narrowed : narrows root_token root_hop narrow_scope ≡ true
unfolding narrows agentcreds.Delegation.Scope.is_subset_of agentcreds.Text.is_subset
    agentcreds.Delegation.Scope.with_budget_and_depth agentcreds.Text.contains
    agentcreds.Delegation.Scope.within agentcreds.Delegation.Scope.cap_tightens
narrowed = refl

pub parsed : parse toy_biscuit root_token ≡ ok (root_hop, ToyBiscuit.root_token)
unfolding parse
parsed = refl

built_hop :
    add_all toy_biscuit (hop_statements narrow_scope leaf_expiry (agent 3)) empty_block
    ≡ ok (block_of (hop_statements narrow_scope leaf_expiry (agent 3)))
unfolding add_all hop_statements agentcreds.Delegation.Statements.all_quotable
    agentcreds.Delegation.Statements.strings agentcreds.Delegation.Statements.quotable
    agentcreds.Delegation.Statements.parses agentcreds.Text.sort_texts
    agentcreds.Delegation.Scope.with_budget_and_depth agentcreds.Text.insert_sorted
    Mint.resource_check Mint.cap_statements agentcreds.Delegation.Statements.extend
    agentcreds.Delegation.Statements.facts_of agentcreds.Delegation.Statements.checks_of
built_hop = refl

written_hop : write leaf_bytes ≡ some (0 ∷ [])
unfolding token_discrete agentcreds.Delegation.Statements.facts_of authority_statements ℕ_discrete
    agentcreds.Delegation.Scope.with_budget_and_depth Mint.budget_statements Mint.cap_statements
    agentcreds.Text.sort_texts agentcreds.Text.insert_sorted agentcreds.Text.text_le
    Mint.principal_statements agentcreds.Credential.Claims.new_claims Mint.resource_check
    agentcreds.Delegation.Statements.checks_of hop_statements approval_gate
written_hop = refl

second_hop : next_hop root_hop narrow_scope leaf_expiry start (agent 3) ≡ leaf_hop
unfolding next_hop agentcreds.Text.sort_texts agentcreds.Delegation.Scope.with_budget_and_depth
    agentcreds.Text.insert_sorted
second_hop = refl

rehydrated : hydrate toy_biscuit (unhydrated (0 ∷ []) (root_hop ∷ leaf_hop ∷ [])) ≡ ok leaf_token
unfolding hydrate parse unhydrated agentcreds.Delegation.Token.hydrate_from
    agentcreds.Datalog.select agentcreds.Datalog.authority_facts
    agentcreds.Delegation.Statements.facts_of authority_statements agentcreds.Text.sort_texts
    Mint.budget_statements agentcreds.Delegation.Token.least agentcreds.Delegation.Token.as_u32
    agentcreds.Delegation.Token.dedup_gates agentcreds.Delegation.Scope.with_budget_and_depth
    agentcreds.Delegation.Token.sort_gates Mint.cap_statements agentcreds.Text.insert_sorted
    agentcreds.Text.text_le Mint.principal_statements agentcreds.Credential.Claims.new_claims
    Mint.resource_check agentcreds.Delegation.Token.insert_gate
rehydrated = refl

pub attenuating : attenuate toy_biscuit root_token narrow_scope 300 (agent 3) start ≡ ok leaf_token
unfolding attenuate hop_expiry depth
attenuating = rw (narrowed, parsed, built_hop, written_hop, second_hop, rehydrated)

pub identified : parse_and_check_identity toy toy_biscuit leaf_token none ≡ ok leaf_bytes
unfolding parse_and_check_identity parse agentcreds.Text.text_eq
    agentcreds.Delegation.Verify.check_hops agentcreds.Did.verify_delegation_attestation_resolved
    agentcreds.Did.primary_key agentcreds.Text.starts_with agentcreds.Did.public_key_from_did_key
    agentcreds.Text.strip_prefix agentcreds.Did.key_of_codec agentcreds.Did.verify
    agentcreds.Did.verify_by agentcreds.Did.verify_ed25519 agentcreds.Delegation.Verify.check_signer
identified = refl

pub authorized : authorize_action toy toy_biscuit leaf_bytes request start ≡ ok tt
unfolding authorize_action add_all agentcreds.Delegation.Verify.request_statements
    agentcreds.Delegation.Statements.all_quotable agentcreds.Delegation.Statements.strings
    agentcreds.Delegation.Statements.parses agentcreds.Delegation.Statements.quotable
    agentcreds.Delegation.Statements.illegal_char agentcreds.Delegation.Statements.extend
    agentcreds.Datalog.token_passes agentcreds.Datalog.blocks_pass agentcreds.Datalog.all_hold
    agentcreds.Datalog.authority_facts agentcreds.Datalog.holds agentcreds.Datalog.meets
    agentcreds.Datalog.select agentcreds.Datalog.some_at_most agentcreds.Text.contains
    agentcreds.Text.text_eq agentcreds.Text.text_le agentcreds.Text.insert_sorted
    agentcreds.Text.sort_texts agentcreds.Delegation.Statements.facts_of
    agentcreds.Delegation.Statements.checks_of authority_statements hop_statements
    Mint.budget_statements Mint.cap_statements Mint.principal_statements Mint.resource_check
    agentcreds.Delegation.Scope.with_budget_and_depth agentcreds.Credential.Claims.new_claims
authorized = refl

pub verifying : verify_inner toy toy_biscuit leaf_token request none start ≡ ok tt
unfolding verify_inner depth min_expiry check_expiry check_principal
verifying = rw (identified, authorized)

pub root-Issued :
    Issued toy_biscuit credential root_token
      (record { scope = root_scope; expires_at = root_expiry } ∷ [])
unfolding Mint.mint_expiry
root-Issued = minted root_scope 600 (agent 2) start minting

pub leaf-Issued : Issued toy_biscuit credential leaf_token (
    record { scope = narrow_scope; expires_at = leaf_expiry }
    ∷ record { scope = root_scope; expires_at = root_expiry }
    ∷ [])
unfolding hop_expiry
leaf-Issued = attenuated root_hop narrow_scope 300 (agent 3) start root-Issued refl attenuating
