-- ===== src/Delegation/Attenuate.antt =====
-- `DelegationToken::attenuate`.
use Prim.Native.Nat.{min}
use agentcreds.Prelude.{ℕ, ◌+◌, ◌-◌, Bool, not, ◌&&◌, List, [], ◌∷◌, ◌++◌, leb, map}
use agentcreds.Outcome.{
  Result, ◌>>=◌, ◌>>◌, guard, ok_or, invalid_biscuit_signature, scope_widening_attempt,
  delegation_depth_exceeded,
}
use agentcreds.Text.{is_subset, first_outside, sort_texts}
use agentcreds.Did.{AgentIdentity}
use agentcreds.Credential.Claims.{max_valid_for_secs, nanos}
use agentcreds.Datalog
use agentcreds.Datalog.{operation_in, time_until}
use agentcreds.Biscuit.{Biscuit}
use agentcreds.Delegation.Scope.{Scope, with_budget_and_depth, is_subset_of}
use agentcreds.Delegation.Statements.{Statement, check, add_all, empty_block}
use agentcreds.Delegation.Token.{
  Hop, DelegationToken, unhydrated, last, depth, bz, secret_ok, pubkey_ok, parse, hydrate,
}
use agentcreds.Delegation.Mint.{
  or_budget, seconds, text_fact, cap_statements, resource_check, gate_fact,
}

-- The authority of the parent hop, with the tightest cap in force.
unfoldable pub parent_scope : DelegationToken → Hop → Scope
parent_scope token parent =
    record (with_budget_and_depth parent.tools parent.budget_usd
      (token.root_max_depth_cache - parent.depth)) {
        max_action_cost = token.root_max_action_cost_cache;
      }

unfoldable pub narrow_for_check : Scope → Scope → Scope
narrow_for_check narrow parent =
    record (with_budget_and_depth narrow.tools narrow.budget_usd
      (min narrow.max_depth parent.max_depth)) { max_action_cost = narrow.max_action_cost }

-- The scope-widening check.
unfoldable pub narrows : DelegationToken → Hop → Scope → Bool
unfolding parent_scope narrow_for_check
narrows token parent narrow =
    is_subset_of (narrow_for_check narrow (parent_scope token parent)) (parent_scope token parent)
    && is_subset narrow.tools parent.tools

unfoldable pub hop_expiry : Hop → ℕ → ℕ → ℕ
hop_expiry parent ttl_secs now =
    min parent.expires_at (now + nanos (min ttl_secs max_valid_for_secs))

-- The third-party block, statement by statement.
unfoldable pub hop_statements : Scope → ℕ → AgentIdentity → List Statement
hop_statements narrow expires_at agent =
    text_fact Datalog.Fact.hop agent.did
    ∷ check (sort_texts narrow.tools) (operation_in (sort_texts narrow.tools))
    ∷ check [] (time_until (seconds expires_at))
    ∷ (resource_check (sort_texts narrow.resources)
        ++ (cap_statements narrow.max_action_cost ++ map gate_fact narrow.gates))

unfoldable pub next_hop : Hop → Scope → ℕ → ℕ → AgentIdentity → Hop
next_hop parent narrow expires_at now agent = record {
  agent_did = agent.did;
  delegation_public = agent.delegation_public;
  attestation = agent.delegation_attestation;
  tools = sort_texts narrow.tools;
  resources = sort_texts narrow.resources;
  budget_usd = narrow.budget_usd;
  max_action_cost = narrow.max_action_cost;
  issued_at = now;
  expires_at = expires_at;
  depth = parent.depth + 1;
}

module _ (B : Biscuit) where
  unfoldable pub attenuate :
      DelegationToken → Scope → ℕ → AgentIdentity → ℕ → Result DelegationToken
  attenuate token narrow ttl_secs agent now = do
    parent ← ok_or (last token.hops) (invalid_biscuit_signature "empty token chain")
    guard (not (leb token.root_max_depth_cache (depth token)))
        (delegation_depth_exceeded (parent.depth + 1) token.root_max_depth_cache)
    guard (narrows token parent narrow)
        (scope_widening_attempt (or_budget (first_outside narrow.tools parent.tools)))
    let expires_at = hop_expiry parent ttl_secs now
    parsed ← parse B token
    guard (B.request_ok parsed.1) (invalid_biscuit_signature "biscuit")
    block ← add_all B (hop_statements narrow expires_at agent) empty_block
    secret_ok B agent.delegation_key_ed25519
    pubkey_ok B agent.delegation_public
    biscuit ←
        bz (B.append_block parsed.1 agent.delegation_key_ed25519 agent.delegation_public block)
    bytes ← bz (B.to_vec biscuit)
    hydrate B (unhydrated bytes (token.hops ++ next_hop parent narrow expires_at now agent ∷ []))
