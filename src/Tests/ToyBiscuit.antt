-- ===== src/Tests/ToyBiscuit.antt =====
-- A toy Biscuit crate that satisfies the documented laws: a token is its list of blocks, and two
-- tokens, one minted and one attenuated, have bytes. And one whose tokens have no checks.
use agentcreds.Prelude.{
  ℕ, ◌+◌, ◌^◌, ◌*◌, ◌≡◌, sym, ap, true, Option, none, some, List, [], ◌∷◌, ◌++◌, length, arith,
  some-injective,
}
use native.Mathlib.Decide.{ℕ_discrete}
use agentcreds.Text.{Text}
use agentcreds.Datalog.{Block, token_passes, authority_facts}
use agentcreds.Biscuit.{Biscuit, BiscuitLaws}
use agentcreds.Delegation.Scope.{Scope, with_budget_and_depth}
use agentcreds.Delegation.Statements.{Statement, facts_of, checks_of}
use agentcreds.Delegation.Mint.{authority_statements}
use agentcreds.Delegation.Attenuate.{hop_statements}
use agentcreds.Tests.Toy.{agent, credential, search, email, start}

-- Both tools for the agent that mints, one for the next.
abbrev pub root_scope : Scope
root_scope = with_budget_and_depth (search ∷ email ∷ []) (some 500) 2

abbrev pub narrow_scope : Scope
narrow_scope = with_budget_and_depth (search ∷ []) (some 200) 1

abbrev pub root_expiry : ℕ
root_expiry = start + 600 * 10 ^ 9

abbrev pub leaf_expiry : ℕ
leaf_expiry = start + 300 * 10 ^ 9

abbrev pub block_of : List Statement → Block
block_of ss = record { facts = facts_of ss; checks = checks_of ss }

abbrev pub root_blocks : List Block
root_blocks = block_of (authority_statements credential root_scope root_expiry) ∷ []

abbrev pub leaf_blocks : List Block
leaf_blocks = root_blocks ++ block_of (hop_statements narrow_scope leaf_expiry (agent 3)) ∷ []

pub record Token : Type 0 where
  pub content : List Block
  pub signers : List (Option Text)

unfoldable pub token_discrete : Discrete Token
token_discrete = hlevel ℕ_discrete

abbrev pub root_token : Token
root_token = record { content = root_blocks; signers = none ∷ [] }

abbrev pub leaf_token : Token
leaf_token = record {
  content = leaf_blocks;
  signers = none ∷ some (agent 3).delegation_public ∷ [];
}

abbrev pub read : Text → Option Token
read [] = some root_token
read (x ∷ xs) = some leaf_token

abbrev pub write : Token → Option Text
write t = elim (token_discrete t root_token) [
  | yes _ ↦ some []
  | no _ ↦ elim (token_discrete t leaf_token) [ yes _ ↦ some (0 ∷ []) | no _ ↦ none ]
]

abbrev pub toy_biscuit : Biscuit
toy_biscuit = record {
  Token = Token;
  public_key_ok = λ k. true;
  private_key_ok = λ k. true;
  parses_fact = λ f. true;
  parses_check = λ k. true;
  build = λ sk b. some (record { content = b ∷ []; signers = none ∷ [] });
  to_vec = write;
  from_vec = λ bytes pk. read bytes;
  request_ok = λ t. true;
  append_block = λ t sk pk b.
      some (record { content = t.content ++ b ∷ []; signers = t.signers ++ some pk ∷ [] });
  block_count = λ t. length t.content;
  external_public_keys = λ t. t.signers;
  queried = λ t. some (authority_facts t.content);
  authorize = λ t request. token_passes request t.content;
}

pub read-write : (t u : Token) (bytes : Text) → write t ≡ some bytes → read bytes ≡ some u → u ≡ t
read-write t u bytes w r = elim (token_discrete t root_token) [
  | yes e ↦ ground (arith, e)
  | no n ↦ elim (token_discrete t leaf_token) [ yes e ↦ ground (arith, e) | no m ↦ ground (arith) ]
]

abbrev pub toy_biscuit_laws : BiscuitLaws toy_biscuit
toy_biscuit_laws = record {
  blocks = λ t. t.content;
  blocks-build = λ sk b t e. ap (λ (u : Token). u.content) (sym (some-injective e));
  blocks-append_block = λ t u sk pk b e. ap (λ (v : Token). v.content) (sym (some-injective e));
  blocks-from_vec = λ t u bytes pk w r. ap (λ (v : Token). v.content) (read-write t u bytes w r);
  authorize-sound = λ t request e. e;
}
