-- ===== src/Biscuit.antt =====
-- The biscuit-auth crate, as agentcreds-core/src/delegation/mod.rs uses it: keys, building and
-- appending signed blocks, parsing, fact queries and authorization.
use agentcreds.Prelude.{ℕ, ◌≡◌, Bool, true, Option, some, List, [], ◌∷◌, ◌++◌}
use agentcreds.Text.{Text}
use agentcreds.Datalog.{Fact, Check, Block, token_passes}

pub record Biscuit : Type 1 where
  pub Token : Type 0
  -- `PublicKey::from_bytes` and `PrivateKey::from_bytes` accept the bytes.
  pub public_key_ok : Text → Bool
  pub private_key_ok : Text → Bool
  -- The builders parse the text of a statement.
  pub parses_fact : Fact → Bool
  pub parses_check : Check → Bool
  -- `BiscuitBuilder::build` with a private key; `to_vec`; `Biscuit::from` with the root public key.
  pub build : Text → Block → Option Token
  pub to_vec : Token → Option Text
  pub from_vec : Text → Text → Option Token
  -- `third_party_request` succeeds; `create_block` with a private key and `append_third_party` with
  -- its public key.
  pub request_ok : Token → Bool
  pub append_block : Token → Text → Text → Block → Option Token
  pub block_count : Token → ℕ
  pub external_public_keys : Token → List (Option Text)
  -- The facts that the queries of a fresh authorizer range over.
  pub queried : Token → Option (List Fact)
  -- `authorize` under `allow if true`, with the facts of the request.
  pub authorize : Token → List Fact → Bool

-- What the crate documents. `blocks` is the content of a token.
pub record BiscuitLaws (B : Biscuit) : Type 0 where
  pub blocks : B.Token → List Block
  pub blocks-build :
      (sk : Text) (b : Block) (t : B.Token) → B.build sk b ≡ some t → blocks t ≡ b ∷ []
  pub blocks-append_block :
      (t u : B.Token) (sk pk : Text) (b : Block)
      → B.append_block t sk pk b ≡ some u
      → blocks u ≡ blocks t ++ b ∷ []
  pub blocks-from_vec :
      (t u : B.Token) (bytes pk : Text)
      → B.to_vec t ≡ some bytes
      → B.from_vec bytes pk ≡ some u
      → blocks u ≡ blocks t
  -- An authorization succeeds only if every check of every block holds.
  pub authorize-sound :
      (t : B.Token) (request : List Fact)
      → B.authorize t request ≡ true
      → token_passes request (blocks t) ≡ true
