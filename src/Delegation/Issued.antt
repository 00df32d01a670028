-- ===== src/Delegation/Issued.antt =====
-- The tokens that `mint` and `attenuate` can produce from a credential, and what their Biscuits hold.
use agentcreds.Prelude.{
  ℕ, ◌≡◌, sym, ◌∙◌, ap, true, false, not, leb, some, List, [], ◌∷◌, ◌++◌, arith,
}
use agentcreds.Outcome.{ok, >>=-eq-ok, guard-eq-ok, ok_or-eq-ok, ok_or, invalid_biscuit_signature}
use agentcreds.Text.{Text}
use agentcreds.Did.{AgentIdentity}
use agentcreds.Credential.{CapabilityCredential}
use agentcreds.Datalog.{Fact, Block}
use agentcreds.Biscuit.{Biscuit}
use agentcreds.Delegation.Scope.{Scope}
use agentcreds.Delegation.Statements.{
  Statement, facts_of, checks_of, add_all, add_all-content, empty_block,
}
use agentcreds.Delegation.Token.{
  depth, Hop, DelegationToken, unhydrated, first, last, bz, parse, hydrate, hydrate_from, secret_ok,
  pubkey_ok,
}
use agentcreds.Delegation.Mint.{mint, mint_guards, mint_expiry, authority_statements, root_hop}
use agentcreds.Delegation.Attenuate.{attenuate, narrows, hop_expiry, hop_statements, next_hop}

-- A scope and the instant at which it ends.
pub record Grant : Type 0 where
  pub scope : Scope
  pub expires_at : ℕ

-- The token comes from the credential by one `mint` and any number of `attenuate`, with the grants of
-- its hops, the leaf first.
pub data Issued (B : Biscuit) (vc : CapabilityCredential)
    : DelegationToken → List Grant → Type 1 where
  minted :
      {token : DelegationToken} (scope : Scope) (ttl_secs : ℕ) (agent : AgentIdentity) (now : ℕ)
      → mint B vc scope ttl_secs agent now ≡ ok token
      → Issued B vc token (record { scope = scope; expires_at = mint_expiry vc ttl_secs now } ∷ [])
  attenuated :
      {token child : DelegationToken} {grants : List Grant} (parent : Hop) (narrow : Scope)
      (ttl_secs : ℕ) (agent : AgentIdentity) (now : ℕ)
      → Issued B vc token grants
      → last token.hops ≡ some parent
      → attenuate B token narrow ttl_secs agent now ≡ ok child
      → Issued B vc child
          (record { scope = narrow; expires_at = hop_expiry parent ttl_secs now } ∷ grants)

-- A block holds exactly these statements.
pub record IsBuilt (b : Block) (ss : List Statement) : Type 0 where
  pub facts : b.facts ≡ facts_of ss
  pub checks : b.checks ≡ checks_of ss

-- The blocks of such a token.
pub data Content (vc : CapabilityCredential) : List Grant → List Block → Type 0 where
  root :
      (g : Grant) (b : Block)
      → IsBuilt b (authority_statements vc g.scope g.expires_at)
      → Content vc (g ∷ []) (b ∷ [])
  hop :
      {gs : List Grant} {bs : List Block} (g : Grant) (agent : AgentIdentity) (b : Block)
      (cs : List Block)
      → Content vc gs bs
      → IsBuilt b (hop_statements g.scope g.expires_at agent)
      → cs ≡ bs ++ b ∷ []
      → Content vc (g ∷ gs) cs

module _ (B : Biscuit) where
  hydrate_from-keeps :
      (facts : List Fact) (t : DelegationToken) {u : DelegationToken}
      → hydrate_from facts t ≡ ok u
      → (u.biscuit ≡ t.biscuit) × (u.hops ≡ t.hops)
  unfolding hydrate_from
  hydrate_from-keeps facts t h = ground arith

  -- `hydrate` fills in the cache and nothing else.
  pub hydrate-keeps :
      (t : DelegationToken) {u : DelegationToken}
      → hydrate B t ≡ ok u
      → (u.biscuit ≡ t.biscuit) × (u.hops ≡ t.hops)
  unfolding hydrate
  hydrate-keeps t h =
      let (parsed, _, h₁) = >>=-eq-ok (parse B t) _ h in
      let (facts, _, h₂) = >>=-eq-ok (bz (B.queried parsed.1)) _ h₁ in hydrate_from-keeps facts t h₂

  hydrate_new :
      (bytes : Text) (hops : List Hop) {u : DelegationToken}
      → hydrate B (unhydrated bytes hops) ≡ ok u
      → (u.biscuit ≡ bytes) × (u.hops ≡ hops)
  unfolding unhydrated
  hydrate_new bytes hops h = hydrate-keeps (unhydrated bytes hops) h

  -- A parsed token is read from its bytes, under its root hop's key.
  pub parse-from_vec :
      (token : DelegationToken) {h : Hop} {t : B.Token}
      → parse B token ≡ ok (h, t)
      → B.from_vec token.biscuit h.delegation_public ≡ some t
  unfolding parse
  parse-from_vec token e =
      let (first_hop, _, e₁) =
        >>=-eq-ok (ok_or (first token.hops) (invalid_biscuit_signature "empty token chain")) _ e in
      let (_, _, e₂) = >>=-eq-ok (pubkey_ok B first_hop.delegation_public) _ e₁ in
      let (t', read, e₃) =
        >>=-eq-ok (bz (B.from_vec token.biscuit first_hop.delegation_public)) _ e₂ in
      ground (arith, ok_or-eq-ok (B.from_vec token.biscuit first_hop.delegation_public) _ read)

  add_all-IsBuilt :
      (ss : List Statement) {b : Block} → add_all B ss empty_block ≡ ok b → IsBuilt b ss
  add_all-IsBuilt ss h =
      let (fs, ks) = add_all-content B ss empty_block h in record { facts = fs; checks = ks }

  -- What a successful `mint` has checked and built.
  pub record Minted (vc : CapabilityCredential) (scope : Scope) (ttl_secs : ℕ)
      (agent : AgentIdentity) (now : ℕ) (token : DelegationToken) : Type 1 where
    pub guards : mint_guards vc scope ttl_secs agent now ≡ ok tt
    pub block : Block
    pub built : IsBuilt block (authority_statements vc scope (mint_expiry vc ttl_secs now))
    pub biscuit : B.Token
    pub signed : B.build agent.delegation_key_ed25519 block ≡ some biscuit
    pub bytes : B.to_vec biscuit ≡ some token.biscuit
    pub hops : token.hops ≡ root_hop vc scope (mint_expiry vc ttl_secs now) now agent ∷ []

  pub mint-Minted :
      (vc : CapabilityCredential) (scope : Scope) (ttl_secs : ℕ) (agent : AgentIdentity) (now : ℕ)
      {token : DelegationToken}
      → mint B vc scope ttl_secs agent now ≡ ok token
      → Minted vc scope ttl_secs agent now token
  unfolding mint
  mint-Minted vc scope ttl_secs agent now h =
      let expires_at = mint_expiry vc ttl_secs now in
      let (_, guards, h₁) = >>=-eq-ok (mint_guards vc scope ttl_secs agent now) _ h in
      let (_, _, h₂) = >>=-eq-ok (secret_ok B agent.delegation_key_ed25519) _ h₁ in
      let (block, built, h₃) =
        >>=-eq-ok (add_all B (authority_statements vc scope expires_at) empty_block) _ h₂ in
      let (biscuit, signed, h₄) =
        >>=-eq-ok (bz (B.build agent.delegation_key_ed25519 block)) _ h₃ in
      let (bytes, written, h₅) = >>=-eq-ok (bz (B.to_vec biscuit)) _ h₄ in
      let (same, hops) = hydrate_new bytes (root_hop vc scope expires_at now agent ∷ []) h₅ in
      record {
        guards = guards;
        block = block;
        built = add_all-IsBuilt (authority_statements vc scope expires_at) built;
        biscuit = biscuit;
        signed = ok_or-eq-ok (B.build agent.delegation_key_ed25519 block) _ signed;
        bytes = ok_or-eq-ok (B.to_vec biscuit) _ written ∙ ap some (sym same);
        hops = hops;
      }

  -- What a successful `attenuate` has checked and built.
  pub record Attenuated (token : DelegationToken) (parent : Hop) (narrow : Scope) (ttl_secs : ℕ)
      (agent : AgentIdentity) (now : ℕ) (child : DelegationToken) : Type 1 where
    pub leaf : last token.hops ≡ some parent
    pub depth_left : leb token.root_max_depth_cache (depth token) ≡ false
    pub narrower : narrows token parent narrow ≡ true
    pub root_hop : Hop
    pub parent_biscuit : B.Token
    pub parsed : parse B token ≡ ok (root_hop, parent_biscuit)
    pub block : Block
    pub built : IsBuilt block (hop_statements narrow (hop_expiry parent ttl_secs now) agent)
    pub biscuit : B.Token
    pub appended :
        B.append_block parent_biscuit agent.delegation_key_ed25519 agent.delegation_public block
        ≡ some biscuit
    pub bytes : B.to_vec biscuit ≡ some child.biscuit
    pub hops :
        child.hops
        ≡ token.hops ++ next_hop parent narrow (hop_expiry parent ttl_secs now) now agent ∷ []

  pub attenuate-Attenuated :
      (token : DelegationToken) (narrow : Scope) (ttl_secs : ℕ) (agent : AgentIdentity) (now : ℕ)
      {child : DelegationToken}
      → attenuate B token narrow ttl_secs agent now ≡ ok child
      → (parent : Hop) × Attenuated token parent narrow ttl_secs agent now child
  unfolding attenuate
  attenuate-Attenuated token narrow ttl_secs agent now h =
      let (parent, leaf, h₁) =
        >>=-eq-ok (ok_or (last token.hops) (invalid_biscuit_signature "empty token chain")) _ h in
      let expires_at = hop_expiry parent ttl_secs now in
      let (deep, h₂) = guard-eq-ok (not (leb token.root_max_depth_cache (depth token))) _ _ h₁ in
      let (narrower, h₃) = guard-eq-ok (narrows token parent narrow) _ _ h₂ in
      let ((root_hop, parent_biscuit), parsed, h₄) = >>=-eq-ok (parse B token) _ h₃ in
      let (_, h₅) = guard-eq-ok (B.request_ok parent_biscuit) _ _ h₄ in
      let (block, built, h₆) =
        >>=-eq-ok (add_all B (hop_statements narrow expires_at agent) empty_block) _ h₅ in
      let (_, _, h₇) = >>=-eq-ok (secret_ok B agent.delegation_key_ed25519) _ h₆ in
      let (_, _, h₈) = >>=-eq-ok (pubkey_ok B agent.delegation_public) _ h₇ in
      let (biscuit, appended, h₉) =
        >>=-eq-ok
          (bz (
            B.append_block parent_biscuit agent.delegation_key_ed25519 agent.delegation_public
              block))
          _ h₈ in
      let (bytes, written, h₁₀) = >>=-eq-ok (bz (B.to_vec biscuit)) _ h₉ in
      let (same, hops) =
        hydrate_new bytes (token.hops ++ next_hop parent narrow expires_at now agent ∷ []) h₁₀ in
      (
        parent,
        record {
          leaf = ok_or-eq-ok (last token.hops) _ leaf;
          depth_left = ground (arith, deep);
          narrower = narrower;
          root_hop = root_hop;
          parent_biscuit = parent_biscuit;
          parsed = parsed;
          block = block;
          built = add_all-IsBuilt (hop_statements narrow expires_at agent) built;
          biscuit = biscuit;
          appended =
              ok_or-eq-ok
                (B.append_block parent_biscuit agent.delegation_key_ed25519 agent.delegation_public
                  block)
                _ appended;
          bytes = ok_or-eq-ok (B.to_vec biscuit) _ written ∙ ap some (sym same);
          hops = hops;
        },
      )
