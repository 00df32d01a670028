-- ===== src/Delegation/Narrowing.antt =====
-- Authority only narrows: a request that a token accepts is within every grant of its chain.
use agentcreds.Prelude.{
  some-injective, ℕ, zero, length, ◌==◌, false, ◌≡◌, refl, sym, ◌∙◌, ap, true, not, ltb, Option,
  List, [], ◌∷◌, ◌++◌, arith,
}
use mathlib.Core.Path.{subst}
use agentcreds.Outcome.{ok, >>=-eq-ok, guard-eq-ok}
use agentcreds.Text.{text_eq}
use agentcreds.Crypto.{Crypto}
use agentcreds.Did.{Resolver}
use agentcreds.Action.{Action}
use agentcreds.Credential.{CapabilityCredential}
use agentcreds.Datalog.{Fact, Block, all_hold, blocks_pass, token_passes}
use agentcreds.Datalog.Laws.{token_passes-append}
use agentcreds.Biscuit.{Biscuit, BiscuitLaws}
use agentcreds.Delegation.Statements.{add_all, add_all-content, empty_block}
use agentcreds.Delegation.Token.{Hop, DelegationToken, parse, depth, min_expiry}
use agentcreds.Delegation.Attenuate.{hop_expiry, hop_statements}
use agentcreds.Delegation.Verify.{
  verify_inner, check_hops, parse_and_check_identity, authorize_action, request_statements,
  check_expiry, check_principal,
}
use agentcreds.Delegation.Visible.{request_free, request_facts}
use agentcreds.Delegation.Permits.{
  Permits, authority-Permits, hop-Permits, authority-request_free, hop-request_free,
}
use agentcreds.Delegation.Issued.{
  Grant, Issued, minted, attenuated, Content, root, hop, IsBuilt, mint-Minted, attenuate-Attenuated,
  parse-from_vec,
}

-- The request is within every grant.
abbrev pub WithinAll : List Grant → Action → ℕ → Type 0
WithinAll [] action now = Unit
WithinAll (g ∷ gs) action now = Permits g.scope g.expires_at action now × WithinAll gs action now

-- The first block of a content, whose facts are of no request's kind.
pub record RootBlock (bs : List Block) : Type 0 where
  pub block : Block
  pub rest : List Block
  pub split : bs ≡ block ∷ rest
  pub free : request_free block.facts ≡ true

Content-RootBlock :
    {vc : CapabilityCredential} {gs : List Grant} {bs : List Block}
    → Content vc gs bs
    → RootBlock bs
Content-RootBlock {vc} (root g b built) = record {
  block = b;
  rest = [];
  split = refl;
  free = rw (built.facts) (authority-request_free vc g.scope g.expires_at);
}
Content-RootBlock (hop g agent b cs content built e) =
    let first = Content-RootBlock content in
    record {
      block = first.block;
      rest = first.rest ++ b ∷ [];
      split = e ∙ ap (λ (l : List Block). l ++ b ∷ []) first.split;
      free = first.free;
    }

single_block :
    (request : List Fact) (b : Block)
    → token_passes request (b ∷ []) ≡ true
    → all_hold ((request ++ b.facts) ++ b.facts) b.checks ≡ true
unfolding token_passes blocks_pass
single_block request b h = ground arith

Content-WithinAll :
    {vc : CapabilityCredential} {gs : List Grant} {bs : List Block} (action : Action) (now : ℕ)
    → Content vc gs bs
    → token_passes (request_facts action now) bs ≡ true
    → WithinAll gs action now
Content-WithinAll {vc} action now (root g b built) h =
    let free : request_free b.facts ≡ true =
      rw (built.facts) (authority-request_free vc g.scope g.expires_at) in
    (
      authority-Permits action now b.facts b.facts free free g.scope g.expires_at vc
          (rw built.checks at (single_block (request_facts action now) b h)),
      tt,
    )
Content-WithinAll action now (hop g agent b cs content built e) h =
    let first = Content-RootBlock content in
    let whole = e ∙ ap (λ (l : List Block). l ++ b ∷ []) first.split in
    let (before, own) =
      token_passes-append (request_facts action now) first.block first.rest b
        (subst (λ (l : List Block). token_passes (request_facts action now) l ≡ true) whole h) in
    let free : request_free b.facts ≡ true =
      rw (built.facts) (hop-request_free g.scope g.expires_at agent) in
    (
      hop-Permits action now first.block.facts b.facts first.free free g.scope g.expires_at agent
          (rw built.checks at own),
      Content-WithinAll action now content (
          subst (λ (l : List Block). token_passes (request_facts action now) l ≡ true)
            (sym first.split) before),
    )

-- A token whose identities check parses to the Biscuit that the check returns.
pub identity_parses :
    (c : Crypto) (B : Biscuit) (token : DelegationToken) (resolver : Option Resolver) {t : B.Token}
    → parse_and_check_identity c B token resolver ≡ ok t
    → (h : Hop) × (parse B token ≡ ok (h, t))
unfolding parse_and_check_identity
identity_parses c B token resolver e =
    let ((root_hop, biscuit), parsed, e₁) = >>=-eq-ok (parse B token) _ e in
    let (_, e₂) = guard-eq-ok (B.block_count biscuit == length token.hops) _ _ e₁ in
    let (_, e₃) = guard-eq-ok (text_eq token.subject_cache root_hop.agent_did) _ _ e₂ in
    let (_, _, e₄) =
      >>=-eq-ok (check_hops c B resolver (B.external_public_keys biscuit) zero token.hops) _ e₃ in
    (root_hop, ground (arith, parsed, e₄))

module _ (B : Biscuit) (L : BiscuitLaws B) where
  -- The Biscuit of an issued token holds the blocks of its grants.
  Issued-Content :
      {vc : CapabilityCredential} {token : DelegationToken} {gs : List Grant} (h : Hop)
      (t : B.Token)
      → Issued B vc token gs
      → parse B token ≡ ok (h, t)
      → Content vc gs (L.blocks t)
  Issued-Content {vc} {token} h t (minted scope ttl_secs agent now e) p =
      let m = mint-Minted B vc scope ttl_secs agent now e in
      let same =
        L.blocks-from_vec m.biscuit t token.biscuit h.delegation_public m.bytes
          (parse-from_vec B token p) in
      subst (Content vc _) (sym (same ∙ L.blocks-build _ m.block m.biscuit m.signed))
        (root _ m.block m.built)
  Issued-Content {vc} {token} h t
        (attenuated {token = before} parent narrow ttl_secs agent now issued leaf e) p =
      let (hop', a) = attenuate-Attenuated B before narrow ttl_secs agent now e in
      let same =
        L.blocks-from_vec a.biscuit t token.biscuit h.delegation_public a.bytes
          (parse-from_vec B token p) in
      let at_parent : hop' ≡ parent = some-injective (sym a.leaf ∙ leaf) in
      let built =
        subst
          (λ (q : Hop). IsBuilt a.block (hop_statements narrow (hop_expiry q ttl_secs now) agent))
          at_parent a.built in
      hop _ agent a.block (L.blocks t) (Issued-Content a.root_hop a.parent_biscuit issued a.parsed)
        built (same ∙ L.blocks-append_block a.parent_biscuit a.biscuit _ _ a.block a.appended)

  module _ (c : Crypto) where
    -- A token that is verified parses, and its authorizer accepts the request.
    pub record Accepted (token : DelegationToken) (action : Action) (now : ℕ) : Type 1 where
      pub root_hop : Hop
      pub biscuit : B.Token
      pub parsed : parse B token ≡ ok (root_hop, biscuit)
      pub passes : token_passes (request_facts action now) (L.blocks biscuit) ≡ true
      pub depth_within : ltb token.root_max_depth_cache (depth token) ≡ false
      pub live : check_expiry (min_expiry token.hops) now ≡ ok tt
      pub principal : check_principal token.principal_cache action ≡ ok tt

    authorize_action-passes :
        (t : B.Token) (action : Action) (now : ℕ)
        → authorize_action c B t action now ≡ ok tt
        → token_passes (request_facts action now) (L.blocks t) ≡ true
    unfolding authorize_action
    authorize_action-passes t action now v =
        let (request, built, v₁) =
          >>=-eq-ok (add_all B (request_statements action now) empty_block) _ v in
        let (accepted, _) = guard-eq-ok (B.authorize t request.facts) _ _ v₁ in
        let (facts, _) = add_all-content B (request_statements action now) empty_block built in
        L.authorize-sound t (request_facts action now) (ground (arith, facts, accepted))

    pub verify_inner-Accepted :
        (token : DelegationToken) (action : Action) (resolver : Option Resolver) (now : ℕ)
        → verify_inner c B token action resolver now ≡ ok tt
        → Accepted token action now
    unfolding verify_inner
    verify_inner-Accepted token action resolver now v =
        let (t, identity, v₁) = >>=-eq-ok (parse_and_check_identity c B token resolver) _ v in
        let (deep, v₂) = guard-eq-ok (not (ltb token.root_max_depth_cache (depth token))) _ _ v₁ in
        let (_, live, v₃) = >>=-eq-ok (check_expiry (min_expiry token.hops) now) _ v₂ in
        let (_, principal, v₄) = >>=-eq-ok (check_principal token.principal_cache action) _ v₃ in
        let (root_hop, parsed) = identity_parses c B token resolver identity in
        record {
          root_hop = root_hop;
          biscuit = t;
          parsed = parsed;
          passes = authorize_action-passes t action now v₄;
          depth_within = ground (arith, deep);
          live = ground (arith, live);
          principal = ground (arith, principal);
        }

    -- A token that `mint` and `attenuate` produced from a credential, through any number of hops,
    -- accepts a request only if the request is within the scope and the expiry of every hop.
    pub verify-WithinAll :
        {vc : CapabilityCredential} {token : DelegationToken} {grants : List Grant}
        (action : Action) (resolver : Option Resolver) (now : ℕ)
        → Issued B vc token grants
        → verify_inner c B token action resolver now ≡ ok tt
        → WithinAll grants action now
    verify-WithinAll {token} action resolver now issued v =
        let a = verify_inner-Accepted token action resolver now v in
        Content-WithinAll action now (Issued-Content a.root_hop a.biscuit issued a.parsed) a.passes
