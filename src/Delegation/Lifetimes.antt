-- ===== src/Delegation/Lifetimes.antt =====
-- Depths, expiries and tools along the hops of a token.
use agentcreds.Prelude.{
  some-injective, length-append, ℕ, ◌+◌, ◌≤◌, ◌<◌, ◌≡◌, refl, sym, ◌∙◌, ap, true, not, some, List,
  [], ◌∷◌, ◌++◌, ltb, length, arith,
}
use mathlib.Core.Path.{subst}
use agentcreds.Outcome.{ok, >>=-eq-ok, guard-eq-ok}
use agentcreds.Text.{text_eq, text_eq→eq, is_subset, is_subset-sort_texts}
use agentcreds.Did.{AgentIdentity}
use agentcreds.Credential.{CapabilityCredential, claims, subject_did, is_valid_at, on_behalf_of}
use agentcreds.Credential.Claims.{max_token_ttl_secs, nanos}
use agentcreds.Biscuit.{Biscuit}
use agentcreds.Delegation.Scope.{Scope, is_subset_of}
use agentcreds.Delegation.Scope.Order.{IsSubset, is_subset_of_iff}
use agentcreds.Delegation.Token.{Hop, DelegationToken, last, min_expiry, depth}
use agentcreds.Delegation.Mint.{
  mint_guards, mint_expiry, root_hop, vc_scope, within_ceiling, within_consent,
}
use agentcreds.Delegation.Attenuate.{attenuate, narrows, hop_expiry, next_hop}
use agentcreds.Delegation.Issued.{
  Grant, Issued, minted, attenuated, mint-Minted, attenuate-Attenuated,
}

-- What the guards of `mint` let through.
pub record IsMintable (vc : CapabilityCredential) (scope : Scope) (ttl_secs : ℕ)
    (agent : AgentIdentity) (now : ℕ) : Type 0 where
  pub valid : now ≤ vc.expiration_date
  pub subject : agent.did ≡ subject_did vc
  pub ttl : ttl_secs ≤ max_token_ttl_secs (claims vc).autonomy_level
  pub narrower : IsSubset scope (vc_scope vc)
  pub ceiling : within_ceiling scope.resources (claims vc).resources ≡ ok tt
  pub consent : within_consent scope.resources (on_behalf_of vc) ≡ ok tt

pub mint_guards-IsMintable :
    (vc : CapabilityCredential) (scope : Scope) (ttl_secs : ℕ) (agent : AgentIdentity) (now : ℕ)
    → mint_guards vc scope ttl_secs agent now ≡ ok tt
    → IsMintable vc scope ttl_secs agent now
unfolding mint_guards is_valid_at
mint_guards-IsMintable vc scope ttl_secs agent now h =
    let (valid, h₁) = guard-eq-ok (is_valid_at vc now) _ _ h in
    let (subject, h₂) = guard-eq-ok (text_eq agent.did (subject_did vc)) _ _ h₁ in
    let (ttl, h₃) =
      guard-eq-ok (not (ltb (max_token_ttl_secs (claims vc).autonomy_level) ttl_secs)) _ _ h₂ in
    let (narrower, h₄) = guard-eq-ok (is_subset_of scope (vc_scope vc)) _ _ h₃ in
    let (_, ceiling, h₅) = >>=-eq-ok (within_ceiling scope.resources (claims vc).resources) _ h₄ in
    record {
      valid = ground (arith, valid);
      subject = text_eq→eq agent.did (subject_did vc) subject;
      ttl = ground (arith, ttl);
      narrower = (is_subset_of_iff scope (vc_scope vc)).0 narrower;
      ceiling = ceiling;
      consent = h₅;
    }

-- Each hop is one deeper than the one before, expires no later and asserts no other tool.
abbrev pub Chain : Hop → List Hop → Type 0
Chain h [] = Unit
Chain h (k ∷ ks) =
    (k.depth ≡ h.depth + 1)
    × (k.expires_at ≤ h.expires_at)
    × (is_subset k.tools h.tools ≡ true)
    × Chain k ks

-- The hops of a token issued from the credential.
abbrev pub IsChain : CapabilityCredential → List Hop → Type 0
IsChain vc [] = ⊥
IsChain vc (h ∷ hs) =
    (h.depth ≡ 0)
    × (h.expires_at ≤ vc.expiration_date)
    × (h.expires_at ≤ h.issued_at + nanos (max_token_ttl_secs (claims vc).autonomy_level))
    × Chain h hs

Chain-snoc :
    (h : Hop) (hs : List Hop) (p k : Hop)
    → Chain h hs
    → last (h ∷ hs) ≡ some p
    → k.depth ≡ p.depth + 1
    → k.expires_at ≤ p.expires_at
    → is_subset k.tools p.tools ≡ true
    → Chain h (hs ++ k ∷ [])
Chain-snoc h [] p k c l d e t =
    let here : h ≡ p = some-injective l in
    (
      ground (arith, ap (λ (q : Hop). q.depth) here, d),
      ground (arith, ap (λ (q : Hop). q.expires_at) here, e),
      subst (λ (q : Hop). is_subset k.tools q.tools ≡ true) (sym here) t,
      tt,
    )
Chain-snoc h (j ∷ hs) p k c l d e t = (c.0, c.1, c.2, Chain-snoc j hs p k c.3 l d e t)

IsChain-snoc :
    (vc : CapabilityCredential) (hs : List Hop) (p k : Hop)
    → IsChain vc hs
    → last hs ≡ some p
    → k.depth ≡ p.depth + 1
    → k.expires_at ≤ p.expires_at
    → is_subset k.tools p.tools ≡ true
    → IsChain vc (hs ++ k ∷ [])
IsChain-snoc vc [] p k c l d e t = absurd c
IsChain-snoc vc (h ∷ hs) p k c l d e t = (c.0, c.1, c.2, Chain-snoc h hs p k c.3 l d e t)

root_hop-IsChain :
    (vc : CapabilityCredential) (scope : Scope) (ttl_secs : ℕ) (agent : AgentIdentity) (now : ℕ)
    → ttl_secs ≤ max_token_ttl_secs (claims vc).autonomy_level
    → IsChain vc (root_hop vc scope (mint_expiry vc ttl_secs now) now agent ∷ [])
unfolding root_hop mint_expiry
root_hop-IsChain vc scope ttl_secs agent now h = (refl, omega arith, omega arith, tt)

next_hop-IsChain :
    (vc : CapabilityCredential) (token : DelegationToken) (parent : Hop) (narrow : Scope)
    (ttl_secs : ℕ) (agent : AgentIdentity) (now : ℕ)
    → IsChain vc token.hops
    → last token.hops ≡ some parent
    → narrows token parent narrow ≡ true
    → IsChain vc
        (token.hops ++ next_hop parent narrow (hop_expiry parent ttl_secs now) now agent ∷ [])
unfolding next_hop hop_expiry narrows
next_hop-IsChain vc token parent narrow ttl_secs agent now chain leaf n =
    IsChain-snoc vc token.hops parent
      (next_hop parent narrow (hop_expiry parent ttl_secs now) now agent) chain leaf refl
      (omega arith) (is_subset-sort_texts narrow.tools parent.tools (ground arith))

-- Every token that `mint` and `attenuate` produce from a credential has a root hop of depth 0 that
-- expires by the credential's expiry and within the lifetime that the autonomy level allows, and
-- every later hop is one deeper, expires no later and has no tool that the hop before lacks.
pub Issued-IsChain :
    {B : Biscuit} {vc : CapabilityCredential} {token : DelegationToken} {gs : List Grant}
    → Issued B vc token gs
    → IsChain vc token.hops
Issued-IsChain {B} {vc} (minted scope ttl_secs agent now e) =
    let m = mint-Minted B vc scope ttl_secs agent now e in
    let checked = mint_guards-IsMintable vc scope ttl_secs agent now m.guards in
    subst (IsChain vc) (sym m.hops) (root_hop-IsChain vc scope ttl_secs agent now checked.ttl)
Issued-IsChain {B} {vc}
      (attenuated {token = before} parent narrow ttl_secs agent now issued leaf e) =
    let (leaf_hop, a) = attenuate-Attenuated B before narrow ttl_secs agent now e in
    subst (IsChain vc) (sym a.hops) (
      next_hop-IsChain vc before leaf_hop narrow ttl_secs agent now (Issued-IsChain issued) a.leaf
        a.narrower)

-- The leaf's expiry is the earliest of a chain's.
Chain-min_expiry :
    (h : Hop) (hs : List Hop) (l : Hop)
    → Chain h hs
    → last (h ∷ hs) ≡ some l
    → (min_expiry (h ∷ hs) ≡ some l.expires_at) × (l.expires_at ≤ h.expires_at)
unfolding min_expiry
Chain-min_expiry h [] l c e = ground arith
Chain-min_expiry h (k ∷ ks) l c e = ground (arith, Chain-min_expiry k ks l c.3 e)

-- An issued token stops being usable when its leaf expires: `expires_at` is the leaf hop's expiry.
pub expires_at-leaf :
    {B : Biscuit} {vc : CapabilityCredential} {token : DelegationToken} {gs : List Grant} (l : Hop)
    → Issued B vc token gs
    → last token.hops ≡ some l
    → min_expiry token.hops ≡ some l.expires_at
expires_at-leaf {vc} {token} l issued leaf = go token.hops (Issued-IsChain issued) leaf
  where
    go : (hs : List Hop) → IsChain vc hs → last hs ≡ some l → min_expiry hs ≡ some l.expires_at
    go [] c e = absurd c
    go (h ∷ hs) c e = (Chain-min_expiry h hs l c.3 e).0

last-nonempty : (hs : List Hop) (h : Hop) → last hs ≡ some h → 0 < length hs
last-nonempty [] h e = cc
last-nonempty (x ∷ xs) h e = omega arith

-- `attenuate` adds one hop, and only where the root's maximal depth leaves room for it.
pub attenuate-depth :
    (B : Biscuit) (token child : DelegationToken) (narrow : Scope) (ttl_secs : ℕ)
    (agent : AgentIdentity) (now : ℕ)
    → attenuate B token narrow ttl_secs agent now ≡ ok child
    → (depth child ≡ depth token + 1) × (depth child ≤ token.root_max_depth_cache)
unfolding depth
attenuate-depth B token child narrow ttl_secs agent now e =
    let (leaf_hop, a) = attenuate-Attenuated B token narrow ttl_secs agent now e in
    let longer = ap (length {A = Hop}) a.hops ∙ length-append token.hops _ in
    ground (arith, longer, last-nonempty token.hops leaf_hop a.leaf, a.depth_left)
