-- ===== src/Delegation/Scope/Order.antt =====
-- What the subset test on scopes decides.
use agentcreds.Prelude.{
  Bool-cases, ℕ, ◌<◌, ◌⊎◌, inl, inr, ◌++◌, ◌≤◌, ◌≡◌, ◌↔◌, refl, true, false, Option, none, some,
  List, [], ◌∷◌, arith,
}
use agentcreds.Text.{
  Text, is_subset, is_subset_refl, subset_trans, starts_with, starts_with_sound, starts_with-append,
  strip_star,
}
use agentcreds.Delegation.Scope.{
  Scope, within, cap_tightens, is_subset_of, resource_within_authority,
}

abbrev pub AtMost : Option ℕ → Option ℕ → Type 0
AtMost (some a) (some b) = a ≤ b
AtMost (some a) none = Unit
AtMost none b = Unit

-- A cap is kept or lowered, never dropped.
abbrev pub Tightens : Option ℕ → Option ℕ → Type 0
Tightens child none = Unit
Tightens none (some cap) = ⊥
Tightens (some child) (some cap) = child ≤ cap

pub record IsSubset (self parent : Scope) : Type 0 where
  pub tools : is_subset self.tools parent.tools ≡ true
  pub budget : AtMost self.budget_usd parent.budget_usd
  pub depth : self.max_depth ≤ parent.max_depth
  pub cap : Tightens self.max_action_cost parent.max_action_cost
  pub ceiling : AtMost self.max_action_cost parent.budget_usd

within→AtMost : (a b : Option ℕ) → within a b ≡ true → AtMost a b
unfolding within
within→AtMost none b h = tt
within→AtMost (some a) none h = tt
within→AtMost (some a) (some b) h = ground arith

AtMost→within : (a b : Option ℕ) → AtMost a b → within a b ≡ true
unfolding within
AtMost→within none b h = refl
AtMost→within (some a) none h = refl
AtMost→within (some a) (some b) h = ground arith

tightens→Tightens : (a b : Option ℕ) → cap_tightens a b ≡ true → Tightens a b
unfolding cap_tightens
tightens→Tightens a none h = tt
tightens→Tightens none (some b) h = cc
tightens→Tightens (some a) (some b) h = ground arith

Tightens→tightens : (a b : Option ℕ) → Tightens a b → cap_tightens a b ≡ true
unfolding cap_tightens
Tightens→tightens a none h = ground arith
Tightens→tightens none (some b) h = absurd h
Tightens→tightens (some a) (some b) h = ground arith

-- The guards of the test, one by one. A child without a budget passes under a parent with one.
pub is_subset_of_iff :
    (self parent : Scope) → (is_subset_of self parent ≡ true) ↔ IsSubset self parent
unfolding is_subset_of
is_subset_of_iff self parent = (
  λ h. record {
    tools = ground arith;
    budget = within→AtMost self.budget_usd parent.budget_usd (ground arith);
    depth = ground arith;
    cap = tightens→Tightens self.max_action_cost parent.max_action_cost (ground arith);
    ceiling = within→AtMost self.max_action_cost parent.budget_usd (ground arith);
  },
  λ h. ground (
    arith,
    h.tools,
    AtMost→within self.budget_usd parent.budget_usd h.budget,
    h.depth,
    Tightens→tightens self.max_action_cost parent.max_action_cost h.cap,
    AtMost→within self.max_action_cost parent.budget_usd h.ceiling,
  ),
)

-- The parent has no budget, or the child has one too.
abbrev pub KeepsBudget : Option ℕ → Option ℕ → Type 0
KeepsBudget child none = Unit
KeepsBudget none (some b) = ⊥
KeepsBudget (some a) (some b) = Unit

AtMost-trans : (a b c : Option ℕ) → KeepsBudget b c → AtMost a b → AtMost b c → AtMost a c
AtMost-trans none b c k h₁ h₂ = tt
AtMost-trans (some a) b none k h₁ h₂ = tt
AtMost-trans (some a) none (some c) k h₁ h₂ = absurd k
AtMost-trans (some a) (some b) (some c) k h₁ h₂ = omega arith

Tightens-trans : (a b c : Option ℕ) → Tightens a b → Tightens b c → Tightens a c
Tightens-trans a b none h₁ h₂ = tt
Tightens-trans a none (some c) h₁ h₂ = absurd h₂
Tightens-trans none (some b) (some c) h₁ h₂ = absurd h₁
Tightens-trans (some a) (some b) (some c) h₁ h₂ = omega arith

-- Narrowing twice is narrowing, if the scope in between has a budget wherever the outer one has.
pub is_subset_of_trans :
    (inner middle outer : Scope)
    → KeepsBudget middle.budget_usd outer.budget_usd
    → is_subset_of inner middle ≡ true
    → is_subset_of middle outer ≡ true
    → is_subset_of inner outer ≡ true
is_subset_of_trans inner middle outer k h₁ h₂ =
    let a = (is_subset_of_iff inner middle).0 h₁ in
    let b = (is_subset_of_iff middle outer).0 h₂ in
    (is_subset_of_iff inner outer).1 (record {
      tools = subset_trans inner.tools middle.tools outer.tools a.tools b.tools;
      budget = AtMost-trans _ middle.budget_usd outer.budget_usd k a.budget b.budget;
      depth = omega (arith, a.depth, b.depth);
      cap =
          Tightens-trans inner.max_action_cost middle.max_action_cost outer.max_action_cost a.cap
            b.cap;
      ceiling = AtMost-trans _ middle.budget_usd outer.budget_usd k a.ceiling b.budget;
    })

-- Without the condition it fails: below any scope with a budget, a scope with the same tools and
-- depth, no cap and any larger budget is reached in two steps that the test accepts, and in one step
-- it is refused.
pub budget_escape :
    (outer : Scope) (budget more : ℕ)
    → outer.budget_usd ≡ some budget
    → outer.max_action_cost ≡ none
    → budget < more
    → (is_subset_of (record outer { budget_usd = none }) outer ≡ true)
      × (is_subset_of (record outer { budget_usd = some more }) (record outer { budget_usd = none })
          ≡ true)
      × (is_subset_of (record outer { budget_usd = some more }) outer ≡ false)
unfolding is_subset_of within cap_tightens
budget_escape outer budget more eb ec h = (
  ground (arith, is_subset_refl outer.tools),
  ground (arith, is_subset_refl outer.tools),
  ground (arith, is_subset_refl outer.tools),
)

-- The resource is under the patterns exactly where some pattern, a trailing star stripped, is a
-- prefix of it.
abbrev pub Covered : Text → List Text → Type 0
Covered resource [] = ⊥
Covered resource (p ∷ ps) =
    ((rest : Text) × (resource ≡ strip_star p ++ rest)) ⊎ Covered resource ps

pub resource_within_authority_iff :
    (resource : Text) (patterns : List Text)
    → (resource_within_authority resource patterns ≡ true) ↔ Covered resource patterns
unfolding resource_within_authority
resource_within_authority_iff resource [] = (λ h. cc, λ h. absurd h)
resource_within_authority_iff resource (p ∷ ps) = (
  λ h. elim (Bool-cases (starts_with (strip_star p) resource)) [
    | inl e ↦ inl (starts_with_sound (strip_star p) resource e)
    | inr e ↦ inr ((resource_within_authority_iff resource ps).0 (ground arith))
  ],
  λ h. elim h [
    | inl (rest, e) ↦ rw (e, starts_with-append (strip_star p) rest)
    | inr later ↦ ground (arith, (resource_within_authority_iff resource ps).1 later)
  ],
)
