-- ===== src/Action/Bindings.antt =====
-- The content bindings of an action determine what they bind.
use agentcreds.Prelude.{◌≡◌, ◌≢◌, refl, arith, [], ◌++◌}
use mathlib.Core.List.{append-nil}
use agentcreds.Text.{Text}
use agentcreds.Codec.{
  Fits, FitsOpt, hash_field, opt_field, hash_field_injective, opt_field_injective,
  opt_field_injective_end, append_injective,
}
use agentcreds.Action.{Action, request_domain, approval_domain, request_bytes, approval_bytes}

-- The strings of an action are shorter than 2 ^ 64 bytes.
pub record IsSized (a : Action) : Type 0 where
  pub tool : Fits a.tool
  pub parameters : Fits a.parameters
  pub resource : FitsOpt a.resource
  pub acting_for : FitsOpt a.acting_for

pub record SameRequest (a b : Action) : Type 0 where
  pub tool : a.tool ≡ b.tool
  pub parameters : a.parameters ≡ b.parameters
  pub resource : a.resource ≡ b.resource

-- The fields that both bindings begin with.
shared_prefix :
    (a b : Action) (xs ys : Text)
    → IsSized a
    → IsSized b
    → hash_field a.tool ++ (hash_field a.parameters ++ (opt_field a.resource ++ xs))
      ≡ hash_field b.tool ++ (hash_field b.parameters ++ (opt_field b.resource ++ ys))
    → SameRequest a b × (xs ≡ ys)
shared_prefix a b xs ys ha hb e =
    let (tool, e₁) = hash_field_injective a.tool b.tool _ _ ha.tool hb.tool e in
    let (parameters, e₂) =
      hash_field_injective a.parameters b.parameters _ _ ha.parameters hb.parameters e₁ in
    let (resource, rest) =
      opt_field_injective a.resource b.resource xs ys ha.resource hb.resource e₂ in
    (record { tool = tool; parameters = parameters; resource = resource }, rest)

-- Two actions, with strings shorter than 2 ^ 64 bytes, whose request bindings hash the same bytes
-- have the same tool, parameters and resource.
pub request_bytes_injective :
    (a b : Action) → IsSized a → IsSized b → request_bytes a ≡ request_bytes b → SameRequest a b
unfolding request_bytes
request_bytes_injective a b ha hb e =
    let (_, fields) = append_injective request_domain request_domain _ _ refl e in
    (shared_prefix a b [] [] ha hb (simp append-nil fields)).0

-- Two actions, with strings shorter than 2 ^ 64 bytes, whose approval bindings hash the same bytes
-- have the same tool, parameters and resource and act for the same principal.
pub approval_bytes_injective :
    (a b : Action)
    → IsSized a
    → IsSized b
    → approval_bytes a ≡ approval_bytes b
    → SameRequest a b × (a.acting_for ≡ b.acting_for)
unfolding approval_bytes
approval_bytes_injective a b ha hb e =
    let (_, fields) = append_injective approval_domain approval_domain _ _ refl e in
    let (same, rest) = shared_prefix a b _ _ ha hb fields in
    (same, opt_field_injective_end a.acting_for b.acting_for ha.acting_for hb.acting_for rest)

-- Bytes hashed for a proof of possession are never bytes hashed for an approval.
pub request_approval_disjoint : (a b : Action) → request_bytes a ≢ approval_bytes b
unfolding request_bytes approval_bytes
request_approval_disjoint a b e = ground arith
