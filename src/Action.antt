-- ===== src/Action.antt =====
-- `Action` of agentcreds-core/src/delegation/mod.rs and the bytes that its content bindings hash.
pub mod Bindings
use agentcreds.Prelude.{ℕ, Option, none, some, ◌++◌}
use agentcreds.Text.{Text, codes}
use agentcreds.Codec.{hash_field, opt_field}
use agentcreds.Crypto.{Crypto}

-- `timestamp` is in nanoseconds since the Unix epoch, `cost` in cents.
pub record Action : Type 0 where
  pub tool : Text
  pub parameters : Text
  pub timestamp : ℕ
  pub resource : Option Text
  pub acting_for : Option Text
  pub cost : Option ℕ

unfoldable pub new : Text → Text → ℕ → Action
new tool parameters now = record {
  tool = tool;
  parameters = parameters;
  timestamp = now;
  resource = none;
  acting_for = none;
  cost = none;
}

unfoldable pub on_resource : Action → Text → Action
on_resource a resource = record a { resource = some resource }

unfoldable pub on_behalf_of : Action → Text → Action
on_behalf_of a principal = record a { acting_for = some principal }

unfoldable pub with_cost : Action → ℕ → Action
with_cost a cents = record a { cost = some cents }

abbrev request_domain : Text
request_domain = codes "agentcreds-action-binding-v1"

abbrev approval_domain : Text
approval_domain = codes "agentcreds-approval-binding-v1"

-- What `request_binding` feeds to the hash.
unfoldable pub request_bytes : Action → Text
request_bytes a =
    request_domain ++ (hash_field a.tool ++ (hash_field a.parameters ++ opt_field a.resource))

-- What `approval_binding` feeds to the hash: the principal too.
unfoldable pub approval_bytes : Action → Text
approval_bytes a =
    approval_domain
    ++ (hash_field a.tool
        ++ (hash_field a.parameters ++ (opt_field a.resource ++ opt_field a.acting_for)))

module _ (c : Crypto) where
  unfoldable pub request_binding : Action → Text
  request_binding a = c.hex_encode (c.sha256 (request_bytes a))

  unfoldable pub approval_binding : Action → Text
  approval_binding a = c.hex_encode (c.sha256 (approval_bytes a))
