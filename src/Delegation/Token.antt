-- ===== src/Delegation/Token.antt =====
-- Hops, delegation tokens and the cache that `hydrate` reads out of the Biscuit.
use agentcreds.Prelude.{
  ℕ, ◌-◌, ◌%◌, ◌^◌, Bool, Option, none, some, List, [], ◌∷◌, length, if◌then◌else◌, map,
}
use agentcreds.Prelude.Int.{ℤ, pos, negsuc}
use Prim.Native.Nat.{min}
use agentcreds.Outcome.{
  Result, ok, err, ◌>>=◌, ◌>>◌, guard, ok_or, invalid_biscuit_signature, invalid_key_material,
}
use agentcreds.Text.{Text, text_eq, text_le, sort_texts}
use agentcreds.Gate.{Gate, gate_eq}
use agentcreds.Datalog
use agentcreds.Datalog.{Fact, Check, Block, select}
use agentcreds.Biscuit.{Biscuit}

-- One delegation hop. Instants are nanoseconds.
pub record Hop : Type 0 where
  pub agent_did : Text
  pub delegation_public : Text
  pub attestation : Text
  pub tools : List Text
  pub resources : List Text
  pub budget_usd : Option ℕ
  pub max_action_cost : Option ℕ
  pub issued_at : ℕ
  pub expires_at : ℕ
  pub depth : ℕ

pub record DelegationToken : Type 0 where
  pub biscuit : Text
  pub hops : List Hop
  pub vc_id_cache : Text
  pub issuer_cache : Text
  pub subject_cache : Text
  pub root_tools_cache : List Text
  pub root_budget_cache : Option ℕ
  pub root_max_action_cost_cache : Option ℕ
  pub root_max_depth_cache : ℕ
  pub principal_cache : Option Text
  pub root_resources_cache : List Text
  pub gates_cache : List Gate

-- A token before `hydrate`.
unfoldable pub unhydrated : Text → List Hop → DelegationToken
unhydrated bytes hops = record {
  biscuit = bytes;
  hops = hops;
  vc_id_cache = [];
  issuer_cache = [];
  subject_cache = [];
  root_tools_cache = [];
  root_budget_cache = none;
  root_max_action_cost_cache = none;
  root_max_depth_cache = 0;
  principal_cache = none;
  root_resources_cache = [];
  gates_cache = [];
}

abbrev pub first {ℓ} : {A : Type ℓ} → List A → Option A
first [] = none
first (x ∷ xs) = some x

abbrev pub last {ℓ} : {A : Type ℓ} → List A → Option A
last [] = none
last (x ∷ []) = some x
last (x ∷ y ∷ ys) = last (y ∷ ys)

-- `len().saturating_sub(1)`
unfoldable pub depth : DelegationToken → ℕ
depth token = length token.hops - 1

-- The earliest expiry of the hops, `none` where there is no hop.
unfoldable pub min_expiry : List Hop → Option ℕ
min_expiry [] = none
min_expiry (h ∷ hs) = elim (min_expiry hs) [
  | none ↦ some h.expires_at
  | some e ↦ some (min h.expires_at e)
]

abbrev pub did_or_empty : Option Hop → Text
did_or_empty none = []
did_or_empty (some h) = h.agent_did

unfoldable pub leaf_agent_did : DelegationToken → Text
leaf_agent_did token = did_or_empty (last token.hops)

unfoldable pub root_agent_did : DelegationToken → Text
root_agent_did token = did_or_empty (first token.hops)

-- `as u32`
unfoldable pub as_u32 : ℤ → ℕ
as_u32 (pos n) = n % 2 ^ 32
as_u32 (negsuc n) = 2 ^ 32 - 1 - n % 2 ^ 32

unfoldable pub least : List ℕ → Option ℕ
least [] = none
least (n ∷ ns) = elim (least ns) [ none ↦ some n | some m ↦ some (min n m) ]

-- The order by kind and then by tool, and `dedup`.
unfoldable pub gate_le : Gate → Gate → Bool
gate_le g h = if text_eq g.kind h.kind then text_le g.tool h.tool else text_le g.kind h.kind

unfoldable pub insert_gate : Gate → List Gate → List Gate
insert_gate g [] = g ∷ []
insert_gate g (h ∷ hs) = if gate_le g h then g ∷ h ∷ hs else h ∷ insert_gate g hs

unfoldable pub sort_gates : List Gate → List Gate
sort_gates [] = []
sort_gates (g ∷ gs) = insert_gate g (sort_gates gs)

unfoldable pub dedup_gates : List Gate → List Gate
dedup_gates [] = []
dedup_gates (g ∷ []) = g ∷ []
dedup_gates (g ∷ h ∷ hs) = let rest = dedup_gates (h ∷ hs) in if gate_eq g h then rest else g ∷ rest

abbrev vc_id_of : Fact → Option Text
vc_id_of (Datalog.Fact.vc_id t) = some t
vc_id_of _ = none

abbrev issuer_of : Fact → Option Text
issuer_of (Datalog.Fact.issuer t) = some t
issuer_of _ = none

abbrev subject_of : Fact → Option Text
subject_of (Datalog.Fact.subject t) = some t
subject_of _ = none

abbrev root_tool_of : Fact → Option Text
root_tool_of (Datalog.Fact.root_tool t) = some t
root_tool_of _ = none

abbrev root_resource_of : Fact → Option Text
root_resource_of (Datalog.Fact.root_resource t) = some t
root_resource_of _ = none

abbrev max_depth_of : Fact → Option ℤ
max_depth_of (Datalog.Fact.max_depth i) = some i
max_depth_of _ = none

abbrev budget_of : Fact → Option ℤ
budget_of (Datalog.Fact.budget i) = some i
budget_of _ = none

abbrev max_action_cost_of : Fact → Option ℤ
max_action_cost_of (Datalog.Fact.max_action_cost i) = some i
max_action_cost_of _ = none

abbrev pub gate_of : Fact → Option Gate
gate_of (Datalog.Fact.gate k t) = some (record { kind = k; tool = t })
gate_of _ = none

abbrev map_u32 : Option ℤ → Option ℕ
map_u32 none = none
map_u32 (some i) = some (as_u32 i)

abbrev or_zero : Option ℤ → ℕ
or_zero none = 0
or_zero (some i) = as_u32 i

abbrev missing_fact : Option Text → Result Text
missing_fact o = ok_or o (invalid_biscuit_signature "missing required fact")

-- The cache that the queried facts determine.
unfoldable pub hydrate_from : List Fact → DelegationToken → Result DelegationToken
hydrate_from facts token = do
  vc_id ← missing_fact (first (select vc_id_of facts))
  issuer ← missing_fact (first (select issuer_of facts))
  subject ← missing_fact (first (select subject_of facts))
  ok (record token {
    vc_id_cache = vc_id;
    issuer_cache = issuer;
    subject_cache = subject;
    root_max_depth_cache = or_zero (first (select max_depth_of facts));
    root_tools_cache = sort_texts (select root_tool_of facts);
    root_budget_cache = map_u32 (first (select budget_of facts));
    root_max_action_cost_cache = least (map as_u32 (select max_action_cost_of facts));
    principal_cache = first (select Datalog.principal_of facts);
    root_resources_cache = sort_texts (select root_resource_of facts);
    gates_cache = dedup_gates (sort_gates (select gate_of facts));
  })

-- `bz`: every error of the Biscuit crate becomes this one.
abbrev pub bz {ℓ} : {A : Type ℓ} → Option A → Result A
bz o = ok_or o (invalid_biscuit_signature "biscuit")

module _ (B : Biscuit) where
  abbrev pub pubkey_ok : Text → Result (Unit {0})
  pubkey_ok key = guard (B.public_key_ok key) (invalid_key_material "delegation public key invalid")

  abbrev pub secret_ok : Text → Result (Unit {0})
  secret_ok key =
      guard (B.private_key_ok key) (invalid_key_material "delegation private key invalid")

  -- The Biscuit of a token, parsed under the root hop's key.
  unfoldable pub parse : DelegationToken → Result (Hop × B.Token)
  parse token = do
    root ← ok_or (first token.hops) (invalid_biscuit_signature "empty token chain")
    pubkey_ok root.delegation_public
    t ← bz (B.from_vec token.biscuit root.delegation_public)
    ok (root, t)

  unfoldable pub hydrate : DelegationToken → Result DelegationToken
  hydrate token = do parsed ← parse token; facts ← bz (B.queried parsed.1); hydrate_from facts token

  -- `TryFrom<DelegationTokenWire>`
  unfoldable pub from_wire : Text → List Hop → Result DelegationToken
  from_wire bytes [] = err (invalid_biscuit_signature "empty token chain")
  from_wire bytes (h ∷ hs) = hydrate (unhydrated bytes (h ∷ hs))
