-- ===== src/Gate.antt =====
-- `Gate` of agentcreds-core/src/approval.rs: a tool that needs evidence before it may execute.
use agentcreds.Prelude.{◌≡◌, refl, Bool, true, false, ◌&&◌, ◌||◌, List, [], ◌∷◌, ◌++◌, arith}
use agentcreds.Text.{Text, codes, text_eq, text_eq→eq, text_eq_refl}

pub record Gate : Type 0 where
  pub kind : Text
  pub tool : Text

abbrev pub approval_kind : Text
approval_kind = codes "approval"

abbrev pub approval_key_kind : Text
approval_key_kind = codes "approval-key"

abbrev pub intent_kind : Text
intent_kind = codes "intent-alignment"

unfoldable pub intent_gate : Text → Gate
intent_gate tool = record { kind = intent_kind; tool = tool }

unfoldable pub approval_gate : Text → Gate
approval_gate tool = record { kind = approval_kind; tool = tool }

unfoldable pub approval_key_gate : Text → Gate
approval_key_gate tool = record { kind = approval_key_kind; tool = tool }

unfoldable pub gate_eq : Gate → Gate → Bool
gate_eq g h = text_eq g.kind h.kind && text_eq g.tool h.tool

unfoldable pub contains_gate : List Gate → Gate → Bool
unfolding gate_eq
contains_gate [] g = false
contains_gate (h ∷ hs) g = gate_eq h g || contains_gate hs g

pub gate_eq→eq : (g h : Gate) → gate_eq g h ≡ true → g ≡ h
unfolding gate_eq
gate_eq→eq g h e = ground (arith, text_eq→eq g.kind h.kind, text_eq→eq g.tool h.tool)

pub gate_eq_refl : (g : Gate) → gate_eq g g ≡ true
unfolding gate_eq
gate_eq_refl g = ground (arith, text_eq_refl g.kind, text_eq_refl g.tool)

pub contains_gate-append :
    (gs hs : List Gate) (g : Gate)
    → contains_gate (gs ++ hs) g ≡ (contains_gate gs g || contains_gate hs g)
unfolding contains_gate
contains_gate-append [] hs g = refl
contains_gate-append (f ∷ gs) hs g = ground (arith, contains_gate-append gs hs g)
