-- ===== src/Delegation/Gating.antt =====
-- The gated check fails closed: it accepts only if evidence satisfies every designation of the tool.
use agentcreds.Prelude.{
  ℕ, ◌≡◌, ◌⊎◌, inl, inr, Bool, true, Option, none, some, List, [], ◌∷◌, Bool-cases, arith,
}
use mathlib.Core.Path.{subst}
use agentcreds.Outcome.{
  ok, >>=-eq-ok, guard-eq-ok, ok_or-eq-ok, is_ok-eq-true, ok_or, action_denied,
}
use agentcreds.Text.{Text, text_eq, text_eq→eq, text_eq_refl, contains}
use agentcreds.Crypto.{Crypto}
use agentcreds.Gate.{
  Gate, approval_kind, approval_key_kind, contains_gate, contains_gate-append, gate_eq, gate_eq→eq,
  gate_eq_refl,
}
use agentcreds.Did.{TrustAnchor}
use agentcreds.Action.{Action}
use agentcreds.Credential.{CapabilityCredential, Payload, required_gates}
use agentcreds.Approval.Directory.{ApproverDirectory}
use agentcreds.Approval.Evidence.{ApprovalEvidence, verify_evidence, verify_with_directory}
use agentcreds.Biscuit.{Biscuit}
use agentcreds.Delegation.Token.{DelegationToken}
use agentcreds.Delegation.Rooted.{
  gates_for, push_mandated, add_mandated, effective_gates, find_evidence, anchor_evidence,
  key_evidence, satisfy_known, satisfy_gate, satisfy_gates, verify_rooted_inner,
  verify_rooted_gated_with_directory,
}

-- The evidence is among those presented.
abbrev pub Presented : ApprovalEvidence → List ApprovalEvidence → Type 0
Presented e [] = ⊥
Presented e (f ∷ fs) = (e ≡ f) ⊎ Presented e fs

find_evidence_sound :
    (p : ApprovalEvidence → Bool) (es : List ApprovalEvidence) {e : ApprovalEvidence}
    → find_evidence p es ≡ some e
    → Presented e es × (p e ≡ true)
unfolding find_evidence
find_evidence_sound p [] h = cc
find_evidence_sound p (f ∷ fs) {e = e} h = elim (Bool-cases (p f)) [
  | inl hit ↦ let same : e ≡ f = ground arith in (inl same, rw same hit)
  | inr miss ↦
      let (found, holds) = find_evidence_sound p fs {e = e} (ground arith) in (inr found, holds)
]

push_mandated-keeps :
    (effective : List Gate) (m : Gate) (tool : Text) (g : Gate)
    → contains_gate effective g ≡ true
    → contains_gate (push_mandated effective m tool) g ≡ true
unfolding push_mandated
push_mandated-keeps effective m tool g h = ground (arith, contains_gate-append effective (m ∷ []) g)

push_mandated-adds :
    (effective : List Gate) (m : Gate) → contains_gate (push_mandated effective m m.tool) m ≡ true
unfolding push_mandated contains_gate
push_mandated-adds effective m =
    ground (arith, contains_gate-append effective (m ∷ []) m, gate_eq_refl m, text_eq_refl m.tool)

-- A gate survives the merge of the credential's gates.
add_mandated-keeps :
    (gs effective : List Gate) (tool : Text) (g : Gate)
    → contains_gate effective g ≡ true
    → contains_gate (add_mandated gs effective tool) g ≡ true
unfolding add_mandated
add_mandated-keeps [] effective tool g h = h
add_mandated-keeps (m ∷ gs) effective tool g h =
    add_mandated-keeps gs (push_mandated effective m tool) tool g
      (push_mandated-keeps effective m tool g h)

-- A gate of the credential for this tool is in the merge.
add_mandated-adds :
    (gs effective : List Gate) (g : Gate)
    → contains_gate gs g ≡ true
    → contains_gate (add_mandated gs effective g.tool) g ≡ true
unfolding add_mandated contains_gate
add_mandated-adds [] effective g h = cc
add_mandated-adds (m ∷ gs) effective g h = elim (Bool-cases (gate_eq m g)) [
  | inl same ↦ add_mandated-keeps gs (push_mandated effective m g.tool) g.tool g (
      subst (λ (k : Gate). contains_gate (push_mandated effective m k.tool) k ≡ true)
        (gate_eq→eq m g same) (push_mandated-adds effective m))
  | inr other ↦ add_mandated-adds gs (push_mandated effective m g.tool) g (ground arith)
]

gates_for-contains :
    (gs : List Gate) (tool : Text) (g : Gate)
    → contains_gate gs g ≡ true
    → g.tool ≡ tool
    → contains_gate (gates_for gs tool) g ≡ true
unfolding gates_for contains_gate
gates_for-contains [] tool g h e = cc
gates_for-contains (m ∷ gs) tool g h e =
    ground (arith, gates_for-contains gs tool g, gate_eq→eq m g, text_eq_refl tool)

designated_effective :
    (token : DelegationToken) (vc : CapabilityCredential) (action : Action) (g : Gate)
    → (contains_gate token.gates_cache g ≡ true) ⊎ (contains_gate (required_gates vc) g ≡ true)
    → g.tool ≡ action.tool
    → contains_gate (effective_gates token vc action) g ≡ true
unfolding effective_gates
designated_effective token vc action g (inl cached) e =
    add_mandated-keeps (required_gates vc) (gates_for token.gates_cache action.tool) action.tool g
      (gates_for-contains token.gates_cache action.tool g cached e)
designated_effective token vc action g (inr mandated) e =
    subst
      (λ (t : Text).
        contains_gate (add_mandated (required_gates vc) (gates_for token.gates_cache action.tool) t)
          g
        ≡ true)
      e (add_mandated-adds (required_gates vc) (gates_for token.gates_cache action.tool) g mandated)

module _ (c : Crypto) (action : Action) (anchor : TrustAnchor) (evidence : List ApprovalEvidence)
    (directory : Option ApproverDirectory) (recognized : List Text) (now_unix : ℕ) where
  -- Evidence of an approval that the anchor signed for this action, or that an enrolled approver of
  -- the directory did.
  abbrev pub Satisfies : Gate → ApprovalEvidence → Type 0
  Satisfies g e =
      ((g.kind ≡ approval_kind) × (verify_evidence c e action anchor now_unix ≡ ok tt))
      ⊎ ((g.kind ≡ approval_key_kind)
          × ((d : ApproverDirectory) × (directory ≡ some d)
              × (verify_with_directory c e action d anchor now_unix none ≡ ok tt)))

  anchor_evidence_sound :
      (e : ApprovalEvidence)
      → anchor_evidence c action anchor now_unix e ≡ true
      → verify_evidence c e action anchor now_unix ≡ ok tt
  unfolding anchor_evidence
  anchor_evidence_sound e h = is_ok-eq-true _ (ground arith)

  key_evidence_sound :
      (d : ApproverDirectory) (e : ApprovalEvidence)
      → key_evidence c action d anchor now_unix e ≡ true
      → verify_with_directory c e action d anchor now_unix none ≡ ok tt
  unfolding key_evidence
  key_evidence_sound d e h = is_ok-eq-true _ (ground arith)

  satisfy_known_sound :
      (g : Gate) {e : ApprovalEvidence}
      → satisfy_known c action anchor evidence directory now_unix g ≡ ok e
      → Presented e evidence × Satisfies g e
  unfolding satisfy_known
  satisfy_known_sound g {e = e} h = elim (Bool-cases (text_eq g.kind approval_kind)) [
    | inl k ↦
        let (there, holds) =
          find_evidence_sound (anchor_evidence c action anchor now_unix) evidence {e = e}
            (ground arith) in
        (there, inl (text_eq→eq g.kind approval_kind k, anchor_evidence_sound e holds))
    | inr k ↦ elim (Bool-cases (text_eq g.kind approval_key_kind)) [
      | inl k' ↦
          let (d, known, found) =
            >>=-eq-ok
              (ok_or directory (action_denied action.tool "no approver directory is configured"))
              (λ dir.
                ok_or (find_evidence (key_evidence c action dir anchor now_unix) evidence)
                  (action_denied action.tool "action requires approver-key approval"))
              (ground arith) in
          let (there, holds) =
            find_evidence_sound (key_evidence c action d anchor now_unix) evidence {e = e}
              (ok_or-eq-ok _ _ found) in
          (
            there,
            inr (
              text_eq→eq g.kind approval_key_kind k',
              (d, ok_or-eq-ok _ _ known, key_evidence_sound d e holds),
            ),
          )
      | inr k' ↦ absurd (ground arith)
    ]
  ]

  satisfy_gate_sound :
      (g : Gate) {e : ApprovalEvidence}
      → satisfy_gate c action anchor evidence directory recognized now_unix g ≡ ok e
      → (contains recognized g.kind ≡ true) × (Presented e evidence × Satisfies g e)
  unfolding satisfy_gate
  satisfy_gate_sound g h =
      let (known, rest) = guard-eq-ok (contains recognized g.kind) _ _ h in
      (known, satisfy_known_sound g rest)

  -- Evidence that satisfies the gate was presented, and its id is among those relied upon.
  abbrev pub Relied : Gate → List Text → Type 0
  Relied g ids =
      (e : ApprovalEvidence) × Presented e evidence
      × Satisfies g e
      × (contains recognized g.kind ≡ true)
      × (contains ids e.approval_id ≡ true)

  satisfy_gates_sound :
      (gs : List Gate) (g : Gate) {ids : List Text}
      → satisfy_gates c action anchor evidence directory recognized now_unix gs ≡ ok ids
      → contains_gate gs g ≡ true
      → Relied g ids
  unfolding satisfy_gates contains_gate contains
  satisfy_gates_sound [] g h there = cc
  satisfy_gates_sound (m ∷ gs) g {ids = ids} h there =
      let (e, first, h₁) =
        >>=-eq-ok (satisfy_gate c action anchor evidence directory recognized now_unix m) _ h in
      let (later, rest, h₂) =
        >>=-eq-ok (satisfy_gates c action anchor evidence directory recognized now_unix gs) _ h₁ in
      let ids_are : ids ≡ e.approval_id ∷ later = ground (arith, h₂) in
      elim (Bool-cases (gate_eq m g)) [
        | inl same ↦
            let known_satisfied = satisfy_gate_sound m first in
            subst (λ (k : Gate). Relied k ids) (gate_eq→eq m g same)
              (
                e,
                known_satisfied.1.0,
                known_satisfied.1.1,
                known_satisfied.0,
                ground (arith, ids_are, text_eq_refl e.approval_id),
              )
        | inr other ↦
            let (f, there', holds, known, listed) = satisfy_gates_sound gs g rest (ground arith) in
            (f, there', holds, known, ground (arith, ids_are, listed))
      ]

-- A gated verification that accepts has, for every gate of the token or of the credential that names
-- the action's tool, evidence among that presented which satisfies the gate, its kind recognized and
-- its approval id returned; and the rooted verification accepts.
pub gated-fails_closed :
    (c : Crypto) (payload : Payload) (B : Biscuit) (token : DelegationToken) (action : Action)
    (vc : CapabilityCredential) (anchor : TrustAnchor) (evidence : List ApprovalEvidence)
    (directory : Option ApproverDirectory) (recognized : List Text) (now_unix now : ℕ)
    (ids : List Text)
    → verify_rooted_gated_with_directory c payload B token action vc anchor evidence directory
        recognized now_unix now
      ≡ ok ids
    → (verify_rooted_inner c payload B token action vc anchor none now ≡ ok tt)
      × ((g : Gate)
          → (contains_gate token.gates_cache g ≡ true)
            ⊎ (contains_gate (required_gates vc) g ≡ true)
          → g.tool ≡ action.tool
          → Relied c action anchor evidence directory recognized now_unix g ids)
unfolding verify_rooted_gated_with_directory effective_gates
gated-fails_closed c payload B token action vc anchor evidence directory recognized now_unix now ids
      h =
    let gates = effective_gates token vc action in
    let (_, rooted, h₁) =
      >>=-eq-ok (verify_rooted_inner c payload B token action vc anchor none now) _ h in
    (
      rooted,
      λ g designated names.
          satisfy_gates_sound c action anchor evidence directory recognized now_unix gates g h₁
            (designated_effective token vc action g designated names),
    )
