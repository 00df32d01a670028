-- ===== src/Audit/Custody/Stops.antt =====
-- Runs of the loop of `AuditCompositor::ingest` that a commitment stops.
use agentcreds.Prelude.{
  ◌≡◌, ◌≢◌, inl, inr, refl, sym, ◌∙◌, ap, false, Bool-cases, Option-cases, some, List, [], ◌∷◌,
  ◌++◌, arith,
}
use mathlib.Core.List.{append_assoc, append-nil}
use agentcreds.Outcome.{Result, err, AgentCredsError, invalid_vc_proof, Result-cases}
use agentcreds.Text.{Text, text_eq, text_eq_refl}
use agentcreds.Crypto.{Crypto}
use agentcreds.Did.{TrustAnchor}
use agentcreds.Audit.{
  AuditCommitment, CompositeEntry, find_entry, entry_of, verify_commitment, ingest_one, ingest_loop,
}
use agentcreds.Audit.Order.{Present}
use agentcreds.Audit.Custody.Runs.{
  IsAccepted, round, refused, known, added, ingest_one-admit, ingest_one-other,
  ingest_one-unverified, admit-none, admit-some,
}
use agentcreds.Audit.Custody.Verified.{IsVerified, IsVerified-cons}
use agentcreds.Audit.Custody.Loop.{ingest_loop-ok, ingest_loop-err}
use agentcreds.Audit.Custody.Kept.{AllAccepted, IsAccepted-append}

text_eq-false : (a b : Text) → text_eq a b ≡ false → a ≢ b
text_eq-false a b h e = ground (arith, h, e, text_eq_refl a)

module _ (c : Crypto) (correlation_id : Text) (anchor : TrustAnchor) where
  -- Why a commitment is refused: it is of another correlation, it does not verify, or the entry of its
  -- organization and number has another commitment.
  pub data IsRefused (m : AuditCommitment) (es : List CompositeEntry) (e : AgentCredsError)
      : Type 0 where
    other_correlation :
        m.correlation_id ≢ correlation_id
        → e ≡ invalid_vc_proof "commitment correlation_id does not match"
        → IsRefused m es e
    unverified : verify_commitment c m anchor ≡ err e → IsRefused m es e
    conflicting :
        (x : CompositeEntry)
        → find_entry es m.org_id m.seq ≡ some x
        → x.commitment ≢ m.commitment
        → e ≡ invalid_vc_proof "conflicting commitment"
        → IsRefused m es e

  same_error :
      {r : Result (List CompositeEntry)} {e e' : AgentCredsError} → r ≡ err e → r ≡ err e' → e ≡ e'
  same_error h k = ground (arith, h, k)

  ingest_one-IsRefused :
      (m : AuditCommitment) (es : List CompositeEntry) (e : AgentCredsError)
      → ingest_one c correlation_id es m anchor ≡ err e
      → IsRefused m es e
  ingest_one-IsRefused m es e h = elim (Bool-cases (text_eq m.correlation_id correlation_id)) [
    | inr other ↦
        other_correlation (text_eq-false m.correlation_id correlation_id other)
          (same_error h (ingest_one-other c correlation_id anchor m es other))
    | inl same ↦ elim (Result-cases (verify_commitment c m anchor)) [
      | inl (e', failed) ↦
          let same_e =
            same_error (ingest_one-unverified c correlation_id anchor m es e' same failed) h in
          unverified (failed ∙ ap (λ (x : AgentCredsError). err x) same_e)
      | inr (_, verified) ↦ elim (Option-cases (find_entry es m.org_id m.seq)) [
        | inl absent ↦ absurd (
            ground (
              arith,
              h,
              ingest_one-admit c correlation_id anchor m es same verified,
              admit-none c correlation_id anchor m es absent,
            ))
        | inr (x, found) ↦
            let admitted =
              ingest_one-admit c correlation_id anchor m es same verified
              ∙ admit-some c correlation_id anchor m es x found in
            elim (Bool-cases (text_eq x.commitment m.commitment)) [
              | inl equal ↦ absurd (ground (arith, h, admitted, equal))
              | inr other ↦
                  conflicting x found (text_eq-false x.commitment m.commitment other)
                    (same_error h (admitted ∙ ground (arith, other)))
            ]
      ]
    ]
  ]

  -- A run stopped at one of its commitments: those before it are accepted by the entries that the run
  -- leaves, which are the ones that it found and, after them, entries of those commitments.
  pub record IsStopped (es es' : List CompositeEntry) (ms : List AuditCommitment)
      (e : AgentCredsError) : Type 0 where
    pub before : List AuditCommitment
    pub failing : AuditCommitment
    pub after : List AuditCommitment
    pub parts : ms ≡ before ++ failing ∷ after
    pub accepted : AllAccepted c correlation_id anchor before es'
    pub refused_by : IsRefused failing es' e
    pub more : List CompositeEntry
    pub kept : es' ≡ es ++ more
    pub added_by :
        (x : CompositeEntry) → Present x more → IsVerified c correlation_id anchor before x

  pub ingest_loop-IsStopped :
      (ms : List AuditCommitment) (es es' : List CompositeEntry) (e : AgentCredsError)
      → ingest_loop c correlation_id es ms anchor ≡ (es', err e)
      → IsStopped es es' ms e
  unfolding ingest_loop
  ingest_loop-IsStopped [] es es' e h = absurd (ground (arith, h))
  ingest_loop-IsStopped (m ∷ ms) es es' e h =
      elim (round c correlation_id anchor m es es (λ seq. refl)) [
        | refused e₁ l _ ↦
            let h' = sym (ingest_loop-err c correlation_id anchor m ms es e₁ l) ∙ h in
            let same : es ≡ es' = ground (arith, h') in
            let failed : err e₁ ≡ err e =
              ap (λ (p : List CompositeEntry × Result (Unit {0})). p.1) h' in
            let why = ingest_one-IsRefused m es e (l ∙ ground (arith, failed)) in
            record {
              before = [];
              failing = m;
              after = ms;
              parts = refl;
              accepted = tt;
              refused_by = rw same at why;
              more = [];
              kept = sym same ∙ sym (append-nil es);
              added_by = λ x p. absurd p;
            }
        | known a l _ ↦
            let rest =
              ingest_loop-IsStopped ms es es' e
                (sym (ingest_loop-ok c correlation_id anchor m ms es es l) ∙ h) in
            record {
              before = m ∷ rest.before;
              failing = rest.failing;
              after = rest.after;
              parts = ap (λ (l : List AuditCommitment). m ∷ l) rest.parts;
              accepted = (accepted_after m es es' rest.more a rest.kept, rest.accepted);
              refused_by = rest.refused_by;
              more = rest.more;
              kept = rest.kept;
              added_by = λ x p. IsVerified-cons c correlation_id anchor m (rest.added_by x p);
            }
        | added v a _ l _ ↦
            let fs = es ++ entry_of m ∷ [] in
            let rest =
              ingest_loop-IsStopped ms fs es' e
                (sym (ingest_loop-ok c correlation_id anchor m ms es fs l) ∙ h) in
            record {
              before = m ∷ rest.before;
              failing = rest.failing;
              after = rest.after;
              parts = ap (λ (l : List AuditCommitment). m ∷ l) rest.parts;
              accepted = (accepted_after m fs es' rest.more a rest.kept, rest.accepted);
              refused_by = rest.refused_by;
              more = entry_of m ∷ rest.more;
              kept = rest.kept ∙ append_assoc es (entry_of m ∷ []) rest.more;
              added_by = λ x p. elim p [
                | inl here ↦ rw here (v rest.before)
                | inr later ↦ IsVerified-cons c correlation_id anchor m (rest.added_by x later)
              ];
            }
      ]
    where
      accepted_after :
          (m : AuditCommitment) (es es' more : List CompositeEntry)
          → IsAccepted c correlation_id anchor m es
          → es' ≡ es ++ more
          → IsAccepted c correlation_id anchor m es'
      accepted_after m es es' more a k =
          rw k (IsAccepted-append c correlation_id anchor m es more a)
