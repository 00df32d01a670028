-- ===== src/Audit/Custody/Loop.antt =====
-- Whole runs of the loop of `AuditCompositor::ingest`.
use agentcreds.Prelude.{◌≡◌, inl, inr, refl, ◌∙◌, List, [], ◌∷◌, ◌++◌}
use mathlib.Core.List.{append_assoc, append-nil}
use agentcreds.Outcome.{Result, ok, err, AgentCredsError}
use agentcreds.Text.{Text}
use agentcreds.Crypto.{Crypto}
use agentcreds.Did.{TrustAnchor}
use agentcreds.Audit.{AuditCommitment, CompositeEntry, entry_of, ingest_one, ingest_loop}
use agentcreds.Audit.Order.{Present}
use agentcreds.Audit.Custody.Runs.{Agree, Agree-append, round, refused, known, added}
use agentcreds.Audit.Custody.Verified.{IsVerified, IsVerified-cons}

module _ (c : Crypto) (correlation_id : Text) (anchor : TrustAnchor) where
  -- A run of the loop on two lists that agree appends the same verified entries to both.
  pub record Runs (ms : List AuditCommitment) (es fs : List CompositeEntry) : Type 0 where
    pub more : List CompositeEntry
    pub outcome : Result (Unit {0})
    pub left : ingest_loop c correlation_id es ms anchor ≡ (es ++ more, outcome)
    pub right : ingest_loop c correlation_id fs ms anchor ≡ (fs ++ more, outcome)
    pub verified : (e : CompositeEntry) → Present e more → IsVerified c correlation_id anchor ms e

  pub ingest_loop-err :
      (m : AuditCommitment) (ms : List AuditCommitment) (es : List CompositeEntry)
      (e : AgentCredsError)
      → ingest_one c correlation_id es m anchor ≡ err e
      → ingest_loop c correlation_id es (m ∷ ms) anchor ≡ (es, err e)
  unfolding ingest_loop
  ingest_loop-err m ms es e h = rw (ingest_loop, h) refl

  pub ingest_loop-ok :
      (m : AuditCommitment) (ms : List AuditCommitment) (es fs : List CompositeEntry)
      → ingest_one c correlation_id es m anchor ≡ ok fs
      → ingest_loop c correlation_id es (m ∷ ms) anchor ≡ ingest_loop c correlation_id fs ms anchor
  unfolding ingest_loop
  ingest_loop-ok m ms es fs h = rw (ingest_loop, h) refl

  regroup :
      (es : List CompositeEntry) (e : CompositeEntry) (more : List CompositeEntry)
      (o : Result (Unit {0})) {run : List CompositeEntry × Result (Unit {0})}
      → run ≡ ((es ++ e ∷ []) ++ more, o)
      → run ≡ (es ++ e ∷ more, o)
  regroup es e more o h = rw (append_assoc es (e ∷ []) more) at h

  pub ingest_loop-Runs :
      (ms : List AuditCommitment) (es fs : List CompositeEntry)
      → Agree anchor.did es fs
      → Runs ms es fs
  unfolding ingest_loop
  ingest_loop-Runs [] es fs agree = record {
    more = [];
    outcome = ok tt;
    left = rw (append-nil es) refl;
    right = rw (append-nil fs) refl;
    verified = λ e p. absurd p;
  }
  ingest_loop-Runs (m ∷ ms) es fs agree = elim (round c correlation_id anchor m es fs agree) [
    | refused e l r ↦ record {
      more = [];
      outcome = err e;
      left = rw (append-nil es) (ingest_loop-err m ms es e l);
      right = rw (append-nil fs) (ingest_loop-err m ms fs e r);
      verified = λ x p. absurd p;
    }
    | known _ l r ↦
        let rest = ingest_loop-Runs ms es fs agree in
        record {
          more = rest.more;
          outcome = rest.outcome;
          left = ingest_loop-ok m ms es es l ∙ rest.left;
          right = ingest_loop-ok m ms fs fs r ∙ rest.right;
          verified = λ x p. IsVerified-cons c correlation_id anchor m (rest.verified x p);
        }
    | added v _ _ l r ↦
        let es' = es ++ entry_of m ∷ [] in
        let fs' = fs ++ entry_of m ∷ [] in
        let rest =
          ingest_loop-Runs ms es' fs' (Agree-append anchor.did es fs (entry_of m ∷ []) agree) in
        record {
          more = entry_of m ∷ rest.more;
          outcome = rest.outcome;
          left =
              ingest_loop-ok m ms es es' l
              ∙ regroup es (entry_of m) rest.more rest.outcome rest.left;
          right =
              ingest_loop-ok m ms fs fs' r
              ∙ regroup fs (entry_of m) rest.more rest.outcome rest.right;
          verified = λ x p. elim p [
            | inl here ↦ rw here (v ms)
            | inr later ↦ IsVerified-cons c correlation_id anchor m (rest.verified x later)
          ];
        }
  ]
