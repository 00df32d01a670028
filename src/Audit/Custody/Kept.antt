-- ===== src/Audit/Custody/Kept.antt =====
-- Keys and accepted commitments along the loop of `AuditCompositor::ingest`.
use agentcreds.Prelude.{◌≡◌, refl, sym, ◌∙◌, ap, none, List, [], ◌∷◌, ◌++◌, arith}
use agentcreds.Outcome.{Result, ok}
use agentcreds.Text.{Text}
use agentcreds.Crypto.{Crypto}
use agentcreds.Did.{TrustAnchor}
use agentcreds.Audit.{
  AuditCommitment, CompositeEntry, find_entry, entry_of, sort_composite, ingest_loop,
}
use agentcreds.Audit.Order.{
  IsDistinct, is_at_self, is_at-key, find_entry-sort_composite, absent-cons,
}
use agentcreds.Audit.Custody.Runs.{
  IsAccepted, round, find_entry-append, accepted_known, refused, known, added,
}
use agentcreds.Audit.Custody.Loop.{ingest_loop-ok, ingest_loop-err, ingest_loop-Runs}

find_entry-absent_append :
    (es : List CompositeEntry) (e f : CompositeEntry)
    → find_entry (f ∷ es) e.org_id e.seq ≡ none
    → find_entry es f.org_id f.seq ≡ none
    → find_entry (es ++ e ∷ []) f.org_id f.seq ≡ none
unfolding find_entry
find_entry-absent_append es e f h k =
    find_entry-append es (e ∷ []) f.org_id f.seq
    ∙ ground (arith, k, absent-cons f es e.org_id e.seq h, is_at-key f.org_id f.seq e, is_at_self f)

IsDistinct-append :
    (es : List CompositeEntry) (e : CompositeEntry)
    → IsDistinct es
    → find_entry es e.org_id e.seq ≡ none
    → IsDistinct (es ++ e ∷ [])
unfolding find_entry
IsDistinct-append [] e d h = (refl, tt)
IsDistinct-append (f ∷ fs) e d h = (
  find_entry-absent_append fs e f h d.0,
  IsDistinct-append fs e d.1 (absent-cons f fs e.org_id e.seq h).1,
)

IsDistinct-added :
    (m : AuditCommitment) (es : List CompositeEntry)
    → IsDistinct es
    → find_entry es m.org_id m.seq ≡ none
    → IsDistinct (es ++ entry_of m ∷ [])
unfolding entry_of
IsDistinct-added m es d absent = IsDistinct-append es (entry_of m) d absent

module _ (c : Crypto) (correlation_id : Text) (anchor : TrustAnchor) where
  pub ingest_loop-IsDistinct :
      (ms : List AuditCommitment) (es : List CompositeEntry)
      → IsDistinct es
      → IsDistinct (ingest_loop c correlation_id es ms anchor).0
  unfolding ingest_loop
  ingest_loop-IsDistinct [] es d = d
  ingest_loop-IsDistinct (m ∷ ms) es d =
      elim (round c correlation_id anchor m es es (λ seq. refl)) [
        | refused e l _ ↦ rw (ingest_loop-err c correlation_id anchor m ms es e l) d
        | known _ l _ ↦
            rw (ingest_loop-ok c correlation_id anchor m ms es es l)
              (ingest_loop-IsDistinct ms es d)
        | added _ _ absent l _ ↦
            let es' = es ++ entry_of m ∷ [] in
            rw (ingest_loop-ok c correlation_id anchor m ms es es' l)
              (ingest_loop-IsDistinct ms es' (IsDistinct-added m es d absent))
      ]

  -- Every commitment of the list is accepted by the entries.
  abbrev pub AllAccepted : List AuditCommitment → List CompositeEntry → Type 0
  AllAccepted [] es = Unit
  AllAccepted (m ∷ ms) es = IsAccepted c correlation_id anchor m es × AllAccepted ms es

  pub IsAccepted-append :
      (m : AuditCommitment) (es more : List CompositeEntry)
      → IsAccepted c correlation_id anchor m es
      → IsAccepted c correlation_id anchor m (es ++ more)
  IsAccepted-append m es more a = record {
    correlates = a.correlates;
    verified = a.verified;
    entry = a.entry;
    found = find_entry-append es more m.org_id m.seq ∙ ground (arith, a.found);
    agrees = a.agrees;
  }

  IsAccepted-after :
      (m : AuditCommitment) (ms : List AuditCommitment) (es es' : List CompositeEntry)
      → IsAccepted c correlation_id anchor m es
      → ingest_loop c correlation_id es ms anchor ≡ (es', ok tt)
      → IsAccepted c correlation_id anchor m es'
  IsAccepted-after m ms es es' a h =
      let run = ingest_loop-Runs c correlation_id anchor ms es es (λ seq. refl) in
      let same : es ++ run.more ≡ es' =
        ap (λ (p : List CompositeEntry × Result (Unit {0})). p.0) (sym run.left ∙ h) in
      rw same at (IsAccepted-append m es run.more a)

  -- When the loop ends well it has accepted every commitment.
  pub ingest_loop-AllAccepted :
      (ms : List AuditCommitment) (es es' : List CompositeEntry)
      → ingest_loop c correlation_id es ms anchor ≡ (es', ok tt)
      → AllAccepted ms es'
  ingest_loop-AllAccepted [] es es' h = tt
  ingest_loop-AllAccepted (m ∷ ms) es es' h =
      elim (round c correlation_id anchor m es es (λ seq. refl)) [
        | refused e l _ ↦
            absurd (ground (arith, h, ingest_loop-err c correlation_id anchor m ms es e l))
        | known a l _ ↦
            let h' = sym (ingest_loop-ok c correlation_id anchor m ms es es l) ∙ h in
            (IsAccepted-after m ms es es' a h', ingest_loop-AllAccepted ms es es' h')
        | added _ a _ l _ ↦
            let h' =
              sym (ingest_loop-ok c correlation_id anchor m ms es (es ++ entry_of m ∷ []) l) ∙ h in
            (
              IsAccepted-after m ms (es ++ entry_of m ∷ []) es' a h',
              ingest_loop-AllAccepted ms (es ++ entry_of m ∷ []) es' h',
            )
      ]

  -- Accepted commitments change nothing.
  pub AllAccepted-ingest_loop :
      (ms : List AuditCommitment) (es : List CompositeEntry)
      → AllAccepted ms es
      → ingest_loop c correlation_id es ms anchor ≡ (es, ok tt)
  unfolding ingest_loop
  AllAccepted-ingest_loop [] es a = refl
  AllAccepted-ingest_loop (m ∷ ms) es a =
      ingest_loop-ok c correlation_id anchor m ms es es
        (accepted_known c correlation_id anchor m es a.0)
      ∙ AllAccepted-ingest_loop ms es a.1

  pub AllAccepted-sort_composite :
      (ms : List AuditCommitment) (es : List CompositeEntry)
      → IsDistinct es
      → AllAccepted ms es
      → AllAccepted ms (sort_composite es)
  AllAccepted-sort_composite [] es d a = tt
  AllAccepted-sort_composite (m ∷ ms) es d a = (
    record {
      correlates = a.0.correlates;
      verified = a.0.verified;
      entry = a.0.entry;
      found = find_entry-sort_composite es m.org_id m.seq d ∙ a.0.found;
      agrees = a.0.agrees;
    },
    AllAccepted-sort_composite ms es d a.1,
  )
