-- ===== src/Audit/Custody.antt =====
-- `AuditCompositor::ingest`: its runs, by how they end, and the compositors that they reach.
pub mod Verified
pub mod Runs
pub mod Loop
pub mod Kept
pub mod Stops
use agentcreds.Prelude.{
  ℕ, ◌≡◌, ◌≢◌, ◌⊎◌, inl, inr, refl, sym, ◌∙◌, ap, List, [], ◌∷◌, ◌++◌, none, some, arith,
}
use agentcreds.Outcome.{Result, ok, err, AgentCredsError}
use agentcreds.Text.{Text}
use agentcreds.Crypto.{Crypto}
use agentcreds.Did.{TrustAnchor}
use agentcreds.Audit.{
  AuditCommitment, AuditCompositor, CompositeEntry, find_entry, new_compositor, sort_composite,
  insert_composite, entry_le, ingest_loop, finish, ingest,
}
use agentcreds.Audit.Order.{
  Present, IsDistinct, IsSorted, sort_composite-IsSorted, sort_composite-IsDistinct,
  sort_composite-sorted, find_entry-sort_composite, Present-sort_composite, Present-append,
}
use Runs.{IsAccepted, find_entry-append}
use Verified.{IsVerified}
use Loop.{ingest_loop-Runs}
use Stops.{IsStopped, ingest_loop-IsStopped}
use Kept.{
  ingest_loop-IsDistinct, AllAccepted, ingest_loop-AllAccepted, AllAccepted-ingest_loop,
  AllAccepted-sort_composite,
}

module _ (c : Crypto) where
  -- The compositors that sequences of runs lead to, failed runs included, with the commitments and the
  -- anchor of each run, the last one first.
  pub data Reached (correlation_id : Text)
      : List (List AuditCommitment × TrustAnchor) → AuditCompositor → Type 0 where
    started : Reached correlation_id [] (new_compositor correlation_id)
    ingested :
        {runs : List (List AuditCommitment × TrustAnchor)} {comp : AuditCompositor}
        → Reached correlation_id runs comp
        → (ms : List AuditCommitment) (anchor : TrustAnchor)
        → Reached correlation_id ((ms, anchor) ∷ runs) (ingest c comp ms anchor).0

  -- One of the runs was given a commitment that the entry stands for, and the anchor that signed it.
  abbrev pub Traced : Text → List (List AuditCommitment × TrustAnchor) → CompositeEntry → Type 0
  Traced correlation_id [] e = ⊥
  Traced correlation_id ((ms, anchor) ∷ runs) e =
      IsVerified c correlation_id anchor ms e ⊎ Traced correlation_id runs e

  -- How a run ends.
  pub data Ended (comp : AuditCompositor) (ms : List AuditCommitment) (anchor : TrustAnchor)
      : Type 0 where
    completed :
        (more : List CompositeEntry)
        → ((e : CompositeEntry) → Present e more → IsVerified c comp.correlation_id anchor ms e)
        → ingest_loop c comp.correlation_id comp.entries ms anchor ≡ (comp.entries ++ more, ok tt)
        → ingest c comp ms anchor
          ≡ (record comp { entries = sort_composite (comp.entries ++ more) }, ok tt)
        → Ended comp ms anchor
    stopped :
        (more : List CompositeEntry) (e : AgentCredsError)
        → ((e : CompositeEntry) → Present e more → IsVerified c comp.correlation_id anchor ms e)
        → ingest_loop c comp.correlation_id comp.entries ms anchor ≡ (comp.entries ++ more, err e)
        → ingest c comp ms anchor ≡ (record comp { entries = comp.entries ++ more }, err e)
        → Ended comp ms anchor

  pub ingest-Ended :
      (comp : AuditCompositor) (ms : List AuditCommitment) (anchor : TrustAnchor)
      → Ended comp ms anchor
  unfolding ingest finish
  ingest-Ended comp ms anchor =
      let run =
        ingest_loop-Runs c comp.correlation_id anchor ms comp.entries comp.entries (λ seq. refl) in
      split run.more run.outcome run.verified run.left
    where
      split :
          (more : List CompositeEntry) (o : Result (Unit {0}))
          → ((e : CompositeEntry) → Present e more → IsVerified c comp.correlation_id anchor ms e)
          → ingest_loop c comp.correlation_id comp.entries ms anchor ≡ (comp.entries ++ more, o)
          → Ended comp ms anchor
      split more (ok tt) v h = completed more v h (rw h refl)
      split more (err e) v h = stopped more e v h (rw h refl)

  -- What holds of a compositor after the runs.
  pub record IsComposited (correlation_id : Text) (runs : List (List AuditCommitment × TrustAnchor))
      (comp : AuditCompositor) : Type 0 where
    pub correlation : comp.correlation_id ≡ correlation_id
    pub distinct : IsDistinct comp.entries
    pub traced : (e : CompositeEntry) → Present e comp.entries → Traced correlation_id runs e

  Traced-append :
      (correlation_id : Text) (runs : List (List AuditCommitment × TrustAnchor))
      (ms : List AuditCommitment) (anchor : TrustAnchor) (es more : List CompositeEntry)
      → ((e : CompositeEntry) → Present e es → Traced correlation_id runs e)
      → ((e : CompositeEntry) → Present e more → IsVerified c correlation_id anchor ms e)
      → (e : CompositeEntry) → Present e (es ++ more)
      → Traced correlation_id ((ms, anchor) ∷ runs) e
  Traced-append correlation_id runs ms anchor es more v w e p =
      elim ((Present-append e es more).0 p) [ inl q ↦ inr (v e q) | inr q ↦ inl (w e q) ]

  IsDistinct-after :
      (comp : AuditCompositor) (ms : List AuditCommitment) (anchor : TrustAnchor)
      (more : List CompositeEntry) {o : Result (Unit {0})}
      → IsDistinct comp.entries
      → ingest_loop c comp.correlation_id comp.entries ms anchor ≡ (comp.entries ++ more, o)
      → IsDistinct (comp.entries ++ more)
  IsDistinct-after comp ms anchor more d h =
      let k = ingest_loop-IsDistinct c comp.correlation_id anchor ms comp.entries d in rw h at k

  ingest-IsComposited :
      (correlation_id : Text) (runs : List (List AuditCommitment × TrustAnchor))
      (comp : AuditCompositor) (ms : List AuditCommitment) (anchor : TrustAnchor)
      → IsComposited correlation_id runs comp
      → IsComposited correlation_id ((ms, anchor) ∷ runs) (ingest c comp ms anchor).0
  ingest-IsComposited correlation_id runs comp ms anchor i = elim (ingest-Ended comp ms anchor) [
    | completed more v l h ↦
        let all = IsDistinct-after comp ms anchor more i.distinct l in
        rw h (record {
          correlation = i.correlation;
          distinct = sort_composite-IsDistinct (comp.entries ++ more) all;
          traced = λ e p.
              Traced-append correlation_id runs ms anchor comp.entries more i.traced
                (rw i.correlation at v) e ((Present-sort_composite e (comp.entries ++ more)).0 p);
        })
    | stopped more e v l h ↦ rw h (record {
      correlation = i.correlation;
      distinct = IsDistinct-after comp ms anchor more i.distinct l;
      traced =
          Traced-append correlation_id runs ms anchor comp.entries more i.traced
            (rw i.correlation at v);
    })
  ]

  -- After any sequence of runs, failed runs included, no two entries are of one organization and number,
  -- and each entry was given to one of the runs: it has the organization, the number, the time and the
  -- commitment of one of that run's commitments, which is of the compositor's correlation and carries a
  -- signature over its fields that verifies under that run's anchor, whose DID is the organization.
  pub Reached-IsComposited :
      (correlation_id : Text) (runs : List (List AuditCommitment × TrustAnchor))
      (comp : AuditCompositor)
      → Reached correlation_id runs comp
      → IsComposited correlation_id runs comp
  unfolding new_compositor
  Reached-IsComposited correlation_id _ comp started = record {
    correlation = refl;
    distinct = tt;
    traced = λ e p. absurd p;
  }
  Reached-IsComposited correlation_id _ comp
        (ingested {runs = earlier} {comp = before} r ms anchor) =
      ingest-IsComposited correlation_id earlier before ms anchor
        (Reached-IsComposited correlation_id earlier before r)

  -- What a run that ends well leaves.
  pub record IsMerged (comp : AuditCompositor) (ms : List AuditCommitment) (anchor : TrustAnchor)
      (comp' : AuditCompositor) : Type 0 where
    pub sorted : IsSorted comp'.entries
    pub accepted : AllAccepted c comp.correlation_id anchor ms comp'.entries
    pub kept :
        (org : Text) (seq : ℕ) {x : CompositeEntry}
        → find_entry comp.entries org seq ≡ some x
        → find_entry comp'.entries org seq ≡ some x
    pub again : ingest c comp' ms anchor ≡ (comp', ok tt)

  merged :
      (comp : AuditCompositor) (ms : List AuditCommitment) (anchor : TrustAnchor)
      (more : List CompositeEntry)
      → IsDistinct comp.entries
      → ingest_loop c comp.correlation_id comp.entries ms anchor ≡ (comp.entries ++ more, ok tt)
      → IsMerged comp ms anchor (record comp { entries = sort_composite (comp.entries ++ more) })
  unfolding ingest finish
  merged comp ms anchor more d h =
      let all = IsDistinct-after comp ms anchor more d h in
      let sorted = sort_composite-IsSorted (comp.entries ++ more) in
      let accepted =
        AllAccepted-sort_composite c comp.correlation_id anchor ms (comp.entries ++ more) all (
          ingest_loop-AllAccepted c comp.correlation_id anchor ms comp.entries
            (comp.entries ++ more) h) in
      let quiet =
        AllAccepted-ingest_loop c comp.correlation_id anchor ms
          (sort_composite (comp.entries ++ more)) accepted in
      record {
        sorted = sorted;
        accepted = accepted;
        kept = λ org seq {x} found.
            find_entry-sort_composite (comp.entries ++ more) org seq all
            ∙ (find_entry-append comp.entries more org seq ∙ ground (arith, found));
        again =
            rw (quiet, sort_composite-sorted (sort_composite (comp.entries ++ more)) sorted) refl;
      }

  -- A run that ends well on distinct entries leaves them sorted, with every commitment verified and its
  -- entry there, keeps what a search found before, and the same run again changes nothing.
  pub ingest-IsMerged :
      (comp comp' : AuditCompositor) (ms : List AuditCommitment) (anchor : TrustAnchor)
      → IsDistinct comp.entries
      → ingest c comp ms anchor ≡ (comp', ok tt)
      → IsMerged comp ms anchor comp'
  ingest-IsMerged comp comp' ms anchor d h = elim (ingest-Ended comp ms anchor) [
    | completed more _ l k ↦
        let same = ap (λ (p : AuditCompositor × Result (Unit {0})). p.0) (sym k ∙ h) in
        rw same at (merged comp ms anchor more d l)
    | stopped more e _ l k ↦ absurd (ground (arith, h, k))
  ]

  -- A run that fails has stopped at one of its commitments, which is of another correlation, does not
  -- verify or conflicts with an entry, with that error. The commitments before it are verified and their
  -- entries are there. The entries are those from before the run and after them, unsorted, the new ones,
  -- each of a commitment that came before the failing one. The correlation is kept.
  pub ingest-IsStopped :
      (comp comp' : AuditCompositor) (ms : List AuditCommitment) (anchor : TrustAnchor)
      (e : AgentCredsError)
      → ingest c comp ms anchor ≡ (comp', err e)
      → IsStopped c comp.correlation_id anchor comp.entries comp'.entries ms e
        × (comp'.correlation_id ≡ comp.correlation_id)
  ingest-IsStopped comp comp' ms anchor e h = elim (ingest-Ended comp ms anchor) [
    | completed more _ _ k ↦ absurd (ground (arith, h, k))
    | stopped more e₁ _ l k ↦
        let ends = sym k ∙ h in
        let after = ap (λ (p : AuditCompositor × Result (Unit {0})). p.0) ends in
        let fails = ap (λ (p : AuditCompositor × Result (Unit {0})). p.1) ends in
        let left = ap (λ (a : AuditCompositor). a.entries) after in
        (
          ingest_loop-IsStopped c comp.correlation_id anchor ms comp.entries comp'.entries e
              (l ∙ rw (left, fails) refl),
          sym (ap (λ (a : AuditCompositor). a.correlation_id) after),
        )
  ]
