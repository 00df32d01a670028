-- ===== src/Audit/Reveal.antt =====
-- From `AuditLog::record` through `export` and `ingest` to `AuditCompositor::verify_revealed`.
use agentcreds.Prelude.{
  ℕ, zero, suc, ◌+◌, ◌≤◌, ◌≡◌, refl, sym, ◌∙◌, true, none, some, List, [], ◌∷◌, ◌++◌, length,
  get_elem?, arith,
}
use agentcreds.Outcome.{ok}
use agentcreds.Text.{Text, text_eq, text_eq_refl}
use agentcreds.Crypto.{Crypto, CryptoLaws}
use agentcreds.Did.{AgentIdentity, TrustAnchor, anchor_sign, signer_sign, verify_signature}
use agentcreds.Did.Laws.{software_anchor, IsKeyed, sign-verify}
use agentcreds.Audit.{
  AuditRecord, AuditCommitment, AuditLog, AuditCompositor, CompositeEntry, new_log, record_at,
  reveal, new_compositor, find_entry, is_at, entry_of, commitment_of, commitment_bytes,
  verify_commitment, commit, commit_all, export, ingest_loop, finish, ingest, verify_revealed,
}
use agentcreds.Audit.Custody.{ingest-IsMerged}
use agentcreds.Audit.Custody.Runs.{find_entry-append_none, ingest_one-admit, admit-none}
use agentcreds.Audit.Custody.Loop.{ingest_loop-ok}
use agentcreds.Audit.Custody.Kept.{AllAccepted}

-- The logs that an organization can have.
pub data IsLog (correlation_id org_id : Text) : AuditLog → Type 0 where
  opened : IsLog correlation_id org_id (new_log correlation_id org_id)
  recorded :
      {log : AuditLog}
      → IsLog correlation_id org_id log
      → (agent_did action outcome : Text) (timestamp : ℕ) (salt : Text)
      → IsLog correlation_id org_id (record_at log agent_did action outcome timestamp salt).0

-- The records are of one correlation and organization, numbered one by one from a number on.
abbrev Logged : Text → Text → ℕ → List AuditRecord → Type 0
Logged correlation_id org n [] = Unit
Logged correlation_id org n (r ∷ rs) =
    (r.correlation_id ≡ correlation_id)
    × (r.org_id ≡ org)
    × (r.seq ≡ n)
    × Logged correlation_id org (n + 1) rs

Logged-append :
    (correlation_id org : Text) (n : ℕ) (rs : List AuditRecord) (r : AuditRecord)
    → Logged correlation_id org n rs
    → r.correlation_id ≡ correlation_id
    → r.org_id ≡ org
    → r.seq ≡ n + length rs
    → Logged correlation_id org n (rs ++ r ∷ [])
Logged-append correlation_id org n [] r h i o s = (i, o, omega (arith, s), tt)
Logged-append correlation_id org n (q ∷ qs) r h i o s =
    let (a, b, d, rest) = h in
    (a, b, d, Logged-append correlation_id org (n + 1) qs r rest i o (omega (arith, s)))

-- What holds of a log at all times.
record LogShape (correlation_id org : Text) (log : AuditLog) : Type 0 where
  correlation : log.correlation_id ≡ correlation_id
  organization : log.org_id ≡ org
  numbered : Logged correlation_id org 0 log.records

IsLog-shape :
    (correlation_id org : Text) (log : AuditLog)
    → IsLog correlation_id org log
    → LogShape correlation_id org log
unfolding new_log record_at
IsLog-shape correlation_id org log opened = record {
  correlation = refl;
  organization = refl;
  numbered = tt;
}
IsLog-shape correlation_id org log (recorded {log = before} h d a o t s) =
    let shape = IsLog-shape correlation_id org before h in
    let r : AuditRecord = record {
      correlation_id = before.correlation_id;
      org_id = before.org_id;
      seq = length before.records;
      agent_did = d;
      action = a;
      outcome = o;
      timestamp = t;
      salt = s;
    } in
    record {
      correlation = shape.correlation;
      organization = shape.organization;
      numbered =
          Logged-append correlation_id org 0 before.records r shape.numbered shape.correlation
            shape.organization (omega arith);
    }

-- No entry of the organization is numbered from the number on.
abbrev Free : Text → ℕ → List CompositeEntry → Type 0
Free org n es = (seq : ℕ) → n ≤ seq → find_entry es org seq ≡ none

find_entry-past :
    (e : CompositeEntry) (org : Text) (seq : ℕ)
    → suc e.seq ≤ seq
    → find_entry (e ∷ []) org seq ≡ none
unfolding find_entry is_at
find_entry-past e org seq h = ground (arith, h)

module _ (c : Crypto) where
  -- The commitment is that of the record.
  record Commits (r : AuditRecord) (m : AuditCommitment) : Type 0 where
    correlation : m.correlation_id ≡ r.correlation_id
    organization : m.org_id ≡ r.org_id
    number : m.seq ≡ r.seq
    commitment : m.commitment ≡ commitment_of c r

  abbrev CommitsAll : List AuditRecord → List AuditCommitment → Type 0
  CommitsAll [] [] = Unit
  CommitsAll [] (m ∷ ms) = ⊥
  CommitsAll (r ∷ rs) [] = ⊥
  CommitsAll (r ∷ rs) (m ∷ ms) = Commits r m × CommitsAll rs ms

  -- An entry that stands for the record's commitment.
  record HasEntry (es : List CompositeEntry) (r : AuditRecord) : Type 0 where
    entry : CompositeEntry
    found : find_entry es r.org_id r.seq ≡ some entry
    agrees : entry.commitment ≡ commitment_of c r

  accepted-HasEntry :
      (correlation_id : Text) (anchor : TrustAnchor) (rs : List AuditRecord)
      (ms : List AuditCommitment) (es : List CompositeEntry) (i : ℕ) {r : AuditRecord}
      → CommitsAll rs ms
      → AllAccepted c correlation_id anchor ms es
      → get_elem? rs i ≡ some r
      → HasEntry es r
  accepted-HasEntry correlation_id anchor [] ms es i h a g = absurd (ground arith)
  accepted-HasEntry correlation_id anchor (q ∷ qs) [] es i h a g = absurd h
  accepted-HasEntry correlation_id anchor (q ∷ qs) (m ∷ ms) es zero {r} h a g =
      let same : q ≡ r = ground (arith, g) in
      let first : HasEntry es q = record {
        entry = a.0.entry;
        found = rw (sym h.0.organization, sym h.0.number) (a.0.found);
        agrees = a.0.agrees ∙ h.0.commitment;
      } in
      rw same at first
  accepted-HasEntry correlation_id anchor (q ∷ qs) (m ∷ ms) es (suc i) {r} h a g =
      accepted-HasEntry correlation_id anchor qs ms es i {r = r} h.1 a.1 g

  HasEntry-verify_revealed :
      (comp : AuditCompositor) (r : AuditRecord)
      → HasEntry comp.entries r
      → verify_revealed c comp r ≡ ok true
  unfolding verify_revealed
  HasEntry-verify_revealed comp r h =
      rw (h.found) (ground (arith, h.agrees, text_eq_refl (commitment_of c r)))

  module _ (L : CryptoLaws c) (a : AgentIdentity) (keyed : IsKeyed c a) where
    commit-verify_commitment :
        (r : AuditRecord)
        → r.org_id ≡ a.did
        → (m : AuditCommitment) × (commit c (software_anchor a) r ≡ ok m)
          × (verify_commitment c m (software_anchor a) ≡ ok tt)
          × Commits r m
    unfolding commit verify_commitment commitment_bytes anchor_sign signer_sign verify_signature
    commit-verify_commitment r own =
        let draft : AuditCommitment = record {
          correlation_id = r.correlation_id;
          org_id = r.org_id;
          seq = r.seq;
          timestamp = r.timestamp;
          commitment = commitment_of c r;
          signature = [];
        } in
        let (sig, signed, verified) = sign-verify c L a (c.sha256 (commitment_bytes draft)) keyed in
        let done : AuditCommitment = record draft { signature = c.base64_encode sig } in
        (
          done,
          rw signed refl,
          ground (arith, own, text_eq_refl a.did, L.base64-decode-encode sig, verified),
          record { correlation = refl; organization = refl; number = refl; commitment = refl },
        )

    -- Committing to a log and reading the commitments back into entries that have none of it succeeds.
    commit_all-ingest_loop :
        (correlation_id : Text) (rs : List AuditRecord) (n : ℕ) (es : List CompositeEntry)
        → Logged correlation_id a.did n rs
        → Free a.did n es
        → (ms : List AuditCommitment) × (es' : List CompositeEntry) × (commit_all c
              (software_anchor a)
              rs
            ≡ ok ms)
          × (ingest_loop c correlation_id es ms (software_anchor a) ≡ (es', ok tt))
          × CommitsAll rs ms
    unfolding commit_all ingest_loop entry_of
    commit_all-ingest_loop correlation_id [] n es h free = ([], es, refl, refl, tt)
    commit_all-ingest_loop correlation_id (r ∷ rs) n es h free =
        let (id, own, number, later) = h in
        let (m, made, verified, commits) = commit-verify_commitment r own in
        let absent : find_entry es m.org_id m.seq ≡ none =
          rw (commits.organization, own, commits.number, number) (free n (omega arith)) in
        let correlates : text_eq m.correlation_id correlation_id ≡ true =
          rw (commits.correlation, id) (text_eq_refl correlation_id) in
        let es₁ = es ++ entry_of m ∷ [] in
        let one =
          ingest_one-admit c correlation_id (software_anchor a) m es correlates verified
          ∙ admit-none c correlation_id (software_anchor a) m es absent in
        let free₁ : Free a.did (n + 1) es₁ = λ seq le.
          find_entry-append_none es (entry_of m ∷ []) a.did seq
            (find_entry-past (entry_of m) a.did seq (omega (arith, commits.number, number, le)))
          ∙ free seq (omega (arith, le)) in
        let (ms, es', all, ran, rest) =
          commit_all-ingest_loop correlation_id rs (n + 1) es₁ later free₁ in
        (
          m ∷ ms,
          es',
          rw (made, all) refl,
          ingest_loop-ok c correlation_id (software_anchor a) m ms es es₁ one ∙ ran,
          (commits, rest),
        )

    -- A keyed organization exports any log it has made, a new compositor of the correlation ingests the
    -- export, and every record that the log reveals then checks as true.
    pub export-verify_revealed :
        (correlation_id : Text) (log : AuditLog)
        → IsLog correlation_id a.did log
        → (ms : List AuditCommitment) × (comp : AuditCompositor) × (export c log (software_anchor a)
            ≡ ok ms)
          × (ingest c (new_compositor correlation_id) ms (software_anchor a) ≡ (comp, ok tt))
          × ((i : ℕ) (r : AuditRecord) → reveal log i ≡ some r → verify_revealed c comp r ≡ ok true)
    unfolding export ingest finish new_compositor reveal find_entry
    export-verify_revealed correlation_id log h =
        let shape = IsLog-shape correlation_id a.did log h in
        let (ms, es', all, ran, commits) =
          commit_all-ingest_loop correlation_id log.records 0 [] shape.numbered (λ seq le. refl) in
        let comp : AuditCompositor = (finish c (new_compositor correlation_id) (es', ok tt)).0 in
        let ingests : ingest c (new_compositor correlation_id) ms (software_anchor a)
            ≡ (comp, ok tt) =
          rw ran refl in
        let merged =
          ingest-IsMerged c (new_compositor correlation_id) comp ms (software_anchor a) tt
            ingests in
        (
          ms,
          comp,
          rw (shape.organization, text_eq_refl a.did, all) refl,
          ingests,
          λ i r g. HasEntry-verify_revealed comp r (
              accepted-HasEntry correlation_id (software_anchor a) log.records ms comp.entries i
                {r = r} commits merged.accepted g),
        )
