-- ===== src/Audit.antt =====
-- agentcreds-core/src/audit.rs: an organization's log, the signed commitments that it shares and the
-- compositor that merges those of several organizations. A random salt is an argument.
pub mod Binding
pub mod Custody
pub mod Merging
pub mod Order
pub mod Precedence
pub mod Reveal
use agentcreds.Prelude.{
  ℕ, ◌≡◌, Bool, true, false, ◌&&◌, not, Option, none, some, List, [], ◌∷◌, ◌++◌, ltb, leb, ◌==◌,
  length, get_elem?, if◌then◌else◌,
}
use agentcreds.Outcome.{
  Result, ok, err, AgentCredsError, ◌>>=◌, ◌>>◌, guard, ok_or, map_err, invalid_vc_proof,
}
use agentcreds.Text.{Text, codes, text_eq, text_le}
use agentcreds.Codec.{u64_le, hash_field}
use agentcreds.Crypto.{Crypto}
use agentcreds.Did.{TrustAnchor, anchor_sign, verify_signature}
use agentcreds.Approval.Directory.{seconds_le}

pub record AuditRecord : Type 0 where
  pub correlation_id : Text
  pub org_id : Text
  pub seq : ℕ
  pub agent_did : Text
  pub action : Text
  pub outcome : Text
  pub timestamp : ℕ
  pub salt : Text

pub record AuditCommitment : Type 0 where
  pub correlation_id : Text
  pub org_id : Text
  pub seq : ℕ
  pub timestamp : ℕ
  pub commitment : Text
  pub signature : Text

pub record AuditLog : Type 0 where
  pub correlation_id : Text
  pub org_id : Text
  pub records : List AuditRecord

pub record CompositeEntry : Type 0 where
  pub org_id : Text
  pub seq : ℕ
  pub timestamp : ℕ
  pub commitment : Text

pub record AuditCompositor : Type 0 where
  pub correlation_id : Text
  pub entries : List CompositeEntry

abbrev pub commitment_domain : Text
commitment_domain = codes "agentcreds-audit-record-v1"

abbrev pub signature_domain : Text
signature_domain = codes "agentcreds-audit-commitment-v1"

-- What `AuditRecord::commitment` feeds to the hash.
unfoldable pub record_bytes : AuditRecord → Text
record_bytes r =
    commitment_domain
    ++ (hash_field r.correlation_id
        ++ (hash_field r.org_id
            ++ (u64_le r.seq
                ++ (hash_field r.agent_did
                    ++ (hash_field r.action
                        ++ (hash_field r.outcome
                            ++ (seconds_le r.timestamp ++ hash_field r.salt)))))))

-- What `AuditCommitment::signing_payload` feeds to the hash.
unfoldable pub commitment_bytes : AuditCommitment → Text
commitment_bytes m =
    signature_domain
    ++ (hash_field m.correlation_id
        ++ (hash_field m.org_id
            ++ (u64_le m.seq ++ (seconds_le m.timestamp ++ hash_field m.commitment))))

unfoldable pub new_log : Text → Text → AuditLog
new_log correlation_id org_id = record {
  correlation_id = correlation_id;
  org_id = org_id;
  records = [];
}

unfoldable pub record_at : AuditLog → Text → Text → Text → ℕ → Text → AuditLog × ℕ
record_at log agent_did action outcome timestamp salt =
    let seq = length log.records in
    (
      record log {
        records =
            log.records
            ++ record {
              correlation_id = log.correlation_id;
              org_id = log.org_id;
              seq = seq;
              agent_did = agent_did;
              action = action;
              outcome = outcome;
              timestamp = timestamp;
              salt = salt;
            }
              ∷ [];
      },
      seq,
    )

unfoldable pub reveal : AuditLog → ℕ → Option AuditRecord
reveal log seq = get_elem? log.records seq

unfoldable pub new_compositor : Text → AuditCompositor
new_compositor correlation_id = record { correlation_id = correlation_id; entries = [] }

-- `e.org_id == org && e.seq == seq`
unfoldable pub is_at : Text → ℕ → CompositeEntry → Bool
is_at org seq e = text_eq e.org_id org && e.seq == seq

unfoldable pub find_entry : List CompositeEntry → Text → ℕ → Option CompositeEntry
find_entry [] org seq = none
find_entry (e ∷ es) org seq =
    let rest = find_entry es org seq in if is_at org seq e then some e else rest

unfoldable pub entry_of : AuditCommitment → CompositeEntry
entry_of m = record {
  org_id = m.org_id;
  seq = m.seq;
  timestamp = m.timestamp;
  commitment = m.commitment;
}

-- The comparison of `sort_by`: by time, then by organization, then by number.
unfoldable pub entry_le : CompositeEntry → CompositeEntry → Bool
entry_le a b =
    if ltb a.timestamp b.timestamp
    then true
    else if ltb b.timestamp a.timestamp
    then false
    else if text_eq a.org_id b.org_id
    then leb a.seq b.seq
    else text_le a.org_id b.org_id

unfoldable pub insert_composite : CompositeEntry → List CompositeEntry → List CompositeEntry
insert_composite e [] = e ∷ []
insert_composite e (f ∷ fs) = if entry_le e f then e ∷ f ∷ fs else f ∷ insert_composite e fs

unfoldable pub sort_composite : List CompositeEntry → List CompositeEntry
sort_composite [] = []
sort_composite (e ∷ es) = insert_composite e (sort_composite es)

unfoldable pub chain_bytes : List CompositeEntry → Text
chain_bytes [] = []
chain_bytes (e ∷ es) =
    hash_field e.org_id
    ++ (u64_le e.seq ++ (seconds_le e.timestamp ++ (hash_field e.commitment ++ chain_bytes es)))

module _ (c : Crypto) where
  unfoldable pub commitment_of : AuditRecord → Text
  commitment_of r = c.hex_encode (c.sha256 (record_bytes r))

  -- `AuditCommitment::verify`.
  unfoldable pub verify_commitment : AuditCommitment → TrustAnchor → Result (Unit {0})
  verify_commitment m org_anchor = do
    guard (text_eq m.org_id org_anchor.did)
        (invalid_vc_proof "commitment org_id does not match the anchor")
    sig ← ok_or (c.base64_decode m.signature) (invalid_vc_proof "signature base64")
    map_err (verify_signature c org_anchor (c.sha256 (commitment_bytes m)) sig)
        (invalid_vc_proof "commitment signature does not verify")

  unfoldable pub commit : TrustAnchor → AuditRecord → Result AuditCommitment
  commit anchor r = do
    let draft : AuditCommitment = record {
      correlation_id = r.correlation_id;
      org_id = r.org_id;
      seq = r.seq;
      timestamp = r.timestamp;
      commitment = commitment_of r;
      signature = [];
    }
    sig ← anchor_sign c anchor (c.sha256 (commitment_bytes draft))
    ok (record draft { signature = c.base64_encode sig })

  -- The loop of `export`.
  unfoldable pub commit_all : TrustAnchor → List AuditRecord → Result (List AuditCommitment)
  commit_all anchor [] = ok []
  commit_all anchor (r ∷ rs) = do m ← commit anchor r; ms ← commit_all anchor rs; ok (m ∷ ms)

  unfoldable pub export : AuditLog → TrustAnchor → Result (List AuditCommitment)
  export log anchor = do
    guard (text_eq anchor.did log.org_id) (invalid_vc_proof "anchor does not match this log's org")
    commit_all anchor log.records

  -- The end of one round of `ingest`: an entry of this organization and number must agree, and a new
  -- one is pushed.
  unfoldable pub admit : List CompositeEntry → AuditCommitment → Result (List CompositeEntry)
  admit entries m = elim (find_entry entries m.org_id m.seq) [
    | none ↦ ok (entries ++ entry_of m ∷ [])
    | some existing ↦
        if text_eq existing.commitment m.commitment
        then ok entries
        else err (invalid_vc_proof "conflicting commitment")
  ]

  unfoldable pub ingest_one :
      Text → List CompositeEntry → AuditCommitment → TrustAnchor → Result (List CompositeEntry)
  ingest_one correlation_id entries m org_anchor = do
    guard (text_eq m.correlation_id correlation_id)
        (invalid_vc_proof "commitment correlation_id does not match")
    verify_commitment m org_anchor
    admit entries m

  -- The loop of `ingest`: the entries when it ends, and whether it ended with an error.
  unfoldable pub ingest_loop :
      Text
      → List CompositeEntry
      → List AuditCommitment
      → TrustAnchor
      → List CompositeEntry × Result (Unit {0})
  ingest_loop correlation_id entries [] org_anchor = (entries, ok tt)
  ingest_loop correlation_id entries (m ∷ ms) org_anchor =
      elim (ingest_one correlation_id entries m org_anchor) [
        | err e ↦ (entries, err e)
        | ok entries' ↦ ingest_loop correlation_id entries' ms org_anchor
      ]

  -- The sort after the loop, which an error skips.
  unfoldable pub finish :
      AuditCompositor
      → List CompositeEntry × Result (Unit {0})
      → AuditCompositor × Result (Unit {0})
  finish comp (entries, ok _) = (record comp { entries = sort_composite entries }, ok tt)
  finish comp (entries, err e) = (record comp { entries = entries }, err e)

  unfoldable pub ingest :
      AuditCompositor → List AuditCommitment → TrustAnchor → AuditCompositor × Result (Unit {0})
  ingest comp commitments org_anchor =
      finish comp (ingest_loop comp.correlation_id comp.entries commitments org_anchor)

  unfoldable pub root_hash : AuditCompositor → Text
  root_hash comp =
      c.hex_encode (
        c.sha256 (signature_domain ++ (hash_field comp.correlation_id ++ chain_bytes comp.entries)))

  unfoldable pub verify_revealed : AuditCompositor → AuditRecord → Result Bool
  verify_revealed comp r = do
    entry ←
        ok_or (find_entry comp.entries r.org_id r.seq)
          (invalid_vc_proof "no composited entry for this record")
    ok (text_eq entry.commitment (commitment_of r))
