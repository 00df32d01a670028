-- ===== src/Audit/Custody/Runs.antt =====
-- One round of the loop of `AuditCompositor::ingest`, on two lists of entries at once.
use agentcreds.Prelude.{
  ℕ, ◌≡◌, inl, inr, refl, sym, ◌∙◌, ap, true, false, Bool-cases, Option-cases, Option, none, some,
  List, [], ◌∷◌, ◌++◌, arith, if◌then◌else◌,
}
use agentcreds.Outcome.{ok, err, AgentCredsError, invalid_vc_proof, Result-cases}
use agentcreds.Text.{Text, text_eq, text_eq→eq, text_eq_refl}
use agentcreds.Crypto.{Crypto}
use agentcreds.Did.{TrustAnchor}
use agentcreds.Audit.{
  AuditCommitment, CompositeEntry, find_entry, entry_of, verify_commitment, admit, ingest_one,
}
use agentcreds.Audit.Order.{is_at_self}
use agentcreds.Audit.Custody.Verified.{IsVerified, verified_org, IsVerified-of_verified}

abbrev or_else {ℓ} : {A : Type ℓ} → Option A → Option A → Option A
or_else none b = b
or_else (some a) b = some a

pub find_entry-append :
    (es fs : List CompositeEntry) (org : Text) (seq : ℕ)
    → find_entry (es ++ fs) org seq ≡ or_else (find_entry es org seq) (find_entry fs org seq)
unfolding find_entry
find_entry-append [] fs org seq = refl
find_entry-append (e ∷ es) fs org seq = ground (arith, find_entry-append es fs org seq)

or_else-none {ℓ} : {A : Type ℓ} (o : Option A) → or_else o none ≡ o
or_else-none none = refl
or_else-none (some a) = refl

pub find_entry-append_none :
    (es fs : List CompositeEntry) (org : Text) (seq : ℕ)
    → find_entry fs org seq ≡ none
    → find_entry (es ++ fs) org seq ≡ find_entry es org seq
find_entry-append_none es fs org seq h =
    find_entry-append es fs org seq
    ∙ (ap (or_else (find_entry es org seq)) h ∙ or_else-none (find_entry es org seq))

-- The two lists have the same entries of the organization.
abbrev pub Agree : Text → List CompositeEntry → List CompositeEntry → Type 0
Agree org es fs = (seq : ℕ) → find_entry es org seq ≡ find_entry fs org seq

pub Agree-append :
    (org : Text) (es fs more : List CompositeEntry)
    → Agree org es fs
    → Agree org (es ++ more) (fs ++ more)
Agree-append org es fs more h seq =
    find_entry-append es more org seq
    ∙ (ap (λ (o : Option CompositeEntry). or_else o (find_entry more org seq)) (h seq)
        ∙ sym (find_entry-append fs more org seq))

find_entry-added :
    (m : AuditCommitment) (es : List CompositeEntry)
    → find_entry es m.org_id m.seq ≡ none
    → find_entry (es ++ entry_of m ∷ []) m.org_id m.seq ≡ some (entry_of m)
unfolding find_entry entry_of
find_entry-added m es absent =
    find_entry-append es (entry_of m ∷ []) m.org_id m.seq
    ∙ ground (arith, absent, is_at_self (entry_of m))

module _ (c : Crypto) (correlation_id : Text) (anchor : TrustAnchor) where
  -- The commitment verifies, and the list has its entry.
  pub record IsAccepted (m : AuditCommitment) (es : List CompositeEntry) : Type 0 where
    pub correlates : text_eq m.correlation_id correlation_id ≡ true
    pub verified : verify_commitment c m anchor ≡ ok tt
    pub entry : CompositeEntry
    pub found : find_entry es m.org_id m.seq ≡ some entry
    pub agrees : entry.commitment ≡ m.commitment

  -- What one round of the loop does to two lists that agree.
  pub data Round (m : AuditCommitment) (es fs : List CompositeEntry) : Type 0 where
    refused :
        (e : AgentCredsError)
        → ingest_one c correlation_id es m anchor ≡ err e
        → ingest_one c correlation_id fs m anchor ≡ err e
        → Round m es fs
    known :
        IsAccepted m es
        → ingest_one c correlation_id es m anchor ≡ ok es
        → ingest_one c correlation_id fs m anchor ≡ ok fs
        → Round m es fs
    added :
        ((ms : List AuditCommitment) → IsVerified c correlation_id anchor (m ∷ ms) (entry_of m))
        → IsAccepted m (es ++ entry_of m ∷ [])
        → find_entry es m.org_id m.seq ≡ none
        → ingest_one c correlation_id es m anchor ≡ ok (es ++ entry_of m ∷ [])
        → ingest_one c correlation_id fs m anchor ≡ ok (fs ++ entry_of m ∷ [])
        → Round m es fs

  pub ingest_one-admit :
      (m : AuditCommitment) (es : List CompositeEntry)
      → text_eq m.correlation_id correlation_id ≡ true
      → verify_commitment c m anchor ≡ ok tt
      → ingest_one c correlation_id es m anchor ≡ admit c es m
  unfolding ingest_one
  ingest_one-admit m es same verified = rw (same, verified) refl

  pub admit-none :
      (m : AuditCommitment) (es : List CompositeEntry)
      → find_entry es m.org_id m.seq ≡ none
      → admit c es m ≡ ok (es ++ entry_of m ∷ [])
  unfolding admit
  admit-none m es absent = rw (admit, absent) refl

  pub admit-some :
      (m : AuditCommitment) (es : List CompositeEntry) (x : CompositeEntry)
      → find_entry es m.org_id m.seq ≡ some x
      → admit c es m ≡ (
          if text_eq x.commitment m.commitment
          then ok es
          else err (invalid_vc_proof "conflicting commitment"))
  unfolding admit
  admit-some m es x found = rw (admit, found) refl

  Round-of_verified :
      (m : AuditCommitment) (es fs : List CompositeEntry)
      → Agree anchor.did es fs
      → text_eq m.correlation_id correlation_id ≡ true
      → verify_commitment c m anchor ≡ ok tt
      → Round m es fs
  unfolding entry_of
  Round-of_verified m es fs agree same verified =
      let own = verified_org c correlation_id anchor m verified in
      let left = ingest_one-admit m es same verified in
      let right = ingest_one-admit m fs same verified in
      let alike : find_entry fs m.org_id m.seq ≡ find_entry es m.org_id m.seq =
        rw own (sym (agree m.seq)) in
      elim (Option-cases (find_entry es m.org_id m.seq)) [
        | inl absent ↦
            added
              (IsVerified-of_verified c correlation_id anchor m
                (text_eq→eq m.correlation_id correlation_id same) verified)
              (record {
                correlates = same;
                verified = verified;
                entry = entry_of m;
                found = find_entry-added m es absent;
                agrees = refl;
              })
              absent (left ∙ admit-none m es absent) (right ∙ admit-none m fs (alike ∙ absent))
        | inr (x, found) ↦
            let left' = left ∙ admit-some m es x found in
            let right' = right ∙ admit-some m fs x (alike ∙ found) in
            elim (Bool-cases (text_eq x.commitment m.commitment)) [
              | inl equal ↦
                  known
                    (record {
                      correlates = same;
                      verified = verified;
                      entry = x;
                      found = found;
                      agrees = text_eq→eq x.commitment m.commitment equal;
                    })
                    (left' ∙ ground (arith, equal)) (right' ∙ ground (arith, equal))
              | inr other ↦
                  refused (invalid_vc_proof "conflicting commitment")
                    (left' ∙ ground (arith, other)) (right' ∙ ground (arith, other))
            ]
      ]

  pub ingest_one-other :
      (m : AuditCommitment) (es : List CompositeEntry)
      → text_eq m.correlation_id correlation_id ≡ false
      → ingest_one c correlation_id es m anchor
        ≡ err (invalid_vc_proof "commitment correlation_id does not match")
  unfolding ingest_one
  ingest_one-other m es other = rw other refl

  pub ingest_one-unverified :
      (m : AuditCommitment) (es : List CompositeEntry) (e : AgentCredsError)
      → text_eq m.correlation_id correlation_id ≡ true
      → verify_commitment c m anchor ≡ err e
      → ingest_one c correlation_id es m anchor ≡ err e
  unfolding ingest_one
  ingest_one-unverified m es e same failed = rw (same, failed) refl

  pub round :
      (m : AuditCommitment) (es fs : List CompositeEntry) → Agree anchor.did es fs → Round m es fs
  round m es fs agree = elim (Bool-cases (text_eq m.correlation_id correlation_id)) [
    | inr other ↦ refused _ (ingest_one-other m es other) (ingest_one-other m fs other)
    | inl same ↦ elim (Result-cases (verify_commitment c m anchor)) [
      | inl (e, failed) ↦
          refused e (ingest_one-unverified m es e same failed)
            (ingest_one-unverified m fs e same failed)
      | inr (_, verified) ↦ Round-of_verified m es fs agree same verified
    ]
  ]

  -- A commitment that is accepted is known.
  pub accepted_known :
      (m : AuditCommitment) (es : List CompositeEntry)
      → IsAccepted m es
      → ingest_one c correlation_id es m anchor ≡ ok es
  accepted_known m es a =
      ingest_one-admit m es a.correlates a.verified
      ∙ (admit-some m es a.entry a.found ∙ ground (arith, a.agrees, text_eq_refl m.commitment))
