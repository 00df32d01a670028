-- ===== src/Audit/Merging.antt =====
-- Runs of `AuditCompositor::ingest` for two organizations, in either order.
use agentcreds.Prelude.{
  ℕ, ◌≡◌, ◌≢◌, inl, inr, refl, sym, ◌∙◌, ap, List, [], ◌∷◌, ◌++◌, none, arith, Bool-cases,
}
use agentcreds.Outcome.{Result, ok}
use agentcreds.Text.{Text}
use agentcreds.Crypto.{Crypto}
use agentcreds.Did.{TrustAnchor}
use agentcreds.Audit.{
  AuditCommitment, AuditCompositor, CompositeEntry, find_entry, is_at, sort_composite, ingest_loop,
  finish, ingest,
}
use agentcreds.Audit.Order.{
  Present, IsDistinct, sort_composite-IsSorted, sort_composite-IsDistinct, is_at-key,
  find_entry-sort_composite, sorted-equal, Present-sort_composite, Present-append,
}
use agentcreds.Audit.Custody.{completed, stopped, ingest-Ended}
use agentcreds.Audit.Custody.Runs.{find_entry-append_none, Agree}
use agentcreds.Audit.Custody.Verified.{IsVerified}
use agentcreds.Audit.Custody.Loop.{ingest_loop-Runs}
use agentcreds.Audit.Custody.Kept.{ingest_loop-IsDistinct}

find_entry-other :
    (org : Text) (seq : ℕ) (es : List CompositeEntry)
    → ((e : CompositeEntry) → Present e es → e.org_id ≢ org)
    → find_entry es org seq ≡ none
unfolding find_entry
find_entry-other org seq [] h = refl
find_entry-other org seq (e ∷ es) h = elim (Bool-cases (is_at org seq e)) [
  | inl at ↦ absurd (h e (inl refl) (is_at-key org seq e at).0)
  | inr off ↦ rw off (find_entry-other org seq es (λ x p. h x (inr p)))
]

append_cancel {ℓ} : {A : Type ℓ} (es xs ys : List A) → es ++ xs ≡ es ++ ys → xs ≡ ys
append_cancel [] xs ys h = h
append_cancel (e ∷ es) xs ys h = append_cancel es xs ys (ground arith)

-- Adding two lists of entries in either order, with a sorting after each, gives one list.
sort_both :
    (es xs ys : List CompositeEntry)
    → IsDistinct (sort_composite (es ++ xs) ++ ys)
    → IsDistinct (sort_composite (es ++ ys) ++ xs)
    → sort_composite (sort_composite (es ++ ys) ++ xs)
      ≡ sort_composite (sort_composite (es ++ xs) ++ ys)
sort_both es xs ys dx dy =
    sorted-equal (sort_composite (sort_composite (es ++ ys) ++ xs))
      (sort_composite (sort_composite (es ++ xs) ++ ys))
      (sort_composite-IsSorted (sort_composite (es ++ ys) ++ xs))
      (sort_composite-IsSorted (sort_composite (es ++ xs) ++ ys))
      (sort_composite-IsDistinct (sort_composite (es ++ ys) ++ xs) dy)
      (sort_composite-IsDistinct (sort_composite (es ++ xs) ++ ys) dx) (swap ys xs) (swap xs ys)
  where
    swap :
        (as' bs : List CompositeEntry) (e : CompositeEntry)
        → Present e (sort_composite (sort_composite (es ++ as') ++ bs))
        → Present e (sort_composite (sort_composite (es ++ bs) ++ as'))
    swap as' bs e h =
        let into = (Present-sort_composite e (sort_composite (es ++ bs) ++ as')).1 in
        let join = (Present-append e (sort_composite (es ++ bs)) as').1 in
        let inner = (Present-sort_composite e (es ++ bs)).1 in
        let pair = (Present-append e es bs).1 in
        into (
          join
            (elim ((Present-append e (sort_composite (es ++ as')) bs).0
              ((Present-sort_composite e (sort_composite (es ++ as') ++ bs)).0 h)) [
                | inr of_bs ↦ inl (inner (pair (inr of_bs)))
                | inl first ↦
                    elim ((Present-append e es as').0
                      ((Present-sort_composite e (es ++ as')).0 first)) [
                        | inl of_es ↦ inl (inner (pair (inl of_es)))
                        | inr of_as ↦ inr of_as
                      ]
              ]))

module _ (c : Crypto) where
  -- The entries that a run for one organization adds are none of another's.
  find_entry-foreign :
      (correlation_id org : Text) (anchor : TrustAnchor) (es more : List CompositeEntry)
      {ms : List AuditCommitment}
      → anchor.did ≢ org
      → ((e : CompositeEntry) → Present e more → IsVerified c correlation_id anchor ms e)
      → Agree org es (es ++ more)
  find_entry-foreign correlation_id org anchor es more other v seq =
      let absent = find_entry-other org seq more (λ e p own. other (sym (v e p).own ∙ own)) in
      sym (find_entry-append_none es more org seq absent)

  -- A run that ended well, by what it added.
  record Completed (comp : AuditCompositor) (ms : List AuditCommitment) (anchor : TrustAnchor)
      (comp' : AuditCompositor) : Type 0 where
    more : List CompositeEntry
    verified : (e : CompositeEntry) → Present e more → IsVerified c comp.correlation_id anchor ms e
    loop : ingest_loop c comp.correlation_id comp.entries ms anchor ≡ (comp.entries ++ more, ok tt)
    result : comp' ≡ record comp { entries = sort_composite (comp.entries ++ more) }

  ingest-Completed :
      (comp comp' : AuditCompositor) (ms : List AuditCommitment) (anchor : TrustAnchor)
      → ingest c comp ms anchor ≡ (comp', ok tt)
      → Completed comp ms anchor comp'
  ingest-Completed comp comp' ms anchor h = elim (ingest-Ended c comp ms anchor) [
    | completed more v l k ↦ record {
      more = more;
      verified = v;
      loop = l;
      result = ap (λ (p : AuditCompositor × Result (Unit {0})). p.0) (sym h ∙ k);
    }
    | stopped more e _ _ k ↦ absurd (ground (arith, h, k))
  ]

  ingest-loop :
      (comp : AuditCompositor) (ms : List AuditCommitment) (anchor : TrustAnchor)
      (es : List CompositeEntry)
      → ingest_loop c comp.correlation_id comp.entries ms anchor ≡ (es, ok tt)
      → ingest c comp ms anchor ≡ (record comp { entries = sort_composite es }, ok tt)
  unfolding ingest finish
  ingest-loop comp ms anchor es h = rw h refl

  sorted-Agree :
      (correlation_id org : Text) (anchor : TrustAnchor) (es more : List CompositeEntry)
      {ms : List AuditCommitment}
      → anchor.did ≢ org
      → IsDistinct (es ++ more)
      → ((e : CompositeEntry) → Present e more → IsVerified c correlation_id anchor ms e)
      → Agree org es (sort_composite (es ++ more))
  sorted-Agree correlation_id org anchor es more other d v seq =
      find_entry-foreign correlation_id org anchor es more other v seq
      ∙ sym (find_entry-sort_composite (es ++ more) org seq d)

  IsDistinct-of :
      (correlation_id : Text) (anchor : TrustAnchor) (ms : List AuditCommitment)
      (es fs : List CompositeEntry) {o : Result (Unit {0})}
      → IsDistinct es
      → ingest_loop c correlation_id es ms anchor ≡ (fs, o)
      → IsDistinct fs
  IsDistinct-of correlation_id anchor ms es fs d h =
      let k = ingest_loop-IsDistinct c correlation_id anchor ms es d in rw h at k

  -- A run adds to a list what it adds to one that agrees with it.
  transfer :
      (correlation_id : Text) (anchor : TrustAnchor) (ms : List AuditCommitment)
      (es fs more : List CompositeEntry)
      → Agree anchor.did es fs
      → ingest_loop c correlation_id es ms anchor ≡ (es ++ more, ok tt)
      → ingest_loop c correlation_id fs ms anchor ≡ (fs ++ more, ok tt)
  transfer correlation_id anchor ms es fs more agree h =
      let run = ingest_loop-Runs c correlation_id anchor ms es fs agree in
      let both = sym run.left ∙ h in
      let same =
        append_cancel es run.more more
          (ap (λ (p : List CompositeEntry × Result (Unit {0})). p.0) both) in
      let ends = ap (λ (p : List CompositeEntry × Result (Unit {0})). p.1) both in
      run.right ∙ rw (same, ends) refl

  -- Runs for two organizations commute: where one order ends well on distinct entries, so does the other,
  -- with the same compositor, its order of entries included.
  pub ingest_commute :
      (comp p q : AuditCompositor) (xs ys : List AuditCommitment) (ax ay : TrustAnchor)
      → IsDistinct comp.entries
      → ax.did ≢ ay.did
      → ingest c comp xs ax ≡ (p, ok tt)
      → ingest c p ys ay ≡ (q, ok tt)
      → (p' : AuditCompositor) × (ingest c comp ys ay ≡ (p', ok tt))
        × (ingest c p' xs ax ≡ (q, ok tt))
  ingest_commute comp p q xs ys ax ay d other hx hy =
      let id = comp.correlation_id in
      let es = comp.entries in
      let fx = ingest-Completed comp p xs ax hx in
      let sx = sort_composite (es ++ fx.more) in
      let mid : AuditCompositor = record comp { entries = sx } in
      let hy' : ingest c mid ys ay ≡ (q, ok tt) = rw fx.result at hy in
      let fy = ingest-Completed mid q ys ay hy' in
      let sy = sort_composite (es ++ fy.more) in
      let dx = IsDistinct-of id ax xs es (es ++ fx.more) d fx.loop in
      let agree_y = sorted-Agree id ay.did ax es fx.more other dx fx.verified in
      let loop_y = transfer id ay ys sx es fy.more (λ seq. sym (agree_y seq)) fy.loop in
      let dy = IsDistinct-of id ay ys es (es ++ fy.more) d loop_y in
      let agree_x = sorted-Agree id ax.did ay es fy.more (λ e. other (sym e)) dy fy.verified in
      let loop_x = transfer id ax xs es sy fx.more agree_x fx.loop in
      let p' : AuditCompositor = record comp { entries = sy } in
      let ends = ingest-loop p' xs ax (sy ++ fx.more) loop_x in
      let same =
        sort_both es fx.more fy.more
          (IsDistinct-of id ay ys sx (sx ++ fy.more) (sort_composite-IsDistinct (es ++ fx.more) dx)
            fy.loop)
          (IsDistinct-of id ax xs sy (sy ++ fx.more) (sort_composite-IsDistinct (es ++ fy.more) dy)
            loop_x) in
      (p', ingest-loop comp ys ay (es ++ fy.more) loop_y, rw (same, sym fy.result) at ends)
