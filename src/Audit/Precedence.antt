-- ===== src/Audit/Precedence.antt =====
-- The comparison of `sort_by` in `AuditCompositor::ingest`, as an order on entries.
use agentcreds.Prelude.{◌≡◌, inl, inr, true, false, Bool-cases, arith}
use agentcreds.Text.{text_eq, text_eq→eq, text_eq_refl, text_le}
use agentcreds.Text.Order.{text_le_total, text_le_antisym, text_le_trans}
use agentcreds.Audit.{CompositeEntry, entry_le}

pub entry_le_total : (a b : CompositeEntry) → entry_le a b ≡ false → entry_le b a ≡ true
unfolding entry_le
entry_le_total a b h = ground (
  arith,
  text_le_total a.org_id b.org_id,
  text_eq→eq a.org_id b.org_id,
  text_eq→eq b.org_id a.org_id,
  text_eq_refl a.org_id,
)

-- Two entries of one organization and number.
pub record SameKey (a b : CompositeEntry) : Type 0 where
  pub org_id : a.org_id ≡ b.org_id
  pub seq : a.seq ≡ b.seq

pub entry_le_antisym :
    (a b : CompositeEntry) → entry_le a b ≡ true → entry_le b a ≡ true → SameKey a b
unfolding entry_le
entry_le_antisym a b h k = elim (Bool-cases (text_eq a.org_id b.org_id)) [
  | inl t ↦
      let same = text_eq→eq a.org_id b.org_id t in
      let back : text_eq b.org_id a.org_id ≡ true = rw same (text_eq_refl b.org_id) in
      record { org_id = same; seq = ground (arith, h, k, t, back) }
  | inr f ↦
      let differ : text_eq b.org_id a.org_id ≡ true → ⊥ =
        λ g. ground (arith, f, text_eq_refl a.org_id, text_eq→eq b.org_id a.org_id g) in
      let le : text_le a.org_id b.org_id ≡ true = ground (arith, h, k, f) in
      let ge : text_le b.org_id a.org_id ≡ true = ground (arith, h, k, f, differ) in
      absurd (ground (arith, f, text_eq_refl a.org_id, text_le_antisym a.org_id b.org_id le ge))
]

pub entry_le_trans :
    (a b d : CompositeEntry) → entry_le a b ≡ true → entry_le b d ≡ true → entry_le a d ≡ true
unfolding entry_le
entry_le_trans a b d h k = ground (
  arith,
  h,
  k,
  text_le_trans a.org_id b.org_id d.org_id,
  text_le_antisym a.org_id b.org_id,
  text_eq→eq a.org_id b.org_id,
  text_eq→eq b.org_id d.org_id,
  text_eq→eq a.org_id d.org_id,
  text_eq_refl a.org_id,
  text_eq_refl b.org_id,
  text_eq_refl d.org_id,
)
