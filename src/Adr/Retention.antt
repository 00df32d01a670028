-- ===== src/Adr/Retention.antt =====
-- The in-memory sink of agentcreds-core/src/adr.rs over a sequence of records.
use agentcreds.Prelude.{
  ℕ, zero, suc, ◌-◌, ◌≤◌, ◌<◌, ◌≡◌, inl, inr, refl, sym, ◌∙◌, ap, true, false, List, [], ◌∷◌, ◌++◌,
  length, length-append, length-drop, drop, leb, arith, Bool-cases,
}
use Prim.Native.Nat.{max}
use mathlib.Core.List.{append_assoc, append-nil}
use agentcreds.Adr.Record.{AuthzDecision}
use agentcreds.Adr.Stream.{InMemorySink, with_capacity, emit, remove_first}

-- Emitting one record after the other.
unfoldable pub emit_all : InMemorySink → List AuthzDecision → InMemorySink
emit_all s [] = s
emit_all s (d ∷ ds) = emit_all (emit s d) ds

-- The specification of what a sink holds: the end of the log, up to its capacity.
unfoldable pub latest {ℓ} : {A : Type ℓ} → ℕ → List A → List A
latest n log = drop (length log - n) log

drop-nil {ℓ} : {A : Type ℓ} (k : ℕ) → drop {A = A} k [] ≡ []
drop-nil zero = refl
drop-nil (suc k) = refl

drop-append {ℓ} :
    {A : Type ℓ} (k : ℕ) (xs ys : List A) → k ≤ length xs → drop k (xs ++ ys) ≡ drop k xs ++ ys
drop-append zero xs ys h = refl
drop-append (suc k) [] ys h = absurd (omega arith)
drop-append (suc k) (x ∷ xs) ys h = drop-append k xs ys (omega arith)

remove_first-drop {ℓ} :
    {A : Type ℓ} (k : ℕ) (xs : List A) → remove_first (drop k xs) ≡ drop (suc k) xs
remove_first-drop zero [] = refl
remove_first-drop zero (x ∷ xs) = refl
remove_first-drop (suc k) [] = refl
remove_first-drop (suc k) (x ∷ xs) = remove_first-drop k xs

-- The sink holds the latest records of the log.
pub record Retains (n : ℕ) (log : List AuthzDecision) (s : InMemorySink) : Type 0 where
  pub capacity : s.capacity ≡ n
  pub records : s.records ≡ latest n log

emit-Retains :
    (n : ℕ) (log : List AuthzDecision) (s : InMemorySink) (d : AuthzDecision)
    → 0 < n
    → Retains n log s
    → Retains n (log ++ d ∷ []) (emit s d)
unfolding emit latest
emit-Retains n log s d pos r = elim (Bool-cases (leb n (length log))) [
  | inl full ↦ record {
    capacity = r.capacity;
    records =
        let k = length log - n in
        let held : length s.records ≡ n =
          ap (length {A = AuthzDecision}) r.records ∙ length-drop k log ∙ ground (arith, full) in
        let at_end : length (log ++ d ∷ []) - n ≡ suc k =
          ground (arith, full, length-append log (d ∷ [])) in
        let shorter : remove_first s.records ≡ drop (suc k) log =
          ap remove_first r.records ∙ remove_first-drop k log in
        let test : leb s.capacity (length s.records) ≡ true = ground (arith, r.capacity, held) in
        rw (test, at_end, shorter)
          (sym (drop-append (suc k) log (d ∷ []) (ground (arith, full, pos))));
  }
  | inr room ↦ record {
    capacity = r.capacity;
    records =
        let none_cut : length log - n ≡ 0 = ground (arith, room) in
        let held : s.records ≡ log = r.records ∙ ap (λ (k : ℕ). drop k log) none_cut in
        let at_end : length (log ++ d ∷ []) - n ≡ 0 =
          ground (arith, room, length-append log (d ∷ [])) in
        let test : leb s.capacity (length s.records) ≡ false =
          ground (arith, r.capacity, ap (length {A = AuthzDecision}) held, room) in
        rw (test, at_end, held) refl;
  }
]

pub emit_all-Retains :
    (n : ℕ) (log ds : List AuthzDecision) (s : InMemorySink)
    → 0 < n
    → Retains n log s
    → Retains n (log ++ ds) (emit_all s ds)
unfolding emit_all
emit_all-Retains n log [] s pos r = rw (append-nil log) r
emit_all-Retains n log (d ∷ ds) s pos r =
    rw (← append_assoc log (d ∷ []) ds)
      (emit_all-Retains n (log ++ d ∷ []) ds (emit s d) pos (emit-Retains n log s d pos r))

-- After any sequence of records a sink of capacity n holds the last n of them, or the last one where n
-- is zero, in the order of the sequence.
pub with_capacity-latest :
    (n : ℕ) (ds : List AuthzDecision)
    → (emit_all (with_capacity n) ds).records ≡ latest (max n 1) ds
unfolding with_capacity latest
with_capacity-latest n ds =
    (emit_all-Retains (max n 1) [] ds (with_capacity n) (omega arith)
      (record { capacity = refl; records = sym (drop-nil (0 - max n 1)) })).records
