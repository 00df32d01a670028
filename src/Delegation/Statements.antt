-- ===== src/Delegation/Statements.antt =====
-- Building a block: the sequence of builder calls as a list of statements, each with the strings
-- that `datalog_str` quotes in it. The first string with an illegal character, or the first
-- statement that the crate does not parse, ends the sequence with its error.
use mathlib.Core.List.{append_assoc, append-nil}
use agentcreds.Prelude.{ℕ, ◌≡◌, refl, Bool, true, not, ◌&&◌, ◌||◌, List, [], ◌∷◌, ◌++◌, ◌==◌, arith}
use agentcreds.Outcome.{
  Result, ok, ◌>>◌, guard, guard-eq-ok, invalid_biscuit_signature, out_of_bounds,
}
use agentcreds.Text.{Text}
use agentcreds.Datalog.{Fact, Check, Block}
use agentcreds.Biscuit.{Biscuit}

pub data Statement : Type 0 where
  fact : List Text → Fact → Statement
  check : List Text → Check → Statement

-- A quote, a backslash, a line feed, a carriage return or a null.
unfoldable pub illegal_char : ℕ → Bool
illegal_char c = c == 0x22 || c == 0x5c || c == 0x0a || c == 0x0d || c == 0

-- `datalog_str` succeeds.
unfoldable pub quotable : Text → Bool
unfolding illegal_char
quotable [] = true
quotable (c ∷ cs) = not (illegal_char c) && quotable cs

unfoldable pub all_quotable : List Text → Bool
all_quotable [] = true
all_quotable (t ∷ ts) = quotable t && all_quotable ts

unfoldable pub strings : Statement → List Text
strings (fact ts f) = ts
strings (check ts k) = ts

unfoldable pub extend : Block → Statement → Block
extend b (fact ts f) = record b { facts = b.facts ++ f ∷ [] }
extend b (check ts k) = record b { checks = b.checks ++ k ∷ [] }

abbrev pub empty_block : Block
empty_block = record { facts = []; checks = [] }

-- What a list of statements puts into a block.
unfoldable pub facts_of : List Statement → List Fact
facts_of [] = []
facts_of (fact ts f ∷ ss) = f ∷ facts_of ss
facts_of (check ts k ∷ ss) = facts_of ss

unfoldable pub checks_of : List Statement → List Check
checks_of [] = []
checks_of (fact ts f ∷ ss) = checks_of ss
checks_of (check ts k ∷ ss) = k ∷ checks_of ss

pub checks_of-append :
    (ss us : List Statement) → checks_of (ss ++ us) ≡ checks_of ss ++ checks_of us
unfolding checks_of
checks_of-append [] us = refl
checks_of-append (fact ts f ∷ ss) us = checks_of-append ss us
checks_of-append (check ts k ∷ ss) us = rw (checks_of-append ss us)

pub facts_of-append : (ss us : List Statement) → facts_of (ss ++ us) ≡ facts_of ss ++ facts_of us
unfolding facts_of
facts_of-append [] us = refl
facts_of-append (check ts f ∷ ss) us = facts_of-append ss us
facts_of-append (fact ts k ∷ ss) us = rw (facts_of-append ss us)

abbrev pub AllQuotable : List Statement → Type 0
AllQuotable [] = Unit
AllQuotable (s ∷ ss) = (all_quotable (strings s) ≡ true) × AllQuotable ss

module _ (B : Biscuit) where
  unfoldable pub parses : Statement → Bool
  parses (fact ts f) = B.parses_fact f
  parses (check ts k) = B.parses_check k

  unfoldable pub add_all : List Statement → Block → Result Block
  add_all [] b = ok b
  add_all (s ∷ ss) b = do
    guard (all_quotable (strings s)) (out_of_bounds "scope")
    guard (parses s) (invalid_biscuit_signature "biscuit")
    add_all ss (extend b s)

  -- One step of a sequence that succeeds.
  add_all-step :
      (s : Statement) (ss : List Statement) (b : Block) {b' : Block}
      → add_all (s ∷ ss) b ≡ ok b'
      → (all_quotable (strings s) ≡ true) × (add_all ss (extend b s) ≡ ok b')
  unfolding add_all
  add_all-step s ss b h =
      let (quoted, h₁) =
        guard-eq-ok (all_quotable (strings s)) (out_of_bounds "scope")
          (guard (parses s) (invalid_biscuit_signature "biscuit") >> add_all ss (extend b s)) h in
      let (_, h₂) =
        guard-eq-ok (parses s) (invalid_biscuit_signature "biscuit") (add_all ss (extend b s)) h₁ in
      (quoted, h₂)

  -- A sequence that succeeds has added exactly its facts and its checks.
  pub add_all-content :
      (ss : List Statement) (b : Block) {b' : Block}
      → add_all ss b ≡ ok b'
      → (b'.facts ≡ b.facts ++ facts_of ss) × (b'.checks ≡ b.checks ++ checks_of ss)
  unfolding facts_of checks_of extend
  add_all-content [] b h =
      unfold add_all in (ground (arith, append-nil b.facts), ground (arith, append-nil b.checks))
  add_all-content (fact ts f ∷ ss) b h =
      let (fs, ks) =
        add_all-content ss (extend b (fact ts f)) (add_all-step (fact ts f) ss b h).1 in
      (ground (arith, fs, append_assoc b.facts (f ∷ []) (facts_of ss)), ks)
  add_all-content (check ts k ∷ ss) b h =
      let (fs, ks) =
        add_all-content ss (extend b (check ts k)) (add_all-step (check ts k) ss b h).1 in
      (fs, ground (arith, ks, append_assoc b.checks (k ∷ []) (checks_of ss)))

  -- Every string of a sequence that succeeds is free of the characters that end a quoted string.
  pub add_all-quotable :
      (ss : List Statement) (b : Block) {b' : Block} → add_all ss b ≡ ok b' → AllQuotable ss
  add_all-quotable [] b h = tt
  add_all-quotable (s ∷ ss) b h =
      let (q, rest) = add_all-step s ss b h in (q, add_all-quotable ss (extend b s) rest)
