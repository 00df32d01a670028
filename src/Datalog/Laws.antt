-- ===== src/Datalog/Laws.antt =====
-- A block can only narrow: what passes a longer chain of blocks passes each part of it.
use agentcreds.Prelude.{◌≡◌, refl, true, ◌&&◌, List, [], ◌∷◌, ◌++◌, arith, Option}
use agentcreds.Datalog.{Fact, Check, Block, select, all_hold, blocks_pass, token_passes}

pub blocks_pass-append :
    (facts : List Fact) (bs cs : List Block)
    → blocks_pass facts (bs ++ cs) ≡ (blocks_pass facts bs && blocks_pass facts cs)
unfolding blocks_pass
blocks_pass-append facts [] cs = refl
blocks_pass-append facts (b ∷ bs) cs = ground (arith, blocks_pass-append facts bs cs)

pub all_hold-append :
    (facts : List Fact) (ks ls : List Check)
    → all_hold facts (ks ++ ls) ≡ (all_hold facts ks && all_hold facts ls)
unfolding all_hold
all_hold-append facts [] ls = refl
all_hold-append facts (k ∷ ks) ls = ground (arith, all_hold-append facts ks ls)

-- A request that passes a token with one more block passes the token without it.
pub token_passes-append :
    (request : List Fact) (b : Block) (bs : List Block) (n : Block)
    → token_passes request ((b ∷ bs) ++ n ∷ []) ≡ true
    → (token_passes request (b ∷ bs) ≡ true)
      × (all_hold ((request ++ b.facts) ++ n.facts) n.checks ≡ true)
unfolding token_passes blocks_pass
token_passes-append request b bs n h =
    ground (arith, blocks_pass-append (request ++ b.facts) bs (n ∷ []))

pub select-append {ℓ} :
    {A : Type ℓ} (f : Fact → Option A) (xs ys : List Fact)
    → select f (xs ++ ys) ≡ select f xs ++ select f ys
unfolding select
select-append f [] ys = refl
select-append f (x ∷ xs) ys = ground (arith, select-append f xs ys)
