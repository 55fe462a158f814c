-- ===== src/Search/Pruner/Whole.antt =====
-- Whole scores, as an instance of the scores that the ranking takes.
use sts2_training.Base.{◌≡◌, ℕ, true, false, ltb, arith}
use sts2_training.Search.Pruner.{Scores}

pub ltb_asym : (a b : ℕ) → ltb a b ≡ true → ltb b a ≡ false
ltb_asym a b h = ground arith

pub ltb_trans : (a b c : ℕ) → ltb a b ≡ false → ltb b c ≡ false → ltb a c ≡ false
ltb_trans a b c h k = ground arith

-- whole scores
abbrev pub whole : Scores ℕ
whole = record { below = ltb; asym = ltb_asym; trans = ltb_trans }
