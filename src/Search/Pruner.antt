-- ===== src/Search/Pruner.antt =====
-- src/sts2_training/decision/stable_pruner.py: which states of the frontier survive; and the check of
-- a pruner's answer in beam_search.py. How scores compare is a parameter.
pub mod Ranking
pub mod Indices
pub mod Baseline
pub mod Whole
mod Tests
use sts2_training.Base.{
  ◌≡◌, ℕ, zero, suc, ◌==◌, Bool, true, false, not, ◌||◌, Option, none, some, List, [], ◌∷◌, length,
  take, map, any, ltb, if◌then◌else◌,
}
use sts2_training.Base.Int.{ℤ, pos, negsuc}
use sts2_training.Base.Outcome.{Result, ok, err}
use sts2_training.Json.{Value, Items, as_items, as_int, to_list}
use sts2_training.Api.Errors.{Exc, value_error, runtime_error}

-- Finite scores, with Python's `<`: a linear order up to equal scores.
pub record Scores (S : Type 0) : Type 0 where
  pub below : S → S → Bool
  pub asym : (a b : S) → below a b ≡ true → below b a ≡ false
  pub trans : (a b c : S) → below a b ≡ false → below b c ≡ false → below a c ≡ false

module _ {S : Type 0} (scores : Scores S) where
  -- an index of the frontier with its score
  abbrev pub Entry : Type 0
  Entry = ℕ × S

  -- range(len(frontier)), each index with its score
  abbrev pub entries : ℕ → List S → List (ℕ × S)
  entries i [] = []
  entries i (s ∷ ss) = (i, s) ∷ entries (suc i) ss

  abbrev pub insert : ℕ × S → List (ℕ × S) → List (ℕ × S)
  insert x [] = x ∷ []
  insert x (y ∷ ys) =
      let later = insert x ys in if scores.below x.1 y.1 then y ∷ later else x ∷ y ∷ ys

  -- sorted(..., key=score, reverse=True), which is stable
  abbrev pub ranked : List (ℕ × S) → List (ℕ × S)
  ranked [] = []
  ranked (x ∷ xs) = insert x (ranked xs)

  abbrev pub best : List S → ℕ → List (ℕ × S)
  best views k = take k (ranked (entries 0 views))

  -- ValueTopKPruner.select, on the scores of the frontier; an int that is no positive one is refused
  unfoldable pub select : List S → ℕ → Result Exc (List ℕ)
  select frontier k = if k == 0 then err value_error else ok (map (λ e. e.0) (best frontier k))

abbrev pub mem_nat : ℕ → List ℕ → Bool
mem_nat i is = any (λ j. i == j) is

abbrev within : ℕ → ℕ → Option ℕ
within size i = if ltb i size then some i else none

abbrev pub as_index : ℕ → Option ℤ → Option ℕ
as_index size none = none
as_index size (some (pos i)) = within size i
as_index size (some (negsuc i)) = none

abbrev pub put : ℕ → Result Exc (List ℕ) → Result Exc (List ℕ)
put i (ok is) = ok (i ∷ is)
put i (err e) = err e

abbrev pub check_next : List ℕ → (ℕ → Result Exc (List ℕ)) → Option ℕ → Result Exc (List ℕ)
check_next seen later none = err runtime_error
check_next seen later (some i) = if mem_nat i seen then err runtime_error else put i (later i)

-- the loop of the check, with the indices seen before
abbrev pub check_indices : ℕ → List ℕ → List Value → Result Exc (List ℕ)
check_indices size seen [] = ok []
check_indices size seen (v ∷ vs) =
    check_next seen (λ i. check_indices size (i ∷ seen) vs) (as_index size (as_int v))

abbrev at_most : ℕ → ℕ → List Value → Result Exc (List ℕ)
at_most size k vs = if ltb k (length vs) then err runtime_error else check_indices size [] vs

abbrev pub checked_items : ℕ → ℕ → Option Items → Result Exc (List ℕ)
checked_items size k none = err runtime_error
checked_items size k (some items) = at_most size k (to_list items)

-- _validated_pruner_indices
unfoldable pub validated_pruner_indices : Value → ℕ → ℕ → Result Exc (List ℕ)
validated_pruner_indices selected size k = checked_items size k (as_items selected)
