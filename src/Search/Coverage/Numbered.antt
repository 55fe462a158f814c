-- ===== src/Search/Coverage/Numbered.antt =====
-- candidate_coverage.py: the places after the coverage.
use sts2_training.Base.{
  ◌≡◌, refl, sym, ap, subst, ℕ, zero, suc, ◌≤◌, String, true, Option, none, some, List, [], ◌∷◌,
  length, take, mem, str_eq_iff, arith, All, All-map, IsDistinct,
}
use sts2_training.Base.Int.{pos}
use sts2_training.Search.Coverage.{
  Action, ActionCandidate, CandidateProposal, proposed, proposed_ids,
}
use sts2_training.Search.Coverage.Apply.{renumber}
use sts2_training.Search.Coverage.Fit.{IsFit, IsSourced, IsRising, RankThen-map}

pub take_all : (k : ℕ) (ps : List CandidateProposal) → length ps ≤ k → take k ps ≡ ps
take_all zero [] l = refl
take_all zero (p ∷ ps) l = elim (absurd (length ps) l) [ ]
  where
    absurd : (n : ℕ) → suc n ≤ 0 → ⊥
    absurd n h = omega arith
take_all (suc k) [] l = refl
take_all (suc k) (p ∷ ps) l = ap (λ xs. p ∷ xs) (take_all k ps (omega arith))

pub All-members : (xs : List String) → All (λ i. mem i xs ≡ true) xs
All-members [] = tt
All-members (x ∷ xs) =
    (ground (arith, str_eq_iff x x), All-map _ _ xs (λ i h. ground arith) (All-members xs))

-- Renumbering changes the places only.
pub renumber-ids :
    (n : ℕ) (ps : List CandidateProposal) → proposed_ids (renumber n ps) ≡ proposed_ids ps
renumber-ids n [] = refl
renumber-ids n (p ∷ ps) = ap (λ xs. proposed p ∷ xs) (renumber-ids (suc n) ps)

length-renumber : (n : ℕ) (ps : List CandidateProposal) → length (renumber n ps) ≡ length ps
length-renumber n [] = refl
length-renumber n (p ∷ ps) = ap suc (length-renumber (suc n) ps)

renumber-All :
    (P : CandidateProposal → Type 0) (n : ℕ) (ps : List CandidateProposal)
    → ((p : CandidateProposal) (k : ℕ) → P p → P (record p { post_coverage_rank = pos k }))
    → All P ps
    → All P (renumber n ps)
renumber-All P n [] f h = tt
renumber-All P n (p ∷ ps) f h = (f p n h.0, renumber-All P (suc n) ps f h.1)

renumber-IsRising :
    (n m : ℕ) (ps : List CandidateProposal) → IsRising ps m → IsRising (renumber n ps) m
renumber-IsRising n m [] h = tt
renumber-IsRising n m (p ∷ ps) h =
    RankThen-map (IsRising ps) (IsRising (renumber (suc n) ps)) p.policy_rank m
      (λ k. renumber-IsRising (suc n) k ps) h

IsSourced-renumbered :
    (ranked : List ActionCandidate) (p : CandidateProposal) (k : ℕ) (o : Option ℕ)
    → IsSourced 0 ranked p o
    → IsSourced 0 ranked (record p { post_coverage_rank = pos k }) o
IsSourced-renumbered ranked p k none h = h
IsSourced-renumbered ranked p k (some r) h = h

-- The places are the numbers from n.
abbrev pub IsNumbered : ℕ → List CandidateProposal → Type 0
IsNumbered n [] = Unit
IsNumbered n (p ∷ ps) = (p.post_coverage_rank ≡ pos n) × IsNumbered (suc n) ps

pub renumber-IsNumbered : (n : ℕ) (ps : List CandidateProposal) → IsNumbered n (renumber n ps)
renumber-IsNumbered n [] = tt
renumber-IsNumbered n (p ∷ ps) = (refl, renumber-IsNumbered (suc n) ps)

module _ (available : List Action) (top_k : ℕ) (ranked : List ActionCandidate) where
  pub renumbered-IsFit :
      (ps : List CandidateProposal)
      → IsFit available top_k ranked ps
      → IsFit available top_k ranked (renumber 0 ps)
  renumbered-IsFit ps h = record {
    few = subst (λ n. n ≤ top_k) (sym (length-renumber 0 ps)) h.few;
    distinct = subst IsDistinct (sym (renumber-ids 0 ps)) h.distinct;
    legal = renumber-All _ 0 ps (λ p k x. x) h.legal;
    sourced = renumber-All _ 0 ps (λ p k. IsSourced-renumbered ranked p k p.policy_rank) h.sourced;
    rising = renumber-IsRising 0 0 ps h.rising;
  }
