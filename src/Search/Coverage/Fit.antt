-- ===== src/Search/Coverage/Fit.antt =====
-- candidate_coverage.py: the invariant of the proposals, and one required action more.
use sts2_training.Base.{
  ◌≡◌, refl, sym, ap, subst, ℕ, suc, ◌≤◌, String, true, false, Option, none, some, List, [], ◌∷◌,
  ◌++◌, length, mem, ltb, ◌==◌, if◌then◌else◌, arith, All, IsDistinct,
}
use sts2_training.Base.Distinct.{IsDistinct-append}
use sts2_training.Search.Coverage.{
  Action, ActionCandidate, CandidateProposal, proposed, proposed_ids, ids, action_score,
}
use sts2_training.Search.Coverage.Apply.{structural}
use sts2_training.Search.Coverage.Replaced.{
  Replaces, here, there, length-Replaces, All-Replaces, distinct-Replaces,
}

-- The policy's candidates with their ranks: the number of the first, and those that follow.
abbrev pub ranked_at : ℕ → List ActionCandidate → ℕ → Option ActionCandidate
ranked_at first [] rank = none
ranked_at first (c ∷ cs) rank =
    let later = ranked_at (suc first) cs rank in if first == rank then some c else later

-- A proposal has the policy's candidate of its rank with its finite score, or no rank and no score.
abbrev pub IsSourced : ℕ → List ActionCandidate → CandidateProposal → Option ℕ → Type 0
IsSourced first ranked p none =
    (p.candidate_source ≡ "structural_coverage") × (p.policy_score ≡ none)
IsSourced first ranked p (some rank) =
    (p.candidate_source ≡ "policy")
    × (p.policy_score ≡ action_score p.candidate)
    × (first ≤ rank)
    × (ranked_at first ranked rank ≡ some p.candidate)

-- The ranks that the policy gave rise.
abbrev pub RankThen : (ℕ → Type 0) → ℕ → Option ℕ → Type 0
RankThen rest n none = rest n
RankThen rest n (some rank) = (n ≤ rank) × rest (suc rank)

abbrev pub IsRising : List CandidateProposal → ℕ → Type 0
IsRising [] n = Unit
IsRising (p ∷ ps) n = RankThen (IsRising ps) n p.policy_rank

pub record IsFit (available : List Action) (top_k : ℕ) (ranked : List ActionCandidate)
    (ps : List CandidateProposal) : Type 0 where
  pub few : length ps ≤ top_k
  pub distinct : IsDistinct (proposed_ids ps)
  pub legal : All (λ p. mem (proposed p) (ids available) ≡ true) ps
  pub sourced : All (λ p. IsSourced 0 ranked p p.policy_rank) ps
  pub rising : IsRising ps 0

pub RankThen-map :
    (P Q : ℕ → Type 0) (o : Option ℕ) (n : ℕ)
    → ((m : ℕ) → P m → Q m)
    → RankThen P n o
    → RankThen Q n o
RankThen-map P Q none n f h = f n h
RankThen-map P Q (some rank) n f h = (h.0, f (suc rank) h.1)

RankThen-weaken :
    (P : ℕ → Type 0) (o : Option ℕ) (n m : ℕ)
    → m ≤ n
    → (P n → P m)
    → RankThen P n o
    → RankThen P m o
RankThen-weaken P none n m l f h = f h
RankThen-weaken P (some rank) n m l f h = (let k = h.0 in omega arith, h.1)

pub IsRising-weaken :
    (ps : List CandidateProposal) (n m : ℕ) → m ≤ n → IsRising ps n → IsRising ps m
IsRising-weaken [] n m l h = tt
IsRising-weaken (p ∷ ps) n m l h =
    RankThen-weaken (IsRising ps) p.policy_rank n m l (IsRising-weaken ps n m l) h

IsRising-append :
    (ps : List CandidateProposal) (i : String) (n : ℕ)
    → IsRising ps n
    → IsRising (ps ++ (structural i ∷ [])) n
IsRising-append [] i n h = tt
IsRising-append (p ∷ ps) i n h =
    RankThen-map (IsRising ps) (IsRising (ps ++ (structural i ∷ []))) p.policy_rank n
      (IsRising-append ps i) h

drop_rank :
    (o : Option ℕ) (ps : List CandidateProposal) (n : ℕ)
    → RankThen (IsRising ps) n o
    → IsRising ps n
drop_rank none ps n h = h
drop_rank (some rank) ps n h = IsRising-weaken ps (suc rank) n (let k = h.0 in omega arith) h.1

IsRising-replaced :
    (protected : List String) (i : String) {ps qs : List CandidateProposal} (n : ℕ)
    → Replaces protected (structural i) ps qs
    → IsRising ps n
    → IsRising qs n
IsRising-replaced protected i n (here {p} {ps} h) k = drop_rank p.policy_rank ps n k
IsRising-replaced protected i n (there {p} {ps} {qs} x) k =
    RankThen-map (IsRising ps) (IsRising qs) p.policy_rank n
      (λ m. IsRising-replaced protected i m x) k

All-append :
    (P : CandidateProposal → Type 0) (ps : List CandidateProposal) (q : CandidateProposal)
    → All P ps
    → P q
    → All P (ps ++ (q ∷ []))
All-append P [] q h k = (k, tt)
All-append P (p ∷ ps) q h k = (h.0, All-append P ps q h.1 k)

length-append :
    (ps : List CandidateProposal) (q : CandidateProposal)
    → length (ps ++ (q ∷ [])) ≡ suc (length ps)
length-append [] q = refl
length-append (p ∷ ps) q = ap suc (length-append ps q)

pub ids_append :
    (ps : List CandidateProposal) (q : CandidateProposal)
    → proposed_ids (ps ++ (q ∷ [])) ≡ proposed_ids ps ++ (proposed q ∷ [])
ids_append [] q = refl
ids_append (p ∷ ps) q = ap (λ xs. proposed p ∷ xs) (ids_append ps q)

module _ (available : List Action) (top_k : ℕ) (ranked : List ActionCandidate) where
  pub appended-IsFit :
      (i : String) (ps : List CandidateProposal)
      → mem i (ids available) ≡ true
      → mem i (proposed_ids ps) ≡ false
      → ltb (length ps) top_k ≡ true
      → IsFit available top_k ranked ps
      → IsFit available top_k ranked (ps ++ (structural i ∷ []))
  appended-IsFit i ps a f l h = record {
    few = let e = length-append ps (structural i) in ground arith;
    distinct =
        subst IsDistinct (sym (ids_append ps (structural i)))
          (IsDistinct-append i (proposed_ids ps) f h.distinct);
    legal = All-append _ ps (structural i) h.legal a;
    sourced = All-append _ ps (structural i) h.sourced (refl, refl);
    rising = IsRising-append ps i 0 h.rising;
  }

  pub replaced-IsFit :
      (protected : List String) (i : String) {ps qs : List CandidateProposal}
      → Replaces protected (structural i) ps qs
      → mem i (ids available) ≡ true
      → mem i (proposed_ids ps) ≡ false
      → IsFit available top_k ranked ps
      → IsFit available top_k ranked qs
  replaced-IsFit protected i x a f h = record {
    few = let e = length-Replaces protected (structural i) x in let l = h.few in omega arith;
    distinct = distinct-Replaces protected (structural i) x f h.distinct;
    legal = All-Replaces protected (structural i) _ x a h.legal;
    sourced = All-Replaces protected (structural i) _ x (refl, refl) h.sourced;
    rising = IsRising-replaced protected i 0 x h.rising;
  }
