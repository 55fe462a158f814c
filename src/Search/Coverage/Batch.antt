-- ===== src/Search/Coverage/Batch.antt =====
-- candidate_coverage.py: a batch of requests, and the adapter CoverageConstrainedPolicy. The policy
-- that ranks is a parameter.
use sts2_training.Base.{
  ◌≡◌, subst, inl, inr, ℕ, suc, not, List, [], ◌∷◌, length, map, ◌==◌, ==_iff, if◌then◌else◌,
  Bool-cases, arith,
}
use sts2_training.Base.Outcome.{Result, ok, err, ok-injective, ◌>>=◌, >>=-eq-ok}
use sts2_training.Json.{Fields}
use sts2_training.Api.Errors.{Exc, value_error, runtime_error}
use sts2_training.Search.Coverage.{ActionCandidate, CandidateProposal, available_of, from_policy}
use sts2_training.Search.Coverage.Apply.{apply_structural_coverage_with_provenance}
use sts2_training.Search.Coverage.Fit.{IsFit}
use sts2_training.Search.Coverage.Numbered.{IsNumbered}
use sts2_training.Search.Coverage.Sound.{apply-IsFit}

-- the candidates of a ranking
unfoldable pub apply_structural_coverage :
    List ActionCandidate → List Fields → ℕ → Result Exc (List ActionCandidate)
unfolding apply_structural_coverage_with_provenance
apply_structural_coverage ranked legal_actions top_k =
    apply_structural_coverage_with_provenance ranked legal_actions top_k >>= λ ps.
    ok (map (λ p. p.candidate) ps)

abbrev pub ranked_from : ℕ → List ActionCandidate → List CandidateProposal
ranked_from rank [] = []
ranked_from rank (c ∷ cs) = from_policy rank rank c ∷ ranked_from (suc rank) cs

-- _policy_only_proposals
unfoldable pub policy_only_proposals :
    List ActionCandidate → ℕ → Result Exc (List CandidateProposal)
policy_only_proposals ranked top_k =
    if top_k == 0 then err value_error else ok (ranked_from 0 ranked)

-- a request: its legal actions and its state
abbrev pub Request : Type 0
Request = List Fields × Fields

-- a PolicyModel by its propose_batch, and the adapter around one
pub data Policy : Type 0 where
  plain constrained : (List Request → List (List ActionCandidate)) → Policy

abbrev pub cover_all :
    ℕ → List (List ActionCandidate) → List Request → Result Exc (List (List CandidateProposal))
cover_all top_k [] requests = ok []
cover_all top_k (ranked ∷ rest) [] = ok []
cover_all top_k (ranked ∷ rest) (request ∷ requests) =
    apply_structural_coverage_with_provenance ranked request.0 top_k >>= λ ps.
    cover_all top_k rest requests >>= λ later. ok (ps ∷ later)

abbrev pub number_all : ℕ → List (List ActionCandidate) → Result Exc (List (List CandidateProposal))
number_all top_k [] = ok []
number_all top_k (ranked ∷ rest) =
    policy_only_proposals ranked top_k >>= λ ps. number_all top_k rest >>= λ later. ok (ps ∷ later)

abbrev pub one_each :
    {A : Type 0} → List (List ActionCandidate) → List Request → Result Exc A → Result Exc A
one_each ranked requests r = if not (length ranked == length requests) then err runtime_error else r

-- propose_batch_with_provenance
unfoldable pub propose_batch_with_provenance :
    Policy → List Request → ℕ → Result Exc (List (List CandidateProposal))
unfolding apply_structural_coverage_with_provenance policy_only_proposals
propose_batch_with_provenance (constrained inner) requests top_k =
    one_each (inner requests) requests (cover_all top_k (inner requests) requests)
propose_batch_with_provenance (plain inner) requests top_k =
    one_each (inner requests) requests (number_all top_k (inner requests))

-- Each request has fit proposals, of its own ranking.
abbrev pub AllFit :
    ℕ → List (List ActionCandidate) → List Request → List (List CandidateProposal) → Type 0
AllFit top_k (ranked ∷ rest) (request ∷ requests) (ps ∷ pss) =
    IsFit (available_of request.0) top_k ranked ps
    × IsNumbered 0 ps
    × AllFit top_k rest requests pss
AllFit top_k [] [] [] = Unit
AllFit top_k ranked requests pss = ⊥

cover_all-AllFit :
    (top_k : ℕ) (rankings : List (List ActionCandidate)) (requests : List Request)
    (pss : List (List CandidateProposal))
    → length rankings ≡ length requests
    → cover_all top_k rankings requests ≡ ok pss
    → AllFit top_k rankings requests pss
cover_all-AllFit top_k [] [] [] l h = tt
cover_all-AllFit top_k [] [] (ps ∷ pss) l h = cc
cover_all-AllFit top_k [] (q ∷ qs) pss l h = elim (absurd (length qs) l) [ ]
  where
    absurd : (n : ℕ) → 0 ≡ suc n → ⊥
    absurd n h = omega arith
cover_all-AllFit top_k (r ∷ rs) [] pss l h = elim (absurd (length rs) l) [ ]
  where
    absurd : (n : ℕ) → suc n ≡ 0 → ⊥
    absurd n h = omega arith
cover_all-AllFit top_k (r ∷ rs) (q ∷ qs) pss l h =
    let a = >>=-eq-ok (apply_structural_coverage_with_provenance r q.0 top_k) _ h in
    let b = >>=-eq-ok (cover_all top_k rs qs) _ a.2 in
    let fit = apply-IsFit r q.0 top_k a.0 a.1 in
    subst (AllFit top_k (r ∷ rs) (q ∷ qs)) (ok-injective b.2)
      (fit.0, fit.1, cover_all-AllFit top_k rs qs b.0 (omega arith) b.1)

-- A batch through the adapter gives every request fit proposals of its own ranking.
pub propose_batch-AllFit :
    (inner : List Request → List (List ActionCandidate)) (requests : List Request) (top_k : ℕ)
    (pss : List (List CandidateProposal))
    → propose_batch_with_provenance (constrained inner) requests top_k ≡ ok pss
    → AllFit top_k (inner requests) requests pss
unfolding propose_batch_with_provenance
propose_batch-AllFit inner requests top_k pss h =
    elim (Bool-cases (length (inner requests) == length requests)) [
      | inr e ↦ let k = rw e at h in cc
      | inl e ↦
          let k = rw e at h in
          cover_all-AllFit top_k (inner requests) requests pss
            ((==_iff (length (inner requests)) (length requests)).0 e) k
    ]
