-- ===== src/Search/Coverage/Ranked.antt =====
-- candidate_coverage.py: what is taken of the policy's ranking.
use sts2_training.Base.{
  ◌≡◌, refl, subst, inl, inr, ℕ, suc, ◌+◌, ◌≤◌, String, true, false, Option, none, some, List, [],
  ◌∷◌, length, mem, leb, ◌==◌, Bool-cases, arith, All, All-map, IsFresh, IsDistinct, IsFresh-cons,
  IsFresh-of_seen,
}
use sts2_training.Base.Outcome.{Result, ok, err}
use sts2_training.Api.Errors.{Exc}
use sts2_training.Search.Coverage.{
  Action, ActionCandidate, CandidateProposal, proposed, proposed_ids, ids, from_policy, put,
  take_ranked,
}
use sts2_training.Search.Coverage.Fit.{IsSourced, IsRising, IsRising-weaken, IsFit}

module _ (available : List Action) (top_k : ℕ) where
  -- what holds of the proposals that are taken from cs, the first of which has the rank
  record Takes (rank place : ℕ) (seen : List String) (cs : List ActionCandidate)
      (ps : List CandidateProposal) : Type 0 where
    few : place + length ps ≤ top_k
    fresh : All (λ i. IsFresh i seen) (proposed_ids ps)
    distinct : IsDistinct (proposed_ids ps)
    legal : All (λ p. mem (proposed p) (ids available) ≡ true) ps
    sourced : All (λ p. IsSourced rank cs p p.policy_rank) ps
    rising : IsRising ps rank

  abbrev Taken :
      ℕ → ℕ → List String → List ActionCandidate → Result Exc (List CandidateProposal) → Type 0
  Taken rank place seen cs (err e) = Unit
  Taken rank place seen cs (ok ps) = Takes rank place seen cs ps

  IsSourced-later :
      (rank : ℕ) (c : ActionCandidate) (cs : List ActionCandidate) (p : CandidateProposal)
      (o : Option ℕ)
      → IsSourced (suc rank) cs p o
      → IsSourced rank (c ∷ cs) p o
  IsSourced-later rank c cs p none h = h
  IsSourced-later rank c cs p (some r) h =
      let l = h.2 in let n : (rank == r) ≡ false = ground arith in (h.0, h.1, omega arith, rw n h.3)

  skipped-Taken :
      (rank place : ℕ) (seen : List String) (c : ActionCandidate) (cs : List ActionCandidate)
      (r : Result Exc (List CandidateProposal))
      → Taken (suc rank) place seen cs r
      → Taken rank place seen (c ∷ cs) r
  skipped-Taken rank place seen c cs (err e) h = tt
  skipped-Taken rank place seen c cs (ok ps) h = record {
    few = h.few;
    fresh = h.fresh;
    distinct = h.distinct;
    legal = h.legal;
    sourced = All-map _ _ ps (λ p. IsSourced-later rank c cs p p.policy_rank) h.sourced;
    rising = IsRising-weaken ps (suc rank) rank (omega arith) h.rising;
  }

  module _ (rank place : ℕ) (seen : List String) (c : ActionCandidate) (cs : List ActionCandidate)
      (a : mem c.action_id (ids available) ≡ true) (f : IsFresh c.action_id seen) where
    first-IsSourced : IsSourced rank (c ∷ cs) (from_policy rank place c) (some rank)
    first-IsSourced =
        let e : (rank == rank) ≡ true = ground arith in (refl, refl, omega arith, rw e refl)

    last-Takes : suc place ≤ top_k → Takes rank place seen (c ∷ cs) (from_policy rank place c ∷ [])
    last-Takes l = record {
      few = omega arith;
      fresh = (f, tt);
      distinct = (refl, tt);
      legal = (a, tt);
      sourced = (first-IsSourced, tt);
      rising = (omega arith, tt);
    }

    put-Taken :
        (r : Result Exc (List CandidateProposal))
        → Taken (suc rank) (suc place) (c.action_id ∷ seen) cs r
        → Taken rank place seen (c ∷ cs) (put (from_policy rank place c) r)
    put-Taken (err e) h = tt
    put-Taken (ok ps) h = record {
      few = let l = h.few in omega arith;
      fresh = (f, All-map _ _ (proposed_ids ps) (λ j. IsFresh-cons seen c.action_id j) h.fresh);
      distinct = (IsFresh-of_seen seen c.action_id (proposed_ids ps) h.fresh, h.distinct);
      legal = (a, h.legal);
      sourced = (
        first-IsSourced,
        All-map _ _ ps (λ p. IsSourced-later rank c cs p p.policy_rank) h.sourced,
      );
      rising = (omega arith, h.rising);
    }

  take_ranked-Taken :
      (rank place : ℕ) (seen : List String) (cs : List ActionCandidate)
      → suc place ≤ top_k
      → Taken rank place seen cs (take_ranked available top_k rank place seen cs)
  unfolding take_ranked
  take_ranked-Taken rank place seen [] l = record {
    few = omega arith;
    fresh = tt;
    distinct = tt;
    legal = tt;
    sourced = tt;
    rising = tt;
  }
  take_ranked-Taken rank place seen (c ∷ cs) l =
      elim (Bool-cases (mem c.action_id (ids available))) [
        | inr a ↦ rw a tt
        | inl a ↦ rw a (elim (Bool-cases (mem c.action_id seen)) [
          | inl f ↦
              rw f (
                skipped-Taken rank place seen c cs _ (take_ranked-Taken (suc rank) place seen cs l))
          | inr f ↦ rw f (elim (Bool-cases (leb top_k (suc place))) [
            | inl k ↦ rw k (last-Takes rank place seen c cs a f l)
            | inr k ↦ rw k (
                put-Taken rank place seen c cs a f _
                  (take_ranked-Taken (suc rank) (suc place) (c.action_id ∷ seen) cs (ground arith)))
          ])
        ])
      ]

  pub take_ranked-IsFit :
      (ranked : List ActionCandidate) (ps : List CandidateProposal)
      → 1 ≤ top_k
      → take_ranked available top_k 0 0 [] ranked ≡ ok ps
      → IsFit available top_k ranked ps
  take_ranked-IsFit ranked ps l h =
      let t : Takes 0 0 [] ranked ps =
        subst (Taken 0 0 [] ranked) h (take_ranked-Taken 0 0 [] ranked l) in
      record {
        few = let k = t.few in omega arith;
        distinct = t.distinct;
        legal = t.legal;
        sourced = t.sourced;
        rising = t.rising;
      }
