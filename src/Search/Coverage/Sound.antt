-- ===== src/Search/Coverage/Sound.antt =====
-- candidate_coverage.py: the proposals after the coverage.
use sts2_training.Base.{
  ◌≡◌, refl, sym, ap, subst, inl, inr, ℕ, suc, ◌≤◌, String, true, false, Option, none, some, List,
  [], ◌∷◌, length, mem, ltb, ◌==◌, Bool-cases, arith, All,
}
use sts2_training.Base.Distinct.{length_distinct, mem-append, mem-append_new}
use sts2_training.Base.Outcome.{Result, ok, err, ok-injective}
use sts2_training.Json.{Fields}
use sts2_training.Api.Errors.{Exc}
use sts2_training.Search.Coverage.{
  Action, ActionCandidate, CandidateProposal, proposed_ids, ids, available_of, take_ranked,
}
use sts2_training.Search.Coverage.Required.{required_action_ids}
use sts2_training.Search.Coverage.Apply.{
  structural, replace_last, or_unchanged, cover_one, cover, covered, covered_if,
  apply_structural_coverage_with_provenance,
}
use sts2_training.Search.Coverage.Replaced.{
  IsReplacement, replace_last-IsReplacement, mem-Replaces_new, mem-Replaces,
}
use sts2_training.Search.Coverage.Fit.{IsFit, ids_append, appended-IsFit, replaced-IsFit}
use sts2_training.Search.Coverage.Numbered.{
  take_all, All-members, renumber-ids, IsNumbered, renumber-IsNumbered, renumbered-IsFit,
}
use sts2_training.Search.Coverage.Legal.{required_action_ids-AllLegal, length-required_action_ids}
use sts2_training.Search.Coverage.Ranked.{take_ranked-IsFit}

length_ids : (ps : List CandidateProposal) → length (proposed_ids ps) ≡ length ps
length_ids [] = refl
length_ids (p ∷ ps) = ap suc (length_ids ps)

module _ (available : List Action) (top_k : ℕ) (ranked : List ActionCandidate)
    (protected : List String) where
  abbrev Fit : List CandidateProposal → Type 0
  Fit ps = IsFit available top_k ranked ps

  -- What covering i does to the proposals: they stay fit, i is proposed, and a protected action
  -- that is proposed stays so.
  record Covers (i : String) (ps qs : List CandidateProposal) : Type 0 where
    fit : Fit qs
    new : mem i (proposed_ids qs) ≡ true
    old :
        (j : String)
        → mem j protected ≡ true
        → mem j (proposed_ids ps) ≡ true
        → mem j (proposed_ids qs) ≡ true

  replaced-Covers :
      (i : String) (ps : List CandidateProposal) (o : Option (List CandidateProposal))
      → IsReplacement protected (structural i) ps o
      → mem i protected ≡ true
      → length protected ≤ top_k
      → mem i (ids available) ≡ true
      → mem i (proposed_ids ps) ≡ false
      → top_k ≤ length ps
      → Fit ps
      → Covers i ps (or_unchanged ps o)
  replaced-Covers i ps (some qs) x p l a f g h = record {
    fit = replaced-IsFit available top_k ranked protected i x a f h;
    new = mem-Replaces_new protected (structural i) x;
    old = λ j. mem-Replaces protected (structural i) j x;
  }
  replaced-Covers i ps none x p l a f g h =
      elim (no_room (length_distinct (i ∷ proposed_ids ps) protected (f, h.distinct) (p, x))
        (length_ids ps)) [ ]
    where
      no_room :
          length (i ∷ proposed_ids ps) ≤ length protected → length (proposed_ids ps) ≡ length ps → ⊥
      no_room k e = omega arith

  cover_one-Covers :
      (i : String) (ps : List CandidateProposal)
      → mem i protected ≡ true
      → length protected ≤ top_k
      → mem i (ids available) ≡ true
      → Fit ps
      → Covers i ps (cover_one protected top_k i ps)
  unfolding cover_one
  cover_one-Covers i ps p l a h = elim (Bool-cases (mem i (proposed_ids ps))) [
    | inl f ↦ rw f (record { fit = h; new = f; old = λ j k m. m })
    | inr f ↦ rw f (elim (Bool-cases (ltb (length ps) top_k)) [
      | inl r ↦ rw r (record {
        fit = appended-IsFit available top_k ranked i ps a f r h;
        new =
            subst (λ xs. mem i xs ≡ true) (sym (ids_append ps (structural i)))
              (mem-append_new i (proposed_ids ps));
        old = λ j k m.
            subst (λ xs. mem j xs ≡ true) (sym (ids_append ps (structural i)))
              (mem-append j i (proposed_ids ps) m);
      })
      | inr r ↦ rw r (
          replaced-Covers i ps (replace_last protected (structural i) ps)
            (replace_last-IsReplacement protected (structural i) ps) p l a f (ground arith) h)
    ])
  ]

  -- What covering a list of actions does.
  record CoversAll (is : List String) (ps qs : List CandidateProposal) : Type 0 where
    fit : Fit qs
    new : All (λ i. mem i (proposed_ids qs) ≡ true) is
    old :
        (j : String)
        → mem j protected ≡ true
        → mem j (proposed_ids ps) ≡ true
        → mem j (proposed_ids qs) ≡ true

  cover-CoversAll :
      (is : List String) (ps : List CandidateProposal)
      → All (λ i. mem i protected ≡ true) is
      → length protected ≤ top_k
      → All (λ i. mem i (ids available) ≡ true) is
      → Fit ps
      → CoversAll is ps (cover protected top_k is ps)
  cover-CoversAll [] ps p l a h = record { fit = h; new = tt; old = λ j k m. m }
  cover-CoversAll (i ∷ is) ps p l a h =
      let c = cover_one-Covers i ps p.0 l a.0 h in
      let d = cover-CoversAll is (cover_one protected top_k i ps) p.1 l a.1 c.fit in
      record {
        fit = d.fit;
        new = (d.old i p.0 c.new, d.new);
        old = λ j k m. d.old j k (c.old j k m);
      }

module _ (available : List Action) (top_k : ℕ) (ranked : List ActionCandidate) where
  -- the proposals after the coverage
  pub record IsCovered (selected ps : List CandidateProposal) : Type 0 where
    pub fit : IsFit available top_k ranked ps
    pub numbered : IsNumbered 0 ps
    pub retained :
        All (λ i. mem i (proposed_ids ps) ≡ true) (required_action_ids selected available top_k)

  pub covered-IsCovered :
      (selected : List CandidateProposal)
      → IsFit available top_k ranked selected
      → IsCovered selected (covered available top_k selected)
  unfolding covered
  covered-IsCovered selected h =
      let required = required_action_ids selected available top_k in
      let c =
        cover-CoversAll available top_k ranked required required selected (All-members required)
          (length-required_action_ids selected available top_k)
          (required_action_ids-AllLegal selected available top_k) h in
      let qs = cover required top_k required selected in
      rw (take_all top_k qs c.fit.few) (record {
        fit = renumbered-IsFit available top_k ranked qs c.fit;
        numbered = renumber-IsNumbered 0 qs;
        retained =
            subst (λ xs. All (λ i. mem i xs ≡ true) required) (sym (renumber-ids 0 qs)) c.new;
      })

module _ (ranked : List ActionCandidate) (legal_actions : List Fields) (top_k : ℕ) where
  of_taken :
      (r : Result Exc (List CandidateProposal)) (ps : List CandidateProposal)
      → covered_if (available_of legal_actions) top_k r ≡ ok ps
      → (selected : List CandidateProposal) × (r ≡ ok selected)
        × (covered (available_of legal_actions) top_k selected ≡ ps)
  of_taken (ok selected) ps h = (selected, refl, ok-injective h)
  of_taken (err e) ps h = cc

  -- Proposals that are returned come from the policy's part of the ranking and its coverage.
  pub apply-IsCovered :
      (ps : List CandidateProposal)
      → apply_structural_coverage_with_provenance ranked legal_actions top_k ≡ ok ps
      → (selected : List CandidateProposal) × IsCovered
          (available_of legal_actions)
          top_k
          ranked
          selected
          ps
  unfolding apply_structural_coverage_with_provenance
  apply-IsCovered ps h = elim (Bool-cases (top_k == 0)) [
    | inl e ↦ let k = rw e at h in cc
    | inr e ↦
        let k = rw e at h in
        let t = of_taken (take_ranked (available_of legal_actions) top_k 0 0 [] ranked) ps k in
        (
          t.0,
          subst (IsCovered (available_of legal_actions) top_k ranked t.0) t.2 (
              covered-IsCovered (available_of legal_actions) top_k ranked t.0 (
                take_ranked-IsFit (available_of legal_actions) top_k ranked t.0 (ground arith)
                  t.1)),
        )
  ]

  -- The proposals that are returned are at most top_k, of different and legal actions, and numbered
  -- from 0; those of the policy carry its candidate, its rank and its score and stand in the order
  -- of their ranks, and the others carry neither.
  pub apply-IsFit :
      (ps : List CandidateProposal)
      → apply_structural_coverage_with_provenance ranked legal_actions top_k ≡ ok ps
      → IsFit (available_of legal_actions) top_k ranked ps × IsNumbered 0 ps
  apply-IsFit ps h = let c = apply-IsCovered ps h in (c.1.fit, c.1.numbered)
