-- ===== src/Search/Frontier/Fitting.antt =====
-- _fit_whole_run_frontier_to_active_capacity: its beam, its items and the states that wait.
use sts2_training.Base.{
  ◌≡◌, refl, ap, inl, inr, ℕ, zero, suc, ◌+◌, ◌-◌, ◌≤◌, ◌==◌, ==_iff, Bool, true, false, not, ◌||◌,
  List, [], ◌∷◌, length, take, drop, arith,
}
use sts2_training.Search.Pruner.{Scores}
use sts2_training.Search.Frontier.{
  BeamNode, Item, is_nil, fit_beam, rank_nodes, branch_ids, outside, fit_all,
}
use sts2_training.Search.Frontier.Capacity.{slots, fit_beam-Fits}
use sts2_training.Search.Frontier.Whole.{HaveParents, fit_beam-Whole}

false-true : (b : Bool) → b ≡ false → b ≡ true → ⊥
false-true b h k = ground arith

none_left :
    (a b c d : Bool)
    → (a || not b || not c || not d) ≡ false
    → (a ≡ false) × (b ≡ true) × (c ≡ true) × (d ≡ true)
none_left a b c d h = (ground arith, ground arith, ground arith, ground arith)

module _ {S : Type 0} where
  length-take_most : (k : ℕ) (ns : List (BeamNode S)) → length (take k ns) ≤ k
  length-take_most zero ns = omega arith
  length-take_most (suc k) [] = omega arith
  length-take_most (suc k) (n ∷ ns) = let ih = length-take_most k ns in omega arith

  take_whole : (k : ℕ) (ns : List (BeamNode S)) → is_nil (drop k ns) ≡ true → take k ns ≡ ns
  take_whole zero [] h = refl
  take_whole zero (n ∷ ns) h = cc
  take_whole (suc k) [] h = refl
  take_whole (suc k) (n ∷ ns) h = ap (λ xs. n ∷ xs) (take_whole k ns h)

  module _ (scores : Scores S) (capacity : ℕ) (beam waiting : List (BeamNode S))
      (items : List (Item S)) where
    -- The parents other than the root, the new Branches and the states kept waiting are together no
    -- more than the capacity, and every new Branch has its parent in the fitted beam.
    pub fit_all-capacity :
        (slots (fit_all scores capacity beam waiting items).beam
            + (length (fit_all scores capacity beam waiting items).items
                + length (fit_all scores capacity beam waiting items).waiting)
          ≤ capacity)
        × HaveParents
            (fit_all scores capacity beam waiting items).beam
            (fit_all scores capacity beam waiting items).items
    unfolding fit_all
    fit_all-capacity =
        let f = fit_beam-Fits capacity items 0 beam (omega arith) in
        let c = f.counted in
        let l = f.fits in
        let w =
          length-take_most (capacity - (fit_beam capacity items 0 beam).used)
            (rank_nodes scores waiting) in
        (omega arith, (fit_beam-Whole capacity items 0 beam).1)

    -- When the fitting says that nothing was left, the whole beam, as many items as there were and
    -- every waiting state, ranked, are kept.
    pub fit_all-unlimited :
        (fit_all scores capacity beam waiting items).limited ≡ false
        → ((fit_all scores capacity beam waiting items).beam ≡ beam)
          × (length (fit_all scores capacity beam waiting items).items ≡ length items)
          × ((fit_all scores capacity beam waiting items).waiting ≡ rank_nodes scores waiting)
    unfolding fit_all
    fit_all-unlimited h =
        let f = fit_beam capacity items 0 beam in
        let n =
          none_left f.limited (is_nil (outside (branch_ids f.beam) beam))
            (is_nil (drop (capacity - f.used) (rank_nodes scores waiting)))
            (length f.items == length items) h in
        (
          elim (fit_beam-Whole capacity items 0 beam).0 [
            | inl t ↦ elim (false-true f.limited n.0 t) [ ]
            | inr e ↦ e
          ],
          (==_iff (length f.items) (length items)).0 n.3,
          take_whole (capacity - f.used) (rank_nodes scores waiting) n.2,
        )
