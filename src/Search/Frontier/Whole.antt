-- ===== src/Search/Frontier/Whole.antt =====
-- _fit_whole_run_frontier_to_active_capacity: the nodes and items that the loop selects.
use sts2_training.Base.{
  ◌≡◌, ◌⊎◌, refl, ap, inl, inr, ℕ, zero, suc, ◌==◌, ltb, String, true, List, [], ◌∷◌, ◌++◌, length,
  take, mem, str_eq, Bool-cases, All, All-map, arith,
}
use sts2_training.Search.Frontier.{
  BeamNode, Item, is_nil, children_of, Fitted, nothing, with_node, room, fit_beam, branch_ids,
}
use sts2_training.Search.Frontier.Capacity.{fitting, now}

module _ {S : Type 0} where
  -- Either something was left, or the whole beam is selected.
  abbrev pub IsWhole : List (BeamNode S) → Fitted S → Type 0
  IsWhole beam f = (f.limited ≡ true) ⊎ (f.beam ≡ beam)

  with_node-IsWhole :
      (node : BeamNode S) (rest : List (BeamNode S)) (es : List (Item S)) (f : Fitted S)
      → IsWhole rest f
      → IsWhole (node ∷ rest) (with_node node es f)
  with_node-IsWhole node rest es f (inl h) = inl h
  with_node-IsWhole node rest es f (inr h) = inr (ap (λ ns. node ∷ ns) h)

  -- Every item that is selected has its parent in the selected beam.
  abbrev pub HaveParents : List (BeamNode S) → List (Item S) → Type 0
  HaveParents beam es = All (λ e. mem e.parent.branch_id (branch_ids beam) ≡ true) es

  children_of-parent :
      (i : String) (items : List (Item S))
      → All (λ e. str_eq e.parent.branch_id i ≡ true) (children_of i items)
  children_of-parent i [] = tt
  children_of-parent i (e ∷ es) = elim (Bool-cases (str_eq e.parent.branch_id i)) [
    | inl h ↦ rw h (h, children_of-parent i es)
    | inr h ↦ rw h (children_of-parent i es)
  ]

  All-take : (P : Item S → Type 0) (k : ℕ) (es : List (Item S)) → All P es → All P (take k es)
  All-take P zero es h = tt
  All-take P (suc k) [] h = tt
  All-take P (suc k) (e ∷ es) h = (h.0, All-take P k es h.1)

  All-append :
      (P : Item S → Type 0) (es fs : List (Item S)) → All P es → All P fs → All P (es ++ fs)
  All-append P [] fs h k = k
  All-append P (e ∷ es) fs h k = (h.0, All-append P es fs h.1 k)

  module _ (capacity : ℕ) (items : List (Item S)) where
    with_node-HaveParents :
        (k : ℕ) (node : BeamNode S) (f : Fitted S)
        → HaveParents f.beam f.items
        → HaveParents (node ∷ f.beam) (take k (children_of node.branch_id items) ++ f.items)
    with_node-HaveParents k node f h =
        All-append _ (take k (children_of node.branch_id items)) f.items
          (All-map _ _ (take k (children_of node.branch_id items)) (λ e m. ground arith)
            (All-take _ k (children_of node.branch_id items)
              (children_of-parent node.branch_id items)))
          (All-map _ _ f.items (λ e m. ground arith) h)

    abbrev pub Whole : List (BeamNode S) → Fitted S → Type 0
    Whole beam f = IsWhole beam f × HaveParents f.beam f.items

    pub fit_beam-Whole :
        (used : ℕ) (beam : List (BeamNode S)) → Whole beam (fit_beam capacity items used beam)
    unfolding fit_beam
    fit_beam-Whole used [] = (inr refl, tt)
    fit_beam-Whole used (node ∷ rest) =
        elim (Bool-cases (is_nil (children_of node.branch_id items))) [
          | inl e ↦ rw e (inl refl, (fit_beam-Whole used rest).1)
          | inr e ↦ rw e (elim (Bool-cases (room capacity used node == 0)) [
            | inl z ↦ rw z (inl refl, tt)
            | inr z ↦
                rw z
                  (elim (Bool-cases (
                    ltb (fitting capacity items used node)
                      (length (children_of node.branch_id items)))) [
                        | inl s ↦ rw s (
                          inl refl,
                          with_node-HaveParents (fitting capacity items used node) node
                              (nothing (now capacity items used node) true) tt,
                        )
                        | inr s ↦ rw s (
                            let h = fit_beam-Whole (now capacity items used node) rest in
                            (
                              with_node-IsWhole node rest
                                  (take (fitting capacity items used node)
                                    (children_of node.branch_id items))
                                  (fit_beam capacity items (now capacity items used node) rest) h.0,
                              with_node-HaveParents (fitting capacity items used node) node
                                  (fit_beam capacity items (now capacity items used node) rest) h.1,
                            ))
                      ])
          ])
        ]
