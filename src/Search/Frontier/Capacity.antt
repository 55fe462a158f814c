-- ===== src/Search/Frontier/Capacity.antt =====
-- _fit_whole_run_frontier_to_active_capacity: the slots that the loop over the beam uses.
use sts2_training.Base.{
  ◌≡◌, refl, ap, inl, inr, ℕ, zero, suc, ◌+◌, ◌-◌, ◌≤◌, ◌==◌, ltb, Bool, true, false, List, [], ◌∷◌,
  ◌++◌, length, take, Bool-cases, arith,
}
use sts2_training.Search.Frontier.{
  BeamNode, Item, is_nil, smaller, children_of, parent_cost, Fitted, nothing, with_node, room,
  fit_beam,
}

smaller-le : (a b : ℕ) → (smaller a b ≤ a) × (smaller a b ≤ b)
smaller-le a b = (ground arith, ground arith)

length-take_le : {A : Type 0} (k : ℕ) (xs : List A) → k ≤ length xs → length (take k xs) ≡ k
length-take_le zero xs l = refl
length-take_le (suc k) [] l = omega arith
length-take_le (suc k) (x ∷ xs) l = ap suc (length-take_le k xs (omega arith))

length-append : {A : Type 0} (xs ys : List A) → length (xs ++ ys) ≡ length xs + length ys
length-append [] ys = omega arith
length-append (x ∷ xs) ys = let ih = length-append xs ys in omega arith

module _ {S : Type 0} where
  -- the slots that the parents take
  abbrev pub slots : List (BeamNode S) → ℕ
  slots [] = 0
  slots (n ∷ ns) = parent_cost n + slots ns

  -- The slots are those of the parents and of the items, and within the capacity.
  pub record Fits (capacity used : ℕ) (f : Fitted S) : Type 0 where
    pub counted : f.used ≡ used + (slots f.beam + length f.items)
    pub fits : f.used ≤ capacity

  module _ (capacity : ℕ) (items : List (Item S)) where
    abbrev pub children : BeamNode S → List (Item S)
    children node = children_of node.branch_id items

    abbrev pub fitting : ℕ → BeamNode S → ℕ
    fitting used node = smaller (length (children node)) (room capacity used node)

    abbrev pub now : ℕ → BeamNode S → ℕ
    now used node = used + (parent_cost node + fitting used node)

    with_node-Fits :
        (used : ℕ) (node : BeamNode S) (f : Fitted S)
        → Fits capacity (now used node) f
        → Fits capacity used (with_node node (take (fitting used node) (children node)) f)
    with_node-Fits used node f h =
        let small = smaller-le (length (children node)) (room capacity used node) in
        let n = length-take_le (fitting used node) (children node) small.0 in
        let m = length-append (take (fitting used node) (children node)) f.items in
        let k = h.counted in record { counted = omega arith; fits = h.fits }

    nothing-Fits : (used : ℕ) (b : Bool) → used ≤ capacity → Fits capacity used (nothing used b)
    nothing-Fits used b l = record { counted = omega arith; fits = l }

    now-le :
        (used : ℕ) (node : BeamNode S)
        → (room capacity used node == 0) ≡ false
        → now used node ≤ capacity
    now-le used node h =
        let small = (smaller-le (length (children node)) (room capacity used node)).1 in
        room_le (parent_cost node) (fitting used node) small h
      where
        room_le :
            (cost n : ℕ)
            → n ≤ capacity - (used + cost)
            → ((capacity - (used + cost)) == 0) ≡ false
            → used + (cost + n) ≤ capacity
        room_le cost n l e = ground arith

    pub fit_beam-Fits :
        (used : ℕ) (beam : List (BeamNode S))
        → used ≤ capacity
        → Fits capacity used (fit_beam capacity items used beam)
    unfolding fit_beam
    fit_beam-Fits used [] l = nothing-Fits used false l
    fit_beam-Fits used (node ∷ rest) l = elim (Bool-cases (is_nil (children node))) [
      | inl e ↦
          rw e (let h = fit_beam-Fits used rest l in record { counted = h.counted; fits = h.fits })
      | inr e ↦ rw e (elim (Bool-cases (room capacity used node == 0)) [
        | inl z ↦ rw z (nothing-Fits used true l)
        | inr z ↦ rw z (elim (Bool-cases (ltb (fitting used node) (length (children node)))) [
          | inl s ↦ rw s (
              with_node-Fits used node (nothing (now used node) true)
                (nothing-Fits (now used node) true (now-le used node z)))
          | inr s ↦ rw s (
              with_node-Fits used node (fit_beam capacity items (now used node) rest)
                (fit_beam-Fits (now used node) rest (now-le used node z)))
        ])
      ])
    ]
