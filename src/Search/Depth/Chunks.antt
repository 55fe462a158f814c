-- ===== src/Search/Depth/Chunks.antt =====
-- The division of an attempt of _emulate_depth_batch into chunks.
use sts2_training.Base.{
  ◌≡◌, ◌∙◌, refl, ap, ℕ, zero, suc, ◌≤◌, List, [], ◌∷◌, ◌++◌, length, take, drop, take-append-drop,
  arith,
}
use sts2_training.Search.Depth.{Placed, chunks_of}

unfoldable pub concat : {S : Type 0} → List (List (Placed S)) → List (Placed S)
concat [] = []
concat (ps ∷ pss) = ps ++ concat pss

drop_le : {S : Type 0} (k : ℕ) (ps : List (Placed S)) → length (drop k ps) ≤ length ps
drop_le zero ps = omega arith
drop_le (suc k) [] = omega arith
drop_le (suc k) (p ∷ ps) = let h = drop_le k ps in omega arith

length-drop :
    {S : Type 0} (k n : ℕ) (ps : List (Placed S)) → length ps ≤ suc n → length (drop (suc k) ps) ≤ n
length-drop k n [] l = omega arith
length-drop k n (p ∷ ps) l = let h = drop_le k ps in omega arith

pub concat-chunks_of :
    {S : Type 0} (fuel k : ℕ) (ps : List (Placed S))
    → length ps ≤ fuel
    → concat (chunks_of fuel (suc k) ps) ≡ ps
unfolding concat
concat-chunks_of zero k [] l = refl
concat-chunks_of zero k (p ∷ ps) l = elim (absurd (length ps) l) [ ]
  where
    absurd : (n : ℕ) → suc n ≤ 0 → ⊥
    absurd n h = omega arith
concat-chunks_of (suc fuel) k [] l = refl
concat-chunks_of (suc fuel) k (p ∷ ps) l =
    ap (λ xs. take (suc k) (p ∷ ps) ++ xs)
      (concat-chunks_of fuel k (drop (suc k) (p ∷ ps)) (length-drop k fuel (p ∷ ps) l))
    ∙ take-append-drop (suc k) (p ∷ ps)
