-- ===== src/Search/Pruner/Ranking.antt =====
-- ValueTopKPruner.select: the ranking by score.
use sts2_training.Base.{
  ◌≡◌, ◌∙◌, ◌⊎◌, refl, ap, subst, inl, inr, ℕ, zero, suc, ◌<◌, ◌==◌, true, false, List, [], ◌∷◌,
  ◌++◌, length, take, drop, take-append-drop, map, All, if◌then◌else◌, Bool-cases, arith, leb,
}
use sts2_training.Base.Outcome.{ok, ok-injective}
use mathlib.Core.List.{Perm}
use mathlib.Core.List.Perm
use sts2_training.Search.Pruner.{Scores, entries, insert, ranked, best, select}

module _ {S : Type 0} (scores : Scores S) where
  -- x stands before y: y's score is not above x's, and where it is not below either, x's index is
  -- the smaller.
  abbrev pub Before : ℕ × S → ℕ × S → Type 0
  Before x y = (scores.below x.1 y.1 ≡ false) × ((scores.below y.1 x.1 ≡ true) ⊎ (x.0 < y.0))

  abbrev pub IsRanked : List (ℕ × S) → Type 0
  IsRanked [] = Unit
  IsRanked (x ∷ xs) = All (Before x) xs × IsRanked xs

  pub insert-All :
      (P : ℕ × S → Type 0) (x : ℕ × S) (ys : List (ℕ × S))
      → P x
      → All P ys
      → All P (insert scores x ys)
  insert-All P x [] h k = (h, tt)
  insert-All P x (y ∷ ys) h k = elim (Bool-cases (scores.below x.1 y.1)) [
    | inl b ↦ rw b (k.0, insert-All P x ys h k.1)
    | inr b ↦ rw b (h, k)
  ]

  insert-IsRanked :
      (x : ℕ × S) (ys : List (ℕ × S))
      → All (λ y. x.0 < y.0) ys
      → IsRanked ys
      → IsRanked (insert scores x ys)
  insert-IsRanked x [] l h = (tt, tt)
  insert-IsRanked x (y ∷ ys) l h = elim (Bool-cases (scores.below x.1 y.1)) [
    | inl b ↦ rw b (
      insert-All (Before y) x ys (scores.asym x.1 y.1 b, inl b) h.0,
      insert-IsRanked x ys l.1 h.1,
    )
    | inr b ↦ rw b (((b, inr l.0), behind ys l.1 h.0 b), h)
  ]
    where
      behind :
          (zs : List (ℕ × S))
          → All (λ z. x.0 < z.0) zs
          → All (Before y) zs
          → scores.below x.1 y.1 ≡ false
          → All (Before x) zs
      behind [] m k b = tt
      behind (z ∷ zs) m k b = ((scores.trans x.1 y.1 z.1 b k.0.0, inr m.0), behind zs m.1 k.1 b)

  pub ranked-All : (P : ℕ × S → Type 0) (xs : List (ℕ × S)) → All P xs → All P (ranked scores xs)
  ranked-All P [] h = tt
  ranked-All P (x ∷ xs) h = insert-All P x (ranked scores xs) h.0 (ranked-All P xs h.1)

  pub entries_above : (i j : ℕ) (ss : List S) → j < i → All (λ y. j < y.0) (entries scores i ss)
  entries_above i j [] l = tt
  entries_above i j (s ∷ ss) l = (l, entries_above (suc i) j ss (omega arith))

  ranked-IsRanked : (i : ℕ) (ss : List S) → IsRanked (ranked scores (entries scores i ss))
  ranked-IsRanked i [] = tt
  ranked-IsRanked i (s ∷ ss) =
      insert-IsRanked (i, s) (ranked scores (entries scores (suc i) ss))
        (ranked-All (λ y. i < y.0) (entries scores (suc i) ss)
          (entries_above (suc i) i ss (omega arith)))
        (ranked-IsRanked (suc i) ss)

  insert-Perm : (x : ℕ × S) (ys : List (ℕ × S)) → Perm (insert scores x ys) (x ∷ ys)
  insert-Perm x [] = Perm.rfl
  insert-Perm x (y ∷ ys) = elim (Bool-cases (scores.below x.1 y.1)) [
    | inl b ↦ rw b (Perm.trans (Perm.cons y (insert-Perm x ys)) (Perm.swap x y ys))
    | inr b ↦ rw b Perm.rfl
  ]

  ranked-Perm : (xs : List (ℕ × S)) → Perm (ranked scores xs) xs
  ranked-Perm [] = Perm.nil
  ranked-Perm (x ∷ xs) =
      Perm.trans (insert-Perm x (ranked scores xs)) (Perm.cons x (ranked-Perm xs))

  -- the smaller of two numbers
  length-take :
      (k : ℕ) (xs : List (ℕ × S))
      → length (take k xs) ≡ (if leb k (length xs) then k else length xs)
  length-take zero xs = ground arith
  length-take (suc k) [] = ground arith
  length-take (suc k) (x ∷ xs) = let ih = length-take k xs in ground (arith, ih)

  -- The entries that are kept, the best first, and those that are dropped.
  pub record IsBest (frontier : List S) (k : ℕ) (kept dropped : List (ℕ × S)) : Type 0 where
    pub arranged : Perm (kept ++ dropped) (entries scores 0 frontier)
    pub ranked : IsRanked (kept ++ dropped)
    pub full : length kept ≡ (if leb k (length frontier) then k else length frontier)

  length-entries : (i : ℕ) (ss : List S) → length (entries scores i ss) ≡ length ss
  length-entries i [] = refl
  length-entries i (s ∷ ss) = ap suc (length-entries (suc i) ss)

  length-insert : (x : ℕ × S) (ys : List (ℕ × S)) → length (insert scores x ys) ≡ suc (length ys)
  length-insert x [] = refl
  length-insert x (y ∷ ys) = elim (Bool-cases (scores.below x.1 y.1)) [
    | inl b ↦ rw b (ap suc (length-insert x ys))
    | inr b ↦ rw b refl
  ]

  length-ranked : (xs : List (ℕ × S)) → length (ranked scores xs) ≡ length xs
  length-ranked [] = refl
  length-ranked (x ∷ xs) =
      let a = length-insert x (ranked scores xs) in let b = length-ranked xs in omega arith

  pub best-IsBest :
      (frontier : List S) (k : ℕ)
      → IsBest frontier k
          (best scores frontier k)
          (drop k (ranked scores (entries scores 0 frontier)))
  best-IsBest frontier k =
      let all = ranked scores (entries scores 0 frontier) in
      let n : length all ≡ length frontier = length-ranked _ ∙ length-entries 0 frontier in
      record {
        arranged = rw (take-append-drop k all) (ranked-Perm (entries scores 0 frontier));
        ranked = rw (take-append-drop k all) (ranked-IsRanked 0 frontier);
        full = subst (λ m. length (take k all) ≡ (if leb k m then k else m)) n (length-take k all);
      }

  -- The indices that are returned belong to the first k entries of an arrangement of the whole
  -- frontier, in which a higher score stands before a lower one and equal scores keep their order.
  pub select-IsBest :
      (frontier : List S) (k : ℕ) (is : List ℕ)
      → select scores frontier k ≡ ok is
      → (kept : List (ℕ × S)) × (dropped : List (ℕ × S)) × (map (λ e. e.0) kept ≡ is)
        × IsBest frontier k kept dropped
  unfolding select
  select-IsBest frontier k is h = elim (Bool-cases (k == 0)) [
    | inl e ↦ let j = rw e at h in cc
    | inr e ↦
        let j = rw e at h in
        (
          best scores frontier k,
          drop k (ranked scores (entries scores 0 frontier)),
          ok-injective j,
          best-IsBest frontier k,
        )
  ]
