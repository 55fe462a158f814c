-- ===== src/Search/Pruner/Baseline.antt =====
-- ValueTopKPruner.select and _validated_pruner_indices together.
use sts2_training.Base.{
  ◌≡◌, refl, ap, subst, inl, inr, ℕ, zero, suc, ◌<◌, ◌≤◌, ◌+◌, ◌==◌, true, false, List, [], ◌∷◌,
  length, take, map, All, ltb, Bool-cases, arith,
}
use sts2_training.Base.Outcome.{ok, ok-injective}
use sts2_training.Json.{Value, arr, to_list, of_list}
use sts2_training.Search.Pruner.{
  Scores, entries, insert, ranked, select, mem_nat, check_indices, validated_pruner_indices,
}
use sts2_training.Search.Pruner.Ranking.{ranked-All, entries_above}
use sts2_training.Search.Pruner.Indices.{AllDifferent, AreIndices, index_values}

abbrev AllFresh : List ℕ → List ℕ → Type 0
AllFresh seen is = All (λ j. mem_nat j seen ≡ false) is

fresh_cons :
    (i : ℕ) (seen is : List ℕ) → mem_nat i is ≡ false → AllFresh seen is → AllFresh (i ∷ seen) is
fresh_cons i seen [] h k = tt
fresh_cons i seen (j ∷ is) h k =
    let f = k.0 in (ground (arith, f), fresh_cons i seen is (ground arith) k.1)

check_indices-index_values :
    (size : ℕ) (seen is : List ℕ)
    → AreIndices size is
    → AllFresh seen is
    → check_indices size seen (index_values is) ≡ ok is
check_indices-index_values size seen [] h f = refl
check_indices-index_values size seen (i ∷ is) h f =
    let b : ltb i size ≡ true = let l = h.0.0 in ground arith in
    rw
      (
        b,
        f.0,
        check_indices-index_values size (i ∷ seen) is (h.0.1, h.1.1)
            (fresh_cons i seen is h.1.0 f.1),
      )
      refl

to_list-of_list : (vs : List Value) → to_list (of_list vs) ≡ vs
to_list-of_list [] = refl
to_list-of_list (v ∷ vs) = ap (λ ws. v ∷ ws) (to_list-of_list vs)

length_values : (is : List ℕ) → length (index_values is) ≡ length is
length_values [] = refl
length_values (i ∷ is) = ap suc (length_values is)

all_fresh : (is : List ℕ) → AllFresh [] is
all_fresh [] = tt
all_fresh (i ∷ is) = (refl, all_fresh is)

-- A Python list of at most k different indices passes the check.
pub validated-index_values :
    (size k : ℕ) (is : List ℕ)
    → AreIndices size is
    → length is ≤ k
    → validated_pruner_indices (arr (of_list (index_values is))) size k ≡ ok is
unfolding validated_pruner_indices
validated-index_values size k is h l =
    let n = length_values is in
    let b : ltb k (length (index_values is)) ≡ false = ground (arith, n) in
    rw (to_list-of_list (index_values is), b)
      (check_indices-index_values size [] is h (all_fresh is))

module _ {S : Type 0} (scores : Scores S) where
  abbrev indices : List (ℕ × S) → List ℕ
  indices es = map (λ e. e.0) es

  fresh-insert :
      (i : ℕ) (x : ℕ × S) (ys : List (ℕ × S))
      → (i == x.0) ≡ false
      → mem_nat i (indices ys) ≡ false
      → mem_nat i (indices (insert scores x ys)) ≡ false
  fresh-insert i x [] n f = ground arith
  fresh-insert i x (y ∷ ys) n f = elim (Bool-cases (scores.below x.1 y.1)) [
    | inl b ↦ rw b (let ih = fresh-insert i x ys n in ground (arith, ih))
    | inr b ↦ rw b (ground arith)
  ]

  AllDifferent-insert :
      (x : ℕ × S) (ys : List (ℕ × S))
      → mem_nat x.0 (indices ys) ≡ false
      → AllDifferent (indices ys)
      → AllDifferent (indices (insert scores x ys))
  AllDifferent-insert x [] f h = (refl, tt)
  AllDifferent-insert x (y ∷ ys) f h = elim (Bool-cases (scores.below x.1 y.1)) [
    | inl b ↦
        rw b (fresh-insert y.0 x ys (ground arith) h.0, AllDifferent-insert x ys (ground arith) h.1)
    | inr b ↦ rw b (f, h)
  ]

  above-fresh : (i : ℕ) (ys : List (ℕ × S)) → All (λ y. i < y.0) ys → mem_nat i (indices ys) ≡ false
  above-fresh i [] h = refl
  above-fresh i (y ∷ ys) h = let l = h.0 in let ih = above-fresh i ys h.1 in ground (arith, ih)

  AllDifferent-ranked :
      (i : ℕ) (ss : List S) → AllDifferent (indices (ranked scores (entries scores i ss)))
  AllDifferent-ranked i [] = tt
  AllDifferent-ranked i (s ∷ ss) =
      AllDifferent-insert (i, s) (ranked scores (entries scores (suc i) ss))
        (above-fresh i (ranked scores (entries scores (suc i) ss)) (
          ranked-All scores (λ y. i < y.0) (entries scores (suc i) ss)
            (entries_above scores (suc i) i ss (omega arith))))
        (AllDifferent-ranked (suc i) ss)

  entries_within :
      (i size : ℕ) (ss : List S)
      → i + length ss ≤ size
      → All (λ y. y.0 < size) (entries scores i ss)
  entries_within i size [] l = tt
  entries_within i size (s ∷ ss) l = (omega arith, entries_within (suc i) size ss (omega arith))

  fresh-take :
      (i k : ℕ) (es : List (ℕ × S))
      → mem_nat i (indices es) ≡ false
      → mem_nat i (indices (take k es)) ≡ false
  fresh-take i zero es f = refl
  fresh-take i (suc k) [] f = refl
  fresh-take i (suc k) (e ∷ es) f = let ih = fresh-take i k es in ground (arith, ih)

  AreIndices-take :
      (size k : ℕ) (es : List (ℕ × S))
      → All (λ y. y.0 < size) es
      → AllDifferent (indices es)
      → AreIndices size (indices (take k es))
  AreIndices-take size zero es h d = (tt, tt)
  AreIndices-take size (suc k) [] h d = (tt, tt)
  AreIndices-take size (suc k) (e ∷ es) h d =
      let r = AreIndices-take size k es h.1 d.1 in ((h.0, r.0), (fresh-take e.0 k es d.0, r.1))

  length-take : (k : ℕ) (es : List (ℕ × S)) → length (indices (take k es)) ≤ k
  length-take zero es = omega arith
  length-take (suc k) [] = omega arith
  length-take (suc k) (e ∷ es) = let ih = length-take k es in omega arith

  -- Whatever the baseline answers passes the engine's check unchanged.
  pub validated-select :
      (frontier : List S) (k : ℕ) (is : List ℕ)
      → select scores frontier k ≡ ok is
      → validated_pruner_indices (arr (of_list (index_values is))) (length frontier) k ≡ ok is
  unfolding select
  validated-select frontier k is h = elim (Bool-cases (k == 0)) [
    | inl e ↦ let j = rw e at h in cc
    | inr e ↦
        let j = rw e at h in
        let es = ranked scores (entries scores 0 frontier) in
        subst
          (λ xs.
            validated_pruner_indices (arr (of_list (index_values xs))) (length frontier) k ≡ ok xs)
          (ok-injective j)
          (validated-index_values (length frontier) k (indices (take k es))
            (AreIndices-take (length frontier) k es
              (ranked-All scores (λ y. y.0 < length frontier) (entries scores 0 frontier)
                (entries_within 0 (length frontier) frontier (omega arith)))
              (AllDifferent-ranked 0 frontier))
            (length-take k es))
  ]
