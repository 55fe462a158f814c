-- ===== src/Search/Pruner/Indices.antt =====
-- _validated_pruner_indices: the check of a pruner's answer.
use sts2_training.Base.{
  ◌≡◌, ◌∙◌, refl, ap, subst, inl, inr, ℕ, suc, ◌<◌, ◌≤◌, false, Option, none, some, List, [], ◌∷◌,
  length, map, All, ltb, Bool-cases, arith,
}
use sts2_training.Base.Int.{pos}
use sts2_training.Base.Outcome.{Result, ok, err}
use sts2_training.Json.{Value, Items, int, as_items, as_int, to_list}
use sts2_training.Api.Errors.{Exc}
use sts2_training.Search.Pruner.{
  mem_nat, as_index, put, check_next, check_indices, checked_items, validated_pruner_indices,
}

-- No index stands twice.
abbrev pub AllDifferent : List ℕ → Type 0
AllDifferent [] = Unit
AllDifferent (i ∷ is) = (mem_nat i is ≡ false) × AllDifferent is

-- The Python list of the indices.
abbrev pub index_values : List ℕ → List Value
index_values is = map (λ i. int (pos i)) is

-- The indices are different indices of a frontier of the size.
abbrev pub AreIndices : ℕ → List ℕ → Type 0
AreIndices size is = All (λ i. i < size) is × AllDifferent is

-- What the check returns: the values themselves, different and in range.
abbrev IsChecked : ℕ → List ℕ → List Value → Result Exc (List ℕ) → Type 0
IsChecked size seen vs (err e) = Unit
IsChecked size seen vs (ok is) =
    AreIndices size is × (vs ≡ index_values is) × All (λ i. mem_nat i seen ≡ false) is

as_index-int :
    (size i : ℕ) (v : Value) → as_index size (as_int v) ≡ some i → (v ≡ int (pos i)) × (i < size)
as_index-int size i v h = ground arith

fresh_tail :
    (i : ℕ) (seen is : List ℕ)
    → All (λ j. mem_nat j (i ∷ seen) ≡ false) is
    → (mem_nat i is ≡ false) × All (λ j. mem_nat j seen ≡ false) is
fresh_tail i seen [] h = (refl, tt)
fresh_tail i seen (j ∷ is) h =
    let r = fresh_tail i seen is h.1 in let k = h.0 in (ground (arith, r.0), (ground arith, r.1))

put-IsChecked :
    (size : ℕ) (seen : List ℕ) (i : ℕ) (v : Value) (vs : List Value) (r : Result Exc (List ℕ))
    → (v ≡ int (pos i)) × (i < size)
    → mem_nat i seen ≡ false
    → IsChecked size (i ∷ seen) vs r
    → IsChecked size seen (v ∷ vs) (put i r)
put-IsChecked size seen i v vs (err e) h f k = tt
put-IsChecked size seen i v vs (ok is) h f k =
    let t = fresh_tail i seen is k.2 in
    (((h.1, k.0.0), (t.0, k.0.1)), ap (λ w. w ∷ vs) h.0 ∙ ap (λ ws. int (pos i) ∷ ws) k.1, (f, t.1))

next-IsChecked :
    (size : ℕ) (seen : List ℕ) (v : Value) (vs : List Value) (later : ℕ → Result Exc (List ℕ))
    (o : Option ℕ)
    → as_index size (as_int v) ≡ o
    → ((i : ℕ) → IsChecked size (i ∷ seen) vs (later i))
    → IsChecked size seen (v ∷ vs) (check_next seen later o)
next-IsChecked size seen v vs later none e k = tt
next-IsChecked size seen v vs later (some i) e k = elim (Bool-cases (mem_nat i seen)) [
  | inl m ↦ rw m tt
  | inr m ↦ rw m (put-IsChecked size seen i v vs (later i) (as_index-int size i v e) m (k i))
]

check_indices-IsChecked :
    (size : ℕ) (seen : List ℕ) (vs : List Value)
    → IsChecked size seen vs (check_indices size seen vs)
check_indices-IsChecked size seen [] = ((tt, tt), refl, tt)
check_indices-IsChecked size seen (v ∷ vs) =
    next-IsChecked size seen v vs (λ i. check_indices size (i ∷ seen) vs) (as_index size (as_int v))
      refl (λ i. check_indices-IsChecked size (i ∷ seen) vs)

-- The answer's items, if it is a list.
abbrev pub IsAnswer : Value → List ℕ → Type 0
IsAnswer selected is =
    (items : Items) × (as_items selected ≡ some items) × (to_list items ≡ index_values is)

length-index_values : (is : List ℕ) → length (index_values is) ≡ length is
length-index_values [] = refl
length-index_values (i ∷ is) = ap suc (length-index_values is)

of_items :
    (selected : Value) (size k : ℕ) (is : List ℕ) (o : Option Items)
    → as_items selected ≡ o
    → checked_items size k o ≡ ok is
    → (length is ≤ k) × AreIndices size is × IsAnswer selected is
of_items selected size k is none e h = cc
of_items selected size k is (some items) e h = elim (Bool-cases (ltb k (length (to_list items)))) [
  | inl b ↦ let j = rw b at h in cc
  | inr b ↦
      let j = rw b at h in
      let c =
        subst (IsChecked size [] (to_list items)) j
          (check_indices-IsChecked size [] (to_list items)) in
      let n = ap length c.1 ∙ length-index_values is in (ground (arith, n, b), c.0, (items, e, c.1))
]

-- An answer that passes the check is a list of at most k different indices of the frontier, which
-- are returned as they are.
pub validated-AreIndices :
    (selected : Value) (size k : ℕ) (is : List ℕ)
    → validated_pruner_indices selected size k ≡ ok is
    → (length is ≤ k) × AreIndices size is × IsAnswer selected is
unfolding validated_pruner_indices
validated-AreIndices selected size k is h = of_items selected size k is (as_items selected) refl h
