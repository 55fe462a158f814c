-- ===== src/Api/Requests/Batch/Sound.antt =====
-- What a batch request that passes the checks is sure to hold.
use sts2_training.Base.{
  ◌≡◌, ◌≢◌, subst, ap, ℕ, suc, ◌≤◌, String, true, false, Option, none, some, List, [], ◌∷◌, length,
  all, str_eq, arith, All, All-map, IsFresh-of_seen, IsFresh-cons, IsFresh, IsDistinct, str_eq_iff,
}
use sts2_training.Base.Outcome.{ok, guard, >>=-eq-ok, ok-injective, guard-eq-ok}
use sts2_training.Json.{Value}
use sts2_training.Api.Errors.{value_error, root_branch_id}
use sts2_training.Api.Requests.Batch.{
  Item, normalize_item, normalize_items, branches, outside, within, nonempty, checked_items,
  IsBatch,
}

record IsItem (seen : List String) (i : Item) : Type 0 where
  fresh : IsFresh i.branch seen
  own : str_eq i.branch root_branch_id ≡ false
  positive_rng : i.rng ≢ 0

normalize_item-IsItem :
    (seen : List String) (v : Value) {i : Item} → normalize_item seen v ≡ ok i → IsItem seen i
unfolding normalize_item
normalize_item-IsItem seen v {i} h = record {
  fresh = ground arith;
  own = ground arith;
  positive_rng = ground arith;
}

record AreItems (seen : List String) (items : List Item) : Type 0 where
  distinct_branches : IsDistinct (branches items)
  unseen : All (λ b. IsFresh b seen) (branches items)
  own_branches : All (λ (i : Item). i.branch ≢ root_branch_id) items
  positive_rngs : All (λ (i : Item). i.rng ≢ 0) items

AreItems-cons :
    (seen : List String) (i : Item) (items : List Item)
    → IsItem seen i
    → AreItems (i.branch ∷ seen) items
    → AreItems seen (i ∷ items)
AreItems-cons seen i items x xs = record {
  distinct_branches =
      (IsFresh-of_seen seen i.branch (branches items) xs.unseen, xs.distinct_branches);
  unseen = (x.fresh, All-map _ _ (branches items) (λ b. IsFresh-cons seen i.branch b) xs.unseen);
  own_branches = (ground (arith, str_eq_iff i.branch root_branch_id), xs.own_branches);
  positive_rngs = (x.positive_rng, xs.positive_rngs);
}

normalize_items-AreItems :
    (seen : List String) (raw : List Value) (items : List Item)
    → normalize_items seen raw ≡ ok items
    → AreItems seen items
unfolding normalize_items
normalize_items-AreItems seen [] items h =
    subst (AreItems seen) (ok-injective h)
      (record { distinct_branches = tt; unseen = tt; own_branches = tt; positive_rngs = tt })
normalize_items-AreItems seen (v ∷ raw) items h =
    let (i, e, h₁) = >>=-eq-ok (normalize_item seen v) _ h in
    let (rest, g, h₂) = >>=-eq-ok (normalize_items (i.branch ∷ seen) raw) _ h₁ in
    let xs : AreItems (i.branch ∷ seen) rest =
      normalize_items-AreItems (i.branch ∷ seen) raw rest g in
    subst (AreItems seen) (ok-injective h₂)
      (AreItems-cons seen i rest (normalize_item-IsItem seen v e) xs)

outside-all :
    (made : List String) (items : List Item)
    → all (outside made) items ≡ true
    → All (λ (i : Item). IsFresh i.parent made) items
outside-all made [] h = tt
outside-all made (i ∷ items) h = (ground arith, outside-all made items (ground arith))

normalize_items-length :
    (seen : List String) (raw : List Value) (items : List Item)
    → normalize_items seen raw ≡ ok items
    → length items ≡ length raw
unfolding normalize_items
normalize_items-length seen [] items h = rw (← ok-injective h)
normalize_items-length seen (v ∷ raw) items h =
    let (i, e, h₁) = >>=-eq-ok (normalize_item seen v) _ h in
    let (rest, g, h₂) = >>=-eq-ok (normalize_items (i.branch ∷ seen) raw) _ h₁ in
    let n : length rest ≡ length raw = normalize_items-length (i.branch ∷ seen) raw rest g in
    rw (← ok-injective h₂) (ap suc n)

within_le : (limit : Option ℕ) (k n : ℕ) → within limit k ≡ true → limit ≡ some n → k ≤ n
within_le (some m) k n h e = ground arith
within_le none k n h e = cc

nonempty_of :
    (raw : List Value) (items : List Item)
    → length items ≡ length raw
    → nonempty raw ≡ true
    → items ≢ []
nonempty_of [] items n h e = cc
nonempty_of (v ∷ raw) [] n h e = omega arith
nonempty_of (v ∷ raw) (i ∷ items) n h e = cc

-- A batch that passes the checks names every new Branch once, never the root, takes no parent from
-- the batch itself, has positive RNG ids, is not empty, holds one item for each entry given, and
-- keeps within the limit that the server published.
pub checked_items-IsBatch :
    (limit : Option ℕ) (raw : List Value) (items : List Item)
    → checked_items limit raw ≡ ok items
    → IsBatch limit items × (items ≢ []) × (length items ≡ length raw)
unfolding checked_items
checked_items-IsBatch limit raw items h =
    let (_, some_raw, h₁) = >>=-eq-ok (guard (nonempty raw) value_error) _ h in
    let (_, fits, h₂) = >>=-eq-ok (guard (within limit (length raw)) value_error) _ h₁ in
    let (items', e, h₃) = >>=-eq-ok (normalize_items [] raw) _ h₂ in
    let (_, apart, h₄) =
      >>=-eq-ok (guard (all (outside (branches items')) items') value_error) _ h₃ in
    let xs : AreItems [] items' = normalize_items-AreItems [] raw items' e in
    let n : length items' ≡ length raw = normalize_items-length [] raw items' e in
    subst (λ t. IsBatch limit t × (t ≢ []) × (length t ≡ length raw)) (ok-injective h₄)
      (
        record {
          distinct_branches = xs.distinct_branches;
          own_branches = xs.own_branches;
          outer_parents = outside-all (branches items') items' (guard-eq-ok _ _ apart);
          positive_rngs = xs.positive_rngs;
          fits = λ m. within_le limit (length items') m (rw n (guard-eq-ok _ _ fits));
        },
        nonempty_of raw items' n (guard-eq-ok _ _ some_raw),
        n,
      )
