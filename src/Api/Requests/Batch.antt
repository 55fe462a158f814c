-- ===== src/Api/Requests/Batch.antt =====
-- contract.py: the requests that name several Branches, `emulate_actions` and the three Branch
-- operations.
pub mod Sound
use sts2_training.Base.{
  ◌≡◌, refl, ℕ, String, Bool, true, false, not, ◌&&◌, Option, none, some, List, [], ◌∷◌, map, leb,
  length, mem, all, any, distinct, str_eq, if◌then◌else◌, arith, All, IsFresh, IsDistinct,
  distinct-IsDistinct, str_eq_iff, ◌≢◌, ◌≤◌,
}
use sts2_training.Base.Outcome.{Result, ok, err, guard, ◌>>=◌, ◌>>◌, >>=-eq-ok, guard-eq-ok}
use sts2_training.Json.{
  Fields, end, field, of_list, Value, str, arr, obj, get, lookup, as_mapping, as_positive,
}
use sts2_training.Api.Errors.{Exc, value_error, type_error, key_error, Check, root_branch_id}
use sts2_training.Api.Requests.{
  new_request, validate_instance_id, validate_non_empty_str, with_options, item_fields, check_rng,
}

pub record Item : Type 0 where
  pub parent : String
  pub branch : String
  pub rng : ℕ
  pub point : String
  pub action : String

-- item[key]
abbrev item_at : Option Value → Result Exc Value
item_at none = err key_error
item_at (some v) = ok v

fetch : String → Fields → Result Exc Value
fetch key item = item_at (lookup key item)

abbrev need_mapping : Option Fields → Result Exc Fields
need_mapping none = err type_error
need_mapping (some d) = ok d

-- one round of the loop over the items
unfoldable pub normalize_item : List String → Value → Result Exc Item
unfolding fetch validate_non_empty_str
normalize_item seen v = do
  d ← need_mapping (as_mapping v)
  parent_v ← fetch "parent_branch_id" d
  branch_v ← fetch "branch_id" d
  rng_v ← fetch "rng_id" d
  point_v ← fetch "decision_point_id" d
  action_v ← fetch "action_id" d
  parent ← validate_non_empty_str parent_v
  branch ← validate_non_empty_str branch_v
  point ← validate_non_empty_str point_v
  action ← validate_non_empty_str action_v
  guard (not (str_eq branch root_branch_id)) value_error
  guard (not (mem branch seen)) value_error
  rng ← check_rng (as_positive rng_v)
  ok (record { parent = parent; branch = branch; rng = rng; point = point; action = action })

unfoldable pub normalize_items : List String → List Value → Result Exc (List Item)
normalize_items seen [] = ok []
normalize_items seen (v ∷ rest) = do
  item ← normalize_item seen v
  items ← normalize_items (item.branch ∷ seen) rest
  ok (item ∷ items)

abbrev pub branches : List Item → List String
branches items = map (λ (i : Item). i.branch) items

-- no parent is made by the batch itself
abbrev outside : List String → Item → Bool
outside made item = not (mem item.parent made)

abbrev item_value : Item → Value
item_value i = obj (item_fields i.parent i.branch i.rng i.point i.action)

abbrev within : Option ℕ → ℕ → Bool
within none n = true
within (some limit) n = leb n limit

abbrev nonempty {ℓ} : {A : Type ℓ} → List A → Bool
nonempty [] = false
nonempty (x ∷ xs) = true

-- the checks on the items
unfoldable pub checked_items : Option ℕ → List Value → Result Exc (List Item)
checked_items limit raw = do
  guard (nonempty raw) value_error
  guard (within limit (length raw)) value_error
  items ← normalize_items [] raw
  guard (all (outside (branches items)) items) value_error
  ok items

-- the fields of a batch request, but for its options
abbrev pub batch_fields : String → List Item → Fields
batch_fields instance_id items =
    field "instance_id" (str instance_id) (field "items" (arr (of_list (map item_value items))) end)

unfoldable pub build_emulate_actions :
    String → Option String → Option ℕ → ℕ → String → List Value → Option Fields → Result Exc Fields
unfolding new_request validate_instance_id with_options
build_emulate_actions session active limit seq instance_id raw options = do
  validate_instance_id active instance_id
  items ← checked_items limit raw
  fields ← with_options (batch_fields instance_id items) options
  new_request session seq "emulate_actions" fields

-- one round of the loop of _normalize_branch_ids
check_branch_id : String → Check
unfolding validate_non_empty_str
check_branch_id b = do
  _ ← validate_non_empty_str (str b)
  guard (not (str_eq b root_branch_id)) value_error

check_branch_ids : List String → Check
unfolding check_branch_id
check_branch_ids [] = ok tt
check_branch_ids (b ∷ rest) = do check_branch_id b; check_branch_ids rest

unfoldable pub normalize_branch_ids : List String → Result Exc (List String)
unfolding check_branch_ids
normalize_branch_ids ids = do
  guard (nonempty ids) value_error
  check_branch_ids ids
  guard (distinct ids) value_error
  ok ids

unfoldable pub build_branch_batch_operation :
    String → Option String → ℕ → String → String → List String → Result Exc Fields
unfolding new_request validate_instance_id
build_branch_batch_operation session active seq operation instance_id branch_ids = do
  validate_instance_id active instance_id
  ids ← normalize_branch_ids branch_ids
  new_request session seq operation
      (field "instance_id" (str instance_id) (field "branch_ids" (arr (of_list (map str ids))) end))

-- What a batch that is sent is sure to hold.
pub record IsBatch (limit : Option ℕ) (items : List Item) : Type 0 where
  pub distinct_branches : IsDistinct (branches items)
  pub own_branches : All (λ (i : Item). i.branch ≢ root_branch_id) items
  pub outer_parents : All (λ (i : Item). IsFresh i.parent (branches items)) items
  pub positive_rngs : All (λ (i : Item). i.rng ≢ 0) items
  pub fits : (n : ℕ) → limit ≡ some n → length items ≤ n
