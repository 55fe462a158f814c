-- ===== src/Api/Requests.antt =====
-- contract.py: the requests that a client sends, built from checked arguments.
pub mod Batch
use Prim.Native.String.{◌++◌ as join}
use sts2_training.Base.{
  ℕ, zero, suc, ◌/◌, ◌%◌, String, Bool, true, false, not, ◌&&◌, ◌||◌, Option, none, some, List, [],
  ◌∷◌, ltb, leb, length, mem, all, any, distinct, str_eq, if◌then◌else◌,
}
use sts2_training.Base.Int.{pos}
use sts2_training.Base.Outcome.{Result, ok, err, guard, ◌>>=◌, ◌>>◌}
use sts2_training.Json.{
  Fields, end, field, Items, nil, cons, Value, str, int, arr, obj, get, append_fields, as_text,
  as_positive, as_int, is_null, lookup,
}
use sts2_training.Api.Errors.{
  Exc, value_error, type_error, key_error, runtime_error, Check, schema_version, root_branch_id,
  member,
}

digit : ℕ → String
digit zero = "0"
digit (suc zero) = "1"
digit (suc (suc zero)) = "2"
digit (suc (suc (suc zero))) = "3"
digit (suc (suc (suc (suc zero)))) = "4"
digit (suc (suc (suc (suc (suc zero))))) = "5"
digit (suc (suc (suc (suc (suc (suc zero)))))) = "6"
digit (suc (suc (suc (suc (suc (suc (suc zero))))))) = "7"
digit (suc (suc (suc (suc (suc (suc (suc (suc zero)))))))) = "8"
digit n = "9"

-- str(n), with fuel for the digits; n + 1 rounds are enough, since each divides by ten.
decimal_from : ℕ → ℕ → String
unfolding digit
decimal_from zero n = ""
decimal_from (suc f) n =
    let rest = decimal_from f (n / 10) in if ltb n 10 then digit n else join rest (digit (n % 10))

decimal : ℕ → String
unfolding decimal_from
decimal n = decimal_from (suc n) n

unfoldable pub request_id : String → ℕ → String
unfolding decimal
request_id session seq = join session (join ":" (decimal seq))

-- _new_request
unfoldable pub new_request : String → ℕ → String → Fields → Result Exc Fields
unfolding request_id
new_request session seq operation fields = do
  guard (ltb 0 seq) value_error
  ok (
      field "schema_version" (str schema_version) (
        field "client_session_id" (str session) (
          field "request_seq" (int (pos seq)) (
            field "request_id" (str (request_id session seq))
              (field "operation" (str operation) fields)))))

-- _validate_non_empty_str, on any value and on a text
unfoldable pub validate_non_empty_str : Value → Result Exc String
validate_non_empty_str v = elim (as_text v) [ none ↦ err value_error | some s ↦ ok s ]

abbrev check_active : Option String → String → Check
check_active none instance_id = err runtime_error
check_active (some current) instance_id = guard (str_eq instance_id current) value_error

-- _validate_instance_id, with the active instance of the client
unfoldable pub validate_instance_id : Option String → String → Check
unfolding validate_non_empty_str
validate_instance_id active instance_id = do
  _ ← validate_non_empty_str (str instance_id)
  check_active active instance_id

-- _build_start_instance, without the note of the instance type
unfoldable pub build_start_instance : String → ℕ → Fields → Result Exc Fields
unfolding new_request
build_start_instance session seq config =
    new_request session seq "start_instance" (field "instance_config" (obj config) end)

unfoldable pub build_close_instance : String → Option String → ℕ → String → Result Exc Fields
unfolding new_request validate_instance_id
build_close_instance session active seq instance_id = do
  validate_instance_id active instance_id
  new_request session seq "close_instance" (field "instance_id" (str instance_id) end)

unfoldable pub build_get_decision : String → Option String → ℕ → String → String → Result Exc Fields
unfolding new_request validate_instance_id
build_get_decision session active seq instance_id branch_id = do
  validate_instance_id active instance_id
  _ ← validate_non_empty_str (str branch_id)
  new_request session seq "get_decision"
      (field "instance_id" (str instance_id) (field "branch_id" (str branch_id) end))

unfoldable pub build_commit_action :
    String → Option String → ℕ → String → String → String → Result Exc Fields
unfolding new_request validate_instance_id
build_commit_action session active seq instance_id decision_point_id action_id = do
  validate_instance_id active instance_id
  _ ← validate_non_empty_str (str decision_point_id)
  _ ← validate_non_empty_str (str action_id)
  new_request session seq "commit_action" (
      field "instance_id" (str instance_id) (
        field "branch_id" (str root_branch_id) (
          field "rng_id" (int (pos 0)) (
            field "decision_point_id" (str decision_point_id)
              (field "action_id" (str action_id) end)))))

-- one bound of the simulation options: absent, null or a positive integer
abbrev is_present : Value → Bool
is_present v = not (is_null v)

abbrev is_positive : Option ℕ → Bool
is_positive none = false
is_positive (some n) = true

bound_ok : Fields → String → Bool
bound_ok options key = is_null (get key options) || is_positive (as_positive (get key options))

check_stop_condition : Value → Check
unfolding member
check_stop_condition v = if is_null v then ok tt else do
  known ← member v ("next_decision" ∷ "combat_end" ∷ "room_end" ∷ "run_end" ∷ [])
  guard known value_error

-- _validate_simulation_options, on a mapping
unfoldable pub validate_simulation_options : Fields → Check
unfolding bound_ok check_stop_condition
validate_simulation_options options = do
  guard (all (bound_ok options) ("max_depth" ∷ "max_steps" ∷ "max_time_ms" ∷ "max_hypotheses" ∷ []))
      value_error
  check_stop_condition (get "stop_condition" options)

-- the request's fields with the options, where there are any
unfoldable pub with_options : Fields → Option Fields → Result Exc Fields
unfolding validate_simulation_options
with_options fields none = ok fields
with_options fields (some options) = do
  validate_simulation_options options
  ok (append_fields fields (field "simulation_options" (obj options) end))

-- rng_id of one emulated action: a positive integer
abbrev pub check_rng : Option ℕ → Result Exc ℕ
check_rng none = err value_error
check_rng (some n) = ok n

-- the item of `items` that a batch sends
abbrev pub item_fields : String → String → ℕ → String → String → Fields
item_fields parent branch rng point action = field "parent_branch_id" (str parent) (
    field "branch_id" (str branch) (
      field "rng_id" (int (pos rng))
        (field "decision_point_id" (str point) (field "action_id" (str action) end))))

unfoldable pub build_emulate_action :
    String
    → Option String
    → ℕ
    → String
    → String
    → String
    → Value
    → String
    → String
    → Option Fields
    → Result Exc Fields
unfolding new_request validate_instance_id with_options
build_emulate_action session active seq instance_id parent branch rng point action options = do
  validate_instance_id active instance_id
  _ ← validate_non_empty_str (str parent)
  _ ← validate_non_empty_str (str branch)
  _ ← validate_non_empty_str (str point)
  _ ← validate_non_empty_str (str action)
  guard (not (str_eq branch root_branch_id)) value_error
  n ← check_rng (as_positive rng)
  fields ←
      with_options
        (field "instance_id" (str instance_id) (item_fields parent branch n point action)) options
  new_request session seq "emulate_action" fields
