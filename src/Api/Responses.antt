-- ===== src/Api/Responses.antt =====
-- contract.py: the correlation of a response with its request, and the checks of its payload.
pub mod Kinds
pub mod Sound
pub mod Branches
pub mod Readable
use sts2_training.Base.{
  String, Bool, true, false, not, ◌&&◌, ◌||◌, Option, none, some, List, [], ◌∷◌, all, any, mem,
  str_eq, if◌then◌else◌,
}
use sts2_training.Base.Outcome.{Result, ok, err, guard, ◌>>=◌, ◌>>◌}
use sts2_training.Json.{
  Fields, end, field, Items, Value, str, get, has, keys, lookup, to_list, is_null, hashable,
  as_mapping, as_items, as_text, py_eq,
}
use sts2_training.Api.Errors.{
  or_protocol_error, Exc, protocol_error, type_error, key_error, operation_error, Check,
  schema_version, root_branch_id, member, is_one_of,
}
use sts2_training.Api.Decision.{
  require_non_empty_str, require_response_match, validate_decision_payload,
}

abbrev known_statuses : List String
known_statuses =
    "completed" ∷ "partial" ∷ "queued" ∷ "running" ∷ "cancelled" ∷ "rejected" ∷ "faulted"
    ∷ "released" ∷ []

abbrev pub branch_operations : List String
branch_operations = "cancel_branches" ∷ "release_branches" ∷ "get_branch_status" ∷ []

abbrev branch_statuses : List String
branch_statuses = "queued" ∷ "running" ∷ "completed" ∷ "cancelled" ∷ "faulted" ∷ "released" ∷ []

abbrev item_statuses : List String
item_statuses = "completed" ∷ "partial" ∷ "faulted" ∷ []

-- _require_status
unfoldable pub require_status : Fields → List String → Check
unfolding member
require_status response accepted = do
  known ← member (get "status" response) accepted
  guard known protocol_error

-- set(ks) == set(vs), for the keys of a dict and a list of values that can be hashed
abbrev has_key : List String → Value → Bool
has_key ks v = any (λ k. py_eq v (str k)) ks

abbrev has_value : List Value → String → Bool
has_value vs k = any (λ v. py_eq v (str k)) vs

unfoldable pub same_set : List String → List Value → Bool
same_set ks vs = all (has_value vs) ks && all (has_key ks) vs

-- the statuses that a Branch operation may answer with
unfoldable pub allowed_statuses : Value → List String
allowed_statuses operation =
    if is_one_of operation ("cancel_branches" ∷ [])
    then "cancelled" ∷ []
    else if is_one_of operation ("release_branches" ∷ [])
    then "released" ∷ []
    else branch_statuses

unfoldable pub all_statuses : List String → Fields → Bool
all_statuses allowed end = true
all_statuses allowed (field k v r) = is_one_of v allowed && all_statuses allowed r

-- _validate_branch_batch_response, without the audit's part, which follows the checks
unfoldable pub validate_branch_batch : Fields → Fields → Check
unfolding same_set allowed_statuses all_statuses require_status
validate_branch_batch request response = do
  require_status response ("completed" ∷ [])
  statuses ← or_protocol_error (as_mapping (get "branch_statuses" response))
  ids ← or_protocol_error (as_items (get "branch_ids" request))
  guard (all hashable (to_list ids)) type_error
  guard (same_set (keys statuses) (to_list ids)) protocol_error
  guard (all_statuses (allowed_statuses (get "operation" request)) statuses) protocol_error

-- item[key] on an item of the request
abbrev need : Option Value → Result Exc Value
need none = err key_error
need (some v) = ok v

abbrev subscripted : Option Fields → Result Exc Fields
subscripted none = err type_error
subscripted (some d) = ok d

-- {item["branch_id"]: item for item in items}, the latest item of a key first
expected_items : List (Value × Fields) → List Value → Result Exc (List (Value × Fields))
expected_items acc [] = ok acc
expected_items acc (v ∷ rest) = do
  item ← subscripted (as_mapping v)
  key ← need (lookup "branch_id" item)
  guard (hashable key) type_error
  expected_items ((key, item) ∷ acc) rest

abbrev firsts : List (Value × Fields) → List Value
firsts [] = []
firsts ((v, item) ∷ rest) = v ∷ firsts rest

item_for : String → List (Value × Fields) → Option Fields
item_for k [] = none
item_for k ((v, item) ∷ rest) = if py_eq v (str k) then some item else item_for k rest

-- the checks on the result of one Branch
check_payload : Value → Fields → Check
check_payload status result =
    if is_one_of status ("completed" ∷ "partial" ∷ [])
    then validate_decision_payload result
    else if is_one_of status ("faulted" ∷ [])
    then (do _ ← require_non_empty_str result "error"; ok tt)
    else ok tt

abbrev need_item : Option Fields → Result Exc Fields
need_item none = err key_error
need_item (some d) = ok d

check_result : List (Value × Fields) → String → Value → Check
unfolding item_for check_payload require_response_match validate_decision_payload member
    require_non_empty_str
check_result expected k v = do
  result ← or_protocol_error (as_mapping v)
  known ← member (get "status" result) item_statuses
  guard known protocol_error
  item ← need_item (item_for k expected)
  require_response_match result "branch_id" (str k)
  parent ← need (lookup "parent_branch_id" item)
  require_response_match result "parent_branch_id" parent
  rng ← need (lookup "rng_id" item)
  require_response_match result "rng_id" rng
  check_payload (get "status" result) result

check_results : List (Value × Fields) → Fields → Check
unfolding check_result
check_results expected end = ok tt
check_results expected (field k v r) = do check_result expected k v; check_results expected r

-- _validate_emulate_actions_response
unfoldable pub validate_emulate_actions : Fields → Fields → Check
unfolding same_set expected_items check_results require_status
validate_emulate_actions request response = do
  require_status response ("completed" ∷ [])
  results ← or_protocol_error (as_mapping (get "branch_results" response))
  items ← or_protocol_error (as_items (get "items" request))
  expected ← expected_items [] (to_list items)
  guard (same_set (keys results) (firsts expected)) protocol_error
  check_results expected results

abbrev echoes : Fields → Fields → String → Bool
echoes request response name = py_eq (get name response) (get name request)

abbrev pub echoed_fields : List String
echoed_fields = "client_session_id" ∷ "request_seq" ∷ "request_id" ∷ "operation" ∷ []

-- a refusal has an error text, and is raised with the response
unfoldable pub check_refusal : String → Fields → Check
unfolding require_non_empty_str
check_refusal status response =
    if mem status ("rejected" ∷ "faulted" ∷ [])
    then (do _ ← require_non_empty_str response "error"; err (operation_error response))
    else ok tt

unfoldable pub check_operation : Fields → Fields → Check
unfolding validate_branch_batch validate_emulate_actions
check_operation request response =
    if is_one_of (get "operation" request) branch_operations
    then validate_branch_batch request response
    else if is_one_of (get "operation" request) ("emulate_actions" ∷ [])
    then validate_emulate_actions request response
    else ok tt

-- the rest of the checks, once the status is read
unfoldable pub check_answer : Fields → String → Fields → Result Exc Fields
unfolding check_refusal check_operation
check_answer request status response = do
  guard (mem status known_statuses) protocol_error
  guard (is_null (get "instance_id" request) || echoes request response "instance_id")
      protocol_error
  check_refusal status response
  check_operation request response
  ok response

unfoldable pub check_texts : Fields → Fields → Result Exc Fields
unfolding check_answer require_non_empty_str
check_texts request response = do
  _ ← require_non_empty_str response "server_epoch"
  status ← require_non_empty_str response "status"
  check_answer request status response

-- _validate_api_response, on a response that is a dict
unfoldable pub check_api_response : Fields → Fields → Result Exc Fields
unfolding check_texts
check_api_response request response = do
  guard (py_eq (get "schema_version" response) (str schema_version)) protocol_error
  guard (all (echoes request response) echoed_fields) protocol_error
  check_texts request response

-- a field that the response may leave out
match_if_present : Fields → Fields → String → Check
unfolding require_response_match
match_if_present request response name =
    if has name response then require_response_match response name (get name request) else ok tt

abbrev emulated_statuses : List String
emulated_statuses = "completed" ∷ "partial" ∷ "queued" ∷ "running" ∷ []

check_emulated : Fields → Fields → Check
unfolding match_if_present require_response_match
check_emulated request response =
    if is_one_of (get "status" response) emulated_statuses
    then (do
      require_response_match response "branch_id" (get "branch_id" request)
      match_if_present request response "parent_branch_id"
      match_if_present request response "rng_id")
    else ok tt

check_committed : Fields → Check
unfolding require_response_match
check_committed response =
    if is_one_of (get "status" response) ("completed" ∷ [])
    then (do
      require_response_match response "branch_id" (str root_branch_id)
      validate_decision_payload response)
    else ok tt

decision_if : Bool → Fields → Check
decision_if false response = ok tt
decision_if true response = validate_decision_payload response

-- _validate_selected_action_response. The requests of both operations have a branch_id.
unfoldable pub validate_selected_action : Fields → Fields → Check
unfolding check_emulated check_committed decision_if
validate_selected_action request response =
    if is_one_of (get "operation" request) ("commit_action" ∷ [])
    then check_committed response
    else (do
      check_emulated request response
      decision_if (is_one_of (get "status" response) ("completed" ∷ "partial" ∷ [])) response)
