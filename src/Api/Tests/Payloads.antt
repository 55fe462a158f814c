-- ===== src/Api/Tests/Payloads.antt =====
-- Requests and responses of the wire, as the checks see them.
use sts2_training.Base.{◌≡◌, ◌≢◌, refl, length, List, [], ◌∷◌, String, some}
use sts2_training.Base.Int.{pos}
use sts2_training.Base.Outcome.{ok}
use sts2_training.Json.{Fields, Value, field, end, str, int, obj, get, has, py_eq, lookup}
use sts2_training.Api.Decision.{validate_decision_payload}
use sts2_training.Api.Decision.Sound.{IsDecision, validate_decision_payload-IsDecision}
use sts2_training.Api.Requests.{item_fields}
use sts2_training.Api.Requests.Batch.{Item, IsBatch, checked_items, normalize_items, normalize_item}
use sts2_training.Api.Requests.Batch.Sound.{checked_items-IsBatch}
use sts2_training.Base.{inl, inr}
use sts2_training.Json.{arr, cons, nil}
use sts2_training.Api.Errors.{member}
use sts2_training.Api.Responses.Branches.{IsReported, validate_branch_batch-IsReported}
use sts2_training.Api.Responses.{
  allowed_statuses, all_statuses, same_set, require_status, validate_branch_batch,
  check_api_response,
}
use sts2_training.Api.Responses.Sound.{IsAnswer, check_api_response-IsAnswer}
use sts2_training.Api.Tests.Fixtures.{answer, decision}

decision_accepted : validate_decision_payload decision ≡ ok tt
unfolding validate_decision_payload get py_eq has
decision_accepted = refl

validate_decision_payload-IsDecision_example : IsDecision decision
validate_decision_payload-IsDecision_example =
    validate_decision_payload-IsDecision decision decision_accepted

abbrev asked : Fields
asked = field "client_session_id" (str "s-1") (
    field "request_seq" (int (pos 2)) (
      field "request_id" (str "s-1:2")
        (field "operation" (str "get_decision") (field "instance_id" (str "i-1") end))))

asked_accepted : check_api_response asked (answer asked) ≡ ok (answer asked)
unfolding check_api_response get py_eq
asked_accepted = refl

check_api_response-IsAnswer_example : IsAnswer asked (answer asked) × (answer asked ≡ answer asked)
check_api_response-IsAnswer_example =
    check_api_response-IsAnswer asked (answer asked) asked_accepted

abbrev raw : List Value
raw =
    obj (item_fields "root" "b-1" 1 "d-1" "a-1") ∷ obj (item_fields "root" "b-2" 1 "d-1" "a-2") ∷ []

abbrev item : String → String → Item
item branch action = record {
  parent = "root";
  branch = branch;
  rng = 1;
  point = "d-1";
  action = action;
}

abbrev items : List Item
items = item "b-1" "a-1" ∷ item "b-2" "a-2" ∷ []

raw_checked : checked_items (some 8) raw ≡ ok items
unfolding checked_items normalize_items normalize_item lookup
raw_checked = refl

checked_items-IsBatch_example : IsBatch (some 8) items × (items ≢ []) × (length items ≡ length raw)
checked_items-IsBatch_example = checked_items-IsBatch (some 8) raw items raw_checked

abbrev release_request : Fields
release_request =
    field "operation" (str "release_branches")
      (field "branch_ids" (arr (cons (str "b-1") (cons (str "b-2") nil))) end)

abbrev release_answer : Fields
release_answer = field "status" (str "completed") (
    field "branch_statuses" (obj (field "b-2" (str "released") (field "b-1" (str "released") end)))
      end)

only_released : allowed_statuses (get "operation" release_request) ≡ "released" ∷ []
unfolding allowed_statuses get lookup
only_released = refl

named_branches : get "branch_ids" release_request ≡ arr (cons (str "b-1") (cons (str "b-2") nil))
unfolding get lookup
named_branches = refl

release_accepted : validate_branch_batch release_request release_answer ≡ ok tt
unfolding validate_branch_batch require_status member same_set all_statuses allowed_statuses get
    lookup py_eq
release_accepted = refl

validate_branch_batch-IsReported_example : IsReported release_answer "released" "b-2"
validate_branch_batch-IsReported_example =
    validate_branch_batch-IsReported release_request release_answer "released" "b-2"
      (cons (str "b-1") (cons (str "b-2") nil)) only_released named_branches (inr (inl refl))
      release_accepted
