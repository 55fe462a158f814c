-- ===== src/Api/Decision.antt =====
-- contract.py: the public Decision payload of a response, and what the check of it accepts.
pub mod Sound
pub mod Kinds
use sts2_training.Base.{
  String, Bool, true, false, not, ◌&&◌, ◌||◌, Option, none, some, List, [], ◌∷◌, mem, str_eq,
  if◌then◌else◌,
}
use sts2_training.Base.Outcome.{Result, ok, err, guard, ◌>>=◌, ◌>>◌}
use sts2_training.Json.{
  Fields, Items, nil, cons, Value, str, get, has, is_true, is_bool, as_text, as_mapping, as_items,
  py_eq,
}
use sts2_training.Api.Errors.{or_protocol_error, Exc, protocol_error, Check, mask_version}

-- source.get(field) must be a non-empty string
unfoldable pub require_non_empty_str : Fields → String → Result Exc String
require_non_empty_str source name = or_protocol_error (as_text (get name source))

unfoldable pub require_response_match : Fields → String → Value → Check
require_response_match response name expected =
    guard (py_eq (get name response) expected) protocol_error

-- "terminal" and "run_terminal" are booleans where they are present
marker_ok : Fields → String → Bool
marker_ok masked marker = not (has marker masked) || is_bool (get marker masked)

abbrev combat_outcomes : List String
combat_outcomes = "victory" ∷ "defeat" ∷ []

abbrev run_outcomes : List String
run_outcomes = "victory" ∷ "defeat" ∷ "run_victory" ∷ []

abbrev is_outcome : Value → List String → Bool
is_outcome (str s) valid = mem s valid
is_outcome _ valid = false

unfoldable pub combat_terminal : Fields → Bool
combat_terminal masked = is_true (get "terminal" masked)

unfoldable pub run_terminal : Fields → Bool
run_terminal masked = is_true (get "run_terminal" masked)

-- A terminal state has an outcome of its kind; any other has no outcome.
unfoldable pub outcome_ok : Fields → Bool
unfolding combat_terminal run_terminal
outcome_ok masked =
    if combat_terminal masked || run_terminal masked
    then is_outcome (get "outcome" masked)
        (if run_terminal masked then run_outcomes else combat_outcomes)
    else not (has "outcome" masked)

-- "action_type", "is_available" and "parameters" have their types where they are present
abbrev is_text : Option String → Bool
is_text none = false
is_text (some s) = true

abbrev is_mapping : Option Fields → Bool
is_mapping none = false
is_mapping (some d) = true

optional_fields_ok : Fields → Bool
optional_fields_ok action =
    (not (has "action_type" action) || is_text (as_text (get "action_type" action)))
    && (not (has "is_available" action) || is_bool (get "is_available" action))
    && (not (has "parameters" action) || is_mapping (as_mapping (get "parameters" action)))

-- the loop over legal_actions, with the ids seen so far
check_actions : List String → Items → Check
unfolding require_non_empty_str optional_fields_ok
check_actions seen nil = ok tt
check_actions seen (cons entry rest) = do
  action ← or_protocol_error (as_mapping entry)
  action_id ← require_non_empty_str action "action_id"
  guard (not (mem action_id seen)) protocol_error
  guard (optional_fields_ok action) protocol_error
  check_actions (action_id ∷ seen) rest

abbrev is_empty : Items → Bool
is_empty nil = true
is_empty (cons v r) = false

check_legal_actions : Bool → Fields → Check
unfolding check_actions
check_legal_actions terminal masked = do
  actions ← or_protocol_error (as_items (get "legal_actions" masked))
  guard (not terminal || is_empty actions) protocol_error
  check_actions [] actions

-- a run-terminal payload may leave legal_actions out
check_presence : Bool → Fields → Check
unfolding check_legal_actions
check_presence false masked = guard (run_terminal masked) protocol_error
check_presence true masked =
    check_legal_actions (combat_terminal masked || run_terminal masked) masked

check_masked : Fields → Check
unfolding check_presence outcome_ok marker_ok
check_masked masked = do
  guard (py_eq (get "mask_version" masked) (str mask_version)) protocol_error
  guard (marker_ok masked "terminal" && marker_ok masked "run_terminal") protocol_error
  guard (not (combat_terminal masked && run_terminal masked)) protocol_error
  guard (outcome_ok masked) protocol_error
  check_presence (has "legal_actions" masked) masked

unfoldable pub validate_decision_payload : Fields → Check
unfolding check_masked require_non_empty_str
validate_decision_payload response = do
  _ ← require_non_empty_str response "decision_point_id"
  masked ← or_protocol_error (as_mapping (get "masked_emulator_dto" response))
  check_masked masked
