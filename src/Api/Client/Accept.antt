-- ===== src/Api/Client/Accept.antt =====
-- The acceptance of the answers to start_instance, get_decision and close_instance.
use sts2_training.Base.{
  ℕ, String, Bool, false, not, ◌&&◌, Option, none, some, List, [], ◌∷◌, distinct, if◌then◌else◌,
}
use sts2_training.Base.Outcome.{Result, ok, err, guard, ◌>>=◌, ◌>>◌}
use sts2_training.Json.{
  Fields, Items, nil, cons, Value, null, str, get, is_null, as_text, as_mapping, as_items,
  as_positive,
}
use sts2_training.Api.Errors.{or_protocol_error, Exc, protocol_error, Check, is_one_of}
use sts2_training.Api.Decision.{
  require_non_empty_str, require_response_match, validate_decision_payload,
}
use sts2_training.Api.Responses.{require_status}
use sts2_training.Api.Exec.{Exec}
use sts2_training.Api.Interface.{Environment}
use sts2_training.Api.Client.{Client, is_text}
use sts2_training.Api.Client.Execute.{forget_instance}

-- What an answer to start_instance tells.
pub record Started : Type 0 where
  pub instance : String
  pub max_items : Option ℕ
  pub boundaries : List String

-- a list of non-empty texts
unfoldable pub boundary_list : Items → Result Exc (List String)
boundary_list nil = ok []
boundary_list (cons v r) = do b ← or_protocol_error (as_text v); bs ← boundary_list r; ok (b ∷ bs)

-- "emulate_actions_boundaries", where missing and null stand for an empty list
unfoldable pub read_boundaries : Value → Result Exc (List String)
unfolding boundary_list
read_boundaries null = ok []
read_boundaries v = do
  items ← or_protocol_error (as_items v)
  bs ← boundary_list items
  guard (distinct bs) protocol_error
  ok bs

-- "max_emulate_actions_items": absent, null or a positive integer
abbrev pub positive_or_error : Option ℕ → Result Exc (Option ℕ)
positive_or_error none = err protocol_error
positive_or_error (some n) = ok (some n)

unfoldable pub read_max_items : Value → Result Exc (Option ℕ)
read_max_items null = ok none
read_max_items v = positive_or_error (as_positive v)

unfoldable pub asks_for_combat : Option Fields → Bool
asks_for_combat none = false
asks_for_combat (some config) = is_one_of (get "instance_type" config) ("combat" ∷ [])

-- the checks of _accept_start_instance_for_request and _accept_start_instance
unfoldable pub check_started : Fields → Fields → Result Exc Started
unfolding read_boundaries read_max_items asks_for_combat require_status require_non_empty_str
check_started request response = do
  guard
      (not (
        asks_for_combat (as_mapping (get "instance_config" request))
        && is_null (get "max_emulate_actions_items" response)))
      protocol_error
  boundaries ← read_boundaries (get "emulate_actions_boundaries" response)
  require_status response ("completed" ∷ [])
  instance ← require_non_empty_str response "instance_id"
  max_items ← read_max_items (get "max_emulate_actions_items" response)
  ok (record { instance = instance; max_items = max_items; boundaries = boundaries })

-- the checks of _accept_get_decision
unfoldable pub check_decision : Fields → String → Check
unfolding require_response_match validate_decision_payload
check_decision response branch_id =
    if is_one_of (get "status" response) ("completed" ∷ [])
    then (do
      require_response_match response "branch_id" (str branch_id)
      validate_decision_payload response)
    else ok tt

module _ {L A : Type 0} (env : Environment L A) where
  -- the fields that an accepted start sets
  unfoldable pub started_state : Fields → Started → Client L A → Client L A
  started_state response s c = record c {
    instance_id = some s.instance;
    instance_type = c.pending_start_instance_type;
    pending_start_instance_type = none;
    max_emulate_actions_items = s.max_items;
    audit =
        env.remember (env.clear c.audit) response
          (is_text c.pending_start_instance_type "whole_run");
    emulate_actions_boundaries = s.boundaries;
    pending_retry_cleanup = none;
  }

  abbrev pub apply_if_ok :
      {B : Type 0} → (B → Client L A → Client L A) → Result Exc B → Client L A → Client L A
  apply_if_ok f (ok b) c = f b c
  apply_if_ok f (err e) c = c

  abbrev pub instance_of : Result Exc Started → Result Exc String
  instance_of (ok s) = ok s.instance
  instance_of (err e) = err e

  -- _accept_start_instance_for_request
  unfoldable pub accept_start_instance : Fields → Fields → Exec (Client L A) String
  unfolding check_started started_state
  accept_start_instance request response c =
      let r = check_started request response in
      (instance_of r, apply_if_ok (started_state response) r c)

  unfoldable pub remember_decision : Fields → Client L A → Client L A
  remember_decision response c =
      if is_one_of (get "status" response) ("completed" ∷ [])
      then record c { audit = env.remember c.audit response false }
      else c

  abbrev pub response_if_ok : Fields → Check → Result Exc Fields
  response_if_ok response (ok u) = ok response
  response_if_ok response (err e) = err e

  -- _accept_get_decision
  unfoldable pub accept_get_decision : Fields → String → Exec (Client L A) Fields
  unfolding check_decision remember_decision
  accept_get_decision response branch_id c =
      let r = check_decision response branch_id in
      (response_if_ok response r, apply_if_ok (λ _. remember_decision response) r c)

  -- _accept_close_instance
  unfoldable pub accept_close_instance : Fields → Exec (Client L A) Fields
  unfolding require_status forget_instance
  accept_close_instance response c =
      let r = require_status response ("completed" ∷ []) in
      (response_if_ok response r, apply_if_ok (λ _. forget_instance env) r c)
