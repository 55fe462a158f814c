-- ===== src/Api/Client/Operations.antt =====
-- async_client.py: the operations that send a fresh request.
use sts2_training.Base.{
  String, Bool, false, not, ◌&&◌, Option, none, some, List, [], ◌∷◌, if◌then◌else◌,
}
use sts2_training.Base.Outcome.{Result, ok, err}
use sts2_training.Json.{
  Fields, Items, end, field, Value, str, obj, get, has, to_list, as_text, as_mapping, as_items,
}
use sts2_training.Api.Errors.{
  Exc, value_error, runtime_error, operation_error, transport_error, cancelled, root_branch_id,
  is_one_of,
}
use sts2_training.Api.Requests.{
  build_start_instance, build_close_instance, build_get_decision, build_commit_action,
  build_emulate_action,
}
use sts2_training.Api.Requests.Batch.{build_emulate_actions, build_branch_batch_operation}
use sts2_training.Api.Responses.{validate_selected_action}
use sts2_training.Api.Exec.{Exec, pure, raise, lift, modify, catch, ◌>>=◌, ◌>>◌}
use sts2_training.Api.Interface.{Environment}
use sts2_training.Api.Client.{Client, is_set}
use sts2_training.Api.Client.Execute.{
  execute, guarded, consume_sequence, ensure_fresh_request_allowed, clear_instance_extensions,
}
use sts2_training.Api.Client.Accept.{
  accept_start_instance, accept_get_decision, accept_close_instance,
}

abbrev of_results : Value → Fields → Option Fields → Option Fields
of_results (str b) response (some results) = as_mapping (get b results)
of_results v response (some results) = none
of_results v response none = some response

-- the result of one item in the audit: that of its Branch, or the whole response
unfoldable pub branch_result : Value → Option Fields → Option Fields
branch_result branch none = none
branch_result branch (some response) =
    of_results branch response (as_mapping (get "branch_results" response))

abbrev pub text_or_empty : Value → String
text_or_empty (str s) = s
text_or_empty v = ""

abbrev pub items_of : Option Items → List Value
items_of none = []
items_of (some items) = to_list items

-- the part of an item that is copied as it is
abbrev item_part : Fields → Fields
item_part item = field "parent_branch_id" (get "parent_branch_id" item) (
    field "branch_id" (get "branch_id" item) (
      field "rng_id" (get "rng_id" item) (
        field "decision_point_id" (get "decision_point_id" item)
          (field "action_id" (get "action_id" item) end))))

-- the audit's request for one item of a batch
unfoldable pub item_request : Fields → Fields → Fields
item_request request item = field "schema_version" (get "schema_version" request) (
    field "client_session_id" (get "client_session_id" request) (
      field "request_seq" (get "request_seq" request) (
        field "request_id" (get "request_id" request) (
          field "operation" (str "emulate_actions")
            (field "instance_id" (get "instance_id" request) (item_part item))))))

-- How a call gets the operation lock: its timeout is not positive, the time is up or the call is
-- cancelled while it waits, or it holds the lock until it ends.
pub data Admission : Type 0 where
  bad_timeout lock_timeout lock_cancelled granted : Admission

-- _operation_deadline
unfoldable pub with_deadline : {W B : Type 0} → Admission → Exec W B → Exec W B
unfolding raise
with_deadline bad_timeout m = raise value_error
with_deadline lock_timeout m = raise (transport_error false none)
with_deadline lock_cancelled m = raise (cancelled false none)
with_deadline granted m = m

-- the request of an operation, from the state of the client
unfoldable pub build : {W : Type 0} → (W → Result Exc Fields) → Exec W Fields
build f c = (f c, c)

unfoldable pub check : {W : Type 0} → (W → Bool) → Exc → Exec W (Unit {0})
check f e c = if f c then (ok tt, c) else (err e, c)

unfoldable pub restores_whole_run : Fields → Bool
restores_whole_run config =
    is_one_of (get "instance_type" config) ("whole_run" ∷ []) && has "snapshot_json" config

module _ {L A : Type 0} where
  unfoldable pub no_instance : Client L A → Bool
  no_instance c = not (is_set c.instance_id)

  unfoldable pub note_instance_type : Fields → Client L A → Client L A
  note_instance_type config c = record c {
    pending_start_instance_type = as_text (get "instance_type" config);
  }

module _ {L A : Type 0} (env : Environment L A) where
  -- start_instance
  unfoldable pub start_instance : Admission → Fields → Exec (Client L A) String
  unfolding with_deadline build check no_instance restores_whole_run note_instance_type
  start_instance admission config = with_deadline admission do
    ensure_fresh_request_allowed
    check no_instance runtime_error
    check (λ _. not (restores_whole_run config)) value_error
    modify (note_instance_type config)
    request ← build (λ c. build_start_instance c.client_session_id c.next_request_seq config)
    response ← execute env request
    instance ← guarded env request (accept_start_instance env request response)
    consume_sequence request
    pure instance

  -- get_decision
  unfoldable pub get_decision : Admission → String → String → Exec (Client L A) Fields
  unfolding with_deadline build
  get_decision admission instance_id branch_id = with_deadline admission do
    ensure_fresh_request_allowed
    request ← build (λ c.
        build_get_decision c.client_session_id c.instance_id c.next_request_seq instance_id
          branch_id)
    response ← execute env request
    result ← guarded env request (accept_get_decision env response branch_id)
    consume_sequence request
    pure result

  -- close_instance
  unfoldable pub close_instance : Admission → String → Exec (Client L A) Fields
  unfolding with_deadline build
  close_instance admission instance_id = with_deadline admission do
    ensure_fresh_request_allowed
    request ←
        build (λ c.
          build_close_instance c.client_session_id c.instance_id c.next_request_seq instance_id)
    response ← execute env request
    result ← guarded env request (accept_close_instance env response)
    consume_sequence request
    modify clear_instance_extensions
    pure result

  -- _branch_batch_operation: cancel_branches, release_branches and get_branch_status
  unfoldable pub branch_batch_operation :
      Admission → String → String → List String → Exec (Client L A) Fields
  unfolding with_deadline build
  branch_batch_operation admission operation instance_id branch_ids = with_deadline admission do
    ensure_fresh_request_allowed
    request ← build (λ c.
        build_branch_batch_operation c.client_session_id c.instance_id c.next_request_seq operation
          instance_id branch_ids)
    response ← execute env request
    consume_sequence request
    pure response

  -- _record_selected_action
  unfoldable pub record_selected_action :
      Fields → String → Option Fields → Option Exc → Exec (Client L A) (Unit {0})
  record_selected_action request source result error c =
      let (r, a) = env.record_action c.audit request source result error in
      (r, record c { audit = a })

  -- An operation error is recorded as the result that it carries, any other as a client error.
  unfoldable pub record_failure :
      Fields → String → Option Fields → Exc → Exec (Client L A) (Unit {0})
  unfolding record_selected_action
  record_failure request source response (operation_error r) =
      record_selected_action request source (some r) none
  record_failure request source response e = record_selected_action request source response (some e)

  unfoldable pub recorded :
      {B : Type 0} → Fields → String → Option Fields → Exec (Client L A) B → Exec (Client L A) B
  unfolding record_failure catch ◌>>=◌
  recorded request source response m =
      catch m (λ e. do record_failure request source response e; raise e)

  unfoldable pub validate_selected : Fields → Fields → Exec (Client L A) (Unit {0})
  unfolding ◌>>=◌
  validate_selected request response = do
    guarded env request (lift (validate_selected_action request response))
    consume_sequence request

  -- _execute_selected_action
  unfoldable pub execute_selected_action : Fields → String → Exec (Client L A) Fields
  unfolding recorded record_selected_action validate_selected ◌>>=◌
  execute_selected_action request source = do
    response ← recorded request source none (execute env request)
    recorded request source (some response) (validate_selected request response)
    record_selected_action request source (some response) none
    pure response

  -- commit_action
  unfoldable pub commit_action : Admission → String → String → String → Exec (Client L A) Fields
  unfolding with_deadline build execute_selected_action
  commit_action admission instance_id decision_point_id action_id = with_deadline admission do
    ensure_fresh_request_allowed
    request ← build (λ c.
        build_commit_action c.client_session_id c.instance_id c.next_request_seq instance_id
          decision_point_id action_id)
    execute_selected_action request root_branch_id

  -- emulate_action
  unfoldable pub emulate_action :
      Admission
      → String
      → String
      → String
      → Value
      → String
      → String
      → Option Fields
      → Exec (Client L A) Fields
  unfolding with_deadline build execute_selected_action
  emulate_action admission instance_id parent branch rng point action options =
      with_deadline admission do
        ensure_fresh_request_allowed
        request ← build (λ c.
            build_emulate_action c.client_session_id c.instance_id c.next_request_seq instance_id
              parent branch rng point action options)
        execute_selected_action request parent

  unfoldable pub record_item :
      Fields → Option Fields → Option Exc → Fields → Exec (Client L A) (Unit {0})
  unfolding record_selected_action item_request branch_result
  record_item request response error item =
      record_selected_action (item_request request item)
        (text_or_empty (get "parent_branch_id" item))
        (branch_result (get "branch_id" item) response) error

  unfoldable pub record_items :
      Fields → Option Fields → Option Exc → List Value → Exec (Client L A) (Unit {0})
  unfolding record_item ◌>>=◌
  record_items request response error [] = pure tt
  record_items request response error (obj item ∷ rest) = do
    record_item request response error item
    record_items request response error rest
  record_items request response error (v ∷ rest) = record_items request response error rest

  -- _record_emulate_actions_batch
  unfoldable pub record_batch : Fields → Option Fields → Option Exc → Exec (Client L A) (Unit {0})
  unfolding record_items
  record_batch request response error =
      record_items request response error (items_of (as_items (get "items" request)))

  unfoldable pub record_batch_failure : Fields → Option Fields → Exc → Exec (Client L A) (Unit {0})
  unfolding record_batch
  record_batch_failure request response (operation_error r) = record_batch request (some r) none
  record_batch_failure request response e = record_batch request response (some e)

  unfoldable pub recorded_batch :
      {B : Type 0} → Fields → Option Fields → Exec (Client L A) B → Exec (Client L A) B
  unfolding record_batch_failure catch ◌>>=◌
  recorded_batch request response m =
      catch m (λ e. do record_batch_failure request response e; raise e)

  -- _execute_emulate_actions
  unfoldable pub execute_emulate_actions : Fields → Exec (Client L A) Fields
  unfolding record_batch recorded_batch ◌>>=◌
  execute_emulate_actions request = do
    response ← recorded_batch request none (execute env request)
    recorded_batch request (some response) (consume_sequence request)
    record_batch request (some response) none
    pure response

  -- emulate_actions
  unfoldable pub emulate_actions :
      Admission → String → List Value → Option Fields → Exec (Client L A) Fields
  unfolding with_deadline build execute_emulate_actions
  emulate_actions admission instance_id items options = with_deadline admission do
    ensure_fresh_request_allowed
    request ← build (λ c.
        build_emulate_actions c.client_session_id c.instance_id c.max_emulate_actions_items
          c.next_request_seq instance_id items options)
    execute_emulate_actions request
