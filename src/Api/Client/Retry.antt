-- ===== src/Api/Client/Retry.antt =====
-- async_client.py: the exact replay of the unresolved request, and the Branch cleanup after it.
use sts2_training.Base.{
  String, Bool, true, false, not, ◌&&◌, Option, none, some, List, [], ◌∷◌, ◌++◌, if◌then◌else◌, mem,
  all, str_eq,
}
use sts2_training.Base.Outcome.{ok}
use sts2_training.Json.{
  Fields, Items, nil, cons, Value, str, obj, get, same, as_text, as_mapping, as_items, py_eq,
}
use sts2_training.Api.Errors.{
  Exc, value_error, runtime_error, protocol_error, operation_error, cancelled, root_branch_id,
  is_one_of,
}
use sts2_training.Api.Requests.Batch.{build_branch_batch_operation}
use sts2_training.Api.Exec.{Exec, pure, raise, modify, catch, ◌>>=◌, ◌>>◌}
use sts2_training.Api.Interface.{Environment}
use sts2_training.Api.Client.{Client, Cleanup, is_set, is_text, is_token, operation_of}
use sts2_training.Api.Client.Execute.{
  execute, guarded, consume_sequence, remember_pending, clear_instance_extensions,
}
use sts2_training.Api.Client.Accept.{
  accept_start_instance, accept_get_decision, accept_close_instance,
}
use sts2_training.Api.Client.Operations.{
  Admission, with_deadline, build, check, execute_selected_action, execute_emulate_actions,
}

-- the Branches that a replay may have made: `_branch_ids_created_by_retry`
abbrev pub singleton : Option String → List String
singleton none = []
singleton (some b) = b ∷ []

abbrev pub branch_of : Option Fields → List String
branch_of none = []
branch_of (some item) = singleton (as_text (get "branch_id" item))

unfoldable pub branches_of : Items → List String
branches_of nil = []
branches_of (cons v r) = branch_of (as_mapping v) ++ branches_of r

abbrev pub branches_in : Option Items → List String
unfolding branches_of
branches_in none = []
branches_in (some items) = branches_of items

unfoldable pub created_by_retry : Fields → List String
unfolding branches_of
created_by_retry token =
    if is_text (operation_of token) "emulate_action"
    then singleton (as_text (get "branch_id" token))
    else if is_text (operation_of token) "emulate_actions"
    then branches_in (as_items (get "items" token))
    else []

-- the ids of `xs` that are not in `ys`
unfoldable pub without : List String → List String → List String
without ys [] = []
without ys (x ∷ xs) = let rest = without ys xs in if mem x ys then rest else x ∷ rest

-- the first mention of each id, in order
unfoldable pub deduplicate : List String → List String → List String
deduplicate seen [] = []
deduplicate seen (x ∷ xs) = elim (mem x seen) [
  | true ↦ deduplicate seen xs
  | false ↦ x ∷ deduplicate (x ∷ seen) xs
]

-- The answers of the operations: an instance id is a text, a response an object.
abbrev pub Answer : Type 0
Answer = Value

abbrev pub is_cancelled : Exc → Bool
is_cancelled (cancelled u t) = true
is_cancelled _ = false

-- isinstance(e, ApiOperationError) and e.response["status"] == "rejected"
abbrev pub is_rejection : Exc → Bool
is_rejection (operation_error r) = is_one_of (get "status" r) ("rejected" ∷ [])
is_rejection _ = false

abbrev pub is_for : Option Cleanup → Fields → Bool
is_for none token = false
is_for (some c) token = same c.source token

module _ {L A : Type 0} where
  unfoldable pub set_cleanup : Option Cleanup → Client L A → Client L A
  set_cleanup k c = record c { pending_retry_cleanup = k }

  -- a failed cleanup is forgotten unless it is the unresolved request
  unfoldable pub unless_pending : Fields → Client L A → Client L A
  unless_pending token c =
      if is_token c.pending_retry token then c else record c { pending_retry_cleanup = none }

  -- no unresolved request, and the session still valid
  unfoldable pub resolved : Client L A → Bool
  resolved c = not (is_set c.pending_retry) && not c.session_invalid

  unfoldable pub drop_cleanup_for : Fields → Client L A → Client L A
  drop_cleanup_for token c =
      if is_for c.pending_retry_cleanup token then record c { pending_retry_cleanup = none } else c

module _ {L A : Type 0} (env : Environment L A) where
  -- try: execute and consume, except: forget the cleanup unless it is unresolved
  unfoldable pub send_cleanup : Fields → Exec (Client L A) (Unit {0})
  unfolding unless_pending catch ◌>>=◌
  send_cleanup request =
      catch (do _ ← execute env request; consume_sequence request)
        (λ e. do modify (unless_pending request); raise e)

  unfoldable pub release_now : String → List String → Exec (Client L A) (Unit {0})
  unfolding build set_cleanup send_cleanup ◌>>=◌
  release_now instance branch_ids = do
    request ← build (λ c.
        build_branch_batch_operation c.client_session_id c.instance_id c.next_request_seq
          "release_branches" instance branch_ids)
    modify (
        set_cleanup
          (some (record { source = request; instance = instance; branch_ids = branch_ids })))
    remember_pending request
    send_cleanup request
    modify (set_cleanup none)

  unfoldable pub release_rest : String → List String → Exec (Client L A) (Unit {0})
  unfolding release_now set_cleanup
  release_rest instance [] = modify (set_cleanup none)
  release_rest instance (b ∷ bs) = release_now instance (b ∷ bs)

  unfoldable pub complete_for : Fields → Bool → Option Cleanup → Exec (Client L A) (Unit {0})
  unfolding release_rest created_by_retry without
  complete_for source include none = pure tt
  complete_for source include (some k) =
      if same k.source source
      then release_rest k.instance
          (if include then k.branch_ids else without (created_by_retry source) k.branch_ids)
      else pure tt

  -- _complete_deferred_branch_cleanup
  unfoldable pub complete_deferred_branch_cleanup : Fields → Bool → Exec (Client L A) (Unit {0})
  unfolding complete_for
  complete_deferred_branch_cleanup source include c =
      complete_for source include c.pending_retry_cleanup c

  -- `except Exception` lets a cancellation through
  unfoldable pub after_cleanup_error : {B : Type 0} → Exc → Exc → Exec (Client L A) B
  after_cleanup_error primary e =
      if is_cancelled e then raise e else if is_rejection primary then raise primary else raise e

  unfoldable pub cleanup_after_error : Fields → Exc → Exec (Client L A) (Unit {0})
  unfolding complete_deferred_branch_cleanup after_cleanup_error resolved catch
  cleanup_after_error token e c =
      if resolved c
      then catch (complete_deferred_branch_cleanup token (not (is_rejection e)))
          (after_cleanup_error e) c
      else (ok tt, c)

  -- the replay of an emulation: the deferred cleanup follows once it is resolved
  unfoldable pub with_cleanup : Fields → Exec (Client L A) Fields → Exec (Client L A) Answer
  unfolding cleanup_after_error complete_deferred_branch_cleanup catch ◌>>=◌
  with_cleanup token m = do
    result ← catch m (λ e. do cleanup_after_error token e; raise e)
    complete_deferred_branch_cleanup token true
    pure (obj result)

  unfoldable pub retry_start : Fields → Exec (Client L A) Answer
  unfolding ◌>>=◌
  retry_start token = do
    response ← execute env token
    instance ← guarded env token (accept_start_instance env token response)
    consume_sequence token
    pure (str instance)

  unfoldable pub retry_decision : Option String → Fields → Exec (Client L A) Answer
  unfolding ◌>>=◌
  retry_decision none token = raise protocol_error
  retry_decision (some branch_id) token = do
    response ← execute env token
    result ← guarded env token (accept_get_decision env response branch_id)
    consume_sequence token
    pure (obj result)

  unfoldable pub retry_commit : Fields → Exec (Client L A) Answer
  unfolding ◌>>=◌
  retry_commit token = do
    result ← execute_selected_action env token root_branch_id
    pure (obj result)

  unfoldable pub retry_emulate_action : Option String → Fields → Exec (Client L A) Answer
  unfolding with_cleanup
  retry_emulate_action none token = raise protocol_error
  retry_emulate_action (some parent) token =
      with_cleanup token (execute_selected_action env token parent)

  unfoldable pub retry_emulate_actions : Option Items → Fields → Exec (Client L A) Answer
  unfolding with_cleanup
  retry_emulate_actions (some (cons v r)) token =
      with_cleanup token (execute_emulate_actions env token)
  retry_emulate_actions items token = raise protocol_error

  unfoldable pub retry_branch_operation : Fields → Exec (Client L A) Answer
  unfolding drop_cleanup_for ◌>>=◌
  retry_branch_operation token = do
    response ← execute env token
    consume_sequence token
    modify (drop_cleanup_for token)
    pure (obj response)

  unfoldable pub retry_close : Fields → Exec (Client L A) Answer
  unfolding ◌>>=◌
  retry_close token = do
    response ← execute env token
    result ← guarded env token (accept_close_instance env response)
    consume_sequence token
    modify clear_instance_extensions
    pure (obj result)

  -- the body of retry_request, under the lock
  unfoldable pub replay : Fields → Exec (Client L A) Answer
  unfolding retry_start retry_decision retry_commit retry_emulate_action retry_emulate_actions
      retry_branch_operation retry_close
  replay token =
      let operation = get "operation" token in
      if is_one_of operation ("start_instance" ∷ [])
      then retry_start token
      else if is_one_of operation ("get_decision" ∷ [])
      then retry_decision (as_text (get "branch_id" token)) token
      else if is_one_of operation ("commit_action" ∷ [])
      then retry_commit token
      else if is_one_of operation ("emulate_action" ∷ [])
      then retry_emulate_action (as_text (get "parent_branch_id" token)) token
      else if is_one_of operation ("emulate_actions" ∷ [])
      then retry_emulate_actions (as_items (get "items" token)) token
      else if is_one_of operation
          ("cancel_branches" ∷ "release_branches" ∷ "get_branch_status" ∷ [])
      then retry_branch_operation token
      else if is_one_of operation ("close_instance" ∷ [])
      then retry_close token
      else raise value_error

  -- retry_request
  unfoldable pub retry_request : Admission → Fields → Exec (Client L A) Answer
  unfolding with_deadline check replay
  retry_request admission token = do
    check (λ c. not c.session_invalid) runtime_error
    check (λ c. is_set c.pending_retry) runtime_error
    check (λ c. is_token c.pending_retry token) value_error
    with_deadline admission (replay token)

-- the checks on the arguments of defer_branch_cleanup_after_retry
good_branch : String → Bool
good_branch b = not (str_eq b "") && not (str_eq b root_branch_id)

covers : List String → List String → Bool
covers expected seen = all (λ b. mem b seen) expected

abbrev nonempty : List String → Bool
nonempty [] = false
nonempty (b ∷ bs) = true

unfoldable pub is_deferrable : Fields → String → List String → Bool
unfolding good_branch covers created_by_retry
is_deferrable token instance_id branch_ids =
    py_eq (get "instance_id" token) (str instance_id)
    && is_one_of (get "operation" token) ("emulate_action" ∷ "emulate_actions" ∷ [])
    && all good_branch branch_ids
    && nonempty branch_ids
    && nonempty (created_by_retry token)
    && covers (created_by_retry token) branch_ids

abbrev ids_eq : List String → List String → Bool
ids_eq [] [] = true
ids_eq (x ∷ xs) (y ∷ ys) = str_eq x y && ids_eq xs ys
ids_eq _ _ = false

cleanup_eq : Cleanup → Cleanup → Bool
cleanup_eq k l =
    same k.source l.source && str_eq k.instance l.instance && ids_eq k.branch_ids l.branch_ids

unfoldable pub compatible : Option Cleanup → Cleanup → Bool
unfolding cleanup_eq
compatible none k = true
compatible (some l) k = cleanup_eq l k

-- defer_branch_cleanup_after_retry
unfoldable pub defer_branch_cleanup_after_retry :
    {L A : Type 0} → Fields → String → List String → Exec (Client L A) (Unit {0})
unfolding check is_deferrable compatible deduplicate set_cleanup ◌>>=◌
defer_branch_cleanup_after_retry token instance_id branch_ids =
    let k : Cleanup = record {
      source = token;
      instance = instance_id;
      branch_ids = deduplicate [] branch_ids;
    } in
    do
      check (λ c. not c.session_invalid) runtime_error
      check (λ c. is_token c.pending_retry token) value_error
      check (λ c. is_deferrable token instance_id branch_ids) value_error
      check (λ c. compatible c.pending_retry_cleanup k) runtime_error
      modify (set_cleanup (some k))
