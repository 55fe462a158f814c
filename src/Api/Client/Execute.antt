-- ===== src/Api/Client/Execute.antt =====
-- The methods of the client that all operations share: one exchange, and the bookkeeping of the
-- sequence number and of the unresolved request.
use sts2_training.Base.{
  ◌+◌, String, Bool, true, false, not, ◌&&◌, ◌||◌, Option, none, some, List, [], ◌∷◌, if◌then◌else◌,
}
use sts2_training.Base.Outcome.{Result, ok, err}
use sts2_training.Json.{Fields, Items, Value, str, as_text, get, to_list, as_items}
use sts2_training.Api.Errors.{
  Exc, runtime_error, protocol_error, operation_error, transport_error, epoch_changed, cancelled,
  Check, member, is_one_of,
}
use sts2_training.Api.Exec.{Exec, pure, raise, lift, modify, catch, ◌>>=◌, ◌>>◌}
use sts2_training.Api.Interface.{Environment, Outcome, replied, failed, delivered}
use sts2_training.Api.Responses.{check_api_response}
use sts2_training.Api.Client.{
  Client, seq_of, session_of, operation_of, is_number, is_text, free_for,
}

abbrev pub non_consuming : List String
non_consuming =
    "invalid_request" ∷ "session_sequence_conflict" ∷ "session_sequence_gap"
    ∷ "session_capacity_exceeded" ∷ []

abbrev pub fatal_consuming : List String
fatal_consuming = "session_instance_conflict" ∷ "unknown_instance" ∷ []

abbrev pub check_free : Option Fields → Check
check_free none = ok tt
check_free (some t) = err runtime_error

abbrev pub or_token : Option Fields → Fields → Fields
or_token none token = token
or_token (some t) token = t

-- the server did not admit the request as the next one of the session
unfoldable pub refused : Fields → Result Exc Bool
unfolding member
refused response =
    if is_one_of (get "status" response) ("rejected" ∷ [])
    then member (get "fault_kind" response) non_consuming
    else ok false

abbrev pub texts : List Value → List String
texts [] = []
texts (str s ∷ r) = s ∷ texts r
texts (v ∷ r) = texts r

-- an exchange is recorded on the wire when the server may have received the request
abbrev pub sent : Bool → Fields → List Fields → List Fields
sent true request wire = request ∷ wire
sent false request wire = wire

module _ {L A : Type 0} where
  -- _remember_pending
  unfoldable pub remember_pending : Fields → Exec (Client L A) (Unit {0})
  remember_pending token c =
      if not (is_text (session_of token) c.client_session_id)
      then (err runtime_error, c)
      else if not (is_number (seq_of token) c.next_request_seq)
      then (err runtime_error, c)
      else if not (free_for c.pending_retry token)
      then (err runtime_error, c)
      else (ok tt, record c { pending_retry = some token })

  -- _consume_sequence
  unfoldable pub consume_sequence : Fields → Exec (Client L A) (Unit {0})
  consume_sequence token c =
      if is_number (seq_of token) c.next_request_seq
      then (ok tt, record c { pending_retry = none; next_request_seq = c.next_request_seq + 1 })
      else (err runtime_error, c)

  -- _ensure_fresh_request_allowed
  unfoldable pub ensure_fresh_request_allowed : Exec (Client L A) (Unit {0})
  ensure_fresh_request_allowed c =
      if c.session_invalid then (err runtime_error, c) else (check_free c.pending_retry, c)

  -- _clear_instance_extensions
  unfoldable pub clear_instance_extensions : Client L A → Client L A
  clear_instance_extensions c = record c {
    emulate_actions_boundaries = [];
    pending_retry_cleanup = none;
  }

  -- the session is permanently invalid
  unfoldable pub invalidate_session : Client L A → Client L A
  invalidate_session c = record c {
    session_invalid = true;
    pending_retry = none;
    pending_retry_cleanup = none;
  }

module _ {L A : Type 0} (env : Environment L A) where
  -- self._connection.exchange(request)
  unfoldable pub exchange : Fields → Exec (Client L A) Outcome
  exchange request c =
      let (o, l) = env.exchange c.connection request in
      (ok o, record c { connection = l; wire = sent (delivered o) request c.wire })

  unfoldable pub tear_down : Exec (Client L A) (Unit {0})
  tear_down c = let (r, l) = env.invalidate c.connection in (r, record c { connection = l })

  -- _mark_protocol_uncertain. The token is kept before the connection is torn down.
  unfoldable pub mark_protocol_uncertain : Fields → Exec (Client L A) (Unit {0})
  unfolding remember_pending tear_down ◌>>=◌
  mark_protocol_uncertain request = do remember_pending request; tear_down

  abbrev forget_ids : Option String → Option Items → A → A
  forget_ids none ids a = a
  forget_ids (some i) none a = a
  forget_ids (some i) (some ids) a = env.forget a i (texts (to_list ids))

  -- the audit drops the Branches that an accepted cancellation or release names
  unfoldable pub forget_branches : Fields → Client L A → Client L A
  forget_branches request c =
      if is_one_of (get "operation" request) ("cancel_branches" ∷ "release_branches" ∷ [])
      then record c {
        audit =
            forget_ids (as_text (get "instance_id" request)) (as_items (get "branch_ids" request))
              c.audit;
      }
      else c

  -- no instance is active any more
  unfoldable pub forget_instance : Client L A → Client L A
  forget_instance c = record c {
    instance_id = none;
    instance_type = none;
    pending_start_instance_type = none;
    max_emulate_actions_items = none;
    audit = env.clear c.audit;
  }

  -- what a fault of close_instance leaves behind
  unfoldable pub drop_instance : Client L A → Client L A
  unfolding clear_instance_extensions forget_instance
  drop_instance c = clear_instance_extensions (forget_instance c)

  unfoldable pub after_fault : Fields → Fields → Client L A → Client L A
  unfolding drop_instance
  after_fault token response c =
      if is_text (operation_of token) "close_instance"
        && is_one_of (get "status" response) ("faulted" ∷ [])
      then drop_instance c
      else c

  unfoldable pub give_up_if : Bool → Client L A → Client L A
  give_up_if false c = c
  give_up_if true c = record c { session_invalid = true; pending_retry_cleanup = none }

  unfoldable pub consume_refusal : Fields → Fields → Exec (Client L A) Fields
  unfolding consume_sequence after_fault give_up_if member ◌>>=◌
  consume_refusal token response = do
    consume_sequence token
    modify (after_fault token response)
    fatal ← lift (member (get "fault_kind" response) fatal_consuming)
    modify (give_up_if fatal)
    raise (operation_error response)

  unfoldable pub settle_refusal : Bool → Fields → Fields → Exec (Client L A) Fields
  unfolding consume_refusal invalidate_session ◌>>=◌
  settle_refusal true token response = do
    modify invalidate_session
    raise (operation_error response)
  settle_refusal false token response = consume_refusal token response

  -- the handler of ApiOperationError
  unfoldable pub on_operation_error : Fields → Fields → Exec (Client L A) Fields
  unfolding refused settle_refusal ◌>>=◌
  on_operation_error token response = do
    outside ← lift (refused response)
    settle_refusal outside token response

  -- the handlers of the validation of a response
  unfoldable pub on_invalid : Fields → Exc → Exec (Client L A) Fields
  unfolding on_operation_error mark_protocol_uncertain ◌>>=◌
  on_invalid request (operation_error response) = on_operation_error request response
  on_invalid request protocol_error = do mark_protocol_uncertain request; raise protocol_error
  on_invalid request e = raise e

  unfoldable pub accept : Fields → Fields → Exec (Client L A) Fields
  unfolding forget_branches ◌>>=◌
  accept request response = do modify (forget_branches request); pure response

  unfoldable pub on_checked : Fields → Result Exc Fields → Exec (Client L A) Fields
  unfolding accept on_invalid
  on_checked request (ok response) = accept request response
  on_checked request (err e) = on_invalid request e

  unfoldable pub keep_if : Bool → Option Fields → Fields → Exec (Client L A) (Unit {0})
  unfolding remember_pending
  keep_if true token request = remember_pending (or_token token request)
  keep_if false token request = pure tt

  -- the handlers of the exchange
  unfoldable pub on_failure : Fields → Exc → Exec (Client L A) Fields
  unfolding invalidate_session keep_if ◌>>=◌
  on_failure request (epoch_changed u t) = do modify invalidate_session; raise (epoch_changed u t)
  on_failure request (cancelled u t) = do keep_if u t request; raise (cancelled u t)
  on_failure request (transport_error u t) = do keep_if u t request; raise (transport_error u t)
  on_failure request e = raise e

  unfoldable pub on_outcome : Fields → Outcome → Exec (Client L A) Fields
  unfolding on_checked on_failure
  on_outcome request (replied response) = on_checked request (check_api_response request response)
  on_outcome request (failed e) = on_failure request e

  -- the guards of _execute
  unfoldable pub check_turn : Fields → Exec (Client L A) (Unit {0})
  check_turn token c =
      if not (is_number (seq_of token) c.next_request_seq) || not (free_for c.pending_retry token)
      then (err runtime_error, c)
      else (ok tt, c)

  -- _execute
  unfoldable pub execute : Fields → Exec (Client L A) Fields
  unfolding check_turn exchange on_outcome ◌>>=◌
  execute request = do check_turn request; outcome ← exchange request; on_outcome request outcome

  -- `try: m, except ApiProtocolError: mark the request uncertain`
  unfoldable pub on_protocol_error : {B : Type 0} → Fields → Exc → Exec (Client L A) B
  unfolding mark_protocol_uncertain ◌>>=◌
  on_protocol_error request protocol_error = do
    mark_protocol_uncertain request
    raise protocol_error
  on_protocol_error request e = raise e

  unfoldable pub guarded : {B : Type 0} → Fields → Exec (Client L A) B → Exec (Client L A) B
  unfolding on_protocol_error catch
  guarded request m = catch m (on_protocol_error request)
