-- ===== src/Audit/Record.antt =====
-- selection_log.py: SelectionAudit.record_action. What Python shows of a value that is no text, and
-- of an exception, are parameters, as lower-casing is.
use sts2_training.Base.{
  String, Bool, true, false, ◌&&◌, Option, none, some, [], ◌∷◌, if◌then◌else◌, str_eq,
}
use sts2_training.Base.Outcome.{Result, ok, err}
use sts2_training.Json.{
  Fields, end, field, Value, null, str, obj, get, has, lookup, as_text, py_eq, append_fields,
}
use sts2_training.Api.Errors.{Exc, key_error, Check, is_one_of, member}
use sts2_training.Audit.{
  Audit, Identity, selection_identity, clear, find_entry, remember, enter_request, is_recovery,
  remember_selection,
}
use sts2_training.Audit.Outcomes.{masked_dto, selected_public_action_id, root_outcomes}

-- What the code takes from Python itself.
pub record Python : Type 0 where
  pub lower : String → String
  pub show : Value → String
  pub describe : Exc → Fields

-- d[key] = v
abbrev pub set_field : String → Value → Fields → Fields
set_field k v end = field k v end
set_field k v (field j w r) =
    let rest = set_field k v r in if str_eq j k then field j v r else field j w rest

abbrev with_operation : Option String → Fields → Fields
with_operation (some operation) request = request
with_operation none request = set_field "operation" (str "emulate_actions") request

-- the request of the event: one without an operation is an item of a batch
unfoldable pub event_request : Fields → Fields
event_request request = with_operation (as_text (get "operation" request)) request

abbrev text_of : (Value → String) → Value → String
text_of show (str s) = s
text_of show v = show v

abbrev need : Option Value → Result Exc Value
need none = err key_error
need (some v) = ok v

-- a Decision that is not the one that the request answers is no context
abbrev same_point : Fields → Result Exc Value → Result Exc (Option Fields)
same_point received (ok point) =
    ok (if py_eq (get "decision_point_id" received) point then some received else none)
same_point received (err e) = err e

abbrev checked_context : Option Fields → Fields → Result Exc (Option Fields)
checked_context none request = ok none
checked_context (some received) request =
    same_point received (need (lookup "decision_point_id" request))

abbrev find_in : (Value → String) → String → Audit → Result Exc Value → Result Exc (Option Fields)
find_in show source a (err e) = err e
find_in show source a (ok instance) = ok (find_entry (text_of show instance) source a.decisions)

abbrev then_checked : Result Exc (Option Fields) → Fields → Result Exc (Option Fields)
then_checked (ok received) request = checked_context received request
then_checked (err e) request = err e

-- the Decision that the selection answers
unfoldable pub received_decision :
    (Value → String) → Fields → String → Audit → Result Exc (Option Fields)
received_decision show request source a =
    then_checked (find_in show source a (need (lookup "instance_id" request))) request

abbrev pub opt_obj : Option Fields → Value
opt_obj none = null
opt_obj (some d) = obj d

abbrev opt_text : Option String → Value
opt_text none = null
opt_text (some s) = str s

abbrev pub event_name : Bool → String
event_name true = "selection_recovery"
event_name false = "selection"

abbrev point_of : Option Fields → Value
point_of none = null
point_of (some received) = get "decision_point_id" received

fault_fields : Option Fields → Fields → Fields → Fields
unfolding masked_dto
fault_fields received request result =
    let parent = masked_dto received in
    field "replay_snapshot" (obj parent) (
      field "fault_context"
        (obj (
          field "snapshot_kind" (str "training_visible_parent_decision") (
            field "parent_decision_point_id" (point_of received) (
              field "parent_boundary" (get "boundary" parent) (
                field "parent_choice_scope" (get "choiceScope" parent) (
                  field "parent_pending_choice" (get "pendingChoice" parent) (
                    field "parent_legal_actions" (get "legal_actions" parent) (
                      field "branch_request" (obj request)
                        (field "branch_result" (obj result) end)))))))))
        end)

abbrev fault_part : Option Fields → Fields → Option Fields → Fields
unfolding fault_fields
fault_part received request none = end
fault_part received request (some result) =
    if is_one_of (get "status" result) ("faulted" ∷ [])
    then fault_fields received request result
    else end

abbrev commits : Fields → Bool
commits request = is_one_of (get "operation" request) ("commit_action" ∷ [])

abbrev outcome_part : (String → String) → Option Fields → Fields → Option Fields → Fields
unfolding root_outcomes
outcome_part lower received request none = end
outcome_part lower received request (some result) =
    if commits request then root_outcomes lower received result else end

abbrev error_part : (Exc → Fields) → Option Exc → Fields
error_part describe none = end
error_part describe (some e) = field "client_error" (obj (describe e)) end

-- the event of one selection
unfoldable pub event_of :
    Python → Bool → Option Fields → Fields → Option Fields → Option Exc → Fields
unfolding selected_public_action_id fault_part outcome_part
event_of python retry received request result error = field "event" (str (event_name retry)) (
    field "received" (opt_obj received) (
      field "request" (obj request) (
        field "result" (opt_obj result) (
          field "selected_action_id" (opt_text (selected_public_action_id received request)) (
            append_fields (fault_part received request result) (
              append_fields (outcome_part python.lower received request result)
                (error_part python.describe error)))))))

-- result.setdefault("instance_id", ...)
abbrev with_instance : Fields → Fields → Fields
unfolding has
with_instance request result =
    if has "instance_id" result
    then result
    else set_field "instance_id" (get "instance_id" request) result

abbrev pub clear_if : Bool → Audit → Audit
unfolding clear
clear_if true a = clear a
clear_if false a = a

unfoldable pub settle_success : Fields → Fields → Audit → Audit
unfolding remember with_instance clear_if
settle_success request result a =
    remember (with_instance request result)
      (clear_if (commits request && is_one_of (get "status" result) ("completed" ∷ [])) a)

abbrev settle_if : Result Exc Bool → Fields → Fields → Audit → Check × Audit
unfolding settle_success
settle_if (err e) request result a = (err e, a)
settle_if (ok true) request result a = (ok tt, settle_success request result a)
settle_if (ok false) request result a = (ok tt, a)

-- the end of record_action: a successful result is remembered
unfoldable pub settle : Fields → Option Fields → Option Exc → Audit → Check × Audit
unfolding settle_if member
settle request (some result) none a =
    settle_if (member (get "status" result) ("completed" ∷ "partial" ∷ [])) request result a
settle request result error a = (ok tt, a)

abbrev pub log : Fields → Audit → Audit
log event a = record a { events = event ∷ a.events }

abbrev pub remember_unless : Bool → Option Identity → Audit → Audit
unfolding remember_selection
remember_unless true d a = a
remember_unless false d a = remember_selection d a

-- record_action, once the Decision is looked up
unfoldable pub record_with :
    Python → Fields → String → Option Fields → Option Exc → Option Fields → Audit → Check × Audit
unfolding settle event_of is_recovery enter_request remember_unless selection_identity
record_with python request source result error received a =
    let d = selection_identity request source in
    let retry = is_recovery d a in
    settle request result error (
      remember_unless retry d
        (log (event_of python retry received request result error) (enter_request d a)))

abbrev record_if :
    Python
    → Fields
    → String
    → Option Fields
    → Option Exc
    → Result Exc (Option Fields)
    → Audit
    → Check × Audit
unfolding record_with
record_if python request source result error (err e) a = (err e, a)
record_if python request source result error (ok received) a =
    record_with python request source result error received a

-- record_action
unfoldable pub record_action :
    Python → Fields → String → Option Fields → Option Exc → Audit → Check × Audit
unfolding record_if received_decision event_request
record_action python request source result error a =
    if a.logging
    then record_if python (event_request request) source result error
        (received_decision python.show (event_request request) source a) a
    else (ok tt, a)
