-- ===== src/Audit/Outcomes.antt =====
-- selection_log.py: what an event says of the Decision that a selection answered, and of the room
-- or the run that a commit ended. Lower-casing of texts is Python's, a parameter.
use sts2_training.Base.{
  String, Bool, true, false, not, ◌&&◌, ◌||◌, Option, none, some, List, [], ◌∷◌, if◌then◌else◌, mem,
  str_eq, any,
}
use sts2_training.Json.{
  Fields, end, field, Items, Value, str, obj, get, to_list, as_text, as_mapping, as_items, is_null,
  is_true, py_eq, append_fields,
}

abbrev pub or_empty : Option Fields → Fields
or_empty none = end
or_empty (some d) = d

-- _masked_dto
unfoldable pub masked_dto : Option Fields → Fields
masked_dto none = end
masked_dto (some response) = or_empty (as_mapping (get "masked_emulator_dto" response))

abbrev names_action : String → Option Fields → Bool
names_action action_id none = false
names_action action_id (some action) = py_eq (get "action_id" action) (str action_id)

abbrev offered : Option Items → Option String → Option String
offered (some actions) (some action_id) =
    if any (λ v. names_action action_id (as_mapping v)) (to_list actions)
    then some action_id
    else none
offered actions action_id = none

-- _selected_public_action_id
unfoldable pub selected_public_action_id : Option Fields → Fields → Option String
unfolding masked_dto
selected_public_action_id received request =
    offered (as_items (get "legal_actions" (masked_dto received)))
      (as_text (get "action_id" request))

abbrev room_end_boundaries : List String
room_end_boundaries =
    "combat_terminal" ∷ "map_select" ∷ "room_end" ∷ "room_terminal" ∷ "run_terminal" ∷ "terminal"
    ∷ []

abbrev first_set : List Value → Value → Value
first_set [] fallback = fallback
first_set (v ∷ rest) fallback = if is_null v then first_set rest fallback else v

abbrev when : Bool → Fields → Fields
when true d = d
when false d = end

module _ (lower : String → String) where
  -- _room_completed
  unfoldable pub room_completed : Value → Value → Bool
  room_completed (str before) (str after) =
      mem (lower after) room_end_boundaries
      && not (str_eq (lower before) (lower after) || str_eq (lower before) "map_select")
  room_completed before after = false

  abbrev reads_as : List String → Value → Bool
  reads_as names (str s) = mem (lower s) names
  reads_as names v = false

  -- _is_run_terminal
  unfoldable pub is_run_terminal : Fields → Bool
  unfolding masked_dto
  is_run_terminal dto =
      reads_as ("run_terminal" ∷ []) (get "boundary" dto)
      || is_true (get "run_terminal" dto)
      || not (is_null (get "run_result" dto))
      || not (is_null (get "run_outcome" dto))
      || reads_as ("run_completed" ∷ "run_end" ∷ "run_terminal" ∷ [])
          (get "kind" (or_empty (as_mapping (get "transition" dto))))

  room_result : Fields → Fields → Fields
  room_result before after = field "boundary_before" (get "boundary" before) (
      field "boundary_after" (get "boundary" after) (
        field "room_context_before" (get "room_context" before)
          (field "room_context_after" (get "room_context" after) end)))

  run_result : Fields → Value
  run_result after =
      first_set (get "run_result" after ∷ get "run_outcome" after ∷ get "outcome" after ∷ []) (
        obj (
          field "boundary" (get "boundary" after) (
            field "room_context" (get "room_context" after)
              (field "transition" (get "transition" after) end))))

  -- _root_outcomes
  unfoldable pub root_outcomes : Option Fields → Fields → Fields
  unfolding masked_dto room_completed is_run_terminal room_result run_result
  root_outcomes received result =
      let before = masked_dto received in
      let after = masked_dto (some result) in
      append_fields
        (when (room_completed (get "boundary" before) (get "boundary" after))
          (field "room_result" (obj (room_result before after)) end))
        (when (is_run_terminal after) (field "run_result" (run_result after) end))
