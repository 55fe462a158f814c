-- ===== src/Search/Scope.antt =====
-- src/sts2_training/decision/combat_decision.py, and the predicates on a state at the end of
-- beam_search.py: which states the search continues, and by which actions. A value that the code looks
-- up in a set is hashable.
pub mod Sound
mod Tests
use sts2_training.Base.{
  ℕ, String, Bool, true, false, not, ◌&&◌, ◌||◌, Option, none, some, List, [], ◌∷◌, any, all, mem,
  if◌then◌else◌, ltb, str_eq,
}
use sts2_training.Base.Int.{ℤ, pos, negsuc, int_leb}
use sts2_training.Json.{
  Fields, Value, Items, nil, cons, arr, str, bool, get, as_mapping, as_items, as_int, as_text,
  is_true, to_list, field, end,
}
use sts2_training.Api.Errors.{is_one_of}

abbrev pub stable_action_types : List String
stable_action_types = "system" ∷ "card" ∷ "potion" ∷ []

abbrev pub continuation_types : List String
continuation_types = "choice_target" ∷ "choice_card" ∷ "choice_confirm" ∷ "choice_skip" ∷ []

-- TURN_INTERNAL_ACTION_TYPES of beam_search.py
abbrev pub turn_internal_types : List String
turn_internal_types = "card" ∷ "potion" ∷ continuation_types

-- a.get("is_available") is not False
abbrev pub is_available : Fields → Bool
is_available a = elim (get "is_available" a) [ bool false ↦ false | _ ↦ true ]

-- isinstance(v, str)
abbrev pub text : Value → Option String
text (str s) = some s
text _ = none

abbrev pub add_type : Option String → Option (List String) → Option (List String)
add_type none types = none
add_type (some t) none = none
add_type (some t) (some types) = some (t ∷ types)

abbrev pub types_with : Option Fields → Option (List String) → Option (List String)
types_with none later = none
types_with (some a) later =
    if is_available a then add_type (text (get "action_type" a)) later else later

abbrev pub types_of : List Value → Option (List String)
types_of [] = some []
types_of (v ∷ vs) = types_with (as_mapping v) (types_of vs)

abbrev pub types_if : Option Items → Option (List String)
types_if none = none
types_if (some items) = types_of (to_list items)

-- available_action_types; the set is the list of its members, which may repeat
unfoldable pub available_action_types : Fields → Option (List String)
available_action_types dto = types_if (as_items (get "legal_actions" dto))

abbrev pub are_among : List String → Option (List String) → Bool
are_among allowed none = false
are_among allowed (some []) = false
are_among allowed (some (t ∷ types)) = all (λ t. mem t allowed) (t ∷ types)

-- is_continuation_decision
unfoldable pub is_continuation_decision : Fields → Bool
unfolding available_action_types
is_continuation_decision dto = are_among continuation_types (available_action_types dto)

-- _is_beam_searchable
unfoldable pub is_beam_searchable : Fields → List String → Bool
unfolding available_action_types
is_beam_searchable dto allowed = are_among allowed (available_action_types dto)

abbrev pub mapping_cons : Option Fields → List Fields → List Fields
mapping_cons none later = later
mapping_cons (some a) later = a ∷ later

abbrev pub mappings : List Value → List Fields
mappings [] = []
mappings (v ∷ vs) = mapping_cons (as_mapping v) (mappings vs)

abbrev pub mappings_if : Option Items → List Fields
mappings_if none = []
mappings_if (some items) = mappings (to_list items)

-- _legal_action_mappings
unfoldable pub legal_action_mappings : Fields → List Fields
legal_action_mappings dto = mappings_if (as_items (get "legal_actions" dto))

abbrev pub is_text : Value → String → Bool
is_text v s = is_one_of v (s ∷ [])

abbrev pub type_in_order : String → List Fields → Option String
type_in_order i [] = none
type_in_order i (a ∷ rest) =
    let later = type_in_order i rest in
    if is_available a && is_text (get "action_id" a) i then text (get "action_type" a) else later

-- action_type_for_id
unfoldable pub action_type_for_id : Fields → String → Option String
unfolding legal_action_mappings
action_type_for_id dto i = type_in_order i (legal_action_mappings dto)

abbrev pub id_cons : Option String → List String → List String
id_cons none later = later
id_cons (some i) later = i ∷ later

abbrev pub ids_available : List Fields → List String
ids_available [] = []
ids_available (a ∷ rest) =
    let later = ids_available rest in
    if is_available a then id_cons (as_text (get "action_id" a)) later else later

-- _available_action_ids
unfoldable pub available_action_ids : Fields → List String
unfolding legal_action_mappings
available_action_ids dto = ids_available (legal_action_mappings dto)

abbrev pub first_with_id : String → List Fields → Option Fields
first_with_id i [] = none
first_with_id i (a ∷ rest) =
    let later = first_with_id i rest in if is_text (get "action_id" a) i then some a else later

-- _action_for_id
unfoldable pub action_for_id : Fields → String → Option Fields
unfolding legal_action_mappings
action_for_id dto i = first_with_id i (legal_action_mappings dto)

abbrev pub or_later : Option String → Option String → Option String
or_later none later = later
or_later (some i) later = some i

abbrev pub end_turn_in : List Fields → Option String
end_turn_in [] = none
end_turn_in (a ∷ rest) =
    let later = end_turn_in rest in
    if is_available a && is_text (get "action_type" a) "system"
    then or_later (as_text (get "action_id" a)) later
    else later

-- _end_turn_action_id
unfoldable pub end_turn_action_id : Fields → Option String
unfolding legal_action_mappings
end_turn_action_id dto = end_turn_in (legal_action_mappings dto)

-- _turn_number
abbrev pub turn_number : Fields → Option ℤ
turn_number dto = as_int (get "turnNumber" dto)

abbrev pub later_turn : Option ℤ → Option ℤ → Bool
later_turn none root = false
later_turn (some t) none = false
later_turn (some t) (some root) = not (int_leb t root)

-- _crossed_turn_boundary
unfoldable pub crossed_turn_boundary : Fields → Option ℤ → Bool
crossed_turn_boundary dto root = later_turn (turn_number dto) root

abbrev pub kind_of : Option Fields → Value
kind_of none = str ""
kind_of (some d) = get "kind" d

abbrev pub some_available : List Fields → Bool
some_available actions = any is_available actions

abbrev pub none_available : Option Items → Bool
none_available none = false
none_available (some items) = not (some_available (mappings (to_list items)))

-- _is_terminal
unfoldable pub is_terminal : Fields → Bool
is_terminal dto =
    is_true (get "run_terminal" dto)
    || is_true (get "terminal" dto)
    || is_one_of (get "boundary" dto) ("terminal" ∷ "run_terminal" ∷ [])
    || is_text (kind_of (as_mapping (get "transition" dto))) "combat_completed"
    || none_available (as_items (get "legal_actions" dto))

-- _is_beam_searchable_for_client; the flag: is the client's instance a Whole Run?
unfoldable pub is_beam_searchable_for_client : Bool → Fields → List String → Bool
unfolding is_beam_searchable
is_beam_searchable_for_client whole_run dto allowed =
    if whole_run && not (is_one_of (get "boundary" dto) ("stable" ∷ "pending_choice" ∷ []))
    then false
    else is_beam_searchable dto allowed

-- _is_whole_run_unresolved_out_of_scope
unfoldable pub is_whole_run_unresolved_out_of_scope : Bool → Fields → List String → Bool
unfolding is_terminal is_beam_searchable_for_client
is_whole_run_unresolved_out_of_scope whole_run dto allowed =
    whole_run && not (is_terminal dto) && not (is_beam_searchable_for_client whole_run dto allowed)

-- _is_resolved_branch_result, on a result that is a mapping
abbrev pub is_resolved : Fields → Bool
is_resolved result = is_one_of (get "status" result) ("completed" ∷ "partial" ∷ [])

abbrev pub is_out_of_scope_state : Bool → List String → Option Fields → Bool
is_out_of_scope_state whole_run allowed none = false
is_out_of_scope_state whole_run allowed (some dto) =
    is_whole_run_unresolved_out_of_scope whole_run dto allowed

abbrev pub is_out_of_scope_result : Bool → List String → Option Fields → Bool
is_out_of_scope_result whole_run allowed none = false
is_out_of_scope_result whole_run allowed (some result) =
    is_resolved result
    && is_out_of_scope_state whole_run allowed (as_mapping (get "masked_emulator_dto" result))

-- _has_unresolved_out_of_scope_result
unfoldable pub has_unresolved_out_of_scope_result : Bool → Fields → List String → Bool
unfolding is_whole_run_unresolved_out_of_scope
has_unresolved_out_of_scope_result whole_run end allowed = false
has_unresolved_out_of_scope_result whole_run (field k v rest) allowed =
    let later = has_unresolved_out_of_scope_result whole_run rest allowed in
    if whole_run then is_out_of_scope_result whole_run allowed (as_mapping v) || later else false

abbrev pub of_types : List String → List Fields → List Fields
of_types types [] = []
of_types types (a ∷ rest) =
    let later = of_types types rest in
    if is_one_of (get "action_type" a) types then a ∷ later else later

-- _expandable_actions; the flag is turn_boundary_scoring
unfoldable pub expandable_actions : Bool → Fields → List Fields
unfolding legal_action_mappings
expandable_actions false dto = legal_action_mappings dto
expandable_actions true dto = of_types turn_internal_types (legal_action_mappings dto)
