-- ===== src/Selection/Tests.antt =====
-- Two event options, one of them lethal, and a third that is not available.
use sts2_training.Base.{none, some, ◌≡◌, refl, String, Bool, true, false, List, [], ◌∷◌, All, any}
use sts2_training.Base.Outcome.{ok}
use sts2_training.Json.{
  Fields, field, end, str, bool, int, obj, arr, cons, nil, get, lookup, py_eq, as_mapping,
}
use sts2_training.Selection.Actions.{
  actions_of_type, choice_event_option, Groups, group_by_action_type, group_all, add_to_group,
  group_of,
}
use sts2_training.Selection.Actions.Grouped.{group_by_action_type-group_of}
use sts2_training.Base.Int.{pos}
use sts2_training.Selection.Choices.{Context, parse_choice_semantics, pending_choice_context}
use sts2_training.Selection.Choices.Sound.{
  IsPublished, IsIdentified, parse_choice_semantics-IsPublished,
  pending_choice_context-IsIdentified,
}
use sts2_training.Selection.Events.{
  is_safe, safe_event_option_candidates, safe_event_option_candidates_lem,
}

abbrev option : String → Bool → Bool → Fields
option action_id available lethal = field "action_id" (str action_id) (
    field "action_type" (str "choice_event_option") (
      field "is_available" (bool available)
        (field "parameters" (obj (field "willKillPlayer" (bool lethal) end)) end)))

abbrev offered : List Fields
offered = option "a-1" true true ∷ option "a-2" true false ∷ option "a-3" false false ∷ []

safe_event_option_candidates_lem_example :
    (any is_safe (actions_of_type offered choice_event_option) ≡ true
      → All (λ a. is_safe a ≡ true) (safe_event_option_candidates offered))
    × (any is_safe (actions_of_type offered choice_event_option) ≡ false
        → safe_event_option_candidates offered ≡ actions_of_type offered choice_event_option)
safe_event_option_candidates_lem_example = safe_event_option_candidates_lem offered

abbrev grouped : Groups
grouped = (str "choice_event_option", option "a-1" true true ∷ option "a-2" true false ∷ []) ∷ []

offered_by_type : group_by_action_type offered ≡ ok grouped
unfolding group_by_action_type group_all add_to_group get lookup py_eq
offered_by_type = refl

group_by_action_type-group_of_example :
    group_of "choice_event_option" grouped ≡ actions_of_type offered "choice_event_option"
group_by_action_type-group_of_example =
    group_by_action_type-group_of "choice_event_option" offered grouped offered_by_type

abbrev semantics : Fields
semantics = field "version" (int (pos 1)) (
    field "operation" (str "discard")
      (field "effect" (str "move") (field "sourceZone" (str "hand") end)))

abbrev any_token : String → Bool
any_token s = true

abbrev pending_dto : Fields
pending_dto =
    field "pendingChoice"
      (obj (
        field "choiceSemantics" (obj semantics) (
          field "selectedOptionIds" (arr (cons (str "o-1") nil)) (
            field "options" (arr (cons (obj (field "optionId" (str "o-2") end)) nil))
              (field "selectedCount" (int (pos 1)) end)))))
      end

abbrev pending_context : Context
pending_context = record {
  semantics = record {
    operation = "discard";
    effect = some "move";
    source_zone = some "hand";
    destination_zone = none;
    modifier = none;
    order_matters = none;
    replacement_allowed = none;
  };
  source_effect_id = none;
  selected_option_ids = "o-1" ∷ [];
  option_ids = "o-2" ∷ [];
  identity_valid = true;
}

parse_choice_semantics-IsPublished_example : IsPublished (parse_choice_semantics (obj semantics))
parse_choice_semantics-IsPublished_example = parse_choice_semantics-IsPublished (obj semantics)

identified : pending_choice_context any_token pending_dto ≡ some pending_context
unfolding pending_choice_context parse_choice_semantics get lookup
identified = refl

pending_choice_context-IsIdentified_example :
    (pending : Fields) × (as_mapping (get "pendingChoice" pending_dto) ≡ some pending)
    × IsIdentified any_token pending pending_context
pending_choice_context-IsIdentified_example =
    pending_choice_context-IsIdentified any_token pending_dto pending_context identified refl
