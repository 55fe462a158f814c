-- ===== src/Search/Scope/Tests.antt =====
-- States with a card, the end of the turn, and a choice.
use sts2_training.Base.{◌↔◌, ◌≡◌, refl, String, true, false, none, some, mem}
use sts2_training.Json.{Fields, field, end, str, arr, obj, nil, cons, get, lookup}
use sts2_training.Search.Scope.{
  stable_action_types, is_continuation_decision, is_beam_searchable, end_turn_in,
  end_turn_action_id, available_action_ids, expandable_actions, has_unresolved_out_of_scope_result,
}
use sts2_training.Search.Scope.Sound.{
  continuation-searchable, expandable_actions-end_turn, end_turn_action_id-mem, AllHandled,
  results-AllHandled,
}

abbrev action : String → String → Fields
action id type = field "action_id" (str id) (field "action_type" (str type) end)

abbrev combat : Fields
combat = field "boundary" (str "stable") (
    field "legal_actions"
      (arr (cons (obj (action "c-1" "card")) (cons (obj (action "end" "system")) nil))) end)

abbrev choice : Fields
choice = field "legal_actions" (arr (cons (obj (action "k-1" "choice_card")) nil)) end

abbrev results : Fields
results =
    field "b-1"
      (obj (field "status" (str "completed") (field "masked_emulator_dto" (obj combat) end))) end

is_choice : is_continuation_decision choice ≡ true
unfolding is_continuation_decision get lookup
is_choice = refl

continuation-searchable_example : is_beam_searchable choice stable_action_types ≡ false
continuation-searchable_example = continuation-searchable choice is_choice

expandable_actions-end_turn_example : end_turn_in (expandable_actions true combat) ≡ none
expandable_actions-end_turn_example = expandable_actions-end_turn combat

combat_ends : end_turn_action_id combat ≡ some "end"
unfolding end_turn_action_id get lookup
combat_ends = refl

end_turn_action_id-mem_example : mem "end" (available_action_ids combat) ≡ true
end_turn_action_id-mem_example = end_turn_action_id-mem combat "end" combat_ends

none_unresolved : has_unresolved_out_of_scope_result true results stable_action_types ≡ false
unfolding has_unresolved_out_of_scope_result get lookup
none_unresolved = refl

results-AllHandled_example :
    (has_unresolved_out_of_scope_result true results stable_action_types ≡ false)
    ↔ AllHandled stable_action_types results
results-AllHandled_example = results-AllHandled results stable_action_types
