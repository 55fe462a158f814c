-- ===== src/Search/Scope/Sound.antt =====
-- The predicates on a state together: combat_decision.py and beam_search.py.
use sts2_training.Base.{
  ◌≡◌, ◌⊎◌, ◌↔◌, refl, sym, subst, inl, inr, String, Bool, true, false, ◌&&◌, Option, none, some,
  List, [], ◌∷◌, mem, str_eq, str_eq_iff, Bool-cases, arith, All,
}
use sts2_training.Json.{Fields, Value, field, end, str, get, as_mapping, as_text}
use sts2_training.Api.Errors.{is_one_of}
use sts2_training.Search.Scope.{
  stable_action_types, continuation_types, turn_internal_types, is_available, are_among,
  available_action_types, is_continuation_decision, is_beam_searchable, is_text, or_later,
  end_turn_in, end_turn_action_id, ids_available, id_cons, available_action_ids,
  legal_action_mappings, of_types, expandable_actions, is_terminal, is_beam_searchable_for_client,
  is_whole_run_unresolved_out_of_scope, is_resolved, is_out_of_scope_state, is_out_of_scope_result,
  has_unresolved_out_of_scope_result,
}

among-first :
    (t : String) (types allowed : List String)
    → are_among allowed (some (t ∷ types)) ≡ true
    → mem t allowed ≡ true
among-first t types allowed h = ground arith

disjoint :
    (xs ys : List String) (t : String)
    → All (λ s. mem s ys ≡ false) xs
    → mem t xs ≡ true
    → mem t ys ≡ false
disjoint [] ys t a h = cc
disjoint (x ∷ xs) ys t a h = elim (Bool-cases (str_eq t x)) [
  | inl e ↦ subst (λ s. mem s ys ≡ false) (sym ((str_eq_iff t x).0 e)) a.0
  | inr e ↦ disjoint xs ys t a.1 (ground arith)
]

false-true : (b : Bool) → b ≡ false → b ≡ true → ⊥
false-true b h k = ground arith

not_both : (t : String) → mem t continuation_types ≡ true → mem t stable_action_types ≡ true → ⊥
not_both t h k =
    false-true (mem t continuation_types)
      (disjoint stable_action_types continuation_types t (refl, (refl, (refl, tt))) k) h

apart :
    (o : Option (List String))
    → are_among continuation_types o ≡ true
    → are_among stable_action_types o ≡ false
apart none h = refl
apart (some []) h = refl
apart (some (t ∷ types)) h = elim (Bool-cases (are_among stable_action_types (some (t ∷ types)))) [
  | inl k ↦
      elim (not_both t (among-first t types continuation_types h)
        (among-first t types stable_action_types k)) [ ]
  | inr k ↦ k
]

-- A state whose available actions all continue a choice is not in the stable scope of the search.
pub continuation-searchable :
    (dto : Fields)
    → is_continuation_decision dto ≡ true
    → is_beam_searchable dto stable_action_types ≡ false
unfolding is_continuation_decision is_beam_searchable
continuation-searchable dto h = apart (available_action_types dto) h

internal-system : (v : Value) → is_one_of v turn_internal_types ≡ true → is_text v "system" ≡ false
internal-system (str t) h =
    disjoint turn_internal_types ("system" ∷ []) t
      (refl, (refl, (refl, (refl, (refl, (refl, tt)))))) h
internal-system v h = cc

end_turn_of_types :
    (actions : List Fields) → end_turn_in (of_types turn_internal_types actions) ≡ none
end_turn_of_types [] = refl
end_turn_of_types (a ∷ rest) =
    elim (Bool-cases (is_one_of (get "action_type" a) turn_internal_types)) [
      | inl h ↦
          let n = internal-system (get "action_type" a) h in
          let ih = end_turn_of_types rest in rw h (ground (arith, n, ih))
      | inr h ↦ rw h (end_turn_of_types rest)
    ]

-- Under turn-boundary scoring no action that ends the turn is expanded.
pub expandable_actions-end_turn : (dto : Fields) → end_turn_in (expandable_actions true dto) ≡ none
unfolding expandable_actions
expandable_actions-end_turn dto = end_turn_of_types (legal_action_mappings dto)

abbrev IsAvailableId : List Fields → Option String → Type 0
IsAvailableId actions none = Unit
IsAvailableId actions (some i) = mem i (ids_available actions) ≡ true

id_later :
    (i : String) (a : Fields) (rest : List Fields)
    → mem i (ids_available rest) ≡ true
    → mem i (ids_available (a ∷ rest)) ≡ true
id_later i a rest h = elim (Bool-cases (is_available a)) [
  | inr n ↦ rw n h
  | inl n ↦ rw n (cons (as_text (get "action_id" a)))
]
  where
    cons : (o : Option String) → mem i (id_cons o (ids_available rest)) ≡ true
    cons none = h
    cons (some j) = ground arith

id_of_later :
    (a : Fields) (rest : List Fields) (o : Option String)
    → IsAvailableId rest o
    → IsAvailableId (a ∷ rest) o
id_of_later a rest none h = tt
id_of_later a rest (some i) h = id_later i a rest h

id_here :
    (a : Fields) (rest : List Fields) (o later : Option String)
    → as_text (get "action_id" a) ≡ o
    → is_available a ≡ true
    → IsAvailableId rest later
    → IsAvailableId (a ∷ rest) (or_later o later)
id_here a rest none later e n h = id_of_later a rest later h
id_here a rest (some i) later e n h = rw (n, e) (ground (arith, str_eq_iff i i))

end_turn_in-IsAvailableId : (actions : List Fields) → IsAvailableId actions (end_turn_in actions)
end_turn_in-IsAvailableId [] = tt
end_turn_in-IsAvailableId (a ∷ rest) =
    elim (Bool-cases (is_available a && is_text (get "action_type" a) "system")) [
      | inl h ↦ rw h (
          id_here a rest (as_text (get "action_id" a)) (end_turn_in rest) refl (ground arith)
            (end_turn_in-IsAvailableId rest))
      | inr h ↦ rw h (id_of_later a rest (end_turn_in rest) (end_turn_in-IsAvailableId rest))
    ]

-- The End Turn action that is found is one of the available actions.
pub end_turn_action_id-mem :
    (dto : Fields) (i : String)
    → end_turn_action_id dto ≡ some i
    → mem i (available_action_ids dto) ≡ true
unfolding end_turn_action_id available_action_ids
end_turn_action_id-mem dto i h =
    subst (IsAvailableId (legal_action_mappings dto)) h
      (end_turn_in-IsAvailableId (legal_action_mappings dto))

-- A result that is resolved and carries a state has a terminal state or one that is searched on.
abbrev pub IsHandled : List String → Option Fields → Type 0
IsHandled allowed none = Unit
IsHandled allowed (some dto) =
    (is_terminal dto ≡ true) ⊎ (is_beam_searchable_for_client true dto allowed ≡ true)

abbrev pub IsHandledResult : List String → Option Fields → Type 0
IsHandledResult allowed none = Unit
IsHandledResult allowed (some result) =
    (is_resolved result ≡ false) ⊎ IsHandled allowed (as_mapping (get "masked_emulator_dto" result))

abbrev pub AllHandled : List String → Fields → Type 0
AllHandled allowed end = Unit
AllHandled allowed (field k v rest) =
    IsHandledResult allowed (as_mapping v) × AllHandled allowed rest

state-IsHandled :
    (allowed : List String) (o : Option Fields)
    → is_out_of_scope_state true allowed o ≡ false
    → IsHandled allowed o
unfolding is_whole_run_unresolved_out_of_scope
state-IsHandled allowed none h = tt
state-IsHandled allowed (some dto) h = elim (Bool-cases (is_terminal dto)) [
  | inl t ↦ inl t
  | inr t ↦ inr (ground arith)
]

result-IsHandled :
    (allowed : List String) (o : Option Fields)
    → is_out_of_scope_result true allowed o ≡ false
    → IsHandledResult allowed o
result-IsHandled allowed none h = tt
result-IsHandled allowed (some result) h = elim (Bool-cases (is_resolved result)) [
  | inl r ↦
      inr (state-IsHandled allowed (as_mapping (get "masked_emulator_dto" result)) (ground arith))
  | inr r ↦ inl r
]

handled-state :
    (allowed : List String) (o : Option Fields)
    → IsHandled allowed o
    → is_out_of_scope_state true allowed o ≡ false
unfolding is_whole_run_unresolved_out_of_scope
handled-state allowed none h = refl
handled-state allowed (some dto) (inl t) = rw t refl
handled-state allowed (some dto) (inr b) = elim (Bool-cases (is_terminal dto)) [
  | inl t ↦ rw t refl
  | inr t ↦ rw (t, b) refl
]

handled-result :
    (allowed : List String) (o : Option Fields)
    → IsHandledResult allowed o
    → is_out_of_scope_result true allowed o ≡ false
handled-result allowed none h = refl
handled-result allowed (some result) (inl r) = rw r refl
handled-result allowed (some result) (inr s) =
    let k = handled-state allowed (as_mapping (get "masked_emulator_dto" result)) s in
    ground (arith, k)

handled-results :
    (results : Fields) (allowed : List String)
    → AllHandled allowed results
    → has_unresolved_out_of_scope_result true results allowed ≡ false
unfolding has_unresolved_out_of_scope_result
handled-results end allowed h = refl
handled-results (field k v rest) allowed h =
    let here = handled-result allowed (as_mapping v) h.0 in
    let later = handled-results rest allowed h.1 in ground (arith, here, later)

unresolved-AllHandled :
    (results : Fields) (allowed : List String)
    → has_unresolved_out_of_scope_result true results allowed ≡ false
    → AllHandled allowed results
unfolding has_unresolved_out_of_scope_result
unresolved-AllHandled end allowed h = tt
unresolved-AllHandled (field k v rest) allowed h = (
  result-IsHandled allowed (as_mapping v) (ground arith),
  unresolved-AllHandled rest allowed (ground arith),
)

-- A Whole Run reports no unresolved result out of scope exactly when each of its results that is
-- completed or partial and carries a state has a terminal state or one that is searched on.
pub results-AllHandled :
    (results : Fields) (allowed : List String)
    → (has_unresolved_out_of_scope_result true results allowed ≡ false) ↔ AllHandled allowed results
results-AllHandled results allowed =
    (unresolved-AllHandled results allowed, handled-results results allowed)
