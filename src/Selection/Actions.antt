-- ===== src/Selection/Actions.antt =====
-- src/sts2_training/selection/action_classification.py: the legal actions by their action_type.
pub mod Grouped
use sts2_training.Base.{
  String, Bool, true, false, not, ◌&&◌, List, [], ◌∷◌, ◌++◌, if◌then◌else◌, Option, none, some,
}
use sts2_training.Base.Outcome.{Result, ok, err, guard, ◌>>=◌, ◌>>◌}
use sts2_training.Json.{Fields, Value, bool, str, get, hashable, py_eq}
use sts2_training.Api.Errors.{Exc, type_error}

-- v is False
abbrev is_false : Value → Bool
is_false (bool false) = true
is_false _ = false

abbrev pub is_available : Fields → Bool
is_available action = not (is_false (get "is_available" action))

abbrev pub keep : (Fields → Bool) → List Fields → List Fields
keep test [] = []
keep test (a ∷ rest) = if test a then a ∷ keep test rest else keep test rest

-- available_actions
abbrev pub available_actions : List Fields → List Fields
available_actions actions = keep is_available actions

abbrev pub has_type : String → Fields → Bool
has_type action_type action = py_eq (get "action_type" action) (str action_type)

-- _actions_of_type
unfoldable pub actions_of_type : List Fields → String → List Fields
actions_of_type actions action_type = keep (has_type action_type) (available_actions actions)

-- choice_event_option_actions
abbrev pub choice_event_option : String
choice_event_option = "choice_event_option"

-- A dict from action types to groups, in insertion order.
abbrev pub Groups : Type 0
Groups = List (Value × List Fields)

-- groups.setdefault(action_type, []).append(action)
unfoldable pub add_to_group : Value → Fields → Groups → Groups
add_to_group v a [] = (v, a ∷ []) ∷ []
add_to_group v a ((k, group) ∷ rest) =
    if py_eq k v then (k, group ++ a ∷ []) ∷ rest else (k, group) ∷ add_to_group v a rest

-- the loop of group_by_action_type; a key that cannot be hashed raises TypeError
unfoldable pub group_all : Groups → List Fields → Result Exc Groups
unfolding add_to_group
group_all groups [] = ok groups
group_all groups (a ∷ rest) = do
  guard (hashable (get "action_type" a)) type_error
  group_all (add_to_group (get "action_type" a) a groups) rest

-- group_by_action_type
unfoldable pub group_by_action_type : List Fields → Result Exc Groups
unfolding group_all
group_by_action_type actions = group_all [] (available_actions actions)

-- groups.get(action_type, [])
unfoldable pub group_of : String → Groups → List Fields
group_of t [] = []
group_of t ((k, group) ∷ rest) = if py_eq k (str t) then group else group_of t rest
