-- ===== src/Selection/Choices.antt =====
-- src/sts2_training/selection/choice_semantics.py: the public description of a pending card choice.
-- The pattern of an opaque token is matched by Python's re module, a parameter.
pub mod Sound
use sts2_training.Base.{
  ℕ, String, Bool, true, false, not, ◌&&◌, ◌||◌, ◌==◌, Option, none, some, List, [], ◌∷◌, length,
  all, mem, distinct, if◌then◌else◌, str_eq,
}
use sts2_training.Base.Int.{ℤ, pos, negsuc}
use sts2_training.Json.{
  Fields, Items, Value, null, bool, int, str, get, to_list, as_int, as_mapping, as_items,
}
use sts2_training.Api.Errors.{is_one_of}

abbrev pub choice_operations : List String
choice_operations =
    "gain" ∷ "discard" ∷ "exhaust" ∷ "upgrade" ∷ "retrieve" ∷ "play" ∷ "replay" ∷ "remove"
    ∷ "transform" ∷ "unknown" ∷ []

abbrev pub choice_effects : List String
choice_effects = "move" ∷ "modify" ∷ "play" ∷ "replace" ∷ []

abbrev pub choice_zones : List String
choice_zones =
    "hand" ∷ "draw" ∷ "draw_pile" ∷ "discard" ∷ "discard_pile" ∷ "exhaust" ∷ "exhaust_pile" ∷ "play"
    ∷ "play_pile" ∷ "deck" ∷ "master_deck" ∷ "reward" ∷ "generated" ∷ "none" ∷ "unknown" ∷ []

abbrev pub choice_modifiers : List String
choice_modifiers = "upgrade" ∷ []

-- ChoiceCardSemantics, whose version is always 1
pub record Semantics : Type 0 where
  pub operation : String
  pub effect : Option String
  pub source_zone : Option String
  pub destination_zone : Option String
  pub modifier : Option String
  pub order_matters : Option Bool
  pub replacement_allowed : Option Bool

abbrev pub unknown : Semantics
unknown = record {
  operation = "unknown";
  effect = none;
  source_zone = none;
  destination_zone = none;
  modifier = none;
  order_matters = none;
  replacement_allowed = none;
}

-- _enum_or_none, where the outer `none` is the ValueError
abbrev pub enum_or_none : Value → List String → Option (Option String)
enum_or_none null allowed = some none
enum_or_none (str s) allowed = if mem s allowed then some (some s) else none
enum_or_none v allowed = none

-- _bool_or_none
abbrev pub bool_or_none : Value → Option (Option Bool)
bool_or_none null = some none
bool_or_none (bool b) = some (some b)
bool_or_none v = none

abbrev is_version : Option ℤ → Bool
is_version (some (pos n)) = n == 1
is_version v = false

abbrev pub all_parsed :
    String
    → Option (Option String)
    → Option (Option String)
    → Option (Option String)
    → Option (Option String)
    → Option (Option Bool)
    → Option (Option Bool)
    → Semantics
all_parsed operation (some e) (some s) (some d) (some m) (some o) (some r) = record {
  operation = operation;
  effect = e;
  source_zone = s;
  destination_zone = d;
  modifier = m;
  order_matters = o;
  replacement_allowed = r;
}
all_parsed operation e s d m o r = unknown

abbrev pub accepts : Fields → String → Bool
accepts raw operation =
    is_version (as_int (get "version" raw))
    && mem operation choice_operations
    && not (str_eq operation "unknown")

abbrev pub parse_fields : Fields → Value → Semantics
parse_fields raw (str operation) =
    if accepts raw operation
    then all_parsed operation (enum_or_none (get "effect" raw) choice_effects)
        (enum_or_none (get "sourceZone" raw) choice_zones)
        (enum_or_none (get "destinationZone" raw) choice_zones)
        (enum_or_none (get "modifier" raw) choice_modifiers) (bool_or_none (get "orderMatters" raw))
        (bool_or_none (get "replacementAllowed" raw))
    else unknown
parse_fields raw v = unknown

abbrev pub parse_mapping : Option Fields → Semantics
parse_mapping none = unknown
parse_mapping (some raw) = parse_fields raw (get "operation" raw)

-- parse_choice_semantics
unfoldable pub parse_choice_semantics : Value → Semantics
parse_choice_semantics raw = parse_mapping (as_mapping raw)

-- is_known
abbrev pub is_known : Semantics → Bool
is_known s = not (str_eq s.operation "unknown")

pub record Context : Type 0 where
  pub semantics : Semantics
  pub source_effect_id : Option String
  pub selected_option_ids : List String
  pub option_ids : List String
  pub identity_valid : Bool

abbrev pub counts : Option ℤ → ℕ → Bool
counts (some (pos k)) n = k == n
counts v n = false

abbrev pub disjoint : List String → List String → Bool
disjoint xs ys = all (λ x. not (mem x ys)) xs

-- the ids that could be read, and whether all could
abbrev pub collect : List (Option String) → List String × Bool
collect [] = ([], true)
collect (none ∷ rest) = ((collect rest).0, false)
collect (some s ∷ rest) = (s ∷ (collect rest).0, (collect rest).1)

module _ (is_opaque : String → Bool) where
  -- _token_or_none
  abbrev pub token_or_none : Value → Option String
  token_or_none (str s) = if is_opaque s then some s else none
  token_or_none v = none

  abbrev pub tokens_of : List Value → List (Option String)
  tokens_of [] = []
  tokens_of (v ∷ rest) = token_or_none v ∷ tokens_of rest

  -- _token_sequence
  abbrev pub token_sequence : Option Items → List String × Bool
  token_sequence none = ([], false)
  token_sequence (some items) = collect (tokens_of (to_list items))

  abbrev pub option_token : Option Fields → Option String
  option_token none = none
  option_token (some option) = token_or_none (get "optionId" option)

  abbrev pub option_tokens : List Value → List (Option String)
  option_tokens [] = []
  option_tokens (v ∷ rest) = option_token (as_mapping v) ∷ option_tokens rest

  -- _option_id_sequence
  abbrev pub option_id_sequence : Option Items → List String × Bool
  option_id_sequence none = ([], false)
  option_id_sequence (some items) = collect (option_tokens (to_list items))

  abbrev pub context_of : Fields → Semantics → List String × Bool → List String × Bool → Context
  context_of pending semantics (selected, selected_valid) (options, options_valid) = record {
    semantics = semantics;
    source_effect_id =
        if is_known semantics then token_or_none (get "sourceEffectId" pending) else none;
    selected_option_ids = selected;
    option_ids = options;
    identity_valid =
        selected_valid
        && options_valid
        && counts (as_int (get "selectedCount" pending)) (length selected)
        && distinct selected
        && distinct options
        && disjoint selected options;
  }

  abbrev pub context_if : Option Fields → Option Context
  unfolding parse_choice_semantics
  context_if none = none
  context_if (some pending) = some (
      context_of pending (parse_choice_semantics (get "choiceSemantics" pending))
        (token_sequence (as_items (get "selectedOptionIds" pending)))
        (option_id_sequence (as_items (get "options" pending))))

  -- pending_choice_context
  unfoldable pub pending_choice_context : Fields → Option Context
  unfolding context_if
  pending_choice_context dto = context_if (as_mapping (get "pendingChoice" dto))

  abbrev id_if : Bool → Option Fields → Option String
  id_if true (some parameters) = token_or_none (get "optionId" parameters)
  id_if b parameters = none

  -- choice_option_id
  unfoldable pub choice_option_id : Fields → Option String
  choice_option_id action =
      id_if (is_one_of (get "action_type" action) ("choice_card" ∷ []))
        (as_mapping (get "parameters" action))
