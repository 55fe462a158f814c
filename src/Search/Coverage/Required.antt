-- ===== src/Search/Coverage/Required.antt =====
-- candidate_coverage.py: the actions that must be tried whatever the ranking.
use sts2_training.Base.{
  ℕ, String, Bool, false, ◌&&◌, Option, none, some, List, [], ◌∷◌, take, any, mem, leb, ltb,
  if◌then◌else◌,
}
use sts2_training.Search.Coverage.{Action, CandidateProposal, proposed, by_id}

abbrev pub system_type : String
system_type = "system"

abbrev pub card_type : String
card_type = "card"

abbrev pub potion_type : String
potion_type = "potion"

abbrev pub choice_card_type : String
choice_card_type = "choice_card"

-- the types that complete a pending choice
abbrev pub completion_types : List String
completion_types = "choice_confirm" ∷ "choice_skip" ∷ []

abbrev pub has_type : List String → Option Action → Bool
has_type types none = false
has_type types (some a) = mem a.type types

abbrev pub first_of_types : List String → List Action → Option String
first_of_types types [] = none
first_of_types types (a ∷ rest) =
    let later = first_of_types types rest in if mem a.type types then some a.id else later

-- _best_or_first_id
abbrev pub best_or_first_id : List CandidateProposal → List Action → List String → Option String
best_or_first_id [] available types = first_of_types types available
best_or_first_id (p ∷ ps) available types =
    let later = best_or_first_id ps available types in
    if has_type types (by_id (proposed p) available) then some (proposed p) else later

abbrev pub has_some_type : List String → List Action → Bool
has_some_type types available = any (λ a. mem a.type types) available

abbrev pub is_regular_combat : List Action → Bool
is_regular_combat available =
    has_some_type (system_type ∷ []) available
    && has_some_type (card_type ∷ potion_type ∷ []) available

abbrev pub push : Option String → List String → List String
push none rest = rest
push (some i) rest = i ∷ rest

abbrev pub completion_ids : List CandidateProposal → List Action → List String
completion_ids selected available =
    if has_some_type (choice_card_type ∷ []) available
    then push (best_or_first_id selected available completion_types) []
    else []

abbrev pub potion_ids : List CandidateProposal → List Action → ℕ → List String → List String
potion_ids selected available top_k rest =
    if leb 3 top_k then push (best_or_first_id selected available (potion_type ∷ [])) rest else rest

-- the ids before the removal of repetitions
unfoldable pub wanted : List CandidateProposal → List Action → ℕ → List String
wanted selected available top_k =
    let rest = completion_ids selected available in
    if is_regular_combat available
    then push (best_or_first_id selected available (system_type ∷ [])) (
        push (best_or_first_id selected available (card_type ∷ []))
          (potion_ids selected available top_k rest))
    else rest

-- each id once, where it stands first
abbrev pub dedupe : List String → List String → List String
dedupe seen [] = []
dedupe seen (i ∷ rest) =
    let skipped = dedupe seen rest in
    let kept = dedupe (i ∷ seen) rest in if mem i seen then skipped else i ∷ kept

-- _required_action_ids
unfoldable pub required_action_ids : List CandidateProposal → List Action → ℕ → List String
unfolding wanted
required_action_ids selected available top_k =
    if ltb top_k 2 then [] else take top_k (dedupe [] (wanted selected available top_k))
