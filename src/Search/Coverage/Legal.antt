-- ===== src/Search/Coverage/Legal.antt =====
-- candidate_coverage.py: the required actions, their number and their types.
use sts2_training.Base.{
  ◌≡◌, inl, inr, ℕ, zero, suc, ◌≤◌, String, Bool, true, ◌&&◌, Option, none, some, List, [], ◌∷◌,
  length, take, mem, any, ltb, leb, Bool-cases, Option-cases, str_eq, str_eq_iff, arith, All,
}
use sts2_training.Search.Coverage.{Action, CandidateProposal, proposed, ids, by_id}
use sts2_training.Search.Coverage.Required.{
  has_type, first_of_types, best_or_first_id, has_some_type, push, wanted, dedupe,
  required_action_ids, completion_ids, potion_ids, is_regular_combat, system_type, card_type,
  potion_type, choice_card_type, completion_types,
}

-- Some legal action with the id is of one of the types.
abbrev pub offers : List Action → List String → String → Bool
offers available types i = any (λ a. str_eq i a.id && mem a.type types) available

offers-legal :
    (available : List Action) (types : List String) (i : String)
    → offers available types i ≡ true
    → mem i (ids available) ≡ true
offers-legal [] types i h = h
offers-legal (a ∷ rest) types i h = let ih = offers-legal rest types i in ground (arith, ih)

by_id-offers :
    (available : List Action) (types : List String) (i : String)
    → has_type types (by_id i available) ≡ true
    → offers available types i ≡ true
by_id-offers [] types i h = h
by_id-offers (a ∷ rest) types i h =
    let ih = by_id-offers rest types i in
    elim (Option-cases (by_id i rest)) [
      | inl e ↦ let k = rw e at h in ground (arith, str_eq_iff a.id i, str_eq_iff i a.id)
      | inr e ↦ ground (arith, ih, e.1)
    ]

abbrev pub OffersSome : List Action → List String → Option String → Type 0
OffersSome available types none = Unit
OffersSome available types (some i) = offers available types i ≡ true

offers_later :
    (a : Action) (rest : List Action) (types : List String) (o : Option String)
    → OffersSome rest types o
    → OffersSome (a ∷ rest) types o
offers_later a rest types none h = tt
offers_later a rest types (some i) h = ground arith

first_of_types-offers :
    (types : List String) (available : List Action)
    → OffersSome available types (first_of_types types available)
first_of_types-offers types [] = tt
first_of_types-offers types (a ∷ rest) = elim (Bool-cases (mem a.type types)) [
  | inl h ↦ rw h (ground (arith, str_eq_iff a.id a.id))
  | inr h ↦
      rw h
        (offers_later a rest types (first_of_types types rest) (first_of_types-offers types rest))
]

pub best_or_first_id-offers :
    (selected : List CandidateProposal) (available : List Action) (types : List String)
    → OffersSome available types (best_or_first_id selected available types)
best_or_first_id-offers [] available types = first_of_types-offers types available
best_or_first_id-offers (p ∷ ps) available types =
    elim (Bool-cases (has_type types (by_id (proposed p) available))) [
      | inl h ↦ rw h (by_id-offers available types (proposed p) h)
      | inr h ↦ rw h (best_or_first_id-offers ps available types)
    ]

abbrev AllLegal : List Action → List String → Type 0
AllLegal available is = All (λ i. mem i (ids available) ≡ true) is

push-AllLegal :
    (available : List Action) (types : List String) (o : Option String) (rest : List String)
    → OffersSome available types o
    → AllLegal available rest
    → AllLegal available (push o rest)
push-AllLegal available types none rest h k = k
push-AllLegal available types (some i) rest h k = (offers-legal available types i h, k)

dedupe-All : (P : String → Type 0) (seen is : List String) → All P is → All P (dedupe seen is)
dedupe-All P seen [] h = tt
dedupe-All P seen (i ∷ rest) h = elim (Bool-cases (mem i seen)) [
  | inl e ↦ rw e (dedupe-All P seen rest h.1)
  | inr e ↦ rw e (h.0, dedupe-All P (i ∷ seen) rest h.1)
]

take-All : (P : String → Type 0) (k : ℕ) (is : List String) → All P is → All P (take k is)
take-All P zero is h = tt
take-All P (suc k) [] h = tt
take-All P (suc k) (i ∷ is) h = (h.0, take-All P k is h.1)

length-take : (k : ℕ) (is : List String) → length (take k is) ≤ k
length-take zero is = omega arith
length-take (suc k) [] = omega arith
length-take (suc k) (i ∷ is) = let ih = length-take k is in omega arith

module _ (selected : List CandidateProposal) (available : List Action) (top_k : ℕ) where
  best-AllLegal :
      (types rest : List String)
      → AllLegal available rest
      → AllLegal available (push (best_or_first_id selected available types) rest)
  best-AllLegal types rest h =
      push-AllLegal available types (best_or_first_id selected available types) rest
        (best_or_first_id-offers selected available types) h

  completion_ids-AllLegal : AllLegal available (completion_ids selected available)
  completion_ids-AllLegal = elim (Bool-cases (has_some_type (choice_card_type ∷ []) available)) [
    | inl h ↦ rw h (best-AllLegal completion_types [] tt)
    | inr h ↦ rw h tt
  ]

  potion_ids-AllLegal :
      (rest : List String)
      → AllLegal available rest
      → AllLegal available (potion_ids selected available top_k rest)
  potion_ids-AllLegal rest k = elim (Bool-cases (leb 3 top_k)) [
    | inl h ↦ rw h (best-AllLegal (potion_type ∷ []) rest k)
    | inr h ↦ rw h k
  ]

  wanted-AllLegal : AllLegal available (wanted selected available top_k)
  unfolding wanted
  wanted-AllLegal = elim (Bool-cases (is_regular_combat available)) [
    | inl h ↦ rw h (
        best-AllLegal (system_type ∷ []) _ (
          best-AllLegal (card_type ∷ []) _
            (potion_ids-AllLegal (completion_ids selected available) completion_ids-AllLegal)))
    | inr h ↦ rw h completion_ids-AllLegal
  ]

  pub required_action_ids-AllLegal :
      All (λ i. mem i (ids available) ≡ true) (required_action_ids selected available top_k)
  unfolding required_action_ids
  required_action_ids-AllLegal = elim (Bool-cases (ltb top_k 2)) [
    | inl h ↦ rw h tt
    | inr h ↦ rw h (take-All _ top_k _ (dedupe-All _ [] _ wanted-AllLegal))
  ]

  pub length-required_action_ids : length (required_action_ids selected available top_k) ≤ top_k
  unfolding required_action_ids
  length-required_action_ids = elim (Bool-cases (ltb top_k 2)) [
    | inl h ↦ rw h (omega arith)
    | inr h ↦ rw h (length-take top_k (dedupe [] (wanted selected available top_k)))
  ]
