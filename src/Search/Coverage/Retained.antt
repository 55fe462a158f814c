-- ===== src/Search/Coverage/Retained.antt =====
-- candidate_coverage.py: the kinds of action among the proposals.
use sts2_training.Base.{
  ◌≡◌, ◌⊎◌, refl, sym, subst, inl, inr, ℕ, zero, suc, String, Bool, true, false, ◌||◌, Option, none,
  some, List, [], ◌∷◌, take, mem, any, ltb, leb, Bool-cases, str_eq, str_eq_iff, arith, All,
}
use sts2_training.Base.Outcome.{ok}
use sts2_training.Json.{Fields}
use sts2_training.Search.Coverage.{
  Action, ActionCandidate, CandidateProposal, proposed, proposed_ids, by_id, available_of,
}
use sts2_training.Search.Coverage.Required.{
  has_type, first_of_types, best_or_first_id, has_some_type, push, wanted, dedupe,
  required_action_ids, is_regular_combat, system_type, card_type, potion_type, choice_card_type,
  completion_types,
}
use sts2_training.Search.Coverage.Apply.{apply_structural_coverage_with_provenance}
use sts2_training.Search.Coverage.Legal.{offers, OffersSome, best_or_first_id-offers}
use sts2_training.Search.Coverage.Sound.{apply-IsCovered}

mem-take :
    (j : String) (k : ℕ) (xs : List String)
    → mem j (take k xs) ≡ true
    → mem j (take (suc k) xs) ≡ true
mem-take j zero xs h = cc
mem-take j (suc k) [] h = h
mem-take j (suc k) (x ∷ xs) h = let ih = mem-take j k xs in ground (arith, ih)

-- What stands among the first k stays there when repetitions are removed.
mem-dedupe :
    (j : String) (k : ℕ) (seen xs : List String)
    → mem j (take k xs) ≡ true
    → (mem j seen || mem j (take k (dedupe seen xs))) ≡ true
mem-dedupe j zero seen xs h = cc
mem-dedupe j (suc k) seen [] h = cc
mem-dedupe j (suc k) seen (x ∷ xs) h =
    let skip = mem-dedupe j k seen xs in
    let keep = mem-dedupe j k (x ∷ seen) xs in
    let more = mem-take j k (dedupe seen xs) in ground (arith, skip, keep, more, str_eq_iff j x)

-- Some proposal is of one of the types.
abbrev pub proposes : List Action → List String → List String → Bool
proposes available types is = any (λ i. offers available types i) is

proposes-mem :
    (available : List Action) (types : List String) (i : String) (is : List String)
    → offers available types i ≡ true
    → mem i is ≡ true
    → proposes available types is ≡ true
proposes-mem available types i [] o h = h
proposes-mem available types i (j ∷ is) o h = elim (Bool-cases (str_eq i j)) [
  | inl e ↦ let k = rw ((str_eq_iff i j).0 e) at o in ground (arith, k)
  | inr e ↦ let ih = proposes-mem available types i is o in ground (arith, ih)
]

All-mem : (P : String → Type 0) (i : String) (xs : List String) → All P xs → mem i xs ≡ true → P i
All-mem P i [] a h = cc
All-mem P i (x ∷ xs) a h = elim (Bool-cases (str_eq i x)) [
  | inl e ↦ subst P (sym ((str_eq_iff i x).0 e)) a.0
  | inr e ↦ All-mem P i xs a.1 (ground arith)
]

first_of_types-some :
    (types : List String) (available : List Action)
    → has_some_type types available ≡ true
    → (i : String) × (first_of_types types available ≡ some i)
first_of_types-some types [] h = cc
first_of_types-some types (a ∷ rest) h = elim (Bool-cases (mem a.type types)) [
  | inl e ↦ rw e (a.id, refl)
  | inr e ↦ rw e (first_of_types-some types rest (ground arith))
]

best_or_first_id-some :
    (selected : List CandidateProposal) (available : List Action) (types : List String)
    → has_some_type types available ≡ true
    → (i : String) × (best_or_first_id selected available types ≡ some i)
best_or_first_id-some [] available types h = first_of_types-some types available h
best_or_first_id-some (p ∷ ps) available types h =
    elim (Bool-cases (has_type types (by_id (proposed p) available))) [
      | inl e ↦ rw e (proposed p, refl)
      | inr e ↦ rw e (best_or_first_id-some ps available types h)
    ]

first_taken :
    (i : String) (k : ℕ) (o : Option String) (rest : List String)
    → o ≡ some i
    → mem i (take (suc k) (push o rest)) ≡ true
first_taken i k o rest h = rw h (ground (arith, str_eq_iff i i))

later_taken :
    (i : String) (k : ℕ) (o : Option String) (rest : List String)
    → mem i (take k rest) ≡ true
    → mem i (take (suc k) (push o rest)) ≡ true
later_taken i k none rest h = mem-take i k rest h
later_taken i k (some j) rest h = ground arith

module _ (selected : List CandidateProposal) (available : List Action)
    (ps : List CandidateProposal) where
  abbrev best : List String → Option String
  best types = best_or_first_id selected available types

  required-mem :
      (i : String) (k : ℕ)
      → mem i (take (suc (suc k)) (wanted selected available (suc (suc k)))) ≡ true
      → mem i (required_action_ids selected available (suc (suc k))) ≡ true
  unfolding required_action_ids
  required-mem i k h =
      let few : ltb (suc (suc k)) 2 ≡ false = ground arith in
      rw few (mem-dedupe i (suc (suc k)) [] (wanted selected available (suc (suc k))) h)

  -- A type whose best action is among the first that are wanted is proposed.
  kind_proposed :
      (types : List String) (k : ℕ)
      → All
          (λ i. mem i (proposed_ids ps) ≡ true)
          (required_action_ids selected available (suc (suc k)))
      → ((i : String)
          → best types ≡ some i
          → mem i (take (suc (suc k)) (wanted selected available (suc (suc k)))) ≡ true)
      → has_some_type types available ≡ true
      → proposes available types (proposed_ids ps) ≡ true
  kind_proposed types k r w h =
      let b = best_or_first_id-some selected available types h in
      let o =
        subst (OffersSome available types) b.1 (best_or_first_id-offers selected available types) in
      proposes-mem available types b.0 (proposed_ids ps) o (
        All-mem (λ i. mem i (proposed_ids ps) ≡ true) b.0
          (required_action_ids selected available (suc (suc k))) r (required-mem b.0 k (w b.0 b.1)))

  system_wanted :
      (i : String) (k : ℕ)
      → is_regular_combat available ≡ true
      → best (system_type ∷ []) ≡ some i
      → mem i (take (suc (suc k)) (wanted selected available (suc (suc k)))) ≡ true
  unfolding wanted
  system_wanted i k h b = rw h (first_taken i (suc k) (best (system_type ∷ [])) _ b)

  card_wanted :
      (i : String) (k : ℕ)
      → is_regular_combat available ≡ true
      → best (card_type ∷ []) ≡ some i
      → mem i (take (suc (suc k)) (wanted selected available (suc (suc k)))) ≡ true
  unfolding wanted
  card_wanted i k h b = rw h (
      later_taken i (suc k) (best (system_type ∷ [])) _
        (first_taken i k (best (card_type ∷ [])) _ b))

  potion_wanted :
      (i : String) (k : ℕ)
      → is_regular_combat available ≡ true
      → best (potion_type ∷ []) ≡ some i
      → mem i (take (suc (suc (suc k))) (wanted selected available (suc (suc (suc k))))) ≡ true
  unfolding wanted
  potion_wanted i k h b =
      let three : leb 3 (suc (suc (suc k))) ≡ true = ground arith in
      rw (h, three)
        (later_taken i (suc (suc k)) (best (system_type ∷ [])) _ (
          later_taken i (suc k) (best (card_type ∷ [])) _
            (first_taken i k (best (potion_type ∷ [])) _ b)))

  completion_wanted :
      (i : String) (k : ℕ)
      → is_regular_combat available ≡ false
      → has_some_type (choice_card_type ∷ []) available ≡ true
      → best completion_types ≡ some i
      → mem i (take (suc (suc k)) (wanted selected available (suc (suc k)))) ≡ true
  unfolding wanted
  completion_wanted i k h c b = rw (h, c) (first_taken i (suc k) (best completion_types) [] b)

-- An available action of the type, if any, has a proposal.
abbrev pub Keeps : List Action → List String → List CandidateProposal → Type 0
Keeps available types ps =
    (has_some_type types available ≡ false) ⊎ (proposes available types (proposed_ids ps) ≡ true)

keeps :
    (available : List Action) (types : List String) (ps : List CandidateProposal)
    → (has_some_type types available ≡ true → proposes available types (proposed_ids ps) ≡ true)
    → Keeps available types ps
keeps available types ps f = elim (Bool-cases (has_some_type types available)) [
  | inl h ↦ inr (f h)
  | inr h ↦ inl h
]

module _ (ranked : List ActionCandidate) (legal_actions : List Fields) (k : ℕ)
    (ps : List CandidateProposal) where
  -- In ordinary combat, with room for two, an action that ends the turn and a card, if they are
  -- available, are among the proposals, whatever the policy ranks.
  pub apply-Keeps_combat :
      apply_structural_coverage_with_provenance ranked legal_actions (suc (suc k)) ≡ ok ps
      → is_regular_combat (available_of legal_actions) ≡ true
      → Keeps (available_of legal_actions) (system_type ∷ []) ps
        × Keeps (available_of legal_actions) (card_type ∷ []) ps
  apply-Keeps_combat h r =
      let c = apply-IsCovered ranked legal_actions (suc (suc k)) ps h in
      (
        keeps _ (system_type ∷ []) ps (
            kind_proposed c.0 _ ps (system_type ∷ []) k c.1.retained
              (λ i. system_wanted c.0 _ ps i k r)),
        keeps _ (card_type ∷ []) ps (
            kind_proposed c.0 _ ps (card_type ∷ []) k c.1.retained
              (λ i. card_wanted c.0 _ ps i k r)),
      )

  -- In ordinary combat, which offers an action that ends the turn and a card or a potion, with room for
  -- three, a potion, if one is available, is among the proposals.
  pub apply-Keeps_potion :
      apply_structural_coverage_with_provenance ranked legal_actions (suc (suc (suc k))) ≡ ok ps
      → is_regular_combat (available_of legal_actions) ≡ true
      → Keeps (available_of legal_actions) (potion_type ∷ []) ps
  apply-Keeps_potion h r =
      let c = apply-IsCovered ranked legal_actions (suc (suc (suc k))) ps h in
      keeps _ (potion_type ∷ []) ps (
        kind_proposed c.0 _ ps (potion_type ∷ []) (suc k) c.1.retained
          (λ i. potion_wanted c.0 _ ps i k r))

  -- Where it is not ordinary combat and a choice of cards is offered, with room for two, an action that completes the
  -- choice, if one is available, is among the proposals.
  pub apply-Keeps_completion :
      apply_structural_coverage_with_provenance ranked legal_actions (suc (suc k)) ≡ ok ps
      → is_regular_combat (available_of legal_actions) ≡ false
      → has_some_type (choice_card_type ∷ []) (available_of legal_actions) ≡ true
      → Keeps (available_of legal_actions) completion_types ps
  apply-Keeps_completion h r t =
      let c = apply-IsCovered ranked legal_actions (suc (suc k)) ps h in
      keeps _ completion_types ps (
        kind_proposed c.0 _ ps completion_types k c.1.retained
          (λ i. completion_wanted c.0 _ ps i k r t))
