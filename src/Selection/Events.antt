-- ===== src/Selection/Events.antt =====
-- src/sts2_training/selection/event_choice_heuristic.py: never choose a lethal event option while
-- there is another.
use sts2_training.Base.{
  ◌≡◌, inl, inr, refl, sym, subst, ◌∙◌, Bool, true, false, not, Option, none, some, List, [], ◌∷◌,
  Bool-cases, arith, All, any,
}
use mathlib.Core.Bool.{false≢true}
use sts2_training.Json.{Fields, get, as_mapping, is_true}
use sts2_training.Selection.Actions.{keep, actions_of_type, choice_event_option}

abbrev kills : Option Fields → Bool
kills none = false
kills (some parameters) = is_true (get "willKillPlayer" parameters)

-- _is_confirmed_lethal
unfoldable pub is_confirmed_lethal : Fields → Bool
is_confirmed_lethal action = kills (as_mapping (get "parameters" action))

abbrev pub is_safe : Fields → Bool
unfolding is_confirmed_lethal
is_safe action = not (is_confirmed_lethal action)

abbrev or_all : List Fields → List Fields → List Fields
or_all [] all_options = all_options
or_all (a ∷ rest) all_options = a ∷ rest

-- safe_event_option_candidates
unfoldable pub safe_event_option_candidates : List Fields → List Fields
unfolding actions_of_type is_safe
safe_event_option_candidates actions =
    let options = actions_of_type actions choice_event_option in
    or_all (keep is_safe options) options

keep-All : (test : Fields → Bool) (xs : List Fields) → All (λ a. test a ≡ true) (keep test xs)
keep-All test [] = tt
keep-All test (a ∷ rest) = elim (Bool-cases (test a)) [
  | inl e ↦ rw e (e, keep-All test rest)
  | inr e ↦ rw e (keep-All test rest)
]

keep-any : (test : Fields → Bool) (xs : List Fields) → keep test xs ≡ [] → any test xs ≡ false
keep-any test [] h = refl
keep-any test (a ∷ rest) h = elim (Bool-cases (test a)) [
  | inl e ↦ absurd (cons_nil (rw e at h))
  | inr e ↦ rw e (keep-any test rest (rw e at h))
]
  where
    cons_nil : {a : Fields} {xs : List Fields} → a ∷ xs ≡ [] → ⊥
    cons_nil h = cc

keep-nil : (test : Fields → Bool) (xs : List Fields) → any test xs ≡ false → keep test xs ≡ []
keep-nil test [] h = refl
keep-nil test (a ∷ rest) h = elim (Bool-cases (test a)) [
  | inl e ↦ absurd (false≢true (sym h ∙ ground arith))
  | inr e ↦ rw e (keep-nil test rest (ground arith))
]

none_kept :
    (options kept : List Fields)
    → keep is_safe options ≡ kept
    → (any is_safe options ≡ true → All (λ a. is_safe a ≡ true) (or_all kept options))
      × (any is_safe options ≡ false → or_all kept options ≡ options)
none_kept options [] e =
    (λ h. absurd (false≢true (sym (keep-any is_safe options e) ∙ h)), λ h. refl)
none_kept options (a ∷ kept) e = (
  λ h. subst (λ xs. All (λ a. is_safe a ≡ true) xs) e (keep-All is_safe options),
  λ h. absurd (nil_cons (sym (keep-nil is_safe options h) ∙ e)),
)
  where
    nil_cons : {a : Fields} {xs : List Fields} → [] ≡ a ∷ xs → ⊥
    nil_cons h = cc

-- Where some available event option is not confirmed lethal, no candidate is; where all are, the
-- candidates are all the available event options.
pub safe_event_option_candidates_lem :
    (actions : List Fields)
    → (any is_safe (actions_of_type actions choice_event_option) ≡ true
        → All (λ a. is_safe a ≡ true) (safe_event_option_candidates actions))
      × (any is_safe (actions_of_type actions choice_event_option) ≡ false
          → safe_event_option_candidates actions ≡ actions_of_type actions choice_event_option)
unfolding safe_event_option_candidates
safe_event_option_candidates_lem actions =
    none_kept (actions_of_type actions choice_event_option) _ refl
