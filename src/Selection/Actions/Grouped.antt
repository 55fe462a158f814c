-- ===== src/Selection/Actions/Grouped.antt =====
-- The groups of action_classification.py are those that the filter by type gives.
use sts2_training.Base.{
  ◌≡◌, inl, inr, refl, sym, ap, ◌∙◌, subst, String, Bool, true, false, List, [], ◌∷◌, ◌++◌,
  if◌then◌else◌, Bool-cases, arith, str_eq_iff,
}
use sts2_training.Base.Outcome.{ok, guard, >>=-eq-ok, ok-injective}
use mathlib.Core.Bool.{false≢true}
use sts2_training.Json.{Fields, Value, str, get, py_eq, py_eq_str, hashable}
use sts2_training.Api.Errors.{type_error}
use sts2_training.Selection.Actions.{
  keep, available_actions, has_type, actions_of_type, Groups, add_to_group, group_all,
  group_by_action_type, group_of,
}

abbrev and_if : Bool → Fields → List Fields → List Fields
and_if b a group = if b then group ++ a ∷ [] else group

str_py_eq : (t : String) (v : Value) → py_eq (str t) v ≡ py_eq v (str t)
unfolding py_eq
str_py_eq t (str s) = ground (arith, str_eq_iff t s, str_eq_iff s t)
str_py_eq t v = ground arith

-- The other key of a group for t is t itself.
key_of_text : (t : String) (k v : Value) → py_eq k (str t) ≡ true → py_eq k v ≡ py_eq v (str t)
key_of_text t k v h = rw (py_eq_str k t h) (str_py_eq t v)

key_of_other :
    (t : String) (k v : Value)
    → py_eq k (str t) ≡ false
    → py_eq k v ≡ true
    → py_eq v (str t) ≡ false
key_of_other t k v h e = elim (Bool-cases (py_eq v (str t))) [
  | inl p ↦ absurd (false≢true (sym h ∙ subst (λ w. py_eq k w ≡ true) (py_eq_str v t p) e))
  | inr p ↦ p
]

group_of-add_to_group :
    (t : String) (v : Value) (a : Fields) (groups : Groups)
    → group_of t (add_to_group v a groups) ≡ and_if (py_eq v (str t)) a (group_of t groups)
unfolding group_of add_to_group
group_of-add_to_group t v a [] = ground arith
group_of-add_to_group t v a ((k, g) ∷ rest) = elim (Bool-cases (py_eq k (str t))) [
  | inl p ↦ elim (Bool-cases (py_eq k v)) [
    | inl q ↦ rw (q, sym (key_of_text t k v p) ∙ q, p)
    | inr q ↦ rw (q, sym (key_of_text t k v p) ∙ q, p)
  ]
  | inr p ↦ elim (Bool-cases (py_eq k v)) [
    | inl q ↦ rw (q, key_of_other t k v p q, p)
    | inr q ↦ rw (q, p) (group_of-add_to_group t v a rest)
  ]
]

++_assoc : (xs : List Fields) (a : Fields) (ys : List Fields) → (xs ++ a ∷ []) ++ ys ≡ xs ++ a ∷ ys
++_assoc [] a ys = refl
++_assoc (x ∷ xs) a ys = ap (λ zs. x ∷ zs) (++_assoc xs a ys)

++_nil : (xs : List Fields) → xs ++ [] ≡ xs
++_nil [] = refl
++_nil (x ∷ xs) = ap (λ zs. x ∷ zs) (++_nil xs)

and_if-append :
    (b : Bool) (a : Fields) (xs ys : List Fields)
    → and_if b a xs ++ ys ≡ xs ++ (if b then a ∷ ys else ys)
and_if-append true a xs ys = ++_assoc xs a ys
and_if-append false a xs ys = refl

group_all-keep :
    (t : String) (groups out : Groups) (actions : List Fields)
    → group_all groups actions ≡ ok out
    → group_of t out ≡ group_of t groups ++ keep (has_type t) actions
unfolding group_all
group_all-keep t groups out [] h =
    subst (λ g. group_of t g ≡ group_of t groups ++ []) (ok-injective h)
      (sym (++_nil (group_of t groups)))
group_all-keep t groups out (a ∷ rest) h =
    let v = get "action_type" a in
    let (_, _, h₁) = >>=-eq-ok (guard (hashable v) type_error) _ h in
    group_all-keep t (add_to_group v a groups) out rest h₁
    ∙ ap (λ g. g ++ keep (has_type t) rest) (group_of-add_to_group t v a groups)
    ∙ and_if-append (has_type t a) a (group_of t groups) (keep (has_type t) rest)

-- When the actions can be grouped, the group of a type is the available actions of that type, in
-- their order.
pub group_by_action_type-group_of :
    (t : String) (actions : List Fields) (groups : Groups)
    → group_by_action_type actions ≡ ok groups
    → group_of t groups ≡ actions_of_type actions t
unfolding group_by_action_type actions_of_type group_of
group_by_action_type-group_of t actions groups h =
    group_all-keep t [] groups (available_actions actions) h
