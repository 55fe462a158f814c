-- ===== src/Api/Wire/Accept.antt =====
-- The acceptance of an answer changes nothing of the wire, and refuses by ApiProtocolError alone.
use sts2_training.Base.{
  ◌≡◌, refl, String, true, not, ◌&&◌, Option, none, some, List, [], ◌∷◌, arith, Bool-cases, inl,
  inr, distinct,
}
use sts2_training.Base.Outcome.{Result, ok, err, guard, ◌>>=◌, ◌>>◌}
use sts2_training.Json.{
  Fields, Items, nil, cons, Value, null, str, get, hashable, is_null, as_items, as_mapping, as_text,
}
use sts2_training.Api.Errors.{Exc, protocol_error, is_one_of, member, or_protocol_error, Check}
use sts2_training.Api.Kinds.{Raises, Raises-bind, Raises-guard, Raises-or}
use sts2_training.Api.Decision.{require_non_empty_str, require_response_match}
use sts2_training.Api.Decision.Kinds.{Raises-text, Raises-match, Raises-decision}
use sts2_training.Api.Responses.{require_status, validate_selected_action}
use sts2_training.Api.Interface.{Environment}
use sts2_training.Api.Client.{Client}
use sts2_training.Api.Client.Accept.{
  Started, check_started, check_decision, read_boundaries, boundary_list, read_max_items,
  asks_for_combat, accept_start_instance, accept_get_decision, accept_close_instance, apply_if_ok,
  instance_of, response_if_ok, started_state, remember_decision,
}
use sts2_training.Api.Client.Execute.{forget_instance}
use sts2_training.Api.Wire.{core}
use sts2_training.Api.Wire.Triple.{Post, Triple}
use sts2_training.Api.Wire.Execute.{InFlight, Refused}

-- The only exception is ApiProtocolError.
abbrev IsProtocol : Exc → Type 0
IsProtocol e = e ≡ protocol_error

abbrev pub Only : {A : Type 0} → Result Exc A → Type 0
Only m = Raises IsProtocol m

Only-bind :
    {A B : Type 0} (m : Result Exc A) (f : A → Result Exc B)
    → Only m
    → ((a : A) → Only (f a))
    → Only (m >>= f)
Only-bind m f h k = Raises-bind IsProtocol m f h k

Only-status :
    (r : Fields) (xs : List String) → hashable (get "status" r) ≡ true → Only (require_status r xs)
unfolding require_status member
Only-status r xs h = rw h (Raises-guard IsProtocol refl _)

Only-boundary_list : (items : Items) → Only (boundary_list items)
unfolding boundary_list
Only-boundary_list nil = tt
Only-boundary_list (cons v r) =
    Only-bind (or_protocol_error (as_text v)) _ (Raises-or IsProtocol refl (as_text v))
      λ b. Only-bind (boundary_list r) _ (Only-boundary_list r) λ bs. tt

Only-listed :
    (o : Option Items)
    → Only (
        or_protocol_error o >>= λ items.
        boundary_list items >>= λ bs. guard (distinct bs) protocol_error >> ok bs)
Only-listed none = refl
Only-listed (some items) =
    Only-bind (boundary_list items) _ (Only-boundary_list items) λ bs.
      Only-bind (guard (distinct bs) protocol_error) _ (Raises-guard IsProtocol refl _) λ u. tt

Only-read_boundaries : (v : Value) → Only (read_boundaries v)
unfolding read_boundaries
Only-read_boundaries null = tt
Only-read_boundaries v = Only-listed (as_items v)

Only-read_max_items : (v : Value) → Only (read_max_items v)
unfolding read_max_items
Only-read_max_items null = tt
Only-read_max_items v = ground arith

Only-started : (q r : Fields) → hashable (get "status" r) ≡ true → Only (check_started q r)
unfolding check_started
Only-started q r h =
    Only-bind
      (guard
        (not (
          asks_for_combat (as_mapping (get "instance_config" q))
          && is_null (get "max_emulate_actions_items" r)))
        protocol_error)
      _ (Raises-guard IsProtocol refl _)
      λ u.
        Only-bind (read_boundaries (get "emulate_actions_boundaries" r)) _
          (Only-read_boundaries (get "emulate_actions_boundaries" r))
          λ bs. Only-bind (require_status r ("completed" ∷ [])) _ (Only-status r _ h) λ u.
            Only-bind (require_non_empty_str r "instance_id") _ (Raises-text IsProtocol refl r _)
              λ i.
                Only-bind (read_max_items (get "max_emulate_actions_items" r)) _
                  (Only-read_max_items (get "max_emulate_actions_items" r)) λ m. tt

Only-check_decision : (r : Fields) (b : String) → Only (check_decision r b)
unfolding check_decision
Only-check_decision r b = elim (Bool-cases (is_one_of (get "status" r) ("completed" ∷ []))) [
  | inl e ↦ rw e (
      Only-bind (require_response_match r "branch_id" (str b)) _
        (Raises-match IsProtocol refl r _ _) λ u. Raises-decision IsProtocol refl r)
  | inr e ↦ rw e tt
]

pub Only-validate_selected : (q r : Fields) → Only (validate_selected_action q r)
unfolding validate_selected_action
Only-validate_selected q r = ground (arith, Raises-decision IsProtocol refl r)

module _ {L A : Type 0} (env : Environment L A) (q r : Fields) where
  started-Post :
      (x : Result Exc Started) (c : Client L A)
      → Only x
      → InFlight q c
      → Post
          (λ _. InFlight q)
          (Refused env q)
          (instance_of env x)
          (apply_if_ok env (started_state env r) x c)
  unfolding started_state
  started-Post (ok s) c o h = h
  started-Post (err e) c o h = (o, h)

  pub Triple-accept_start_instance :
      hashable (get "status" r) ≡ true
      → Triple (InFlight q) (accept_start_instance env q r) (λ _. InFlight q) (Refused env q)
  unfolding accept_start_instance
  Triple-accept_start_instance k = record {
    at = λ c h. started-Post (check_started q r) c (Only-started q r k) h;
  }

  checked-Post :
      (f : Client L A → Client L A) (x : Check) (c : Client L A)
      → ((d : Client L A) → core (f d) ≡ core d)
      → Only x
      → InFlight q c
      → Post
          (λ _. InFlight q)
          (Refused env q)
          (response_if_ok env r x)
          (apply_if_ok env (λ _. f) x c)
  checked-Post f (ok u) c k o h = rw (k c) h
  checked-Post f (err e) c k o h = (o, h)

  core-remember_decision : (c : Client L A) → core (remember_decision env r c) ≡ core c
  unfolding remember_decision
  core-remember_decision c = elim (Bool-cases (is_one_of (get "status" r) ("completed" ∷ []))) [
    | inl e ↦ rw e
    | inr e ↦ rw e
  ]

  pub Triple-accept_get_decision :
      (b : String)
      → Triple (InFlight q) (accept_get_decision env r b) (λ _. InFlight q) (Refused env q)
  unfolding accept_get_decision
  Triple-accept_get_decision b = record {
    at = λ c h.
        checked-Post (remember_decision env r) (check_decision r b) c core-remember_decision
          (Only-check_decision r b) h;
  }

  core-forget_instance : (c : Client L A) → core (forget_instance env c) ≡ core c
  unfolding forget_instance
  core-forget_instance c = refl

  pub Triple-accept_close_instance :
      hashable (get "status" r) ≡ true
      → Triple (InFlight q) (accept_close_instance env r) (λ _. InFlight q) (Refused env q)
  unfolding accept_close_instance
  Triple-accept_close_instance k = record {
    at = λ c h.
        checked-Post (forget_instance env) (require_status r ("completed" ∷ [])) c
          core-forget_instance (Only-status r _ k) h;
  }
