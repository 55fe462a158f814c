-- ===== src/Api/Wire/Recording.antt =====
-- The audit of a selected action changes nothing of the wire.
use sts2_training.Base.{String, Option, none, some, List, [], ◌∷◌}
use sts2_training.Base.Outcome.{Result, ok, err}
use sts2_training.Json.{Fields, Value, obj, get, as_items}
use sts2_training.Api.Errors.{Exc, operation_error}
use sts2_training.Api.Exec.{Exec, lift}
use sts2_training.Api.Responses.{validate_selected_action}
use sts2_training.Api.Interface.{Environment}
use sts2_training.Api.Client.{Client}
use sts2_training.Api.Client.Execute.{guarded}
use sts2_training.Api.Client.Operations.{
  record_selected_action, record_failure, recorded, validate_selected, record_item, record_items,
  items_of, record_batch, record_batch_failure, recorded_batch,
}
use sts2_training.Api.Wire.{Core, core, IsSafe}
use sts2_training.Api.Wire.Triple.{
  Post, Triple, Triple-pure, Triple-raise, Triple-lift, Triple-bind, Triple-catch, Post-both,
}
use sts2_training.Api.Wire.Execute.{
  InFlight, Safe, Idle, Refused, Triple-consume_sequence, Triple-guarded,
}
use sts2_training.Api.Wire.Accept.{Only, Only-validate_selected}

module _ {L A : Type 0} (env : Environment L A) where
  pub Triple-record :
      (P : Core → Type 0) (q : Fields) (s : String) (r : Option Fields) (e : Option Exc)
      → Triple
          (λ c. P (core c))
          (record_selected_action env q s r e)
          (λ _ c. P (core c))
          (λ _ c. P (core c))
  unfolding record_selected_action
  Triple-record P q s r e = record {
    at = λ c h.
        Post-both (λ (d : Client L A). P (core d)) (env.record_action c.audit q s r e).0
          (record c { audit = (env.record_action c.audit q s r e).1 }) h;
  }

  Triple-record_failure :
      (q : Fields) (s : String) (r : Option Fields) (e : Exc)
      → Triple (Safe {L = L} {A = A}) (record_failure env q s r e) (λ _. Safe) (λ _. Safe)
  unfolding record_failure
  Triple-record_failure q s r (operation_error x) = Triple-record IsSafe q s (some x) none
  Triple-record_failure q s r e = Triple-record IsSafe q s r (some e)

  pub Triple-recorded :
      {B : Type 0} (P : Client L A → Type 0) (Q : B → Client L A → Type 0) (q : Fields) (s : String)
      (r : Option Fields) (m : Exec (Client L A) B)
      → Triple P m Q (λ _. Safe)
      → Triple P (recorded env q s r m) Q (λ _. Safe)
  unfolding recorded
  Triple-recorded P Q q s r m t =
      Triple-catch (λ _. Safe) m _ t
        λ e.
          Triple-bind (λ _. Safe) (record_failure env q s r e) _ (Triple-record_failure q s r e)
            λ _. Triple-raise e (λ c h. h)

  Only-Post :
      (q : Fields) (x : Result Exc (Unit {0})) (c : Client L A)
      → Only x
      → InFlight q c
      → Post (λ _. InFlight q) (Refused env q) x c
  Only-Post q (ok u) c o h = h
  Only-Post q (err e) c o h = (o, h)

  pub Triple-validate_selected :
      (q r : Fields) → Triple (InFlight q) (validate_selected env q r) (λ _. Idle) (λ _. Safe)
  unfolding validate_selected
  Triple-validate_selected q r =
      Triple-bind (λ _. InFlight q) (guarded env q (lift (validate_selected_action q r))) _
        (Triple-guarded env q (lift (validate_selected_action q r)) (
          Triple-lift (validate_selected_action q r)
            (λ c h. Only-Post q (validate_selected_action q r) c (Only-validate_selected q r) h)))
        λ _. Triple-consume_sequence q

  record_items_keeps :
      (P : Core → Type 0) (q : Fields) (r : Option Fields) (e : Option Exc) (vs : List Value)
      → Triple (λ c. P (core c)) (record_items env q r e vs) (λ _ c. P (core c)) (λ _ c. P (core c))
  unfolding record_items record_item
  record_items_keeps P q r e [] = Triple-pure tt (λ c h. h)
  record_items_keeps P q r e (obj item ∷ vs) =
      Triple-bind (λ _ c. P (core c)) (record_item env q r e item) _ (Triple-record P _ _ _ e)
        λ _. record_items_keeps P q r e vs
  record_items_keeps P q r e (v ∷ vs) = record_items_keeps P q r e vs

  pub Triple-record_batch :
      (P : Core → Type 0) (q : Fields) (r : Option Fields) (e : Option Exc)
      → Triple (λ c. P (core c)) (record_batch env q r e) (λ _ c. P (core c)) (λ _ c. P (core c))
  unfolding record_batch
  Triple-record_batch P q r e = record_items_keeps P q r e (items_of (as_items (get "items" q)))

  Triple-record_batch_failure :
      (q : Fields) (r : Option Fields) (e : Exc)
      → Triple (Safe {L = L} {A = A}) (record_batch_failure env q r e) (λ _. Safe) (λ _. Safe)
  unfolding record_batch_failure
  Triple-record_batch_failure q r (operation_error x) = Triple-record_batch IsSafe q (some x) none
  Triple-record_batch_failure q r e = Triple-record_batch IsSafe q r (some e)

  pub Triple-recorded_batch :
      {B : Type 0} (P : Client L A → Type 0) (Q : B → Client L A → Type 0) (q : Fields)
      (r : Option Fields) (m : Exec (Client L A) B)
      → Triple P m Q (λ _. Safe)
      → Triple P (recorded_batch env q r m) Q (λ _. Safe)
  unfolding recorded_batch
  Triple-recorded_batch P Q q r m t =
      Triple-catch (λ _. Safe) m _ t
        λ e.
          Triple-bind (λ _. Safe) (record_batch_failure env q r e) _
            (Triple-record_batch_failure q r e) λ _. Triple-raise e (λ c h. h)
