-- ===== src/Api/Wire/Kept/Execute.antt =====
-- async_client.py: _execute and what its error paths call.
use sts2_training.Base.{arith, refl, Bool, true, false, Option, List}
use sts2_training.Base.Outcome.{Result, ok, err}
use sts2_training.Json.{Fields, get}
use sts2_training.Api.Errors.{
  Exc, protocol_error, operation_error, transport_error, epoch_changed, cancelled, member,
}
use sts2_training.Api.Exec.{Exec, lift, modify}
use sts2_training.Api.Responses.{check_api_response}
use sts2_training.Api.Interface.{Environment, Outcome, replied, failed, delivered}
use sts2_training.Api.Client.{Client}
use sts2_training.Api.Client.Execute.{
  remember_pending, consume_sequence, ensure_fresh_request_allowed, clear_instance_extensions,
  invalidate_session, exchange, tear_down, mark_protocol_uncertain, forget_branches,
  forget_instance, drop_instance, after_fault, give_up_if, consume_refusal, settle_refusal,
  on_operation_error, on_invalid, accept, on_checked, keep_if, on_failure, on_outcome, check_turn,
  execute, on_protocol_error, guarded, refused, sent, fatal_consuming, or_token,
}
use sts2_training.Api.Wire.Kept.{
  Same, Keeps, Keeps-Same, Keeps-pure, Keeps-raise, Keeps-lift, Keeps-catch, Keeps-modify,
  Keeps-bind,
}

-- The connection keeps the relation: an exchange with what it says of its request, and the teardown.
pub record Relates {L A : Type 0} (Q : L → List Fields → Type 0) (env : Environment L A)
    : Type 0 where
  pub exchanged :
      (l : L) (wire : List Fields) (q : Fields)
      → Q l wire
      → Q (env.exchange l q).1 (sent (delivered (env.exchange l q).0) q wire)
  pub invalidated : (l : L) (wire : List Fields) → Q l wire → Q (env.invalidate l).1 wire

module _ {L A : Type 0} (Q : L → List Fields → Type 0) where
  pub Keeps-remember : (t : Fields) → Keeps {A = A} Q (remember_pending t)
  unfolding remember_pending
  Keeps-remember t = Keeps-Same Q _ (λ c. (ground arith, ground arith))

  pub Keeps-consume : (t : Fields) → Keeps {A = A} Q (consume_sequence t)
  unfolding consume_sequence
  Keeps-consume t = Keeps-Same Q _ (λ c. (ground arith, ground arith))

  pub Keeps-fresh : Keeps {A = A} Q ensure_fresh_request_allowed
  unfolding ensure_fresh_request_allowed
  Keeps-fresh = Keeps-Same Q _ (λ c. (ground arith, ground arith))

  pub Keeps-clear : Keeps {A = A} Q (modify clear_instance_extensions)
  unfolding clear_instance_extensions
  Keeps-clear = Keeps-modify Q _ (λ c. (refl, refl))

  Keeps-invalidate : Keeps {A = A} Q (modify invalidate_session)
  unfolding invalidate_session
  Keeps-invalidate = Keeps-modify Q _ (λ c. (refl, refl))

module _ {L A : Type 0} (Q : L → List Fields → Type 0) (env : Environment L A)
    (law : Relates Q env) where
  Keeps-exchange : (q : Fields) → Keeps Q (exchange env q)
  unfolding exchange
  Keeps-exchange q = record { at = λ c h. law.exchanged c.connection c.wire q h }

  Keeps-tear_down : Keeps Q (tear_down env)
  unfolding tear_down
  Keeps-tear_down = record { at = λ c h. law.invalidated c.connection c.wire h }

  Keeps-mark : (q : Fields) → Keeps Q (mark_protocol_uncertain env q)
  unfolding mark_protocol_uncertain
  Keeps-mark q = Keeps-bind Q (remember_pending q) _ (Keeps-remember Q q) λ _. Keeps-tear_down

  Keeps-forget_branches : (q : Fields) → Keeps Q (modify (forget_branches env q))
  unfolding forget_branches
  Keeps-forget_branches q = Keeps-modify Q _ (λ c. (ground arith, ground arith))

  Keeps-after_fault : (t r : Fields) → Keeps Q (modify (after_fault env t r))
  unfolding after_fault drop_instance clear_instance_extensions forget_instance
  Keeps-after_fault t r = Keeps-modify Q _ (λ c. (ground arith, ground arith))

  give_up_if-Same : (b : Bool) (c : Client L A) → Same c (give_up_if env b c)
  unfolding give_up_if
  give_up_if-Same true c = (refl, refl)
  give_up_if-Same false c = (refl, refl)

  Keeps-consume_refusal : (t r : Fields) → Keeps Q (consume_refusal env t r)
  unfolding consume_refusal
  Keeps-consume_refusal t r = Keeps-bind Q (consume_sequence t) _ (Keeps-consume Q t) λ _.
      Keeps-bind Q (modify (after_fault env t r)) _ (Keeps-after_fault t r) λ _.
        Keeps-bind Q (lift (member (get "fault_kind" r) fatal_consuming)) _ (Keeps-lift Q _)
          λ fatal.
            Keeps-bind Q (modify (give_up_if env fatal)) _
              (Keeps-modify Q (give_up_if env fatal) (give_up_if-Same fatal))
              λ _. Keeps-raise Q (operation_error r)

  Keeps-settle : (b : Bool) (t r : Fields) → Keeps Q (settle_refusal env b t r)
  unfolding settle_refusal
  Keeps-settle true t r =
      Keeps-bind Q (modify invalidate_session) _ (Keeps-invalidate Q)
        λ _. Keeps-raise Q (operation_error r)
  Keeps-settle false t r = Keeps-consume_refusal t r

  Keeps-on_operation_error : (t r : Fields) → Keeps Q (on_operation_error env t r)
  unfolding on_operation_error
  Keeps-on_operation_error t r =
      Keeps-bind Q (lift (refused r)) _ (Keeps-lift Q _) λ b. Keeps-settle b t r

  Keeps-on_invalid : (q : Fields) (e : Exc) → Keeps Q (on_invalid env q e)
  unfolding on_invalid
  Keeps-on_invalid q (operation_error r) = Keeps-on_operation_error q r
  Keeps-on_invalid q protocol_error =
      Keeps-bind Q (mark_protocol_uncertain env q) _ (Keeps-mark q)
        λ _. Keeps-raise Q protocol_error
  Keeps-on_invalid q e = Keeps-raise Q e

  Keeps-on_checked : (q : Fields) (r : Result Exc Fields) → Keeps Q (on_checked env q r)
  unfolding on_checked accept
  Keeps-on_checked q (ok r) =
      Keeps-bind Q (modify (forget_branches env q)) _ (Keeps-forget_branches q) λ _. Keeps-pure Q r
  Keeps-on_checked q (err e) = Keeps-on_invalid q e

  Keeps-keep_if : (b : Bool) (t : Option Fields) (q : Fields) → Keeps Q (keep_if env b t q)
  unfolding keep_if
  Keeps-keep_if true t q = Keeps-remember Q (or_token t q)
  Keeps-keep_if false t q = Keeps-pure Q tt

  Keeps-on_failure : (q : Fields) (e : Exc) → Keeps Q (on_failure env q e)
  unfolding on_failure
  Keeps-on_failure q (epoch_changed u t) =
      Keeps-bind Q (modify invalidate_session) _ (Keeps-invalidate Q) λ _. Keeps-raise Q _
  Keeps-on_failure q (cancelled u t) =
      Keeps-bind Q (keep_if env u t q) _ (Keeps-keep_if u t q) λ _. Keeps-raise Q _
  Keeps-on_failure q (transport_error u t) =
      Keeps-bind Q (keep_if env u t q) _ (Keeps-keep_if u t q) λ _. Keeps-raise Q _
  Keeps-on_failure q e = Keeps-raise Q e

  Keeps-on_outcome : (q : Fields) (o : Outcome) → Keeps Q (on_outcome env q o)
  unfolding on_outcome
  Keeps-on_outcome q (replied r) = Keeps-on_checked q (check_api_response q r)
  Keeps-on_outcome q (failed e) = Keeps-on_failure q e

  Keeps-check_turn : (q : Fields) → Keeps Q (check_turn env q)
  unfolding check_turn
  Keeps-check_turn q = Keeps-Same Q _ (λ c. (ground arith, ground arith))

  pub Keeps-execute : (q : Fields) → Keeps Q (execute env q)
  unfolding execute
  Keeps-execute q =
      Keeps-bind Q (check_turn env q) _ (Keeps-check_turn q)
        λ _. Keeps-bind Q (exchange env q) _ (Keeps-exchange q) λ o. Keeps-on_outcome q o

  Keeps-on_protocol_error :
      {B : Type 0} (q : Fields) (e : Exc) → Keeps Q (on_protocol_error env {B = B} q e)
  unfolding on_protocol_error
  Keeps-on_protocol_error q protocol_error =
      Keeps-bind Q (mark_protocol_uncertain env q) _ (Keeps-mark q)
        λ _. Keeps-raise Q protocol_error
  Keeps-on_protocol_error q e = Keeps-raise Q e

  pub Keeps-guarded :
      {B : Type 0} (q : Fields) (m : Exec (Client L A) B) → Keeps Q m → Keeps Q (guarded env q m)
  unfolding guarded
  Keeps-guarded q m h = Keeps-catch Q m _ h (Keeps-on_protocol_error q)
