-- ===== src/Api/Wire/Cleanup.antt =====
-- The Branch cleanup that follows a replay keeps the discipline of the wire.
use sts2_training.Base.{
  ◌≡◌, inl, inr, String, Bool, true, not, Option, none, some, List, [], ◌∷◌, arith, Bool-cases,
}
use sts2_training.Json.{Fields, obj}
use sts2_training.Api.Errors.{Exc}
use sts2_training.Api.Exec.{Exec, modify, catch}
use sts2_training.Api.Interface.{Environment, Laws}
use sts2_training.Api.Client.{Client, Cleanup}
use sts2_training.Api.Client.Execute.{execute}
use sts2_training.Api.Client.Operations.{build}
use sts2_training.Api.Wire.{Core, core, IsIdle, idle, stuck, dead, IsTurn, again, IsTurn-IsInFlight}
use sts2_training.Api.Wire.Triple.{
  Triple, Triple-pure, Triple-raise, Triple-weaken, Triple-map, Triple-modify, Triple-bind,
  Triple-catch,
}
use sts2_training.Api.Wire.Execute.{
  InFlight, Safe, Turn, Idle, Stuck, Taken, Triple-consume_sequence, Triple-execute,
}
use sts2_training.Api.Wire.Built.{build_branch_batch_operation-Own}
use sts2_training.Api.Wire.Operations.{Triple-build}
use sts2_training.Api.Client.{is_token}
use sts2_training.Json.{same}
use sts2_training.Api.Client.Execute.{remember_pending}
use sts2_training.Api.Wire.Execute.{Triple-remember_pending}
use sts2_training.Api.Client.Retry.{
  set_cleanup, unless_pending, send_cleanup, release_now, release_rest, complete_for,
  complete_deferred_branch_cleanup, after_cleanup_error, resolved, cleanup_after_error,
  with_cleanup, is_rejection, is_cancelled,
}

module _ {L A : Type 0} where
  Triple-set_cleanup :
      (P : Core → Type 0) (k : Option Cleanup)
      → Triple
          (λ c. P (core {L = L} {A = A} c))
          (modify (set_cleanup k))
          (λ _ c. P (core c))
          (λ _. Safe)
  unfolding set_cleanup
  Triple-set_cleanup P k = Triple-modify (set_cleanup k) (λ c h. h)

  core-unless_pending : (t : Fields) (c : Client L A) → core (unless_pending t c) ≡ core c
  unfolding unless_pending
  core-unless_pending t c = elim (Bool-cases (is_token c.pending_retry t)) [
    | inl e ↦ rw e
    | inr e ↦ rw e
  ]

  resolved-Idle : (c : Client L A) → Safe c → resolved c ≡ true → Idle c
  unfolding resolved
  resolved-Idle c (idle h) r = h
  resolved-Idle c (stuck t h) r = let k : c.pending_retry ≡ some t = h.kept in absurd (ground arith)
  resolved-Idle c (dead h) r = let k : c.session_invalid ≡ true = h.invalid in absurd (ground arith)

module _ {L A : Type 0} (env : Environment L A) (laws : Laws env) where
  Triple-send_cleanup : (q : Fields) → Triple (Stuck q) (send_cleanup env q) (λ _. Idle) (λ _. Safe)
  unfolding send_cleanup
  Triple-send_cleanup q =
      Triple-catch (λ _. Safe) _ _
        (Triple-bind (Taken env q) (execute env q) _
          (Triple-weaken (Turn q) _ (λ c h. again h) (Triple-execute env q laws))
          λ r. Triple-weaken (InFlight q) _ (λ c h. h.0) (Triple-consume_sequence q))
        λ e.
          Triple-bind (λ _. Safe) (modify (unless_pending q)) _
            (Triple-modify (unless_pending q) (λ c h. rw (core-unless_pending q c) h))
            λ _. Triple-raise e (λ c h. h)

  Triple-release_now :
      (i : String) (ids : List String) → Triple Idle (release_now env i ids) (λ _. Idle) (λ _. Safe)
  unfolding release_now
  Triple-release_now i ids =
      Triple-bind Turn (build _) _
        (Triple-build _ (λ c.
          build_branch_batch_operation-Own c.client_session_id c.next_request_seq c.instance_id
            "release_branches" i ids))
        λ q.
          Triple-bind (λ _. Turn q) (modify (set_cleanup _)) _ (Triple-set_cleanup (IsTurn q) _)
            λ _.
              Triple-bind (λ _. Stuck q) (remember_pending q) _
                (Triple-weaken (InFlight q) _ (λ c h. IsTurn-IsInFlight h)
                  (Triple-remember_pending q))
                λ _.
                  Triple-bind (λ _. Idle) (send_cleanup env q) _ (Triple-send_cleanup q)
                    λ _. Triple-set_cleanup IsIdle none

  Triple-release_rest :
      (i : String) (ids : List String)
      → Triple Idle (release_rest env i ids) (λ _. Idle) (λ _. Safe)
  unfolding release_rest
  Triple-release_rest i [] = Triple-set_cleanup IsIdle none
  Triple-release_rest i (b ∷ bs) = Triple-release_now i (b ∷ bs)

  Triple-complete_for :
      (t : Fields) (b : Bool) (k : Option Cleanup)
      → Triple Idle (complete_for env t b k) (λ _. Idle) (λ _. Safe)
  unfolding complete_for
  Triple-complete_for t b none = Triple-pure tt (λ c h. h)
  Triple-complete_for t b (some k) = elim (Bool-cases (same k.source t)) [
    | inl e ↦ rw e (Triple-release_rest k.instance _)
    | inr e ↦ rw e (Triple-pure tt (λ c h. h))
  ]

  Triple-complete :
      (t : Fields) (b : Bool)
      → Triple Idle (complete_deferred_branch_cleanup env t b) (λ _. Idle) (λ _. Safe)
  unfolding complete_deferred_branch_cleanup
  Triple-complete t b = record {
    at = λ c h. (Triple-complete_for t b c.pending_retry_cleanup).at c h;
  }

  Triple-after_cleanup_error :
      {B : Type 0} (p e : Exc)
      → Triple {B = B} Safe (after_cleanup_error env p e) (λ _. Safe) (λ _. Safe)
  unfolding after_cleanup_error
  Triple-after_cleanup_error p e = elim (Bool-cases (is_cancelled e)) [
    | inl k ↦ rw k (Triple-raise e (λ c h. h))
    | inr k ↦ rw k (elim (Bool-cases (is_rejection p)) [
      | inl j ↦ rw j (Triple-raise p (λ c h. h))
      | inr j ↦ rw j (Triple-raise e (λ c h. h))
    ])
  ]

  Triple-cleanup_after_error :
      (t : Fields) (e : Exc) → Triple Safe (cleanup_after_error env t e) (λ _. Safe) (λ _. Safe)
  unfolding cleanup_after_error
  Triple-cleanup_after_error t e = record {
    at = λ c h. elim (Bool-cases (resolved c)) [
      | inl r ↦ rw r (
          (Triple-catch (λ _. Safe) (complete_deferred_branch_cleanup env t (not (is_rejection e)))
              (after_cleanup_error env e)
              (Triple-map (λ _. Idle) (λ _. Safe) _ (λ _ c h. idle h) (λ _ c h. h)
                (Triple-complete t (not (is_rejection e))))
              (Triple-after_cleanup_error e)).at
            c (resolved-Idle c h r))
      | inr r ↦ rw r h
    ];
  }

  pub Triple-with_cleanup :
      (t : Fields) (m : Exec (Client L A) Fields)
      → Triple (Turn t) m (λ _. Idle) (λ _. Safe)
      → Triple (Turn t) (with_cleanup env t m) (λ _. Idle) (λ _. Safe)
  unfolding with_cleanup
  Triple-with_cleanup t m h =
      Triple-bind (λ _. Idle) (catch m _) _
        (Triple-catch (λ _. Safe) m _ h
          λ e.
            Triple-bind (λ _. Safe) (cleanup_after_error env t e) _ (Triple-cleanup_after_error t e)
              λ _. Triple-raise e (λ c h. h))
        λ r.
          Triple-bind (λ _. Idle) (complete_deferred_branch_cleanup env t true) _
            (Triple-complete t true) λ _. Triple-pure (obj r) (λ c h. h)
  -- What each branch of the replay does with the unresolved request.
