-- ===== src/Api/Wire/Blocked.antt =====
-- The client fails closed: after an unresolved request, or in an invalid session, no call sends
-- anything but the exact replay.
use sts2_training.Base.{◌≡◌, refl, Bool, true, false, not, ◌||◌, arith, if◌then◌else◌}
use sts2_training.Base.Outcome.{err}
use sts2_training.Json.{Fields}
use sts2_training.Api.Errors.{runtime_error, value_error}
use sts2_training.Api.Exec.{Exec, ◌>>=◌}
use sts2_training.Api.Interface.{Environment}
use sts2_training.Api.Client.{Client, is_set, is_token}
use sts2_training.Api.Client.Execute.{ensure_fresh_request_allowed}
use sts2_training.Api.Client.Operations.{
  Admission, bad_timeout, lock_timeout, lock_cancelled, granted, with_deadline, check,
  start_instance, get_decision, close_instance, branch_batch_operation, commit_action,
  emulate_action, emulate_actions,
}
use sts2_training.Api.Client.Retry.{retry_request}
use sts2_training.Api.Client.Session.{
  Command, start, decide, commit, emulate, emulate_batch, cancel, release, branch_status, close,
  retry, defer_cleanup, step,
}

-- The call does not replay a request and does not note a cleanup.
abbrev pub is_fresh_call : Command → Bool
is_fresh_call (retry a t) = false
is_fresh_call (defer_cleanup t i ids) = false
is_fresh_call k = true

module _ {L A : Type 0} (c : Client L A) where
  blocked :
      {B : Type 0} (a : Admission) (f : Unit {0} → Exec (Client L A) B)
      → (is_set c.pending_retry || c.session_invalid) ≡ true
      → (with_deadline a (ensure_fresh_request_allowed >>= f) c).1 ≡ c
  unfolding with_deadline ensure_fresh_request_allowed ◌>>=◌
  blocked bad_timeout f h = refl
  blocked lock_timeout f h = refl
  blocked lock_cancelled f h = refl
  blocked granted f h = ground arith

module _ {L A : Type 0} (env : Environment L A) where
  -- While a request is unresolved or the session is invalid, every call but a replay and the note
  -- of a cleanup leaves the client as it was: it sends nothing and uses up no number.
  pub step_blocked :
      (k : Command) (c : Client L A)
      → is_fresh_call k ≡ true
      → (is_set c.pending_retry || c.session_invalid) ≡ true
      → step env k c ≡ c
  unfolding step start_instance get_decision close_instance branch_batch_operation commit_action
      emulate_action emulate_actions
  step_blocked (start a config) c f h = blocked c a _ h
  step_blocked (decide a i b) c f h = blocked c a _ h
  step_blocked (commit a i p x) c f h = blocked c a _ h
  step_blocked (emulate a i p b r d x o) c f h = blocked c a _ h
  step_blocked (emulate_batch a i items o) c f h = blocked c a _ h
  step_blocked (cancel a i ids) c f h = blocked c a _ h
  step_blocked (release a i ids) c f h = blocked c a _ h
  step_blocked (branch_status a i ids) c f h = blocked c a _ h
  step_blocked (close a i) c f h = blocked c a _ h
  step_blocked (retry a t) c f h = cc
  step_blocked (defer_cleanup t i ids) c f h = cc

  -- A replay of anything but the unresolved request of a valid session raises and leaves the client
  -- as it was.
  pub retry_request_other :
      (a : Admission) (t : Fields) (c : Client L A)
      → is_token c.pending_retry t ≡ false
      → (retry_request env a t c).1 ≡ c
        × ((retry_request env a t c).0
            ≡ err (
                if c.session_invalid || not (is_set c.pending_retry)
                then runtime_error
                else value_error))
  unfolding retry_request check ◌>>=◌
  retry_request_other a t c h = ground arith
