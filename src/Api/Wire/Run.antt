-- ===== src/Api/Wire/Run.antt =====
-- Whole sessions: whatever the server, the connection and the caller do, the requests of one client
-- reach the server at most once each and in the order of their numbers, up to exact repetitions.
use sts2_training.Base.{List, [], ◌∷◌, refl}
use sts2_training.Base.Outcome.{Result, ok, err}
use sts2_training.Api.Errors.{Exc}
use sts2_training.Api.Exec.{Exec}
use sts2_training.Base.{String}
use sts2_training.Api.Interface.{Environment, Laws}
use sts2_training.Api.Client.{Client, new_client}
use sts2_training.Api.Client.Session.{
  Command, start, decide, commit, emulate, emulate_batch, cancel, release, branch_status, close,
  retry, defer_cleanup, step, run,
}
use sts2_training.Api.Wire.{IsOrderly, IsSafe, idle, stuck, dead, core}
use sts2_training.Api.Wire.Triple.{Post}
use sts2_training.Api.Wire.Execute.{Safe, Idle}
use sts2_training.Api.Wire.Operations.{
  Call, start_instance-Call, get_decision-Call, close_instance-Call, branch_batch_operation-Call,
  commit_action-Call, emulate_action-Call, emulate_actions-Call,
}
use sts2_training.Api.Wire.Retry.{retry_request-Call, defer_branch_cleanup_after_retry-Safe}

module _ {L A : Type 0} where
  end_of_call :
      {B : Type 0} (r : Result Exc B) (c : Client L A) → Post (λ _. Idle) (λ _. Safe) r c → Safe c
  end_of_call (ok b) c h = idle h
  end_of_call (err e) c h = h

  end_safe :
      {B : Type 0} (r : Result Exc B) (c : Client L A) → Post (λ _. Safe) (λ _. Safe) r c → Safe c
  end_safe (ok b) c h = h
  end_safe (err e) c h = h

  after : {B : Type 0} (m : Exec (Client L A) B) → Call m → (c : Client L A) → Safe c → Safe (m c).1
  after m t c h = end_of_call (m c).0 (m c).1 (t.at c h)

  new_client_safe : (l : L) (a : A) (s : String) → Safe (new_client l a s)
  unfolding new_client
  new_client_safe l a s = idle (record { orderly = tt; older = tt; free = refl; live = refl })

  IsOrderly-of_safe : (c : Client L A) → Safe c → IsOrderly c.wire
  IsOrderly-of_safe c (idle h) = h.orderly
  IsOrderly-of_safe c (stuck t h) = h.orderly
  IsOrderly-of_safe c (dead h) = h.orderly

module _ {L A : Type 0} (env : Environment L A) (laws : Laws env) where
  -- Every call of a method, on every branch, ends in a state between two calls when it starts in
  -- one: nothing is unresolved, or exactly one request with the next number is, or the session is
  -- invalid.
  pub step-IsSafe : (k : Command) (c : Client L A) → IsSafe (core c) → IsSafe (core (step env k c))
  unfolding step
  step-IsSafe (start a config) c h = after _ (start_instance-Call env laws a config) c h
  step-IsSafe (decide a i b) c h = after _ (get_decision-Call env laws a i b) c h
  step-IsSafe (commit a i p x) c h = after _ (commit_action-Call env laws a i p x) c h
  step-IsSafe (emulate a i p b r d x o) c h =
      after _ (emulate_action-Call env laws a i p b r d x o) c h
  step-IsSafe (emulate_batch a i items o) c h =
      after _ (emulate_actions-Call env laws a i items o) c h
  step-IsSafe (cancel a i ids) c h =
      after _ (branch_batch_operation-Call env laws a "cancel_branches" i ids) c h
  step-IsSafe (release a i ids) c h =
      after _ (branch_batch_operation-Call env laws a "release_branches" i ids) c h
  step-IsSafe (branch_status a i ids) c h =
      after _ (branch_batch_operation-Call env laws a "get_branch_status" i ids) c h
  step-IsSafe (close a i) c h = after _ (close_instance-Call env laws a i) c h
  step-IsSafe (retry a t) c h = after _ (retry_request-Call env laws a t) c h
  step-IsSafe (defer_cleanup t i ids) c h =
      end_safe _ _ ((defer_branch_cleanup_after_retry-Safe t i ids).at c h)

  run-IsSafe : (ks : List Command) (c : Client L A) → Safe c → Safe (run env ks c)
  unfolding run
  run-IsSafe [] c h = h
  run-IsSafe (k ∷ ks) c h = run-IsSafe ks (step env k c) (step-IsSafe k c h)

  -- In a session of a new client, after any series of calls, every request that the server may
  -- have received carries a larger number than each one before it, or is an exact copy of it. The
  -- environment is any that keeps its laws.
  pub run-IsOrderly :
      (ks : List Command) (l : L) (a : A) (s : String)
      → IsOrderly (run env ks (new_client l a s)).wire
  run-IsOrderly ks l a s =
      IsOrderly-of_safe (run env ks (new_client l a s))
        (run-IsSafe ks (new_client l a s) (new_client_safe l a s))
