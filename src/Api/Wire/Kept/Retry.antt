-- ===== src/Api/Wire/Kept/Retry.antt =====
-- async_client.py: the replay of a request, its cleanup, and whole sessions.
use sts2_training.Base.{
  arith, refl, inl, inr, String, Bool, true, not, Option, none, some, List, [], ◌∷◌, Bool-cases,
}
use sts2_training.Json.{Fields, Items, nil, cons, obj, str, get, as_text, as_items, same}
use sts2_training.Api.Errors.{
  Exc, value_error, runtime_error, protocol_error, is_one_of, root_branch_id,
}
use sts2_training.Api.Exec.{Exec, modify, catch}
use sts2_training.Api.Interface.{Environment}
use sts2_training.Api.Client.{Client, Cleanup, is_token, is_set}
use sts2_training.Api.Client.Accept.{
  accept_start_instance, accept_get_decision, accept_close_instance,
}
use sts2_training.Api.Client.Execute.{
  consume_sequence, remember_pending, clear_instance_extensions, guarded,
}
use sts2_training.Api.Client.Operations.{Admission, execute_selected_action}
use sts2_training.Api.Client.Retry.{
  set_cleanup, unless_pending, resolved, drop_cleanup_for, send_cleanup, release_now, release_rest,
  complete_for, complete_deferred_branch_cleanup, after_cleanup_error, cleanup_after_error,
  with_cleanup, retry_start, retry_decision, retry_commit, retry_emulate_action,
  retry_emulate_actions, retry_branch_operation, retry_close, replay, retry_request,
  defer_branch_cleanup_after_retry, deduplicate, compatible, is_deferrable, is_cancelled,
  is_rejection,
}
use sts2_training.Api.Client.Session.{
  Command, start, decide, commit, emulate, emulate_batch, cancel, release, branch_status, close,
  retry, defer_cleanup, step, run,
}
use sts2_training.Api.Wire.Kept.{
  Holds, Keeps, Keeps-pure, Keeps-raise, Keeps-if, Keeps-catch, Keeps-modify, Keeps-bind,
}
use sts2_training.Api.Wire.Kept.Execute.{
  Relates, Keeps-remember, Keeps-consume, Keeps-clear, Keeps-guarded,
}
use sts2_training.Api.Wire.Kept.Operations.{
  Keeps-deadline, Keeps-checked, Keeps-request, Keeps-accept_start, Keeps-accept_decision,
  Keeps-accept_close, Keeps-finish, Keeps-sent, Keeps-start, Keeps-decide, Keeps-close,
  Keeps-branches, Keeps-selected, Keeps-commit, Keeps-emulate, Keeps-execute_emulate,
  Keeps-emulate_batch,
}

module _ {L A : Type 0} (Q : L → List Fields → Type 0) where
  Keeps-set_cleanup : (k : Option Cleanup) → Keeps {A = A} Q (modify (set_cleanup k))
  unfolding set_cleanup
  Keeps-set_cleanup k = Keeps-modify Q _ (λ c. (refl, refl))

  Keeps-unless_pending : (q : Fields) → Keeps {A = A} Q (modify (unless_pending q))
  unfolding unless_pending
  Keeps-unless_pending q = Keeps-modify Q _ (λ c. (ground arith, ground arith))

  Keeps-drop : (q : Fields) → Keeps {A = A} Q (modify (drop_cleanup_for q))
  unfolding drop_cleanup_for
  Keeps-drop q = Keeps-modify Q _ (λ c. (ground arith, ground arith))

  Keeps-defer :
      (t : Fields) (i : String) (ids : List String)
      → Keeps {A = A} Q (defer_branch_cleanup_after_retry t i ids)
  unfolding defer_branch_cleanup_after_retry
  Keeps-defer t i ids =
      let k : Cleanup = record { source = t; instance = i; branch_ids = deduplicate [] ids } in
      Keeps-checked Q (λ c. not c.session_invalid) runtime_error _
        (Keeps-checked Q (λ c. is_token c.pending_retry t) value_error _
          (Keeps-checked Q (λ c. is_deferrable t i ids) value_error _
            (Keeps-checked Q (λ c. compatible c.pending_retry_cleanup k) runtime_error _
              (Keeps-set_cleanup (some k)))))

module _ {L A : Type 0} (Q : L → List Fields → Type 0) (env : Environment L A)
    (law : Relates Q env) where
  Keeps-send : (q : Fields) → Keeps Q (send_cleanup env q)
  unfolding send_cleanup
  Keeps-send q = Keeps-catch Q _ _ (Keeps-sent Q env law q _ λ r. Keeps-consume Q q) λ e.
      Keeps-bind Q (modify (unless_pending q)) _ (Keeps-unless_pending Q q) λ _. Keeps-raise Q e

  Keeps-release : (i : String) (ids : List String) → Keeps Q (release_now env i ids)
  unfolding release_now
  Keeps-release i ids = Keeps-request Q _ _ λ q.
      Keeps-bind Q (modify (set_cleanup _)) _ (Keeps-set_cleanup Q _) λ _.
        Keeps-bind Q (remember_pending q) _ (Keeps-remember Q q)
          λ _. Keeps-bind Q (send_cleanup env q) _ (Keeps-send q) λ _. Keeps-set_cleanup Q none

  Keeps-rest : (i : String) (ids : List String) → Keeps Q (release_rest env i ids)
  unfolding release_rest
  Keeps-rest i [] = Keeps-set_cleanup Q none
  Keeps-rest i (b ∷ bs) = Keeps-release i (b ∷ bs)

  Keeps-complete_for :
      (t : Fields) (b : Bool) (k : Option Cleanup) → Keeps Q (complete_for env t b k)
  unfolding complete_for
  Keeps-complete_for t b none = Keeps-pure Q tt
  Keeps-complete_for t b (some k) = elim (Bool-cases (same k.source t)) [
    | inl e ↦ rw e (Keeps-rest k.instance _)
    | inr e ↦ rw e (Keeps-pure Q tt)
  ]

  Keeps-complete : (t : Fields) (b : Bool) → Keeps Q (complete_deferred_branch_cleanup env t b)
  unfolding complete_deferred_branch_cleanup
  Keeps-complete t b = record {
    at = λ c h. (Keeps-complete_for t b c.pending_retry_cleanup).at c h;
  }

  Keeps-after_error : {B : Type 0} (p e : Exc) → Keeps Q (after_cleanup_error env {B = B} p e)
  unfolding after_cleanup_error
  Keeps-after_error p e = elim (Bool-cases (is_cancelled e)) [
    | inl k ↦ rw k (Keeps-raise Q e)
    | inr k ↦ rw k (elim (Bool-cases (is_rejection p)) [
      | inl j ↦ rw j (Keeps-raise Q p)
      | inr j ↦ rw j (Keeps-raise Q e)
    ])
  ]

  Keeps-cleanup : (t : Fields) (e : Exc) → Keeps Q (cleanup_after_error env t e)
  unfolding cleanup_after_error
  Keeps-cleanup t e = record {
    at = λ c h. elim (Bool-cases (resolved c)) [
      | inl r ↦ rw r (
          (Keeps-catch Q (complete_deferred_branch_cleanup env t (not (is_rejection e)))
              (after_cleanup_error env e) (Keeps-complete t _) (Keeps-after_error e)).at
            c h)
      | inr r ↦ rw r h
    ];
  }

  Keeps-with_cleanup :
      (t : Fields) (m : Exec (Client L A) Fields) → Keeps Q m → Keeps Q (with_cleanup env t m)
  unfolding with_cleanup
  Keeps-with_cleanup t m h =
      Keeps-bind Q (catch m _) _
        (Keeps-catch Q m _ h λ e.
          Keeps-bind Q (cleanup_after_error env t e) _ (Keeps-cleanup t e) λ _. Keeps-raise Q e)
        λ r.
          Keeps-bind Q (complete_deferred_branch_cleanup env t true) _ (Keeps-complete t true)
            λ _. Keeps-pure Q (obj r)

  Keeps-retry_start : (t : Fields) → Keeps Q (retry_start env t)
  unfolding retry_start
  Keeps-retry_start t = Keeps-sent Q env law t _ λ r.
      Keeps-finish Q env law t (guarded env t (accept_start_instance env t r)) _
        (Keeps-guarded Q env law t _ (Keeps-accept_start Q env law t r)) λ i. Keeps-pure Q (str i)

  Keeps-retry_decision : (o : Option String) (t : Fields) → Keeps Q (retry_decision env o t)
  unfolding retry_decision
  Keeps-retry_decision none t = Keeps-raise Q protocol_error
  Keeps-retry_decision (some b) t = Keeps-sent Q env law t _ λ r.
      Keeps-finish Q env law t (guarded env t (accept_get_decision env r b)) _
        (Keeps-guarded Q env law t _ (Keeps-accept_decision Q env law r b))
        λ x. Keeps-pure Q (obj x)

  Keeps-retry_commit : (t : Fields) → Keeps Q (retry_commit env t)
  unfolding retry_commit
  Keeps-retry_commit t =
      Keeps-bind Q (execute_selected_action env t root_branch_id) _
        (Keeps-selected Q env law t root_branch_id) λ x. Keeps-pure Q (obj x)

  Keeps-retry_emulate : (o : Option String) (t : Fields) → Keeps Q (retry_emulate_action env o t)
  unfolding retry_emulate_action
  Keeps-retry_emulate none t = Keeps-raise Q protocol_error
  Keeps-retry_emulate (some p) t = Keeps-with_cleanup t _ (Keeps-selected Q env law t p)

  Keeps-retry_batch : (o : Option Items) (t : Fields) → Keeps Q (retry_emulate_actions env o t)
  unfolding retry_emulate_actions
  Keeps-retry_batch none t = Keeps-raise Q protocol_error
  Keeps-retry_batch (some nil) t = Keeps-raise Q protocol_error
  Keeps-retry_batch (some (cons v r)) t = Keeps-with_cleanup t _ (Keeps-execute_emulate Q env law t)

  Keeps-retry_branches : (t : Fields) → Keeps Q (retry_branch_operation env t)
  unfolding retry_branch_operation
  Keeps-retry_branches t = Keeps-sent Q env law t _ λ r.
      Keeps-bind Q (consume_sequence t) _ (Keeps-consume Q t)
        λ _. Keeps-bind Q (modify (drop_cleanup_for t)) _ (Keeps-drop Q t) λ _. Keeps-pure Q (obj r)

  Keeps-retry_close : (t : Fields) → Keeps Q (retry_close env t)
  unfolding retry_close
  Keeps-retry_close t = Keeps-sent Q env law t _ λ r.
      Keeps-finish Q env law t (guarded env t (accept_close_instance env r)) _
        (Keeps-guarded Q env law t _ (Keeps-accept_close Q env law r))
        λ x.
          Keeps-bind Q (modify clear_instance_extensions) _ (Keeps-clear Q)
            λ _. Keeps-pure Q (obj x)

  Keeps-replay : (t : Fields) → Keeps Q (replay env t)
  unfolding replay
  Keeps-replay t =
      let is : List String → Bool = is_one_of (get "operation" t) in
      Keeps-if Q (is ("start_instance" ∷ [])) _ _ (Keeps-retry_start t) (
        Keeps-if Q (is ("get_decision" ∷ [])) _ _
          (Keeps-retry_decision (as_text (get "branch_id" t)) t)
          (Keeps-if Q (is ("commit_action" ∷ [])) _ _ (Keeps-retry_commit t) (
            Keeps-if Q (is ("emulate_action" ∷ [])) _ _
              (Keeps-retry_emulate (as_text (get "parent_branch_id" t)) t)
              (Keeps-if Q (is ("emulate_actions" ∷ [])) _ _
                (Keeps-retry_batch (as_items (get "items" t)) t)
                (Keeps-if Q (is ("cancel_branches" ∷ "release_branches" ∷ "get_branch_status" ∷ []))
                  _ _ (Keeps-retry_branches t)
                  (Keeps-if Q (is ("close_instance" ∷ [])) _ _ (Keeps-retry_close t)
                    (Keeps-raise Q value_error)))))))

  Keeps-retry : (a : Admission) (t : Fields) → Keeps Q (retry_request env a t)
  unfolding retry_request
  Keeps-retry a t =
      Keeps-checked Q (λ c. not c.session_invalid) runtime_error _
        (Keeps-checked Q (λ c. is_set c.pending_retry) runtime_error _
          (Keeps-checked Q (λ c. is_token c.pending_retry t) value_error _
            (Keeps-deadline Q a _ (Keeps-replay t))))

  step-Holds : (k : Command) (c : Client L A) → Holds Q c → Holds Q (step env k c)
  unfolding step
  step-Holds (start a config) c h = (Keeps-start Q env law a config).at c h
  step-Holds (decide a i b) c h = (Keeps-decide Q env law a i b).at c h
  step-Holds (commit a i p x) c h = (Keeps-commit Q env law a i p x).at c h
  step-Holds (emulate a i p b r d x o) c h = (Keeps-emulate Q env law a i p b r d x o).at c h
  step-Holds (emulate_batch a i items o) c h = (Keeps-emulate_batch Q env law a i items o).at c h
  step-Holds (cancel a i ids) c h = (Keeps-branches Q env law a "cancel_branches" i ids).at c h
  step-Holds (release a i ids) c h = (Keeps-branches Q env law a "release_branches" i ids).at c h
  step-Holds (branch_status a i ids) c h =
      (Keeps-branches Q env law a "get_branch_status" i ids).at c h
  step-Holds (close a i) c h = (Keeps-close Q env law a i).at c h
  step-Holds (retry a t) c h = (Keeps-retry a t).at c h
  step-Holds (defer_cleanup t i ids) c h = (Keeps-defer Q t i ids).at c h

  pub run-Holds : (ks : List Command) (c : Client L A) → Holds Q c → Holds Q (run env ks c)
  unfolding run
  run-Holds [] c h = h
  run-Holds (k ∷ ks) c h = run-Holds ks (step env k c) (step-Holds k c h)
