-- ===== src/Api/Wire/Kept/Operations.antt =====
-- async_client.py: the methods that send a fresh request.
use sts2_training.Base.{
  arith, refl, String, Bool, Option, none, some, List, [], ◌∷◌, inl, inr, Bool-cases,
}
use sts2_training.Base.Outcome.{Result, ok, err}
use sts2_training.Json.{Fields, Value, null, int, bool, float, str, obj, arr, get, as_items}
use sts2_training.Api.Errors.{
  Exc, value_error, runtime_error, operation_error, root_branch_id, is_one_of,
}
use sts2_training.Api.Exec.{Exec, lift, modify, ◌>>=◌}
use sts2_training.Api.Responses.{validate_selected_action, require_status}
use sts2_training.Api.Interface.{Environment}
use sts2_training.Api.Client.{Client}
use sts2_training.Api.Client.Accept.{
  accept_start_instance, accept_get_decision, accept_close_instance, started_state,
  remember_decision, apply_if_ok, check_started, check_decision,
}
use sts2_training.Api.Client.Execute.{
  consume_sequence, ensure_fresh_request_allowed, clear_instance_extensions, execute, guarded,
  forget_instance,
}
use sts2_training.Api.Client.Operations.{
  Admission, bad_timeout, lock_timeout, lock_cancelled, granted, with_deadline, build, check,
  note_instance_type, start_instance, get_decision, close_instance, branch_batch_operation,
  record_selected_action, record_failure, recorded, validate_selected, execute_selected_action,
  commit_action, emulate_action, record_item, record_items, items_of, record_batch,
  record_batch_failure, recorded_batch, execute_emulate_actions, emulate_actions, no_instance,
}
use sts2_training.Api.Wire.Kept.{
  Keeps, Keeps-Same, Keeps-pure, Keeps-raise, Keeps-lift, Keeps-catch, Keeps-modify, Keeps-bind,
  Same,
}
use sts2_training.Api.Wire.Kept.Execute.{
  Relates, Keeps-consume, Keeps-fresh, Keeps-clear, Keeps-execute, Keeps-guarded,
}

module _ {L A B : Type 0} (Q : L → List Fields → Type 0) where
  pub Keeps-deadline :
      (a : Admission) (m : Exec (Client L A) B) → Keeps Q m → Keeps Q (with_deadline a m)
  unfolding with_deadline
  Keeps-deadline bad_timeout m h = Keeps-raise Q _
  Keeps-deadline lock_timeout m h = Keeps-raise Q _
  Keeps-deadline lock_cancelled m h = Keeps-raise Q _
  Keeps-deadline granted m h = h

module _ {L A : Type 0} (Q : L → List Fields → Type 0) where
  pub Keeps-build : (f : Client L A → Result Exc Fields) → Keeps Q (build f)
  unfolding build
  Keeps-build f = record { at = λ c h. h }

  pub Keeps-check : (f : Client L A → Bool) (e : Exc) → Keeps Q (check f e)
  unfolding check
  Keeps-check f e = Keeps-Same Q _ (λ c. (ground arith, ground arith))

  pub Keeps-checked :
      {B : Type 0} (f : Client L A → Bool) (e : Exc) (m : Exec (Client L A) B)
      → Keeps Q m
      → Keeps Q (check f e >>= λ _. m)
  Keeps-checked f e m h = Keeps-bind Q (check f e) _ (Keeps-check f e) λ _. h

  -- a fresh request that is built and then sent
  pub Keeps-request :
      {B : Type 0} (f : Client L A → Result Exc Fields) (k : Fields → Exec (Client L A) B)
      → ((q : Fields) → Keeps Q (k q))
      → Keeps Q (build f >>= k)
  Keeps-request f k h = Keeps-bind Q (build f) k (Keeps-build f) h

  pub Keeps-after_fresh :
      {B : Type 0} (m : Exec (Client L A) B)
      → Keeps Q m
      → Keeps Q (ensure_fresh_request_allowed >>= λ _. m)
  Keeps-after_fresh m h = Keeps-bind Q ensure_fresh_request_allowed _ (Keeps-fresh Q) λ _. h

module _ {L A : Type 0} (Q : L → List Fields → Type 0) (env : Environment L A)
    (law : Relates Q env) where
  apply_if_ok-Same :
      {B : Type 0} (f : B → Client L A → Client L A) (r : Result Exc B) (c : Client L A)
      → ((b : B) → Same c (f b c))
      → Same c (apply_if_ok env f r c)
  apply_if_ok-Same f (ok b) c h = h b
  apply_if_ok-Same f (err e) c h = (refl, refl)

  pub Keeps-accept_start : (q r : Fields) → Keeps Q (accept_start_instance env q r)
  unfolding accept_start_instance started_state
  Keeps-accept_start q r =
      Keeps-Same Q (accept_start_instance env q r)
        λ c. apply_if_ok-Same (started_state env r) (check_started q r) c λ s. (refl, refl)

  remember_decision-Same : (r : Fields) (c : Client L A) → Same c (remember_decision env r c)
  unfolding remember_decision
  remember_decision-Same r c = elim (Bool-cases (is_one_of (get "status" r) ("completed" ∷ []))) [
    | inl e ↦ rw e (refl, refl)
    | inr e ↦ rw e (refl, refl)
  ]

  pub Keeps-accept_decision : (r : Fields) (b : String) → Keeps Q (accept_get_decision env r b)
  unfolding accept_get_decision
  Keeps-accept_decision r b = Keeps-Same Q (accept_get_decision env r b) λ c.
      apply_if_ok-Same (λ _. remember_decision env r) (check_decision r b) c
        λ u. remember_decision-Same r c

  pub Keeps-accept_close : (r : Fields) → Keeps Q (accept_close_instance env r)
  unfolding accept_close_instance forget_instance
  Keeps-accept_close r = Keeps-Same Q (accept_close_instance env r) λ c.
      apply_if_ok-Same (λ _. forget_instance env) (require_status r ("completed" ∷ [])) c
        λ u. (refl, refl)

  -- the end of a method: the number is used up and the result is returned
  pub Keeps-finish :
      {B X : Type 0} (q : Fields) (m : Exec (Client L A) B) (k : B → Exec (Client L A) X)
      → Keeps Q m
      → ((b : B) → Keeps Q (k b))
      → Keeps Q (m >>= λ b. consume_sequence q >>= λ _. k b)
  Keeps-finish q m k h f =
      Keeps-bind Q m _ h λ b. Keeps-bind Q (consume_sequence q) _ (Keeps-consume Q q) λ _. f b

  pub Keeps-sent :
      {B : Type 0} (q : Fields) (k : Fields → Exec (Client L A) B)
      → ((r : Fields) → Keeps Q (k r))
      → Keeps Q (execute env q >>= k)
  Keeps-sent q k h = Keeps-bind Q (execute env q) k (Keeps-execute Q env law q) h

  note-Keeps : (config : Fields) → Keeps Q (modify (note_instance_type {L = L} {A = A} config))
  unfolding note_instance_type
  note-Keeps config = Keeps-modify Q _ (λ c. (refl, refl))

  pub Keeps-start : (a : Admission) (config : Fields) → Keeps Q (start_instance env a config)
  unfolding start_instance
  Keeps-start a config = Keeps-deadline Q a _ (
      Keeps-after_fresh Q _ (
        Keeps-bind Q (check no_instance runtime_error) _ (Keeps-check Q _ _) λ _.
          Keeps-bind Q (check _ value_error) _ (Keeps-check Q _ _) λ _.
            Keeps-bind Q (modify (note_instance_type config)) _ (note-Keeps config) λ _.
              Keeps-request Q _ _ λ q. Keeps-sent q _ λ r.
                Keeps-finish q (guarded env q (accept_start_instance env q r)) _
                  (Keeps-guarded Q env law q _ (Keeps-accept_start q r)) (Keeps-pure Q)))

  pub Keeps-decide : (a : Admission) (i b : String) → Keeps Q (get_decision env a i b)
  unfolding get_decision
  Keeps-decide a i b = Keeps-deadline Q a _ (
      Keeps-after_fresh Q _ (
        Keeps-request Q _ _ λ q. Keeps-sent q _ λ r.
          Keeps-finish q (guarded env q (accept_get_decision env r b)) _
            (Keeps-guarded Q env law q _ (Keeps-accept_decision r b)) (Keeps-pure Q)))

  pub Keeps-close : (a : Admission) (i : String) → Keeps Q (close_instance env a i)
  unfolding close_instance
  Keeps-close a i = Keeps-deadline Q a _ (
      Keeps-after_fresh Q _ (
        Keeps-request Q _ _ λ q. Keeps-sent q _ λ r.
          Keeps-finish q (guarded env q (accept_close_instance env r)) _
            (Keeps-guarded Q env law q _ (Keeps-accept_close r))
            λ x.
              Keeps-bind Q (modify clear_instance_extensions) _ (Keeps-clear Q)
                λ _. Keeps-pure Q x))

  pub Keeps-branches :
      (a : Admission) (op i : String) (ids : List String)
      → Keeps Q (branch_batch_operation env a op i ids)
  unfolding branch_batch_operation
  Keeps-branches a op i ids = Keeps-deadline Q a _ (
      Keeps-after_fresh Q _ (
        Keeps-request Q _ _ λ q.
          Keeps-sent q _
            λ r. Keeps-bind Q (consume_sequence q) _ (Keeps-consume Q q) λ _. Keeps-pure Q r))

  Keeps-record :
      (q : Fields) (s : String) (r : Option Fields) (e : Option Exc)
      → Keeps Q (record_selected_action env q s r e)
  unfolding record_selected_action
  Keeps-record q s r e = record { at = λ c h. h }

  Keeps-record_failure :
      (q : Fields) (s : String) (r : Option Fields) (e : Exc) → Keeps Q (record_failure env q s r e)
  unfolding record_failure
  Keeps-record_failure q s r (operation_error x) = Keeps-record q s (some x) none
  Keeps-record_failure q s r e = Keeps-record q s r (some e)

  Keeps-recorded :
      {B : Type 0} (q : Fields) (s : String) (r : Option Fields) (m : Exec (Client L A) B)
      → Keeps Q m
      → Keeps Q (recorded env q s r m)
  unfolding recorded
  Keeps-recorded q s r m h = Keeps-catch Q m _ h λ e.
      Keeps-bind Q (record_failure env q s r e) _ (Keeps-record_failure q s r e)
        λ _. Keeps-raise Q e

  Keeps-validate : (q r : Fields) → Keeps Q (validate_selected env q r)
  unfolding validate_selected
  Keeps-validate q r =
      Keeps-bind Q (guarded env q (lift (validate_selected_action q r))) _
        (Keeps-guarded Q env law q _ (Keeps-lift Q _)) λ _. Keeps-consume Q q

  pub Keeps-selected : (q : Fields) (s : String) → Keeps Q (execute_selected_action env q s)
  unfolding execute_selected_action
  Keeps-selected q s =
      Keeps-bind Q (recorded env q s none (execute env q)) _
        (Keeps-recorded q s none _ (Keeps-execute Q env law q))
        λ r.
          Keeps-bind Q (recorded env q s (some r) (validate_selected env q r)) _
            (Keeps-recorded q s (some r) _ (Keeps-validate q r))
            λ _.
              Keeps-bind Q (record_selected_action env q s (some r) none) _
                (Keeps-record q s (some r) none) λ _. Keeps-pure Q r

  pub Keeps-commit : (a : Admission) (i p x : String) → Keeps Q (commit_action env a i p x)
  unfolding commit_action
  Keeps-commit a i p x =
      Keeps-deadline Q a _
        (Keeps-after_fresh Q _ (Keeps-request Q _ _ λ q. Keeps-selected q root_branch_id))

  pub Keeps-emulate :
      (a : Admission) (i p b : String) (r : Value) (d x : String) (o : Option Fields)
      → Keeps Q (emulate_action env a i p b r d x o)
  unfolding emulate_action
  Keeps-emulate a i p b r d x o =
      Keeps-deadline Q a _ (Keeps-after_fresh Q _ (Keeps-request Q _ _ λ q. Keeps-selected q p))

  Keeps-record_items :
      (q : Fields) (r : Option Fields) (e : Option Exc) (vs : List Value)
      → Keeps Q (record_items env q r e vs)
  unfolding record_items record_item
  Keeps-record_items q r e [] = Keeps-pure Q tt
  Keeps-record_items q r e (obj item ∷ rest) =
      Keeps-bind Q (record_item env q r e item) _ (Keeps-record _ _ _ e)
        λ _. Keeps-record_items q r e rest
  Keeps-record_items q r e (null ∷ rest) = Keeps-record_items q r e rest
  Keeps-record_items q r e (bool b ∷ rest) = Keeps-record_items q r e rest
  Keeps-record_items q r e (int n ∷ rest) = Keeps-record_items q r e rest
  Keeps-record_items q r e (float x ∷ rest) = Keeps-record_items q r e rest
  Keeps-record_items q r e (str s ∷ rest) = Keeps-record_items q r e rest
  Keeps-record_items q r e (arr xs ∷ rest) = Keeps-record_items q r e rest

  Keeps-batch : (q : Fields) (r : Option Fields) (e : Option Exc) → Keeps Q (record_batch env q r e)
  unfolding record_batch
  Keeps-batch q r e = Keeps-record_items q r e (items_of (as_items (get "items" q)))

  Keeps-batch_failure :
      (q : Fields) (r : Option Fields) (e : Exc) → Keeps Q (record_batch_failure env q r e)
  unfolding record_batch_failure
  Keeps-batch_failure q r (operation_error x) = Keeps-batch q (some x) none
  Keeps-batch_failure q r e = Keeps-batch q r (some e)

  Keeps-recorded_batch :
      {B : Type 0} (q : Fields) (r : Option Fields) (m : Exec (Client L A) B)
      → Keeps Q m
      → Keeps Q (recorded_batch env q r m)
  unfolding recorded_batch
  Keeps-recorded_batch q r m h = Keeps-catch Q m _ h λ e.
      Keeps-bind Q (record_batch_failure env q r e) _ (Keeps-batch_failure q r e)
        λ _. Keeps-raise Q e

  pub Keeps-execute_emulate : (q : Fields) → Keeps Q (execute_emulate_actions env q)
  unfolding execute_emulate_actions
  Keeps-execute_emulate q =
      Keeps-bind Q (recorded_batch env q none (execute env q)) _
        (Keeps-recorded_batch q none _ (Keeps-execute Q env law q))
        λ r.
          Keeps-bind Q (recorded_batch env q (some r) (consume_sequence q)) _
            (Keeps-recorded_batch q (some r) _ (Keeps-consume Q q))
            λ _.
              Keeps-bind Q (record_batch env q (some r) none) _ (Keeps-batch q (some r) none)
                λ _. Keeps-pure Q r

  pub Keeps-emulate_batch :
      (a : Admission) (i : String) (items : List Value) (o : Option Fields)
      → Keeps Q (emulate_actions env a i items o)
  unfolding emulate_actions
  Keeps-emulate_batch a i items o =
      Keeps-deadline Q a _ (Keeps-after_fresh Q _ (Keeps-request Q _ _ Keeps-execute_emulate))
