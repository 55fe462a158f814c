-- ===== src/Api/Wire/Operations.antt =====
-- Every fresh operation keeps the discipline of the wire, on every branch.
use sts2_training.Base.{
  ◌≡◌, String, Bool, true, false, not, Option, none, some, List, arith, if◌then◌else◌,
}
use sts2_training.Base.Outcome.{Result, ok, err}
use sts2_training.Json.{Fields, Value, get, hashable}
use sts2_training.Api.Errors.{Exc, value_error, runtime_error, root_branch_id}
use sts2_training.Api.Exec.{Exec, pure, modify, ◌>>=◌}
use sts2_training.Api.Interface.{Environment, Laws}
use sts2_training.Api.Client.{Client}
use sts2_training.Api.Client.Execute.{
  execute, guarded, consume_sequence, ensure_fresh_request_allowed, clear_instance_extensions,
}
use sts2_training.Api.Client.Accept.{
  accept_start_instance, accept_get_decision, accept_close_instance,
}
use sts2_training.Api.Client.Operations.{
  record_selected_action, recorded, validate_selected, record_batch, recorded_batch, no_instance,
  note_instance_type, restores_whole_run, Admission, bad_timeout, lock_timeout, lock_cancelled,
  granted, with_deadline, build, check, start_instance, get_decision, close_instance,
  branch_batch_operation, commit_action, emulate_action, emulate_actions, execute_selected_action,
  execute_emulate_actions,
}
use sts2_training.Api.Wire.{core, IsIdle, IsDead, idle, stuck, dead, fresh}
use sts2_training.Api.Wire.Triple.{
  Post, Triple, Triple-pure, Triple-raise, Triple-weaken, Triple-map, Triple-modify, Triple-bind,
}
use sts2_training.Api.Wire.Execute.{
  InFlight, Safe, Turn, Idle, Stuck, Taken, Triple-consume_sequence, Triple-execute, Triple-guarded,
}
use sts2_training.Api.Wire.Accept.{
  Triple-accept_start_instance, Triple-accept_get_decision, Triple-accept_close_instance,
}
use sts2_training.Api.Wire.Recording.{
  Triple-record, Triple-recorded, Triple-validate_selected, Triple-record_batch,
  Triple-recorded_batch,
}
use sts2_training.Api.Wire.Built.{
  Returns, Own, build_start_instance-Own, build_close_instance-Own, build_get_decision-Own,
  build_commit_action-Own, build_emulate_action-Own, build_emulate_actions-Own,
  build_branch_batch_operation-Own,
}

module _ {L A B : Type 0} where
  -- A call that starts between two calls, and ends there.
  abbrev pub Call : Exec (Client L A) B → Type 0
  Call m = Triple Safe m (λ _. Idle) (λ _. Safe)

  pub Triple-with_deadline :
      (a : Admission) (m : Exec (Client L A) B) → Call m → Call (with_deadline a m)
  unfolding with_deadline
  Triple-with_deadline bad_timeout m t = Triple-raise _ (λ c h. h)
  Triple-with_deadline lock_timeout m t = Triple-raise _ (λ c h. h)
  Triple-with_deadline lock_cancelled m t = Triple-raise _ (λ c h. h)
  Triple-with_deadline granted m t = t

module _ {L A : Type 0} where
  ensure_ok : (c : Client L A) → Idle c → ensure_fresh_request_allowed c ≡ (ok tt, c)
  unfolding ensure_fresh_request_allowed
  ensure_ok c h =
      let l : c.session_invalid ≡ false = h.live in
      let f : c.pending_retry ≡ none = h.free in ground arith

  ensure-Stuck :
      (t : Fields) (c : Client L A)
      → Stuck t c
      → ensure_fresh_request_allowed c ≡ (err runtime_error, c)
  unfolding ensure_fresh_request_allowed
  ensure-Stuck t c h =
      let l : c.session_invalid ≡ false = h.live in
      let f : c.pending_retry ≡ some t = h.kept in ground arith

  ensure_dead :
      (c : Client L A) → IsDead (core c) → ensure_fresh_request_allowed c ≡ (err runtime_error, c)
  unfolding ensure_fresh_request_allowed
  ensure_dead c h = let l : c.session_invalid ≡ true = h.invalid in ground arith

  ensure-Post :
      (c : Client L A)
      → Safe c
      → Post
          (λ _. Idle)
          (λ _. Safe)
          (ensure_fresh_request_allowed c).0
          (ensure_fresh_request_allowed c).1
  ensure-Post c (idle h) = rw (ensure_ok c h) h
  ensure-Post c (stuck t h) = rw (ensure-Stuck t c h) (stuck t h)
  ensure-Post c (dead h) = rw (ensure_dead c h) (dead h)

  pub Triple-ensure_fresh :
      Triple (Safe {L = L} {A = A}) ensure_fresh_request_allowed (λ _. Idle) (λ _. Safe)
  Triple-ensure_fresh = record { at = ensure-Post }

  abbrev pub tested : Bool → Exc → Client L A → Result Exc (Unit {0}) × Client L A
  tested b e c = if b then (ok tt, c) else (err e, c)

  tested-Post :
      (P : Client L A → Type 0) (b : Bool) (e : Exc) (c : Client L A)
      → P c
      → Post (λ _. P) (λ _. P) (tested b e c).0 (tested b e c).1
  tested-Post P true e c h = h
  tested-Post P false e c h = h

  pub Triple-check :
      (P : Client L A → Type 0) (f : Client L A → Bool) (e : Exc)
      → Triple P (check f e) (λ _. P) (λ _. P)
  unfolding check
  Triple-check P f e = record { at = λ c h. tested-Post P (f c) e c h }

  build-Post :
      (c : Client L A) (r : Result Exc Fields)
      → Returns (Own c.client_session_id c.next_request_seq) r
      → Idle c
      → Post Turn (λ _. Safe) r c
  build-Post c (ok q) (n, s) h = fresh h (record { numbered = n; owned = s })
  build-Post c (err e) o h = idle h

  pub Triple-build :
      (f : Client L A → Result Exc Fields)
      → ((c : Client L A) → Returns (Own c.client_session_id c.next_request_seq) (f c))
      → Triple Idle (build f) Turn (λ _. Safe)
  unfolding build
  Triple-build f own = record { at = λ c h. build-Post c (f c) (own c) h }

module _ {L A : Type 0} (env : Environment L A) (laws : Laws env) where
  pub Triple-execute_selected_action :
      (q : Fields) (s : String)
      → Triple (Turn q) (execute_selected_action env q s) (λ _. Idle) (λ _. Safe)
  unfolding execute_selected_action
  Triple-execute_selected_action q s =
      Triple-bind (Taken env q) (recorded env q s none (execute env q)) _
        (Triple-recorded env (Turn q) (Taken env q) q s none (execute env q)
          (Triple-execute env q laws))
        λ r.
          Triple-bind (λ _. Idle) (recorded env q s (some r) (validate_selected env q r)) _
            (Triple-recorded env (Taken env q r) (λ _. Idle) q s (some r)
              (validate_selected env q r)
              (Triple-weaken (InFlight q) _ (λ c h. h.0) (Triple-validate_selected env q r)))
            λ _.
              Triple-bind (λ _. Idle) (record_selected_action env q s (some r) none) _
                (Triple-map (λ _. Idle) (λ _. Idle) _ (λ _ c h. h) (λ _ c h. idle h)
                  (Triple-record env IsIdle q s (some r) none))
                λ _. Triple-pure r (λ c h. h)

  pub Triple-execute_emulate_actions :
      (q : Fields) → Triple (Turn q) (execute_emulate_actions env q) (λ _. Idle) (λ _. Safe)
  unfolding execute_emulate_actions
  Triple-execute_emulate_actions q =
      Triple-bind (Taken env q) (recorded_batch env q none (execute env q)) _
        (Triple-recorded_batch env (Turn q) (Taken env q) q none (execute env q)
          (Triple-execute env q laws))
        λ r.
          Triple-bind (λ _. Idle) (recorded_batch env q (some r) (consume_sequence q)) _
            (Triple-recorded_batch env (Taken env q r) (λ _. Idle) q (some r) (consume_sequence q)
              (Triple-weaken (InFlight q) _ (λ c h. h.0) (Triple-consume_sequence q)))
            λ _.
              Triple-bind (λ _. Idle) (record_batch env q (some r) none) _
                (Triple-map (λ _. Idle) (λ _. Idle) _ (λ _ c h. h) (λ _ c h. idle h)
                  (Triple-record_batch env IsIdle q (some r) none))
                λ _. Triple-pure r (λ c h. h)

  -- The first steps of a fresh operation, and what it does with its request.
  fresh_request :
      {B : Type 0} (f : Client L A → Result Exc Fields) (k : Fields → Exec (Client L A) B)
      → ((c : Client L A) → Returns (Own c.client_session_id c.next_request_seq) (f c))
      → ((q : Fields) → Triple (Turn q) (k q) (λ _. Idle) (λ _. Safe))
      → Call (ensure_fresh_request_allowed >>= λ _. build f >>= k)
  fresh_request f k own t =
      Triple-bind (λ _. Idle) ensure_fresh_request_allowed _ Triple-ensure_fresh
        λ _. Triple-bind Turn (build f) k (Triple-build f own) t

  pub consumed :
      {B : Type 0} (q : Fields) (b : B)
      → Triple
          (InFlight {L = L} {A = A} q)
          (consume_sequence q >>= λ _. pure b)
          (λ _. Idle)
          (λ _. Safe)
  consumed q b =
      Triple-bind (λ _. Idle) (consume_sequence q) _ (Triple-consume_sequence q)
        λ _. Triple-pure b (λ c h. h)

  -- An acceptance that needs a status that can be looked up.
  pub accepted :
      {B : Type 0} (q r : Fields) (m : Exec (Client L A) B)
      → (hashable (get "status" r) ≡ true
          → Triple (InFlight q) (guarded env q m) (λ _. InFlight q) (λ _. Safe))
      → Triple (Taken env q r) (guarded env q m) (λ _. InFlight q) (λ _. Safe)
  accepted q r m t = record { at = λ c h. (t h.1).at c h.0 }

  pub get_decision-Call : (a : Admission) (i b : String) → Call (get_decision env a i b)
  unfolding get_decision
  get_decision-Call a i b = Triple-with_deadline a _ (
      fresh_request _ _
        (λ c. build_get_decision-Own c.client_session_id c.next_request_seq c.instance_id i b)
        λ q. Triple-bind (Taken env q) (execute env q) _ (Triple-execute env q laws) λ r.
          Triple-bind (λ _. InFlight q) (guarded env q (accept_get_decision env r b)) _
            (accepted q r _ λ k. Triple-guarded env q _ (Triple-accept_get_decision env q r b))
            λ x. consumed q x)

  pub branch_batch_operation-Call :
      (a : Admission) (op i : String) (ids : List String)
      → Call (branch_batch_operation env a op i ids)
  unfolding branch_batch_operation
  branch_batch_operation-Call a op i ids = Triple-with_deadline a _ (
      fresh_request _ _
        (λ c.
          build_branch_batch_operation-Own c.client_session_id c.next_request_seq c.instance_id op i
            ids)
        λ q.
          Triple-bind (Taken env q) (execute env q) _ (Triple-execute env q laws)
            λ r. Triple-weaken (InFlight q) _ (λ c h. h.0) (consumed q r))

  pub commit_action-Call : (a : Admission) (i p x : String) → Call (commit_action env a i p x)
  unfolding commit_action
  commit_action-Call a i p x = Triple-with_deadline a _ (
      fresh_request _ _
        (λ c. build_commit_action-Own c.client_session_id c.next_request_seq c.instance_id i p x)
        λ q. Triple-execute_selected_action q root_branch_id)

  pub emulate_action-Call :
      (a : Admission) (i p b : String) (r : Value) (d x : String) (o : Option Fields)
      → Call (emulate_action env a i p b r d x o)
  unfolding emulate_action
  emulate_action-Call a i p b r d x o = Triple-with_deadline a _ (
      fresh_request _ _
        (λ c.
          build_emulate_action-Own c.client_session_id c.next_request_seq c.instance_id i p b r d x
            o)
        λ q. Triple-execute_selected_action q p)

  pub emulate_actions-Call :
      (a : Admission) (i : String) (items : List Value) (o : Option Fields)
      → Call (emulate_actions env a i items o)
  unfolding emulate_actions
  emulate_actions-Call a i items o = Triple-with_deadline a _ (
      fresh_request _ _
        (λ c.
          build_emulate_actions-Own c.client_session_id c.next_request_seq c.instance_id
            c.max_emulate_actions_items i items o)
        Triple-execute_emulate_actions)

  pub cleared :
      {B : Type 0} (q : Fields) (b : B)
      → Triple
          (InFlight {L = L} {A = A} q)
          (consume_sequence q >>= λ _. modify clear_instance_extensions >>= λ _. pure b)
          (λ _. Idle)
          (λ _. Safe)
  unfolding clear_instance_extensions
  cleared q b =
      Triple-bind (λ _. Idle) (consume_sequence q) _ (Triple-consume_sequence q)
        λ _.
          Triple-bind (λ _. Idle) (modify clear_instance_extensions) _
            (Triple-modify clear_instance_extensions (λ c h. h)) λ _. Triple-pure b (λ c h. h)

  pub close_instance-Call : (a : Admission) (i : String) → Call (close_instance env a i)
  unfolding close_instance
  close_instance-Call a i = Triple-with_deadline a _ (
      fresh_request _ _
        (λ c. build_close_instance-Own c.client_session_id c.next_request_seq c.instance_id i)
        λ q. Triple-bind (Taken env q) (execute env q) _ (Triple-execute env q laws) λ r.
          Triple-bind (λ _. InFlight q) (guarded env q (accept_close_instance env r)) _
            (accepted q r _ λ k. Triple-guarded env q _ (Triple-accept_close_instance env q r k))
            λ x. cleared q x)

  pub start_instance-Call : (a : Admission) (config : Fields) → Call (start_instance env a config)
  unfolding start_instance note_instance_type
  start_instance-Call a config = Triple-with_deadline a _ (
      Triple-bind (λ _. Idle) ensure_fresh_request_allowed _ Triple-ensure_fresh
        λ _.
          Triple-bind (λ _. Idle) (check no_instance runtime_error) _
            (test no_instance runtime_error)
            λ _.
              Triple-bind (λ _. Idle) (check (λ _. not (restores_whole_run config)) value_error) _
                (test (λ _. not (restores_whole_run config)) value_error)
                λ _.
                  Triple-bind (λ _. Idle) (modify (note_instance_type config)) _
                    (Triple-modify _ (λ c h. h))
                    λ _.
                      Triple-bind Turn (build _) _
                        (Triple-build _ (λ c.
                          build_start_instance-Own c.client_session_id c.next_request_seq config))
                        λ q.
                          Triple-bind (Taken env q) (execute env q) _ (Triple-execute env q laws)
                            λ r.
                              Triple-bind (λ _. InFlight q)
                                (guarded env q (accept_start_instance env q r)) _
                                (accepted q r _ λ k.
                                  Triple-guarded env q _ (Triple-accept_start_instance env q r k))
                                λ x. consumed q x)
    where
      test : (f : Client L A → Bool) (e : Exc) → Triple Idle (check f e) (λ _. Idle) (λ _. Safe)
      test f e =
          Triple-map (λ _. Idle) (λ _. Idle) _ (λ _ c h. h) (λ _ c h. idle h)
            (Triple-check Idle f e)
