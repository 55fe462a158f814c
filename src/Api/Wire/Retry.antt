-- ===== src/Api/Wire/Retry.antt =====
-- The exact replay of the unresolved request keeps the discipline of the wire.
use sts2_training.Base.{
  ◌≡◌, inl, inr, refl, String, Bool, true, false, not, Option, none, some, List, [], ◌∷◌, arith,
  Bool-cases, if◌then◌else◌, subst,
}
use sts2_training.Json.{Fields, Items, nil, cons, obj, str, get, as_items, as_text}
use sts2_training.Api.Errors.{Exc, value_error, runtime_error, root_branch_id, is_one_of}
use sts2_training.Api.Exec.{Exec, raise, modify}
use sts2_training.Api.Interface.{Environment, Laws}
use sts2_training.Api.Client.{Client}
use sts2_training.Api.Client.Execute.{execute, guarded, consume_sequence}
use sts2_training.Api.Client.Accept.{
  accept_start_instance, accept_get_decision, accept_close_instance,
}
use sts2_training.Api.Client.Operations.{
  Admission, bad_timeout, lock_timeout, lock_cancelled, granted, with_deadline, check,
  execute_selected_action,
}
use sts2_training.Api.Wire.{core, idle, stuck, dead, IsTurn, again, IsTurn-IsSafe}
use sts2_training.Api.Wire.Triple.{
  Post, Triple, Triple-pure, Triple-raise, Triple-weaken, Triple-map, Triple-modify, Triple-bind,
}
use sts2_training.Api.Wire.Execute.{
  InFlight, Safe, Turn, Idle, Taken, Triple-consume_sequence, Triple-execute, Triple-guarded,
}
use sts2_training.Api.Wire.Accept.{
  Triple-accept_start_instance, Triple-accept_get_decision, Triple-accept_close_instance,
}
use sts2_training.Api.Wire.Operations.{
  Call, tested, Triple-execute_selected_action, Triple-execute_emulate_actions, accepted, consumed,
  cleared, Triple-check,
}
use sts2_training.Api.Client.{is_set, is_token}
use sts2_training.Json.{same_iff}
use sts2_training.Api.Client.Retry.{
  Answer, set_cleanup, drop_cleanup_for, retry_start, retry_decision, retry_commit,
  retry_emulate_action, retry_emulate_actions, retry_branch_operation, retry_close, replay,
  retry_request, is_for, defer_branch_cleanup_after_retry, is_deferrable, compatible, deduplicate,
}
use sts2_training.Api.Wire.Cleanup.{Triple-with_cleanup}

checked :
    {L A : Type 0} (P : Client L A → Type 0) (f : Client L A → Bool) (e : Exc)
    → Triple P (check f e) (λ _ c. P c × (f c ≡ true)) (λ _. P)
unfolding check
checked {L} {A} P f e = record { at = λ c h. by_test c (f c) refl h }
  where
    by_test :
        (c : Client L A) (b : Bool)
        → f c ≡ b
        → P c
        → Post (λ (_ : Unit {0}) c. P c × (f c ≡ true)) (λ _. P) (tested b e c).0 (tested b e c).1
    by_test c true t h = (h, t)
    by_test c false t h = h

module _ {L A : Type 0} where
  core-drop_cleanup_for : (t : Fields) (c : Client L A) → core (drop_cleanup_for t c) ≡ core c
  unfolding drop_cleanup_for
  core-drop_cleanup_for t c = elim (Bool-cases (is_for c.pending_retry_cleanup t)) [
    | inl e ↦ rw e
    | inr e ↦ rw e
  ]

module _ {L A : Type 0} (env : Environment L A) (laws : Laws env) where
  abbrev Replay : Fields → Exec (Client L A) Answer → Type 0
  Replay t m = Triple (Turn t) m (λ _. Idle) (λ _. Safe)

  refuse : (t : Fields) (e : Exc) → Replay t (raise e)
  refuse t e = Triple-raise e (λ c h. IsTurn-IsSafe h)

  retry_start-Replay : (t : Fields) → Replay t (retry_start env t)
  unfolding retry_start
  retry_start-Replay t =
      Triple-bind (Taken env t) (execute env t) _ (Triple-execute env t laws) λ r.
        Triple-bind (λ _. InFlight t) (guarded env t (accept_start_instance env t r)) _
          (accepted env laws t r _
            λ k. Triple-guarded env t _ (Triple-accept_start_instance env t r k))
          λ x. consumed env laws t (str x)

  retry_decision-Replay : (b : Option String) (t : Fields) → Replay t (retry_decision env b t)
  unfolding retry_decision
  retry_decision-Replay none t = refuse t _
  retry_decision-Replay (some b) t =
      Triple-bind (Taken env t) (execute env t) _ (Triple-execute env t laws) λ r.
        Triple-bind (λ _. InFlight t) (guarded env t (accept_get_decision env r b)) _
          (accepted env laws t r _
            λ k. Triple-guarded env t _ (Triple-accept_get_decision env t r b))
          λ x. consumed env laws t (obj x)

  retry_commit-Replay : (t : Fields) → Replay t (retry_commit env t)
  unfolding retry_commit
  retry_commit-Replay t =
      Triple-bind (λ _. Idle) (execute_selected_action env t root_branch_id) _
        (Triple-execute_selected_action env laws t root_branch_id)
        λ r. Triple-pure (obj r) (λ c h. h)

  retry_emulate_action-Replay :
      (b : Option String) (t : Fields) → Replay t (retry_emulate_action env b t)
  unfolding retry_emulate_action
  retry_emulate_action-Replay none t = refuse t _
  retry_emulate_action-Replay (some b) t =
      Triple-with_cleanup env laws t _ (Triple-execute_selected_action env laws t b)

  retry_emulate_actions-Replay :
      (o : Option Items) (t : Fields) → Replay t (retry_emulate_actions env o t)
  unfolding retry_emulate_actions
  retry_emulate_actions-Replay none t = refuse t _
  retry_emulate_actions-Replay (some nil) t = refuse t _
  retry_emulate_actions-Replay (some (cons v r)) t =
      Triple-with_cleanup env laws t _ (Triple-execute_emulate_actions env laws t)

  retry_branch_operation-Replay : (t : Fields) → Replay t (retry_branch_operation env t)
  unfolding retry_branch_operation
  retry_branch_operation-Replay t =
      Triple-bind (Taken env t) (execute env t) _ (Triple-execute env t laws) λ r.
        Triple-bind (λ _. Idle) (consume_sequence t) _
          (Triple-weaken (InFlight t) _ (λ c h. h.0) (Triple-consume_sequence t))
          λ _.
            Triple-bind (λ _. Idle) (modify (drop_cleanup_for t)) _
              (Triple-modify (drop_cleanup_for t) (λ c h. rw (core-drop_cleanup_for t c) h))
              λ _. Triple-pure (obj r) (λ c h. h)

  retry_close-Replay : (t : Fields) → Replay t (retry_close env t)
  unfolding retry_close
  retry_close-Replay t =
      Triple-bind (Taken env t) (execute env t) _ (Triple-execute env t laws) λ r.
        Triple-bind (λ _. InFlight t) (guarded env t (accept_close_instance env r)) _
          (accepted env laws t r _
            λ k. Triple-guarded env t _ (Triple-accept_close_instance env t r k))
          λ x. cleared env laws t (obj x)

  if-Replay :
      (t : Fields) (b : Bool) (m n : Exec (Client L A) Answer)
      → Replay t m
      → Replay t n
      → Replay t (if b then m else n)
  if-Replay t true m n h k = h
  if-Replay t false m n h k = k

  pub replay-Replay : (t : Fields) → Replay t (replay env t)
  unfolding replay
  replay-Replay t =
      if-Replay t (is_one_of (get "operation" t) ("start_instance" ∷ [])) _ _ (retry_start-Replay t)
        (if-Replay t (is_one_of (get "operation" t) ("get_decision" ∷ [])) _ _
          (retry_decision-Replay (as_text (get "branch_id" t)) t)
          (if-Replay t (is_one_of (get "operation" t) ("commit_action" ∷ [])) _ _
            (retry_commit-Replay t)
            (if-Replay t (is_one_of (get "operation" t) ("emulate_action" ∷ [])) _ _
              (retry_emulate_action-Replay (as_text (get "parent_branch_id" t)) t)
              (if-Replay t (is_one_of (get "operation" t) ("emulate_actions" ∷ [])) _ _
                (retry_emulate_actions-Replay (as_items (get "items" t)) t)
                (if-Replay t
                  (is_one_of (get "operation" t)
                    ("cancel_branches" ∷ "release_branches" ∷ "get_branch_status" ∷ []))
                  _ _ (retry_branch_operation-Replay t)
                  (if-Replay t (is_one_of (get "operation" t) ("close_instance" ∷ [])) _ _
                    (retry_close-Replay t) (refuse t value_error)))))))

  admitted_replay : (a : Admission) (t : Fields) → Replay t (with_deadline a (replay env t))
  unfolding with_deadline
  admitted_replay bad_timeout t = refuse t _
  admitted_replay lock_timeout t = refuse t _
  admitted_replay lock_cancelled t = refuse t _
  admitted_replay granted t = replay-Replay t

  -- A request that is the unresolved one of a valid session may be sent.
  may_retry :
      (t : Fields) (c : Client L A)
      → Safe c
      → not c.session_invalid ≡ true
      → is_token c.pending_retry t ≡ true
      → Turn t c
  may_retry t c (idle h) v k = let f : c.pending_retry ≡ none = h.free in absurd (ground arith)
  may_retry t c (stuck q h) v k =
      let f : c.pending_retry ≡ some q = h.kept in
      let e : q ≡ t = (same_iff q t).0 (subst (λ o. is_token o t ≡ true) f k) in
      subst (λ q. IsTurn q (core c)) e (again h)
  may_retry t c (dead h) v k = let i : c.session_invalid ≡ true = h.invalid in absurd (ground arith)

  pub retry_request-Call : (a : Admission) (t : Fields) → Call (retry_request env a t)
  unfolding retry_request
  retry_request-Call a t =
      Triple-bind (λ _ c. Safe c × (not c.session_invalid ≡ true)) (check _ runtime_error) _
        (checked Safe (λ c. not c.session_invalid) runtime_error)
        λ _.
          Triple-bind (λ _ c. Safe c × (not c.session_invalid ≡ true)) (check _ runtime_error) _
            (Triple-map
              (λ _ c. (Safe c × (not c.session_invalid ≡ true)) × (is_set c.pending_retry ≡ true))
              (λ _ c. Safe c × (not c.session_invalid ≡ true)) _ (λ _ c h. h.0) (λ _ c h. h.0)
              (checked (λ c. Safe c × (not c.session_invalid ≡ true)) (λ c. is_set c.pending_retry)
                runtime_error))
            λ _.
              Triple-bind
                (λ _ c.
                  (Safe c × (not c.session_invalid ≡ true)) × (is_token c.pending_retry t ≡ true))
                (check _ value_error) _
                (Triple-map
                  (λ _ c.
                    (Safe c × (not c.session_invalid ≡ true)) × (is_token c.pending_retry t ≡ true))
                  (λ _ c. Safe c × (not c.session_invalid ≡ true)) _ (λ _ c h. h) (λ _ c h. h.0)
                  (checked (λ c. Safe c × (not c.session_invalid ≡ true))
                    (λ c. is_token c.pending_retry t) value_error))
                λ _.
                  Triple-weaken (Turn t) _ (λ c h. may_retry t c h.0.0 h.0.1 h.1)
                    (admitted_replay a t)

module _ {L A : Type 0} where
  pub defer_branch_cleanup_after_retry-Safe :
      (t : Fields) (i : String) (ids : List String)
      → Triple
          (Safe {L = L} {A = A})
          (defer_branch_cleanup_after_retry t i ids)
          (λ _. Safe)
          (λ _. Safe)
  unfolding defer_branch_cleanup_after_retry set_cleanup
  defer_branch_cleanup_after_retry-Safe t i ids =
      Triple-bind (λ _. Safe) (check (λ c. not c.session_invalid) runtime_error) _
        (Triple-check Safe (λ c. not c.session_invalid) runtime_error)
        λ _.
          Triple-bind (λ _. Safe) (check (λ c. is_token c.pending_retry t) value_error) _
            (Triple-check Safe (λ c. is_token c.pending_retry t) value_error)
            λ _.
              Triple-bind (λ _. Safe) (check (λ _. is_deferrable t i ids) value_error) _
                (Triple-check Safe (λ _. is_deferrable t i ids) value_error)
                λ _.
                  Triple-bind (λ _. Safe)
                    (check
                      (λ c.
                        compatible c.pending_retry_cleanup
                          (record { source = t; instance = i; branch_ids = deduplicate [] ids }))
                      runtime_error)
                    _
                    (Triple-check Safe
                      (λ c.
                        compatible c.pending_retry_cleanup
                          (record { source = t; instance = i; branch_ids = deduplicate [] ids }))
                      runtime_error)
                    λ _. Triple-modify (set_cleanup _) (λ c h. h)
