-- ===== src/Api/Wire/Execute.antt =====
-- One exchange keeps the discipline of the wire, however it ends.
use sts2_training.Base.{
  ℕ, ◌+◌, ◌≡◌, ◌≢◌, ◌⊎◌, inl, inr, refl, ap, String, Bool, true, false, ◌&&◌, Option, none, some,
  List, [], ◌∷◌, str_eq_iff, ==_iff, if◌then◌else◌, Bool-cases,
}
use sts2_training.Base.Outcome.{Result, ok, err}
use sts2_training.Json.{Fields, Value, get, hashable, same_iff}
use sts2_training.Api.Errors.{
  Exc, type_error, key_error, protocol_error, operation_error, transport_error, epoch_changed,
  cancelled, member, is_one_of,
}
use sts2_training.Api.Kinds.{Kind, Raises}
use sts2_training.Api.Exec.{Exec, lift, modify}
use sts2_training.Api.Responses.{check_api_response}
use sts2_training.Api.Responses.Kinds.{Raises-api_response}
use sts2_training.Api.Responses.Sound.{check_api_response-status}
use sts2_training.Api.Interface.{
  Environment, Outcome, replied, failed, delivered, Names, HasToken, IsReadable, Laws,
}
use sts2_training.Api.Client.{Client, operation_of, is_number, is_text, free_for}
use sts2_training.Api.Client.Execute.{
  check_turn, on_outcome, on_checked, on_failure, keep_if, or_token, accept, on_invalid,
  on_operation_error, settle_refusal, consume_refusal, refused, give_up_if, after_fault,
  forget_branches, sent, non_consuming, fatal_consuming, remember_pending, consume_sequence,
  invalidate_session, tear_down, mark_protocol_uncertain, exchange, execute, on_protocol_error,
  guarded,
}
use sts2_training.Api.Wire.{
  Core, core, IsIdle, IsNext, IsStuck, IsSafe, idle, stuck, dead, IsTurn, IsInFlight, IsTurn-IsSafe,
  IsTurn-IsInFlight, IsInFlight-sent, IsInFlight-kept, IsInFlight-consumed, IsInFlight-IsDead,
  IsIdle-IsDead,
}
use sts2_training.Api.Wire.Triple.{
  Post-both, Triple, Triple-pure, Triple-raise, Triple-lift, Triple-weaken, Triple-map,
  Triple-modify, Triple-bind, Triple-catch,
}

pub number_matches : (o : Option ℕ) (n : ℕ) → o ≡ some n → is_number o n ≡ true
number_matches o n e = rw e ((==_iff n n).1 refl)

text_matches : (o : Option String) (s : String) → o ≡ some s → is_text o s ≡ true
text_matches o s e = rw e ((str_eq_iff s s).1 refl)

pub free_matches :
    (o : Option Fields) (t : Fields) → (o ≡ none) ⊎ (o ≡ some t) → free_for o t ≡ true
free_matches o t (inl e) = rw e
free_matches o t (inr e) = rw e ((same_iff t t).1 refl)

member_ok : (v : Value) (xs : List String) → hashable v ≡ true → (b : Bool) × (member v xs ≡ ok b)
unfolding member
member_ok v xs h = (is_one_of v xs, rw h)

refused_ok : (r : Fields) → hashable (get "fault_kind" r) ≡ true → (b : Bool) × (refused r ≡ ok b)
unfolding refused
refused_ok r h = elim (Bool-cases (is_one_of (get "status" r) ("rejected" ∷ []))) [
  | inl e ↦ rw e (member_ok (get "fault_kind" r) non_consuming h)
  | inr e ↦ (false, rw e)
]

abbrev pub InFlight : {L A : Type 0} → Fields → Client L A → Type 0
InFlight t c = IsInFlight t (core c)

abbrev pub Safe : {L A : Type 0} → Client L A → Type 0
Safe c = IsSafe (core c)

abbrev pub Turn : {L A : Type 0} → Fields → Client L A → Type 0
Turn t c = IsTurn t (core c)

abbrev pub Idle : {L A : Type 0} → Client L A → Type 0
Idle c = IsIdle (core c)

abbrev pub Stuck : {L A : Type 0} → Fields → Client L A → Type 0
Stuck t c = IsStuck t (core c)

module _ {L A : Type 0} (t : Fields) where
  pub remember_pending_lem :
      (c : Client L A)
      → InFlight t c
      → remember_pending t c ≡ (ok tt, record c { pending_retry = some t })
  unfolding remember_pending
  remember_pending_lem c h = rw (
    text_matches _ _ h.is_next.owned,
    number_matches _ _ h.is_next.numbered,
    free_matches _ _ h.pending,
  )

  pub Triple-remember_pending :
      Triple (InFlight {L = L} {A = A} t) (remember_pending t) (λ _. Stuck t) (λ _. Safe)
  Triple-remember_pending = record { at = λ c h. rw (remember_pending_lem c h) (IsInFlight-kept h) }

  consume_sequence_lem :
      (c : Client L A)
      → IsNext t (core c)
      → consume_sequence t c
        ≡ (ok tt, record c { pending_retry = none; next_request_seq = c.next_request_seq + 1 })
  unfolding consume_sequence
  consume_sequence_lem c h = rw (number_matches _ _ h.numbered)

  pub Triple-consume_sequence :
      Triple (InFlight {L = L} {A = A} t) (consume_sequence t) (λ _. Idle) (λ _. Safe)
  Triple-consume_sequence = record {
    at = λ c h. rw (consume_sequence_lem c h.is_next) (IsInFlight-consumed h);
  }

module _ {L A : Type 0} (env : Environment L A) (t : Fields) where
  abbrev MaySend : Outcome → Client L A → Type 0
  MaySend o c = if delivered o then InFlight t c else Turn t c

  MaySend-sent :
      (b : Bool) (c : Client L A) (l : L)
      → Turn t c
      → if b
        then IsInFlight t (core (record c { connection = l; wire = sent b t c.wire }))
        else IsTurn t (core (record c { connection = l; wire = sent b t c.wire }))
  MaySend-sent true c l h = IsInFlight-sent (IsTurn-IsInFlight h)
  MaySend-sent false c l h = h

  Triple-check_turn : Triple (Turn t) (check_turn env t) (λ _. Turn t) (λ _. Safe)
  unfolding check_turn
  Triple-check_turn = record {
    at = λ c h.
        let f : InFlight t c = IsTurn-IsInFlight h in
        rw (number_matches _ _ f.is_next.numbered, free_matches _ _ f.pending) h;
  }

  Triple-tear_down :
      (P : Core → Type 0)
      → Triple (λ c. P (core c)) (tear_down env) (λ _ c. P (core c)) (λ _ c. P (core c))
  unfolding tear_down
  Triple-tear_down P = record {
    at = λ c h.
        Post-both (λ (d : Client L A). P (core d)) (env.invalidate c.connection).0
          (record c { connection = (env.invalidate c.connection).1 }) h;
  }

  pub Triple-mark_protocol_uncertain :
      Triple (InFlight t) (mark_protocol_uncertain env t) (λ _. Stuck t) (λ _. Safe)
  unfolding mark_protocol_uncertain
  Triple-mark_protocol_uncertain =
      Triple-bind (λ _. Stuck t) (remember_pending t) _ (Triple-remember_pending t)
        λ _.
          Triple-map (λ _. Stuck t) (λ _. Stuck t) (tear_down env) (λ _ c h. h) (λ _ c h. stuck t h)
            (Triple-tear_down (IsStuck t))

  core-forget_branches : (c : Client L A) → core (forget_branches env t c) ≡ core c
  unfolding forget_branches
  core-forget_branches c =
      elim (Bool-cases
        (is_one_of (get "operation" t) ("cancel_branches" ∷ "release_branches" ∷ []))) [
          | inl e ↦ rw e
          | inr e ↦ rw e
        ]

  core-after_fault : (r : Fields) (c : Client L A) → core (after_fault env t r c) ≡ core c
  unfolding after_fault
  core-after_fault r c =
      elim (Bool-cases (
        is_text (operation_of t) "close_instance" && is_one_of (get "status" r) ("faulted" ∷ []))) [
          | inl e ↦ rw e
          | inr e ↦ rw e
        ]

  -- An accepted response has a status that can be looked up.
  abbrev pub Taken : Fields → Client L A → Type 0
  Taken r c = InFlight t c × (hashable (get "status" r) ≡ true)

  Triple-accept :
      (r : Fields)
      → hashable (get "status" r) ≡ true
      → Triple (InFlight t) (accept env t r) Taken (λ _. Safe)
  unfolding accept
  Triple-accept r s =
      Triple-bind (λ _. InFlight t) (modify (forget_branches env t)) _
        (Triple-modify (forget_branches env t) (λ c h. rw (core-forget_branches c) h))
        λ _. Triple-pure r (λ c h. (h, s))

  give_up : (b : Bool) (c : Client L A) → Idle c → Safe (give_up_if env b c)
  unfolding give_up_if
  give_up true c h = dead (IsIdle-IsDead h)
  give_up false c h = idle h

  Triple-consume_refusal :
      (r : Fields)
      → hashable (get "fault_kind" r) ≡ true
      → Triple (InFlight t) (consume_refusal env t r) Taken (λ _. Safe)
  unfolding consume_refusal
  Triple-consume_refusal r k =
      let (b, e) = member_ok (get "fault_kind" r) fatal_consuming k in
      Triple-bind (λ _. Idle) (consume_sequence t) _ (Triple-consume_sequence t)
        λ _.
          Triple-bind (λ _. Idle) (modify (after_fault env t r)) _
            (Triple-modify (after_fault env t r) (λ c h. rw (core-after_fault r c) h))
            λ _.
              Triple-bind (λ _. Idle) (lift (member (get "fault_kind" r) fatal_consuming)) _
                (Triple-lift _ (λ c h. rw e h))
                λ fatal.
                  Triple-bind (λ _. Safe) (modify (give_up_if env fatal)) _
                    (Triple-modify (give_up_if env fatal) (give_up fatal))
                    λ _. Triple-raise _ (λ c h. h)

  Triple-settle_refusal :
      (b : Bool) (r : Fields)
      → hashable (get "fault_kind" r) ≡ true
      → Triple (InFlight t) (settle_refusal env b t r) Taken (λ _. Safe)
  unfolding settle_refusal invalidate_session
  Triple-settle_refusal true r k =
      Triple-bind (λ _. Safe) (modify invalidate_session) _
        (Triple-modify invalidate_session (λ c h. dead (IsInFlight-IsDead h)))
        λ _. Triple-raise _ (λ c h. h)
  Triple-settle_refusal false r k = Triple-consume_refusal r k

  Triple-on_operation_error :
      (r : Fields)
      → hashable (get "fault_kind" r) ≡ true
      → Triple (InFlight t) (on_operation_error env t r) Taken (λ _. Safe)
  unfolding on_operation_error
  Triple-on_operation_error r k =
      let (b, e) = refused_ok r k in
      Triple-bind (λ _. InFlight t) (lift (refused r)) _ (Triple-lift _ (λ c h. rw e h))
        λ outside. Triple-settle_refusal outside r k

  Triple-on_invalid :
      (r : Fields) (e : Exc)
      → Kind r e
      → e ≢ type_error
      → e ≢ key_error
      → hashable (get "fault_kind" r) ≡ true
      → Triple (InFlight t) (on_invalid env t e) Taken (λ _. Safe)
  unfolding on_invalid
  Triple-on_invalid r (operation_error s) k a b h = rw k (Triple-on_operation_error r h)
  Triple-on_invalid r protocol_error k a b h =
      Triple-bind (λ _. Stuck t) (mark_protocol_uncertain env t) _ Triple-mark_protocol_uncertain
        λ _. Triple-raise _ (λ c s. stuck t s)
  Triple-on_invalid r type_error k a b h = absurd (a refl)
  Triple-on_invalid r key_error k a b h = absurd (b refl)
  Triple-on_invalid r e k a b h = elim k [ ]

  Triple-on_checked :
      (r : Fields) (x : Result Exc Fields)
      → Raises (Kind r) x
      → ((s : Fields) → x ≡ ok s → hashable (get "status" s) ≡ true)
      → x ≢ err type_error
      → x ≢ err key_error
      → hashable (get "fault_kind" r) ≡ true
      → Triple (InFlight t) (on_checked env t x) Taken (λ _. Safe)
  unfolding on_checked
  Triple-on_checked r (ok s) k f a b h = Triple-accept s (f s refl)
  Triple-on_checked r (err e) k f a b h =
      Triple-on_invalid r e k (λ p. a (ap (λ x. err x) p)) (λ p. b (ap (λ x. err x) p)) h

  pub or_token-Names : (o : Option Fields) → Names t o → or_token o t ≡ t
  or_token-Names none h = refl
  or_token-Names (some s) (inl e) = cc
  or_token-Names (some s) (inr e) = cc

  -- What is left to do when the exchange failed, with the note of `exc.completion_uncertain`.
  Triple-keep_if :
      (u : Bool) (o : Option Fields)
      → Names t o
      → Triple
          (λ c. if u then InFlight t c else Turn t c)
          (keep_if env u o t)
          (λ _. Safe)
          (λ _. Safe)
  unfolding keep_if
  Triple-keep_if true o n = rw (or_token-Names o n) (
      Triple-map (λ _. Stuck t) (λ _. Safe) (remember_pending t) (λ _ c h. stuck t h) (λ _ c h. h)
        (Triple-remember_pending t))
  Triple-keep_if false o n = Triple-pure tt (λ c h. IsTurn-IsSafe h)

  safe_of_flight :
      (u : Bool) (c : Client L A)
      → (if u then InFlight t c else Turn t c)
      → Safe (invalidate_session c)
  unfolding invalidate_session
  safe_of_flight true c h = dead (IsInFlight-IsDead h)
  safe_of_flight false c h = dead (IsInFlight-IsDead (IsTurn-IsInFlight h))

  Triple-on_failure :
      (e : Exc)
      → HasToken t (failed e)
      → Triple (MaySend (failed e)) (on_failure env t e) Taken (λ _. Safe)
  unfolding on_failure
  Triple-on_failure (epoch_changed u o) n =
      Triple-bind (λ _. Safe) (modify invalidate_session) _
        (Triple-modify invalidate_session (safe_of_flight u)) λ _. Triple-raise _ (λ c h. h)
  Triple-on_failure (cancelled u o) n =
      Triple-bind (λ _. Safe) (keep_if env u o t) _ (Triple-keep_if u o n)
        λ _. Triple-raise _ (λ c h. h)
  Triple-on_failure (transport_error u o) n =
      Triple-bind (λ _. Safe) (keep_if env u o t) _ (Triple-keep_if u o n)
        λ _. Triple-raise _ (λ c h. h)
  Triple-on_failure e n = Triple-raise e (λ c h. IsTurn-IsSafe h)

  Triple-on_outcome :
      (o : Outcome)
      → HasToken t o
      → IsReadable t o
      → Triple (MaySend o) (on_outcome env t o) Taken (λ _. Safe)
  unfolding on_outcome
  Triple-on_outcome (replied r) n (a, b, h) =
      Triple-on_checked r (check_api_response t r) (Raises-api_response r t)
        (λ s e. check_api_response-status t r e) a b h
  Triple-on_outcome (failed e) n k = Triple-on_failure e n

  abbrev After : Outcome → Client L A → Type 0
  After o c = MaySend o c × HasToken t o × IsReadable t o

  Triple-exchange : Laws env → Triple (Turn t) (exchange env t) After (λ _. Safe)
  unfolding exchange
  Triple-exchange laws = record {
    at = λ c h.
        let (o, l) = env.exchange c.connection t in
        (
          MaySend-sent (delivered o) c l h,
          laws.has_token c.connection t,
          laws.readable c.connection t,
        );
  }

  answer : (o : Outcome) → Triple (After o) (on_outcome env t o) Taken (λ _. Safe)
  answer o = record { at = λ c h. (Triple-on_outcome o h.1 h.2).at c h.0 }

  -- An exchange whose turn it is leaves its request in flight, or raises with nothing unresolved but
  -- the request itself.
  pub Triple-execute : Laws env → Triple (Turn t) (execute env t) Taken (λ _. Safe)
  unfolding execute
  Triple-execute laws =
      Triple-bind (λ _. Turn t) (check_turn env t) _ Triple-check_turn
        λ _. Triple-bind After (exchange env t) _ (Triple-exchange laws) answer

  -- The error of an acceptance that changes nothing of the core.
  abbrev pub Refused : Exc → Client L A → Type 0
  Refused e c = (e ≡ protocol_error) × InFlight t c

  on_Refused :
      {B : Type 0} (e : Exc)
      → Triple {B = B} (Refused e) (on_protocol_error env t e) (λ _. InFlight t) (λ _. Safe)
  unfolding on_protocol_error
  on_Refused protocol_error =
      Triple-bind (λ _. Stuck t) (mark_protocol_uncertain env t) _
        (Triple-weaken (InFlight t) _ (λ c h. h.1) Triple-mark_protocol_uncertain)
        λ _. Triple-raise _ (λ c s. stuck t s)
  on_Refused e = Triple-raise e (λ c h. cc (h.0))

  pub Triple-guarded :
      {B : Type 0} (m : Exec (Client L A) B)
      → Triple (InFlight t) m (λ _. InFlight t) Refused
      → Triple (InFlight t) (guarded env t m) (λ _. InFlight t) (λ _. Safe)
  unfolding guarded
  Triple-guarded m h = Triple-catch Refused m _ h on_Refused
