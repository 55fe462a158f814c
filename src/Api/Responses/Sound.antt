-- ===== src/Api/Responses/Sound.antt =====
-- What a response that passes the checks is sure to be.
use sts2_training.Base.{
  ◌≡◌, ◌≢◌, ◌⊎◌, inl, inr, refl, sym, String, Bool, true, false, ◌||◌, [], ◌∷◌, arith, mem, all,
  all,
}
use sts2_training.Base.Outcome.{ok, guard, >>=-eq-ok, guard-eq-ok, ok-injective}
use sts2_training.Json.{Fields, str, get, py_eq, py_eq_str, is_null, hashable}
use sts2_training.Api.Errors.{protocol_error, schema_version}
use sts2_training.Api.Decision.{require_non_empty_str}
use sts2_training.Api.Decision.Sound.{or_protocol_error-eq-ok, as_text-eq-some}
use sts2_training.Api.Responses.{
  known_statuses, echoed_fields, echoes, check_refusal, check_operation, check_answer, check_texts,
  check_api_response,
}

-- A non-empty text stands in the field.
abbrev pub HasText : Fields → String → Type 0
HasText d name = (s : String) × (get name d ≡ str s) × (s ≢ "")

pub record IsAnswer (request response : Fields) : Type 0 where
  pub schema : get "schema_version" response ≡ str schema_version
  pub echo_session :
      py_eq (get "client_session_id" response) (get "client_session_id" request) ≡ true
  pub echo_seq : py_eq (get "request_seq" response) (get "request_seq" request) ≡ true
  pub echo_id : py_eq (get "request_id" response) (get "request_id" request) ≡ true
  pub echo_operation : py_eq (get "operation" response) (get "operation" request) ≡ true
  pub epoch : HasText response "server_epoch"
  pub status : String
  pub has_status : get "status" response ≡ str status
  pub known : mem status known_statuses ≡ true
  pub accepted : mem status ("rejected" ∷ "faulted" ∷ []) ≡ false
  pub same_instance :
      (is_null (get "instance_id" request) ≡ true)
      ⊎ (py_eq (get "instance_id" response) (get "instance_id" request) ≡ true)

require-HasText :
    (d : Fields) (name : String) {s : String}
    → require_non_empty_str d name ≡ ok s
    → (get name d ≡ str s) × (s ≢ "")
unfolding require_non_empty_str
require-HasText d name h = as_text-eq-some _ (or_protocol_error-eq-ok _ h)

not_refused :
    (status : String) (r : Fields) {u : Unit {0}}
    → check_refusal status r ≡ ok u
    → mem status ("rejected" ∷ "faulted" ∷ []) ≡ false
unfolding check_refusal
not_refused status r h = ground arith

record Rest (q r : Fields) (s : String) : Type 0 where
  known : mem s known_statuses ≡ true
  accepted : mem s ("rejected" ∷ "faulted" ∷ []) ≡ false
  instance : (is_null (get "instance_id" q) || echoes q r "instance_id") ≡ true
  operation : check_operation q r ≡ ok tt

answer-Rest :
    (q r : Fields) (s : String) {x : Fields} → check_answer q s r ≡ ok x → Rest q r s × (x ≡ r)
unfolding check_answer
answer-Rest q r s h =
    let (_, a, h₁) = >>=-eq-ok (guard (mem s known_statuses) protocol_error) _ h in
    let (_, b, h₂) =
      >>=-eq-ok (guard (is_null (get "instance_id" q) || echoes q r "instance_id") protocol_error) _
        h₁ in
    let (_, c, h₃) = >>=-eq-ok (check_refusal s r) _ h₂ in
    let (_, d, h₄) = >>=-eq-ok (check_operation q r) _ h₃ in
    (
      record {
        known = guard-eq-ok _ _ a;
        accepted = not_refused s r c;
        instance = guard-eq-ok _ _ b;
        operation = d;
      },
      sym (ok-injective h₄),
    )

either_instance : (a b : Bool) → (a || b) ≡ true → (a ≡ true) ⊎ (b ≡ true)
either_instance true b h = inl refl
either_instance false b h = inr h

-- An accepted response is returned as it is. It has the expected schema, echoes session, number, id
-- and operation of its request and the instance that the request names, has a server epoch and a
-- known status that is no refusal.
pub check_api_response-IsAnswer :
    (request response : Fields) {x : Fields}
    → check_api_response request response ≡ ok x
    → IsAnswer request response × (x ≡ response)
unfolding check_api_response check_texts
check_api_response-IsAnswer q r h =
    let (_, a, h₁) =
      >>=-eq-ok (guard (py_eq (get "schema_version" r) (str schema_version)) protocol_error) _ h in
    let (_, b, h₂) = >>=-eq-ok (guard (all (echoes q r) echoed_fields) protocol_error) _ h₁ in
    let (epoch, c, h₃) = >>=-eq-ok (require_non_empty_str r "server_epoch") _ h₂ in
    let (status, d, h₄) = >>=-eq-ok (require_non_empty_str r "status") _ h₃ in
    let (rest, e) = answer-Rest q r status h₄ in
    let echo : all (echoes q r) echoed_fields ≡ true = guard-eq-ok _ _ b in
    (
      record {
        schema = py_eq_str _ _ (guard-eq-ok _ _ a);
        echo_session = ground arith;
        echo_seq = ground arith;
        echo_id = ground arith;
        echo_operation = ground arith;
        epoch =
            (epoch, (require-HasText r "server_epoch" c).0, (require-HasText r "server_epoch" c).1);
        status = status;
        has_status = (require-HasText r "status" d).0;
        known = rest.known;
        accepted = rest.accepted;
        same_instance = either_instance _ _ rest.instance;
      },
      e,
    )

pub check_api_response-status :
    (q r : Fields) {x : Fields} → check_api_response q r ≡ ok x → hashable (get "status" x) ≡ true
check_api_response-status q r h =
    let (a, e) = check_api_response-IsAnswer q r h in rw e (rw a.has_status)
