-- ===== src/Api/Tests/Fixtures.antt =====
-- A server that takes the first request and loses the answer to it, and answers every later one.
use sts2_training.Base.{◌≡◌, inl, inr, refl, Bool, true, false, none, some}
use sts2_training.Base.Outcome.{Result, ok, err}
use sts2_training.Json.{Fields, end, field, nil, cons, str, obj, arr, get}
use sts2_training.Api.Errors.{Exc, transport_error, schema_version, mask_version}
use sts2_training.Api.Responses.{check_api_response}
use sts2_training.Api.Interface.{Environment, Outcome, replied, failed, HasToken, IsReadable, Laws}

-- a Decision with one legal action
abbrev pub decision : Fields
decision = field "decision_point_id" (str "d-1") (
    field "masked_emulator_dto"
      (obj (
        field "mask_version" (str mask_version)
          (field "legal_actions" (arr (cons (obj (field "action_id" (str "a-1") end)) nil)) end)))
      end)

-- the answer to a request
abbrev pub answer : Fields → Fields
answer request = field "schema_version" (str schema_version) (
    field "client_session_id" (get "client_session_id" request) (
      field "request_seq" (get "request_seq" request) (
        field "request_id" (get "request_id" request) (
          field "operation" (get "operation" request) (
            field "server_epoch" (str "e-1") (
              field "status" (str "completed")
                (field "instance_id" (str "i-1") (field "branch_id" (str "root") decision))))))))

-- it answers what it can, and drops the connection on any other request
abbrev answer_if : Result Exc Fields → Fields → Outcome
answer_if (ok r) request = replied (answer request)
answer_if (err e) request = failed (transport_error false none)

abbrev pub lossy_exchange : Bool → Fields → Outcome × Bool
lossy_exchange true request = (failed (transport_error true (some request)), false)
lossy_exchange false request =
    (answer_if (check_api_response request (answer request)) request, false)

abbrev pub lossy : Environment Bool (Unit {0})
lossy = record {
  exchange = lossy_exchange;
  invalidate = λ l. (ok tt, l);
  clear = λ a. a;
  forget = λ a i ids. a;
  remember = λ a r b. a;
  record_action = λ a q s r e. (ok tt, a);
}

token_if : (q : Fields) (r : Result Exc Fields) → HasToken q (answer_if r q)
token_if q (ok r) = tt
token_if q (err e) = inl refl

lossy_token : (l : Bool) (q : Fields) → HasToken q (lossy_exchange l q).0
lossy_token true q = inr refl
lossy_token false q = token_if q (check_api_response q (answer q))

answered :
    (q : Fields) (r : Result Exc Fields)
    → check_api_response q (answer q) ≡ r
    → IsReadable q (answer_if r q)
unfolding get
answered q (ok r) h = (λ e. cc, λ e. cc, refl)
answered q (err e) h = tt

lossy-IsReadable : (l : Bool) (q : Fields) → IsReadable q (lossy_exchange l q).0
lossy-IsReadable true q = tt
lossy-IsReadable false q = answered q (check_api_response q (answer q)) refl

pub lossy-Laws : Laws lossy
lossy-Laws = record { has_token = lossy_token; readable = lossy-IsReadable }
