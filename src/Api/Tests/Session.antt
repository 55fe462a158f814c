-- ===== src/Api/Tests/Session.antt =====
-- Sessions with the server of the fixtures.
use sts2_training.Base.{◌≡◌, refl, List, [], ◌∷◌, Bool, true, false, Option, none, some}
use sts2_training.Json.{Fields, field, end, str}
use sts2_training.Api.Client.{Client, new_client}
use sts2_training.Api.Client.Operations.{granted}
use sts2_training.Api.Client.Session.{Command, start, decide, retry, close, step, run}
use sts2_training.Api.Client.Retry.{retry_request}
use sts2_training.Api.Client.{is_set, is_token}
use sts2_training.Api.Errors.{runtime_error, value_error}
use sts2_training.Json.{same}
use sts2_training.Base.Outcome.{err}
use sts2_training.Base.{not, ◌||◌, if◌then◌else◌}
use sts2_training.Api.Wire.Blocked.{step_blocked, retry_request_other}
use sts2_training.Api.Wire.{IsOrderly, IsSafe, idle, core}
use sts2_training.Base.Int.{pos}
use sts2_training.Json.{int, get, lookup}
use sts2_training.Api.Client.{seq_of, session_of}
use sts2_training.Api.Client.Execute.{execute}
use sts2_training.Api.Interface.{failed}
use sts2_training.Api.Errors.{transport_error}
use sts2_training.Api.Wire.{IsTurn, fresh}
use sts2_training.Api.Wire.Lost.{execute_lost}
use sts2_training.Api.Wire.Run.{run-IsOrderly, step-IsSafe}
use sts2_training.Api.Tests.Fixtures.{lossy, lossy-Laws}

abbrev config : Fields
config = field "instance_type" (str "run") end

abbrev first : Client Bool (Unit {0})
first = new_client true tt "s-1"

abbrev token_of : Option Fields → Fields
token_of none = end
token_of (some t) = t

abbrev uncertain : Client Bool (Unit {0})
uncertain = step lossy (start granted config) first

abbrev session : List Command
session =
    start granted config
    ∷ retry granted (token_of uncertain.pending_retry)
    ∷ decide granted "i-1" "root"
    ∷ close granted "i-1"
    ∷ []

run-IsOrderly_example : IsOrderly (run lossy session (new_client true tt "s-1")).wire
run-IsOrderly_example = run-IsOrderly lossy lossy-Laws session true tt "s-1"

first-IsSafe : IsSafe (core first)
unfolding new_client
first-IsSafe = idle (record { orderly = tt; older = tt; free = refl; live = refl })

step-IsSafe_example : IsSafe (core (step lossy (start granted config) first))
step-IsSafe_example = step-IsSafe lossy lossy-Laws (start granted config) first first-IsSafe

-- a client whose first start is unresolved
abbrev waiting : Client Bool (Unit {0})
unfolding new_client
waiting = record first { pending_retry = some config }

waiting_set : (is_set waiting.pending_retry || waiting.session_invalid) ≡ true
unfolding waiting
waiting_set = refl

step_blocked_example : step lossy (decide granted "i-1" "root") waiting ≡ waiting
step_blocked_example = step_blocked lossy (decide granted "i-1" "root") waiting refl waiting_set

other_token : is_token waiting.pending_retry end ≡ false
unfolding waiting same
other_token = refl

retry_request_other_example :
    (retry_request lossy granted end waiting).1 ≡ waiting
    × ((retry_request lossy granted end waiting).0
        ≡ err (
            if waiting.session_invalid || not (is_set waiting.pending_retry)
            then runtime_error
            else value_error))
retry_request_other_example = retry_request_other lossy granted end waiting other_token

-- the first request of the session
abbrev first_request : Fields
first_request = field "client_session_id" (str "s-1") (field "request_seq" (int (pos 1)) end)

first-IsTurn : IsTurn first_request (core first)
unfolding new_client seq_of session_of get lookup
first-IsTurn =
    fresh (record { orderly = tt; older = tt; free = refl; live = refl })
      (record { numbered = refl; owned = refl })

lost :
    (lossy.exchange first.connection first_request).0
    ≡ failed (transport_error true (some first_request))
unfolding new_client
lost = refl

execute_lost_example : execute lossy first_request first ≡ (
  err (transport_error true (some first_request)),
  record first {
    connection = (lossy.exchange first.connection first_request).1;
    wire = first_request ∷ first.wire;
    pending_retry = some first_request;
  },
)
execute_lost_example =
    execute_lost lossy lossy-Laws first_request first (some first_request) first-IsTurn lost
