-- ===== src/Api/Tcp/Exchange.antt =====
-- TcpConnection.exchange. No timeout is in force where they close the connection, so the
-- close may only end or be cancelled there.
use sts2_training.Base.{
  ℕ, String, true, false, not, Option, none, some, List, ◌∷◌, if◌then◌else◌, ltb, length,
}
use sts2_training.Base.Outcome.{Result, ok, err}
use sts2_training.Json.{Fields, str, get, as_text, is_null, py_eq}
use sts2_training.Api.Errors.{Exc, value_error, transport_error, cancelled}
use sts2_training.Api.Interface.{Outcome, replied, failed}
use sts2_training.Api.Tcp.{Network, Conn, Trouble, cancelled_error, raised}
use sts2_training.Api.Tcp.Io.{Io, wait, change, ◌>>=◌, ◌>>◌}
use sts2_training.Api.Tcp.Frame.{read_response_frame}
use sts2_training.Api.Tcp.Connect.{connect, disconnect, assert_epoch, json_of}

-- the exception of an exchange whose request was not written
unfoldable pub unsent : Trouble → Exc
unsent (raised e) = e
unsent cancelled_error = cancelled false none
unsent t = transport_error false none

-- and of one whose request was
unfoldable pub lost : Fields → Trouble → Exc
lost request cancelled_error = cancelled true (some request)
lost request t = transport_error true (some request)

-- a close that is cancelled turns the failure into a cancellation
abbrev pub closed_with : Fields → Exc → Result Trouble (Unit {0}) → Outcome
closed_with request e (err cancelled_error) = failed (cancelled true (some request))
closed_with request e r = failed e

abbrev outcome_of_epoch : Fields → Result Trouble (Unit {0}) → Outcome
outcome_of_epoch response (ok u) = replied response
outcome_of_epoch response (err (raised e)) = failed e
outcome_of_epoch response (err t) = failed (transport_error false none)

module _ {N : Type 0} (net : Network N) where
  -- _disconnect in a handler
  unfoldable pub give_up : Fields → Exc → Conn N → Outcome × Conn N
  unfolding disconnect
  give_up request e c = let (r, d) = disconnect net c in (closed_with request e r, d)

  unfoldable pub with_epoch : Fields → Fields → Option String → Conn N → Outcome × Conn N
  unfolding give_up assert_epoch
  with_epoch request response none c = give_up request (transport_error true (some request)) c
  with_epoch request response (some epoch) c =
      let (r, d) = assert_epoch epoch true (some request) c in (outcome_of_epoch response r, d)

  unfoldable pub decoded : Fields → Option Fields → Conn N → Outcome × Conn N
  unfolding give_up with_epoch
  decoded request none c = give_up request (transport_error true (some request)) c
  decoded request (some response) c =
      if is_null (get "transport_error" response)
      then with_epoch request response (as_text (get "server_epoch" response)) c
      else give_up request (transport_error false none) c

  -- an error of json.loads that _decode_response does not catch leaves the connection as it is
  unfoldable pub with_json : Fields → Result Trouble (Option Fields) → Conn N → Outcome × Conn N
  unfolding decoded unsent
  with_json request (err t) c = (failed (unsent t), c)
  with_json request (ok o) c = decoded request o c

  -- _decode_response and the checks after it
  unfoldable pub answered : Fields → List ℕ → Conn N → Outcome × Conn N
  unfolding with_json
  answered request line c = with_json request (json_of (net.decode line)) c

  abbrev pub note : Fields → Conn N → Conn N
  note request c = record c { written = request ∷ c.written }

  -- the part under the lock: first the connection, then the request and its answer
  unfoldable pub opened : Io N (Unit {0})
  unfolding connect wait ◌>>=◌
  opened = do wait net.lock; connect net

  unfoldable pub transmit : Fields → Io N (List ℕ)
  unfolding read_response_frame wait change ◌>>=◌
  transmit request = do
    change (note request)
    wait (λ n. net.send n (net.encode request))
    read_response_frame net

  unfoldable pub after_transmit : Fields → Result Trouble (List ℕ) → Conn N → Outcome × Conn N
  unfolding give_up answered lost
  after_transmit request (err t) c = give_up request (lost request t) c
  after_transmit request (ok line) c = answered request line c

  unfoldable pub after_opened : Fields → Result Trouble (Unit {0}) → Conn N → Outcome × Conn N
  unfolding after_transmit transmit unsent
  after_opened request (err t) c = (failed (unsent t), c)
  after_opened request (ok u) c = let (r, d) = transmit request c in after_transmit request r d

  unfoldable pub exchange_now : Fields → Conn N → Outcome × Conn N
  unfolding after_opened opened
  exchange_now request c = let (r, d) = opened c in after_opened request r d

  -- exchange, with its deadline
  unfoldable pub exchange : Conn N → Fields → Outcome × Conn N
  unfolding exchange_now
  exchange c request =
      if not (py_eq (get "client_session_id" request) (str c.session))
      then (failed value_error, c)
      else if ltb c.max_message (length (net.encode request))
      then (failed (transport_error false none), c)
      else exchange_now request c
