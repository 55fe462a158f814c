-- ===== src/Api/Tcp/Connect.antt =====
-- TcpConnection: opening a connection with its hello, closing it, and the server's epoch.
use sts2_training.Base.{
  ℕ, String, Bool, true, false, not, ◌&&◌, ◌||◌, Option, none, some, [], if◌then◌else◌, str_eq,
  ◌==◌,
}
use sts2_training.Base.Outcome.{Result, ok, err}
use sts2_training.Json.{Fields, field, end, str, get, as_mapping, as_text, is_null, py_eq}
use sts2_training.Api.Errors.{value_error, runtime_error, epoch_changed, schema_version}
use sts2_training.Api.Tcp.{
  Network, Conn, Trouble, timeout_error, cancelled_error, raised, Await, done, timed_out, os_failed,
  interrupted, Loaded, loaded, malformed, too_long, too_deep,
}
use sts2_training.Api.Tcp.Io.{Io, raise, wait, attempt, change, ◌>>=◌, ◌>>◌}
use sts2_training.Api.Tcp.Frame.{plain, read_response_frame}

-- a connection that has not been opened: the end of __init__
unfoldable pub new_conn : {N : Type 0} → N → String → ℕ → ℕ → Conn N
new_conn net session max_message max_response = record {
  net = net;
  attached = false;
  closed = false;
  epoch = none;
  session = session;
  max_message = max_message;
  max_response = max_response;
  written = [];
}

abbrev pub fits_epoch : Option String → String → Bool
fits_epoch none actual = true
fits_epoch (some expected) actual = str_eq expected actual

abbrev pub first_epoch : Option String → String → Option String
first_epoch none actual = some actual
first_epoch (some expected) actual = some expected

-- _assert_epoch
unfoldable pub assert_epoch : {N : Type 0} → String → Bool → Option Fields → Io N (Unit {0})
assert_epoch actual uncertain token c =
    if fits_epoch c.epoch actual
    then (ok tt, record c { epoch = first_epoch c.epoch actual })
    else (err (raised (epoch_changed uncertain token)), c)

-- an OSError of the close is dropped
abbrev pub closing : Await (Unit {0}) → Result Trouble (Unit {0})
closing (done u) = ok tt
closing os_failed = ok tt
closing timed_out = err timeout_error
closing interrupted = err cancelled_error

-- the hello that opens a session
abbrev pub hello_message : String → Fields
hello_message session =
    field "transport_operation" (str "hello")
      (field "schema_version" (str schema_version) (field "client_session_id" (str session) end))

abbrev epoch_or_error : Option String → Result Trouble String
epoch_or_error none = err plain
epoch_or_error (some epoch) = ok epoch

abbrev is_hello : String → Fields → Bool
is_hello session d =
    py_eq (get "transport_operation" d) (str "hello")
    && py_eq (get "schema_version" d) (str schema_version)
    && py_eq (get "client_session_id" d) (str session)

abbrev checked_hello : String → Option Fields → Result Trouble String
checked_hello session none = err plain
checked_hello session (some d) =
    if not (is_null (get "transport_error" d)) || not (is_hello session d)
    then err plain
    else epoch_or_error (as_text (get "server_epoch" d))

-- json.loads and the test for a dict. Only the two decode errors are caught where it is called.
abbrev pub json_of : Loaded → Result Trouble (Option Fields)
json_of (loaded v) = ok (as_mapping v)
json_of malformed = ok none
json_of too_long = err (raised value_error)
json_of too_deep = err (raised runtime_error)

-- the checks of the answer to the hello, which give the server's epoch
unfoldable pub check_hello : String → Option Fields → Result Trouble String
check_hello session answer = checked_hello session answer

module _ {N : Type 0} where
  abbrev pub lift : {A : Type 0} → Result Trouble A → Io N A
  lift r c = (r, c)

  abbrev pub session_of : Io N String
  session_of c = (ok c.session, c)

module _ {N : Type 0} (net : Network N) where
  -- _disconnect: the fields are cleared before the await
  unfoldable pub disconnect : Io N (Unit {0})
  disconnect c =
      if c.attached
      then (closing (net.close c.net).0, record c { net = (net.close c.net).1; attached = false })
      else (ok tt, c)

  -- is_alive
  unfoldable pub is_alive : Conn N → Bool
  is_alive c = not c.closed && c.attached && net.healthy c.net

  -- _hello
  unfoldable pub hello : Io N (Unit {0})
  unfolding read_response_frame check_hello assert_epoch wait ◌>>=◌
  hello = do
    session ← session_of
    wait (λ n. net.send n (net.encode (hello_message session)))
    line ← read_response_frame net
    answer ← lift (json_of (net.decode line))
    epoch ← lift (check_hello session answer)
    assert_epoch epoch false none

  unfoldable pub open_connection : Io N (Unit {0})
  unfolding hello wait change ◌>>=◌
  open_connection = do wait net.dial; change (λ c. record c { attached = true }); hello

  -- the handlers of _connect: a cancellation passes them all, and so do the errors of json.loads that
  -- _hello does not catch
  unfoldable pub on_connect_trouble : Trouble → Io N (Unit {0})
  unfolding disconnect raise ◌>>=◌
  on_connect_trouble cancelled_error = raise cancelled_error
  on_connect_trouble (raised value_error) = raise (raised value_error)
  on_connect_trouble (raised runtime_error) = raise (raised runtime_error)
  on_connect_trouble (raised e) = do disconnect; raise (raised e)
  on_connect_trouble t = do disconnect; raise plain

  -- _connect
  unfoldable pub connect : Io N (Unit {0})
  unfolding is_alive open_connection on_connect_trouble attempt
  connect c =
      if c.closed
      then (err plain, c)
      else if is_alive c
      then (ok tt, c)
      else attempt open_connection on_connect_trouble c

  -- invalidate, on a lock that is granted or whose wait is cancelled
  unfoldable pub invalidate : Io N (Unit {0})
  unfolding disconnect wait ◌>>=◌
  invalidate = do wait net.lock; disconnect

  abbrev shut : Conn N → Conn N
  shut c = record c { closed = true }

  unfoldable pub shut_now : Io N (Unit {0})
  unfolding disconnect
  shut_now c = if c.closed then (ok tt, c) else disconnect (shut c)

  -- close
  unfoldable pub close : Io N (Unit {0})
  unfolding shut_now wait ◌>>=◌
  close = do wait net.lock; shut_now

abbrev limit_or_error : {N : Type 0} → ℕ → Io N (Unit {0})
limit_or_error limit c =
    if c.closed then (err plain, c) else (ok tt, record c { max_response = limit })

-- set_max_response_bytes
unfoldable pub set_max_response_bytes : {N : Type 0} → Network N → ℕ → Io N (Unit {0})
unfolding wait raise ◌>>=◌
set_max_response_bytes net limit =
    if limit == 0 then raise (raised value_error) else (do wait net.lock; limit_or_error limit)
