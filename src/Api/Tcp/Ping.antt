-- ===== src/Api/Tcp/Ping.antt =====
-- TcpConnection.ping. The bytes of the ping are those of its object.
pub mod Sound
use sts2_training.Base.{
  ◌≡◌, refl, ◌∙◌, sym, inl, inr, Bool-cases, ℕ, String, Bool, true, false, not, ◌||◌, Option, none,
  some, List, [], ◌∷◌, if◌then◌else◌, arith,
}
use sts2_training.Base.Outcome.{Result, ok, err}
use sts2_training.Json.{Fields, field, end, Value, str, get, as_text, py_eq}
use sts2_training.Api.Errors.{Exc, value_error, runtime_error, transport_error, epoch_changed}
use sts2_training.Api.Tcp.{
  Network, Conn, Trouble, timeout_error, os_error, cancelled_error, stuck, raised,
}
use sts2_training.Api.Tcp.Io.{Io, pure, raise, wait, attempt, handle, continue, ◌>>=◌, ◌>>◌}
use sts2_training.Api.Tcp.Frame.{plain, read_response_frame}
use sts2_training.Api.Tcp.Connect.{disconnect, invalidate, assert_epoch, json_of, lift}
use sts2_training.Api.Tcp.Exchange.{opened}

abbrev pub ping_message : Fields
ping_message = field "transport_operation" (str "ping") end

abbrev pub pinged : Trouble → Trouble
pinged timeout_error = plain
pinged os_error = plain
pinged t = t

abbrev pub is_epoch_change : Trouble → Bool
is_epoch_change (raised (epoch_changed u t)) = true
is_epoch_change t = false

abbrev pub with_pong_epoch : Fields → Option String → Result Trouble (Fields × String)
with_pong_epoch d none = err plain
with_pong_epoch d (some epoch) = ok (d, epoch)

abbrev pub checked_pong : Option Fields → Result Trouble (Fields × String)
checked_pong none = err plain
checked_pong (some d) =
    if not (py_eq (get "transport_operation" d) (str "pong"))
    then err plain
    else with_pong_epoch d (as_text (get "server_epoch" d))

module _ {N : Type 0} (net : Network N) where
  unfoldable pub closing_raise : {A : Type 0} → Trouble → Io N A
  unfolding disconnect ◌>>=◌
  closing_raise t = do disconnect net; raise t

  -- the handlers around the awaits; the flag is `sent`
  unfoldable pub on_ping_trouble : {A : Type 0} → Bool → Trouble → Io N A
  unfolding closing_raise
  on_ping_trouble sent t =
      if sent || is_epoch_change t then closing_raise (pinged t) else raise (pinged t)

  unfoldable pub send_ping : Io N (List ℕ)
  unfolding wait read_response_frame ◌>>=◌
  send_ping = do wait (λ n. net.send n (net.encode ping_message)); read_response_frame net

  -- the handlers after the answer, which errors of json.loads other than its decode errors pass
  unfoldable pub on_pong_trouble : {A : Type 0} → Trouble → Io N A
  unfolding invalidate ◌>>=◌
  on_pong_trouble (raised value_error) = raise (raised value_error)
  on_pong_trouble (raised runtime_error) = raise (raised runtime_error)
  on_pong_trouble t = do invalidate net; raise t

  unfoldable pub accept_pong : Fields × String → Io N Fields
  unfolding assert_epoch ◌>>=◌
  accept_pong (response, epoch) = do assert_epoch epoch false none; pure response

  unfoldable pub take_pong : List ℕ → Io N Fields
  unfolding accept_pong ◌>>=◌
  take_pong line = do
    response ← lift (json_of (net.decode line))
    answer ← lift (checked_pong response)
    accept_pong answer

  -- ping
  unfoldable pub ping : Io N Fields
  unfolding opened on_ping_trouble send_ping take_pong on_pong_trouble attempt ◌>>=◌
  ping = do
    attempt (opened net) (on_ping_trouble false)
    line ← attempt send_ping (on_ping_trouble true)
    attempt (take_pong line) on_pong_trouble
