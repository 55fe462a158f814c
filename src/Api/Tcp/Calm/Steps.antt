-- ===== src/Api/Tcp/Calm/Steps.antt =====
-- tcp_connection.py: opening the connection with its hello, and reading a frame.
use sts2_training.Base.{
  ℕ, zero, suc, refl, String, Bool, true, false, Option, none, some, List, [], ◌∷◌, if◌then◌else◌,
  arith,
}
use sts2_training.Json.{Fields}
use sts2_training.Api.Errors.{
  value_error, runtime_error, type_error, key_error, protocol_error, operation_error,
  transport_error, epoch_changed, cancelled,
}
use sts2_training.Api.Tcp.{
  Network, Conn, Trouble, timeout_error, os_error, cancelled_error, stuck, raised, Loaded, loaded,
  malformed, too_long, too_deep,
}
use sts2_training.Api.Tcp.Io.{Io, pure, raise, wait, change, ◌>>◌}
use sts2_training.Api.Tcp.Frame.{
  plain, with_line, with_chunk, break_line, read_frame, read_some, read_response_frame, Line,
}
use sts2_training.Api.Tcp.Connect.{
  disconnect, is_alive, hello, hello_message, open_connection, on_connect_trouble, connect,
  check_hello, json_of, lift, session_of,
}
use sts2_training.Api.Tcp.Exchange.{opened}
use sts2_training.Api.Tcp.Calm.{
  Steady, Steady-refl, same_of, Calm, Plain, IsPlain, Calm-pure, Calm-raise, Calm-lift, Calm-wait,
  Calm-change, Calm-bind, Calm-attempt, Calm-assert_epoch, Calm-disconnect,
}

module _ {N : Type 0} where
  Calm-with_line :
      (loop : ℕ → List ℕ → Io N (List ℕ))
      → ((k : ℕ) (f : List ℕ) → Calm (loop k f))
      → (remaining : ℕ) (frame chunk : List ℕ) (o : Option Line)
      → Calm (with_line loop remaining frame chunk o)
  Calm-with_line loop h remaining frame chunk none = h _ _
  Calm-with_line loop h remaining frame chunk (some (line, [])) = Calm-pure _
  Calm-with_line loop h remaining frame chunk (some (line, b ∷ bs)) = Calm-raise plain (refl, refl)

  Calm-with_chunk :
      (loop : ℕ → List ℕ → Io N (List ℕ))
      → ((k : ℕ) (f : List ℕ) → Calm (loop k f))
      → (remaining : ℕ) (frame chunk : List ℕ) → Calm (with_chunk loop remaining frame chunk)
  unfolding with_chunk
  Calm-with_chunk loop h remaining frame [] = Calm-raise plain (refl, refl)
  Calm-with_chunk loop h remaining frame (b ∷ bs) =
      Calm-with_line loop h remaining frame (b ∷ bs) (break_line (b ∷ bs))

module _ {N : Type 0} (net : Network N) where
  Calm-read_frame :
      (fuel remaining : ℕ) (frame : List ℕ) → Calm (read_frame net fuel remaining frame)
  unfolding read_frame
  Calm-read_frame zero remaining frame = Calm-raise stuck tt
  Calm-read_frame (suc fuel) zero frame = Calm-raise plain (refl, refl)
  Calm-read_frame (suc fuel) (suc remaining) frame =
      Calm-bind _
        (Calm-with_chunk (read_frame net fuel) (Calm-read_frame fuel) (suc remaining) frame)
        (wait (read_some net (suc remaining))) (Calm-wait _)

  pub Calm-read_response_frame : Calm (read_response_frame net)
  unfolding read_response_frame
  Calm-read_response_frame = record {
    steady = λ c. (Calm-read_frame (suc c.max_response) c.max_response []).steady c;
    plainly = λ c. (Calm-read_frame (suc c.max_response) c.max_response []).plainly c;
  }

Calm-if :
    {N A : Type 0} (test : Conn N → Bool) (m n : Io N A)
    → Calm m
    → Calm n
    → Calm (λ c. if test c then m c else n c)
Calm-if {N} {A} test m n hm hn = record {
  steady = λ c. steady_if (test c) c;
  plainly = λ c. plain_if (test c) c;
}
  where
    steady_if : (b : Bool) (c : Conn N) → Steady c (if b then m c else n c).1
    steady_if true c = hm.steady c
    steady_if false c = hn.steady c

    plain_if : (b : Bool) (c : Conn N) → Plain (if b then m c else n c).0
    plain_if true c = hm.plainly c
    plain_if false c = hn.plainly c

Plain-check_hello : (session : String) (o : Option Fields) → Plain (check_hello session o)
unfolding check_hello
Plain-check_hello session o = ground arith

pub Plain-json_of : (l : Loaded) → Plain (json_of l)
Plain-json_of (loaded v) = tt
Plain-json_of malformed = tt
Plain-json_of too_long = tt
Plain-json_of too_deep = tt

module _ {N : Type 0} (net : Network N) where
  Calm-hello : Calm (hello net)
  unfolding hello
  Calm-hello =
      Calm-bind _
        (λ session.
          Calm-bind _
            (λ _.
              Calm-bind _
                (λ line.
                  Calm-bind _
                    (λ answer.
                      Calm-bind _ (λ epoch. Calm-assert_epoch epoch)
                        (lift (check_hello session answer))
                        (Calm-lift _ (Plain-check_hello session answer)))
                    (lift (json_of (net.decode line)))
                    (Calm-lift _ (Plain-json_of (net.decode line))))
                (read_response_frame net) (Calm-read_response_frame net))
            (wait (λ n. net.send n (net.encode (hello_message session)))) (Calm-wait _))
        session_of (record { steady = Steady-refl; plainly = λ c. tt })

  Calm-open_connection : Calm (open_connection net)
  unfolding open_connection
  Calm-open_connection =
      Calm-bind _
        (λ _.
          Calm-bind _ (λ _. Calm-hello) (change (λ c. record c { attached = true }))
            (Calm-change _ (λ c. same_of refl refl refl)))
        (wait net.dial) (Calm-wait _)

  closing_raise : (t : Trouble) → IsPlain t → Calm (disconnect net >> raise {A = Unit {0}} t)
  closing_raise t h = Calm-bind _ (λ _. Calm-raise t h) (disconnect net) (Calm-disconnect net)

  Calm-on_connect_trouble : (t : Trouble) → IsPlain t → Calm (on_connect_trouble net t)
  unfolding on_connect_trouble
  Calm-on_connect_trouble cancelled_error h = Calm-raise cancelled_error tt
  Calm-on_connect_trouble (raised value_error) h = Calm-raise (raised value_error) tt
  Calm-on_connect_trouble (raised runtime_error) h = Calm-raise (raised runtime_error) tt
  Calm-on_connect_trouble (raised type_error) h = closing_raise _ h
  Calm-on_connect_trouble (raised key_error) h = closing_raise _ h
  Calm-on_connect_trouble (raised protocol_error) h = closing_raise _ h
  Calm-on_connect_trouble (raised (operation_error r)) h = closing_raise _ h
  Calm-on_connect_trouble (raised (transport_error u t)) h = closing_raise _ h
  Calm-on_connect_trouble (raised (epoch_changed u t)) h = closing_raise _ h
  Calm-on_connect_trouble (raised (cancelled u t)) h = closing_raise _ h
  Calm-on_connect_trouble timeout_error h = closing_raise plain (refl, refl)
  Calm-on_connect_trouble os_error h = closing_raise plain (refl, refl)
  Calm-on_connect_trouble stuck h = closing_raise plain (refl, refl)

  Calm-connect : Calm (connect net)
  unfolding connect raise pure
  Calm-connect =
      Calm-if (λ c. c.closed) (raise plain) _ (Calm-raise plain (refl, refl))
        (Calm-if (is_alive net) (pure tt) _ (Calm-pure tt)
          (Calm-attempt _ Calm-on_connect_trouble (open_connection net) Calm-open_connection))

  pub Calm-opened : Calm (opened net)
  unfolding opened
  Calm-opened = Calm-bind _ (λ _. Calm-connect) (wait net.lock) (Calm-wait _)
