-- ===== src/Api/Tcp/Ping/Sound.antt =====
-- TcpConnection.ping: the connection after it, and its result.
use sts2_training.Base.{
  ◌≡◌, refl, ◌∙◌, sym, inl, inr, Bool-cases, String, Bool, true, false, ◌||◌, Option, none, some,
  List, arith, ℕ,
}
use sts2_training.Base.Outcome.{Result, ok, err}
use sts2_training.Json.{Fields, str, get, as_text, py_eq}
use sts2_training.Api.Errors.{
  value_error, runtime_error, type_error, key_error, protocol_error, operation_error,
  transport_error, epoch_changed, cancelled,
}
use sts2_training.Api.Tcp.{
  Network, Conn, Trouble, timeout_error, os_error, cancelled_error, stuck, raised,
}
use sts2_training.Api.Tcp.Io.{pure, raise, wait, attempt, handle, continue, ◌>>=◌}
use sts2_training.Api.Tcp.Connect.{disconnect, invalidate, assert_epoch, json_of, lift, fits_epoch}
use sts2_training.Api.Tcp.Exchange.{opened}
use sts2_training.Api.Tcp.Ping.{
  pinged, is_epoch_change, with_pong_epoch, checked_pong, closing_raise, on_ping_trouble, send_ping,
  on_pong_trouble, accept_pong, take_pong, ping,
}
use sts2_training.Api.Tcp.Calm.{
  Calm, Plain, IsPlain, Calm-pure, Calm-raise, Calm-lift, Calm-wait, Calm-bind, Calm-attempt,
  Calm-assert_epoch, Calm-disconnect,
}
use sts2_training.Api.Tcp.Calm.Steps.{Calm-opened, Calm-read_response_frame, Plain-json_of}
use sts2_training.Api.Tcp.Settled.{IsKept, IsKept-of, first-fits_epoch}

-- A failure, or a pong with the epoch.
abbrev pub IsPong : Option String → Result Trouble Fields → Type 0
IsPong epoch (ok r) =
    (py_eq (get "transport_operation" r) (str "pong") ≡ true)
    × (as_text (get "server_epoch" r) ≡ epoch)
IsPong epoch (err t) = Unit

abbrev Pongs : {N : Type 0} → Result Trouble Fields × Conn N → Type 0
Pongs (r, d) = IsPong d.epoch r

IsPlain-pinged : (t : Trouble) → IsPlain t → IsPlain (pinged t)
IsPlain-pinged timeout_error h = (refl, refl)
IsPlain-pinged os_error h = (refl, refl)
IsPlain-pinged cancelled_error h = tt
IsPlain-pinged stuck h = tt
IsPlain-pinged (raised e) h = h

Plain-checked_pong : (o : Option Fields) → Plain (checked_pong o)
Plain-checked_pong o = ground arith

module _ {N : Type 0} (net : Network N) where
  Calm-closing_raise : {A : Type 0} (t : Trouble) → IsPlain t → Calm (closing_raise net {A = A} t)
  unfolding closing_raise
  Calm-closing_raise t h = Calm-bind _ (λ _. Calm-raise t h) (disconnect net) (Calm-disconnect net)

  Calm-on_ping_trouble :
      {A : Type 0} (sent : Bool) (t : Trouble)
      → IsPlain t
      → Calm (on_ping_trouble net {A = A} sent t)
  unfolding on_ping_trouble
  Calm-on_ping_trouble sent t h = elim (Bool-cases (sent || is_epoch_change t)) [
    | inl k ↦ rw k (Calm-closing_raise (pinged t) (IsPlain-pinged t h))
    | inr k ↦ rw k (Calm-raise (pinged t) (IsPlain-pinged t h))
  ]

  Calm-send_ping : Calm (send_ping net)
  unfolding send_ping
  Calm-send_ping = Calm-bind _ (λ _. Calm-read_response_frame net) (wait _) (Calm-wait _)

  pub Calm-invalidate : Calm (invalidate net)
  unfolding invalidate
  Calm-invalidate = Calm-bind _ (λ _. Calm-disconnect net) (wait net.lock) (Calm-wait _)

  Calm-invalidate_raise :
      {A : Type 0} (t : Trouble) → IsPlain t → Calm (invalidate net >>= λ _. raise {A = A} t)
  Calm-invalidate_raise t h = Calm-bind _ (λ _. Calm-raise t h) (invalidate net) Calm-invalidate

  Calm-on_pong_trouble :
      {A : Type 0} (t : Trouble) → IsPlain t → Calm (on_pong_trouble net {A = A} t)
  unfolding on_pong_trouble
  Calm-on_pong_trouble (raised value_error) h = Calm-raise (raised value_error) tt
  Calm-on_pong_trouble (raised runtime_error) h = Calm-raise (raised runtime_error) tt
  Calm-on_pong_trouble (raised type_error) h = Calm-invalidate_raise (raised type_error) h
  Calm-on_pong_trouble (raised key_error) h = Calm-invalidate_raise (raised key_error) h
  Calm-on_pong_trouble (raised protocol_error) h = Calm-invalidate_raise (raised protocol_error) h
  Calm-on_pong_trouble (raised (operation_error r)) h =
      Calm-invalidate_raise (raised (operation_error r)) h
  Calm-on_pong_trouble (raised (transport_error u x)) h =
      Calm-invalidate_raise (raised (transport_error u x)) h
  Calm-on_pong_trouble (raised (epoch_changed u x)) h =
      Calm-invalidate_raise (raised (epoch_changed u x)) h
  Calm-on_pong_trouble (raised (cancelled u x)) h = Calm-invalidate_raise (raised (cancelled u x)) h
  Calm-on_pong_trouble timeout_error h = Calm-invalidate_raise timeout_error h
  Calm-on_pong_trouble os_error h = Calm-invalidate_raise os_error h
  Calm-on_pong_trouble cancelled_error h = Calm-invalidate_raise cancelled_error h
  Calm-on_pong_trouble stuck h = Calm-invalidate_raise stuck h

  Calm-accept_pong : (a : Fields × String) → Calm (accept_pong net a)
  unfolding accept_pong
  Calm-accept_pong (r, epoch) =
      Calm-bind _ (λ _. Calm-pure r) (assert_epoch epoch false none) (Calm-assert_epoch epoch)

  Calm-take_pong : (line : List ℕ) → Calm (take_pong net line)
  unfolding take_pong
  Calm-take_pong line =
      Calm-bind _
        (λ response.
          Calm-bind _ Calm-accept_pong (lift (checked_pong response))
            (Calm-lift _ (Plain-checked_pong response)))
        (lift (json_of (net.decode line))) (Calm-lift _ (Plain-json_of (net.decode line)))

  Calm-ping : Calm (ping net)
  unfolding ping
  Calm-ping =
      Calm-bind _
        (λ _.
          Calm-bind _
            (λ line. Calm-attempt _ Calm-on_pong_trouble (take_pong net line) (Calm-take_pong line))
            (attempt (send_ping net) (on_ping_trouble net true))
            (Calm-attempt _ (Calm-on_ping_trouble true) (send_ping net) Calm-send_ping))
        (attempt (opened net) (on_ping_trouble net false))
        (Calm-attempt _ (Calm-on_ping_trouble false) (opened net) (Calm-opened net))

  raise-Pongs :
      (r : Result Trouble (Unit {0})) (t : Trouble) (c : Conn N)
      → Pongs (continue r (λ _. raise t) c)
  unfolding raise
  raise-Pongs (ok u) t c = tt
  raise-Pongs (err x) t c = tt

  accept_pong-Pongs :
      (r : Fields) (epoch : String) (c : Conn N)
      → py_eq (get "transport_operation" r) (str "pong") ≡ true
      → as_text (get "server_epoch" r) ≡ some epoch
      → Pongs (accept_pong net (r, epoch) c)
  unfolding accept_pong assert_epoch pure ◌>>=◌
  accept_pong-Pongs r epoch c h k = elim (Bool-cases (fits_epoch c.epoch epoch)) [
    | inl f ↦ rw f (h, k ∙ sym (first-fits_epoch c.epoch epoch f))
    | inr f ↦ rw f tt
  ]

  with_epoch-Pongs :
      (r : Fields) (o : Option String) (c : Conn N)
      → py_eq (get "transport_operation" r) (str "pong") ≡ true
      → as_text (get "server_epoch" r) ≡ o
      → Pongs (continue (with_pong_epoch r o) (accept_pong net) c)
  with_epoch-Pongs r none c h k = tt
  with_epoch-Pongs r (some epoch) c h k = accept_pong-Pongs r epoch c h k

  checked-Pongs :
      (o : Option Fields) (c : Conn N) → Pongs (continue (checked_pong o) (accept_pong net) c)
  checked-Pongs none c = tt
  checked-Pongs (some r) c = elim (Bool-cases (py_eq (get "transport_operation" r) (str "pong"))) [
    | inl h ↦ rw h (with_epoch-Pongs r (as_text (get "server_epoch" r)) c h refl)
    | inr h ↦ rw h tt
  ]

  on_pong_trouble-Pongs : (t : Trouble) (c : Conn N) → Pongs (on_pong_trouble net t c)
  unfolding on_pong_trouble raise ◌>>=◌
  on_pong_trouble-Pongs (raised value_error) c = tt
  on_pong_trouble-Pongs (raised runtime_error) c = tt
  on_pong_trouble-Pongs (raised type_error) c =
      raise-Pongs (invalidate net c).0 _ (invalidate net c).1
  on_pong_trouble-Pongs (raised key_error) c =
      raise-Pongs (invalidate net c).0 _ (invalidate net c).1
  on_pong_trouble-Pongs (raised protocol_error) c =
      raise-Pongs (invalidate net c).0 _ (invalidate net c).1
  on_pong_trouble-Pongs (raised (operation_error r)) c =
      raise-Pongs (invalidate net c).0 _ (invalidate net c).1
  on_pong_trouble-Pongs (raised (transport_error u x)) c =
      raise-Pongs (invalidate net c).0 _ (invalidate net c).1
  on_pong_trouble-Pongs (raised (epoch_changed u x)) c =
      raise-Pongs (invalidate net c).0 _ (invalidate net c).1
  on_pong_trouble-Pongs (raised (cancelled u x)) c =
      raise-Pongs (invalidate net c).0 _ (invalidate net c).1
  on_pong_trouble-Pongs timeout_error c = raise-Pongs (invalidate net c).0 _ (invalidate net c).1
  on_pong_trouble-Pongs os_error c = raise-Pongs (invalidate net c).0 _ (invalidate net c).1
  on_pong_trouble-Pongs cancelled_error c = raise-Pongs (invalidate net c).0 _ (invalidate net c).1
  on_pong_trouble-Pongs stuck c = raise-Pongs (invalidate net c).0 _ (invalidate net c).1

  json-Pongs :
      (r : Result Trouble (Option Fields)) (c : Conn N)
      → Pongs (continue r (λ response. lift (checked_pong response) >>= accept_pong net) c)
  unfolding ◌>>=◌
  json-Pongs (err t) c = tt
  json-Pongs (ok o) c = checked-Pongs o c

  handled-Pongs :
      (r : Result Trouble Fields) (c : Conn N)
      → Pongs (r, c)
      → Pongs (handle (on_pong_trouble net) r c)
  handled-Pongs (ok a) c h = h
  handled-Pongs (err t) c h = on_pong_trouble-Pongs t c

  answered-Pongs :
      (r : Result Trouble (List ℕ)) (c : Conn N)
      → Pongs (continue r (λ line. attempt (take_pong net line) (on_pong_trouble net)) c)
  unfolding take_pong attempt ◌>>=◌
  answered-Pongs (err t) c = tt
  answered-Pongs (ok line) c =
      handled-Pongs (take_pong net line c).0 (take_pong net line c).1
        (json-Pongs (json_of (net.decode line)) c)

  after_opened-Pongs :
      (r : Result Trouble (Unit {0})) (c : Conn N)
      → Pongs (
          continue r
            (λ _. attempt (send_ping net) (on_ping_trouble net true) >>= λ line.
              attempt (take_pong net line) (on_pong_trouble net))
            c)
  unfolding ◌>>=◌
  after_opened-Pongs (err t) c = tt
  after_opened-Pongs (ok u) c =
      answered-Pongs (attempt (send_ping net) (on_ping_trouble net true) c).0
        (attempt (send_ping net) (on_ping_trouble net true) c).1

  -- A ping writes no request and keeps a known epoch; its exception names no request; and what it
  -- returns is a pong with the epoch that the connection knows.
  pub ping-IsPong :
      (c : Conn N)
      → ((ping net c).1.written ≡ c.written)
        × IsKept c.epoch (ping net c).1.epoch
        × Plain (ping net c).0
        × IsPong (ping net c).1.epoch (ping net c).0
  unfolding ping ◌>>=◌
  ping-IsPong c = (
    (Calm-ping.steady c).written,
    IsKept-of _ _ (Calm-ping.steady c).kept,
    Calm-ping.plainly c,
    after_opened-Pongs (attempt (opened net) (on_ping_trouble net false) c).0
        (attempt (opened net) (on_ping_trouble net false) c).1,
  )
