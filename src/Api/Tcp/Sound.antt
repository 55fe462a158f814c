-- ===== src/Api/Tcp/Sound.antt =====
-- TcpConnection.exchange, step by step.
use sts2_training.Base.{
  ◌≡◌, inl, inr, refl, ◌∙◌, sym, subst, ℕ, String, true, false, Option, none, some, List, ◌∷◌,
  Bool-cases, ltb, length,
}
use sts2_training.Base.Outcome.{Result, ok, err}
use sts2_training.Json.{Fields, str, get, as_text, is_null, py_eq}
use sts2_training.Api.Errors.{Exc, value_error, transport_error}
use sts2_training.Api.Interface.{Outcome, failed}
use sts2_training.Api.Tcp.{Network, Conn, Trouble, raised}
use sts2_training.Api.Tcp.Io.{change, wait, ◌>>=◌, ◌>>◌}
use sts2_training.Api.Tcp.Frame.{read_response_frame}
use sts2_training.Api.Tcp.Connect.{assert_epoch, disconnect, fits_epoch, json_of}
use sts2_training.Api.Tcp.Exchange.{
  unsent, lost, give_up, with_epoch, decoded, with_json, answered, note, opened, transmit,
  after_transmit, after_opened, exchange_now, exchange,
}
use sts2_training.Api.Tcp.Calm.{
  some_epoch, IsUnsent, Plain, Steady, Calm, Calm-bind, Calm-wait, Calm-disconnect,
}
use sts2_training.Api.Tcp.Calm.Steps.{Calm-opened, Calm-read_response_frame, Plain-json_of}
use sts2_training.Api.Tcp.Settled.{
  IsKept-of, IsKept-same, IsKept-trans, IsRefusal, IsSent, Settled, closed-IsReply, closed-IsSent,
  closed-IsTorn, closed-token, disconnect-attached, first-fits_epoch, lost-IsSent, unsent-IsTorn,
  unsent-token, unsent-delivered, heard, Reads, reported, unwritten, refused, escaped,
}

module _ {N : Type 0} (net : Network N) (q : Fields) where
  -- the exchange has written the request and read something
  module _ (old : List Fields) (read : Result Trouble (List ℕ)) where
    abbrev Ends : Option String → Outcome × Conn N → Type 0
    Ends epoch (o, d) = Settled net q old epoch read o d

    closed-written : (c : Conn N) → c.written ≡ q ∷ old → (disconnect net c).1.written ≡ q ∷ old
    closed-written c w = ((Calm-disconnect net).steady c).written ∙ w

    give_up-Settled :
        (e : Exc) (c : Conn N) → c.written ≡ q ∷ old → IsSent q e → Ends c.epoch (give_up net q e c)
    unfolding give_up
    give_up-Settled e c w h =
        let k = closed-IsSent q e (disconnect net c).0 h in
        record {
          token = k.0;
          told = reported k.1 (closed-written c w);
          kept = IsKept-of _ _ ((Calm-disconnect net).steady c).kept;
          torn = closed-IsTorn _ _ (disconnect-attached net c);
          answer = closed-IsReply q net read _ e (disconnect net c).0;
        }

    refused-Settled :
        (c : Conn N)
        → c.written ≡ q ∷ old
        → IsRefusal net read
        → Ends c.epoch (give_up net q (transport_error false none) c)
    unfolding give_up
    refused-Settled c w r = record {
      token = closed-token q (disconnect net c).0;
      told = refused r (closed-written c w);
      kept = IsKept-of _ _ ((Calm-disconnect net).steady c).kept;
      torn = closed-IsTorn _ _ (disconnect-attached net c);
      answer = closed-IsReply q net read _ (transport_error false none) (disconnect net c).0;
    }

    with_epoch-Settled :
        (r : Fields) (o : Option String) (c : Conn N)
        → c.written ≡ q ∷ old
        → Reads net read r
        → is_null (get "transport_error" r) ≡ true
        → as_text (get "server_epoch" r) ≡ o
        → Ends c.epoch (with_epoch net q r o c)
    unfolding with_epoch assert_epoch
    with_epoch-Settled r none c w h k g =
        give_up-Settled (transport_error true (some q)) c w (inr refl, refl)
    with_epoch-Settled r (some epoch) c w h k g = elim (Bool-cases (fits_epoch c.epoch epoch)) [
      | inl f ↦ rw f (record {
        token = tt;
        told = reported refl w;
        kept = IsKept-of _ _ (λ e. some_epoch c.epoch epoch e);
        torn = tt;
        answer = (h, k, g ∙ sym (first-fits_epoch c.epoch epoch f));
      })
      | inr f ↦ rw f (record {
        token = tt;
        told = reported refl w;
        kept = IsKept-same c.epoch;
        torn = tt;
        answer = tt;
      })
    ]

    decoded-Settled :
        (line : List ℕ) (o : Option Fields) (c : Conn N)
        → c.written ≡ q ∷ old
        → read ≡ ok line
        → json_of (net.decode line) ≡ ok o
        → Ends c.epoch (decoded net q o c)
    unfolding decoded
    decoded-Settled line none c w l h =
        give_up-Settled (transport_error true (some q)) c w (inr refl, refl)
    decoded-Settled line (some r) c w l h = elim (Bool-cases (is_null (get "transport_error" r))) [
      | inl k ↦ rw k (with_epoch-Settled r (as_text (get "server_epoch" r)) c w (line, l, h) k refl)
      | inr k ↦ rw k (refused-Settled c w (r, (line, l, h), k))
    ]

    json-Settled :
        (line : List ℕ) (r : Result Trouble (Option Fields)) (c : Conn N)
        → c.written ≡ q ∷ old
        → read ≡ ok line
        → json_of (net.decode line) ≡ r
        → Plain r
        → Ends c.epoch (with_json net q r c)
    unfolding with_json
    json-Settled line (ok o) c w l h p = decoded-Settled line o c w l h
    json-Settled line (err t) c w l h p = record {
      token = unsent-token q t p;
      told = escaped (line, t, l, h, refl) w;
      kept = IsKept-same c.epoch;
      torn = unsent-IsTorn t c.attached p;
      answer = tt;
    }

    after_transmit-Settled :
        (r : Result Trouble (List ℕ)) (c : Conn N)
        → c.written ≡ q ∷ old
        → read ≡ r
        → Ends c.epoch (after_transmit net q r c)
    unfolding after_transmit answered
    after_transmit-Settled (err t) c w h = give_up-Settled (lost q t) c w (lost-IsSent q t)
    after_transmit-Settled (ok line) c w h =
        json-Settled line (json_of (net.decode line)) c w h refl (Plain-json_of (net.decode line))

    from_earlier :
        (before after : Option String) (r : Outcome × Conn N)
        → ((e : String) → before ≡ some e → after ≡ some e)
        → Ends after r
        → Ends before r
    from_earlier before after r k s = record {
      token = s.token;
      told = s.told;
      kept = IsKept-trans before after _ k s.kept;
      torn = s.torn;
      answer = s.answer;
    }

  -- After the request is noted, nothing else is written, whatever happens.
  Calm-sent : Calm (wait (λ n. net.send n (net.encode q)) >> read_response_frame net)
  Calm-sent = Calm-bind _ (λ _. Calm-read_response_frame net) (wait _) (Calm-wait _)

  transmit-kept : (c : Conn N) (e : String) → c.epoch ≡ some e → (transmit net q c).1.epoch ≡ some e
  unfolding transmit change ◌>>=◌
  transmit-kept c e h = (Calm-sent.steady (note net q c)).kept e h

  transmit-written : (c : Conn N) → (transmit net q c).1.written ≡ q ∷ c.written
  unfolding transmit change ◌>>=◌
  transmit-written c = (Calm-sent.steady (note net q c)).written

  after_opened-Settled :
      (r : Result Trouble (Unit {0})) (c : Conn N)
      → Plain r
      → Ends c.written (transmit net q c).0 c.epoch (after_opened net q r c)
  unfolding after_opened
  after_opened-Settled (err t) c p = record {
    token = unsent-token q t p;
    told = unwritten (unsent-delivered t p) refl;
    kept = IsKept-same c.epoch;
    torn = unsent-IsTorn t c.attached p;
    answer = tt;
  }
  after_opened-Settled (ok u) c p =
      let (r, d) = transmit net q c in
      from_earlier c.written r c.epoch d.epoch _ (transmit-kept c)
        (after_transmit-Settled c.written r r d (transmit-written c) refl)

  after_opened-told :
      (r : Result Trouble (Unit {0})) (c d : Conn N)
      → Steady c d
      → Plain r
      → Ends c.written (transmit net q d).0 c.epoch (after_opened net q r d)
  after_opened-told r c d s p =
      from_earlier c.written (transmit net q d).0 c.epoch d.epoch _ s.kept (
        subst (λ w. Ends w (transmit net q d).0 d.epoch (after_opened net q r d)) s.written
          (after_opened-Settled r d p))

  refused_now :
      (c : Conn N) (read : Result Trouble (List ℕ)) (e : Exc)
      → IsUnsent e
      → Ends c.written read c.epoch (failed e, c)
  unfolding unsent
  refused_now c read e h = record {
    token = unsent-token q (raised e) h;
    told = unwritten (unsent-delivered (raised e) h) refl;
    kept = IsKept-same c.epoch;
    torn = unsent-IsTorn (raised e) c.attached h;
    answer = tt;
  }

  pub exchange-Settled :
      (c : Conn N)
      → Settled net q c.written c.epoch (heard net q c) (exchange net c q).0 (exchange net c q).1
  unfolding exchange exchange_now
  exchange-Settled c = elim (Bool-cases (py_eq (get "client_session_id" q) (str c.session))) [
    | inr h ↦ rw h (refused_now c (heard net q c) value_error tt)
    | inl h ↦ rw h (elim (Bool-cases (ltb c.max_message (length (net.encode q)))) [
      | inl k ↦ rw k (refused_now c (heard net q c) (transport_error false none) (refl, refl))
      | inr k ↦ rw k (
          after_opened-told (opened net c).0 c (opened net c).1 ((Calm-opened net).steady c)
            ((Calm-opened net).plainly c))
    ])
  ]
