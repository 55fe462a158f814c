-- ===== src/Api/Tcp/Calm.antt =====
-- tcp_connection.py: steps of the connection that give no request to the writer.
pub mod Steps
use sts2_training.Base.{
  ℕ, zero, suc, ◌≡◌, refl, ◌∙◌, String, Bool, true, false, Option, none, some, List, [], ◌∷◌, ◌⊎◌,
  Bool-cases, inl, inr, str_eq_iff, if◌then◌else◌, str_eq,
}
use sts2_training.Base.Outcome.{Result, ok, err}
use sts2_training.Json.{Fields, Value}
use sts2_training.Api.Errors.{
  Exc, value_error, runtime_error, type_error, key_error, protocol_error, operation_error,
  transport_error, epoch_changed, cancelled,
}
use sts2_training.Api.Tcp.{
  Network, Conn, Await, done, timed_out, os_failed, interrupted, Trouble, timeout_error, os_error,
  cancelled_error, stuck, raised,
}
use sts2_training.Api.Tcp.Io.{
  Io, pure, raise, wait, attempt, change, ended, handle, continue, ◌>>=◌,
}
use sts2_training.Api.Tcp.Frame.{
  plain, with_line, with_chunk, break_line, read_frame, read_some, read_response_frame, Line,
}
use sts2_training.Api.Tcp.Connect.{
  assert_epoch, fits_epoch, first_epoch, closing, disconnect, is_alive, hello, open_connection,
  on_connect_trouble, connect, check_hello, lift,
}

-- The exception says that no request was delivered, and names none.
abbrev pub IsUnsent : Exc → Type 0
IsUnsent (transport_error u t) = (u ≡ false) × (t ≡ none)
IsUnsent (epoch_changed u t) = (u ≡ false) × (t ≡ none)
IsUnsent (cancelled u t) = (u ≡ false) × (t ≡ none)
IsUnsent e = Unit

abbrev pub IsPlain : Trouble → Type 0
IsPlain (raised e) = IsUnsent e
IsPlain t = Unit

abbrev pub Plain : {A : Type 0} → Result Trouble A → Type 0
Plain (ok a) = Unit
Plain (err t) = IsPlain t

-- From the connection c to the connection d no request was written.
pub record Steady {N : Type 0} (c d : Conn N) : Type 0 where
  pub written : d.written ≡ c.written
  pub session : d.session ≡ c.session
  pub kept : (e : String) → c.epoch ≡ some e → d.epoch ≡ some e

pub record Calm {N A : Type 0} (m : Io N A) : Type 0 where
  pub steady : (c : Conn N) → Steady c (m c).1
  pub plainly : (c : Conn N) → Plain (m c).0

module _ {N : Type 0} where
  pub Steady-refl : (c : Conn N) → Steady c c
  Steady-refl c = record { written = refl; session = refl; kept = λ e h. h }

  pub Steady-trans : {c d e : Conn N} → Steady c d → Steady d e → Steady c e
  Steady-trans s t = record {
    written = t.written ∙ s.written;
    session = t.session ∙ s.session;
    kept = λ x h. t.kept x (s.kept x h);
  }

  pub same_of :
      {c d : Conn N}
      → d.written ≡ c.written
      → d.session ≡ c.session
      → d.epoch ≡ c.epoch
      → Steady c d
  same_of w s p = record { written = w; session = s; kept = λ e h. p ∙ h }

Plain-ended : {A : Type 0} (a : Await A) → Plain (ended a)
Plain-ended (done a) = tt
Plain-ended timed_out = tt
Plain-ended os_failed = tt
Plain-ended interrupted = tt

pub some_epoch :
    (o : Option String) (actual e : String) → o ≡ some e → first_epoch o actual ≡ some e
some_epoch none actual e h = cc
some_epoch (some x) actual e h = h

Plain-closing : (a : Await (Unit {0})) → Plain (closing a)
Plain-closing (done u) = tt
Plain-closing os_failed = tt
Plain-closing timed_out = tt
Plain-closing interrupted = tt

module _ {N A : Type 0} where
  pub Calm-pure : (a : A) → Calm {N = N} (pure a)
  unfolding pure
  Calm-pure a = record { steady = Steady-refl; plainly = λ c. tt }

  pub Calm-raise : (t : Trouble) → IsPlain t → Calm {N = N} {A = A} (raise t)
  unfolding raise
  Calm-raise t h = record { steady = Steady-refl; plainly = λ c. h }

  pub Calm-lift : (r : Result Trouble A) → Plain r → Calm {N = N} (lift r)
  Calm-lift r h = record { steady = Steady-refl; plainly = λ c. h }

  pub Calm-wait : (f : N → Await A × N) → Calm (wait f)
  unfolding wait
  Calm-wait f = record {
    steady = λ c. same_of refl refl refl;
    plainly = λ c. Plain-ended (f c.net).0;
  }

pub Calm-change :
    {N : Type 0} (f : Conn N → Conn N) → ((c : Conn N) → Steady c (f c)) → Calm (change f)
unfolding change
Calm-change f h = record { steady = h; plainly = λ c. tt }

module _ {N A B : Type 0} (f : A → Io N B) (k : (a : A) → Calm (f a)) where
  Steady-continue : (r : Result Trouble A) (c d : Conn N) → Steady c d → Steady c (continue r f d).1
  Steady-continue (ok a) c d s = Steady-trans s ((k a).steady d)
  Steady-continue (err t) c d s = s

  Plain-continue : (r : Result Trouble A) (d : Conn N) → Plain r → Plain (continue r f d).0
  Plain-continue (ok a) d p = (k a).plainly d
  Plain-continue (err t) d p = p

  pub Calm-bind : (m : Io N A) → Calm m → Calm (m >>= f)
  unfolding ◌>>=◌
  Calm-bind m h = record {
    steady = λ c. Steady-continue (m c).0 c (m c).1 (h.steady c);
    plainly = λ c. Plain-continue (m c).0 (m c).1 (h.plainly c);
  }

module _ {N A : Type 0} (f : Trouble → Io N A) (k : (t : Trouble) → IsPlain t → Calm (f t)) where
  Steady-handle :
      (r : Result Trouble A) (c d : Conn N) → Plain r → Steady c d → Steady c (handle f r d).1
  Steady-handle (ok a) c d p s = s
  Steady-handle (err t) c d p s = Steady-trans s ((k t p).steady d)

  Plain-handle : (r : Result Trouble A) (d : Conn N) → Plain r → Plain (handle f r d).0
  Plain-handle (ok a) d p = tt
  Plain-handle (err t) d p = (k t p).plainly d

  pub Calm-attempt : (m : Io N A) → Calm m → Calm (attempt m f)
  unfolding attempt
  Calm-attempt m h = record {
    steady = λ c. Steady-handle (m c).0 c (m c).1 (h.plainly c) (h.steady c);
    plainly = λ c. Plain-handle (m c).0 (m c).1 (h.plainly c);
  }

module _ {N : Type 0} where
  pub Calm-assert_epoch : (actual : String) → Calm {N = N} (assert_epoch actual false none)
  unfolding assert_epoch
  Calm-assert_epoch actual = record {
    steady = λ c. elim (Bool-cases (fits_epoch c.epoch actual)) [
      | inl h ↦
          rw h (record { written = refl; session = refl; kept = λ e. some_epoch c.epoch actual e })
      | inr h ↦ rw h (Steady-refl c)
    ];
    plainly = λ c. elim (Bool-cases (fits_epoch c.epoch actual)) [
      | inl h ↦ rw h tt
      | inr h ↦ rw h (refl, refl)
    ];
  }

  pub Calm-disconnect : (net : Network N) → Calm (disconnect net)
  unfolding disconnect
  Calm-disconnect net = record {
    steady = λ c. elim (Bool-cases c.attached) [
      | inl h ↦ rw h (same_of refl refl refl)
      | inr h ↦ rw h (same_of refl refl refl)
    ];
    plainly = λ c. elim (Bool-cases c.attached) [
      | inl h ↦ rw h (Plain-closing (net.close c.net).0)
      | inr h ↦ rw h tt
    ];
  }
