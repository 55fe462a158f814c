-- ===== src/Api/Tcp/Io.antt =====
-- Code that awaits, changes the connection and may raise.
use sts2_training.Base.Outcome.{Result, ok, err}
use sts2_training.Api.Tcp.{
  Await, done, timed_out, os_failed, interrupted, Conn, Trouble, timeout_error, os_error,
  cancelled_error,
}

abbrev pub Io : Type 0 → Type 0 → Type 0
Io N A = Conn N → Result Trouble A × Conn N

abbrev pub ended : {A : Type 0} → Await A → Result Trouble A
ended (done a) = ok a
ended timed_out = err timeout_error
ended os_failed = err os_error
ended interrupted = err cancelled_error

module _ {N A : Type 0} where
  unfoldable pub pure : A → Io N A
  pure a c = (ok a, c)

  unfoldable pub raise : Trouble → Io N A
  raise t c = (err t, c)

  -- an await on the network
  unfoldable pub wait : (N → Await A × N) → Io N A
  wait f c = let (a, n) = f c.net in (ended a, record c { net = n })

  abbrev pub handle : (Trouble → Io N A) → Result Trouble A → Io N A
  handle f (ok a) c = (ok a, c)
  handle f (err t) c = f t c

  -- try: m, except: f
  unfoldable pub attempt : Io N A → (Trouble → Io N A) → Io N A
  attempt m f c = let (r, d) = m c in handle f r d

unfoldable pub change : {N : Type 0} → (Conn N → Conn N) → Io N (Unit {0})
change f c = (ok tt, f c)

module _ {N A B : Type 0} where
  abbrev pub continue : Result Trouble A → (A → Io N B) → Io N B
  continue (ok a) f c = f a c
  continue (err t) f c = (err t, c)

  infixl 5 ◌>>=◌
  unfoldable pub ◌>>=◌ : Io N A → (A → Io N B) → Io N B
  (m >>= f) c = let (r, d) = m c in continue r f d

module _ {N B : Type 0} where
  infixl 5 ◌>>◌
  abbrev pub ◌>>◌ : Io N (Unit {0}) → Io N B → Io N B
  m >> k = m >>= λ _. k
