-- ===== src/Api/Wire/Kept.antt =====
-- What the methods of async_client.py do to the connection and to the wire together: rules for a
-- relation between the two.
pub mod Execute
pub mod Operations
pub mod Retry
use sts2_training.Base.{◌≡◌, refl, Bool, true, false, List, if◌then◌else◌}
use sts2_training.Base.Outcome.{Result, ok, err}
use sts2_training.Json.{Fields}
use sts2_training.Api.Errors.{Exc}
use sts2_training.Api.Exec.{Exec, pure, raise, lift, modify, continue, handle, catch, ◌>>=◌}
use sts2_training.Api.Client.{Client}

-- The connection and the wire stay as they are.
abbrev pub Same : {L A : Type 0} → Client L A → Client L A → Type 0
Same c d = (d.connection ≡ c.connection) × (d.wire ≡ c.wire)

module _ {L A : Type 0} (Q : L → List Fields → Type 0) where
  abbrev pub Holds : Client L A → Type 0
  Holds c = Q c.connection c.wire

  -- The method keeps the relation, whether it returns or raises.
  pub record Keeps {B : Type 0} (m : Exec (Client L A) B) : Type 0 where
    pub at : (c : Client L A) → Holds c → Holds (m c).1

  module _ {B : Type 0} where
    pub Keeps-Same : (m : Exec (Client L A) B) → ((c : Client L A) → Same c (m c).1) → Keeps m
    Keeps-Same m s = record { at = λ c h. rw ((s c).0, (s c).1) h }

    pub Keeps-pure : (b : B) → Keeps (pure b)
    unfolding pure
    Keeps-pure b = record { at = λ c h. h }

    pub Keeps-raise : (e : Exc) → Keeps (raise {A = B} e)
    unfolding raise
    Keeps-raise e = record { at = λ c h. h }

    pub Keeps-lift : (r : Result Exc B) → Keeps (lift r)
    unfolding lift
    Keeps-lift r = record { at = λ c h. h }

    pub Keeps-if :
        (b : Bool) (m n : Exec (Client L A) B) → Keeps m → Keeps n → Keeps (if b then m else n)
    Keeps-if true m n h k = h
    Keeps-if false m n h k = k

    handled :
        (f : Exc → Exec (Client L A) B) (r : Result Exc B) (c : Client L A)
        → ((e : Exc) → Keeps (f e))
        → Holds c
        → Holds (handle f r c).1
    handled f (ok b) c k h = h
    handled f (err e) c k h = (k e).at c h

    pub Keeps-catch :
        (m : Exec (Client L A) B) (f : Exc → Exec (Client L A) B)
        → Keeps m
        → ((e : Exc) → Keeps (f e))
        → Keeps (catch m f)
    unfolding catch
    Keeps-catch m f t k = record { at = λ c h. handled f (m c).0 (m c).1 k (t.at c h) }

  pub Keeps-modify :
      (f : Client L A → Client L A) → ((c : Client L A) → Same c (f c)) → Keeps (modify f)
  unfolding modify
  Keeps-modify f s = record { at = λ c h. rw ((s c).0, (s c).1) h }

  module _ {B X : Type 0} where
    continued :
        (f : B → Exec (Client L A) X) (r : Result Exc B) (c : Client L A)
        → ((b : B) → Keeps (f b))
        → Holds c
        → Holds (continue r f c).1
    continued f (ok b) c k h = (k b).at c h
    continued f (err e) c k h = h

    pub Keeps-bind :
        (m : Exec (Client L A) B) (f : B → Exec (Client L A) X)
        → Keeps m
        → ((b : B) → Keeps (f b))
        → Keeps (m >>= f)
    unfolding ◌>>=◌
    Keeps-bind m f t k = record { at = λ c h. continued f (m c).0 (m c).1 k (t.at c h) }
