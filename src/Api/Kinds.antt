-- ===== src/Api/Kinds.antt =====
-- Which exceptions a check raises.
use sts2_training.Base.{◌≡◌, String, Bool, true, false, Option, none, some, List, arith}
use sts2_training.Base.Outcome.{Result, ok, err, guard, ◌>>=◌}
use sts2_training.Json.{Fields, Value}
use sts2_training.Api.Errors.{
  or_protocol_error, Exc, protocol_error, type_error, key_error, operation_error, member,
}

-- The exceptions of a check of the response r.
abbrev pub Kind : Fields → Exc → Type 0
Kind r protocol_error = Unit
Kind r type_error = Unit
Kind r key_error = Unit
Kind r (operation_error s) = s ≡ r
Kind r e = ⊥

-- Every exception that the result may be is one of K.
abbrev pub Raises : {A : Type 0} → (Exc → Type 0) → Result Exc A → Type 0
Raises K (ok a) = Unit
Raises K (err e) = K e

pub Raises-bind :
    {A B : Type 0} (K : Exc → Type 0) (m : Result Exc A) (f : A → Result Exc B)
    → Raises K m
    → ((a : A) → Raises K (f a))
    → Raises K (m >>= f)
Raises-bind K (ok a) f h k = k a
Raises-bind K (err e) f h k = h

module _ (K : Exc → Type 0) (p : K protocol_error) where
  pub Raises-guard : (b : Bool) → Raises K (guard b protocol_error)
  Raises-guard true = tt
  Raises-guard false = p

  pub Raises-or : {A : Type 0} (o : Option A) → Raises K (or_protocol_error o)
  Raises-or none = p
  Raises-or (some a) = tt

pub Raises-member : (r : Fields) (v : Value) (xs : List String) → Raises (Kind r) (member v xs)
unfolding member
Raises-member r v xs = ground arith
