-- ===== src/Api/Errors.antt =====
-- The exceptions that the API raises (contract.py, transport.py), without their messages, and the
-- constants of contract.py. A retry token is the request that it serializes.
use sts2_training.Base.{
  String, Bool, Option, none, some, List, any, str_eq, if◌then◌else◌, Bool, false,
}
use sts2_training.Base.Outcome.{Result, ok, err}
use sts2_training.Json.{Fields, Value, str, hashable}

pub data Exc : Type 0 where
  value_error type_error key_error runtime_error protocol_error : Exc
  -- ApiOperationError and its two subclasses, with the response
  operation_error : Fields → Exc
  -- TransportError, ServerEpochChangedError and a cancellation: was the request maybe delivered,
  -- and the retry token that the exception carries
  transport_error epoch_changed cancelled : Bool → Option Fields → Exc

abbrev pub schema_version : String
schema_version = "0.8"

abbrev pub mask_version : String
mask_version = "1.2"

abbrev pub root_branch_id : String
root_branch_id = "root"

abbrev pub Check : Type 0
Check = Result Exc (Unit {0})

abbrev pub is_one_of : Value → List String → Bool
is_one_of (str s) xs = any (str_eq s) xs
is_one_of _ xs = false

-- v in frozenset(xs)
unfoldable pub member : Value → List String → Result Exc Bool
member v xs = if hashable v then ok (is_one_of v xs) else err type_error

abbrev pub or_protocol_error : {A : Type 0} → Option A → Result Exc A
or_protocol_error none = err protocol_error
or_protocol_error (some a) = ok a
