-- ===== src/Api/Router.antt =====
-- src/sts2_training/api/response_router.py: answers by the transport's internal id.
pub mod Sound
use sts2_training.Base.{
  ℕ, String, Bool, true, false, not, ◌&&◌, ◌||◌, ◌==◌, Option, none, some, List, [], ◌∷◌, any,
  if◌then◌else◌,
}
use sts2_training.Base.Outcome.{Result, ok, err}
use sts2_training.Json.{Fields, Value, int, as_positive}
use sts2_training.Api.Errors.{Exc, type_error, value_error, runtime_error, Check}
use sts2_training.Api.Exec.{Exec}

-- `_pending` as an association list without repeated keys, `_expired` as a list without repetitions
pub record Router : Type 0 where
  pub pending : List (ℕ × Fields)
  pub expired : List ℕ

abbrev pub new_router : Router
new_router = record { pending = []; expired = [] }

abbrev positive_id : Option ℕ → Result Exc ℕ
positive_id none = err value_error
positive_id (some n) = ok n

-- _validate_internal_id
unfoldable pub validate_internal_id : Value → Result Exc ℕ
validate_internal_id (int i) = positive_id (as_positive (int i))
validate_internal_id _ = err type_error

abbrev pub holds : ℕ → List ℕ → Bool
holds n ids = any (λ k. k == n) ids

abbrev pub remove : ℕ → List ℕ → List ℕ
remove n [] = []
remove n (k ∷ ids) = if k == n then ids else k ∷ remove n ids

abbrev pub find : ℕ → List (ℕ × Fields) → Option Fields
find n [] = none
find n ((k, payload) ∷ rest) = if k == n then some payload else find n rest

abbrev pub drop_id : ℕ → List (ℕ × Fields) → List (ℕ × Fields)
drop_id n [] = []
drop_id n ((k, payload) ∷ rest) = if k == n then rest else (k, payload) ∷ drop_id n rest

abbrev add : ℕ → List ℕ → List ℕ
add n ids = if holds n ids then ids else n ∷ ids

abbrev pub is_some : Option Fields → Bool
is_some none = false
is_some (some payload) = true

abbrev with_id : {B : Type 0} → Result Exc ℕ → (ℕ → Exec Router B) → Exec Router B
with_id (ok n) f r = f n r
with_id (err e) f r = (err e, r)

unfoldable pub expire_id : ℕ → Exec Router (Unit {0})
expire_id n r = (ok tt, record { pending = drop_id n r.pending; expired = add n r.expired })

unfoldable pub accept_id : Fields → ℕ → Exec Router (Unit {0})
accept_id payload n r =
    if holds n r.expired
    then (ok tt, record r { expired = remove n r.expired })
    else if is_some (find n r.pending)
    then (err runtime_error, r)
    else (ok tt, record r { pending = (n, payload) ∷ r.pending })

unfoldable pub pop_id : ℕ → Exec Router (Option Fields)
pop_id n r =
    if holds n r.expired
    then (ok none, r)
    else (ok (find n r.pending), record r { pending = drop_id n r.pending })

-- expire, accept and pop
unfoldable pub expire : Value → Exec Router (Unit {0})
unfolding validate_internal_id expire_id
expire id = with_id (validate_internal_id id) expire_id

unfoldable pub accept : Value → Fields → Exec Router (Unit {0})
unfolding validate_internal_id accept_id
accept id payload = with_id (validate_internal_id id) (accept_id payload)

unfoldable pub pop : Value → Exec Router (Option Fields)
unfolding validate_internal_id pop_id
pop id = with_id (validate_internal_id id) pop_id
