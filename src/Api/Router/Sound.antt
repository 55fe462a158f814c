-- ===== src/Api/Router/Sound.antt =====
-- What the router keeps, and what a caller may rely on.
use sts2_training.Base.{ℕ, ◌≡◌, refl, false, ==_iff, none, some}
use sts2_training.Base.Outcome.{ok}
use sts2_training.Json.{Fields, Value}
use sts2_training.Api.Router.{Router, validate_internal_id, holds, find, accept, pop}

module _ (id : Value) (n : ℕ) (valid : validate_internal_id id ≡ ok n) where
  -- An answer to a valid id that is neither expired nor waiting is handed out unchanged by the next
  -- pop of that id, which leaves the router as it was before the answer.
  pub accept-pop :
      (payload : Fields) (r : Router)
      → holds n r.expired ≡ false
      → find n r.pending ≡ none
      → pop id (accept id payload r).1 ≡ (ok (some payload), r)
  unfolding pop accept
  accept-pop payload r e p = rw (valid, e, p, e, (==_iff n n).1 refl)
