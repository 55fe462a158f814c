-- ===== src/Api/Tests/Routing.antt =====
-- One answer through the router.
use sts2_training.Base.{◌≡◌, refl, some}
use sts2_training.Base.Int.{pos}
use sts2_training.Base.Outcome.{ok}
use sts2_training.Json.{int, end}
use sts2_training.Api.Router.{validate_internal_id, accept, pop, new_router}
use sts2_training.Api.Router.Sound.{accept-pop}

valid_id : validate_internal_id (int (pos 7)) ≡ ok 7
unfolding validate_internal_id
valid_id = refl

accept-pop_example :
    pop (int (pos 7)) (accept (int (pos 7)) end new_router).1 ≡ (ok (some end), new_router)
accept-pop_example = accept-pop (int (pos 7)) 7 valid_id end new_router refl refl
