-- ===== src/Api/Wire/Lost.antt =====
-- A request whose answer is lost is the one that the client keeps.
use sts2_training.Base.{◌≡◌, subst, true, Option, some, ◌∷◌}
use sts2_training.Base.Outcome.{err}
use sts2_training.Json.{Fields}
use sts2_training.Api.Errors.{transport_error}
use sts2_training.Api.Exec.{◌>>=◌, raise}
use sts2_training.Api.Interface.{Environment, Laws, failed, HasToken, Names}
use sts2_training.Api.Client.{Client}
use sts2_training.Api.Client.Execute.{
  execute, check_turn, exchange, on_outcome, on_failure, keep_if,
}
use sts2_training.Api.Wire.{IsTurn, core, IsTurn-IsInFlight, IsInFlight-sent}
use sts2_training.Api.Wire.Execute.{
  InFlight, number_matches, free_matches, remember_pending_lem, or_token-Names,
}

module _ {L A : Type 0} (env : Environment L A) (laws : Laws env) where
  -- When an exchange of the next request, or of the unresolved one, fails by a transport error that
  -- leaves its end unknown, execute raises that error, and the client keeps exactly this request as
  -- unresolved, with its number not used up.
  pub execute_lost :
      (t : Fields) (c : Client L A) (token : Option Fields)
      → IsTurn t (core c)
      → (env.exchange c.connection t).0 ≡ failed (transport_error true token)
      → execute env t c ≡ (
        err (transport_error true token),
        record c {
          connection = (env.exchange c.connection t).1;
          wire = t ∷ c.wire;
          pending_retry = some t;
        },
      )
  unfolding execute check_turn exchange on_outcome on_failure keep_if ◌>>=◌ raise
  execute_lost t c token h e =
      let f : InFlight t c = IsTurn-IsInFlight h in
      let n : Names t token = subst (HasToken t) e (laws.has_token c.connection t) in
      rw (
        number_matches _ _ f.is_next.numbered,
        free_matches _ _ f.pending,
        e,
        or_token-Names env t token n,
        remember_pending_lem t
            (record c { connection = (env.exchange c.connection t).1; wire = t ∷ c.wire })
            (IsInFlight-sent f),
      )
