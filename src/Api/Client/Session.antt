-- ===== src/Api/Client/Session.antt =====
-- async_client.py: a session of the client, which is a series of calls of its methods. The methods
-- hold the request lock, so their bodies run one after the other.
use sts2_training.Base.{String, List, [], ◌∷◌, Option}
use sts2_training.Json.{Fields, Value}
use sts2_training.Api.Interface.{Environment}
use sts2_training.Api.Client.{Client}
use sts2_training.Api.Client.Operations.{
  Admission, start_instance, get_decision, close_instance, branch_batch_operation, commit_action,
  emulate_action, emulate_actions,
}
use sts2_training.Api.Client.Retry.{retry_request, defer_branch_cleanup_after_retry}

-- A call of a public method, with what the lock and the deadline do to it.
pub data Command : Type 0 where
  start : Admission → Fields → Command
  decide : Admission → String → String → Command
  commit : Admission → String → String → String → Command
  emulate : Admission → String → String → String → Value → String → String → Option Fields → Command
  emulate_batch : Admission → String → List Value → Option Fields → Command
  cancel : Admission → String → List String → Command
  release : Admission → String → List String → Command
  branch_status : Admission → String → List String → Command
  close : Admission → String → Command
  retry : Admission → Fields → Command
  defer_cleanup : Fields → String → List String → Command

module _ {L A : Type 0} (env : Environment L A) where
  -- the client after the call, whether it returned or raised
  unfoldable pub step : Command → Client L A → Client L A
  step (start a config) c = (start_instance env a config c).1
  step (decide a i b) c = (get_decision env a i b c).1
  step (commit a i p x) c = (commit_action env a i p x c).1
  step (emulate a i p b r d x o) c = (emulate_action env a i p b r d x o c).1
  step (emulate_batch a i items o) c = (emulate_actions env a i items o c).1
  step (cancel a i ids) c = (branch_batch_operation env a "cancel_branches" i ids c).1
  step (release a i ids) c = (branch_batch_operation env a "release_branches" i ids c).1
  step (branch_status a i ids) c = (branch_batch_operation env a "get_branch_status" i ids c).1
  step (close a i) c = (close_instance env a i c).1
  step (retry a t) c = (retry_request env a t c).1
  step (defer_cleanup t i ids) c = (defer_branch_cleanup_after_retry t i ids c).1

  unfoldable pub run : List Command → Client L A → Client L A
  unfolding step
  run [] c = c
  run (k ∷ ks) c = run ks (step k c)
