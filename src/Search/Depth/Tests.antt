-- ===== src/Search/Depth/Tests.antt =====
-- A depth of three items in chunks of two. The first time, the second Branch has no result; it is
-- repeated in a fresh Branch, which resolves.
use sts2_training.Base.{
  ◌≡◌, refl, ℕ, suc, ◌==◌, arith, String, true, none, List, [], ◌∷◌, str_eq, if◌then◌else◌,
}
use sts2_training.Json.{Fields, field, end, Value, str, obj, get, lookup}
use sts2_training.Search.Coverage.Apply.{structural}
use sts2_training.Search.Frontier.{Item}
use sts2_training.Search.Frontier.Nodes.{node}
use sts2_training.Search.Depth.{answered, Server, Depth, emulate_depth_batch, make_retry_item}
use sts2_training.Search.Depth.Live.{IsLive, Finishes, emulate_depth_batch-Finishes}
use sts2_training.Search.Depth.Attempts.{IsComplete, emulate_depth_batch-IsComplete}

abbrev item : String → ℕ → Item ℕ
item id rng = record {
  payload = field "branch_id" (str id) end;
  parent = node "root" 3;
  proposal = structural "c-1";
  branch_id = id;
  rng_id = rng;
}

abbrev items : List (Item ℕ)
items = item "b-1" 1 ∷ item "b-2" 2 ∷ item "b-3" 3 ∷ []

abbrev completed : Value
completed = obj (field "status" (str "completed") end)

abbrev with_result : Value → Fields → Fields
with_result (str id) rest = if str_eq id "b-2" then rest else field id completed rest
with_result v rest = rest

abbrev results : List Fields → Fields
results [] = end
results (p ∷ ps) = with_result (get "branch_id" p) (results ps)

abbrev server : Server ℕ
server = record {
  in_time = λ e. (true, e);
  emulate = λ e payloads. (answered (results payloads), suc e);
  branch_name = λ n. if n == 1 then "b-4" else "b-5";
}

abbrev before : Depth ℕ ℕ
before = record {
  server = 0;
  branch_counter = 0;
  all_branch_ids = [];
  final_results = [];
  final_meta = [];
  branches_created = 0;
  branch_retry_faults = 0;
  branch_retry_recoveries = 0;
}

one_recovered : (emulate_depth_batch server 2 none 2 items before).1.branch_retry_recoveries ≡ 1
unfolding emulate_depth_batch make_retry_item get lookup
one_recovered = refl

emulate_depth_batch-IsComplete_example :
    IsComplete 2 items (emulate_depth_batch server 2 none 2 items before)
emulate_depth_batch-IsComplete_example =
    emulate_depth_batch-IsComplete server 2 2 none items before (omega arith)

server-IsLive : IsLive server
server-IsLive = record { timely = λ e. refl; answers = λ e payloads. (results payloads, refl) }

emulate_depth_batch-Finishes_example :
    Finishes 2 items (emulate_depth_batch server 2 none 2 items before)
emulate_depth_batch-Finishes_example =
    emulate_depth_batch-Finishes server server-IsLive 2 2 none items before (omega arith)
