-- ===== src/Search/Depth.antt =====
-- src/sts2_training/decision/beam_search.py: _emulate_depth_batch, which simulates the items of one
-- depth in chunks and repeats those that do not resolve in fresh Branches. The server, the clock and
-- the name of the n-th Branch are parameters.
pub mod Chunks
pub mod Conserved
pub mod Recorded
pub mod Attempts
pub mod Live
mod Tests
use sts2_training.Base.{
  ◌≡◌, ℕ, zero, suc, ◌+◌, ◌==◌, leb, String, Bool, true, false, not, ◌&&◌, ◌||◌, Option, none, some,
  List, [], ◌∷◌, ◌++◌, length, take, drop, map, if◌then◌else◌,
}
use sts2_training.Json.{Fields, Value, str, lookup, as_mapping}
use sts2_training.Api.Errors.{Exc}
use sts2_training.Audit.Record.{set_field}
use sts2_training.Search.Scope.{is_resolved}
use sts2_training.Search.Frontier.{Item, smaller}

-- How a call of emulate_actions ends: with the results by Branch, with a rejection, which says whether
-- the client is unusable after it and gives the reason to report, or with another exception.
pub data Reply : Type 0 where
  answered : Fields → Reply
  rejected : Bool → Exc → String → Reply
  failed : Exc → Reply

pub record Server (E : Type 0) : Type 0 where
  -- is there time left before the deadline?
  pub in_time : E → Bool × E
  pub emulate : E → List Fields → Reply × E
  -- BranchIdAllocator.next_branch_id, by its counter
  pub branch_name : ℕ → String

-- an item with its place among the items of the depth
abbrev pub Placed : Type 0 → Type 0
Placed S = ℕ × Item S

-- what the loops change: the server, the allocator, the lists and the statistics
pub record Depth (E S : Type 0) : Type 0 where
  pub server : E
  pub branch_counter : ℕ
  pub all_branch_ids : List String
  pub final_results : List (String × Option Value)
  pub final_meta : List (Placed S)
  pub branches_created : ℕ
  pub branch_retry_faults : ℕ
  pub branch_retry_recoveries : ℕ

-- How the chunks of an attempt end: with the items to repeat, with a reason to stop, or raising.
pub data Ending (S : Type 0) : Type 0 where
  retries : List (Placed S) → Ending S
  stopped : String → Ending S
  raised : Exc → Ending S

-- _is_resolved_branch_result
abbrev pub resolves_mapping : Option Fields → Bool
resolves_mapping none = false
resolves_mapping (some result) = is_resolved result

abbrev pub resolves : Option Value → Bool
resolves none = false
resolves (some v) = resolves_mapping (as_mapping v)

abbrev pub ending_of : {S : Type 0} → Bool → Exc → String → Ending S
ending_of true e detail = raised e
ending_of false e detail = stopped detail

-- the chunks of a list, of at most so many items; the fuel is the length of the list
abbrev pub chunks_of : {S : Type 0} → ℕ → ℕ → List (Placed S) → List (List (Placed S))
chunks_of zero size ps = []
chunks_of (suc fuel) size [] = []
chunks_of (suc fuel) size (p ∷ ps) = take size (p ∷ ps) ∷ chunks_of fuel size (drop size (p ∷ ps))

-- the metas by their places
abbrev pub insert_placed : {S : Type 0} → Placed S → List (Placed S) → List (Placed S)
insert_placed p [] = p ∷ []
insert_placed p (q ∷ qs) =
    let later = insert_placed p qs in if leb p.0 q.0 then p ∷ q ∷ qs else q ∷ later

-- ordered_final_meta
abbrev pub ordered_final_meta : {S : Type 0} → List (Placed S) → List (Placed S)
ordered_final_meta [] = []
ordered_final_meta (p ∷ ps) = insert_placed p (ordered_final_meta ps)

-- the items with their places
abbrev pub placed_from : {S : Type 0} → ℕ → List (Item S) → List (Placed S)
placed_from place [] = []
placed_from place (x ∷ xs) = (place, x) ∷ placed_from (suc place) xs

-- the size of a batch, with the server's limit
abbrev pub batch_size : ℕ → Option ℕ → ℕ
batch_size size none = size
batch_size size (some limit) = smaller size limit

module _ {E S : Type 0} where
  abbrev pub finish : Placed S → Option Value → Depth E S → Depth E S
  finish p result d = record d {
    final_results = (p.1.branch_id, result) ∷ d.final_results;
    final_meta = p ∷ d.final_meta;
  }

  abbrev pub recover : Bool → Depth E S → Depth E S
  recover again d =
      if again then (record d { branch_retry_recoveries = suc d.branch_retry_recoveries }) else d

  -- the loop over the items of a chunk; the flags: is this a repetition, and is it the last attempt?
  abbrev pub sort_out :
      Bool → Bool → Fields → List (Placed S) → Depth E S → List (Placed S) × Depth E S
  sort_out again last results [] d = ([], d)
  sort_out again last results (p ∷ ps) d =
      let result = lookup p.1.branch_id results in
      let resolved = sort_out again last results ps (recover again (finish p result d)) in
      let given_up = sort_out again last results ps (finish p result d) in
      let repeated = sort_out again last results ps d in
      if resolves result then resolved else if last then given_up else (p ∷ repeated.0, repeated.1)

  abbrev pub note_created : List (Placed S) → Depth E S → Depth E S
  note_created chunk d = record d {
    all_branch_ids = d.all_branch_ids ++ map (λ p. p.1.branch_id) chunk;
    branches_created = d.branches_created + length chunk;
  }

  abbrev pub add_retries : List (Placed S) → Ending S × Depth E S → Ending S × Depth E S
  add_retries ps (retries qs, d) = (retries (ps ++ qs), d)
  add_retries ps (e, d) = (e, d)

  abbrev pub after_reply :
      Bool
      → Bool
      → List (Placed S)
      → (Depth E S → Ending S × Depth E S)
      → Reply
      → Depth E S
      → Ending S × Depth E S
  after_reply again last chunk rest (failed e) d = (raised e, d)
  after_reply again last chunk rest (rejected unusable e detail) d =
      (ending_of unusable e detail, d)
  after_reply again last chunk rest (answered results) d =
      let (ps, f) = sort_out again last results chunk (note_created chunk d) in
      add_retries ps (rest f)

  abbrev pub with_server : E → Depth E S → Depth E S
  with_server e d = record d { server = e }

  module _ (server : Server E) where
    abbrev pub emulate_chunk :
        Bool
        → Bool
        → List (Placed S)
        → (Depth E S → Ending S × Depth E S)
        → Bool
        → Depth E S
        → Ending S × Depth E S
    emulate_chunk again last chunk rest false d = (stopped "time_budget", d)
    emulate_chunk again last chunk rest true d =
        let (reply, e) = server.emulate d.server (map (λ p. p.1.payload) chunk) in
        after_reply again last chunk rest reply (with_server e d)

    -- the loop over the chunks of an attempt
    abbrev pub run_chunks : Bool → Bool → List (List (Placed S)) → Depth E S → Ending S × Depth E S
    run_chunks again last [] d = (retries [], d)
    run_chunks again last (chunk ∷ chunks) d =
        let (timely, e) = server.in_time d.server in
        emulate_chunk again last chunk (run_chunks again last chunks) timely (with_server e d)

    -- _make_retry_item
    unfoldable pub make_retry_item : Placed S → Depth E S → Placed S × Depth E S
    make_retry_item (place, item) d =
        let id = server.branch_name (suc d.branch_counter) in
        (
          (
            place,
            record item { branch_id = id; payload = set_field "branch_id" (str id) item.payload },
          ),
          record d { branch_counter = suc d.branch_counter },
        )

    abbrev pub make_retry_items : List (Placed S) → Depth E S → List (Placed S) × Depth E S
    unfolding make_retry_item
    make_retry_items [] d = ([], d)
    make_retry_items (p ∷ ps) d =
        let (q, f) = make_retry_item p d in let (qs, g) = make_retry_items ps f in (q ∷ qs, g)

  abbrev pub count_faults : List (Placed S) → Depth E S → Depth E S
  count_faults ps d = record d { branch_retry_faults = d.branch_retry_faults + length ps }

  abbrev pub fresh_depth : Depth E S → Depth E S
  fresh_depth d = record d { final_results = []; final_meta = [] }

  module _ (server : Server E) where
    -- what follows the chunks of an attempt that was not the last
    abbrev pub after_attempt :
        (List (Placed S) → Depth E S → Ending S × Depth E S)
        → Ending S
        → Depth E S
        → Ending S × Depth E S
    after_attempt next (retries []) d = (retries [], d)
    after_attempt next (retries (p ∷ ps)) d =
        let (qs, f) = make_retry_items server (p ∷ ps) (count_faults (p ∷ ps) d) in next qs f
    after_attempt next e d = (e, d)

    -- the loop over the attempts, with those that are left after this one
    abbrev pub attempt : ℕ → ℕ → Bool → List (Placed S) → Depth E S → Ending S × Depth E S
    attempt size zero again ps d = run_chunks server again true (chunks_of (length ps) size ps) d
    attempt size (suc left) again ps d =
        let (e, f) = run_chunks server again false (chunks_of (length ps) size ps) d in
        after_attempt (attempt size left true) e f

    -- _emulate_depth_batch, with one attempt and the given number of further ones
    unfoldable pub emulate_depth_batch :
        ℕ → Option ℕ → ℕ → List (Item S) → Depth E S → Ending S × Depth E S
    emulate_depth_batch max_batch_size limit further items d =
        attempt (batch_size max_batch_size limit) further false (placed_from 0 items)
          (fresh_depth d)
