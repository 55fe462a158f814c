-- ===== src/Search/Depth/Live.antt =====
-- _emulate_depth_batch with a server that answers in time.
use sts2_training.Base.{
  ◌≡◌, ℕ, ◌≤◌, ◌+◌, zero, suc, Bool, true, false, Option, List, [], ◌∷◌, length, map,
}
use sts2_training.Json.{Fields}
use sts2_training.Search.Frontier.{Item}
use sts2_training.Search.Depth.Attempts.{AllFinished, IsComplete, emulate_depth_batch-IsComplete}
use sts2_training.Search.Depth.{
  answered, Server, Placed, Depth, Ending, retries, stopped, raised, chunks_of, placed_from,
  batch_size, fresh_depth, sort_out, note_created, add_retries, with_server, run_chunks,
  after_attempt, attempt, emulate_depth_batch,
}

-- There is always time left, and every call is answered.
pub record IsLive {E : Type 0} (server : Server E) : Type 0 where
  pub timely : (e : E) → (server.in_time e).0 ≡ true
  pub answers :
      (e : E) (payloads : List Fields)
      → (results : Fields) × ((server.emulate e payloads).0 ≡ answered results)

-- The ending gives no reason to stop and raises nothing.
abbrev pub Ends : {E S : Type 0} → Ending S × Depth E S → Type 0
Ends (retries qs, d) = Unit
Ends (stopped reason, d) = ⊥
Ends (raised e, d) = ⊥

-- The ending gives no reason to stop, and every item is finished.
abbrev pub Finishes : {E S : Type 0} → ℕ → List (Item S) → Ending S × Depth E S → Type 0
Finishes n items (retries qs, f) = AllFinished n items qs f
Finishes n items (stopped reason, f) = ⊥
Finishes n items (raised e, f) = ⊥

module _ {E S : Type 0} where
  finishes :
      (n : ℕ) (items : List (Item S)) (r : Ending S × Depth E S)
      → Ends r
      → IsComplete n items r
      → Finishes n items r
  finishes n items (retries qs, f) h k = k
  finishes n items (stopped reason, f) h k = h
  finishes n items (raised e, f) h k = h

  Ends-add_retries :
      (ps : List (Placed S)) (r : Ending S × Depth E S) → Ends r → Ends (add_retries ps r)
  Ends-add_retries ps (retries qs, d) h = tt
  Ends-add_retries ps (stopped reason, d) h = h
  Ends-add_retries ps (raised e, d) h = h

  module _ (server : Server E) (live : IsLive server) where
    Ends-run_chunks :
        (again last : Bool) (chunks : List (List (Placed S))) (d : Depth E S)
        → Ends (run_chunks server again last chunks d)
    Ends-run_chunks again last [] d = tt
    Ends-run_chunks again last (chunk ∷ chunks) d =
        let e = (server.in_time d.server).1 in
        let r = server.emulate e (map (λ p. p.1.payload) chunk) in
        let a = live.answers e (map (λ p. p.1.payload) chunk) in
        let f = with_server r.1 (with_server e d) in
        let s = sort_out again last a.0 chunk (note_created chunk f) in
        rw (live.timely d.server, a.1)
          (Ends-add_retries s.0 (run_chunks server again last chunks s.1)
            (Ends-run_chunks again last chunks s.1))

    Ends-after_attempt :
        (next : List (Placed S) → Depth E S → Ending S × Depth E S) (r : Ending S × Depth E S)
        → ((qs : List (Placed S)) (f : Depth E S) → Ends (next qs f))
        → Ends r
        → Ends (after_attempt server next r.0 r.1)
    Ends-after_attempt next (retries [], d) k h = tt
    Ends-after_attempt next (retries (q ∷ qs), d) k h = k _ _
    Ends-after_attempt next (stopped reason, d) k h = h
    Ends-after_attempt next (raised e, d) k h = h

    Ends-attempt :
        (size left : ℕ) (again : Bool) (ps : List (Placed S)) (d : Depth E S)
        → Ends (attempt server size left again ps d)
    Ends-attempt size zero again ps d = Ends-run_chunks again true (chunks_of (length ps) size ps) d
    Ends-attempt size (suc left) again ps d =
        Ends-after_attempt (attempt server size left true)
          (run_chunks server again false (chunks_of (length ps) size ps) d)
          (Ends-attempt size left true)
          (Ends-run_chunks again false (chunks_of (length ps) size ps) d)

    depth-Ends :
        (size further : ℕ) (limit : Option ℕ) (items : List (Item S)) (d : Depth E S)
        → Ends (emulate_depth_batch server size limit further items d)
    unfolding emulate_depth_batch
    depth-Ends size further limit items d =
        Ends-attempt (batch_size size limit) further false (placed_from 0 items) (fresh_depth d)

    -- A depth whose server answers every call in time, and
    -- whose batches are of at least one item, ends without a reason to stop and with nothing left to
    -- repeat; the finished items are exactly the items, with one result for each under its Branch, which
    -- resolves unless as many repetitions were counted as further attempts are allowed.
    pub emulate_depth_batch-Finishes :
        (size further : ℕ) (limit : Option ℕ) (items : List (Item S)) (d : Depth E S)
        → 1 ≤ batch_size size limit
        → Finishes
            (d.branch_retry_faults + further)
            items
            (emulate_depth_batch server size limit further items d)
    emulate_depth_batch-Finishes size further limit items d l =
        finishes (d.branch_retry_faults + further) items
          (emulate_depth_batch server size limit further items d)
          (depth-Ends size further limit items d)
          (emulate_depth_batch-IsComplete server size further limit items d l)
