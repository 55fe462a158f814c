-- ===== src/Search/Depth/Recorded.antt =====
-- _emulate_depth_batch: final_results beside final_meta.
use sts2_training.Base.{
  ◌≡◌, ◌⊎◌, refl, ap, ◌∙◌, inl, inr, ℕ, zero, suc, ◌≤◌, ◌+◌, String, Bool, true, false, Option,
  List, [], ◌∷◌, map, length, Bool-cases, arith, All,
}
use sts2_training.Json.{Fields, Value, lookup}
use sts2_training.Search.Depth.{
  Reply, answered, rejected, failed, Server, Placed, Depth, Ending, retries, stopped, raised,
  resolves, finish, recover, sort_out, note_created, add_retries, after_reply, with_server,
  emulate_chunk, run_chunks, chunks_of, make_retry_item, make_retry_items, count_faults,
  after_attempt, attempt,
}

-- the Branches that the results and the finished items name
abbrev pub result_branches : List (String × Option Value) → List String
result_branches rs = map (λ r. r.0) rs

abbrev pub finished_branches : {S : Type 0} → List (Placed S) → List String
finished_branches ps = map (λ p. p.1.branch_id) ps

-- The result resolves, or at least so many items were repeated.
abbrev pub Decided : ℕ → ℕ → String × Option Value → Type 0
Decided n faults r = (resolves r.1 ≡ true) ⊎ (n ≤ faults)

-- There is one result for each finished item, under its Branch; and each of them resolves, unless at
-- least n repetitions were counted.
pub record Recorded {E S : Type 0} (n : ℕ) (d : Depth E S) : Type 0 where
  pub named : result_branches d.final_results ≡ finished_branches d.final_meta
  pub decided : All (Decided n d.branch_retry_faults) d.final_results

All-Decided :
    (n k l : ℕ) (rs : List (String × Option Value))
    → k ≤ l
    → All (Decided n k) rs
    → All (Decided n l) rs
All-Decided n k l [] h a = tt
All-Decided n k l (r ∷ rs) h a = (more a.0, All-Decided n k l rs h a.1)
  where
    more : Decided n k r → Decided n l r
    more (inl e) = inl e
    more (inr e) = inr (omega arith)

abbrev Ready : Bool → ℕ → ℕ → Type 0
Ready last n faults = last ≡ true → n ≤ faults

none-Ready : (n faults : ℕ) → Ready false n faults
none-Ready n faults e = cc

module _ {E S : Type 0} (n : ℕ) where
  -- The results stay recorded, and no repetition is counted.
  abbrev pub Records : Depth E S → Depth E S → Type 0
  Records d f = Recorded n f × (f.branch_retry_faults ≡ d.branch_retry_faults)

  finish-Recorded :
      (p : Placed S) (r : Option Value) (d : Depth E S)
      → Decided n d.branch_retry_faults (p.1.branch_id, r)
      → Recorded n d
      → Recorded n (finish p r d)
  finish-Recorded p r d h k = record {
    named = ap (λ xs. p.1.branch_id ∷ xs) k.named;
    decided = (h, k.decided);
  }

  recover-Records : (again : Bool) (d : Depth E S) → Recorded n d → Records d (recover again d)
  recover-Records true d h = (record { named = h.named; decided = h.decided }, refl)
  recover-Records false d h = (h, refl)

  sort_out-Records :
      (again last : Bool) (results : Fields) (ps : List (Placed S)) (d : Depth E S)
      → Ready last n d.branch_retry_faults
      → Recorded n d
      → Records d (sort_out again last results ps d).1
  sort_out-Records again last results [] d l h = (h, refl)
  sort_out-Records again last results (p ∷ ps) d l h =
      let r = lookup p.1.branch_id results in
      elim (Bool-cases (resolves (lookup p.1.branch_id results))) [
        | inl e ↦ rw e (
            let f = recover-Records again (finish p r d) (finish-Recorded p r d (inl e) h) in
            let g =
              sort_out-Records again last results ps (recover again (finish p r d))
                (λ k. let x = l k in let y = f.1 in omega arith) f.0 in
            (g.0, g.1 ∙ f.1))
        | inr e ↦ rw e (elim (Bool-cases last) [
          | inl b ↦ rw b (
              sort_out-Records again last results ps (finish p r d) l
                (finish-Recorded p r d (inr (l b)) h))
          | inr b ↦ rw b (sort_out-Records again last results ps d l h)
        ])
      ]

  -- The same of an ending that is no reason to stop.
  abbrev pub RecordsAt : Depth E S → Ending S × Depth E S → Type 0
  RecordsAt d (retries qs, f) = Records d f
  RecordsAt d (stopped reason, f) = Unit
  RecordsAt d (raised e, f) = Unit

  add_retries-RecordsAt :
      (ps : List (Placed S)) (d : Depth E S) (r : Ending S × Depth E S)
      → RecordsAt d r
      → RecordsAt d (add_retries ps r)
  add_retries-RecordsAt ps d (retries qs, f) h = h
  add_retries-RecordsAt ps d (stopped reason, f) h = tt
  add_retries-RecordsAt ps d (raised e, f) h = tt

  from_before :
      (d f : Depth E S) (r : Ending S × Depth E S)
      → f.branch_retry_faults ≡ d.branch_retry_faults
      → RecordsAt f r
      → RecordsAt d r
  from_before d f (retries qs, g) e h = (h.0, h.1 ∙ e)
  from_before d f (stopped reason, g) e h = tt
  from_before d f (raised x, g) e h = tt

  abbrev Continues : Bool → (Depth E S → Ending S × Depth E S) → Type 0
  Continues last rest =
      (f : Depth E S) → Ready last n f.branch_retry_faults → Recorded n f → RecordsAt f (rest f)

  after_reply-RecordsAt :
      (again last : Bool) (chunk : List (Placed S)) (rest : Depth E S → Ending S × Depth E S)
      (reply : Reply) (d : Depth E S)
      → Continues last rest
      → Ready last n d.branch_retry_faults
      → Recorded n d
      → RecordsAt d (after_reply again last chunk rest reply d)
  after_reply-RecordsAt again last chunk rest (failed e) d k l h = tt
  after_reply-RecordsAt again last chunk rest (rejected true e detail) d k l h = tt
  after_reply-RecordsAt again last chunk rest (rejected false e detail) d k l h = tt
  after_reply-RecordsAt again last chunk rest (answered results) d k l h =
      let c = note_created chunk d in
      let f =
        sort_out-Records again last results chunk c l
          (record { named = h.named; decided = h.decided }) in
      let s = sort_out again last results chunk c in
      add_retries-RecordsAt s.0 d (rest s.1) (
        from_before d s.1 (rest s.1) f.1
          (k s.1 (λ b. let x = l b in let y = f.1 in omega arith) f.0))

  module _ (server : Server E) where
    emulate_chunk-RecordsAt :
        (again last : Bool) (chunk : List (Placed S)) (rest : Depth E S → Ending S × Depth E S)
        (timely : Bool) (d : Depth E S)
        → Continues last rest
        → Ready last n d.branch_retry_faults
        → Recorded n d
        → RecordsAt d (emulate_chunk server again last chunk rest timely d)
    emulate_chunk-RecordsAt again last chunk rest false d k l h = tt
    emulate_chunk-RecordsAt again last chunk rest true d k l h =
        let r = server.emulate d.server (map (λ p. p.1.payload) chunk) in
        after_reply-RecordsAt again last chunk rest r.0 (with_server r.1 d) k l
          (record { named = h.named; decided = h.decided })

    run_chunks-RecordsAt :
        (again last : Bool) (chunks : List (List (Placed S)))
        → Continues last (run_chunks server again last chunks)
    run_chunks-RecordsAt again last [] d l h = (h, refl)
    run_chunks-RecordsAt again last (chunk ∷ chunks) d l h =
        let r = server.in_time d.server in
        emulate_chunk-RecordsAt again last chunk (run_chunks server again last chunks) r.0
          (with_server r.1 d) (run_chunks-RecordsAt again last chunks) l
          (record { named = h.named; decided = h.decided })

    -- what making the items of a repetition leaves as it is
    retry_items-Recorded :
        (ps : List (Placed S)) (d : Depth E S)
        → Recorded n d
        → Records d (make_retry_items server ps d).1
    unfolding make_retry_item
    retry_items-Recorded [] d h = (h, refl)
    retry_items-Recorded (p ∷ ps) d h =
        retry_items-Recorded ps (make_retry_item server p d).1
          (record { named = h.named; decided = h.decided })

    abbrev pub RecordedAt : Ending S × Depth E S → Type 0
    RecordedAt (retries qs, f) = Recorded n f
    RecordedAt (stopped reason, f) = Unit
    RecordedAt (raised e, f) = Unit

    RecordedAt-of : (d : Depth E S) (r : Ending S × Depth E S) → RecordsAt d r → RecordedAt r
    RecordedAt-of d (retries qs, f) h = h.0
    RecordedAt-of d (stopped reason, f) h = tt
    RecordedAt-of d (raised e, f) h = tt

    after_attempt-RecordedAt :
        (left : ℕ) (next : List (Placed S) → Depth E S → Ending S × Depth E S) (d : Depth E S)
        (r : Ending S × Depth E S)
        → n ≤ d.branch_retry_faults + suc left
        → ((qs : List (Placed S)) (f : Depth E S)
            → n ≤ f.branch_retry_faults + left
            → Recorded n f
            → RecordedAt (next qs f))
        → RecordsAt d r
        → RecordedAt (after_attempt server next r.0 r.1)
    after_attempt-RecordedAt left next d (retries [], f) l k h = h.0
    after_attempt-RecordedAt left next d (retries (q ∷ qs), f) l k h =
        let g = count_faults (q ∷ qs) f in
        let more : f.branch_retry_faults ≤ f.branch_retry_faults + length (q ∷ qs) = omega arith in
        let m = retry_items-Recorded (q ∷ qs) g (record {
          named = h.0.named;
          decided = All-Decided n _ _ f.final_results more h.0.decided;
        }) in
        let x = h.1 in let y = m.1 in k _ _ (omega arith) m.0
    after_attempt-RecordedAt left next d (stopped reason, f) l k h = tt
    after_attempt-RecordedAt left next d (raised e, f) l k h = tt

    pub attempt-RecordedAt :
        (size left : ℕ) (again : Bool) (ps : List (Placed S)) (d : Depth E S)
        → n ≤ d.branch_retry_faults + left
        → Recorded n d
        → RecordedAt (attempt server size left again ps d)
    attempt-RecordedAt size zero again ps d l h =
        RecordedAt-of d _
          (run_chunks-RecordsAt again true (chunks_of (length ps) size ps) d (λ e. omega arith) h)
    attempt-RecordedAt size (suc left) again ps d l h =
        after_attempt-RecordedAt left (attempt server size left true) d
          (run_chunks server again false (chunks_of (length ps) size ps) d) l
          (attempt-RecordedAt size left true)
          (run_chunks-RecordsAt again false (chunks_of (length ps) size ps) d
            (none-Ready n d.branch_retry_faults) h)
