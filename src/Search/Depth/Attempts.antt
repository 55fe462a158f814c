-- ===== src/Search/Depth/Attempts.antt =====
-- All attempts of _emulate_depth_batch together.
use sts2_training.Base.{
  ◌≡◌, refl, ap, subst, ℕ, zero, suc, ◌≤◌, leb, Bool, true, false, Option, List, [], ◌∷◌, ◌++◌,
  length, ◌+◌, Bool-cases, arith, inl, inr,
}
use mathlib.Core.List.{Perm, append-nil}
use mathlib.Core.List.Perm
use sts2_training.Search.Frontier.{Item}
use sts2_training.Search.Depth.{
  Server, Placed, Depth, Ending, retries, stopped, raised, chunks_of, placed_from, batch_size,
  run_chunks, make_retry_item, make_retry_items, count_faults, after_attempt, attempt, fresh_depth,
  emulate_depth_batch, insert_placed, ordered_final_meta,
}
use sts2_training.Search.Depth.Recorded.{Recorded, RecordedAt, attempt-RecordedAt}
use sts2_training.Search.Depth.Chunks.{concat-chunks_of}
use sts2_training.Search.Depth.Conserved.{core, cores, all, Keeps, Keeps-run_chunks}

insert_placed-Perm :
    {S : Type 0} (p : Placed S) (ps : List (Placed S))
    → Perm (cores (insert_placed p ps)) (core p ∷ cores ps)
insert_placed-Perm p [] = Perm.rfl
insert_placed-Perm p (q ∷ qs) = elim (Bool-cases (leb p.0 q.0)) [
  | inl b ↦ rw b Perm.rfl
  | inr b ↦ rw b (
      Perm.trans (Perm.cons (core q) (insert_placed-Perm p qs))
        (Perm.swap (core p) (core q) (cores qs)))
]

ordered-Perm : {S : Type 0} (ps : List (Placed S)) → Perm (cores (ordered_final_meta ps)) (cores ps)
ordered-Perm [] = Perm.rfl
ordered-Perm (p ∷ ps) =
    Perm.trans (insert_placed-Perm p (ordered_final_meta ps)) (Perm.cons (core p) (ordered-Perm ps))

none_le : 1 ≤ 0 → ⊥
none_le h = omega arith

-- Nothing is left to repeat; the finished items are exactly the items, each with its place, its
-- parent, its proposal and its RNG; and there is one result for each, under its Branch, which
-- resolves unless at least n repetitions were counted.
abbrev pub AllFinished : {E S : Type 0} → ℕ → List (Item S) → List (Placed S) → Depth E S → Type 0
AllFinished n items qs f =
    (qs ≡ [])
    × Perm (cores (ordered_final_meta f.final_meta)) (cores (placed_from 0 items))
    × Recorded n f

-- The same of an ending that gives no reason to stop.
abbrev pub IsComplete : {E S : Type 0} → ℕ → List (Item S) → Ending S × Depth E S → Type 0
IsComplete n items (retries qs, f) = AllFinished n items qs f
IsComplete n items (stopped reason, f) = Unit
IsComplete n items (raised e, f) = Unit

module _ {E S : Type 0} (server : Server E) where
  retry-cores :
      (ps : List (Placed S)) (d : Depth E S) → cores (make_retry_items server ps d).0 ≡ cores ps
  unfolding make_retry_item
  retry-cores [] d = refl
  retry-cores (p ∷ ps) d = ap (λ xs. core p ∷ xs) (retry-cores ps (make_retry_item server p d).1)

  retry-meta :
      (ps : List (Placed S)) (d : Depth E S)
      → (make_retry_items server ps d).1.final_meta ≡ d.final_meta
  unfolding make_retry_item
  retry-meta [] d = refl
  retry-meta (p ∷ ps) d = retry-meta ps (make_retry_item server p d).1

  -- Every item is finished, unless the ending gives a reason.
  abbrev IsDone : List (Placed S) → Depth E S → Ending S × Depth E S → Type 0
  IsDone ps d (retries qs, f) = (qs ≡ []) × Perm (cores f.final_meta) (all d ps)
  IsDone ps d (stopped reason, f) = Unit
  IsDone ps d (raised e, f) = Unit

  last-IsDone :
      (ps : List (Placed S)) (d : Depth E S) (r : Ending S × Depth E S)
      → Keeps true ps d r
      → IsDone ps d r
  last-IsDone ps d (retries qs, f) h = (
    h.1 refl,
    subst (λ xs. Perm xs (all d ps)) (append-nil (cores f.final_meta))
        (subst (λ q. Perm (all f q) (all d ps)) (h.1 refl) h.0),
  )
  last-IsDone ps d (stopped reason, f) h = tt
  last-IsDone ps d (raised e, f) h = tt

  IsDone-trans :
      (ps qs : List (Placed S)) (d f : Depth E S) (r : Ending S × Depth E S)
      → Perm (all f qs) (all d ps)
      → IsDone qs f r
      → IsDone ps d r
  IsDone-trans ps qs d f (retries xs, g) h k = (k.0, Perm.trans k.1 h)
  IsDone-trans ps qs d f (stopped reason, g) h k = tt
  IsDone-trans ps qs d f (raised e, g) h k = tt

  after_attempt-IsDone :
      (next : List (Placed S) → Depth E S → Ending S × Depth E S) (ps : List (Placed S))
      (d : Depth E S) (r : Ending S × Depth E S)
      → ((qs : List (Placed S)) (f : Depth E S) → IsDone qs f (next qs f))
      → Keeps false ps d r
      → IsDone ps d (after_attempt server next r.0 r.1)
  after_attempt-IsDone next ps d (retries [], f) k h =
      (refl, subst (λ xs. Perm xs (all d ps)) (append-nil (cores f.final_meta)) h.0)
  after_attempt-IsDone next ps d (retries (q ∷ qs), f) k h =
      let g = count_faults (q ∷ qs) f in
      let r = make_retry_items server (q ∷ qs) g in
      IsDone-trans ps r.0 d r.1 (next r.0 r.1)
        (rw (retry-meta (q ∷ qs) g, retry-cores (q ∷ qs) g) h.0) (k r.0 r.1)
  after_attempt-IsDone next ps d (stopped reason, f) k h = tt
  after_attempt-IsDone next ps d (raised e, f) k h = tt

  Keeps-chunks_of :
      (size : ℕ) (again last : Bool) (ps : List (Placed S)) (d : Depth E S)
      → Keeps last ps d (run_chunks server again last (chunks_of (length ps) (suc size) ps) d)
  Keeps-chunks_of size again last ps d =
      subst
        (λ xs.
          Keeps last xs d (run_chunks server again last (chunks_of (length ps) (suc size) ps) d))
        (concat-chunks_of (length ps) size ps (omega arith))
        (Keeps-run_chunks server again last (chunks_of (length ps) (suc size) ps) d)

  attempt-IsDone :
      (size left : ℕ) (again : Bool) (ps : List (Placed S)) (d : Depth E S)
      → IsDone ps d (attempt server (suc size) left again ps d)
  attempt-IsDone size zero again ps d =
      last-IsDone ps d (run_chunks server again true (chunks_of (length ps) (suc size) ps) d)
        (Keeps-chunks_of size again true ps d)
  attempt-IsDone size (suc left) again ps d =
      after_attempt-IsDone (attempt server (suc size) left true) ps d
        (run_chunks server again false (chunks_of (length ps) (suc size) ps) d)
        (attempt-IsDone size left true) (Keeps-chunks_of size again false ps d)

  IsComplete-of_done :
      (n : ℕ) (items : List (Item S)) (d : Depth E S) (r : Ending S × Depth E S)
      → d.final_meta ≡ []
      → IsDone (placed_from 0 items) d r
      → RecordedAt n server r
      → IsComplete n items r
  IsComplete-of_done n items d (retries qs, f) e h k = (
    h.0,
    Perm.trans (ordered-Perm f.final_meta)
        (subst (λ xs. Perm (cores f.final_meta) (cores xs ++ cores (placed_from 0 items))) e h.1),
    k,
  )
  IsComplete-of_done n items d (stopped reason, f) e h k = tt
  IsComplete-of_done n items d (raised x, f) e h k = tt

  -- When the batches of a depth, which are of at least one item, end without a reason to stop: nothing
  -- is left to repeat; the finished items are exactly the items of the depth, each place once, with the
  -- parent, the proposal and the RNG of its item, in whatever Branch the item ended; there is exactly
  -- one result for each finished item, under that Branch; and each result resolves, unless as many
  -- repetitions were counted as further attempts are allowed.
  pub emulate_depth_batch-IsComplete :
      (size further : ℕ) (limit : Option ℕ) (items : List (Item S)) (d : Depth E S)
      → 1 ≤ batch_size size limit
      → IsComplete
          (d.branch_retry_faults + further)
          items
          (emulate_depth_batch server size limit further items d)
  unfolding emulate_depth_batch
  emulate_depth_batch-IsComplete size further limit items d l =
      IsComplete-of_done (d.branch_retry_faults + further) items (fresh_depth d)
        (emulate_depth_batch server size limit further items d) refl
        (by_size (batch_size size limit) l)
        (attempt-RecordedAt (d.branch_retry_faults + further) server (batch_size size limit) further
          false (placed_from 0 items) (fresh_depth d) (omega arith)
          (record { named = refl; decided = tt }))
    where
      by_size :
          (n : ℕ)
          → 1 ≤ n
          → IsDone
              (placed_from 0 items)
              (fresh_depth d)
              (attempt server n further false (placed_from 0 items) (fresh_depth d))
      by_size zero l = elim (none_le l) [ ]
      by_size (suc n) l = attempt-IsDone n further false (placed_from 0 items) (fresh_depth d)
