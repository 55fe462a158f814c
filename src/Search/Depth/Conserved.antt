-- ===== src/Search/Depth/Conserved.antt =====
-- The items of one attempt of _emulate_depth_batch, the finished and the repeated ones.
use sts2_training.Base.{
  ◌≡◌, refl, sym, ap, subst, inl, inr, ℕ, Bool, true, false, Option, List, [], ◌∷◌, ◌++◌, map,
  Bool-cases,
}
use sts2_training.Json.{Fields, Value, lookup}
use mathlib.Core.List.{Perm, perm_middle}
use mathlib.Core.List.Perm
use sts2_training.Search.Depth.Chunks.{concat}
use sts2_training.Base.Moves.{exchange_append}
use sts2_training.Search.Coverage.{CandidateProposal}
use sts2_training.Search.Frontier.{BeamNode}
use sts2_training.Search.Depth.{
  Reply, answered, rejected, failed, Server, Placed, Depth, Ending, retries, stopped, raised,
  resolves, finish, recover, sort_out, note_created, add_retries, after_reply, with_server,
  emulate_chunk, run_chunks,
}

-- What a repetition does not change of an item.
pub record Core (S : Type 0) : Type 0 where
  pub place : ℕ
  pub parent : BeamNode S
  pub proposal : CandidateProposal
  pub rng_id : ℕ

abbrev pub core : {S : Type 0} → Placed S → Core S
core (place, x) = record {
  place = place;
  parent = x.parent;
  proposal = x.proposal;
  rng_id = x.rng_id;
}

abbrev pub cores : {S : Type 0} → List (Placed S) → List (Core S)
cores ps = map core ps

cores-append : {S : Type 0} (ps qs : List (Placed S)) → cores (ps ++ qs) ≡ cores ps ++ cores qs
cores-append [] qs = refl
cores-append (p ∷ ps) qs = ap (λ xs. core p ∷ xs) (cores-append ps qs)

none_append : {A : Type 0} (ps qs : List A) → ps ≡ [] → qs ≡ [] → ps ++ qs ≡ []
none_append ps qs h k = rw (h, k) refl

module _ {E S : Type 0} where
  -- the items that are done and those that are not
  abbrev pub all : Depth E S → List (Placed S) → List (Core S)
  all d ps = cores d.final_meta ++ cores ps

  finish-all :
      (p : Placed S) (r : Option Value) (ps : List (Placed S)) (d : Depth E S)
      → Perm (all (finish p r d) ps) (all d (p ∷ ps))
  finish-all p r ps d = Perm.symm (perm_middle (cores d.final_meta) (cores ps))

  recover-all :
      (again : Bool) (ps : List (Placed S)) (d : Depth E S) → all (recover again d) ps ≡ all d ps
  recover-all true ps d = refl
  recover-all false ps d = refl

  kept-all :
      (p : Placed S) (qs ps : List (Placed S)) (f d : Depth E S)
      → Perm (all f qs) (all d ps)
      → Perm (all f (p ∷ qs)) (all d (p ∷ ps))
  kept-all p qs ps f d h =
      Perm.trans (perm_middle (cores f.final_meta) (cores qs)) (
        Perm.trans (Perm.cons (core p) h) (Perm.symm (perm_middle (cores d.final_meta) (cores ps))))

  resolved-all :
      (again last : Bool) (results : Fields) (p : Placed S) (ps : List (Placed S)) (d : Depth E S)
      → Perm
          (all
            (sort_out again last results ps
              (recover again (finish p (lookup p.1.branch_id results) d))).1
            (sort_out again last results ps
              (recover again (finish p (lookup p.1.branch_id results) d))).0)
          (all (recover again (finish p (lookup p.1.branch_id results) d)) ps)
      → Perm
          (all
            (sort_out again last results ps
              (recover again (finish p (lookup p.1.branch_id results) d))).1
            (sort_out again last results ps
              (recover again (finish p (lookup p.1.branch_id results) d))).0)
          (all d (p ∷ ps))
  resolved-all again last results p ps d h =
      let r = lookup p.1.branch_id results in
      Perm.trans h (
        subst (λ xs. Perm xs (all d (p ∷ ps))) (sym (recover-all again ps (finish p r d)))
          (finish-all p r ps d))

  sort_out-all :
      (again last : Bool) (results : Fields) (ps : List (Placed S)) (d : Depth E S)
      → Perm
          (all (sort_out again last results ps d).1 (sort_out again last results ps d).0)
          (all d ps)
  sort_out-all again last results [] d = Perm.rfl
  sort_out-all again true results (p ∷ ps) d =
      let r = lookup p.1.branch_id results in
      elim (Bool-cases (resolves (lookup p.1.branch_id results))) [
        | inl h ↦
            rw h (resolved-all again true results p ps d (sort_out-all again true results ps _))
        | inr h ↦
            rw h
              (Perm.trans (sort_out-all again true results ps (finish p r d)) (finish-all p r ps d))
      ]
  sort_out-all again false results (p ∷ ps) d =
      elim (Bool-cases (resolves (lookup p.1.branch_id results))) [
        | inl h ↦
            rw h (resolved-all again false results p ps d (sort_out-all again false results ps _))
        | inr h ↦ rw h (
            kept-all p (sort_out again false results ps d).0 ps
              (sort_out again false results ps d).1 d (sort_out-all again false results ps d))
      ]

  -- The last attempt repeats nothing.
  sort_out-last :
      (again : Bool) (results : Fields) (ps : List (Placed S)) (d : Depth E S)
      → (sort_out again true results ps d).0 ≡ []
  sort_out-last again results [] d = refl
  sort_out-last again results (p ∷ ps) d =
      elim (Bool-cases (resolves (lookup p.1.branch_id results))) [
        | inl h ↦ rw h (sort_out-last again results ps _)
        | inr h ↦ rw h (sort_out-last again results ps _)
      ]

  -- The chunks that end with items to repeat have lost none of their items.
  abbrev pub Keeps : Bool → List (Placed S) → Depth E S → Ending S × Depth E S → Type 0
  Keeps last ps d (retries qs, f) = Perm (all f qs) (all d ps) × ((last ≡ true) → qs ≡ [])
  Keeps last ps d (stopped reason, f) = Unit
  Keeps last ps d (raised e, f) = Unit

  Keeps-add_retries :
      (last : Bool) (ps chunk rest : List (Placed S)) (d f : Depth E S) (r : Ending S × Depth E S)
      → Perm (all f ps) (all d chunk)
      → ((last ≡ true) → ps ≡ [])
      → Keeps last rest f r
      → Keeps last (chunk ++ rest) d (add_retries ps r)
  Keeps-add_retries last ps chunk rest d f (retries qs, g) h n k = (
    rw (cores-append ps qs, cores-append chunk rest)
        (exchange_append (cores g.final_meta) (cores qs) (cores ps) (cores rest)
          (cores f.final_meta) (cores chunk) (cores d.final_meta) h k.0),
    λ e. none_append ps qs (n e) (k.1 e),
  )
  Keeps-add_retries last ps chunk rest d f (stopped reason, g) h n k = tt
  Keeps-add_retries last ps chunk rest d f (raised e, g) h n k = tt

  Keeps-after_reply :
      (again last : Bool) (chunk later : List (Placed S)) (rest : Depth E S → Ending S × Depth E S)
      (reply : Reply) (d : Depth E S)
      → ((f : Depth E S) → Keeps last later f (rest f))
      → Keeps last (chunk ++ later) d (after_reply again last chunk rest reply d)
  Keeps-after_reply again last chunk later rest (failed e) d k = tt
  Keeps-after_reply again last chunk later rest (rejected true e detail) d k = tt
  Keeps-after_reply again last chunk later rest (rejected false e detail) d k = tt
  Keeps-after_reply again last chunk later rest (answered results) d k =
      let r = sort_out again last results chunk (note_created chunk d) in
      Keeps-add_retries last r.0 chunk later d r.1 (rest r.1)
        (sort_out-all again last results chunk (note_created chunk d))
        (λ e.
          subst (λ b. (sort_out again b results chunk (note_created chunk d)).0 ≡ []) (sym e)
            (sort_out-last again results chunk (note_created chunk d)))
        (k r.1)

  module _ (server : Server E) where
    Keeps-emulate_chunk :
        (again last : Bool) (chunk later : List (Placed S))
        (rest : Depth E S → Ending S × Depth E S) (timely : Bool) (d : Depth E S)
        → ((f : Depth E S) → Keeps last later f (rest f))
        → Keeps last (chunk ++ later) d (emulate_chunk server again last chunk rest timely d)
    Keeps-emulate_chunk again last chunk later rest false d k = tt
    Keeps-emulate_chunk again last chunk later rest true d k =
        let r = server.emulate d.server (map (λ p. p.1.payload) chunk) in
        Keeps-after_reply again last chunk later rest r.0 (with_server r.1 d) k

    pub Keeps-run_chunks :
        (again last : Bool) (chunks : List (List (Placed S))) (d : Depth E S)
        → Keeps last (concat chunks) d (run_chunks server again last chunks d)
    unfolding concat
    Keeps-run_chunks again last [] d = (Perm.rfl, λ e. refl)
    Keeps-run_chunks again last (chunk ∷ chunks) d =
        let r = server.in_time d.server in
        Keeps-emulate_chunk again last chunk (concat chunks) (run_chunks server again last chunks)
          r.0 (with_server r.1 d) (Keeps-run_chunks again last chunks)
