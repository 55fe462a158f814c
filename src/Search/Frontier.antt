-- ===== src/Search/Frontier.antt =====
-- src/sts2_training/decision/beam_search.py: the nodes of the beam, and the fitting of a
-- Whole Run's frontier to the server's active Branches.
pub mod Capacity
pub mod Whole
pub mod Fitting
pub mod Nodes
mod Tests
use sts2_training.Base.{
  ◌≡◌, ℕ, zero, suc, ◌+◌, ◌-◌, ◌==◌, leb, ltb, String, Bool, true, false, not, ◌&&◌, ◌||◌, Option,
  none, some, List, [], ◌∷◌, ◌++◌, length, take, drop, map, mem, str_eq, if◌then◌else◌,
}
use sts2_training.Base.Int.{ℤ}
use sts2_training.Json.{Fields, Value, as_positive, str, py_eq, Float}
use sts2_training.Api.Errors.{root_branch_id}
use sts2_training.Search.Scope.{is_continuation_decision}
use sts2_training.Search.Coverage.{CandidateProposal}
use sts2_training.Search.Pruner.{Scores}

-- BeamNode. The log of the branch is left out: it is only passed on.
pub record BeamNode (S : Type 0) : Type 0 where
  pub branch_id : String
  pub parent_branch_id : String
  pub rng_id : ℕ
  pub decision_point_id : String
  pub masked_emulator_dto : Fields
  pub depth : ℕ
  pub value : S
  pub root_action_id : Option String
  pub combat_depth : ℕ
  pub continuation_steps : ℕ
  pub terminal : Bool
  pub action_id : Option String
  pub action_type : Option String
  pub action : Option Fields
  pub policy_rank : Option ℕ
  pub policy_score : Option Float
  pub post_coverage_rank : Option ℤ
  pub candidate_source : Option String

-- An item of a batch, with its parent, its proposal, and the ids of the new Branch and its RNG.
pub record Item (S : Type 0) : Type 0 where
  pub payload : Fields
  pub parent : BeamNode S
  pub proposal : CandidateProposal
  pub branch_id : String
  pub rng_id : ℕ

abbrev pub is_nil {ℓ} : {A : Type ℓ} → List A → Bool
is_nil [] = true
is_nil (x ∷ xs) = false

abbrev pub smaller : ℕ → ℕ → ℕ
smaller a b = if leb a b then a else b

-- _is_macro_resolved
unfoldable pub is_macro_resolved : {S : Type 0} → BeamNode S → Bool
unfolding is_continuation_decision
is_macro_resolved node = node.terminal || not (is_continuation_decision node.masked_emulator_dto)

-- _server_batch_limit and _server_active_branch_capacity, by two attributes of the client
abbrev pub server_batch_limit : Value → Option ℕ
server_batch_limit v = as_positive v

unfoldable pub server_active_branch_capacity : Value → Value → Option ℕ
unfolding py_eq
server_active_branch_capacity instance_type limit =
    if py_eq instance_type (str "whole_run") then server_batch_limit limit else none

-- what the loop over the beam selects: nodes, items, the slots they use, and was anything left?
pub record Fitted (S : Type 0) : Type 0 where
  pub beam : List (BeamNode S)
  pub items : List (Item S)
  pub used : ℕ
  pub limited : Bool

-- the six results of the fitting
pub record Fit (S : Type 0) : Type 0 where
  pub beam : List (BeamNode S)
  pub waiting : List (BeamNode S)
  pub items : List (Item S)
  pub finished : List (BeamNode S)
  pub limited : Bool

module _ {S : Type 0} where
  abbrev pub children_of : String → List (Item S) → List (Item S)
  children_of i [] = []
  children_of i (e ∷ es) =
      let later = children_of i es in if str_eq e.parent.branch_id i then e ∷ later else later

  -- the slot that a parent takes: the root takes none
  abbrev pub parent_cost : BeamNode S → ℕ
  parent_cost node = if str_eq node.branch_id root_branch_id then 0 else 1

  abbrev pub nothing : ℕ → Bool → Fitted S
  nothing used limited = record { beam = []; items = []; used = used; limited = limited }

  abbrev pub with_node : BeamNode S → List (Item S) → Fitted S → Fitted S
  with_node node es f = record f { beam = node ∷ f.beam; items = es ++ f.items }

  abbrev pub limit : Fitted S → Fitted S
  limit f = record f { limited = true }

  -- the children that fit, and whether that is all of them
  abbrev pub room : ℕ → ℕ → BeamNode S → ℕ
  room capacity used node = capacity - (used + parent_cost node)

  -- the loop over the beam
  unfoldable pub fit_beam : ℕ → List (Item S) → ℕ → List (BeamNode S) → Fitted S
  fit_beam capacity items used [] = nothing used false
  fit_beam capacity items used (node ∷ rest) =
      let children = children_of node.branch_id items in
      let fitting = smaller (length children) (room capacity used node) in
      let now = used + (parent_cost node + fitting) in
      let skipped = limit (fit_beam capacity items used rest) in
      let taken = with_node node (take fitting children) (fit_beam capacity items now rest) in
      if is_nil children
      then skipped
      else if room capacity used node == 0
      then nothing used true
      else if ltb fitting (length children)
      then with_node node (take fitting children) (nothing now true)
      else taken

  -- sorted(..., key=state_score, reverse=True), which is stable
  module _ (scores : Scores S) where
    abbrev pub insert_node : BeamNode S → List (BeamNode S) → List (BeamNode S)
    insert_node x [] = x ∷ []
    insert_node x (y ∷ ys) =
        let later = insert_node x ys in
        if scores.below x.value y.value then y ∷ later else x ∷ y ∷ ys

    abbrev pub rank_nodes : List (BeamNode S) → List (BeamNode S)
    rank_nodes [] = []
    rank_nodes (x ∷ xs) = insert_node x (rank_nodes xs)

  abbrev pub branch_ids : List (BeamNode S) → List String
  branch_ids nodes = map (λ n. n.branch_id) nodes

  abbrev pub outside : List String → List (BeamNode S) → List (BeamNode S)
  outside is [] = []
  outside is (n ∷ ns) = let later = outside is ns in if mem n.branch_id is then later else n ∷ later

  abbrev pub resolved : List (BeamNode S) → List (BeamNode S)
  unfolding is_macro_resolved
  resolved [] = []
  resolved (n ∷ ns) = let later = resolved ns in if is_macro_resolved n then n ∷ later else later

  unfoldable pub fit_all :
      Scores S → ℕ → List (BeamNode S) → List (BeamNode S) → List (Item S) → Fit S
  unfolding fit_beam resolved
  fit_all scores capacity beam waiting items =
      let f = fit_beam capacity items 0 beam in
      let budget = capacity - f.used in
      let pruned = outside (branch_ids f.beam) beam in
      let order = rank_nodes scores waiting in
      record {
        beam = f.beam;
        waiting = take budget order;
        items = f.items;
        finished = resolved (pruned ++ drop budget order);
        limited =
            f.limited
            || not (is_nil pruned)
            || not (is_nil (drop budget order))
            || not (length f.items == length items);
      }

  -- _fit_whole_run_frontier_to_active_capacity
  unfoldable pub fit_whole_run_frontier :
      Scores S → Option ℕ → List (BeamNode S) → List (BeamNode S) → List (Item S) → Fit S
  unfolding fit_all
  fit_whole_run_frontier scores none beam waiting items = record {
    beam = beam;
    waiting = waiting;
    items = items;
    finished = [];
    limited = false;
  }
  fit_whole_run_frontier scores (some capacity) beam waiting items =
      fit_all scores capacity beam waiting items
