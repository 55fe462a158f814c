-- ===== src/Search/Frontier/Tests.antt =====
-- A beam of two nodes with three items, a state that waits, and room for four Branches.
use sts2_training.Base.{◌≡◌, refl, ℕ, ◌+◌, ◌≤◌, String, false, List, [], ◌∷◌, length}
use sts2_training.Json.{end}
use sts2_training.Search.Coverage.Apply.{structural}
use sts2_training.Search.Pruner.Whole.{whole}
use sts2_training.Search.Frontier.Nodes.{node}
use sts2_training.Search.Frontier.{BeamNode, Item, fit_all, rank_nodes}
use sts2_training.Search.Frontier.Capacity.{slots}
use sts2_training.Search.Frontier.Whole.{HaveParents}
use sts2_training.Search.Frontier.Fitting.{fit_all-capacity, fit_all-unlimited}

abbrev item : BeamNode ℕ → String → Item ℕ
item parent id = record {
  payload = end;
  parent = parent;
  proposal = structural "c-1";
  branch_id = id;
  rng_id = 2;
}

abbrev beam : List (BeamNode ℕ)
beam = node "root" 3 ∷ node "b-1" 2 ∷ []

abbrev items : List (Item ℕ)
items = item (node "root" 3) "b-2" ∷ item (node "b-1" 2) "b-3" ∷ item (node "b-1" 2) "b-4" ∷ []

abbrev waiting : List (BeamNode ℕ)
waiting = node "b-5" 7 ∷ []

-- with room for four, no state can wait
four_used : length (fit_all whole 4 beam waiting items).waiting ≡ 0
unfolding fit_all
four_used = refl

fit_all-capacity_example :
    (slots (fit_all whole 4 beam waiting items).beam
        + (length (fit_all whole 4 beam waiting items).items
            + length (fit_all whole 4 beam waiting items).waiting)
      ≤ 4)
    × HaveParents
        (fit_all whole 4 beam waiting items).beam
        (fit_all whole 4 beam waiting items).items
fit_all-capacity_example = fit_all-capacity whole 4 beam waiting items

unlimited : (fit_all whole 5 beam waiting items).limited ≡ false
unfolding fit_all
unlimited = refl

fit_all-unlimited_example :
    ((fit_all whole 5 beam waiting items).beam ≡ beam)
    × (length (fit_all whole 5 beam waiting items).items ≡ length items)
    × ((fit_all whole 5 beam waiting items).waiting ≡ rank_nodes whole waiting)
fit_all-unlimited_example = fit_all-unlimited whole 5 beam waiting items unlimited
