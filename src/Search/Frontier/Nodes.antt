-- ===== src/Search/Frontier/Nodes.antt =====
-- A node for examples.
use sts2_training.Base.{ℕ, String, false, none}
use sts2_training.Json.{end}
use sts2_training.Search.Frontier.{BeamNode}

abbrev pub node : String → ℕ → BeamNode ℕ
node id score = record {
  branch_id = id;
  parent_branch_id = "root";
  rng_id = 1;
  decision_point_id = "d-1";
  masked_emulator_dto = end;
  depth = 1;
  value = score;
  root_action_id = none;
  combat_depth = 0;
  continuation_steps = 0;
  terminal = false;
  action_id = none;
  action_type = none;
  action = none;
  policy_rank = none;
  policy_score = none;
  post_coverage_rank = none;
  candidate_source = none;
}
