-- ===== src/Search.antt =====
-- src/sts2_training/decision/: the combat search. The parts that decide which actions are tried and
-- which states survive.
pub mod Scope
pub mod Coverage
pub mod Pruner
pub mod Frontier
pub mod Depth
