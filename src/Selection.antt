-- ===== src/Selection.antt =====
-- The selection rules over legal actions: src/sts2_training/selection.
pub mod Actions
pub mod Events
pub mod Choices
mod Tests
