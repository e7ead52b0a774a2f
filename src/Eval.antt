-- ===== src/Eval.antt =====
-- Package eval: evaluation of agents against recorded conversations.
pub mod Types
pub mod Scoring
pub mod Trajectory
pub mod EvalSets
pub mod OldFormat
pub mod LocalSets
pub mod Rouge
pub mod Pairing
