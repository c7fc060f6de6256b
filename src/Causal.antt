-- ===== src/Causal.antt =====
-- whyslow-cli/src/causal.rs: the inference of causal chains.
pub mod Nearest
pub mod Window
pub mod Classify
pub mod Cause
pub mod Env
pub mod Device
pub mod Format
pub mod Walk
pub mod Ranking
pub mod Shape
pub mod Story
pub mod Explain
pub mod Report
pub mod Unique
mod Tests
