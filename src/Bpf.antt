-- ===== src/Bpf.antt =====
-- whyslow-cli/src/bpf.rs: loading the programs, setting the target and draining the ring buffer.
pub mod Target
pub mod Session
pub mod Complete
pub mod Live
pub mod Rounds
pub mod Layout
pub mod Drain
pub mod Load
mod Tests
