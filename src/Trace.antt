-- ===== src/Trace.antt =====
-- whyslow-cli/src/trace.rs: the trace file, its events, and wall-clock time.
pub mod Defs
pub mod Wall
pub mod Comm
pub mod Disk
pub mod Concrete
mod Tests
