-- ===== src/Event.antt =====
-- whyslow-common/src/lib.rs: the event schema that the eBPF programs and the command line share.
pub mod Schema
pub mod BlockKey
mod Tests
