-- ===== src/Ebpf.antt =====
-- whyslow-ebpf/src: the eBPF programs that record the events.
pub mod Raw
pub mod Kernel
pub mod Probes
pub mod FutexOp
pub mod History
pub mod Invariant
pub mod Switch
pub mod Futex
pub mod BlockIo
pub mod Sound
pub mod Footprint
pub mod BlockEntry
pub mod Span
pub mod FutexSpan
pub mod IoSpan
pub mod Concrete
pub mod Reference
pub mod Exact
pub mod Room
pub mod Ranges
pub mod Append
pub mod Ends
pub mod Refines
mod Tests
