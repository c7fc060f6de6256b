-- ===== src/Synthetic.antt =====
-- synthetic/src/main.rs: the reproducer of a known causal chain, and its futex mutex.
pub mod Mutex
pub mod Exclusion
pub mod Wakeup
pub mod Read
pub mod Program
pub mod Sound
pub mod Moves
pub mod Order
pub mod Progress
pub mod Reads
pub mod Ids
pub mod Done
mod Tests
