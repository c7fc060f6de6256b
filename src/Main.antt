-- ===== src/Main.antt =====
-- whyslow-cli/src/main.rs: `run`, `attach` and `explain_cmd`, as the effects that they have, in
-- order, and their result.
pub mod Effects
pub mod Commands
pub mod Order
pub mod Printing
pub mod Polling
pub mod Outcome
pub mod Whole
pub mod Live
pub mod Stopping
pub mod Attach
pub mod Watching
pub mod Reporting
pub mod Reports
pub mod Reread
pub mod Exit
pub mod Cli
pub mod Sample
mod Tests
