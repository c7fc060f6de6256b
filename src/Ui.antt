-- ===== src/Ui.antt =====
-- whyslow-cli/src/ui.rs: ANSI colours and the banner. Whether colours are emitted is fixed when the
-- first line is painted, from the environment and the kind of the standard output.
pub mod Paint
mod Tests
