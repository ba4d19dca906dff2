-- ===== src/Shell.antt =====
-- The shell lab, shell/lab.
pub mod Jobs
pub mod Atoi
pub mod Parse
pub mod Signals
pub mod Commands
mod Tests
