-- ===== src/Cli.antt =====
-- The command line and the commands: src/cli.
pub mod Parser
pub mod Main
pub mod Blacklist
pub mod Stats
pub mod Detach
pub mod Demo
pub mod Top
pub mod Start
pub mod Run
