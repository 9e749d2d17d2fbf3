-- ===== src/Cli.antt =====
-- The command line of the server (src/cli): how a line becomes a command with parameters, and how a
-- command reads these.
pub mod Command
pub mod CommandHandler
