-- ===== src/Cli.antt =====
-- The command line: cmd/snmp-discovery/main.go, metrics.go, init.go and walk.go. Flags are taken after
-- their parsing; the questions on the terminal, signals and the log are input and output.
pub mod Metrics
pub mod Commands
pub mod Loop
