-- ===== src/CommandLine.antt =====
-- The command line (src/cli.ts), from the parsed arguments to what is printed and sent.
pub mod Arguments
pub mod Certificates
pub mod Commands
pub mod Handlers
pub mod Signing
pub mod Targets
pub mod Unreadable
pub mod Registered
