-- ===== src/Client.antt =====
-- internal/client/client.go: the command line client.
pub mod Arguments
pub mod Aliases
pub mod Display
