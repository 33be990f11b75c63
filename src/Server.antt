-- ===== src/Server.antt =====
-- main.go, config/config.go and tools/shutdown.go: the start and the end of the server process.
pub mod ConfigPath
pub mod Lifetime
pub mod Samples
