-- ===== src/Daemon.antt =====
-- 15_daemon: the daemon that tells the size of a file.
pub mod Config
pub mod PidFile
pub mod Server
pub mod Main
mod Tests
