-- ===== src/Am.antt =====
-- The application management server, servers/am: its file descriptors and its table of applications.
pub mod Pipe
pub mod Fat
pub mod Apps
pub mod Server
mod Tests
