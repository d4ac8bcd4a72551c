-- ===== src/Server.antt =====
-- src/server_utils.cpp and src/server.cpp.
pub mod Table
pub mod Broadcast
pub mod Session
pub mod Loop
pub mod Console
pub mod Logins
pub mod Startup
pub mod Interest
