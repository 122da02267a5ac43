-- ===== src/Server.antt =====
-- The server of src/server.rs.
pub mod Tokens
pub mod Clock
pub mod Connection
pub mod Tests
pub mod Console
mod ConsoleTests
