-- ===== src/Management.antt =====
-- The management surface over HTTP: src/management.rs.
pub mod Errors
pub mod Requests
pub mod Numbers
pub mod Returns
pub mod Headers
pub mod Route
pub mod MediaType
pub mod Parse
pub mod Response
mod Tests
