-- ===== src/Handler.antt =====
-- src/handler.rs: what the server does with a DNS request.
pub mod Errors
pub mod Query
pub mod Server
pub mod Toy
mod Tests
