-- ===== src/Frontend.antt =====
-- src/frontend.rs: the handling of client connections.
pub mod Dispatch
pub mod RespClient
pub mod Backlog
pub mod Writer
pub mod Detect
pub mod Socket
pub mod Connection
