-- ===== src/Sessions/Server.antt =====
-- The server side of a connection (src/sessions/server).
pub mod Types
pub mod Send
pub mod Commands
pub mod Requests
pub mod Decisions
pub mod Events
pub mod Receive
pub mod Output
pub mod Good
pub mod Safe
pub mod Published
pub mod Ids
pub mod Answered
pub mod Deleted
pub mod Created
