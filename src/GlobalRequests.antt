-- ===== src/GlobalRequests.antt =====
-- server.go: `handleRequests` of the server, the loop over the global requests of a connection.
pub mod Handlers
pub mod Rejections
pub mod Loop
pub mod Answered
pub mod Rejected
pub mod Ended
pub mod Turns
mod Examples
