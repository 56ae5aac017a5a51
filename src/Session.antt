-- ===== src/Session.antt =====
-- session.go: a session, from its channel's requests to its handler.
pub mod Signals
pub mod State
pub mod CallbackError
pub mod Deferred
pub mod Requests
pub mod Settings
pub mod Loop
pub mod Replies
pub mod Waiting
pub mod Fair
pub mod Limits
pub mod Frozen
pub mod Lost
pub mod Finish
pub mod Write
pub mod Exit
mod Examples
