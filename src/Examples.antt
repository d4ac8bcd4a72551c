-- ===== src/Examples.antt =====
-- The theorems at concrete inputs: two clients, alice and bob, and what they send.
pub mod Wire
pub mod Payloads
pub mod Clients
mod Broadcasts
mod Requests
mod Serving
mod Sockets
mod Responses
pub mod Conversations
pub mod Shells
pub mod Whispers
mod Starts
mod Outputs
mod Shouts
mod Texts
mod Replies
