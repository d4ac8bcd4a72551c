-- ===== src/Conversation.antt =====
-- The client's src/client_utils.cpp and the server's src/server_utils.cpp together: what is typed at
-- the one, handled by the other, and read back.
pub mod Typing
pub mod Served
pub mod Login
pub mod Whispers
pub mod Forwarded
pub mod Whisper
pub mod Reading
pub mod Shout
pub mod Shouts
pub mod Chat
