-- ===== src/Protocol.antt =====
-- protocol.hpp and protocol.cpp.
pub mod Types
pub mod Bytes
pub mod Tlv
pub mod Message
pub mod Request
pub mod Credentials
pub mod Accounts
pub mod World
pub mod P2p
pub mod Transport
pub mod Codes
pub mod Buffers
