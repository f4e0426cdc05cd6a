-- ===== src/Core.antt =====
-- The crate crates/oxibus-core: types, wire format, headers, messages.
pub mod Error
pub mod Types
pub mod Signature
pub mod Utf8
pub mod Bytes
pub mod Marshal
pub mod Unmarshal
pub mod Header
pub mod Names
pub mod Addr
pub mod Message
pub mod Wire
