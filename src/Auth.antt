-- ===== src/Auth.antt =====
-- crates/oxibus-auth: the SASL handshake that precedes the messages of a connection.
pub mod Mechanism
pub mod Lines
pub mod Server
pub mod Client
