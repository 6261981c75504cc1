-- ===== src/Connection.antt =====
-- lightway-core/src/connection.rs and lightway-core/src/connection/: parts of a connection.
pub mod Types
pub mod Errors
pub mod Inside
pub mod Fatal
pub mod KeyUpdate
pub mod Encoding
pub mod Negotiation
pub mod Lane
pub mod Configs
pub mod Degraded
pub mod Health
pub mod Strikes
pub mod Staging
pub mod Handshake
pub mod Fragmenting
mod Runs
