-- ===== src/Expresslane.antt =====
-- lightway-expresslane/src/: the packet session of the fast data path.
pub mod Aead
pub mod Session
pub mod Packets
pub mod Histories
pub mod Keys
pub mod Receive
pub mod Replays
pub mod Layout
pub mod Delivery
pub mod RoundTrip
pub mod Writes
pub mod Twins
pub mod DecryptInto
pub mod Cipher
mod Runs
