-- ===== src/Wire.antt =====
-- lightway-core/src/wire.rs and the frames below it.
pub mod BigEndian
pub mod Buffer
pub mod Reads
pub mod Safety
pub mod Steps
pub mod Codec
pub mod Flag
pub mod Ping
pub mod Pong
pub mod Data
pub mod ServerConfig
pub mod AuthFailure
pub mod EncodingRequest
pub mod EncodingResponse
pub mod DataFrag
pub mod ExpresslaneConfig
pub mod Utf8
pub mod AuthSuccess
pub mod AuthRequest
pub mod Frame
pub mod Header
pub mod Bytes
mod Runs
