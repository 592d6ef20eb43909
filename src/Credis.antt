-- ===== src/Credis.antt =====
-- utils/resparse/credis: the RESP decoder and encoder of the proxy's client connections.
pub mod Strconv
pub mod Number
pub mod Itoa
pub mod Resp
pub mod Source
pub mod Decoder
pub mod Encoder
pub mod Encoding
pub mod Lines
pub mod RoundTrip
pub mod Requests
pub mod Failures
