-- ===== src/Sos.antt =====
-- sos-rs/src/lib.rs: the SOS wire format, in which functions get their arguments and return their
-- results.
pub mod Bytes
pub mod Utf8
pub mod Value
pub mod Encode
pub mod Decode
pub mod Trip
pub mod Owned
pub mod Convert
pub mod Encoded
mod Tests
