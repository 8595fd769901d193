-- ===== src/Msg.antt =====
-- ii/msg.go: messages. Tags, the validators, the encoder and the two decoders are in child modules.
pub mod Tags
pub mod Valid
pub mod Encode
pub mod Decode
pub mod Line
pub mod RoundTrip
pub mod Tests
