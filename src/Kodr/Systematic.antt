-- ===== src/Kodr/Systematic.antt =====
-- kodr/systematic: the codec that sends the original pieces first.
pub mod Encoder
pub mod Decoder
