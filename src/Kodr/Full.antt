-- ===== src/Kodr/Full.antt =====
-- kodr/full: the encoder, the decoder and the recoder of full random linear network coding.
pub mod Encoder
pub mod Decoder
pub mod Session
pub mod Complete
pub mod Recoder
pub mod Spanning
