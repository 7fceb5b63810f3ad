-- ===== src/Xnc.antt =====
-- xnc: a file sent over a stream in coded or plain packets.
pub mod Sizes
pub mod Packet
pub mod Split
pub mod Server
pub mod Client
pub mod Transfer
