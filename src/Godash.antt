-- ===== src/Godash.antt =====
-- godash: the player that asks for the segments of a video.
pub mod Csv
pub mod Int
pub mod Text
pub mod Rates
pub mod Calc
pub mod Logistic
pub mod Bba
pub mod Arbiter
pub mod Player
pub mod Mpd
pub mod Stream
pub mod PlayOut
pub mod Hls
pub mod Qoe
pub mod Double
pub mod Averages
