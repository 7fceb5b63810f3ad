-- ===== src/Godash/Mpd.antt =====
-- godash/http/mpdParsing.go: what the player reads of a parsed MPD file. Its numbers are not negative.
pub mod Duration
pub mod Codec
pub mod Addresses
pub mod Values
pub mod Playable
pub mod Headers
use rlnc_streaming.Base.{ℕ, List}
use rlnc_streaming.Run.{Run, load, ◌>>=◌}
use rlnc_streaming.Godash.Text.{Bytes}

pub record SegmentTemplate : Type 0 where
  pub media : Bytes
  pub timescale : ℕ
  pub duration : ℕ
  pub initialization : Bytes

-- With `MediaRange` of each `SegmentURL`, and `SourceURL` of `SegmentInitization`.
pub record SegmentList : Type 0 where
  pub timescale : ℕ
  pub duration : ℕ
  pub media_ranges : List Bytes
  pub source_url : Bytes

pub record Representation : Type 0 where
  pub mime_type : Bytes
  pub codecs : Bytes
  pub width : ℕ
  pub height : ℕ
  pub frame_rate : ℕ
  pub band_width : ℕ
  pub base_url : Bytes
  pub segment_template : SegmentTemplate
  pub segment_list : SegmentList

pub record AdaptationSet : Type 0 where
  pub base_url : Bytes
  pub representation : List Representation
  pub segment_template : List SegmentTemplate
  pub segment_list : SegmentList

pub record Period : Type 0 where
  pub adaptation_set : List AdaptationSet

pub record Mpd : Type 0 where
  pub media_presentation_duration : Bytes
  pub max_segment_duration : Bytes
  pub profiles : Bytes
  pub periods : List Period

-- `mpd.Periods[0].AdaptationSet[k]`
abbrev pub adaptation_set_of : Mpd → ℕ → Run AdaptationSet
adaptation_set_of mpd k = do period ← load mpd.periods 0; load period.adaptation_set k

-- `mpd.Periods[0].AdaptationSet[k].Representation[i]`
abbrev pub representation_of : Mpd → ℕ → ℕ → Run Representation
representation_of mpd k i = do set ← adaptation_set_of mpd k; load set.representation i
