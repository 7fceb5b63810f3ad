-- ===== src/Godash/Mpd/Values.antt =====
-- GetMPDValues of godash/http/mpdParsing.go, and the functions that it calls.
pub mod Height
pub mod Settled
use rlnc_streaming.Base.{
  ℕ, zero, suc, ◌+◌, ◌*◌, List, [], ◌∷◌, map, Bool, true, false, ◌&&◌, ◌==◌, ltb, leb, length,
  if◌then◌else◌,
}
use rlnc_streaming.Run.{Run, ok, err, panic, app_stopped, ◌>>=◌, load, divide}
use rlnc_streaming.Godash.Int.{ℤ, pos, negsuc, difference, ◌+ℤ◌, times, quotient, before}
use rlnc_streaming.Godash.Text.{Bytes}
use rlnc_streaming.Godash.Mpd.{
  SegmentTemplate, SegmentList, Representation, AdaptationSet, Mpd, adaptation_set_of,
  representation_of,
}
use rlnc_streaming.Godash.Mpd.Duration.{split_mpd_segment_duration}

-- A representation that fits and has a higher bitrate than those before.
abbrev pub is_better : ℕ → ℕ → Representation → Bool
is_better max_height bitrate r = leb r.height max_height && ltb bitrate r.band_width

-- The loop of GetMPDheightIndex over the representations from `j` on.
unfoldable pub height_loop : ℕ → ℕ → ℕ → ℕ → List Representation → ℕ
height_loop max_height j bitrate index [] = index
height_loop max_height j bitrate index (r ∷ rs) =
    let better = is_better max_height bitrate r in
    height_loop max_height (suc j) (if better then r.band_width else bitrate)
      (if better then j + 1 else index) rs

-- GetMPDheightIndex
unfoldable pub get_mpd_height_index : Mpd → ℕ → ℕ → Run ℤ
unfolding height_loop
get_mpd_height_index mpd max_height set_index = do
  set ← adaptation_set_of mpd set_index
  ok (difference (height_loop max_height 0 0 0 set.representation) 1)

-- GetMaxListIndex
unfoldable pub get_max_list_index : Mpd → ℕ → Run ℤ
get_max_list_index mpd set_index = do
  set ← adaptation_set_of mpd set_index
  ok (difference (length set.representation) 1)

-- GetRepresentationBandwidth
unfoldable pub get_representation_bandwidth : Mpd → ℕ → Run (List ℕ)
get_representation_bandwidth mpd set_index = do
  set ← adaptation_set_of mpd set_index
  ok (map (λ r. r.band_width) set.representation)

-- The durations of the loop of GetByteRangeSegmentDetails.
unfoldable pub byte_range_durations : List Mpd → ℕ → Run (List ℕ)
byte_range_durations [] set_index = ok []
byte_range_durations (mpd ∷ mpds) set_index = do
  r ← representation_of mpd set_index 0
  d ← divide r.segment_list.duration r.segment_list.timescale
  ds ← byte_range_durations mpds set_index
  ok (d ∷ ds)

-- `x / d`, a panic if d is 0
abbrev pub divide_int : ℤ → ℕ → Run ℤ
divide_int x d = if d == 0 then panic else ok (quotient x d)

-- GetByteRangeSegmentDetails
unfoldable pub get_byte_range_segment_details : List Mpd → ℕ → ℕ → Run (ℤ × List ℕ)
unfolding byte_range_durations
get_byte_range_segment_details mpds mpd_index set_index = do
  mpd ← load mpds mpd_index
  stream ← split_mpd_segment_duration mpd.media_presentation_duration
  durations ← byte_range_durations mpds set_index
  d ← load durations mpd_index
  n ← divide_int stream d
  ok (n, durations)

-- A value of the template of the representation, or if that is 0 of the first of its adaptation set.
abbrev pub template_or : AdaptationSet → (SegmentTemplate → ℕ) → ℕ → Run ℕ
template_or set field n =
    if n == 0 then (do template ← load set.segment_template 0; ok (field template)) else ok n

-- The duration of the segments of one MPD file in GetSegmentDetails.
unfoldable pub template_duration : AdaptationSet → Run ℕ
template_duration set = do
  r ← load set.representation 0
  duration ← template_or set (λ t. t.duration) r.segment_template.duration
  timescale ← template_or set (λ t. t.timescale) r.segment_template.timescale
  divide duration (if timescale == 0 then 1 else timescale)

unfoldable pub template_durations : List Mpd → ℕ → Run (List ℕ)
unfolding template_duration
template_durations [] set_index = ok []
template_durations (mpd ∷ mpds) set_index = do
  set ← adaptation_set_of mpd set_index
  d ← template_duration set
  ds ← template_durations mpds set_index
  ok (d ∷ ds)

-- GetSegmentDetails for the adaptation set that it is given, 0 by default.
unfoldable pub get_segment_details : List Mpd → ℕ → ℕ → Run (ℤ × List ℕ)
unfolding template_durations
get_segment_details mpds mpd_index set_index = do
  mpd ← load mpds mpd_index
  stream ← split_mpd_segment_duration mpd.media_presentation_duration
  durations ← template_durations mpds set_index
  d ← load durations mpd_index
  n ← divide_int stream d
  ok (n, durations)

-- `xs[i]`, a panic if i is negative
abbrev pub load_int : List ℕ → ℤ → Run ℕ
load_int xs (pos i) = load xs i
load_int xs (negsuc i) = panic

-- What GetMPDValues returns.
pub record Values : Type 0 where
  pub max_stream_duration : ℤ
  pub max_buffer_level : ℕ
  pub highest_index : ℤ
  pub lowest_index : ℤ
  pub segment_durations : List ℕ
  pub bandwidths : List ℕ
  pub base_url : Bytes

-- The duration of the stream, from the MPD file if none is asked for.
unfoldable pub max_stream_duration_of : Mpd → ℕ → ℕ → ℤ → List ℕ → Run ℤ
max_stream_duration_of mpd mpd_index stream_duration max_segments durations =
    if stream_duration == 0
    then (do
      last ← split_mpd_segment_duration mpd.max_segment_duration
      d ← load durations mpd_index
      ok (times d (before max_segments) +ℤ last))
    else ok (pos stream_duration)

-- The indexes and the bandwidths, where the first index must not have the lower bandwidth.
unfoldable pub checked_rates : Mpd → ℕ → ℕ → Run (ℤ × ℤ × List ℕ)
unfolding get_mpd_height_index get_max_list_index get_representation_bandwidth
checked_rates mpd max_height set_index = do
  highest ← get_mpd_height_index mpd max_height set_index
  lowest ← get_max_list_index mpd set_index
  bandwidths ← get_representation_bandwidth mpd set_index
  most ← load_int bandwidths highest
  least ← load_int bandwidths lowest
  (if ltb most least then err app_stopped else ok (highest, lowest, bandwidths))

-- GetMPDValues
unfoldable pub get_mpd_values : List Mpd → ℕ → ℕ → ℕ → ℕ → ℕ → Bool → Run Values
get_mpd_values mpds mpd_index max_height stream_duration max_buffer set_index is_byte_range = do
  mpd ← load mpds mpd_index
  set ← adaptation_set_of mpd set_index
  (max_segments, durations) ←
      (if is_byte_range
        then get_byte_range_segment_details mpds mpd_index set_index
        else get_segment_details mpds mpd_index 0)
  max_stream ← max_stream_duration_of mpd mpd_index stream_duration max_segments durations
  (highest, lowest, bandwidths) ← checked_rates mpd max_height set_index
  ok (record {
    max_stream_duration = max_stream;
    max_buffer_level = max_buffer;
    highest_index = highest;
    lowest_index = lowest;
    segment_durations = durations;
    bandwidths = bandwidths;
    base_url = set.base_url;
  })
