-- ===== src/Tests/Manifest.antt =====
-- The functions of godash/http on a small MPD file, and the streams that they lead to.
use rlnc_streaming.Base.{ℕ, ◌≡◌, refl, arith, [], ◌∷◌, ◌++◌, true, false}
use rlnc_streaming.Run.{divide, ok, err, app_stopped, load, Returns}
use rlnc_streaming.Godash.Int.{pos}
use rlnc_streaming.Godash.Text.{codes, itoa, atoi, scan, contains, starts_with, replace_all, split}
use rlnc_streaming.Godash.Mpd.{
  SegmentTemplate, SegmentList, Representation, AdaptationSet, Period, Mpd,
}
use rlnc_streaming.Godash.Mpd.Duration.{
  split_mpd_segment_duration, duration_text, split_mpd_segment_duration_lem,
  split_mpd_segment_duration_stops,
}
use rlnc_streaming.Godash.Mpd.Playable.{get_next_segment_duration}
use rlnc_streaming.Godash.Mpd.Playable.Choice.{IsNext, get_next_segment_duration-IsNext}
use rlnc_streaming.Godash.Mpd.Values.{
  get_mpd_values, checked_rates, max_stream_duration_of, get_segment_details,
}
use rlnc_streaming.Godash.Mpd.Values.Settled.{IsSettled, get_mpd_values-IsSettled}
use rlnc_streaming.Godash.Mpd.Codec.{codec_name, same_text, mime_types}
use rlnc_streaming.Godash.Mpd.Codec.Chosen.{IsSelection, mime_types-IsSelection}
use rlnc_streaming.Godash.Mpd.Addresses.{get_next_segment, media_of}
use rlnc_streaming.Godash.Mpd.Addresses.Printed.{get_next_segment-injective}
use rlnc_streaming.Godash.Stream.{started, stream_loop}
use rlnc_streaming.Godash.Stream.Single.{IsComplete, stream_loop_whole}
use rlnc_streaming.Tests.Adaptation.{settings}

abbrev template : SegmentTemplate
template = record {
  media = codes "v$Number$.m4s";
  timescale = 1;
  duration = 4;
  initialization = codes "init.mp4";
}

abbrev no_list : SegmentList
no_list = record { timescale = 0; duration = 0; media_ranges = []; source_url = [] }

abbrev rate : ℕ → ℕ → Representation
rate height band_width = record {
  mime_type = codes "video/mp4";
  codecs = codes "avc1.64001f";
  width = 640;
  height = height;
  frame_rate = 24;
  band_width = band_width;
  base_url = [];
  segment_template = template;
  segment_list = no_list;
}

abbrev videos : AdaptationSet
videos = record {
  base_url = [];
  representation = rate 1080 900 ∷ rate 720 500 ∷ rate 360 100 ∷ [];
  segment_template = template ∷ [];
  segment_list = no_list;
}

abbrev sounds : AdaptationSet
sounds = record {
  base_url = [];
  representation = record (rate 0 64) { codecs = codes "mp4a.40.2" } ∷ [];
  segment_template = template ∷ [];
  segment_list = no_list;
}

abbrev pub manifest : Mpd
manifest = record {
  media_presentation_duration = codes "PT0H1M4.000S";
  max_segment_duration = codes "PT0H0M4.000S";
  profiles = codes "urn:mpeg:dash:profile:isoff-live:2011";
  periods = record { adaptation_set = videos ∷ sounds ∷ [] } ∷ [];
}

split_mpd_segment_duration_lem_example :
    split_mpd_segment_duration (duration_text 1 30 5 (codes "25")) ≡ ok (pos 1805)
split_mpd_segment_duration_lem_example =
    split_mpd_segment_duration_lem 1 30 5 (codes "25") (omega arith) (refl, (refl, tt))

split_mpd_segment_duration_stops_example :
    split_mpd_segment_duration (codes "PT" ++ codes "4.5S") ≡ err app_stopped
split_mpd_segment_duration_stops_example =
    split_mpd_segment_duration_stops (codes "4.5S") (omega arith)

get_next_segment_duration-IsNext_example :
    Returns
      (IsNext 4000 8000 20000 (3 ∷ 4 ∷ []))
      (get_next_segment_duration 7 (3 ∷ 4 ∷ []) 4000 8000 20000)
get_next_segment_duration-IsNext_example =
    get_next_segment_duration-IsNext 4000 8000 20000 7 (3 ∷ 4 ∷ []) (omega arith)

get_mpd_values-IsSettled_example :
    (mpd : Mpd) × (load (manifest ∷ []) 0 ≡ ok mpd)
    × IsSettled mpd 720 0 (pos 1) (pos 2) (900 ∷ 500 ∷ 100 ∷ [])
unfolding get_mpd_values max_stream_duration_of get_segment_details checked_rates load
    split_mpd_segment_duration replace_all contains starts_with split atoi scan divide
get_mpd_values-IsSettled_example =
    get_mpd_values-IsSettled (manifest ∷ []) 0 720 0 30 0 false
      (record {
        max_stream_duration = pos 64;
        max_buffer_level = 30;
        highest_index = pos 1;
        lowest_index = pos 2;
        segment_durations = 4 ∷ [];
        bandwidths = 900 ∷ 500 ∷ 100 ∷ [];
        base_url = [];
      })
      refl

mime_types-IsSelection_example :
    (mpd : Mpd) × (period : Period) × (load (manifest ∷ []) 0 ≡ ok mpd)
    × (load mpd.periods 0 ≡ ok period)
    × IsSelection (codes "h264") 0 period.adaptation_set (0 ∷ 1 ∷ [])
unfolding mime_types codec_name same_text load contains starts_with
mime_types-IsSelection_example =
    mime_types-IsSelection (manifest ∷ []) (codes "h264") (0 ∷ 1 ∷ []) refl

get_next_segment-injective_example :
    (get_next_segment manifest 12 1 0 ≡ ok (codes "v" ++ (itoa 12 ++ codes ".m4s")))
    × (get_next_segment manifest 12 1 0 ≡ get_next_segment manifest 13 1 0 → ◌≡◌ {A = ℕ} 12 13)
unfolding load media_of same_text
get_next_segment-injective_example =
    get_next_segment-injective manifest 1 0 videos (rate 720 500) (codes "v") (codes ".m4s") refl
      refl refl (omega arith) (omega arith) 12 13 (omega arith) (omega arith)

stream_loop_whole_example :
    Returns
      (λ (s, last). (last ≡ true) × IsComplete settings (λ n. 500) (λ n. n) 4 10000 (omega arith) s)
      (stream_loop settings (λ n. 500) (λ n. n) (4 ∷ []) 10000 11 (started 4))
stream_loop_whole_example =
    stream_loop_whole settings (λ n. 500) (λ n. n) 4 10000 (omega arith) 11 (omega arith)
