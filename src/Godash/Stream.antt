-- ===== src/Godash/Stream.antt =====
-- The recursion of `streamLoop` in godash/player/player.go, for one mime type and without hls: which
-- segments are downloaded, and when the stream ends. A round plays its segment as Player does. The
-- download times and the random numbers are functions of the segment number.
pub mod End
pub mod Single
use rlnc_streaming.Base.{ℕ, zero, suc, ◌+◌, ◌*◌, List, Bool, true, false, ◌==◌, ltb, if◌then◌else◌}
use rlnc_streaming.Run.{Run, ok, ◌>>=◌, load}
use rlnc_streaming.Godash.Player.{Settings, Playback, play_segment, fresh}
use rlnc_streaming.Godash.Mpd.Playable.{get_next_segment_duration}

-- `segmentNumber`, `oldMPDIndex`, `mpdListIndex` and `segmentDuration`, with the player.
pub record Streaming : Type 0 where
  pub segment_number : ℕ
  pub old_mpd_index : ℕ
  pub mpd_list_index : ℕ
  pub segment_duration : ℕ
  pub playback : Playback

-- What `Stream` starts with; `segmentDuration` is that of the first MPD file.
abbrev pub started : ℕ → Streaming
started duration = record {
  segment_number = 1;
  old_mpd_index = 0;
  mpd_list_index = 0;
  segment_duration = duration;
  playback = fresh;
}

-- The change to the MPD file that was chosen.
unfoldable pub switch_mpd : List ℕ → Streaming → Run Streaming
switch_mpd durations s = if s.old_mpd_index == s.mpd_list_index then ok s else (do
  d ← load durations s.old_mpd_index
  ok (record s { mpd_list_index = s.old_mpd_index; segment_duration = d }))

-- The next segment does not fit into the stream.
abbrev pub is_over : ℕ → Streaming → Bool
is_over stream s = ltb stream (s.playback.total + s.segment_duration * 1000)

-- The download of a segment.
unfoldable pub after_segment : Settings → (ℕ → ℕ) → Streaming → Streaming
after_segment c run_time s = record s {
  segment_number = s.segment_number + 1;
  playback = play_segment c s.segment_duration (run_time s.segment_number) s.playback;
}

-- The choice of the MPD file of the next segment, and whether to stop. This call stands behind the loop
-- whose own `segmentDurationTotal` is the running total: it takes the variable of the package, which is
-- always 0.
unfoldable pub go_on : (ℕ → ℕ) → List ℕ → ℕ → Streaming → Run (Streaming × Bool)
go_on random durations stream s = do
  next ←
      get_next_segment_duration (random s.segment_number) durations (s.segment_duration * 1000) 0
        stream
  ok (record s { old_mpd_index = next.mpd_index }, next.stop)

module _ (c : Settings) (run_time random : ℕ → ℕ) (durations : List ℕ) (stream : ℕ) where
  -- One call of streamLoop up to the next, and whether it was the last.
  unfoldable pub stream_round : Streaming → Run (Streaming × Bool)
  unfolding switch_mpd after_segment go_on
  stream_round s0 = do
    s ← switch_mpd durations s0
    (if is_over stream s
        then ok (s, true)
        else if is_over stream (after_segment c run_time s)
        then ok (after_segment c run_time s, true)
        else go_on random durations stream (after_segment c run_time s))

  -- The calls; `false` means that the fuel ran out.
  unfoldable pub stream_loop : ℕ → Streaming → Run (Streaming × Bool)
  unfolding stream_round
  stream_loop zero s = ok (s, false)
  stream_loop (suc fuel) s = do
    (s', last) ← stream_round s
    let rest = stream_loop fuel s'
    if last then ok (s', true) else rest
