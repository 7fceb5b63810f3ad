-- ===== src/Godash/Stream/End.antt =====
-- The end of streamLoop of godash/player/player.go.
use rlnc_streaming.Base.{ℕ, ◌+◌, ◌≤◌, ◌<◌, ◌≡◌, List, Bool, false, length}
use rlnc_streaming.Godash.Text.Cuts.{All}
use rlnc_streaming.Godash.Player.{Settings}
use rlnc_streaming.Godash.Stream.{Streaming}

module _ (c : Settings) (run_time random : ℕ → ℕ) (durations : List ℕ) (stream : ℕ)
    (positive : All (λ d. 0 < d) durations) where
  -- What holds between the calls.
  pub record IsStreaming (s : Streaming) : Type 0 where
    pub chosen : s.old_mpd_index < length durations
    pub duration : 0 < s.segment_duration
    pub within : s.playback.total ≤ stream

  -- The calls are over and the stream did not outrun its duration, or a second or more was downloaded.
  Progresses : Streaming → Streaming × Bool → Type 0
  Progresses s (s', last) =
      (s'.playback.total ≤ stream)
      × (last ≡ false → IsStreaming s' × (s.playback.total + 1000 ≤ s'.playback.total))
