-- ===== src/Godash/Stream/Single.antt =====
-- streamLoop of godash/player/player.go with one MPD file, the only number that ReadURLArray allows.
use native.Mathlib.Nat.{mod_self}
use rlnc_streaming.Base.{
  ℕ, zero, suc, ◌+◌, ◌*◌, ◌≤◌, ◌<◌, ◌≡◌, refl, ap, [], ◌∷◌, Bool, true, false, inl, arith,
  if◌then◌else◌, ==_eq, sym, ◌∙◌, inr, ◌⊎◌,
}
use rlnc_streaming.Run.{ok, Returns, returns, Returns-if, Returns-bind}
use rlnc_streaming.Godash.Player.{Settings, play_segment}
use rlnc_streaming.Godash.Mpd.Playable.{Next}
use rlnc_streaming.Godash.Mpd.Playable.Choice.{
  IsNext, stops, goes_on, get_next_segment_duration-IsNext,
}
use rlnc_streaming.Godash.Stream.{
  Streaming, started, switch_mpd, is_over, after_segment, go_on, stream_round, stream_loop,
}

module _ (c : Settings) (run_time random : ℕ → ℕ) (d stream : ℕ) (positive : 0 < d) where
  -- The first `s.segment_number - 1` segments are downloaded.
  pub record IsInOrder (s : Streaming) : Type 0 where
    pub old_index : s.old_mpd_index ≡ 0
    pub index : s.mpd_list_index ≡ 0
    pub duration : s.segment_duration ≡ d
    pub total : s.playback.total + d * 1000 ≡ s.segment_number * (d * 1000)
    pub within : s.playback.total ≤ stream

  -- The segments downloaded are as many as fit into the stream.
  abbrev pub IsComplete : Streaming → Type 0
  IsComplete s =
      (s.playback.total + d * 1000 ≡ s.segment_number * (d * 1000))
      × (s.playback.total ≤ stream)
      × (stream < s.playback.total + d * 1000)

  Advances : Streaming → Streaming × Bool → Type 0
  Advances s (s', last) =
      ((last ≡ true) × IsComplete s')
      ⊎ ((last ≡ false) × IsInOrder s' × (s.playback.total + 1000 ≤ s'.playback.total))

  next_chosen :
      (next : Next)
      → IsNext (d * 1000) 0 stream (d ∷ []) next
      → d * 1000 ≤ stream
      → (next.stop ≡ false) × (next.mpd_index ≡ 0)
  next_chosen next (stops e none_usable) room =
      absurd (none_usable 0 (omega arith) (inl (mod_self (d * 1000)), omega (arith, room)))
  next_chosen next (goes_on e inside usable number) room = (e, omega arith)

  go_on-Advances :
      (s s' : Streaming)
      → IsInOrder s'
      → s.playback.total + 1000 ≤ s'.playback.total
      → s'.playback.total + d * 1000 ≤ stream
      → Returns (Advances s) (go_on random (d ∷ []) stream s')
  unfolding go_on Advances
  go_on-Advances s s' h more room =
      Returns-bind
        (get_next_segment_duration-IsNext (s'.segment_duration * 1000) 0 stream
          (random s'.segment_number) (d ∷ []) (positive, tt))
        λ next found.
          let (going, first) = next_chosen next (rw h.duration at found) (omega (arith, room)) in
          returns (
            inr (
              going,
              record {
                old_index = first;
                index = h.index;
                duration = h.duration;
                total = h.total;
                within = h.within;
              },
              more,
            ))

  one_more :
      (total total' n : ℕ)
      → total' ≡ total + d * 1000
      → total + d * 1000 ≡ n * (d * 1000)
      → total' + d * 1000 ≡ (n + 1) * (d * 1000)
  one_more total total' n e h = grind arith

  stream_round-Advances :
      (s : Streaming)
      → IsInOrder s
      → Returns (Advances s) (stream_round c run_time random (d ∷ []) stream s)
  unfolding stream_round switch_mpd after_segment play_segment Advances
  stream_round-Advances s h =
      let next = after_segment c run_time s in
      rw (==_eq s.old_mpd_index s.mpd_list_index (h.old_index ∙ sym h.index)) (
        Returns-if (is_over stream s)
          (λ e. returns (inl (refl, (h.total, h.within, ground (arith, e, h.duration)))))
          (λ fits.
            let room : s.playback.total + d * 1000 ≤ stream = ground (arith, fits, h.duration) in
            let total : next.playback.total ≡ s.playback.total + d * 1000 =
              ap (λ t. s.playback.total + t * 1000) h.duration in
            let counted : next.playback.total + d * 1000 ≡ next.segment_number * (d * 1000) =
              one_more s.playback.total next.playback.total s.segment_number total h.total in
            Returns-if (is_over stream next)
              (λ e.
                returns (
                  inl (refl, (counted, omega (arith, total, room), ground (arith, e, h.duration)))))
              (λ e.
                go_on-Advances s next
                  (record {
                    old_index = h.old_index;
                    index = h.index;
                    duration = h.duration;
                    total = counted;
                    within = omega (arith, total, room);
                  })
                  (omega (arith, total, positive)) (ground (arith, e, h.duration)))))

  stream_loop-IsComplete :
      (fuel : ℕ) (s : Streaming)
      → IsInOrder s
      → stream < s.playback.total + 1000 * fuel
      → Returns
          (λ (s', last). (last ≡ true) × IsComplete s')
          (stream_loop c run_time random (d ∷ []) stream fuel s)
  unfolding stream_loop Advances
  stream_loop-IsComplete zero s h enough = absurd (omega (arith, h.within))
  stream_loop-IsComplete (suc fuel) s h enough =
      Returns-bind (stream_round-Advances s h)
        λ (s', last) either. continued s' last either (stream_loop-IsComplete fuel s')
    where
      continued :
          (s' : Streaming) (last : Bool)
          → ((last ≡ true) × IsComplete s')
            ⊎ ((last ≡ false) × IsInOrder s' × (s.playback.total + 1000 ≤ s'.playback.total))
          → (IsInOrder s'
              → stream < s'.playback.total + 1000 * fuel
              → Returns
                  (λ (s'', last'). (last' ≡ true) × IsComplete s'')
                  (stream_loop c run_time random (d ∷ []) stream fuel s'))
          → Returns
              (λ (s'', last'). (last' ≡ true) × IsComplete s'')
              (if last
                then ok (s', true)
                else stream_loop c run_time random (d ∷ []) stream fuel s')
      continued s' last (inl (e, done)) rest = rw e (returns (refl, done))
      continued s' last (inr (e, h', up)) rest = rw e (rest h' (omega (arith, up, enough)))

  -- With one MPD file, of segments of d > 0 seconds, and whatever the download times and the random
  -- numbers: after enough calls, one for each second and one more, streamLoop has ended, and the
  -- segments that it has downloaded are as many as fit into the duration of the stream.
  pub stream_loop_whole :
      (fuel : ℕ)
      → stream < 1000 * fuel
      → Returns
          (λ (s, last). (last ≡ true) × IsComplete s)
          (stream_loop c run_time random (d ∷ []) stream fuel (started d))
  stream_loop_whole fuel enough =
      stream_loop-IsComplete fuel (started d)
        (record {
          old_index = refl;
          index = refl;
          duration = refl;
          total = omega arith;
          within = omega arith;
        })
        (omega arith)
