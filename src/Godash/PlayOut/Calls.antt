-- ===== src/Godash/PlayOut/Calls.antt =====
-- One call of PrintPlayOutLog of godash/logging/debug.go by streamLoop of godash/player/player.go.
use rlnc_streaming.Base.{
  ℕ, zero, suc, ◌+◌, ◌*◌, ◌<◌, ◌≤◌, ◌≡◌, length, refl, sym, ap, ◌∙◌, List, [], ◌∷◌, ◌++◌, some,
  get_elem?, append_assoc, append-nil, length-append, Bool, true, false, leb, if◌then◌else◌, arith,
}
use rlnc_streaming.Godash.PlayOut.{
  PlayLog, start_of, is_due, mark, print_play_out_log, print_segments, new_log,
}
use rlnc_streaming.Godash.PlayOut.Once.{
  count, count_after, print_from-count, print_from-mark, print_from-start, print_from-length,
  start_at_zero,
}

-- The logs that segments get behind `total` milliseconds.
unfoldable pub future : ℕ → List (ℕ × ℕ) → List PlayLog
future total [] = []
future total ((arrival, duration) ∷ segments) =
    new_log (total + duration * 1000) ∷ future (total + duration * 1000) segments

pub get_elem?-inside :
    (logs : List PlayLog) (k : ℕ) (l : PlayLog) → get_elem? logs k ≡ some l → k < length logs
get_elem?-inside [] k l h = cc
get_elem?-inside (x ∷ logs) zero l h = omega arith
get_elem?-inside (x ∷ logs) (suc k) l h = omega (arith, get_elem?-inside logs k l h)

-- One call.
module _ (time init_buffer : ℕ) (logs : List PlayLog) where
  pub call_printed :
      (k : ℕ) (l : PlayLog)
      → get_elem? logs k ≡ some l
      → count (1 + k) (print_play_out_log time init_buffer logs).0
        ≡ (if is_due time (start_of logs init_buffer) (start_of logs k) l then 1 else 0)
  unfolding print_play_out_log
  call_printed k l at =
      print_from-count time (start_of logs init_buffer) k 1 0 logs l at
      ∙ ap (λ t. if is_due time (start_of logs init_buffer) t l then 1 else 0)
          (start_at_zero logs k)

  pub call_marked :
      (k : ℕ) (l : PlayLog)
      → get_elem? logs k ≡ some l
      → get_elem? (print_play_out_log time init_buffer logs).1 k
        ≡ some (mark (is_due time (start_of logs init_buffer) (start_of logs k) l) l)
  unfolding print_play_out_log
  call_marked k l at =
      print_from-mark time (start_of logs init_buffer) k 1 0 logs l at
      ∙ ap (λ t. some (mark (is_due time (start_of logs init_buffer) t l) l)) (start_at_zero logs k)

  pub call_start :
      (later : List PlayLog) (i : ℕ)
      → start_of ((print_play_out_log time init_buffer logs).1 ++ later) i
        ≡ start_of (logs ++ later) i
  unfolding print_play_out_log
  call_start later i = print_from-start time (start_of logs init_buffer) i 1 0 logs later

  pub call_length : length (print_play_out_log time init_buffer logs).1 ≡ length logs
  unfolding print_play_out_log
  call_length = print_from-length time (start_of logs init_buffer) 1 0 logs

  pub call_unknown :
      (k : ℕ) → length logs ≤ k → count (1 + k) (print_play_out_log time init_buffer logs).0 ≡ 0
  unfolding print_play_out_log
  call_unknown k h = count_after time (start_of logs init_buffer) (1 + k) 1 0 logs (omega arith)

-- What one round of the loop does: the call, if it is made.
abbrev pub call_if : Bool → ℕ → ℕ → List PlayLog → List ℕ × List PlayLog
call_if waits arrival init_buffer logs =
    if waits then print_play_out_log arrival init_buffer logs else ([], logs)

pub called_start :
    (waits : Bool) (arrival init_buffer : ℕ) (logs later : List PlayLog) (i : ℕ)
    → start_of ((call_if waits arrival init_buffer logs).1 ++ later) i ≡ start_of (logs ++ later) i
called_start true arrival init_buffer logs later i = call_start arrival init_buffer logs later i
called_start false arrival init_buffer logs later i = refl

pub called_length :
    (waits : Bool) (arrival init_buffer : ℕ) (logs : List PlayLog)
    → length (call_if waits arrival init_buffer logs).1 ≡ length logs
called_length true arrival init_buffer logs = call_length arrival init_buffer logs
called_length false arrival init_buffer logs = refl

pub called_unknown :
    (waits : Bool) (arrival init_buffer k : ℕ) (logs : List PlayLog)
    → length logs ≤ k
    → count (1 + k) (call_if waits arrival init_buffer logs).0 ≡ 0
unfolding count
called_unknown true arrival init_buffer k logs h = call_unknown arrival init_buffer logs k h
called_unknown false arrival init_buffer k logs h = refl

pub length-snoc : (logs : List PlayLog) (l : PlayLog) → length (logs ++ l ∷ []) ≡ length logs + 1
length-snoc logs l = length-append logs (l ∷ [])

-- The start positions behind one round are those before it.
pub round_start :
    (waits : Bool) (arrival init_buffer total : ℕ) (logs : List PlayLog) (segments : List (ℕ × ℕ))
    (i : ℕ)
    → start_of
        (((call_if waits arrival init_buffer logs).1 ++ new_log total ∷ [])
          ++ future total segments)
        i
      ≡ start_of (logs ++ new_log total ∷ future total segments) i
round_start waits arrival init_buffer total logs segments i =
    ap (λ xs. start_of xs i)
      (append_assoc (call_if waits arrival init_buffer logs).1 (new_log total ∷ [])
        (future total segments))
    ∙ called_start waits arrival init_buffer logs (new_log total ∷ future total segments) i

-- The final logs have the start positions of all segments.
pub final_start :
    (init_buffer counter total : ℕ) (logs : List PlayLog) (segments : List (ℕ × ℕ)) (i : ℕ)
    → start_of (print_segments init_buffer counter total logs segments).1 i
      ≡ start_of (logs ++ future total segments) i
unfolding print_segments future
final_start init_buffer counter total logs [] i = ap (λ xs. start_of xs i) (sym (append-nil logs))
final_start init_buffer counter total logs ((arrival, duration) ∷ segments) i =
    final_start init_buffer (suc counter) (total + duration * 1000) _ segments i
    ∙ round_start (leb init_buffer counter) arrival init_buffer (total + duration * 1000) logs
        segments i
