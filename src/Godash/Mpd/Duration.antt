-- ===== src/Godash/Mpd/Duration.antt =====
-- SplitMPDSegmentDuration of godash/http/mpdParsing.go.
use rlnc_streaming.Base.{
  ℕ, zero, suc, ◌+◌, ◌*◌, ◌^◌, ◌<◌, ◌≡◌, refl, ap, List, [], ◌∷◌, ◌++◌, false, ltb, if◌then◌else◌,
  arith, ◌≢◌,
}
use rlnc_streaming.Run.{Run, ok, err, ◌>>=◌, load, app_stopped}
use rlnc_streaming.Godash.Int.{ℤ, pos, ◌+ℤ◌, is_positive, times}
use rlnc_streaming.Godash.Text.{
  is_digit, Bytes, codes, contains, replace_all, split, onto_first, scan, atoi, itoa,
}
use rlnc_streaming.Godash.Text.Cuts.{
  All, All-append, Lacks, split-Lacks, split_first, replace_all_nothing-Lacks, contains_byte,
  contains_not, replace_all-Lacks, replace_all_once,
}
use rlnc_streaming.Godash.Text.Decimal.{IsDigit, itoa-IsDigit, digits-Lacks, atoi-itoa}

-- `strconv.Atoi`, where an error stops the program.
abbrev pub atoi_or_stop : Bytes → Run ℤ
atoi_or_stop s = let (n, fine) = atoi s in if fine then ok n else err app_stopped

-- The seconds of the hours, if there are any, and the text behind them.
unfoldable pub split_hours : Bytes → Run (ℤ × Bytes)
split_hours text =
    let hms = replace_all (codes "PT") [] text in
    if contains (codes "H") hms
    then (do
      hours ← load (split b'H' hms) 0
      n ← atoi_or_stop hours
      rest ← load (split b'H' hms) 1
      ok (if is_positive n then times 3600 n else pos 0, rest))
    else ok (pos 0, replace_all (codes "PT0H") [] text)

-- The seconds of the hours and minutes that are read give way to those of the minutes, if positive.
unfoldable pub split_mpd_segment_duration : Bytes → Run ℤ
unfolding split_hours
split_mpd_segment_duration text = do
  (hours, stream_duration) ← split_hours text
  minutes ← load (split b'M' stream_duration) 0
  n ← atoi_or_stop minutes
  seconds ← load (split b'M' stream_duration) 1
  whole ← load (split b'.' seconds) 0
  ok ((if is_positive n then times 60 n else hours) +ℤ (atoi whole).0)

-- The text of a duration of whole hours, minutes and seconds, with a fraction of a second.
abbrev pub duration_text : ℕ → ℕ → ℕ → Bytes → Bytes
duration_text h m s fraction =
    codes "PT"
    ++ (itoa h ++ (b'H' ∷ (itoa m ++ (b'M' ∷ (itoa s ++ (b'.' ∷ (fraction ++ codes "S")))))))

pub atoi_or_stop-itoa : (n : ℕ) → n < 2 ^ 63 → atoi_or_stop (itoa n) ≡ ok (pos n)
atoi_or_stop-itoa n h = rw (atoi-itoa n h) refl

abbrev seconds_text : ℕ → Bytes → Bytes
seconds_text s fraction = itoa s ++ (b'.' ∷ (fraction ++ codes "S"))

abbrev minutes_text : ℕ → ℕ → Bytes → Bytes
minutes_text m s fraction = itoa m ++ (b'M' ∷ seconds_text s fraction)

-- The digits and the letters of a duration lack any other byte.
seconds_text-Lacks :
    (b s : ℕ) (fraction : Bytes)
    → is_digit b ≡ false
    → ◌≢◌ {A = ℕ} b'.' b
    → ◌≢◌ {A = ℕ} b'S' b
    → All IsDigit fraction
    → Lacks b (seconds_text s fraction)
seconds_text-Lacks b s fraction h np ns f =
    All-append (λ c. c ≢ b) (itoa s) _ (digits-Lacks b (itoa s) h (itoa-IsDigit s))
      (np, All-append (λ c. c ≢ b) fraction _ (digits-Lacks b fraction h f) (ns, tt))

minutes_text-Lacks :
    (b m s : ℕ) (fraction : Bytes)
    → is_digit b ≡ false
    → ◌≢◌ {A = ℕ} b'M' b
    → ◌≢◌ {A = ℕ} b'.' b
    → ◌≢◌ {A = ℕ} b'S' b
    → All IsDigit fraction
    → Lacks b (minutes_text m s fraction)
minutes_text-Lacks b m s fraction h nm np ns f =
    All-append (λ c. c ≢ b) (itoa m) _ (digits-Lacks b (itoa m) h (itoa-IsDigit m))
      (nm, seconds_text-Lacks b s fraction h np ns f)

split_hours_lem :
    (h m s : ℕ) (fraction : Bytes)
    → h < 2 ^ 63
    → All IsDigit fraction
    → split_hours (duration_text h m s fraction) ≡ ok (pos (3600 * h), minutes_text m s fraction)
unfolding split_hours load
split_hours_lem h m s fraction hh f =
    let tail = minutes_text m s fraction in
    let lacks_p : Lacks b'P' (itoa h ++ b'H' ∷ tail) =
      All-append (λ c. c ≢ b'P') (itoa h) _ (digits-Lacks b'P' (itoa h) refl (itoa-IsDigit h))
        (
          omega arith,
          minutes_text-Lacks b'P' m s fraction refl (omega arith) (omega arith) (omega arith) f,
        ) in
    rw
      (
        replace_all_once b'P' (b'T' ∷ []) [] [] (itoa h ++ b'H' ∷ tail) tt lacks_p,
        contains_byte b'H' (itoa h) tail,
        split_first b'H' (itoa h) tail (digits-Lacks b'H' (itoa h) refl (itoa-IsDigit h)),
        split-Lacks b'H' tail
            (minutes_text-Lacks b'H' m s fraction refl (omega arith) (omega arith) (omega arith) f),
        atoi_or_stop-itoa h hh,
      )
      (positive h)
  where
    positive :
        (h : ℕ)
        → ◌≡◌ {A = Run (ℤ × Bytes)}
            (ok (
              if is_positive (pos h) then times 3600 (pos h) else pos 0,
              minutes_text m s fraction,
            ))
            (ok (pos (3600 * h), minutes_text m s fraction))
    positive zero = refl
    positive (suc h) = refl

added :
    (h m s : ℕ)
    → (if is_positive (pos m) then times 60 (pos m) else pos (3600 * h)) +ℤ pos s
      ≡ pos ((if ltb 0 m then 60 * m else 3600 * h) + s)
added h zero s = refl
added h (suc m) s = ground arith

-- Hours, minutes and seconds in digits behind PT, of less than 2^63 seconds together: the result is
-- that of the minutes and seconds, and the hours count only if the minutes are 0.
pub split_mpd_segment_duration_lem :
    (h m s : ℕ) (fraction : Bytes)
    → 3600 * h + 60 * m + s < 2 ^ 63
    → All IsDigit fraction
    → split_mpd_segment_duration (duration_text h m s fraction)
      ≡ ok (pos ((if ltb 0 m then 60 * m else 3600 * h) + s))
unfolding split_mpd_segment_duration load
split_mpd_segment_duration_lem h m s fraction small f =
    rw
      (
        split_hours_lem h m s fraction (omega arith) f,
        split_first b'M' (itoa m) (seconds_text s fraction)
            (digits-Lacks b'M' (itoa m) refl (itoa-IsDigit m)),
        atoi_or_stop-itoa m (omega arith),
        split-Lacks b'M' (seconds_text s fraction)
            (seconds_text-Lacks b'M' s fraction refl (omega arith) (omega arith) f),
        split_first b'.' (itoa s) (fraction ++ codes "S")
            (digits-Lacks b'.' (itoa s) refl (itoa-IsDigit s)),
        atoi-itoa s (omega arith),
      )
      (ap ok (added h m s))

first_part : (c : ℕ) (ps : List Bytes) → (p : Bytes) × (load (onto_first c ps) 0 ≡ ok (c ∷ p))
unfolding load
first_part c [] = ([], refl)
first_part c (p ∷ ps) = (p, refl)

atoi_or_stop_at_p : (s : Bytes) → atoi_or_stop (b'P' ∷ s) ≡ err app_stopped
unfolding atoi scan
atoi_or_stop_at_p s = refl

-- A duration behind PT without hours stops the program.
pub split_mpd_segment_duration_stops :
    (text : Bytes)
    → Lacks b'H' text
    → split_mpd_segment_duration (codes "PT" ++ text) ≡ err app_stopped
unfolding split_mpd_segment_duration split
split_mpd_segment_duration_stops text h =
    let (p, first) = first_part b'P' (onto_first b'T' (split b'M' text)) in
    rw
      (
        contains_not b'H' (b'H' ∷ []) (replace_all (codes "PT") [] (codes "PT" ++ text))
            (λ l. l.0 refl)
            (replace_all_nothing-Lacks b'H' (codes "PT") (codes "PT" ++ text)
              (omega arith, (omega arith, h))),
        replace_all-Lacks b'H' (codes "PT0H") [] (codes "PT" ++ text) (λ l. l.1.1.1.0 refl)
            (omega arith, (omega arith, h)),
        first,
        atoi_or_stop_at_p p,
      )
      refl
