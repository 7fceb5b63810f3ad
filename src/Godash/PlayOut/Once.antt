-- ===== src/Godash/PlayOut/Once.antt =====
-- PrintPlayOutLog of godash/logging/debug.go prints a segment once.
use rlnc_streaming.Base.{
  ℕ, zero, suc, ◌+◌, ◌<◌, ◌≤◌, ◌≡◌, length, ◌≢◌, refl, sym, ap, ◌∙◌, List, [], ◌∷◌, ◌++◌, Option,
  some, get_elem?, ◌||◌, Bool, true, false, ◌&&◌, not, leb, ◌==◌, if◌then◌else◌, arith,
}
use rlnc_streaming.Godash.PlayOut.{PlayLog, start_of, is_due, mark, put_if, print_from}

same_log : (x l : PlayLog) → ◌≡◌ {A = Option PlayLog} (some x) (some l) → x ≡ l
same_log x l e = cc

-- How often a number is in a list.
unfoldable pub count : ℕ → List ℕ → ℕ
count n [] = 0
count n (x ∷ xs) = (if x == n then 1 else 0) + count n xs

pub count-append : (n : ℕ) (xs ys : List ℕ) → count n (xs ++ ys) ≡ count n xs + count n ys
unfolding count
count-append n [] ys = omega arith
count-append n (x ∷ xs) ys = omega (arith, count-append n xs ys)

count_put :
    (due : Bool) (number : ℕ) (printed : List ℕ)
    → count number printed ≡ 0
    → count number (put_if due number printed) ≡ (if due then 1 else 0)
unfolding count
count_put true number printed none_later = ground (arith, none_later)
count_put false number printed none_later = none_later

count_put_other :
    (due : Bool) (n number : ℕ) (printed : List ℕ)
    → number ≢ n
    → count n (put_if due number printed) ≡ count n printed
unfolding count
count_put_other true n number printed other = ground (arith, other)
count_put_other false n number printed other = refl

-- The start position of the segment at index k, where the first has the start position `start`.
unfoldable pub start_at : ℕ → List PlayLog → ℕ → ℕ
start_at start logs zero = start
start_at start logs (suc k) = start_of logs (suc k)

module _ (time delay : ℕ) where
  pub count_before :
      (n number start : ℕ) (logs : List PlayLog)
      → n < number
      → count n (print_from time delay number start logs).0 ≡ 0
  unfolding print_from count
  count_before n number start [] h = refl
  count_before n number start (l ∷ logs) h =
      ground (arith, count_before n (suc number) l.play_start logs)

  start_at-cons :
      (start : ℕ) (l : PlayLog) (logs : List PlayLog) (k : ℕ)
      → start_at start (l ∷ logs) (suc k) ≡ start_at l.play_start logs k
  unfolding start_at start_of
  start_at-cons start l logs zero = refl
  start_at-cons start l logs (suc k) = refl

  -- A call prints a segment if it is due.
  pub print_from-count :
      (k number start : ℕ) (logs : List PlayLog) (l : PlayLog)
      → get_elem? logs k ≡ some l
      → count (number + k) (print_from time delay number start logs).0
        ≡ (if is_due time delay (start_at start logs k) l then 1 else 0)
  unfolding print_from start_at
  print_from-count k number start [] l at = cc
  print_from-count zero number start (x ∷ logs) l at =
      let later = (print_from time delay (suc number) x.play_start logs).0 in
      ap {A = ℕ} (λ n. count n (put_if (is_due time delay start x) number later)) (omega arith)
      ∙ count_put (is_due time delay start x) number later
          (count_before number (suc number) x.play_start logs (omega arith))
      ∙ ap (λ (y : PlayLog). if is_due time delay start y then 1 else 0) (same_log x l at)
  print_from-count (suc k) number start (x ∷ logs) l at =
      let later = (print_from time delay (suc number) x.play_start logs).0 in
      count_put_other (is_due time delay start x) (number + suc k) number later (omega arith)
      ∙ ap {A = ℕ} (λ n. count n later) (omega arith)
      ∙ print_from-count k (suc number) x.play_start logs l at
      ∙ ap (λ t. if is_due time delay t l then 1 else 0) (sym (start_at-cons start x logs k))

  -- It marks the segment if it is due.
  pub print_from-mark :
      (k number start : ℕ) (logs : List PlayLog) (l : PlayLog)
      → get_elem? logs k ≡ some l
      → get_elem? (print_from time delay number start logs).1 k
        ≡ some (mark (is_due time delay (start_at start logs k) l) l)
  unfolding print_from start_at
  print_from-mark k number start [] l at = cc
  print_from-mark zero number start (x ∷ logs) l at =
      ap (λ (y : PlayLog). some (mark (is_due time delay start y) y)) (same_log x l at)
  print_from-mark (suc k) number start (x ∷ logs) l at =
      print_from-mark k (suc number) x.play_start logs l at
      ∙ ap (λ t. some (mark (is_due time delay t l) l)) (sym (start_at-cons start x logs k))

  -- It changes no start position, whatever logs follow.
  pub print_from-start :
      (i number start : ℕ) (logs later : List PlayLog)
      → start_of ((print_from time delay number start logs).1 ++ later) i
        ≡ start_of (logs ++ later) i
  unfolding print_from start_of
  print_from-start zero number start [] later = refl
  print_from-start zero number start (l ∷ logs) later = refl
  print_from-start (suc i) number start [] later = refl
  print_from-start (suc zero) number start (l ∷ logs) later = ground arith
  print_from-start (suc (suc i)) number start (l ∷ logs) later =
      print_from-start (suc i) (suc number) l.play_start logs later

  pub print_from-length :
      (number start : ℕ) (logs : List PlayLog)
      → length (print_from time delay number start logs).1 ≡ length logs
  unfolding print_from
  print_from-length number start [] = refl
  print_from-length number start (l ∷ logs) =
      ap suc (print_from-length (suc number) l.play_start logs)

  -- A number behind those of the logs is not printed.
  pub count_after :
      (n number start : ℕ) (logs : List PlayLog)
      → number + length logs ≤ n
      → count n (print_from time delay number start logs).0 ≡ 0
  unfolding print_from count
  count_after n number start [] h = refl
  count_after n number start (l ∷ logs) h =
      count_put_other (is_due time delay start l) n number _ (omega arith)
      ∙ count_after n (suc number) l.play_start logs (omega arith)

pub start_at_zero : (logs : List PlayLog) (k : ℕ) → start_at 0 logs k ≡ start_of logs k
unfolding start_at start_of
start_at_zero [] zero = refl
start_at_zero (l ∷ logs) zero = refl
start_at_zero logs (suc k) = refl

pub mark-played :
    (due : Bool) (l : PlayLog) → (mark due l).played ≡ (if due then true else l.played)
mark-played true l = refl
mark-played false l = refl

-- Printed now, or later if not now.
pub now_or_later :
    (now later played : Bool)
    → (if now && not played then 1 else 0)
        + (if later && not (if now && not played then true else played) then 1 else 0)
      ≡ (if (now || later) && not played then 1 else 0)
now_or_later true true true = refl
now_or_later true true false = refl
now_or_later true false true = refl
now_or_later true false false = refl
now_or_later false true true = refl
now_or_later false true false = refl
now_or_later false false true = refl
now_or_later false false false = refl

-- One of the times is not before the position.
unfoldable pub is_reached : List ℕ → ℕ → Bool
is_reached [] position = false
is_reached (time ∷ times) position = leb position time || is_reached times position

pub start_of-append :
    (logs later : List PlayLog) (i : ℕ)
    → i ≤ length logs
    → start_of (logs ++ later) i ≡ start_of logs i
unfolding start_of
start_of-append logs later zero h = ground arith
start_of-append [] later (suc i) h = absurd (omega arith)
start_of-append (l ∷ logs) later (suc zero) h = refl
start_of-append (l ∷ logs) later (suc (suc i)) h = start_of-append logs later (suc i) (omega arith)

pub get_elem?-append :
    (logs later : List PlayLog) (k : ℕ) (l : PlayLog)
    → get_elem? logs k ≡ some l
    → get_elem? (logs ++ later) k ≡ some l
get_elem?-append [] later k l h = cc
get_elem?-append (x ∷ logs) later zero l h = h
get_elem?-append (x ∷ logs) later (suc k) l h = get_elem?-append logs later k l h

pub get_elem?-last :
    (logs : List PlayLog) (l : PlayLog) → get_elem? (logs ++ l ∷ []) (length logs) ≡ some l
get_elem?-last [] l = refl
get_elem?-last (x ∷ logs) l = get_elem?-last logs l
