-- ===== src/Godash/Mpd/Headers.antt =====
-- The sizes of the segments in godash/http/mpdParsing.go: getSegmentHeaders asks for them or takes them
-- from the byte ranges, and writes a file that getNSegmentHeadersFromFile reads. The indexes that
-- GetMPDValues returns are not negative.
pub mod Columns
pub mod Lines
pub mod RoundTrip
pub mod Each
use rlnc_streaming.Base.{
  ℕ, zero, suc, ◌+◌, ◌-◌, ◌*◌, List, [], ◌∷◌, ◌++◌, Bool, true, false, ◌||◌, ◌==◌, ltb, length,
  Option, some, none, if◌then◌else◌,
}
use rlnc_streaming.Run.{Run, ok, err, panic, app_stopped, ◌>>=◌, load}
use rlnc_streaming.Godash.Int.{ℤ, pos, negsuc, ◌+ℤ◌, opposite}
use rlnc_streaming.Godash.Text.{Bytes, codes, split, trim_space, atoi, itoa}
use rlnc_streaming.Godash.Csv.{pad, spaces, cells, read_all}
use rlnc_streaming.Godash.Mpd.{Representation, Mpd, representation_of}
use rlnc_streaming.Godash.Mpd.Addresses.{get_next_segment, get_next_byte_range_url, join_url}
use rlnc_streaming.Godash.Mpd.Values.{Values, divide_int, get_mpd_values}

-- `map[int][]int`; a key that is missing has the empty list.
abbrev pub Dictionary : Type 0
Dictionary = ℕ → List ℤ

-- `d[j] = append(d[j], x)`
abbrev pub append_to : Dictionary → ℕ → ℤ → Dictionary
append_to d j x = λ k. if k == j then d k ++ (x ∷ []) else d k

-- The numbers from `i` on.
unfoldable pub numbers : ℕ → ℕ → List ℕ
numbers i zero = []
numbers i (suc n) = i ∷ numbers (suc i) n

-- `for i := first; i <= last; i++`
abbrev pub up_to : ℕ → ℤ → List ℕ
up_to first (pos last) = numbers first (last + 1 - first)
up_to first (negsuc last) = []

abbrev pub rates_between : ℤ → ℤ → List ℕ
rates_between (pos highest) lowest = up_to highest lowest
rates_between (negsuc highest) lowest = []

-- `profiles[len(profiles)-2]`
unfoldable pub last_but_one : List Bytes → Run Bytes
last_but_one [] = panic
last_but_one (p ∷ []) = panic
last_but_one (p ∷ q ∷ []) = ok p
last_but_one (p ∷ q ∷ r ∷ ps) = last_but_one (q ∷ r ∷ ps)

-- The name of the file for a duration of the segments and the title.
unfoldable pub header_file_name : Mpd → Bool → Bytes → ℕ → Run Bytes
unfolding last_but_one
header_file_name mpd is_byte_range header_url segment_duration = do
  title ← load (split b'.' header_url) 0
  profile ← last_but_one (split b':' mpd.profiles)
  let range = if is_byte_range then codes "_byte_range" else []
  ok (
      codes "./logs/"
      ++ (itoa segment_duration
          ++ (codes "sec_" ++ (title ++ (range ++ (codes "_" ++ (profile ++ codes ".csv")))))))

-- The `Content-Length` of an answer, 0 for one that is no number.
unfoldable pub length_answered : Option Bytes → Run ℤ
length_answered none = panic
length_answered (some s) = ok (atoi s).0

-- GetContentLengthHeader; `head` is the server's answer to a HEAD request, `none` for an error.
unfoldable pub get_content_length_header :
    (Bytes → Option Bytes) → Mpd → Bytes → ℕ → ℕ → ℕ → Bytes → Run ℤ
unfolding length_answered
get_content_length_header head mpd current_url set_index rate number base_url = do
  segment ← get_next_segment mpd number rate set_index
  length_answered (head (join_url current_url (base_url ++ segment)))

-- The lengths of one segment for the representations: the dictionary with them, and what is printed.
unfoldable pub rate_loop_headers : (ℕ → Run ℤ) → List ℕ → Dictionary → Run (Dictionary × List ℤ)
rate_loop_headers length_of [] d = ok (d, [])
rate_loop_headers length_of (j ∷ js) d = do
  x ← length_of j
  (d', xs) ← rate_loop_headers length_of js (append_to d j x)
  ok (d', x ∷ xs)

-- Three spaces follow the last length, and one more the line.
abbrev pub ending : List ℤ → ℕ
ending [] = 1
ending (x ∷ xs) = 4

-- The line of a segment, less its end.
abbrev pub segment_line : ℕ → List ℤ → Bytes
segment_line i xs = pad 4 (itoa i) (b',' ∷ spaces 3 (cells xs (spaces (ending xs) [])))

-- The loop over the segments: the dictionary and the lines of the file.
unfoldable pub segment_loop :
    (ℕ → ℕ → Run ℤ) → List ℕ → List ℕ → Dictionary → Run (Dictionary × Bytes)
unfolding rate_loop_headers
segment_loop length_of js [] d = ok (d, [])
segment_loop length_of js (i ∷ is) d = do
  (d', xs) ← rate_loop_headers (length_of i) js d
  (d'', lines) ← segment_loop length_of js is d'
  ok (d'', segment_line i xs ++ (10 ∷ lines))

-- The widths or the heights of the representations.
unfoldable pub sizes_of : (Representation → ℕ) → Mpd → ℕ → List ℕ → Run (List ℤ)
sizes_of field mpd set_index [] = ok []
sizes_of field mpd set_index (j ∷ js) = do
  r ← representation_of mpd set_index j
  xs ← sizes_of field mpd set_index js
  ok (pos (field r) ∷ xs)

-- A line of sizes, less its end.
abbrev pub size_line : List ℤ → Bytes
size_line xs = spaces 7 (b',' ∷ cells xs [])

-- The two lines of sizes.
unfoldable pub size_lines : Mpd → ℕ → List ℕ → Run Bytes
unfolding sizes_of
size_lines mpd set_index js = do
  widths ← sizes_of (λ r. r.width) mpd set_index js
  heights ← sizes_of (λ r. r.height) mpd set_index js
  ok (size_line widths ++ (10 ∷ (size_line heights ++ (10 ∷ []))))

-- The columns of a line from `counter` on; one that is no number is not passed.
unfoldable pub read_columns : List Bytes → ℕ → List ℕ → Dictionary → Run Dictionary
read_columns columns counter [] d = ok d
read_columns columns counter (j ∷ js) d = do
  column ← load columns counter
  elim ((atoi (trim_space column)).1) [
    | true ↦ read_columns columns (suc counter) js (append_to d j (atoi (trim_space column)).0)
    | false ↦ read_columns columns counter js d
  ]

-- `row > last + 1`
abbrev pub is_beyond : ℕ → ℤ → Bool
is_beyond row (pos last) = ltb (last + 1) row
is_beyond row (negsuc zero) = ltb 0 row
is_beyond row (negsuc (suc last)) = true

-- The lines from number `row` on; those of the sizes and those behind the last segment are left out.
unfoldable pub read_rows : ℕ → ℤ → List ℕ → ℕ → List (List Bytes) → Dictionary → Run Dictionary
unfolding read_columns
read_rows segment_number last js row [] d = ok d
read_rows segment_number last js row (columns ∷ rows) d = do
  d' ←
      (if ltb row (segment_number + 1) || is_beyond row last
        then ok d
        else read_columns columns 1 js d)
  read_rows segment_number last js (suc row) rows d'

abbrev pub no_lengths : Dictionary
no_lengths = λ j. []

-- What the two functions are called with: the MPD files, `mpdListIndex`, `currentMPDRepAdaptSet`,
-- `maxHeight`, `streamDuration`, `isByteRangeMPD`, `maxBuffer`, `currentURL` and `headerURL`.
module _ (mpds : List Mpd) (mpd_index set_index max_height stream_duration : ℕ)
    (is_byte_range : Bool) (max_buffer : ℕ) (current_url header_url : Bytes) where
  -- The MPD file, its values, the number of the last segment and the duration of the segments.
  unfoldable pub header_values : Run (Mpd × Values × ℤ × ℕ)
  header_values = do
    v ← get_mpd_values mpds mpd_index max_height stream_duration max_buffer set_index is_byte_range
    d ← load v.segment_durations mpd_index
    last ← divide_int v.max_stream_duration (d * 1000)
    mpd ← load mpds mpd_index
    ok (mpd, v, last, d)

  -- The length of a segment in a representation.
  unfoldable pub length_of_segment : (Bytes → Option Bytes) → Mpd → Bytes → ℕ → ℕ → Run ℤ
  length_of_segment head mpd base_url i j =
      if is_byte_range
      then (do
        (_, start, end) ← get_next_byte_range_url mpd i j set_index
        ok (end +ℤ opposite start))
      else get_content_length_header head mpd current_url set_index j i base_url

  -- getSegmentHeaders with `printToFile`: the dictionary, and the name and the text of the file.
  unfoldable pub write_segment_headers :
      (Bytes → Option Bytes) → ℕ → Run (Dictionary × Bytes × Bytes)
  unfolding header_values length_of_segment segment_loop size_lines
  write_segment_headers head segment_number = do
    (mpd, v, last, duration) ← header_values
    name ← header_file_name mpd is_byte_range header_url duration
    let js = rates_between v.highest_index v.lowest_index
    sizes ← size_lines mpd set_index js
    (d, lines) ←
        segment_loop (length_of_segment head mpd v.base_url) js (up_to segment_number last)
          no_lengths
    ok (d, name, sizes ++ lines)

  -- getSegmentHeaders without `printToFile`
  unfoldable pub get_segment_headers : (Bytes → Option Bytes) → ℕ → Run Dictionary
  unfolding header_values length_of_segment segment_loop
  get_segment_headers head segment_number = do
    (mpd, v, last, _) ← header_values
    let js = rates_between v.highest_index v.lowest_index
    (d, _) ←
        segment_loop (length_of_segment head mpd v.base_url) js (up_to segment_number last)
          no_lengths
    ok d

  unfoldable pub opened : Option Bytes → Run Bytes
  opened none = err app_stopped
  opened (some s) = ok s

  -- getNSegmentHeadersFromFile; `files` are the texts of the files by their names.
  unfoldable pub get_n_segment_headers_from_file : (Bytes → Option Bytes) → ℕ → Run Dictionary
  unfolding header_values opened read_rows
  get_n_segment_headers_from_file files segment_number = do
    (mpd, v, last, duration) ← header_values
    name ← header_file_name mpd is_byte_range header_url duration
    text ← opened (files name)
    rows ← read_all text
    read_rows segment_number last (rates_between v.highest_index v.lowest_index) 0 rows no_lengths
