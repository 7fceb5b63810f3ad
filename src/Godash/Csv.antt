-- ===== src/Godash/Csv.antt =====
-- The comma-separated files of godash/http/mpdParsing.go: what it uses of Go's `fmt` and `encoding/csv`.
pub mod Cells
pub mod Records
use rlnc_streaming.Base.{
  ℕ, zero, suc, ◌+◌, ◌-◌, List, [], ◌∷◌, ◌++◌, map, Bool, true, false, ◌==◌, length, if◌then◌else◌,
}
use rlnc_streaming.Run.{Run, ok, err, app_stopped, ◌>>=◌}
use rlnc_streaming.Godash.Int.{ℤ, pos, negsuc}
use rlnc_streaming.Godash.Text.{Bytes, split, itoa}

-- `%d`
abbrev pub print_int : ℤ → Bytes
print_int (pos n) = itoa n
print_int (negsuc n) = b'-' ∷ itoa (n + 1)

unfoldable pub spaces : ℕ → Bytes → Bytes
spaces zero s = s
spaces (suc n) s = 32 ∷ spaces n s

-- A text, filled with spaces in front to `width`, in front of `rest`.
abbrev pub pad : ℕ → Bytes → Bytes → Bytes
pad width s rest = spaces (width - length s) (s ++ rest)

-- Numbers by `%8d,   `, the last one by `%8d`, in front of `rest`.
unfoldable pub cells : List ℤ → Bytes → Bytes
unfolding spaces
cells [] rest = rest
cells (x ∷ []) rest = pad 8 (print_int x) rest
cells (x ∷ y ∷ xs) rest = pad 8 (print_int x) (b',' ∷ 32 ∷ 32 ∷ 32 ∷ cells (y ∷ xs) rest)

-- The lines that are not empty.
unfoldable pub without_empty : List Bytes → List Bytes
without_empty [] = []
without_empty ([] ∷ lines) = without_empty lines
without_empty ((c ∷ s) ∷ lines) = (c ∷ s) ∷ without_empty lines

-- The records have as many fields as the first.
unfoldable pub same_lengths : ℕ → List (List Bytes) → Bool
same_lengths n [] = true
same_lengths n (fields ∷ records) = if length fields == n then same_lengths n records else false

abbrev pub checked_records : List (List Bytes) → Run (List (List Bytes))
checked_records [] = ok []
checked_records (fields ∷ records) =
    if same_lengths (length fields) records then ok (fields ∷ records) else err app_stopped

-- `ReadAll` of a reader of a text without quotes; its error stops the program.
unfoldable pub read_all : Bytes → Run (List (List Bytes))
unfolding without_empty same_lengths
read_all s = checked_records (map (split b',') (without_empty (split 10 s)))
