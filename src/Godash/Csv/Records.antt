-- ===== src/Godash/Csv/Records.antt =====
-- The files of godash/http/mpdParsing.go, line by line.
use rlnc_streaming.Base.{ℕ, ◌≡◌, ap, ◌∙◌, ◌≢◌, List, [], ◌∷◌, ◌++◌, map, arith}
use rlnc_streaming.Godash.Int.{ℤ}
use rlnc_streaming.Godash.Text.{Bytes, split}
use rlnc_streaming.Godash.Text.Cuts.{All-append, Lacks, split_first}
use rlnc_streaming.Godash.Csv.{spaces, cells, without_empty}
use rlnc_streaming.Godash.Csv.Cells.{columns_of, split-cells, cells-Lacks, without_empty_first}

-- A line that starts with `prefix`, a comma and `n` spaces: its columns.
split_line :
    (prefix : Bytes) (n m : ℕ) (xs : List ℤ)
    → Lacks b',' prefix
    → split b',' (prefix ++ b',' ∷ spaces n (cells xs (spaces m []))) ≡ prefix ∷ columns_of n m xs
split_line prefix n m xs h = split_first b',' prefix _ h ∙ ap (◌∷◌ prefix) (split-cells n m xs)

-- A line with nothing but numbers, spaces and commas: `prefix`, a comma, `n` spaces and the numbers.
unfoldable pub line_of : Bytes → ℕ → ℕ → List ℤ → Bytes
line_of prefix n m xs = prefix ++ b',' ∷ spaces n (cells xs (spaces m []))

line_of-Lacks :
    (prefix : Bytes) (n m : ℕ) (xs : List ℤ) → Lacks 10 prefix → Lacks 10 (line_of prefix n m xs)
unfolding line_of
line_of-Lacks prefix n m xs h =
    All-append (λ c. c ≢ 10) prefix _ h (omega arith, cells-Lacks n m xs)

-- A text as records, less the check of their lengths.
unfoldable pub records_of : Bytes → List (List Bytes)
records_of s = map (split b',') (without_empty (split 10 s))

pub records_of-line :
    (prefix : Bytes) (n m : ℕ) (xs : List ℤ) (rest : Bytes)
    → Lacks 10 prefix
    → Lacks b',' prefix
    → records_of (line_of prefix n m xs ++ 10 ∷ rest)
      ≡ (prefix ∷ columns_of n m xs) ∷ records_of rest
unfolding records_of line_of
records_of-line [] n m xs rest h k =
    ap (map (split b',')) (without_empty_first b',' _ rest (line_of-Lacks [] n m xs h))
    ∙ ap (λ r. r ∷ records_of rest) (split_line [] n m xs k)
records_of-line (c ∷ s) n m xs rest h k =
    ap (map (split b',')) (without_empty_first c _ rest (line_of-Lacks (c ∷ s) n m xs h))
    ∙ ap (λ r. r ∷ records_of rest) (split_line (c ∷ s) n m xs k)
