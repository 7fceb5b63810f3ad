-- ===== src/Godash/Mpd/Headers/Lines.antt =====
-- The lines of the file of the sizes of the segments of godash/http/mpdParsing.go, and their reading.
use rlnc_streaming.Base.{
  ℕ, zero, suc, ◌+◌, ◌-◌, ◌<◌, ◌≤◌, ◌≡◌, refl, ap, sym, subst, ◌∙◌, List, [], ◌∷◌, ◌++◌, true,
  ==_refl, ltb-false, length, append_assoc, arith,
}
use rlnc_streaming.Run.{Run, ok, ◌>>=◌, load, bind-inv, ok_inj}
use rlnc_streaming.Godash.Int.{ℤ, pos, negsuc}
use rlnc_streaming.Godash.Text.{Bytes, split, itoa}
use rlnc_streaming.Godash.Text.Decimal.{itoa-IsDigit, digits-Lacks}
use rlnc_streaming.Godash.Csv.{spaces, without_empty, same_lengths, checked_records, read_all}
use rlnc_streaming.Godash.Csv.Cells.{
  Fits, spaces-append, spaces-Lacks, columns_of, length-columns_of,
}
use rlnc_streaming.Godash.Mpd.{Mpd, Representation, representation_of}
use rlnc_streaming.Godash.Mpd.Headers.{
  Dictionary, numbers, up_to, ending, segment_line, size_line, rate_loop_headers, segment_loop,
  read_rows, sizes_of, no_lengths,
}
use rlnc_streaming.Godash.Csv.Records.{line_of, records_of, records_of-line}
use rlnc_streaming.Godash.Mpd.Headers.Columns.{Asked, rate_loop-Asked, Asked-length, read-Asked}

records_of-segment :
    (i : ℕ) (xs : List ℤ) (rest : Bytes)
    → records_of (segment_line i xs ++ 10 ∷ rest)
      ≡ (spaces (4 - length (itoa i)) (itoa i) ∷ columns_of 3 (ending xs) xs) ∷ records_of rest
unfolding line_of
records_of-segment i xs rest =
    ap (λ line. records_of (line ++ 10 ∷ rest))
      (sym (spaces-append (4 - length (itoa i)) (itoa i) _))
    ∙ records_of-line (spaces (4 - length (itoa i)) (itoa i)) 3 (ending xs) xs rest
        (spaces-Lacks 10 (4 - length (itoa i)) (itoa i) (omega arith)
          (digits-Lacks 10 (itoa i) refl (itoa-IsDigit i)))
        (spaces-Lacks b',' (4 - length (itoa i)) (itoa i) (omega arith)
          (digits-Lacks b',' (itoa i) refl (itoa-IsDigit i)))

records_of-sizes :
    (ws : List ℤ) (rest : Bytes)
    → records_of (size_line ws ++ 10 ∷ rest) ≡ (spaces 7 [] ∷ columns_of 0 0 ws) ∷ records_of rest
unfolding line_of spaces
records_of-sizes ws rest =
    records_of-line (spaces 7 []) 0 0 ws rest (spaces-Lacks 10 7 [] (omega arith) tt)
      (spaces-Lacks b',' 7 [] (omega arith) tt)

module _ (length_of : ℕ → ℕ → Run ℤ) (last : ℕ) (js : List ℕ) (ws : List ℤ)
    (fits : (i j : ℕ) (x : ℤ) → length_of i j ≡ ok x → Fits x) (wide : length ws ≡ length js) where
  same_lengths-line :
      (prefix : Bytes) (m : ℕ) (xs : List ℤ) (records : List (List Bytes))
      → length xs ≡ length js
      → same_lengths (suc (length (columns_of 0 0 ws))) records ≡ true
      → same_lengths (suc (length (columns_of 0 0 ws))) ((prefix ∷ columns_of 3 m xs) ∷ records)
        ≡ true
  unfolding same_lengths
  same_lengths-line prefix m xs records e h =
      rw
        (length-columns_of 3 m 0 0 xs ws (e ∙ sym wide), ==_refl (suc (length (columns_of 0 0 ws))))
        h

  read_rows-line :
      (i : ℕ) (d d1 : Dictionary) (xs : List ℤ) (prefix : Bytes) (m : ℕ)
      (records : List (List Bytes))
      → Asked (length_of i) js d xs d1
      → 0 < i
      → i ≤ last
      → read_rows 1 (pos last) js (suc i) ((prefix ∷ columns_of 3 m xs) ∷ records) d
        ≡ read_rows 1 (pos last) js (suc (suc i)) records d1
  unfolding read_rows load
  read_rows-line i d d1 xs prefix m records every low high =
      rw
        (
          ltb-false (suc i) (1 + 1) (omega arith),
          ltb-false (last + 1) (suc i) (omega arith),
          read-Asked (length_of i) (prefix ∷ columns_of 3 m xs) 1 3 m (fits i) every (λ k.
              let e : 1 + k ≡ suc k = omega arith in ap (load (prefix ∷ columns_of 3 m xs)) e),
        )
        refl

  -- The lines of the segments have the columns of the sizes, and are read.
  segment_loop-read :
      (n i : ℕ) (d d' : Dictionary) (text : Bytes)
      → segment_loop length_of js (numbers i n) d ≡ ok (d', text)
      → 0 < i
      → i + n ≤ last + 1
      → (same_lengths (suc (length (columns_of 0 0 ws))) (records_of text) ≡ true)
        × (read_rows 1 (pos last) js (suc i) (records_of text) d ≡ ok d')
  unfolding segment_loop numbers records_of same_lengths read_rows without_empty split
  segment_loop-read zero i d d' text h low high =
      subst
        (λ v.
          (same_lengths (suc (length (columns_of 0 0 ws))) (records_of v.1) ≡ true)
          × (read_rows 1 (pos last) js (suc i) (records_of v.1) d ≡ ok v.0))
        (ok_inj h) (refl, refl)
  segment_loop-read (suc n) i d d' text h low high =
      let ((d1, xs), looped, rest) =
        bind-inv (rate_loop_headers (length_of i) js d) _ (d', text) h in
      let ((d2, lines), later, e) =
        bind-inv (segment_loop length_of js (numbers (suc i) n) d1) _ (d', text) rest in
      let every : Asked (length_of i) js d xs d1 =
        rate_loop-Asked (length_of i) js d d1 xs looped in
      let (even, read) =
        segment_loop-read n (suc i) d1 d2 lines later (omega arith) (omega arith) in
      subst
        (λ v.
          (same_lengths (suc (length (columns_of 0 0 ws))) (records_of v.1) ≡ true)
          × (read_rows 1 (pos last) js (suc i) (records_of v.1) d ≡ ok v.0))
        (ok_inj e)
        (subst
          (λ r.
            (same_lengths (suc (length (columns_of 0 0 ws))) r ≡ true)
            × (read_rows 1 (pos last) js (suc i) r d ≡ ok d2))
          (sym (records_of-segment i xs lines))
          (
            same_lengths-line (spaces (4 - length (itoa i)) (itoa i)) (ending xs) xs
                (records_of lines) (Asked-length (length_of i) every) even,
            read_rows-line i d d1 xs (spaces (4 - length (itoa i)) (itoa i)) (ending xs)
                  (records_of lines) every low (omega arith)
                ∙ read,
          ))

module _ (length_of : ℕ → ℕ → Run ℤ) (js : List ℕ) (ws : List ℤ)
    (fits : (i j : ℕ) (x : ℤ) → length_of i j ≡ ok x → Fits x) (wide : length ws ≡ length js) where
  -- The same for all segments.
  all_segments-read :
      (last : ℤ) (d d' : Dictionary) (text : Bytes)
      → segment_loop length_of js (up_to 1 last) d ≡ ok (d', text)
      → (same_lengths (suc (length (columns_of 0 0 ws))) (records_of text) ≡ true)
        × (read_rows 1 last js 2 (records_of text) d ≡ ok d')
  unfolding segment_loop records_of same_lengths read_rows without_empty split
  all_segments-read (pos last) d d' text h =
      segment_loop-read length_of last js ws fits wide (last + 1 - 1) 1 d d' text h (omega arith)
        (omega arith)
  all_segments-read (negsuc last) d d' text h =
      subst
        (λ v.
          (same_lengths (suc (length (columns_of 0 0 ws))) (records_of v.1) ≡ true)
          × (read_rows 1 (negsuc last) js 2 (records_of v.1) d ≡ ok v.0))
        (ok_inj h) (refl, refl)

pub sizes_of-length :
    (field : Representation → ℕ) (mpd : Mpd) (set_index : ℕ) (js : List ℕ) (xs : List ℤ)
    → sizes_of field mpd set_index js ≡ ok xs
    → length xs ≡ length js
unfolding sizes_of
sizes_of-length field mpd set_index [] xs h = ap length (sym (ok_inj h))
sizes_of-length field mpd set_index (j ∷ js) xs h =
    let (r, found, rest) = bind-inv (representation_of mpd set_index j) _ xs h in
    let (ys, listed, e) = bind-inv (sizes_of field mpd set_index js) _ xs rest in
    ap length (sym (ok_inj e)) ∙ ap suc (sizes_of-length field mpd set_index js ys listed)

-- The file with the given sizes.
records_of-file :
    (ws hs : List ℤ) (lines : Bytes)
    → records_of ((size_line ws ++ (10 ∷ (size_line hs ++ (10 ∷ [])))) ++ lines)
      ≡ (spaces 7 [] ∷ columns_of 0 0 ws) ∷ (spaces 7 [] ∷ columns_of 0 0 hs) ∷ records_of lines
records_of-file ws hs lines =
    ap records_of (append_assoc (size_line ws) _ lines)
    ∙ records_of-sizes ws ((size_line hs ++ (10 ∷ [])) ++ lines)
    ∙ ap (λ r. (spaces 7 [] ∷ columns_of 0 0 ws) ∷ r)
        (ap records_of (append_assoc (size_line hs) (10 ∷ []) lines) ∙ records_of-sizes hs lines)

abbrev pub file_of : List ℤ → List ℤ → Bytes → Bytes
file_of ws hs lines = (size_line ws ++ (10 ∷ (size_line hs ++ (10 ∷ [])))) ++ lines

module _ (length_of : ℕ → ℕ → Run ℤ) (js : List ℕ) (ws hs : List ℤ)
    (fits : (i j : ℕ) (x : ℤ) → length_of i j ≡ ok x → Fits x) (wide : length ws ≡ length js)
    (high : length hs ≡ length js) where
  file-checked :
      (records : List (List Bytes))
      → same_lengths (suc (length (columns_of 0 0 ws))) records ≡ true
      → checked_records
          ((spaces 7 [] ∷ columns_of 0 0 ws) ∷ (spaces 7 [] ∷ columns_of 0 0 hs) ∷ records)
        ≡ ok ((spaces 7 [] ∷ columns_of 0 0 ws) ∷ (spaces 7 [] ∷ columns_of 0 0 hs) ∷ records)
  unfolding same_lengths
  file-checked records h =
      rw
        (
          length-columns_of 0 0 0 0 hs ws (high ∙ sym wide),
          ==_refl (suc (length (columns_of 0 0 ws))),
          h,
        )
        refl

  -- What was written is read.
  pub file-read :
      (last : ℤ) (d : Dictionary) (lines : Bytes)
      → segment_loop length_of js (up_to 1 last) no_lengths ≡ ok (d, lines)
      → (read_all (file_of ws hs lines) >>= (λ rows. read_rows 1 last js 0 rows no_lengths)) ≡ ok d
  unfolding read_all records_of read_rows
  file-read last d lines h =
      let (even, read) = all_segments-read length_of js ws fits wide last no_lengths d lines h in
      ap (λ r. checked_records r >>= (λ rows. read_rows 1 last js 0 rows no_lengths))
        (records_of-file ws hs lines)
      ∙ ap (λ r. r >>= (λ rows. read_rows 1 last js 0 rows no_lengths))
          (file-checked (records_of lines) even)
      ∙ read
