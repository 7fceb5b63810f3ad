-- ===== src/Godash/Mpd/Headers/RoundTrip.antt =====
-- The file of the sizes of the segments of godash/http/mpdParsing.go, from the writer to the reader.
use rlnc_streaming.Base.{
  ◌^◌, ℕ, zero, suc, ◌≡◌, refl, ap, sym, subst, ◌∙◌, List, [], ◌∷◌, ◌++◌, Bool, true, false, ◌==◌,
  ltb, leb, leb-false, Bool-cases, inl, inr, none, length, Option, some, arith,
}
use rlnc_streaming.Run.{Run, ok, ◌>>=◌, bind-inv, ok_inj}
use rlnc_streaming.Godash.Int.{ℤ}
use rlnc_streaming.Godash.Text.{
  Bytes, atoi, signed, Parsed, number, bad_syntax, too_big, parse_uint,
}
use rlnc_streaming.Godash.Csv.Cells.{Fits}
use rlnc_streaming.Godash.Mpd.{Mpd}
use rlnc_streaming.Godash.Mpd.Headers.{
  Dictionary, up_to, size_line, segment_loop, length_answered, get_content_length_header, sizes_of,
  size_lines, no_lengths, rates_between, header_values, header_file_name, length_of_segment,
  write_segment_headers, get_segment_headers, get_n_segment_headers_from_file,
}
use rlnc_streaming.Godash.Mpd.Values.{Values}
use rlnc_streaming.Godash.Mpd.Headers.Lines.{file_of, file-read, sizes_of-length}
use rlnc_streaming.Godash.Mpd.Addresses.{get_next_segment, join_url}

atoi-Fits : (s : Bytes) → Fits (atoi s).0
unfolding atoi
atoi-Fits [] = omega arith
atoi-Fits (c ∷ s) = elim (Bool-cases (c == b'-')) [
  | inl e ↦ rw e (signed-Fits true (parse_uint s))
  | inr e ↦ rw e (elim (Bool-cases (c == b'+')) [
    | inl e' ↦ rw e' (signed-Fits false (parse_uint s))
    | inr e' ↦ rw e' (signed-Fits false (parse_uint (c ∷ s)))
  ])
]
  where
    signed-Fits : (minus : Bool) (parsed : Parsed) → Fits (signed minus parsed).0
    signed-Fits minus bad_syntax = omega arith
    signed-Fits false too_big = omega arith
    signed-Fits true too_big = omega arith
    signed-Fits false (number n) = elim (Bool-cases (ltb n (2 ^ 63))) [
      | inl e ↦ rw e (ground (arith, e))
      | inr e ↦ rw e (omega arith)
    ]
    signed-Fits true (number zero) = omega arith
    signed-Fits true (number (suc n)) = elim (Bool-cases (leb (suc n) (2 ^ 63))) [
      | inl e ↦ rw (e, leb-false (suc n) 0 (omega arith)) (ground (arith, e))
      | inr e ↦ rw e (omega arith)
    ]

-- What a server answers to a HEAD request is read as an `int`.
length_answered-Fits : (answer : Option Bytes) (x : ℤ) → length_answered answer ≡ ok x → Fits x
unfolding length_answered
length_answered-Fits none x h = cc (h)
length_answered-Fits (some s) x h = subst Fits (ok_inj h) (atoi-Fits s)

-- Unless the MPD file is one of byte ranges, the lengths are those that a server answers.
pub length_of_segment-Fits :
    (mpds : List Mpd) (mpd_index set_index max_height stream_duration max_buffer : ℕ)
    (current_url header_url : Bytes) (head : Bytes → Option Bytes) (mpd : Mpd) (base_url : Bytes)
    (i j : ℕ) (x : ℤ)
    → length_of_segment mpds mpd_index set_index max_height stream_duration false max_buffer
        current_url header_url head mpd base_url i j
      ≡ ok x
    → Fits x
unfolding length_of_segment get_content_length_header
length_of_segment-Fits mpds mpd_index set_index max_height stream_duration max_buffer current_url
      header_url head mpd base_url i j x h =
    let (segment, found, e) = bind-inv (get_next_segment mpd i j set_index) _ x h in
    length_answered-Fits (head (join_url current_url (base_url ++ segment))) x e

module _ (mpds : List Mpd) (mpd_index set_index max_height stream_duration : ℕ)
    (is_byte_range : Bool) (max_buffer : ℕ) (current_url header_url : Bytes)
    (head files : Bytes → Option Bytes) where
  abbrev asked_lengths : Mpd → Values → ℕ → ℕ → Run ℤ
  asked_lengths mpd v =
      length_of_segment mpds mpd_index set_index max_height stream_duration is_byte_range max_buffer
        current_url header_url head mpd v.base_url

  abbrev all_rates : Values → List ℕ
  all_rates v = rates_between v.highest_index v.lowest_index

  -- What the writer went through.
  record IsWritten (mpd : Mpd) (v : Values) (last : ℤ) (duration : ℕ) (d : Dictionary)
      (name text : Bytes) : Type 0 where
    named : header_file_name mpd is_byte_range header_url duration ≡ ok name
    widths : List ℤ
    heights : List ℤ
    wide : length widths ≡ length (all_rates v)
    high : length heights ≡ length (all_rates v)
    lines : Bytes
    looped :
        segment_loop (asked_lengths mpd v) (all_rates v) (up_to 1 last) no_lengths ≡ ok (d, lines)
    printed : text ≡ file_of widths heights lines

  size_lines-inv :
      (mpd : Mpd) (js : List ℕ) (sizes : Bytes)
      → size_lines mpd set_index js ≡ ok sizes
      → (ws : List ℤ) × (hs : List ℤ) × (length ws ≡ length js)
        × (length hs ≡ length js)
        × (sizes ≡ size_line ws ++ (10 ∷ (size_line hs ++ (10 ∷ []))))
  unfolding size_lines
  size_lines-inv mpd js sizes h =
      let (ws, widths, h1) = bind-inv (sizes_of (λ r. r.width) mpd set_index js) _ sizes h in
      let (hs, heights, e) = bind-inv (sizes_of (λ r. r.height) mpd set_index js) _ sizes h1 in
      (
        ws,
        hs,
        sizes_of-length (λ r. r.width) mpd set_index js ws widths,
        sizes_of-length (λ r. r.height) mpd set_index js hs heights,
        sym (ok_inj e),
      )

  abbrev printed_by : Mpd → Values → ℤ → ℕ → Run (Dictionary × Bytes × Bytes)
  printed_by mpd v last duration = do
    name ← header_file_name mpd is_byte_range header_url duration
    sizes ← size_lines mpd set_index (all_rates v)
    (d, lines) ← segment_loop (asked_lengths mpd v) (all_rates v) (up_to 1 last) no_lengths
    ok (d, name, sizes ++ lines)

  printed_by-IsWritten :
      (mpd : Mpd) (v : Values) (last : ℤ) (duration : ℕ) (d : Dictionary) (name text : Bytes)
      → printed_by mpd v last duration ≡ ok (d, name, text)
      → IsWritten mpd v last duration d name text
  printed_by-IsWritten mpd v last duration d name text h =
      let (name', named, h1) =
        bind-inv (header_file_name mpd is_byte_range header_url duration) _ (d, name, text) h in
      let (sizes, sized, h2) =
        bind-inv (size_lines mpd set_index (all_rates v)) _ (d, name, text) h1 in
      let ((d', lines), looped, e) =
        bind-inv (segment_loop (asked_lengths mpd v) (all_rates v) (up_to 1 last) no_lengths) _
          (d, name, text) h2 in
      let (ws, hs, wide, high, printed) = size_lines-inv mpd (all_rates v) sizes sized in
      subst (λ w. IsWritten mpd v last duration w.0 w.1 w.2) (ok_inj e)
        (record {
          named = named;
          widths = ws;
          heights = hs;
          wide = wide;
          high = high;
          lines = lines;
          looped = looped;
          printed = ap (λ t. t ++ lines) printed;
        })

  -- If getSegmentHeaders writes a file from the first segment on, all its lengths are `int`s and the file
  -- of that name has its text: then getNSegmentHeadersFromFile, called with the same arguments, returns
  -- the dictionary that was written, which is also what getSegmentHeaders returns without a file.
  pub header_file-read :
      (d : Dictionary) (name text : Bytes)
      → ((mpd : Mpd) (base_url : Bytes) (i j : ℕ) (x : ℤ)
          → length_of_segment mpds mpd_index set_index max_height stream_duration is_byte_range
              max_buffer current_url header_url head mpd base_url i j
            ≡ ok x
          → Fits x)
      → write_segment_headers mpds mpd_index set_index max_height stream_duration is_byte_range
          max_buffer current_url header_url head 1
        ≡ ok (d, name, text)
      → files name ≡ some text
      → (get_n_segment_headers_from_file mpds mpd_index set_index max_height stream_duration
            is_byte_range max_buffer current_url header_url files 1
          ≡ ok d)
        × (get_segment_headers mpds mpd_index set_index max_height stream_duration is_byte_range
              max_buffer current_url header_url head 1
            ≡ ok d)
  unfolding write_segment_headers get_n_segment_headers_from_file get_segment_headers size_lines
  header_file-read d name text fits h stored =
      let ((mpd, v, last, duration), valued, h1) =
        bind-inv
          (header_values mpds mpd_index set_index max_height stream_duration is_byte_range
            max_buffer current_url header_url)
          _ (d, name, text) h in
      let w : IsWritten mpd v last duration d name text =
        printed_by-IsWritten mpd v last duration d name text h1 in
      let stored' : files name ≡ some (file_of w.widths w.heights w.lines) =
        stored ∙ ap some w.printed in
      (
        rw (valued, w.named, stored')
            (file-read (asked_lengths mpd v) (all_rates v) w.widths w.heights (fits mpd v.base_url)
              w.wide w.high last d w.lines w.looped),
        rw (valued, w.looped) refl,
      )
