-- ===== src/Godash/Mpd/Headers/Each.antt =====
-- GetAllSegmentHeaders and GetNSegmentHeaders of godash/http/mpdParsing.go: the sizes of the segments of
-- all MPD files. Their maps are lists here, by the index of the MPD file.
use rlnc_streaming.Base.{
  ℕ, zero, suc, ◌≡◌, ap, sym, subst, List, [], ◌∷◌, map, Bool, length, Option, some, none,
}
use rlnc_streaming.Run.{Run, ok, err, panic, app_stopped, ◌>>=◌, load, bind-inv, ok_inj}
use rlnc_streaming.Godash.Int.{ℤ, pos, negsuc}
use rlnc_streaming.Godash.Text.{Bytes, trim_space}
use rlnc_streaming.Godash.Text.Cuts.{All}
use rlnc_streaming.Godash.Csv.Cells.{Fits}
use rlnc_streaming.Godash.Mpd.{Mpd}
use rlnc_streaming.Godash.Mpd.Codec.{get_codec, find_in_string_array}
use rlnc_streaming.Godash.Mpd.Headers.{
  Dictionary, length_of_segment, write_segment_headers, get_segment_headers,
  get_n_segment_headers_from_file,
}
use rlnc_streaming.Godash.Mpd.Headers.RoundTrip.{header_file-read}

-- An index for a slice, a panic if it is negative.
abbrev pub slice_index : ℤ → Run ℕ
slice_index (pos k) = ok k
slice_index (negsuc k) = panic

-- The adaptation set of a codec in the MPD file `i`; a codec that it lacks stops the program.
unfoldable pub codec_set : List Mpd → Bytes → ℕ → Run ℕ
codec_set mpds codec i = do
  codecs ← get_codec mpds codec
  c ← load codecs i
  elim (find_in_string_array c.names codec) [
    | none ↦ err app_stopped
    | some at ↦ (do index ← load c.indexes at; slice_index index)
  ]

-- The loop over `n` MPD files from `i` on, where `one` takes the index of the file, that of its
-- adaptation set and its address.
unfoldable pub each_mpd {ℓ} :
    {V : Type ℓ} → (ℕ → ℕ → Bytes → Run V) → List Mpd → Bytes → List Bytes → ℕ → ℕ → Run (List V)
unfolding codec_set
each_mpd one mpds codec url_input i zero = ok []
each_mpd one mpds codec url_input i (suc n) = do
  set_index ← codec_set mpds codec i
  url ← load url_input i
  v ← one i set_index (trim_space url)
  vs ← each_mpd one mpds codec url_input (suc i) n
  ok (v ∷ vs)

each_mpd-related {ℓ κ} :
    {V : Type ℓ} {W : Type κ} (P : V → Type 0) (f : V → W) (one : ℕ → ℕ → Bytes → Run V)
    (other : ℕ → ℕ → Bytes → Run W) (mpds : List Mpd) (codec : Bytes) (url_input : List Bytes)
    → ((i k : ℕ) (url : Bytes) (v : V) → one i k url ≡ ok v → P v → other i k url ≡ ok (f v))
    → (i n : ℕ) (vs : List V) → each_mpd one mpds codec url_input i n ≡ ok vs
    → All P vs
    → each_mpd other mpds codec url_input i n ≡ ok (map f vs)
unfolding each_mpd
each_mpd-related P f one other mpds codec url_input same i zero vs h all =
    ap (λ us. ok (map f us)) (ok_inj h)
each_mpd-related P f one other mpds codec url_input same i (suc n) vs h all =
    let (k, chosen, h1) = bind-inv (codec_set mpds codec i) _ vs h in
    let (url, found, h2) = bind-inv (load url_input i) _ vs h1 in
    let (v, first, h3) = bind-inv (one i k (trim_space url)) _ vs h2 in
    let (us, rest, e) = bind-inv (each_mpd one mpds codec url_input (suc i) n) _ vs h3 in
    let (p, ps) = subst (All P) (sym (ok_inj e)) all in
    rw
      (
        chosen,
        found,
        same i k (trim_space url) v first p,
        each_mpd-related P f one other mpds codec url_input same (suc i) n us rest ps,
      )
      (ap (λ us. ok (map f us)) (ok_inj e))

module _ (mpds : List Mpd) (max_height stream_duration : ℕ) (is_byte_range : Bool) (max_buffer : ℕ)
    (header_url codec : Bytes) (url_input : List Bytes) (head files : Bytes → Option Bytes) where
  -- GetAllSegmentHeaders with `printToFile`
  unfoldable pub write_all_segment_headers : ℕ → Run (List (Dictionary × Bytes × Bytes))
  unfolding each_mpd
  write_all_segment_headers segment_number =
      each_mpd
        (λ i k url.
          write_segment_headers mpds i k max_height stream_duration is_byte_range max_buffer url
            header_url head segment_number)
        mpds codec url_input 0 (length mpds)

  -- GetAllSegmentHeaders without `printToFile`
  unfoldable pub get_all_segment_headers : ℕ → Run (List Dictionary)
  unfolding each_mpd
  get_all_segment_headers segment_number =
      each_mpd
        (λ i k url.
          get_segment_headers mpds i k max_height stream_duration is_byte_range max_buffer url
            header_url head segment_number)
        mpds codec url_input 0 (length mpds)

  -- GetNSegmentHeaders with `useHeaderFile`
  unfoldable pub get_n_segment_headers : ℕ → Run (List Dictionary)
  unfolding each_mpd
  get_n_segment_headers segment_number =
      each_mpd
        (λ i k url.
          get_n_segment_headers_from_file mpds i k max_height stream_duration is_byte_range
            max_buffer url header_url files segment_number)
        mpds codec url_input 0 (length mpds)

  -- If GetAllSegmentHeaders writes files from the first segment on, all the lengths are `int`s and each
  -- file that it wrote has its text: then GetNSegmentHeaders, called with the same arguments, returns the
  -- dictionaries of all MPD files that were written, and so does GetAllSegmentHeaders without files.
  pub header_files-read :
      (written : List (Dictionary × Bytes × Bytes))
      → ((i k : ℕ) (url : Bytes) (mpd : Mpd) (base_url : Bytes) (number rate : ℕ) (x : ℤ)
          → length_of_segment mpds i k max_height stream_duration is_byte_range max_buffer url
              header_url head mpd base_url number rate
            ≡ ok x
          → Fits x)
      → write_all_segment_headers 1 ≡ ok written
      → All (λ v. files v.1 ≡ some v.2) written
      → (get_n_segment_headers 1 ≡ ok (map (λ v. v.0) written))
        × (get_all_segment_headers 1 ≡ ok (map (λ v. v.0) written))
  unfolding write_all_segment_headers get_n_segment_headers get_all_segment_headers
  header_files-read written fits h stored = (
    each_mpd-related _ (λ v. v.0) _ _ mpds codec url_input
        (λ i k url v e p.
          (header_file-read mpds i k max_height stream_duration is_byte_range max_buffer url
            header_url head files v.0 v.1 v.2 (fits i k url) e p).0)
        0 (length mpds) written h stored,
    each_mpd-related _ (λ v. v.0) _ _ mpds codec url_input
        (λ i k url v e p.
          (header_file-read mpds i k max_height stream_duration is_byte_range max_buffer url
            header_url head files v.0 v.1 v.2 (fits i k url) e p).1)
        0 (length mpds) written h stored,
  )
