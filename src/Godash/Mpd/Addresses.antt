-- ===== src/Godash/Mpd/Addresses.antt =====
-- The addresses of godash/http/mpdParsing.go and godash/http/urlParsing.go: those of the MPD files, of
-- the headers and of the segments, and their byte ranges.
pub mod Printed
use rlnc_streaming.Base.{
  ℕ, zero, suc, ◌+◌, ◌-◌, List, [], ◌∷◌, ◌++◌, map, Bool, true, false, ◌==◌, ltb, length,
  if◌then◌else◌,
}
use rlnc_streaming.Run.{Run, ok, err, panic, app_stopped, ◌>>=◌, load}
use rlnc_streaming.Godash.Int.{ℤ}
use rlnc_streaming.Godash.Text.{
  Bytes, codes, contains, replace_all, split, trim_left, trim_right, trim_space, itoa,
}
use rlnc_streaming.Godash.Mpd.{
  SegmentTemplate, SegmentList, Representation, AdaptationSet, Mpd, adaptation_set_of,
  representation_of,
}
use rlnc_streaming.Godash.Mpd.Duration.{atoi_or_stop}
use rlnc_streaming.Godash.Mpd.Codec.{same_text}

-- URLList
unfoldable pub url_list : Bytes → List Bytes
url_list urls = split b',' (trim_left (λ c. c == b'[') (trim_right (λ c. c == b']') urls))

-- The addresses that ReadURLArray asks for; with more than one the program stops.
unfoldable pub requested_urls : Bytes → Run (List Bytes)
unfolding url_list
requested_urls args =
    if ltb 1 (length (url_list args)) then err app_stopped else ok (map trim_space (url_list args))

-- recupURLsFromConfig of godash/logging/configParsing.go
unfoldable pub urls_from_config : Bytes → List Bytes
urls_from_config url =
    map trim_space (split b',' (trim_right (λ c. c == b']') (trim_left (λ c. c == b'[') url)))

-- splitByteRange
unfoldable pub split_byte_range : Bytes → Run (ℤ × ℤ)
split_byte_range byte_range = do
  first ← load (split b'-' byte_range) 0
  start ← atoi_or_stop first
  second ← load (split b'-' byte_range) 1
  end ← atoi_or_stop second
  ok (start, end)

-- `xs[number-1]`
abbrev pub load_before : List Bytes → ℕ → Run Bytes
load_before xs zero = panic
load_before xs (suc i) = load xs i

-- GetNextByteRangeURL
unfoldable pub get_next_byte_range_url : Mpd → ℕ → ℕ → ℕ → Run (Bytes × ℤ × ℤ)
unfolding split_byte_range
get_next_byte_range_url mpd number quality set_index = do
  r ← representation_of mpd set_index quality
  media_range ← load_before r.segment_list.media_ranges number
  (start, end) ← split_byte_range media_range
  ok (r.base_url, start, end)

-- The template of the addresses of the segments, which for audio is that of the adaptation set.
unfoldable pub media_of : AdaptationSet → Representation → Run Bytes
media_of set r =
    if same_text r.mime_type (codes "video/mp4")
    then ok r.segment_template.media
    else (do template ← load set.segment_template 0; ok template.media)

-- GetNextSegment
unfoldable pub get_next_segment : Mpd → ℕ → ℕ → ℕ → Run Bytes
unfolding media_of
get_next_segment mpd number quality set_index = do
  set ← adaptation_set_of mpd set_index
  r ← load set.representation quality
  media ← media_of set r
  ok (replace_all (codes "$Number$") (itoa number) media)

-- GetFullStreamHeader
unfoldable pub get_full_stream_header : Mpd → Bool → ℕ → Bool → ℕ → Run Bytes
get_full_stream_header mpd is_byte_range set_index audio_byte_range quality = do
  set ← adaptation_set_of mpd set_index
  (if audio_byte_range
      then (do r ← load set.representation quality; ok r.base_url)
      else if is_byte_range
      then ok set.segment_list.source_url
      else (do template ← load set.segment_template 0; ok template.initialization))

-- GetRepresentationBaseURL
unfoldable pub get_representation_base_url : Mpd → ℕ → Run Bytes
get_representation_base_url mpd set_index = do r ← representation_of mpd set_index 0; ok r.base_url

-- The last of the parts of a split.
abbrev pub last_part : List Bytes → Bytes
last_part [] = []
last_part (p ∷ []) = p
last_part (p ∷ q ∷ ps) = last_part (q ∷ ps)

abbrev pub or_root : Bytes → Bytes
or_root [] = codes "/"
or_root (c ∷ s) = c ∷ s

-- `path.Base`
unfoldable pub path_base : Bytes → Bytes
path_base [] = codes "."
path_base (c ∷ s) = or_root (last_part (split b'/' (trim_right (λ b. b == b'/') (c ∷ s))))

-- JoinURL
unfoldable pub join_url : Bytes → Bytes → Bytes
unfolding path_base
join_url base_url append =
    if contains (codes "http") append
    then append
    else replace_all (path_base base_url) append base_url
