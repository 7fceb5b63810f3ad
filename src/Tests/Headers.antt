-- ===== src/Tests/Headers.antt =====
-- The file of the sizes of the segments of godash/http/mpdParsing.go, for a small MPD file.
use rlnc_streaming.Base.{◌*◌, ◌≡◌, refl, [], ◌∷◌, ◌++◌, false, Option, some, length}
use rlnc_streaming.Run.{divide, ok, load}
use rlnc_streaming.Godash.Int.{pos}
use rlnc_streaming.Godash.Text.{
  trim_space, Bytes, codes, itoa, digits, atoi, scan, contains, starts_with, replace_all, split,
  trim_left, trim_right,
}
use rlnc_streaming.Godash.Csv.{cells, spaces}
use rlnc_streaming.Godash.Mpd.Values.{
  get_mpd_values, checked_rates, max_stream_duration_of, get_segment_details,
}
use rlnc_streaming.Godash.Mpd.Addresses.{get_next_segment, media_of, join_url, path_base}
use rlnc_streaming.Godash.Mpd.Duration.{split_mpd_segment_duration}
use rlnc_streaming.Godash.Mpd.Codec.{
  same_text, get_codec, codec_loop, codec_name, find_in_string_array,
}
use rlnc_streaming.Godash.Mpd.Headers.{
  Dictionary, append_to, no_lengths, numbers, write_segment_headers, header_values,
  header_file_name, length_of_segment, size_lines, segment_loop, rate_loop_headers,
  get_content_length_header, length_answered, last_but_one,
}
use rlnc_streaming.Godash.Mpd.Headers.RoundTrip.{length_of_segment-Fits}
use rlnc_streaming.Godash.Mpd.Headers.Each.{
  header_files-read, write_all_segment_headers, get_all_segment_headers, get_n_segment_headers,
  each_mpd, codec_set,
}
use rlnc_streaming.Tests.Manifest.{manifest}

-- The answer for an address is 1000 for each of its bytes.
abbrev answers : Bytes → Option Bytes
answers url = some (itoa (length url * 1000))

abbrev lengths : Dictionary
lengths =
    append_to
      (append_to (append_to (append_to no_lengths 1 (pos 15000)) 2 (pos 15000)) 1 (pos 15000)) 2
      (pos 15000)

-- The widths, the heights, and the lengths of two segments.
abbrev file : Bytes
file =
    codes "       ,     640,        640\n"
    ++ (codes "       ,     720,        360\n"
        ++ (codes "   1,      15000,      15000    \n"
            ++ codes "   2,      15000,      15000    \n"))

abbrev file_name : Bytes
file_name = codes "./logs/4sec_movie_isoff-live.csv"

header_files-read_example :
    (get_n_segment_headers
        (manifest ∷ [])
        720
        8000
        false
        30
        (codes "movie.mpd")
        (codes "h264")
        (codes " http://h/movie.mpd" ∷ [])
        answers
        (λ name. some file)
        1
      ≡ ok (lengths ∷ []))
    × (get_all_segment_headers
          (manifest ∷ [])
          720
          8000
          false
          30
          (codes "movie.mpd")
          (codes "h264")
          (codes " http://h/movie.mpd" ∷ [])
          answers
          (λ name. some file)
          1
        ≡ ok (lengths ∷ []))
unfolding write_all_segment_headers each_mpd codec_set get_codec codec_loop codec_name
    find_in_string_array trim_space write_segment_headers same_text header_values header_file_name
    length_of_segment size_lines segment_loop rate_loop_headers get_content_length_header
    length_answered last_but_one get_next_segment media_of join_url path_base get_mpd_values
    max_stream_duration_of get_segment_details checked_rates load numbers cells spaces
    split_mpd_segment_duration replace_all contains starts_with split atoi scan divide itoa digits
    trim_left trim_right
header_files-read_example =
    header_files-read (manifest ∷ []) 720 8000 false 30 (codes "movie.mpd") (codes "h264")
      (codes " http://h/movie.mpd" ∷ []) answers (λ name. some file)
      ((lengths, file_name, file) ∷ [])
      (λ i k url.
        length_of_segment-Fits (manifest ∷ []) i k 720 8000 30 url (codes "movie.mpd") answers)
      refl (refl, tt)
