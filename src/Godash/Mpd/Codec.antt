-- ===== src/Godash/Mpd/Codec.antt =====
-- GetCodec of godash/http/mpdParsing.go, FindInStringArray of godash/utils/appFunctions.go, and the
-- adaptation sets that `Stream` of godash/player/player.go takes.
pub mod Chosen
use rlnc_streaming.Base.{
  ℕ, zero, suc, ◌+◌, List, [], ◌∷◌, map, Bool, true, false, ◌&&◌, ◌||◌, ◌==◌, length, Option, some,
  none, if◌then◌else◌,
}
use rlnc_streaming.Run.{Run, ok, err, app_stopped, ◌>>=◌, load}
use rlnc_streaming.Godash.Int.{ℤ, pos, negsuc}
use rlnc_streaming.Godash.Text.{Bytes, codes, contains}
use rlnc_streaming.Godash.Mpd.{Representation, AdaptationSet, Period, Mpd}

-- `s == t` for texts
unfoldable pub same_text : Bytes → Bytes → Bool
same_text [] [] = true
same_text (c ∷ s) (d ∷ t) = (c == d) && same_text s t
same_text _ _ = false

-- RepRateCodecAudio
abbrev pub audio : Bytes
audio = codes "audio/mp4"

-- The name of a codec of an MPD file.
unfoldable pub codec_name : Bytes → Bytes
codec_name codec =
    if contains (codes "avc") codec
    then codes "h264"
    else if contains (codes "hev") codec
    then codes "h265"
    else if contains (codes "hvc1") codec
    then codes "h265"
    else if contains (codes "vp") codec
    then codes "VP9"
    else if contains (codes "av1") codec
    then codes "AV1"
    else if contains (codes "mp4a") codec
    then audio
    else if contains (codes "ac-3") codec
    then audio
    else codes "Unknown"

-- The names and the indexes of one MPD file, and whether it has audio; GetCodec returns whether any has.
pub record Codecs : Type 0 where
  pub names : List Bytes
  pub indexes : List ℤ
  pub has_audio : Bool

-- The index is kept for the codec that is asked for and for audio.
abbrev pub is_kept : Bytes → Bytes → Bool
is_kept codec name = same_text name codec || same_text name audio

-- The inner loop of GetCodec from the adaptation set `j` on, before what the later rounds append.
unfoldable pub codec_loop : Bytes → ℕ → List AdaptationSet → Run Codecs
unfolding codec_name
codec_loop codec j [] = ok (record { names = []; indexes = []; has_audio = false })
codec_loop codec j (set ∷ sets) = do
  r ← load set.representation 0
  let name = codec_name r.codecs
  later ← codec_loop codec (suc j) sets
  ok (record {
    names = name ∷ later.names;
    indexes = (if is_kept codec name then pos j else negsuc 0) ∷ later.indexes;
    has_audio = same_text name audio || later.has_audio;
  })

-- GetCodec
unfoldable pub get_codec : List Mpd → Bytes → Run (List Codecs)
unfolding codec_loop
get_codec [] codec = ok []
get_codec (mpd ∷ mpds) codec = do
  period ← load mpd.periods 0
  codecs ← codec_loop codec 0 period.adaptation_set
  later ← get_codec mpds codec
  ok (codecs ∷ later)

-- `audioContent`
unfoldable audio_content : List Codecs → Bool
audio_content [] = false
audio_content (c ∷ codecs) = c.has_audio || audio_content codecs

abbrev pub later_index : Option ℕ → Option ℕ
later_index none = none
later_index (some i) = some (suc i)

-- FindInStringArray, where `none` is false with -1
unfoldable pub find_in_string_array : List Bytes → Bytes → Option ℕ
find_in_string_array [] item = none
find_in_string_array (value ∷ array) item =
    let later = later_index (find_in_string_array array item) in
    if same_text item value then some 0 else later

-- The adaptation sets whose index is not -1, in their order, from the first index on.
unfoldable pub kept_from : ℕ → List ℤ → List ℕ
kept_from i [] = []
kept_from i (pos j ∷ indexes) = i ∷ kept_from (suc i) indexes
kept_from i (negsuc j ∷ indexes) = kept_from (suc i) indexes

-- The first name is audio, and there is no other.
abbrev pub is_audio_only : List Bytes → Bool
is_audio_only (name ∷ []) = same_text name audio
is_audio_only _ = false

-- `mimeTypes` of `Stream`, which stops the program if the first MPD file lacks the codec.
unfoldable pub mime_types : List Mpd → Bytes → Run (List ℕ)
unfolding get_codec find_in_string_array kept_from
mime_types mpds codec = do
  codecs ← get_codec mpds codec
  first ← load codecs 0
  name ← load first.names 0
  (if is_audio_only first.names
      then ok (kept_from 0 first.indexes)
      else elim (find_in_string_array first.names codec) [
        | none ↦ err app_stopped
        | some i ↦ ok (kept_from 0 first.indexes)
      ])
