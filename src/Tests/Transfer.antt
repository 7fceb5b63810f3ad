-- ===== src/Tests/Transfer.antt =====
-- Whole files over the field of two elements, in chunks of two pieces of two symbols.
use rlnc_streaming.Base.{
  ℕ, zero, suc, ◌<◌, ◌≡◌, refl, arith, List, [], ◌∷◌, Option, some, none, Bool, true, false, ◌==◌,
  get_or, length, length-replicate,
}
use rlnc_streaming.Run.{ok}
use rlnc_streaming.Kodr.Elimination.{range_from}
use rlnc_streaming.Kodr.Full.Complete.{SpansRandom}
use rlnc_streaming.Xnc.Sizes.{IsSane}
use rlnc_streaming.Xnc.Server.{Symbols, send_file}
use rlnc_streaming.Xnc.Client.{receive, start}
use rlnc_streaming.Xnc.Transfer.{download}
use rlnc_streaming.Xnc.Transfer.Chunks.{kept_parts}
use rlnc_streaming.Xnc.Transfer.Files.{IsSmall, chunks_of}
use rlnc_streaming.Xnc.Transfer.CodedChunk.{sources, arrives}
use rlnc_streaming.Xnc.Transfer.CodedFiles.{coded_file_kept}
use rlnc_streaming.Xnc.Transfer.Download.{download_plain, download_coded}
use rlnc_streaming.Tests.Binary.{binary}
use rlnc_streaming.Tests.Coding.{alternate, length-alternate, ones}
use rlnc_streaming.Tests.Completion.{both_zero}
use rlnc_streaming.Tests.Packets.{small}

abbrev to_byte : Bool → ℕ
to_byte true = 1
to_byte false = 0

bit_bytes : (x : Bool) → (to_byte x == 1) ≡ x
bit_bytes true = refl
bit_bytes false = refl

bit_fits : (x : Bool) → to_byte x < 256
bit_fits true = omega arith
bit_fits false = omega arith

abbrev bits : Symbols Bool
bits = record { to_byte = to_byte; of_byte = λ n. n == 1; of-to = bit_bytes; byte = bit_fits }

small-IsSane : IsSane small
small-IsSane = record { whole = refl; two = omega arith; positive = omega arith }

-- Five symbols, in two chunks.
abbrev five : List Bool
five = true ∷ false ∷ true ∷ true ∷ false ∷ []

five-IsSmall : IsSmall small (length five)
five-IsSmall = record { total_fits = omega arith; chunk_fits = omega arith }

-- The coding vectors 11, 01 and 11 of each chunk.
abbrev rands : ℕ → ℕ → ℕ → List Bool
rands i (suc zero) = alternate false
rands i _ = ones

rands_fill : (i j k : ℕ) → length (rands i j k) ≡ k
rands_fill i zero k = length-replicate k true
rands_fill i (suc zero) k = length-alternate false k
rands_fill i (suc (suc j)) k = length-replicate k true

rands_span : (i : ℕ) → SpansRandom small.vector (sources small (rands i))
unfolding alternate range_from
rands_span i y (h1, (h2, _)) = both_zero y h1 h2

abbrev named : List ℕ → Option (List Bool)
named [] = none
named (c ∷ cs) = some five

-- Coding vectors that do not span: nothing of the file is kept.
abbrev weak : ℕ → ℕ → ℕ → List Bool
weak i j = ones

coded_file_kept_example :
    (receive bits small true (send_file bits small true weak five).frames start
      ≡ ok (
          kept_parts small
            (λ i.
              arrives small (weak i) (get_or (chunks_of small small-IsSane five five-IsSmall) i []))
            5
            (length (chunks_of small small-IsSane five five-IsSmall))
            0
            (chunks_of small small-IsSane five five-IsSmall)))
    × ((send_file bits small true weak five).ended ≡ ok true)
coded_file_kept_example =
    coded_file_kept bits small small-IsSane five five-IsSmall weak
      (λ i j k. length-replicate k true)

download_plain_example : download bits small false rands named (97 ∷ []) ≡ ok five
download_plain_example =
    download_plain bits small rands named (97 ∷ []) five small-IsSane (omega arith) refl
      five-IsSmall

download_coded_example : download bits small true rands named (97 ∷ []) ≡ ok five
download_coded_example =
    download_coded bits small rands named (97 ∷ []) five small-IsSane (omega arith) refl
      five-IsSmall rands_fill (λ i h. rands_span i)
