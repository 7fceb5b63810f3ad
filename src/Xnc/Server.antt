-- ===== src/Xnc/Server.antt =====
-- xnc/server.go and the packet constructors of xnc/xnc.go that it uses. The QUIC stream takes every
-- frame that is written to it: a frame is an entry of the list `frames`. A field symbol is a byte; the
-- packets hold bytes as numbers.
use rlnc_streaming.Base.{
  ℕ, zero, suc, ◌+◌, ◌-◌, ◌*◌, ◌^◌, ◌<◌, ◌≡◌, List, [], ◌∷◌, ◌++◌, map, Option, none, some, Bool,
  true, false, ◌==◌, if◌then◌else◌, length,
}
use rlnc_streaming.Run.{Run, ok, err, panic, ◌>>=◌, slice}
use rlnc_streaming.Field.{Field}
use rlnc_streaming.Kodr.Elimination.{range_from}
use rlnc_streaming.Kodr.Data.{CodedPiece}
use rlnc_streaming.Kodr.Full.Encoder.{new_full_encoder_with_piece_count}
use rlnc_streaming.Kodr.Full.Session.{coded_pieces}
use rlnc_streaming.Xnc.Sizes.{
  Sizes, piece_cnt, coded_piece_cnt, type_init_enc, type_xnc, type_xnc_enc,
}
use rlnc_streaming.Xnc.Packet.{XncInit, encode_xnc_pkt, encode_end, decode_init}
use rlnc_streaming.Xnc.Split.{split_file}

-- The symbols of the field as bytes.
pub record Symbols (F : Type 0) : Type 0 where
  pub to_byte : F → ℕ
  pub of_byte : ℕ → F
  pub of-to : (x : F) → of_byte (to_byte x) ≡ x
  pub byte : (x : F) → to_byte x < 256

-- `GetXNCPkt`
unfoldable pub get_xnc_pkt : Sizes → ℕ → ℕ → ℕ → List ℕ → Run (List ℕ)
get_xnc_pkt z size id num piece = encode_xnc_pkt z (record {
  kind = type_xnc;
  chunk_id = id;
  chunk_num = num;
  chunk_size = size;
  vector = [];
  piece = piece;
  ended = false;
})

-- What the server has written, and how it ended.
pub record Sent : Type 0 where
  pub frames : List (List ℕ)
  pub ended : Run Bool

-- The statement returned in the middle, or it went on to the next.
abbrev pub stopped : List (List ℕ) → Run Bool → Sent → Sent
stopped frames (ok b) rest = record rest { frames = frames ++ rest.frames }
stopped frames (err e) rest = record { frames = frames; ended = err e }
stopped frames panic rest = record { frames = frames; ended = panic }

infixr 4 ◌and_then◌
abbrev pub ◌and_then◌ : Sent → Sent → Sent
s and_then t = stopped s.frames s.ended t

abbrev pub nothing : Sent
nothing = record { frames = []; ended = ok true }

-- `stream.Write` of a packet, if its construction did not fail.
unfoldable pub write_packet : Run (List ℕ) → Sent
write_packet (ok frame) = record { frames = frame ∷ []; ended = ok true }
write_packet (err e) = record { frames = []; ended = err e }
write_packet panic = record { frames = []; ended = panic }

-- `len(chunks) - 1` as an unsigned 32-bit number.
abbrev pub end_id : ℕ → ℕ
end_id zero = 2 ^ 32 - 1
end_id (suc n) = n

unfoldable pub send_ends : Sizes → ℕ → Bool → ℕ → Sent
send_ends z zero encode num = nothing
send_ends z (suc n) encode num =
    write_packet (ok (encode_end z (end_id num) encode)) and_then send_ends z n encode num

module _ {F : Type 0} ⦃g : Field F⦄ (b : Symbols F) (z : Sizes) where
  -- `GetXNCEncPkt`
  unfoldable pub get_xnc_enc_pkt : ℕ → ℕ → ℕ → CodedPiece F → Run (List ℕ)
  get_xnc_enc_pkt size id num p = encode_xnc_pkt z (record {
    kind = type_xnc_enc;
    chunk_id = id;
    chunk_num = num;
    chunk_size = size;
    vector = map b.to_byte p.vector;
    piece = map b.to_byte p.piece;
    ended = false;
  })

  -- The loop over the coded pieces of a chunk.
  unfoldable pub send_coded : ℕ → ℕ → ℕ → List (CodedPiece F) → Sent
  send_coded size id num [] = nothing
  send_coded size id num (p ∷ ps) =
      write_packet (get_xnc_enc_pkt size id num p) and_then send_coded size id num ps

  -- The loop over the pieces of a chunk that is not encoded, for `n` pieces from `s` on.
  unfoldable pub send_plain : ℕ → ℕ → ℕ → ℕ → ℕ → List F → Sent
  send_plain size id num zero s chunk = nothing
  send_plain size id num (suc n) s chunk =
      write_packet (do
        piece ← slice (s * z.piece) ((s + 1) * z.piece) chunk
        get_xnc_pkt z size id num (map b.to_byte piece))
      and_then send_plain size id num n (suc s) chunk

  -- The coded pieces of a chunk, sent; a chunk that the encoder refuses ends the transfer.
  unfoldable pub send_pieces : ℕ → ℕ → ℕ → Run (List (CodedPiece F)) → Sent
  send_pieces size id num (ok ps) = send_coded size id num ps
  send_pieces size id num (err e) = record { frames = []; ended = err e }
  send_pieces size id num panic = record { frames = []; ended = panic }

  -- One round of the loop of `sendFile`. `rands` gives the random symbols of each coded piece.
  unfoldable pub send_chunk : Bool → (ℕ → ℕ → List F) → ℕ → ℕ → ℕ → List F → Sent
  send_chunk encode rands size id num chunk =
      if encode
      then send_pieces size id num (do
        e ← new_full_encoder_with_piece_count chunk (piece_cnt z)
        coded_pieces (map rands (range_from 0 (coded_piece_cnt z))) e)
      else send_plain size id num (piece_cnt z) 0 chunk

  -- The loop over the chunks, from chunk `i` of `num` on.
  unfoldable pub send_chunks : Bool → (ℕ → ℕ → ℕ → List F) → ℕ → ℕ → ℕ → List (List F) → Sent
  send_chunks encode rands total num i [] = nothing
  send_chunks encode rands total num i (chunk ∷ chunks) =
      let size = if i + 1 == num then total - z.chunk * (num - 1) else z.chunk in
      send_chunk encode (rands i) size i num chunk
      and_then send_chunks encode rands total num (suc i) chunks

  -- `sendFile`, of a file that could be read.
  unfoldable pub send_file : Bool → (ℕ → ℕ → ℕ → List F) → List F → Sent
  send_file encode rands bytes =
      let chunks = split_file g.zero bytes z.chunk in
      send_chunks encode rands (length bytes) (length chunks) 0 chunks
      and_then send_ends z 5 encode (length chunks)

  -- The file is opened; for one that is not there nothing is written, and the stream stays open.
  unfoldable pub send_named : Bool → (ℕ → ℕ → ℕ → List F) → Option (List F) → Sent
  send_named encode rands none = nothing
  send_named encode rands (some bytes) = send_file encode rands bytes

  -- The transfer that an INIT packet asks for; `files` finds a file by its name.
  unfoldable pub start_transfer :
      (ℕ → ℕ → ℕ → List F) → (List ℕ → Option (List F)) → Run XncInit → Sent
  start_transfer rands files (ok x) =
      if x.kind == type_init_enc
      then send_named true rands (files x.filename)
      else send_named false rands (files x.filename)
  start_transfer rands files (err e) = record { frames = []; ended = err e }
  start_transfer rands files panic = record { frames = []; ended = panic }

  -- The work of `handleSession` for one stream, whose first `INITSIZE` bytes are `bytes`.
  unfoldable pub handle_stream : (ℕ → ℕ → ℕ → List F) → (List ℕ → Option (List F)) → List ℕ → Sent
  handle_stream rands files bytes = start_transfer rands files (decode_init bytes)
