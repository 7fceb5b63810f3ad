-- ===== src/Xnc/Client.antt =====
-- xnc/client.go and `GetFile` of xnc/xnc.go. The frames that the QUIC stream delivers are a list, each
-- as long as the client asks for. Behind them the stream stays open, since the server never closes it.
use mathlib.Core.List.{flatten}
use rlnc_streaming.Base.{
  ℕ, ◌+◌, List, [], ◌∷◌, ◌++◌, map, Option, none, some, Bool, ◌==◌, if◌then◌else◌, length,
  replicate,
}
use rlnc_streaming.Run.{Run, Error, ok, err, panic, ◌>>=◌, load, store, slice}
use rlnc_streaming.Field.{Field}
use rlnc_streaming.Kodr.Data.{CodedPiece}
use rlnc_streaming.Kodr.Full.Decoder.{
  FullDecoder, new_full_decoder, is_decoded, add_piece, get_pieces,
}
use rlnc_streaming.Xnc.Sizes.{Sizes, piece_cnt, type_init, type_init_enc, type_end}
use rlnc_streaming.Xnc.Packet.{Xnc, decode_xnc_pkt, encode_init}
use rlnc_streaming.Xnc.Server.{Symbols}

-- The variables of the receive loop.
pub record ClientState (F : Type 0) : Type 0 where
  pub rfile : List F
  pub chunk : List F
  pub decoders : Option (List (FullDecoder F))

-- After a packet: the loop goes on, or it is left.
pub data Outcome (F : Type 0) : Type 0 where
  more : ClientState F → Outcome F
  done : ClientState F → Outcome F

abbrev pub start : {F : Type 0} → ClientState F
start = record { rfile = []; chunk = []; decoders = none }

-- The INIT packet of a request.
unfoldable pub init_packet : List ℕ → Bool → Run (List ℕ)
init_packet name encode = encode_init (record {
  kind = if encode then type_init_enc else type_init;
  len = length name;
  filename = name;
})

module _ {F : Type 0} where
  -- The decoders, which the first coded packet makes.
  unfoldable pub decoders_for : Sizes → ℕ → Option (List (FullDecoder F)) → List (FullDecoder F)
  decoders_for z num none = replicate num (new_full_decoder (piece_cnt z))
  decoders_for z num (some ds) = ds

  -- The bytes of a finished chunk go to the file; the loop is left after the last chunk.
  unfoldable pub finish_chunk : Xnc → List F → ClientState F → Run (Outcome F)
  finish_chunk x bytes s = do
    part ← slice 0 x.chunk_size bytes
    let s' : ClientState F = record s { rfile = s.rfile ++ part }
    if x.chunk_id + 1 == x.chunk_num then ok (done s') else ok (more s')

  -- What a round leaves: the file, if the loop is left, or the rounds that follow.
  unfoldable pub go_on : (ClientState F → Run (List F)) → Outcome F → Run (List F)
  go_on next (done s) = ok s.rfile
  go_on next (more s) = next s

  abbrev pub file_of : Outcome F → List F
  file_of (more s) = s.rfile
  file_of (done s) = s.rfile

module _ {F : Type 0} ⦃g : Field F⦄ where
  -- `GetFile`
  unfoldable pub get_file : FullDecoder F → Run (List F)
  get_file d = do pieces ← get_pieces d; ok (flatten pieces)

  -- What follows `AddPiece`, in the state `s` with the decoders `ds`.
  unfoldable pub after_add :
      Xnc → List (FullDecoder F) → ClientState F → Run (FullDecoder F) → Run (Outcome F)
  after_add x ds s panic = panic
  after_add x ds s (err Error.all_useful_pieces_received) = ok (more s)
  after_add x ds s (err e) = err e
  after_add x ds s (ok d) = do
    ds' ← store ds x.chunk_id d
    let s' : ClientState F = record s { decoders = some ds' }
    if is_decoded d then (do bytes ← get_file d; finish_chunk x bytes s') else ok (more s')

module _ {F : Type 0} ⦃g : Field F⦄ (b : Symbols F) (z : Sizes) where
  unfoldable pub on_coded : Xnc → ClientState F → Run (Outcome F)
  on_coded x s = do
    let ds = decoders_for z x.chunk_num s.decoders
    d ← load ds x.chunk_id
    let p : CodedPiece F = record { vector = map b.of_byte x.vector; piece = map b.of_byte x.piece }
    after_add x ds (record s { decoders = some ds }) (add_piece p d)

  unfoldable pub on_plain : Xnc → ClientState F → Run (Outcome F)
  on_plain x s =
      let chunk = s.chunk ++ map b.of_byte x.piece in
      if length chunk == z.chunk
      then finish_chunk x chunk (record s { chunk = [] })
      else ok (more (record s { chunk = chunk }))

  -- One round of the receive loop, for a frame.
  unfoldable pub on_frame : Bool → List ℕ → ClientState F → Run (Outcome F)
  on_frame encode bytes s = do
    x ← decode_xnc_pkt z bytes
    if x.kind == type_end then ok (done s) else if encode then on_coded x s else on_plain x s

  -- The receive loop. Without a further frame the client waits in `Read`, and tries again after every
  -- error of it.
  unfoldable pub receive : Bool → List (List ℕ) → ClientState F → Run (List F)
  receive encode [] s = err Error.never_returns
  receive encode (bytes ∷ frames) s = do
    o ← on_frame encode bytes s
    go_on (receive encode frames) o
