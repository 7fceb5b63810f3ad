-- ===== src/Xnc/Packet.antt =====
-- xnc/xnc.go: the packets. A byte of a packet is a number below 256; numbers in a header are the source's
-- `int`s, taken modulo 2^32 when they are written.
pub mod Layout
pub mod RoundTrip
pub mod End
pub mod Init
use rlnc_streaming.Base.{
  ℕ, zero, suc, ◌+◌, ◌-◌, ◌*◌, ◌/◌, ◌%◌, ◌^◌, List, [], ◌∷◌, ◌++◌, Bool, true, false, ◌&&◌, ◌||◌,
  not, ◌==◌, if◌then◌else◌, length, take, drop, replicate, set,
}
use rlnc_streaming.Run.{
  Run, ok, err, ◌>>=◌, load, store, slice, bad_packet_type, bad_packet_size, unknown_packet_type,
}
use rlnc_streaming.Xnc.Sizes.{
  Sizes, frame_size, frame_size_enc, init_size, type_init, type_init_enc, type_xnc, type_xnc_enc,
  type_end,
}

-- `binary.BigEndian.PutUint32(_, uint32(n))`
abbrev pub put_uint32 : ℕ → List ℕ
put_uint32 n = (n / 2 ^ 24 % 256) ∷ (n / 2 ^ 16 % 256) ∷ (n / 2 ^ 8 % 256) ∷ (n % 256) ∷ []

-- `binary.BigEndian.Uint32`; fewer than four bytes panic.
abbrev pub get_uint32 : List ℕ → Run ℕ
get_uint32 (a ∷ b ∷ c ∷ d ∷ rest) = ok (a * 2 ^ 24 + b * 2 ^ 16 + c * 2 ^ 8 + d)
get_uint32 _ = Run.panic

-- `XNC`
pub record Xnc : Type 0 where
  pub kind : ℕ
  pub chunk_id : ℕ
  pub chunk_num : ℕ
  pub chunk_size : ℕ
  pub vector : List ℕ
  pub piece : List ℕ
  pub ended : Bool

-- `XNC_INIT`
pub record XncInit : Type 0 where
  pub kind : ℕ
  pub len : ℕ
  pub filename : List ℕ

-- `XNC_INFO`
pub record XncInfo : Type 0 where
  pub kind : ℕ
  pub chunk_num : ℕ
  pub file_size : ℕ

-- `EncodeInfo`
unfoldable pub encode_info : XncInfo → List ℕ
encode_info x = x.kind ∷ (put_uint32 x.chunk_num ++ put_uint32 x.file_size)

-- `EncodeXNCPkt`
unfoldable pub encode_xnc_pkt : Sizes → Xnc → Run (List ℕ)
encode_xnc_pkt z x =
    let header =
      x.kind ∷ (put_uint32 x.chunk_id ++ put_uint32 x.chunk_size ++ put_uint32 x.chunk_num) in
    if x.kind == type_xnc_enc
      && (not (length x.vector == z.vector) || not (length x.piece == z.piece))
    then err bad_packet_size
    else if x.kind == type_xnc && not (length x.piece == z.piece)
    then err bad_packet_size
    else if x.kind == type_xnc_enc
    then ok (header ++ take z.vector x.vector ++ take z.piece x.piece)
    else if x.kind == type_xnc
    then ok (header ++ take z.piece x.piece)
    else ok header

-- The fields of a packet that is not an END packet.
unfoldable pub decode_body : Sizes → ℕ → List ℕ → Run Xnc
decode_body z kind bytes = do
  id_bytes ← slice 1 5 bytes
  id ← get_uint32 id_bytes
  size_bytes ← slice 5 9 bytes
  size ← get_uint32 size_bytes
  num_bytes ← slice 9 13 bytes
  num ← get_uint32 num_bytes
  let x : Xnc = record {
    kind = kind;
    chunk_id = id;
    chunk_num = num;
    chunk_size = size;
    vector = [];
    piece = [];
    ended = false;
  }
  if kind == type_xnc_enc
      then (do
        v ← slice 13 (13 + z.vector) bytes
        p ← slice (13 + z.vector) (13 + z.vector + z.piece) bytes
        ok (record x { vector = v; piece = p }))
      else if kind == type_xnc
      then (do p ← slice 13 (length bytes) bytes; ok (record x { piece = p }))
      else err unknown_packet_type

-- The packet that `DecodeXNCPkt` returns for an END packet: the type alone.
abbrev pub end_packet : Xnc
end_packet = record {
  kind = type_end;
  chunk_id = 0;
  chunk_num = 0;
  chunk_size = 0;
  vector = [];
  piece = [];
  ended = false;
}

-- `DecodeXNCPkt`
unfoldable pub decode_xnc_pkt : Sizes → List ℕ → Run Xnc
decode_xnc_pkt z bytes =
    if not (length bytes == frame_size_enc z) && not (length bytes == frame_size z)
    then err bad_packet_size
    else do
      kind ← load bytes 0
      if kind == type_end then ok end_packet else decode_body z kind bytes

-- The frame size that both ends use for a transfer.
abbrev pub frame : Sizes → Bool → ℕ
frame z encode = if encode then frame_size_enc z else frame_size z

-- `EncodeEND`: the rest of the frame is zero.
unfoldable pub encode_end : Sizes → ℕ → Bool → List ℕ
encode_end z id encode = type_end ∷ (put_uint32 id ++ drop 5 (replicate (frame z encode) 0))

-- `DecodeEND`
unfoldable pub decode_end : Sizes → List ℕ → Bool → Run ℕ
decode_end z bytes encode = if not (length bytes == frame z encode) then err bad_packet_size else do
  kind ← load bytes 0
  if not (kind == type_end) then err bad_packet_type else do id ← slice 1 5 bytes; get_uint32 id

-- The loop of `EncodeInit` that writes `n` bytes of the name from index `i` on.
unfoldable pub write_name : ℕ → ℕ → List ℕ → List ℕ → Run (List ℕ)
write_name zero i name pkt = ok pkt
write_name (suc n) i name pkt = do
  b ← load name i
  pkt' ← store pkt (5 + i) b
  write_name n (suc i) name pkt'

-- `EncodeInit`
unfoldable pub encode_init : XncInit → Run (List ℕ)
encode_init x =
    write_name x.len 0 x.filename (x.kind ∷ (put_uint32 x.len ++ replicate (init_size - 5) 0))

-- `DecodeInit`
unfoldable pub decode_init : List ℕ → Run XncInit
decode_init bytes = do
  kind ← load bytes 0
  if not (kind == type_init_enc) && not (kind == type_init) then err bad_packet_type else do
    len_bytes ← slice 1 5 bytes
    len ← get_uint32 len_bytes
    name ← slice 5 (5 + len) bytes
    ok (record { kind = kind; len = len; filename = name })
