-- ===== src/Xnc/Packet/End.antt =====
-- The END packet of xnc/xnc.go, as it is written and read back.
use rlnc_streaming.Base.{
  ℕ, ◌%◌, ◌^◌, ◌≡◌, ap, List, Bool, true, false, length, replicate, arith, length-drop,
  length-replicate, ==_eq, and_false, not, ◌==◌,
}
use rlnc_streaming.Run.{ok, load, slice-ok}
use rlnc_streaming.Xnc.Sizes.{Sizes, frame_size, frame_size_enc}
use rlnc_streaming.Xnc.Packet.{decode_xnc_pkt, encode_end, decode_end, frame, end_packet}

abbrev zeros : ℕ → List ℕ
zeros n = replicate n 0

length-encode_end :
    (z : Sizes) (id : ℕ) (encode : Bool) → length (encode_end z id encode) ≡ frame z encode
unfolding encode_end
length-encode_end z id true =
    omega (
      arith,
      length-drop 5 (zeros (frame_size_enc z)),
      length-replicate {A = ℕ} (frame_size_enc z) 0,
    )
length-encode_end z id false =
    omega (arith, length-drop 5 (zeros (frame_size z)), length-replicate {A = ℕ} (frame_size z) 0)

decode_xnc_pkt-encode_end :
    (z : Sizes) (id : ℕ) (encode : Bool) → decode_xnc_pkt z (encode_end z id encode) ≡ ok end_packet
unfolding decode_xnc_pkt encode_end load
decode_xnc_pkt-encode_end z id true =
    rw (==_eq (length (encode_end z id true)) (frame_size_enc z) (length-encode_end z id true))
decode_xnc_pkt-encode_end z id false = rw (
  ==_eq (length (encode_end z id false)) (frame_size z) (length-encode_end z id false),
  and_false (not (length (encode_end z id false) == frame_size_enc z)),
)

decode_end-encode_end :
    (z : Sizes) (id : ℕ) (encode : Bool)
    → decode_end z (encode_end z id encode) encode ≡ ok (id % 2 ^ 32)
unfolding decode_end encode_end load
decode_end-encode_end z id encode =
    rw
      (
        ==_eq (length (encode_end z id encode)) (frame z encode) (length-encode_end z id encode),
        slice-ok 1 5 (encode_end z id encode) (omega arith) (omega arith),
      )
      (ap ok (omega arith))

-- `DecodeXNCPkt` returns the END packet for what `EncodeEND` writes, and `DecodeEND` with the same
-- choice of the frame returns its number modulo 2^32.
pub decode-encode_end :
    (z : Sizes) (id : ℕ) (encode : Bool)
    → (decode_xnc_pkt z (encode_end z id encode) ≡ ok end_packet)
      × (decode_end z (encode_end z id encode) encode ≡ ok (id % 2 ^ 32))
decode-encode_end z id encode =
    (decode_xnc_pkt-encode_end z id encode, decode_end-encode_end z id encode)
