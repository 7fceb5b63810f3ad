-- ===== src/Tests/Packets.antt =====
-- The packets of xnc/xnc.go, with chunks of four bytes in two pieces, and the splitting of xnc/utils.go.
use rlnc_streaming.Base.{inr, ℕ, ◌≡◌, refl, inl, arith, [], ◌∷◌, false}
use rlnc_streaming.Run.{ok, err, ◌>>=◌, bad_packet_size}
use rlnc_streaming.Xnc.Sizes.{Sizes, type_xnc_enc}
use rlnc_streaming.Xnc.Packet.{Xnc, encode_xnc_pkt, decode_xnc_pkt}
use rlnc_streaming.Xnc.Split.{split_file, split_from, pad_chunk}
use rlnc_streaming.Xnc.Packet.{XncInit, encode_init, decode_init}
use rlnc_streaming.Xnc.Packet.Init.{decode-encode_init}
use rlnc_streaming.Xnc.Packet.RoundTrip.{decode-encode_xnc_pkt}

abbrev pub small : Sizes
small = record { chunk = 4; vector = 2; piece = 2 }

abbrev coded_packet : Xnc
coded_packet = record {
  kind = type_xnc_enc;
  chunk_id = 258;
  chunk_num = 3;
  chunk_size = 4;
  vector = 1 ∷ 7 ∷ [];
  piece = 200 ∷ 9 ∷ [];
  ended = false;
}

abbrev short_packet : Xnc
short_packet = record coded_packet { vector = 1 ∷ [] }

encoded_run :
    encode_xnc_pkt small coded_packet
    ≡ ok (5 ∷ 0 ∷ 0 ∷ 1 ∷ 2 ∷ 0 ∷ 0 ∷ 0 ∷ 4 ∷ 0 ∷ 0 ∷ 0 ∷ 3 ∷ 1 ∷ 7 ∷ 200 ∷ 9 ∷ [])
unfolding encode_xnc_pkt
encoded_run = refl

short_run : encode_xnc_pkt small short_packet ≡ err bad_packet_size
unfolding encode_xnc_pkt
short_run = refl

decode-encode_xnc_pkt_example :
    (encode_xnc_pkt small coded_packet >>= decode_xnc_pkt small) ≡ ok coded_packet
decode-encode_xnc_pkt_example =
    decode-encode_xnc_pkt small coded_packet
      (record {
        id_fits = omega arith;
        num_fits = omega arith;
        size_fits = omega arith;
        running = refl;
      })
      (inl (refl, refl, refl))

split_run : split_file {A = ℕ} 0 (1 ∷ 2 ∷ 3 ∷ []) 2 ≡ (1 ∷ 2 ∷ []) ∷ (3 ∷ 0 ∷ []) ∷ []
unfolding split_file split_from pad_chunk
split_run = refl

abbrev request : XncInit
request = record { kind = 3; len = 2; filename = 97 ∷ 98 ∷ [] }

decode-encode_init_example : (encode_init request >>= decode_init) ≡ ok request
decode-encode_init_example = decode-encode_init request (inr refl, refl) (omega arith)
