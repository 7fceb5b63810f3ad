-- ===== src/Xnc/Packet/RoundTrip.antt =====
-- Packets that are written are read back.
use rlnc_streaming.Base.{
  take-append, drop-append, ℕ, ◌+◌, ◌-◌, ◌^◌, ◌<◌, ◌≡◌, ◌⊎◌, inl, inr, refl, sym, ap, ◌∙◌, List, [],
  ◌++◌, true, false, length, take, drop, arith, length-append, take_all, ==_refl, ==_eq, and_false,
  not, ◌==◌,
}
use rlnc_streaming.Run.{ok, ◌>>=◌, load, slice, slice-ok}
use rlnc_streaming.Xnc.Sizes.{Sizes, frame_size, frame_size_enc, type_xnc, type_xnc_enc}
use rlnc_streaming.Xnc.Packet.{Xnc, encode_xnc_pkt, decode_xnc_pkt, decode_body}
use rlnc_streaming.Xnc.Packet.Layout.{frame_of, id_slice, size_slice, num_slice, body_slice, word}

-- What the header functions need of a packet: its numbers fit four bytes.
pub record FitsHeader (x : Xnc) : Type 0 where
  pub id_fits : x.chunk_id < 2 ^ 32
  pub num_fits : x.chunk_num < 2 ^ 32
  pub size_fits : x.chunk_size < 2 ^ 32
  pub running : x.ended ≡ false

-- The frame of a coded packet.
encode_enc :
    (z : Sizes) (x : Xnc)
    → x.kind ≡ type_xnc_enc
    → length x.vector ≡ z.vector
    → length x.piece ≡ z.piece
    → encode_xnc_pkt z x
      ≡ ok (frame_of x.kind x.chunk_id x.chunk_size x.chunk_num (x.vector ++ x.piece))
unfolding encode_xnc_pkt
encode_enc z x k hv hp =
    rw
      (
        ap {A = ℕ} (λ t. t == type_xnc_enc) k,
        ap {A = ℕ} (λ t. t == type_xnc) k,
        ap {A = ℕ} (λ t. t == z.vector) hv,
        ap {A = ℕ} (λ t. t == z.piece) hp,
        ==_refl z.vector,
        ==_refl z.piece,
        take_all z.vector x.vector (omega arith),
        take_all z.piece x.piece (omega arith),
      )
      refl

encode_plain :
    (z : Sizes) (x : Xnc)
    → x.kind ≡ type_xnc
    → length x.piece ≡ z.piece
    → encode_xnc_pkt z x ≡ ok (frame_of x.kind x.chunk_id x.chunk_size x.chunk_num x.piece)
unfolding encode_xnc_pkt
encode_plain z x k hp =
    rw
      (
        ap {A = ℕ} (λ t. t == type_xnc_enc) k,
        ap {A = ℕ} (λ t. t == type_xnc) k,
        ap {A = ℕ} (λ t. t == z.piece) hp,
        ==_refl z.piece,
        take_all z.piece x.piece (omega arith),
      )
      refl

module _ (z : Sizes) (id size num : ℕ) (hi : id < 2 ^ 32) (hs : size < 2 ^ 32)
    (hn : num < 2 ^ 32) where
  decode_frame_enc :
      (v p : List ℕ)
      → length v ≡ z.vector
      → length p ≡ z.piece
      → decode_xnc_pkt z (frame_of type_xnc_enc id size num (v ++ p))
        ≡ ok (record {
          kind = type_xnc_enc;
          chunk_id = id;
          chunk_num = num;
          chunk_size = size;
          vector = v;
          piece = p;
          ended = false;
        })
  unfolding decode_xnc_pkt decode_body load
  decode_frame_enc v p hv hp =
      rw
        (
          whole,
          id_slice type_xnc_enc id size num (v ++ p),
          size_slice type_xnc_enc id size num (v ++ p),
          num_slice type_xnc_enc id size num (v ++ p),
          vector_slice,
          piece_slice,
        )
        (λ i. ok (record {
          kind = type_xnc_enc;
          chunk_id = word id hi i;
          chunk_num = word num hn i;
          chunk_size = word size hs i;
          vector = v;
          piece = p;
          ended = false;
        }))
    where
      whole : (length (frame_of type_xnc_enc id size num (v ++ p)) == frame_size_enc z) ≡ true
      whole = ==_eq _ _ (omega (arith, length-append v p))

      vector_slice : slice 13 (13 + z.vector) (frame_of type_xnc_enc id size num (v ++ p)) ≡ ok v
      vector_slice =
          body_slice type_xnc_enc id size num (v ++ p) 0 z.vector (omega (arith, length-append v p))
          ∙ ap ok (ap {A = ℕ} (λ t. take t (v ++ p)) (sym hv) ∙ take-append v p)

      piece_slice :
          slice
            (13 + z.vector)
            (13 + z.vector + z.piece)
            (frame_of type_xnc_enc id size num (v ++ p))
          ≡ ok p
      piece_slice =
          body_slice type_xnc_enc id size num (v ++ p) z.vector z.piece
            (omega (arith, length-append v p))
          ∙ ap ok (
              ap {A = ℕ} (λ t. take z.piece (drop t (v ++ p))) (sym hv)
              ∙ ap (take z.piece) (drop-append v p)
              ∙ take_all z.piece p (omega arith))

  decode_frame_plain :
      (p : List ℕ)
      → length p ≡ z.piece
      → decode_xnc_pkt z (frame_of type_xnc id size num p)
        ≡ ok (record {
          kind = type_xnc;
          chunk_id = id;
          chunk_num = num;
          chunk_size = size;
          vector = [];
          piece = p;
          ended = false;
        })
  unfolding decode_xnc_pkt decode_body load
  decode_frame_plain p hp =
      rw
        (
          whole,
          and_false (not (length (frame_of type_xnc id size num p) == frame_size_enc z)),
          id_slice type_xnc id size num p,
          size_slice type_xnc id size num p,
          num_slice type_xnc id size num p,
          piece_slice,
        )
        (λ i. ok (record {
          kind = type_xnc;
          chunk_id = word id hi i;
          chunk_num = word num hn i;
          chunk_size = word size hs i;
          vector = [];
          piece = p;
          ended = false;
        }))
    where
      whole : (length (frame_of type_xnc id size num p) == frame_size z) ≡ true
      whole = ==_eq _ _ (omega arith)

      piece_slice :
          slice 13 (length (frame_of type_xnc id size num p)) (frame_of type_xnc id size num p)
          ≡ ok p
      piece_slice =
          slice-ok 13 (length (frame_of type_xnc id size num p)) (frame_of type_xnc id size num p)
            (omega arith) (omega arith)
          ∙ ap ok (take_all (length (frame_of type_xnc id size num p) - 13) p (omega arith))

-- A coded packet, and a plain one with no coding vector, of the sizes that the program uses.
abbrev pub IsCoded : Sizes → Xnc → Type 0
IsCoded z x = (x.kind ≡ type_xnc_enc) × (length x.vector ≡ z.vector) × (length x.piece ≡ z.piece)

abbrev pub IsPlain : Sizes → Xnc → Type 0
IsPlain z x = (x.kind ≡ type_xnc) × (x.vector ≡ []) × (length x.piece ≡ z.piece)

-- `DecodeXNCPkt` reads back what `EncodeXNCPkt` writes of a coded packet, or of a plain one with no
-- coding vector, if its parts have the sizes that the program asks for, its numbers fit four bytes and
-- its end flag is not set.
pub decode-encode_xnc_pkt :
    (z : Sizes) (x : Xnc)
    → FitsHeader x
    → IsCoded z x ⊎ IsPlain z x
    → (encode_xnc_pkt z x >>= decode_xnc_pkt z) ≡ ok x
decode-encode_xnc_pkt z x f (inl (k, hv, hp)) =
    ap (λ r. r >>= decode_xnc_pkt z)
      (encode_enc z x k hv hp
        ∙ ap {A = ℕ}
            (λ t. ok (frame_of t x.chunk_id x.chunk_size x.chunk_num (x.vector ++ x.piece))) k)
    ∙ decode_frame_enc z x.chunk_id x.chunk_size x.chunk_num f.id_fits f.size_fits f.num_fits
        x.vector x.piece hv hp
    ∙ λ i. ok (record x { kind = sym k i; ended = sym f.running i })
decode-encode_xnc_pkt z x f (inr (k, hv, hp)) =
    ap (λ r. r >>= decode_xnc_pkt z)
      (encode_plain z x k hp
        ∙ ap {A = ℕ} (λ t. ok (frame_of t x.chunk_id x.chunk_size x.chunk_num x.piece)) k)
    ∙ decode_frame_plain z x.chunk_id x.chunk_size x.chunk_num f.id_fits f.size_fits f.num_fits
        x.piece hp
    ∙ λ i. ok (record x { kind = sym k i; vector = sym hv i; ended = sym f.running i })
