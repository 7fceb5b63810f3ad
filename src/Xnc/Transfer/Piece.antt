-- ===== src/Xnc/Transfer/Piece.antt =====
-- xnc/server.go and xnc/client.go: a coded packet.
use mathlib.Core.List.{flatten}
use rlnc_streaming.Base.{
  ℕ, ◌≤◌, ◌<◌, ◌≡◌, inl, refl, ◌∙◌, true, false, List, [], ◌∷◌, map, some, length, get_or, set,
  length-map,
}
use rlnc_streaming.Run.{ok, load-ok, store-ok}
use rlnc_streaming.Field.{Field}
use rlnc_streaming.Kodr.Matrix.{Matrix}
use rlnc_streaming.Kodr.Matrix.Cells.{HasShape}
use rlnc_streaming.Kodr.Data.{CodedPiece}
use rlnc_streaming.Kodr.Full.Decoder.{FullDecoder, new_full_decoder, is_decoded, add_piece}
use rlnc_streaming.Kodr.Full.Decoder.Correct.{IsCodedFrom, IsConsistent, get_pieces-original}
use rlnc_streaming.Kodr.Full.Session.{AllCodedFrom, offer-refuses}
use rlnc_streaming.Xnc.Sizes.{Sizes, IsSane, piece_cnt, type_xnc_enc}
use rlnc_streaming.Xnc.Packet.{Xnc}
use rlnc_streaming.Xnc.Server.{Symbols, get_xnc_enc_pkt, write_packet, send_coded}
use rlnc_streaming.Xnc.Client.{
  ClientState, Outcome, decoders_for, get_file, after_add, on_frame, on_coded,
}
use rlnc_streaming.Xnc.Transfer.Frames.{
  Fits, Sends, Sends-nothing, Sends-and_then, Sends-write_packet, packet_frame, map-of_byte,
  finished, finish_chunk-ok, Leads, Leads-nothing, Leads-on_frame, Leads-append,
}

module _ {F : Type 0} ⦃g : Field F⦄ (b : Symbols F) (z : Sizes) (sane : IsSane z) (size id num : ℕ)
    (fits : Fits z size id num) (pieces : Matrix F) (shape : HasShape pieces z.vector z.piece) where
  -- The decoders of a client, those that the next coded packet makes included.
  abbrev pub bank : ClientState F → List (FullDecoder F)
  bank s = decoders_for z num s.decoders

  abbrev pub fresh : FullDecoder F
  fresh = new_full_decoder (piece_cnt z)

  -- The decoder of the chunk is `d`.
  pub record HasDecoder (s : ClientState F) (d : FullDecoder F) : Type 0 where
    pub inside : id < length (bank s)
    pub current : get_or (bank s) id fresh ≡ d

  abbrev coded_packet : CodedPiece F → Xnc
  coded_packet p = record {
    kind = type_xnc_enc;
    chunk_id = id;
    chunk_num = num;
    chunk_size = size;
    vector = map b.to_byte p.vector;
    piece = map b.to_byte p.piece;
    ended = false;
  }

  -- The client with its decoders made.
  abbrev opened : ClientState F → ClientState F
  opened s = record s { decoders = some (bank s) }

  abbrev pub with_decoder : FullDecoder F → ClientState F → ClientState F
  with_decoder d s = record s { decoders = some (set (bank s) id d) }

  -- The frame of a coded piece, and what the client makes of it.
  coded_frame :
      (p : CodedPiece F) (s : ClientState F) (d : FullDecoder F)
      → IsCodedFrom pieces z.vector z.piece p
      → HasDecoder s d
      → (f : List ℕ) × (get_xnc_enc_pkt b z size id num p ≡ ok f)
        × (on_frame b z true f s ≡ after_add (coded_packet p) (bank s) (opened s) (add_piece p d))
  unfolding get_xnc_enc_pkt on_frame on_coded
  coded_frame p s d coded has =
      let (f, enc, dec) =
        packet_frame z (coded_packet p)
          (record {
            id_fits = fits.id_fits;
            num_fits = fits.num_fits;
            size_fits = fits.size_fits;
            running = refl;
          })
          (inl (
            refl,
            length-map p.vector b.to_byte ∙ coded.vector_length,
            length-map p.piece b.to_byte ∙ coded.piece_length,
          )) in
      (
        f,
        enc,
        rw
            (
              dec,
              load-ok (bank s) id fresh has.inside,
              has.current,
              map-of_byte b p.vector,
              map-of_byte b p.piece,
            )
            refl,
      )

  -- A decoder that is done refuses the piece, and the client goes on.
  refused_piece :
      (p : CodedPiece F) (s : ClientState F) (d : FullDecoder F)
      → IsCodedFrom pieces z.vector z.piece p
      → HasDecoder s d
      → is_decoded d ≡ true
      → (f : List ℕ) × Sends (f ∷ []) (write_packet (get_xnc_enc_pkt b z size id num p))
        × Leads b z true (f ∷ []) s (Outcome.more (opened s))
  unfolding after_add
  refused_piece p s d coded has e =
      let (f, enc, run) = coded_frame p s d coded has in
      (
        f,
        Sends-write_packet _ enc,
        Leads-on_frame b z true f s _ (run ∙ rw (offer-refuses p d e) refl),
      )

  pub refused_pieces :
      (ps : List (CodedPiece F)) (s : ClientState F) (d : FullDecoder F)
      → AllCodedFrom pieces z.vector z.piece ps
      → HasDecoder s d
      → is_decoded d ≡ true
      → (fs : List (List ℕ)) × Sends fs (send_coded b z size id num ps)
        × ((t : ClientState F) × (t.rfile ≡ s.rfile)
            × (bank t ≡ bank s)
            × Leads b z true fs s (Outcome.more t))
  unfolding send_coded decoders_for
  refused_pieces [] s d coded has e = ([], Sends-nothing, (s, refl, refl, Leads-nothing b z true s))
  refused_pieces (p ∷ ps) s d (coded, rest) has e =
      let (f, sends, leads) = refused_piece p s d coded has e in
      let (fs, sends', (t, file, same, leads')) =
        refused_pieces ps (opened s) d rest (record { inside = has.inside; current = has.current })
          e in
      (
        f ∷ fs,
        Sends-and_then _ _ sends sends',
        (t, file, same, Leads-append b z true (f ∷ []) fs s (opened s) _ leads leads'),
      )

  -- A piece that leaves the decoder short of pieces.
  pub short_piece :
      (p : CodedPiece F) (s : ClientState F) (d d1 : FullDecoder F)
      → IsCodedFrom pieces z.vector z.piece p
      → HasDecoder s d
      → add_piece p d ≡ ok d1
      → is_decoded d1 ≡ false
      → (f : List ℕ) × Sends (f ∷ []) (write_packet (get_xnc_enc_pkt b z size id num p))
        × Leads b z true (f ∷ []) s (Outcome.more (with_decoder d1 s))
  unfolding after_add
  short_piece p s d d1 coded has e more =
      let (f, enc, run) = coded_frame p s d coded has in
      (
        f,
        Sends-write_packet _ enc,
        Leads-on_frame b z true f s _ (run ∙ rw (e, store-ok (bank s) id d1 has.inside, more) refl),
      )

  -- A piece that completes the decoder.
  pub last_piece :
      (p : CodedPiece F) (s : ClientState F) (d d1 : FullDecoder F) (r1 : ℕ)
      → IsCodedFrom pieces z.vector z.piece p
      → HasDecoder s d
      → add_piece p d ≡ ok d1
      → IsConsistent pieces z.vector z.piece d1 r1
      → is_decoded d1 ≡ true
      → size ≤ length (flatten pieces)
      → (f : List ℕ) × Sends (f ∷ []) (write_packet (get_xnc_enc_pkt b z size id num p))
        × Leads b z true (f ∷ []) s (finished size id num (flatten pieces) (with_decoder d1 s))
  unfolding after_add get_file
  last_piece p s d d1 r1 coded has e c done long =
      let (f, enc, run) = coded_frame p s d coded has in
      (
        f,
        Sends-write_packet _ enc,
        Leads-on_frame b z true f s _ (
            run
            ∙ rw
                (
                  e,
                  store-ok (bank s) id d1 has.inside,
                  done,
                  get_pieces-original pieces z.vector z.piece r1 shape d1 c done,
                )
                (finish_chunk-ok (coded_packet p) (flatten pieces) (with_decoder d1 s) long)),
      )
