-- ===== src/Xnc/Transfer/Coded.antt =====
-- xnc/server.go and xnc/client.go: the coded packets of one chunk.
use mathlib.Core.List.{flatten}
use rlnc_streaming.Base.{
  ==_refl, ℕ, ◌+◌, ◌≤◌, ◌≡◌, ◌≢◌, inl, inr, refl, sym, ap, ◌∙◌, true, false, ◌&&◌, List, [], ◌∷◌,
  ◌++◌, some, ◌==◌, if◌then◌else◌, length, take, get_or, set, arith, ==_ne, length-set, append-nil,
  Bool-cases,
}
use rlnc_streaming.Run.{ok, Returns-inv}
use rlnc_streaming.Field.{Field}
use rlnc_streaming.Kodr.Matrix.{Matrix}
use rlnc_streaming.Kodr.Matrix.Cells.{HasShape, get_or-set}
use rlnc_streaming.Kodr.Data.{CodedPiece}
use rlnc_streaming.Kodr.Full.Decoder.{FullDecoder, is_decoded, add_piece}
use rlnc_streaming.Kodr.Full.Decoder.Correct.{IsCodedFrom, IsConsistent, add_piece-IsConsistent}
use rlnc_streaming.Kodr.Full.Session.{offer, offer_all, AllCodedFrom}
use rlnc_streaming.Kodr.Full.Complete.{offer_all-done}
use rlnc_streaming.Xnc.Sizes.{Sizes, IsSane}
use rlnc_streaming.Xnc.Server.{Symbols, send_coded}
use rlnc_streaming.Xnc.Client.{ClientState, decoders_for}
use rlnc_streaming.Xnc.Transfer.Frames.{
  Fits, Sends, Sends-nothing, Sends-and_then, leaves, Leads, Leads-nothing, Leads-append,
  Leads-done,
}
use rlnc_streaming.Xnc.Transfer.Piece.{
  bank, fresh, with_decoder, HasDecoder, refused_pieces, short_piece, last_piece,
}

module _ {F : Type 0} ⦃g : Field F⦄ (b : Symbols F) (z : Sizes) (sane : IsSane z) (size id num : ℕ)
    (fits : Fits z size id num) (pieces : Matrix F) (shape : HasShape pieces z.vector z.piece) where
  -- The decoders of the other chunks are as they were.
  pub record OnlyThis (s t : ClientState F) : Type 0 where
    pub same_number :
        length (bank b z sane size id num fits pieces shape t)
        ≡ length (bank b z sane size id num fits pieces shape s)
    pub others :
        (j : ℕ)
        → j ≢ id
        → get_or
            (bank b z sane size id num fits pieces shape t)
            j
            (fresh b z sane size id num fits pieces shape)
          ≡ get_or
              (bank b z sane size id num fits pieces shape s)
              j
              (fresh b z sane size id num fits pieces shape)

  with_decoder-OnlyThis :
      (d d1 : FullDecoder F) (s : ClientState F)
      → HasDecoder b z sane size id num fits pieces shape s d
      → OnlyThis s (with_decoder b z sane size id num fits pieces shape d1 s)
  unfolding decoders_for
  with_decoder-OnlyThis d d1 s has = record {
    same_number = length-set (bank b z sane size id num fits pieces shape s) id d1;
    others = λ j ne.
        get_or-set (bank b z sane size id num fits pieces shape s) id j d1
          (fresh b z sane size id num fits pieces shape) has.inside
        ∙ rw (==_ne id j (λ e. ne (sym e))) refl;
  }

  with_decoder-HasDecoder :
      (d d1 : FullDecoder F) (s : ClientState F)
      → HasDecoder b z sane size id num fits pieces shape s d
      → HasDecoder b z sane size id num fits pieces shape
          (with_decoder b z sane size id num fits pieces shape d1 s)
          d1
  unfolding decoders_for
  with_decoder-HasDecoder d d1 s has = record {
    inside =
        omega (arith, length-set (bank b z sane size id num fits pieces shape s) id d1, has.inside);
    current =
        get_or-set (bank b z sane size id num fits pieces shape s) id id d1
          (fresh b z sane size id num fits pieces shape) has.inside
        ∙ rw (==_refl id) refl;
  }

  OnlyThis-trans : (s t u : ClientState F) → OnlyThis s t → OnlyThis t u → OnlyThis s u
  OnlyThis-trans s t u p q = record {
    same_number = q.same_number ∙ p.same_number;
    others = λ j ne. q.others j ne ∙ p.others j ne;
  }

  -- What the coded pieces of the chunk do to a client: its file grows if they complete the decoder.
  pub record Offered (ps : List (CodedPiece F)) (s : ClientState F) (d : FullDecoder F)
      : Type 0 where
    pub frames : List (List ℕ)
    pub sends : Sends frames (send_coded b z size id num ps)
    pub decoder : FullDecoder F
    pub offered : offer_all ps d ≡ ok decoder
    pub next : ClientState F
    pub only : OnlyThis s next
    pub file :
        next.rfile ≡ s.rfile ++ (if is_decoded decoder then take size (flatten pieces) else [])
    pub leads : Leads b z true frames s (leaves (is_decoded decoder && (id + 1 == num)) next)

  short_step :
      (p : CodedPiece F) (ps : List (CodedPiece F)) (s : ClientState F) (d d1 : FullDecoder F)
      → IsCodedFrom pieces z.vector z.piece p
      → HasDecoder b z sane size id num fits pieces shape s d
      → is_decoded d ≡ false
      → add_piece p d ≡ ok d1
      → is_decoded d1 ≡ false
      → Offered ps (with_decoder b z sane size id num fits pieces shape d1 s) d1
      → Offered (p ∷ ps) s d
  unfolding send_coded offer_all offer
  short_step p ps s d d1 coded has more added e o =
      let (f, sends, leads) =
        short_piece b z sane size id num fits pieces shape p s d d1 coded has added e in
      record {
        frames = f ∷ o.frames;
        sends = Sends-and_then _ _ sends o.sends;
        decoder = o.decoder;
        offered = rw (more, added) o.offered;
        next = o.next;
        only =
            OnlyThis-trans s (with_decoder b z sane size id num fits pieces shape d1 s) o.next
              (with_decoder-OnlyThis d d1 s has) o.only;
        file = o.file;
        leads =
            Leads-append b z true (f ∷ []) o.frames s
              (with_decoder b z sane size id num fits pieces shape d1 s) _ leads o.leads;
      }

  -- The client with the bytes of the chunk.
  abbrev with_chunk : FullDecoder F → ClientState F → ClientState F
  with_chunk d1 s = record s {
    decoders = some (set (bank b z sane size id num fits pieces shape s) id d1);
    rfile = s.rfile ++ take size (flatten pieces);
  }

  complete_step :
      (p : CodedPiece F) (ps : List (CodedPiece F)) (s : ClientState F) (d d1 : FullDecoder F)
      (r1 : ℕ)
      → IsCodedFrom pieces z.vector z.piece p
      → AllCodedFrom pieces z.vector z.piece ps
      → HasDecoder b z sane size id num fits pieces shape s d
      → is_decoded d ≡ false
      → add_piece p d ≡ ok d1
      → IsConsistent pieces z.vector z.piece d1 r1
      → is_decoded d1 ≡ true
      → size ≤ length (flatten pieces)
      → Offered (p ∷ ps) s d
  unfolding send_coded offer_all offer decoders_for
  complete_step p ps s d d1 r1 coded rest has more added c e long =
      let (f, sends, leads) =
        last_piece b z sane size id num fits pieces shape p s d d1 r1 coded has added c e long in
      let has1 = with_decoder-HasDecoder d d1 s has in
      let (fs, sends', (t, file, same, leads')) =
        refused_pieces b z sane size id num fits pieces shape ps (with_chunk d1 s) d1 rest
          (record { inside = has1.inside; current = has1.current }) e in
      let only = with_decoder-OnlyThis d d1 s has in
      elim (Bool-cases (id + 1 == num)) [
        | inl q ↦ record {
          frames = f ∷ fs;
          sends = Sends-and_then _ _ sends sends';
          decoder = d1;
          offered = rw (more, added) (offer_all-done ps d1 e);
          next = with_chunk d1 s;
          only = record { same_number = only.same_number; others = only.others };
          file = rw e refl;
          leads = rw (e, q) (Leads-done b z true (f ∷ []) fs s (with_chunk d1 s) (rw q at leads));
        }
        | inr q ↦ record {
          frames = f ∷ fs;
          sends = Sends-and_then _ _ sends sends';
          decoder = d1;
          offered = rw (more, added) (offer_all-done ps d1 e);
          next = t;
          only = record {
            same_number = ap length same ∙ only.same_number;
            others = λ j ne.
                ap (λ ds. get_or ds j (fresh b z sane size id num fits pieces shape)) same
                ∙ only.others j ne;
          };
          file = rw e file;
          leads =
              rw (e, q)
                (Leads-append b z true (f ∷ []) fs s (with_chunk d1 s) _ (rw q at leads) leads');
        }
      ]

  pub pieces-Offered :
      (ps : List (CodedPiece F)) (s : ClientState F) (d : FullDecoder F) (r : ℕ)
      → IsConsistent pieces z.vector z.piece d r
      → AllCodedFrom pieces z.vector z.piece ps
      → HasDecoder b z sane size id num fits pieces shape s d
      → is_decoded d ≡ false
      → size ≤ length (flatten pieces)
      → Offered ps s d
  unfolding send_coded offer_all offer
  pieces-Offered [] s d r c coded has more long = record {
    frames = [];
    sends = Sends-nothing;
    decoder = d;
    offered = refl;
    next = s;
    only = record { same_number = refl; others = λ j ne. refl };
    file = rw more (sym (append-nil s.rfile));
    leads = rw more (Leads-nothing b z true s);
  }
  pieces-Offered (p ∷ ps) s d r c (coded, rest) has more long =
      let (d1, added, (r1, c1)) =
        Returns-inv (add_piece-IsConsistent pieces z.vector z.piece r sane.two d c p coded more) in
      elim (Bool-cases (is_decoded d1)) [
        | inr e ↦ short_step p ps s d d1 coded has more added e (
            pieces-Offered ps (with_decoder b z sane size id num fits pieces shape d1 s) d1 r1 c1
              rest (with_decoder-HasDecoder d d1 s has) e long)
        | inl e ↦ complete_step p ps s d d1 r1 coded rest has more added c1 e long
      ]
