-- ===== src/Xnc/Transfer/Frames.antt =====
-- xnc/server.go and xnc/client.go: sequences of frames, as one side writes and the other reads them.
use rlnc_streaming.Base.{
  ℕ, ◌+◌, ◌≤◌, ◌<◌, ◌^◌, ◌≡◌, ◌⊎◌, inl, inr, refl, ap, ap₂, Bool-cases, ◌-◌, ◌∙◌, Bool, true, false,
  List, [], ◌∷◌, ◌++◌, append_assoc, map, if◌then◌else◌, ◌==◌, length, take, arith,
}
use rlnc_streaming.Run.{Run, ok, err, panic, ◌>>=◌, slice-ok}
use rlnc_streaming.Field.{Field}
use rlnc_streaming.Xnc.Sizes.{Sizes}
use rlnc_streaming.Xnc.Packet.{Xnc, encode_xnc_pkt, decode_xnc_pkt, encode_end}
use rlnc_streaming.Xnc.Packet.RoundTrip.{FitsHeader, IsCoded, IsPlain, decode-encode_xnc_pkt}
use rlnc_streaming.Xnc.Packet.End.{decode-encode_end}
use rlnc_streaming.Xnc.Server.{
  Symbols, Sent, stopped, ◌and_then◌, nothing, write_packet, send_ends, end_id,
}
use rlnc_streaming.Xnc.Client.{
  ClientState, Outcome, finish_chunk, file_of, on_frame, go_on, receive,
}

-- Everything was written: these frames.
pub record Sends (frames : List (List ℕ)) (s : Sent) : Type 0 where
  pub written : s.frames ≡ frames
  pub finished : s.ended ≡ ok true

pub Sends-nothing : Sends [] nothing
Sends-nothing = record { written = refl; finished = refl }

pub Sends-and_then :
    {fs gs : List (List ℕ)} (s t : Sent) → Sends fs s → Sends gs t → Sends (fs ++ gs) (s and_then t)
Sends-and_then s t p q =
    let e : (s and_then t) ≡ record { frames = s.frames ++ t.frames; ended = t.ended } =
      ap (λ r. stopped s.frames r t) p.finished in
    record {
      written = ap (λ x. x.frames) e ∙ ap₂ ◌++◌ p.written q.written;
      finished = ap (λ x. x.ended) e ∙ q.finished;
    }

pub Sends-write_packet :
    {f : List ℕ} (r : Run (List ℕ)) → r ≡ ok f → Sends (f ∷ []) (write_packet r)
unfolding write_packet
Sends-write_packet r e = rw e (record { written = refl; finished = refl })

bind_ok :
    {A B : Type 0} {y : B} (r : Run A) (k : A → Run B)
    → (r >>= k) ≡ ok y
    → (x : A) × (r ≡ ok x) × (k x ≡ ok y)
bind_ok panic k e = cc
bind_ok (err x) k e = cc
bind_ok (ok x) k e = (x, refl, e)

-- The numbers of the packets of a chunk fit their fields.
pub record Fits (z : Sizes) (size id num : ℕ) : Type 0 where
  pub id_fits : id < 2 ^ 32
  pub num_fits : num < 2 ^ 32
  pub size_fits : size < 2 ^ 32
  pub inside : size ≤ z.chunk

-- The frame of a packet.
pub packet_frame :
    (z : Sizes) (x : Xnc)
    → FitsHeader x
    → IsCoded z x ⊎ IsPlain z x
    → (f : List ℕ) × (encode_xnc_pkt z x ≡ ok f) × (decode_xnc_pkt z f ≡ ok x)
packet_frame z x fits kind =
    bind_ok (encode_xnc_pkt z x) (decode_xnc_pkt z) (decode-encode_xnc_pkt z x fits kind)

module _ {F : Type 0} (b : Symbols F) where
  pub map-of_byte : (xs : List F) → map b.of_byte (map b.to_byte xs) ≡ xs
  map-of_byte [] = refl
  map-of_byte (x ∷ xs) = rw (b.of-to x, map-of_byte xs) refl

-- The loop is left, or not.
abbrev pub leaves : {F : Type 0} → Bool → ClientState F → Outcome F
leaves t s = if t then Outcome.done s else Outcome.more s

pub file_of-leaves : {F : Type 0} (t : Bool) (s : ClientState F) → file_of (leaves t s) ≡ s.rfile
file_of-leaves true s = refl
file_of-leaves false s = refl

-- What `finish_chunk` leaves of a chunk of which `size` bytes belong to the file.
abbrev pub finished : {F : Type 0} → ℕ → ℕ → ℕ → List F → ClientState F → Outcome F
finished size id num bytes s =
    if id + 1 == num
    then Outcome.done (record s { rfile = s.rfile ++ take size bytes })
    else Outcome.more (record s { rfile = s.rfile ++ take size bytes })

module _ {F : Type 0} ⦃g : Field F⦄ (b : Symbols F) (z : Sizes) (encode : Bool) where
  -- Whatever follows the frames, the client goes on from the one outcome.
  abbrev pub Leads : List (List ℕ) → ClientState F → Outcome F → Type 0
  Leads fs s o =
      (gs : List (List ℕ)) → receive b z encode (fs ++ gs) s ≡ go_on (receive b z encode gs) o

  pub Leads-nothing : (s : ClientState F) → Leads [] s (Outcome.more s)
  unfolding go_on
  Leads-nothing s gs = refl

  pub Leads-on_frame :
      (f : List ℕ) (s : ClientState F) (o : Outcome F)
      → on_frame b z encode f s ≡ ok o
      → Leads (f ∷ []) s o
  unfolding receive
  Leads-on_frame f s o e gs = rw e refl

  pub Leads-append :
      (fs fs' : List (List ℕ)) (s t : ClientState F) (o : Outcome F)
      → Leads fs s (Outcome.more t)
      → Leads fs' t o
      → Leads (fs ++ fs') s o
  unfolding go_on
  Leads-append fs fs' s t o p q gs =
      ap (λ x. receive b z encode x s) (append_assoc fs fs' gs) ∙ p (fs' ++ gs) ∙ q gs

  -- Once the loop is left, the frames behind are not read.
  pub Leads-done :
      (fs fs' : List (List ℕ)) (s t : ClientState F)
      → Leads fs s (Outcome.done t)
      → Leads (fs ++ fs') s (Outcome.done t)
  unfolding go_on
  Leads-done fs fs' s t p gs =
      ap (λ x. receive b z encode x s) (append_assoc fs fs' gs) ∙ p (fs' ++ gs)

  pub end_frame :
      (id : ℕ) (s : ClientState F)
      → on_frame b z encode (encode_end z id encode) s ≡ ok (Outcome.done s)
  unfolding on_frame
  end_frame id s = rw ((decode-encode_end z id encode).0) refl

  -- The END packets of the server make the client leave its loop.
  pub ends_frames :
      (num : ℕ)
      → (fs : List (List ℕ)) × Sends fs (send_ends z 5 encode num)
        × ((s : ClientState F) → Leads fs s (Outcome.done s))
  unfolding send_ends write_packet
  ends_frames num = (
    _,
    record { written = refl; finished = refl },
    λ s.
        Leads-done (encode_end z (end_id num) encode ∷ []) (send_ends z 4 encode num).frames s s
          (Leads-on_frame _ s (Outcome.done s) (end_frame (end_id num) s)),
  )

pub finish_chunk-ok :
    {F : Type 0} (x : Xnc) (bytes : List F) (s : ClientState F)
    → x.chunk_size ≤ length bytes
    → finish_chunk x bytes s ≡ ok (finished x.chunk_size x.chunk_id x.chunk_num bytes s)
unfolding finish_chunk
finish_chunk-ok x bytes s h =
    rw (slice-ok 0 x.chunk_size bytes (omega arith) h, none_cut)
      (elim (Bool-cases (x.chunk_id + 1 == x.chunk_num)) [ inl e ↦ rw e refl | inr e ↦ rw e refl ])
  where
    none_cut : x.chunk_size - 0 ≡ x.chunk_size
    none_cut = omega arith
