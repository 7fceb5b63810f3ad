-- ===== src/Xnc/Transfer/Loop.antt =====
-- xnc/server.go and xnc/client.go: the rounds of the chunks, one after the other, and the end.
use rlnc_streaming.Base.{
  ℕ, zero, suc, ◌+◌, ◌<◌, ◌≡◌, refl, sym, ap, ◌∙◌, subst, Bool, true, false, ◌&&◌, List, [], ◌∷◌,
  ◌++◌, ◌==◌, if◌then◌else◌, length, take, drop, get_or, arith, ==_ne, append_assoc, append-nil,
  and_false, drop_all, get_or∷drop,
}
use rlnc_streaming.Run.{ok}
use rlnc_streaming.Field.{Field}
use rlnc_streaming.Xnc.Sizes.{Sizes}
use rlnc_streaming.Xnc.Server.{Symbols, Sent, ◌and_then◌, send_chunk, send_chunks, send_ends}
use rlnc_streaming.Xnc.Client.{ClientState, Outcome, file_of, receive, go_on}
use rlnc_streaming.Xnc.Transfer.Frames.{
  leaves, file_of-leaves, Sends, Sends-nothing, Sends-and_then, Leads, Leads-nothing, Leads-append,
  ends_frames,
}
use rlnc_streaming.Xnc.Transfer.Chunks.{size_of, kept_parts}

module _ {F : Type 0} ⦃g : Field F⦄ (b : Symbols F) (z : Sizes) (encode : Bool)
    (rands : ℕ → ℕ → ℕ → List F) (total : ℕ) (chunks : List (List F)) where
  -- The part of chunk `i` that the client keeps.
  abbrev pub part : (ℕ → Bool) → ℕ → List F
  part kept i = if kept i then take (size_of z total (length chunks) i) (get_or chunks i []) else []

  -- What the round of chunk `i` does to a client in state `s`; `At j t` says that the client is ready for
  -- chunk `j`.
  pub record Round (At : ℕ → ClientState F → Type 0) (kept : ℕ → Bool) (i : ℕ) (s : ClientState F)
      : Type 0 where
    pub frames : List (List ℕ)
    pub sends : Sends frames (
        send_chunk b z encode
          (rands i)
          (size_of z total (length chunks) i)
          i
          (length chunks)
          (get_or chunks i []))
    pub next : ClientState F
    pub ready : At (suc i) next
    pub file : next.rfile ≡ s.rfile ++ part kept i
    pub leads : Leads b z encode frames s (leaves (kept i && (i + 1 == length chunks)) next)

  -- What the rounds from chunk `i` on do.
  pub record Rounds (kept : ℕ → Bool) (i : ℕ) (s : ClientState F) (cs : List (List F))
      : Type 0 where
    pub frames : List (List ℕ)
    pub sends : Sends frames (send_chunks b z encode rands total (length chunks) i cs)
    pub last : Outcome F
    pub file : file_of last ≡ s.rfile ++ kept_parts z kept total (length chunks) i cs
    pub leads : Leads b z encode frames s last

  no-Rounds : (kept : ℕ → Bool) (i : ℕ) (s : ClientState F) → Rounds kept i s []
  unfolding send_chunks
  no-Rounds kept i s = record {
    frames = [];
    sends = Sends-nothing;
    last = Outcome.more s;
    file = sym (append-nil s.rfile);
    leads = Leads-nothing b z encode s;
  }

  module _ (At : ℕ → ClientState F → Type 0) (kept : ℕ → Bool)
      (step : (i : ℕ) (s : ClientState F) → i < length chunks → At i s → Round At kept i s) where
    last_round :
        (i : ℕ) (s : ClientState F)
        → suc i ≡ length chunks
        → At i s
        → Rounds kept i s (get_or chunks i [] ∷ [])
    unfolding send_chunks
    last_round i s h ready =
        let r = step i s (omega arith) ready in
        record {
          frames = r.frames ++ [];
          sends = Sends-and_then _ _ r.sends Sends-nothing;
          last = leaves (kept i && (i + 1 == length chunks)) r.next;
          file =
              file_of-leaves (kept i && (i + 1 == length chunks)) r.next
              ∙ r.file
              ∙ ap (λ x. s.rfile ++ x) (sym (append-nil (part kept i)));
          leads =
              subst
                (λ fs. Leads b z encode fs s (leaves (kept i && (i + 1 == length chunks)) r.next))
                (sym (append-nil r.frames)) r.leads;
        }

    one-Round :
        (i : ℕ) (s : ClientState F) (cs : List (List F))
        → suc i < length chunks
        → (r : Round At kept i s) → Rounds kept (suc i) r.next cs
        → Rounds kept i s (get_or chunks i [] ∷ cs)
    unfolding send_chunks
    one-Round i s cs h r rest = record {
      frames = r.frames ++ rest.frames;
      sends = Sends-and_then _ _ r.sends rest.sends;
      last = rest.last;
      file =
          rest.file
          ∙ ap (λ x. x ++ kept_parts z kept total (length chunks) (suc i) cs) r.file
          ∙ append_assoc s.rfile (part kept i) (kept_parts z kept total (length chunks) (suc i) cs);
      leads =
          Leads-append b z encode r.frames rest.frames s r.next rest.last
            (subst (λ t. Leads b z encode r.frames s (leaves t r.next)) not_last r.leads)
            rest.leads;
    }
      where
        not_last : (kept i && (i + 1 == length chunks)) ≡ false
        not_last = rw (==_ne (i + 1) (length chunks) (omega arith)) (and_false (kept i))

    rounds :
        (n i : ℕ) (s : ClientState F)
        → i + n ≡ length chunks
        → At i s
        → Rounds kept i s (drop i chunks)
    rounds zero i s h ready = rw (drop_all i chunks (omega arith)) (no-Rounds kept i s)
    rounds (suc zero) i s h ready =
        subst (Rounds kept i s)
          (ap (◌∷◌ (get_or chunks i [])) (sym (drop_all (suc i) chunks (omega arith)))
            ∙ get_or∷drop i chunks [] (omega arith))
          (last_round i s (omega arith) ready)
    rounds (suc (suc n)) i s h ready =
        let r = step i s (omega arith) ready in
        subst (Rounds kept i s) (get_or∷drop i chunks [] (omega arith)) (
          one-Round i s (drop (suc i) chunks) (omega arith) r
            (rounds (suc n) (suc i) r.next (omega arith) r.ready))

    -- The rounds of all chunks and the END packets bring the client the chunks that are kept.
    pub rounds_received :
        (s : ClientState F)
        → At 0 s
        → (all : Sent)
        → all ≡ (
            send_chunks b z encode rands total (length chunks) 0 chunks
            and_then send_ends z 5 encode (length chunks))
        → (receive b z encode all.frames s
            ≡ ok (s.rfile ++ kept_parts z kept total (length chunks) 0 chunks))
          × (all.ended ≡ ok true)
    unfolding go_on
    rounds_received s ready all e =
        let r : Rounds kept 0 s chunks = rounds (length chunks) 0 s (omega arith) ready in
        let (es, ends, leave) = ends_frames b z encode (length chunks) in
        let both = Sends-and_then _ _ r.sends ends in
        (
          ap (λ fs. receive b z encode fs s) (ap (λ x. x.frames) e ∙ both.written)
              ∙ r.leads es
              ∙ at_end es leave r.last
              ∙ ap ok r.file,
          ap (λ x. x.ended) e ∙ both.finished,
        )
      where
        at_end :
            (es : List (List ℕ))
            → ((t : ClientState F) → Leads b z encode es t (Outcome.done t))
            → (o : Outcome F) → go_on (receive b z encode es) o ≡ ok (file_of o)
        at_end es leave (Outcome.done t) = refl
        at_end es leave (Outcome.more t) =
            ap (λ fs. receive b z encode fs t) (sym (append-nil es)) ∙ leave t []
