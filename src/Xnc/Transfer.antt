-- ===== src/Xnc/Transfer.antt =====
-- xnc/server.go and xnc/client.go together: the server's handler reads the client's INIT packet, and the
-- client reads the frames that the server wrote, in their order.
pub mod Frames
pub mod Plain
pub mod Chunks
pub mod Loop
pub mod Piece
pub mod Coded
pub mod CodedChunk
pub mod CodedFiles
pub mod Files
pub mod Download
use rlnc_streaming.Base.{ℕ, Bool, List, Option}
use rlnc_streaming.Run.{Run, ◌>>=◌}
use rlnc_streaming.Field.{Field}
use rlnc_streaming.Xnc.Sizes.{Sizes}
use rlnc_streaming.Xnc.Server.{Symbols, handle_stream}
use rlnc_streaming.Xnc.Client.{init_packet, receive, start}

module _ {F : Type 0} ⦃g : Field F⦄ (b : Symbols F) (z : Sizes) where
  -- `Client` against `handleSession`: a request for a file by its name.
  unfoldable pub download :
      Bool → (ℕ → ℕ → ℕ → List F) → (List ℕ → Option (List F)) → List ℕ → Run (List F)
  download encode rands files name = do
    request ← init_packet name encode
    receive b z encode (handle_stream b z rands files request).frames start
