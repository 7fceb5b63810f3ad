-- ===== src/Xnc/Transfer/Download.antt =====
-- xnc/client.go and xnc/server.go: a request for a file by its name, from the INIT packet to the file.
use rlnc_streaming.Base.{
  ℕ, ◌<◌, ◌≤◌, ◌≡◌, inl, inr, refl, ◌∙◌, Bool, true, false, List, Option, some, length,
  if◌then◌else◌,
}
use rlnc_streaming.Run.{ok, panic, bind-inv}
use rlnc_streaming.Field.{Field}
use rlnc_streaming.Kodr.Full.Complete.{SpansRandom}
use rlnc_streaming.Xnc.Sizes.{Sizes, IsSane, type_init, type_init_enc}
use rlnc_streaming.Xnc.Packet.{XncInit, encode_init, decode_init}
use rlnc_streaming.Xnc.Packet.Init.{IsInit, decode-encode_init, encode_init_long}
use rlnc_streaming.Xnc.Server.{Symbols, send_named, start_transfer, handle_stream}
use rlnc_streaming.Xnc.Client.{init_packet, receive, start}
use rlnc_streaming.Xnc.Transfer.{download}
use rlnc_streaming.Xnc.Transfer.Files.{IsSmall, chunks_of, plain_file}
use rlnc_streaming.Xnc.Transfer.CodedChunk.{sources}
use rlnc_streaming.Xnc.Transfer.CodedFiles.{coded_file}

abbrev request : List ℕ → Bool → XncInit
request name encode = record {
  kind = if encode then type_init_enc else type_init;
  len = length name;
  filename = name;
}

request-IsInit : (name : List ℕ) (encode : Bool) → IsInit (request name encode)
request-IsInit name true = (inr refl, refl)
request-IsInit name false = (inl refl, refl)

module _ {F : Type 0} ⦃g : Field F⦄ (b : Symbols F) (z : Sizes) (rands : ℕ → ℕ → ℕ → List F)
    (files : List ℕ → Option (List F)) (name : List ℕ) where
  -- The server answers the request with the file in the mode that the client asks for.
  answered :
      (encode : Bool)
      → length name ≤ 123
      → download b z encode rands files name
        ≡ receive b z encode (send_named b z encode rands (files name)).frames start
  unfolding download init_packet handle_stream start_transfer
  answered encode h =
      let (bytes, made, read) =
        bind-inv (encode_init (request name encode)) decode_init (request name encode)
          (decode-encode_init (request name encode) (request-IsInit name encode) h) in
      rw (made, read) (in_mode encode)
    where
      in_mode :
          (encode : Bool)
          → receive b z encode
              (start_transfer b z rands files (ok (request name encode))).frames
              start
            ≡ receive b z encode (send_named b z encode rands (files name)).frames start
      in_mode true = refl
      in_mode false = refl

  -- A client that asks for a file by a name of at most 123 bytes, without coding, gets the bytes that the
  -- server has under that name, for a chunk size that is as many pieces as a coding vector has entries
  -- and a file below 4 GiB.
  pub download_plain :
      (bytes : List F)
      → IsSane z
      → length name ≤ 123
      → files name ≡ some bytes
      → IsSmall z (length bytes)
      → download b z false rands files name ≡ ok bytes
  unfolding send_named
  download_plain bytes sane short found small =
      answered false short ∙ rw found ((plain_file z sane bytes small b rands).0)

  -- A client that asks for a file by a name of at most 123 bytes, in the coded mode, gets the bytes that
  -- the server has under that name, for a chunk size that is as many pieces as a coding vector has
  -- entries, a file below 4 GiB and random bytes that fill what they are asked for, if the coding
  -- vectors of every chunk span all vectors of their length.
  pub download_coded :
      (bytes : List F) (sane : IsSane z)
      → length name ≤ 123
      → files name ≡ some bytes
      → (small : IsSmall z (length bytes)) → ((i j k : ℕ) → length (rands i j k) ≡ k)
      → ((i : ℕ)
          → i < length (chunks_of z sane bytes small)
          → SpansRandom z.vector (sources z (rands i)))
      → download b z true rands files name ≡ ok bytes
  unfolding send_named
  download_coded bytes sane short found small fill spans =
      answered true short ∙ rw found ((coded_file b z sane bytes small rands fill spans).0)

  -- A name of more than 123 bytes makes the client panic before it writes a byte.
  download_long : (encode : Bool) → 123 < length name → download b z encode rands files name ≡ panic
  unfolding download init_packet
  download_long encode h = rw (encode_init_long (request name encode) refl h) refl
