-- ===== src/Lib.antt =====
-- A verification library for RLNC_Streaming: random linear network coding of file chunks, and the
-- packets that carry them over a multipath QUIC stream.
--
-- The server (xnc/server.go) splits a file into chunks (xnc/utils.go), splits each chunk into pieces,
-- encodes them (kodr/full/encoder.go) and writes the coded pieces as packets (xnc/xnc.go). The client
-- (xnc/client.go) reads packets, keeps a decoder for each chunk (kodr/full/decoder.go) and offers it
-- the coded pieces; a decoder does Gaussian elimination on what it received
-- (kodr/matrix/decoder_state.go) until it has as many rows as there are pieces.
--
-- Base, Run: numbers, lists and Boolean tests; the results of calls. A call returns a value, returns an
--   error (those of kodr/errors.go, one for each kind of `fmt.Errorf` in xnc/xnc.go, `app_stopped`
--   where godash ends the program by StopApp or os.Exit, and `never_returns` where a call waits without
--   end) or panics.
--   `load`, `store` and `slice` are Go's indexing and slicing, with its panics.
-- Field: a field of characteristic 2 with a Boolean equality: what the code relies on of
--   github.com/cloud9-tools/go-galoisfield, GF(2^8), which is not part of the repository. A symbol
--   stands for a byte. The tests take the field of two elements.
-- Kodr.Matrix: kodr/matrix/matrix.go. `rows`, `cols`, `cmp` and `multiply` are Rows, Cols, Cmp and
--   Multiply; the workers of Multiply each write a row of their own, and here the rows are computed in
--   their order. Product and Compare: the matrix product, and equality.
-- Kodr.Elimination: kodr/matrix/decoder_state.go, the passes of Rref: `clean_forward`,
--   `clean_backward`, `remove_zero_rows` and `rref` by the source's names. A round of a pass starts
--   one goroutine for each row to be cleared and waits for all; `clear_rows` takes the rows as a list,
--   so that an order of the goroutines is an order of that list. The child modules hold the lemmas for
--   the row loops (RowOps), one pivot (Clear, Pivot, Normalise), the equations that the rows stand for
--   (Equations, Keeps, Weakens, Kernel), the passes (Forward, Backward, Removal with Without) and the
--   whole (Rref, Order).
-- Kodr.State: the rest of that file: AddPiece is `add_row`, Rank is `rank`, GetPiece is `get_piece`.
-- Kodr.Data: kodr/data.go. OriginalPiecesFromDataAndPieceSize is `pieces_by_size`,
--   OriginalPiecesFromDataAndPieceCount is `pieces_by_count`, Piece.Multiply is `multiply_piece`.
--   The child modules Split and Flattened are about the splitting and about flattened pieces.
-- Kodr.Full.Encoder: kodr/full/encoder.go and kodr/full/recoder.go. The random bytes are an argument.
--   Kodr.Full.Recoder: pieces that go through a recoder.
-- Kodr.Full.Decoder: kodr/full/decoder.go. AddPiece is `add_piece`, GetPieces is `get_pieces`.
-- Kodr.Full.Session: one chunk on its way from the encoder to the decoder, as the two ends of
--   xnc/server.go and xnc/client.go use them. Kodr.Full.Complete and
--   Kodr.Full.Spanning: which coded pieces are enough.
-- Kodr.Systematic.Encoder, Kodr.Systematic.Decoder: kodr/systematic/encoder.go and
--   kodr/systematic/decoder.go, by the names of the full codec.
-- Xnc.Sizes, Xnc.Packet, Xnc.Split: xnc/config.go, xnc/xnc.go and xnc/utils.go. The chunk, vector and
--   piece sizes are a parameter.
-- Xnc.Server: xnc/server.go. sendFile is `send_file`, which returns the frames that it wrote and how it
--   ended; the part of handleSession for one stream is `handle_stream`. Xnc.Client: xnc/client.go. The
--   receive loop of Client is `receive`, one round `on_frame`; `Symbols` converts symbols and bytes.
-- Xnc.Transfer: the server and the client together. `download` is a request for a file by its name: the
--   INIT packet of Client, the frames that handleSession writes for it, and Client's loop over them in
--   their order; a client that gets no further frame does not return. The child modules hold frames that lead a client from one state to another (Frames),
--   the packets of a chunk (Plain, Piece, Coded), the loop over the chunks (Chunks, Loop), whole files (Files,
--   CodedChunk, CodedFiles) and requests (Download).
-- Godash: godash/algorithms, the choice of the representation of the next segment. Rates:
--   SelectRepRateWithThroughtput is `select_rep_rate`. Averages: Conventional, MeanAverageAlgo,
--   GeomAverageAlgo, EMWAAverageAlgo and ElasticAlgo, in snake case. Logistic: LogisticFunction is
--   `logistic_function`. Bba: bba2.go, CalculateSelectedIndexBba is `selected_index_bba`. Arbiter:
--   arbiterPlus.go, CalculateSelectedIndexArbiter is `selected_index_arbiter`. Each returns what it
--   writes through its pointers. Double: `float64` is the interface `Doubles`, whose laws are named where a
--   theorem relies on them. Calc: godash/utils/calcFunctions.go. Player: the part
--   of streamLoop in godash/player/player.go after a download: the buffer, the stalls and the log are
--   `play_segment`, `first_log` and `next_log`, and the choice of the next index is `choose_rate`; its
--   child modules are about the stalls (Stalls), the counters of the log (Logged) and the index (Choice).
--   Qoe: getYin, getYu, getDuanmu and getClaye of godash/qoe, in snake case. What
--   a server answers for the length of a segment is a function; the times of the downloads are arguments.
-- Godash.Int, Godash.Text: Go's `int` where it may be negative, and what godash uses of Go's `strings`
--   and `strconv`; a text is the list of its bytes, which are ASCII.
-- Godash.Mpd: what godash/http/mpdParsing.go reads of a parsed MPD file, in child modules. Duration:
--   SplitMPDSegmentDuration. Codec: GetCodec, with FindInStringArray of godash/utils/appFunctions.go.
--   Addresses: GetNextSegment, GetFullStreamHeader and the byte ranges, with JoinURL of
--   godash/http/urlParsing.go. Values: GetMPDValues. Playable: GetNextSegmentDuration. Headers: the
--   lengths of the segments; getSegmentHeaders is `write_segment_headers` and `get_segment_headers`, with
--   and without a file, and getNSegmentHeadersFromFile reads the file; its child module Each has
--   GetAllSegmentHeaders and GetNSegmentHeaders. The functions have the source's names in snake case. The
--   answers to HEAD requests and the files are functions, and a file can always be created.
-- Godash.Csv: the lines of those files, and how Go's `encoding/csv` reads a text without quotes.
-- Godash.Stream: the recursion of streamLoop in godash/player/player.go over the segments, with the
--   player of Player and the choice of Playable; `switch_mpd` takes only the new duration of the segments.
--   The download times and the random numbers are functions of the segment number.
-- Godash.PlayOut: PrintPlayOutLog of godash/logging/debug.go, and its calls by streamLoop and Stream over a
--   stream that ends by its duration: `print_segments` and `print_stream`. The child modules are about one
--   call (Once, Calls), a whole stream (Marked, Whole) and the times (Times). Godash.Hls: ChangeBufferLevels of
--   godash/hlsfunc/hlsFunctions.go.
-- Tests: runs of the definitions, and the theorems at concrete inputs.
--
-- Bounds. Lengths and counts are natural numbers without a bound: the source's are `int` and `uint`,
-- and stay below 2^53, where its floating-point quotients are exact. `required` is written modulo 2^64
-- and the numbers of a packet modulo 2^32, as in the source. The integers of godash/algorithms (throughputs,
-- durations, buffer levels, indices) and of a parsed MPD file are not negative.
-- Fuel. The loops count down from a bound computed where the source computes it. `remove_loop` has one
-- round for each row at the start, since a round removes a row or goes to the next. `split_from` has
-- one round for each byte and one more, enough for a chunk size that is not zero. `raise_index` has one
-- round for each index up to the lowest, where the loop ends. `stream_loop` has one round for each
-- call of streamLoop; the segments last a second or more, and a call for each second of the stream and
-- one more are enough. The digits of a number are at most as many as the number and one. The receive loop
-- ends with the list of frames.
--
-- Not modelled: the sharing of memory between a coded piece and the decoder's rows (rows are
-- values); the QUIC streams and sessions (every write succeeds, every read gives a whole frame, and the
-- stream stays open),
-- mp-quic, which is a library of another project; the certificates; the program that starts the servers.
-- Of godash: the network, the reading of XML and JSON, the columns of the printed log, the audio track
-- beside the video and the replaced segments of hls in streamLoop, its main function, the collaboration
-- of players (P2Pconsul), and P.1203 of godash/qoe,
-- which is an external program.
pub mod Base
pub mod Run
pub mod Field
pub mod Kodr
pub mod Xnc
pub mod Tests
pub mod Godash
