-- ===== src/Lib.antt =====
-- A model of Waveguide, a live-video server: FTL, WHIP, RTMP, Janus and file ingest, WHEP output, the
-- manager of streams, the services, the orchestrators and the assembly of keyframes, with the theorems
-- that make these parts correct and those that show where they are not.
--
-- The program. A streamer's FTL client opens a control connection (pkg/protocols/ftl), answers a
-- challenge with an HMAC, describes its media and sends RTP over UDP. The handler of the connection
-- (internal/inputs/ftl), like those of the other inputs, starts and stops streams in the manager
-- (pkg/control), which tells a service (pkg/services) and an orchestrator (pkg/orchestrators), counts failures
-- in a heartbeat, and sends thumbnails that are made of keyframes (pkg/control/keyframer.go, pkg/h264).
-- The WHEP output offers a stream's tracks to viewers, of which the maker of thumbnails is one.
--
-- Base holds what the modules share: numbers and Boolean tests on the native naturals, lists, panics
-- (`Outcome`), bytes and little-endian words, Go slices with their capacity, and strings as bytes,
-- with strings.Split, SplitN, Atoi and ParseUint in Base.Split, path.Base in Base.Paths, and in
-- Base.Decimal that Atoi reads what `%d` writes.
-- Scanner is bufio.Scanner over a list of reads; Halting is about its end, and Readers applies that to
-- the two split functions of the program. Machine integers keep their wrap-around, `% 2 ^ w`.
--
-- Messaging: pkg/orchestrators/ftl_orchestrator/messaging.go. Types has the structs, Encode and Decode
--   one function to each Encode method and Decode function.
-- Orchestrator: pkg/orchestrators/ftl_orchestrator/ftl_orchestrator.go. Client has NewClient, Connect,
--   Close, StartStream, StopStream and sendMessage; Receive has eternalRead, splitOrchestratorMessages,
--   parseMessage and handleMessage, whose callbacks are a list of calls. Framing, Truncated and
--   Dispatch are about the reader, Sending about the writer.
--   Router has pkg/orchestrators/rt_orchestrator/rt_orchestrator.go, and Router.Endpoint its meeting with
--   the WHEP output.
-- Ftl: pkg/protocols/ftl and internal/inputs/ftl. Regex has the two expressions of ftl.go, Lines the
--   split function (Lines.Chunks runs it in the scanner), Connection the state, Server the commands and
--   the loop of server.go, Media the loop over datagrams, Client the client of client.go, Handler
--   connHandler, and Handler.Keeping the accept loop. The server is a section over a record `Handler`,
--   which is the Go interface, and over HMAC-SHA512; Ftl.Handler fills the record. Server.Keeping is about
--   what a handler keeps. Meeting puts the client before the server: Texts and Commands are about its
--   messages, Replies about the server's, Calling about the client's side, Serving and Dial about the whole.
-- Control: pkg/control. Types has the state, Manager the operations of control.go, Stream those of
--   stream.go and metadata.go, Heartbeat the counter of setupHeartbeat, Report sendMetadata and
--   sendThumbnail. Rules has the manager's invariant, `IsWell`, Lifecycle is about StartStream and
--   Shutdown as a whole, and Begun has the state that a start leaves.
--   Race has concurrent calls of StopStream as a step relation, a step to each send, remote call and change
--   of the state; Invariant, Changes, Steps, Stages and Fair show what every run keeps, Verdict what
--   follows.
--   Remote has the interfaces of service.go and orchestrator.go as records, and StartStream and StopStream
--   with parties that fill them, whose state follows from the history of the requests.
--   Http has the address and the listener of http.go, and Thumbnailer the negotiation of thumbnailer.go.
-- Services: pkg/services and pkg/orchestrators/dummy_orchestrator as such parties. Dummy has both dummies,
--   Glimesh the calls of the API that glimesh.go makes, and Glimesh.Rounds a stream from start to stop.
-- Inputs: Whip has internal/inputs/whip/whip.go, the handler of one HTTP request, the callbacks and the
--   timeout as functions on a `Source`; Access is about who may start and stop a stream, Lifetime about
--   what requests, callbacks and timeouts do to the map when they come one after another, and Overlap about a
--   DELETE beside the callback that it causes. Rtmp has the handler of
--   internal/inputs/rtmp/rtmp.go from publication to close, Session what it does to the manager, and
--   Media its OnAudio and OnVideo over a record `Codecs` of the libraries' functions. Janus has
--   internal/inputs/janus/janus.go, the requests to the server, the long poll and the negotiation, and File
--   has internal/inputs/fs/fs.go; Crash and Exit are about the way they end.
-- Outputs: Whep has the server of internal/outputs/whep/whep.go, the handlers of /whep/endpoint/ and
--   /whep/resource/ and the callbacks; Whep.Leak is about what becomes of its connections, and Whep.Thumbs
--   about the thumbnailer as a viewer.
-- Video: pkg/h264/util.go (Nal), pkg/h264/h264writer.go (Writer) and pkg/control/keyframer.go (Keyframer).
-- Program: main.go, the steps of the start and the choice of the parts by their names.
--
-- Bounds. The scanner drains a buffer on fuel, one more than its length, and each token that it yields
-- shortens the buffer. The loop of OnAudio runs on one more than the length of its buffer, of which each
-- round takes a block. Decimal numbers are written with fuel for twenty digits, enough for 64 bits.
-- The other functions are structural recursions.
--
-- What is not in src, and so a parameter or an answer: the API of Glimesh and the router, the
-- operating system and the file system, net/http, viper, Janus, pion's connections, depacketizer, RTP
-- parser and tracks, HMAC-SHA512, SHA-256, the H.264 decoder and the JPEG encoder. What the service and
-- the orchestrator say to the manager are `Answers` there, which Remote takes from the parties.
--
-- Not modelled: logging, deadlines and timers, the other accept loops, goroutines that run at the same
-- time but for the calls of StopStream (a reader of a UDP socket, say, beside the
-- control connection), the TLS settings and the registration of HTTP handlers, the fields
-- of the configuration and the interrupt in main.go, the HLS output, which is a stub, and the H.264
-- decoder, a binding of ffmpeg.
pub mod Base
pub mod Scanner
pub mod Messaging
pub mod Orchestrator
pub mod Video
pub mod Control
pub mod Ftl
pub mod Inputs
pub mod Outputs
pub mod Services
pub mod Program
