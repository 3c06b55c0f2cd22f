-- ===== src/Lib.antt =====
-- rtmpx: the chunk layer of the crate, its messages, handshake, media bodies and server sessions.
--
-- The crate speaks RTMP. A session turns interpreted messages into raw ones (src/messages), encodes
-- them into chunk packets that are written in parts (src/chunk_io/serializer.rs, over the segmented
-- payloads of src/payload.rs), and on the other side parses chunks from any cut of the byte stream and
-- assembles messages (src/chunk_io/streaming.rs). Timestamps are those of src/time.rs. Sessions keep
-- their media streams in a registry behind handles (src/sessions/streams.rs). Before all that both ends
-- exchange the packets of a handshake (src/handshake). Audio and video bodies are parsed where they lie,
-- in one piece or in segments (src/flv.rs).
--
--   Prelude    shared names, tests on numbers, lists, hash maps (Map), machine words (Bytes) and the
--              outcome of a Rust call (Results): a value, a returned error, or `stuck`, which stands
--              for a panic or for fuel that ran out
--   Time       RtmpTimestamp; Time/Serial: its arithmetic across the wrap
--   Payload    Payload and PayloadReader; Payload/Segments, Walk and Reading: the bytes of a payload and
--              those that a reader gives; View: PayloadView, and View/Places: where its ends stand
--   Messages   Raw: RawMessage; Message: RtmpMessage; Control: the serialize and deserialize functions
--              of src/messages/types; Convert: to_rtmp_message and from_rtmp_message; RoundTrip
--   Chunk      Types: headers, limits and errors
--              Parser: ChunkParser, with begin_chunk in Parser/Begin and consume in Parser/Consume;
--              Parser/Reading, Total and Steps: how it reads, and its invariant
--              Encoder: InlineHeader::encode and ChunkEncoder::encode; Encoder/Resize: set_chunk_size
--              and serialize
--              Packet: Packet and PacketCursor; below it, what its cursor passes over
--              Decoder: MessageDecoder; Decoder/Total, Accounts, Reached and Reserved: its loop, its
--              counts and what it reserves
--              Wire: the wire form of a message, cut into chunks, by itself
--              Link: both ends of a connection, with packets left out
--              RoundTrip: the agreement between encoder and parser (Sync), and what it leads to
--   Handshake  Digest: the digests of src/handshake/mod.rs; Packets: Handshake and its methods, with the
--              keyed hash as the parameter `hmac` and the random generator as a stream of bytes;
--              Rounds, Pieces and Split: a round of its loop, and input in pieces; Total and Safe: its
--              errors; Recognised: the digest that a peer finds; Meeting: both ends
--   Flv        Cursor: the cursor of src/flv.rs over any MediaData; Audio and Video: ParsedAudio and
--              ParsedVideo and their demux, over what they call on a cursor; Same: a parse of a body in
--              segments beside one of a plain list; Views: PayloadView as MediaData; Whole: both forms
--   Sessions   Streams: the registry of src/sessions/streams.rs; below it, what handles find, and the
--              wire ids (Wires); Values: what sessions ask of AMF values; Limits and Data:
--              src/sessions/limits.rs and data.rs
--              Server: src/sessions/server; Types: its state, events and outputs; Send: to_payload and
--              the responses; Commands and Requests: the handlers of commands; Decisions: accept and
--              reject; Events: media and control messages, and handle_message; Receive: receive;
--              Output: new, and what the application sends. Good: what every call keeps, with a module
--              for each of these; Safe: the sessions that calls lead to; Published: who may publish;
--              Ids: stream ids as the numbers of AMF; Answered, Deleted and
--              Created: what createStream answers with and leaves
--   Tests      runs on small inputs
--
-- Conventions. Bytes and machine words are natural numbers, with the wrap written out; what a function
-- relies on of their size is a hypothesis. A `&mut self` method takes the state and returns the new
-- one; where the source leaves an object to be discarded after an error, no state is returned. The
-- buffer of the parser's header is the list of its used bytes. Owned and borrowed input hold the same
-- bytes; what is copied is told by a flag. An allocation's capacity is an argument, since the library
-- bytes chooses it. A hash map is a list of pairs with distinct keys.
--
-- Fuel. The loop of `consume` has 20 rounds: a header has at most 18 bytes, a round adds one or is one
-- of the last two. `decode_input` has a round for each byte of its input and one more: a turn that asks
-- for another one takes a byte at least. `advance` has a round for each byte it passes over, and
-- `copy_to` one for each byte that remains. `process_bytes` of the handshake has a round for each of its
-- five stages. The loops over modifier extensions and over tracks of a media body have a round for each
-- byte that is left and one more, and the loops of `PayloadView::slice` one for each segment and one.
-- `receive` of a session has its fuel as an argument; what is stated is of the rounds of its loop.
--
-- Sessions. A call on a server session takes the session and returns it with an outcome, also where
-- it ends in an error. An f64 is its 64 bits. The time that is read is a parameter, the sequence of
-- readings, and so is the number that the process-wide counter gives a session.
--
-- Not modelled. AMF values and the message bodies made of them stand as an interface (AmfBodies of
-- Messages/Convert, Outside of Sessions/Values): src/amf/amf0.rs is a changed copy of another crate.
-- PayloadPool, the contiguous decoder, client sessions, `send_metadata`, the facts drawn from media
-- bodies and metadata are left out; `debug_assert!` is off. A `FlvError`'s message is a constructor.
pub mod Prelude
pub mod Time
pub mod Payload
pub mod Messages
pub mod Chunk
pub mod Handshake
pub mod Flv
pub mod Sessions
pub mod Tests
