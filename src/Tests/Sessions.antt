-- ===== src/Tests/Sessions.antt =====
-- Runs of a server session: a connection, a stream and its publication.
use rtmpx.Prelude.{
  ℕ, ◌-◌, ◌^◌, ◌<◌, ◌≡◌, ◌⊎◌, refl, arith, true, some, List, [], ◌∷◌, Outcome, ok, err, ◌==◌,
  if◌then◌else◌,
}
use rtmpx.Prelude.Bytes.{Byte}
use rtmpx.Time
use rtmpx.Messages.Message
use rtmpx.Messages.Message.{RtmpMessage, MessageDeserializationError, in_amf0, amf_not_deserialized}
use rtmpx.Messages.Convert.{AmfBodies}
use rtmpx.Messages.Total.{Returns, IsTotal}
use rtmpx.Chunk.Types.{default_limits}
use rtmpx.Sessions.Limits.{default_limits as session_limits}
use rtmpx.Sessions.Values.{View, number, utf8_string, object, other, Outside}
use rtmpx.Chunk.Encoder.{default_options}
use rtmpx.Sessions.Data.{live}
use rtmpx.Sessions.Streams.{StreamHandle}
use rtmpx.Sessions.Server.Receive.{returned}
use rtmpx.Sessions.Server.Types.{
  connected as in_connection, publishing, audio_data_received, event_output, ServerSessionConfig,
  ServerSession,
}
use rtmpx.Sessions.Server.Safe.{
  Reachable, reach_new, reach_pop, reach_round, reach_accept, Reachable-Returns,
  Reachable-stream_id,
}
use rtmpx.Sessions.Server.Good.{Ends}
use rtmpx.Sessions.Server.Created.{Created, Refused, handle_command_create_stream-Created}
use rtmpx.Sessions.Server.Commands.{handle_command_create_stream}
use rtmpx.Sessions.Server.Published.{
  Published, Requested, receive_round-Published, accept_request-Published,
}
use rtmpx.Prelude.Text.{codes}
use rtmpx.Chunk.Decoder as ChunkDecoder
use rtmpx.Chunk.Encoder.Resize as ChunkEncoderResize
use rtmpx.Chunk.Parser as ChunkParser
use rtmpx.Prelude.Map as PreludeMap
use rtmpx.Sessions.Streams as SessionsStreams
use rtmpx.Prelude.Map.{lookup}
use rtmpx.Payload.{to_bytes, from_bytes}
use rtmpx.Messages.Convert.{to_rtmp_message, from_rtmp_message}
use rtmpx.Chunk.Encoder.{encode}
use rtmpx.Chunk.Encoder.Resize.{serialize}
use rtmpx.Chunk.Parser.{basic_len, csid_of, header_needed}
use rtmpx.Chunk.Parser.Begin.{chunk_header, chunk_time, begin_chunk}
use rtmpx.Chunk.Parser.Consume.{fill, header_loop, consume}
use rtmpx.Chunk.Decoder.{turn, decode_loop, decode}
use rtmpx.Sessions.Streams.{position, find}
use rtmpx.Sessions.Limits.{check_streams, check_requests}
use rtmpx.Sessions.Server.Send.{◌>>=◌, call}
use rtmpx.Sessions.Server.Decisions.{accept_request_with_properties, reject_request}
use rtmpx.Sessions.Server.Receive.{pop, receive_round, settle_failure}
use rtmpx.Sessions.Server.Output.{stream_id, send_media, send_ping_request, complete_playback, new}

-- A few AMF values.
data Sample : Type 0 where
  sample_null : Sample
  sample_number : ℕ → Sample
  sample_text : List Byte → Sample
  sample_app : List Byte → Sample

abbrev sample_view : Sample → View Sample
sample_view sample_null = other
sample_view (sample_number x) = number x
sample_view (sample_text text) = utf8_string text
sample_view (sample_app app) = object ((codes "app", sample_text app) ∷ [])

-- Commands by number, and nothing else; what is written is left empty.
abbrev sample_command : List Byte → Outcome MessageDeserializationError (RtmpMessage Sample Sample)
sample_command [] = err amf_not_deserialized
sample_command (n ∷ _) =
    if n == 1
    then ok (Message.amf0_command (codes "connect") 0 (sample_app (codes "live/")) [])
    else if n == 2
    then ok (Message.amf0_command (codes "createStream") 0 sample_null [])
    else if n == 3
    then ok (
        Message.amf0_command (codes "publish") 0 sample_null
          (sample_text (codes "key") ∷ sample_text (codes "LIVE") ∷ []))
    else err amf_not_deserialized

abbrev sample_bodies : AmfBodies Sample Sample
sample_bodies = record {
  write_amf0_command = λ name id command more. ok [];
  write_amf0_data = λ values. ok [];
  write_amf3_command = λ name id command more format. ok [];
  write_amf3_data = λ values format. ok [];
  read_amf0_command = sample_command;
  read_amf0_data = λ body. err amf_not_deserialized;
  read_amf3_command = λ body. err amf_not_deserialized;
  read_amf3_data = λ body. err amf_not_deserialized;
  read_amf3_values = λ body. err amf_not_deserialized;
}

abbrev sample : Outside Sample Sample
sample = record {
  bodies = sample_bodies;
  view = sample_view;
  of_number = sample_number;
  of_boolean = λ b. sample_null;
  of_string = sample_text;
  of_object = λ fields. sample_null;
  null = sample_null;
  to_amf3 = λ v. v;
  to_amf0 = λ v. v;
  clock = λ tick. tick;
  capacity_of = λ n. n;
}

abbrev config : ServerSessionConfig
config = record {
  fms_version = codes "FMS/3,0,1,1233";
  chunk_size = 4096;
  peer_bandwidth = 2500000;
  window_ack_size = 1073741824;
  send_on_bw_done_message_on_start = true;
  max_object_encoding = in_amf0;
  decoder_limits = default_limits;
  session_limits = session_limits;
}

-- A command message in one chunk.
abbrev command : Byte → Byte → List Byte
command wire n = 0x03 ∷ 0 ∷ 0 ∷ 0 ∷ 0 ∷ 0 ∷ 1 ∷ 20 ∷ wire ∷ 0 ∷ 0 ∷ 0 ∷ n ∷ []

-- The session, through connect, createStream and publish, each request accepted; then audio comes.
unfoldable fresh : ServerSession Sample
fresh = (new sample config 0).0

unfoldable connected : ServerSession Sample
connected =
    let asked = (settle_failure sample (receive_round sample fresh (command 0 1))).0 in
    (accept_request_with_properties sample asked 0 []).0

unfoldable with_stream : ServerSession Sample
with_stream =
    let drained = (pop (pop (pop (pop (pop (pop connected).0).0).0).0).0).0 in
    (settle_failure sample (receive_round sample drained (command 0 2))).0

unfoldable publisher : ServerSession Sample
publisher =
    let asked = (settle_failure sample (receive_round sample with_stream (command 1 3))).0 in
    (accept_request_with_properties sample asked 1 []).0

unfoldable ready : ServerSession Sample
ready = (pop (pop publisher).0).0

abbrev handle : StreamHandle
handle = record { session = 0; slot = 0; generation = 1 }

abbrev audio : List Byte
audio = 0x04 ∷ 0 ∷ 0 ∷ 0 ∷ 0 ∷ 0 ∷ 1 ∷ 8 ∷ 1 ∷ 0 ∷ 0 ∷ 0 ∷ 0xaf ∷ []

fresh_lem : new sample config 0 ≡ (fresh, ok tt)
unfolding lookup PreludeMap.insert SessionsStreams.insert PreludeMap.remove to_bytes from_bytes
    to_rtmp_message from_rtmp_message encode ChunkEncoderResize.set_chunk_size serialize
    ChunkParser.with_limits ChunkDecoder.with_limits basic_len csid_of header_needed chunk_header
    chunk_time begin_chunk fill header_loop consume turn decode_loop decode position find
    check_streams check_requests ◌>>=◌ call accept_request_with_properties reject_request pop
    receive_round settle_failure stream_id send_media send_ping_request complete_playback new fresh
fresh_lem = refl

connected-Reachable : Reachable sample config connected
unfolding connected
connected-Reachable = reach_accept 0 [] (reach_round (command 0 1) (reach_new 0 fresh_lem))

with_stream-Reachable : Reachable sample config with_stream
unfolding with_stream
with_stream-Reachable =
    reach_round (command 0 2)
      (reach_pop (reach_pop (reach_pop (reach_pop (reach_pop (reach_pop connected-Reachable))))))

publisher-Reachable : Reachable sample config publisher
unfolding publisher
publisher-Reachable = reach_accept 1 [] (reach_round (command 1 3) with_stream-Reachable)

ready-Reachable : Reachable sample config ready
unfolding ready
ready-Reachable = reach_pop (reach_pop publisher-Reachable)

command-Returns : (body : List Byte) → Returns (sample_command body)
command-Returns [] = tt
command-Returns (n ∷ rest) = ground arith

sample-IsTotal : IsTotal sample_bodies
sample-IsTotal = record {
  writes_command = λ name id command more. tt;
  writes_data = λ values. tt;
  writes_command3 = λ name id command more format. tt;
  writes_data3 = λ values format. tt;
  reads_command = command-Returns;
  reads_data = λ body. tt;
  reads_command3 = λ body. tt;
  reads_data3 = λ body. tt;
  reads_values3 = λ body. tt;
}

room : config.decoder_limits.maximum_buffered_bytes < 2 ^ 64 - 1
room = omega arith

-- The audio of the published stream comes out as an event.
audio_lem :
    (receive_round sample ready audio).1
    ≡ ok (
      [],
      returned (
          some (
            event_output (
              audio_data_received
                (record { session = 0; slot = 0; generation = 1 })
                1
                (codes "live")
                (codes "key")
                (from_bytes (0xaf ∷ []))
                (record { value = 0 })))),
    )
unfolding lookup PreludeMap.insert SessionsStreams.insert PreludeMap.remove to_bytes from_bytes
    to_rtmp_message from_rtmp_message encode ChunkEncoderResize.set_chunk_size serialize
    ChunkParser.with_limits ChunkDecoder.with_limits basic_len csid_of header_needed chunk_header
    chunk_time begin_chunk fill header_loop consume turn decode_loop decode position find
    check_streams check_requests ◌>>=◌ call accept_request_with_properties reject_request pop
    receive_round settle_failure stream_id send_media send_ping_request complete_playback new ready
    publisher with_stream connected fresh Time.new
audio_lem = refl

still_published : Published (receive_round sample ready audio).0 1 (codes "key")
unfolding lookup PreludeMap.insert SessionsStreams.insert PreludeMap.remove to_bytes from_bytes
    to_rtmp_message from_rtmp_message encode ChunkEncoderResize.set_chunk_size serialize
    ChunkParser.with_limits ChunkDecoder.with_limits basic_len csid_of header_needed chunk_header
    chunk_time begin_chunk fill header_loop consume turn decode_loop decode position find
    check_streams check_requests ◌>>=◌ call accept_request_with_properties reject_request pop
    receive_round settle_failure stream_id send_media send_ping_request complete_playback new ready
    publisher with_stream connected fresh
still_published = refl

receive_round-Published_example : Published ready 1 (codes "key")
receive_round-Published_example =
    receive_round-Published sample config sample-IsTotal room ready audio 1 (codes "key")
      ready-Reachable still_published

abbrev asking : ServerSession Sample
asking = (settle_failure sample (receive_round sample with_stream (command 1 3))).0

accepted : Published (accept_request_with_properties sample asking 1 []).0 1 (codes "key")
unfolding lookup PreludeMap.insert SessionsStreams.insert PreludeMap.remove to_bytes from_bytes
    to_rtmp_message from_rtmp_message encode ChunkEncoderResize.set_chunk_size serialize
    ChunkParser.with_limits ChunkDecoder.with_limits basic_len csid_of header_needed chunk_header
    chunk_time begin_chunk fill header_loop consume turn decode_loop decode position find
    check_streams check_requests ◌>>=◌ call accept_request_with_properties reject_request pop
    receive_round settle_failure stream_id send_media send_ping_request complete_playback new
    with_stream connected fresh
accepted = refl

accept_request-Published_example :
    Published asking 1 (codes "key") ⊎ Requested asking 1 1 (codes "key")
accept_request-Published_example =
    accept_request-Published sample config sample-IsTotal room asking 1 [] 1 (codes "key")
      (reach_round (command 1 3) with_stream-Reachable) accepted

Reachable-Returns_example :
    Returns (receive_round sample ready audio).1
    × Returns (accept_request_with_properties sample ready 1 []).1
    × Returns (reject_request sample ready 1 (codes "NetStream.Publish.BadName") []).1
    × Returns
        (send_media ready handle 8 (from_bytes audio) (record { value = 0 }) default_options).1
    × Returns (send_ping_request sample ready).1
    × Returns (complete_playback sample ready handle).1
Reachable-Returns_example =
    Reachable-Returns sample config sample-IsTotal room ready audio 1 []
      (codes "NetStream.Publish.BadName") [] handle 8 (from_bytes audio) (record { value = 0 })
      default_options ready-Reachable

there :
    lookup 1 ready.active_streams ≡ some (record { current_state = publishing (codes "key") live })
unfolding lookup PreludeMap.insert SessionsStreams.insert PreludeMap.remove to_bytes from_bytes
    to_rtmp_message from_rtmp_message encode ChunkEncoderResize.set_chunk_size serialize
    ChunkParser.with_limits ChunkDecoder.with_limits basic_len csid_of header_needed chunk_header
    chunk_time begin_chunk fill header_loop consume turn decode_loop decode position find
    check_streams check_requests ◌>>=◌ call accept_request_with_properties reject_request pop
    receive_round settle_failure stream_id send_media send_ping_request complete_playback new ready
    publisher with_stream connected fresh
there = refl

Reachable-stream_id_example :
    (h : StreamHandle) × (find ready.stream_handles 1 ≡ some h) × (stream_id ready h ≡ some 1)
Reachable-stream_id_example =
    Reachable-stream_id sample config sample-IsTotal room ready 1
      (record { current_state = publishing (codes "key") live }) ready-Reachable there

live_app : (ready.current_state ≡ in_connection) × (ready.connected_app_name ≡ some (codes "live"))
unfolding lookup PreludeMap.insert SessionsStreams.insert PreludeMap.remove to_bytes from_bytes
    to_rtmp_message from_rtmp_message encode ChunkEncoderResize.set_chunk_size serialize
    ChunkParser.with_limits ChunkDecoder.with_limits basic_len csid_of header_needed chunk_header
    chunk_time begin_chunk fill header_loop consume turn decode_loop decode position find
    check_streams check_requests ◌>>=◌ call accept_request_with_properties reject_request pop
    receive_round settle_failure stream_id send_media send_ping_request complete_playback new ready
    publisher with_stream connected fresh
live_app = (refl, refl)

-- A second stream beside the published one.
handle_command_create_stream-Created_example :
    Ends
      (λ s'. Refused sample ready 0)
      (Created sample ready 0)
      (handle_command_create_stream sample ready 0)
handle_command_create_stream-Created_example =
    handle_command_create_stream-Created sample config ready 0 (codes "live") sample-IsTotal room
      (λ x. refl) ready-Reachable live_app.0 live_app.1
