-- ===== src/Tests/Handshakes.antt =====
-- Small runs of the handshake, with a hash that gives the input's length.
use rtmpx.Prelude.{◌%◌, ◌≡◌, List, [], ◌∷◌, ◌++◌, length, length-replicate, replicate, ok}
use rtmpx.Prelude.Bytes.{Byte}
use rtmpx.Handshake.Digest.{get_digest_for_received_packet}
use rtmpx.Handshake.Packets.{
  server, Rng, Handshake, new, key_of, generate_outbound_p0_and_p1, process_bytes,
}
use rtmpx.Handshake.Total.{length-new}
use rtmpx.Handshake.Split.{then_process, process_bytes-append}
use rtmpx.Handshake.Safe.{IsSafe, process_bytes-IsSafe}
use rtmpx.Handshake.Recognised.{generate-get_digest}
use rtmpx.Handshake.Meeting.{Meeting, meeting}

abbrev length_hmac : List Byte → List Byte → List Byte
length_hmac key input = replicate 32 (length input % 256)

length_hmac_length : (key input : List Byte) → length (length_hmac key input) ≡ 32
length_hmac_length key input = length-replicate 32 (length input % 256)

abbrev counting : Rng
counting k = k % 256

abbrev new_server : Handshake
new_server = new server counting

process_bytes-append_example :
    process_bytes length_hmac new_server ((3 ∷ 1 ∷ []) ++ (2 ∷ []))
    ≡ then_process length_hmac (2 ∷ []) (process_bytes length_hmac new_server (3 ∷ 1 ∷ []))
process_bytes-append_example = process_bytes-append length_hmac new_server (3 ∷ 1 ∷ []) (2 ∷ [])

process_bytes-IsSafe_example :
    IsSafe new_server.current_stage (process_bytes length_hmac new_server (4 ∷ []))
process_bytes-IsSafe_example =
    process_bytes-IsSafe length_hmac length_hmac_length new_server (4 ∷ [])
      (length-new server counting)

generate-get_digest_example :
    (p : List Byte) × (digest : List Byte) × ((generate_outbound_p0_and_p1 length_hmac new_server).1
      ≡ ok (3 ∷ p))
    × (get_digest_for_received_packet length_hmac p (key_of new_server.peer_type) ≡ ok digest)
generate-get_digest_example =
    generate-get_digest length_hmac length_hmac_length new_server (length-new server counting)

meeting_example : Meeting length_hmac length_hmac_length counting counting (9 ∷ []) []
meeting_example = meeting length_hmac length_hmac_length counting counting (9 ∷ []) []
