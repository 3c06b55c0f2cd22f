-- ===== src/Handshake/Digest.antt =====
-- The digest of a handshake packet: where it stands and how it is computed (src/handshake/mod.rs).
-- The keyed hash, SHA-256 by the crates hmac and sha2, is the parameter `hmac`, of a key and an input.
use rtmpx.Prelude.{
  ℕ, ◌+◌, ◌%◌, List, ◌++◌, length, get_or, take, drop, leb, ◌==◌, if◌then◌else◌, Outcome, ok, err,
  stuck, ◌>>=◌,
}
use rtmpx.Prelude.Bytes.{Byte}
use rtmpx.Prelude.Text.{codes}
unfoldable pub use rtmpx.Prelude.Text.{equal_bytes}

pub data HandshakeError : Type 0 where
  bad_version_id non_zeroed_time_in_packet1 incorrect_peer_time incorrect_random_data :
      HandshakeError
  handshake_already_completed unknown_packet1_format invalid_p2_packet io : HandshakeError

abbrev pub rtmp_packet_size : ℕ
rtmp_packet_size = 1536

abbrev pub sha256_digest_length : ℕ
sha256_digest_length = 32

abbrev pub genuine_fms_const : List Byte
genuine_fms_const = codes "Genuine Adobe Flash Media Server 001"

abbrev pub genuine_fp_const : List Byte
genuine_fp_const = codes "Genuine Adobe Flash Player 001"

-- `slice.split_at(n)`, which panics past the end.
unfoldable pub split_at : ℕ → List Byte → Outcome HandshakeError (List Byte × List Byte)
split_at n bytes = if leb n (length bytes) then ok (take n bytes, drop n bytes) else stuck

pub record MessageParts : Type 0 where
  pub before_digest : List Byte
  pub after_digest : List Byte
  pub digest : List Byte

-- Packets are arrays of the packet size, so these indices are in range.
unfoldable pub get_server_digest_offset : List Byte → ℕ
get_server_digest_offset packet =
    (get_or packet 772 0 + get_or packet 773 0 + get_or packet 774 0 + get_or packet 775 0) % 728
    + 776

unfoldable pub get_client_digest_offset : List Byte → ℕ
get_client_digest_offset packet =
    (get_or packet 8 0 + get_or packet 9 0 + get_or packet 10 0 + get_or packet 11 0) % 728 + 12

unfoldable pub get_message_parts : List Byte → ℕ → Outcome HandshakeError MessageParts
get_message_parts handshake digest_offset = split_at digest_offset handshake >>= λ (part1, rest).
    split_at sha256_digest_length rest >>= λ (raw_digest, part2).
    ok (record { before_digest = part1; after_digest = part2; digest = raw_digest })

module _ (hmac : List Byte → List Byte → List Byte) where
  unfoldable pub calc_hmac : List Byte → List Byte → Outcome HandshakeError (List Byte)
  calc_hmac input key = if length (hmac key input) == 32 then ok (hmac key input) else stuck

  unfoldable pub calc_hmac_from_parts :
      List Byte → List Byte → List Byte → Outcome HandshakeError (List Byte)
  calc_hmac_from_parts part1 part2 key = calc_hmac (part1 ++ part2) key

  unfoldable pub parts_hmac :
      List Byte → List Byte → ℕ → Outcome HandshakeError (List Byte × List Byte)
  parts_hmac packet key offset = get_message_parts packet offset >>= λ parts.
      calc_hmac_from_parts parts.before_digest parts.after_digest key >>= λ computed.
      ok (computed, parts.digest)

  -- Both places are tried, whichever the peer's role.
  unfoldable pub get_digest_for_received_packet :
      List Byte → List Byte → Outcome HandshakeError (List Byte)
  get_digest_for_received_packet packet key =
      parts_hmac packet key (get_client_digest_offset packet) >>= λ (v1_hmac, v1_digest).
      parts_hmac packet key (get_server_digest_offset packet) >>= λ (v2_hmac, v2_digest).
      if equal_bytes v1_hmac v1_digest
      then ok v1_digest
      else if equal_bytes v2_hmac v2_digest
      then ok v2_digest
      else err unknown_packet1_format
