-- ===== src/Packets/Sizes.antt =====
-- No packet of src/manager/packets.rs is too long for one datagram.
use ubass_rs.Base.{◌*◌, ◌≤◌, ◌≡◌, refl, arith, Bool, false, length, none}
use ubass_rs.Base.Outcome.{ok}
use ubass_rs.Wire.Codec.{Bytes}
use ubass_rs.Packets.Scalars.{max_payload_length, parity_max_payload_length}
use ubass_rs.Packets.Packet.{Packet, packet_to_wire}
use ubass_rs.Packets.RoundTrip.{IsPacket, packet_bytes, packet_round_trip}
use ubass_rs.Packets.Handshake.Laws.{
  hello_packet_codec-Lawful, handshake_ack_packet_codec-Lawful,
  incompatible_version_packet_codec-Lawful,
}
use ubass_rs.Packets.Handshake.Laws.{handshake_rejection_codec-Lawful}
use ubass_rs.Packets.Control.Laws.{
  track_request_packet_codec-Lawful, playback_control_packet_codec-Lawful,
  track_rejection_packet_codec-Lawful,
}
use ubass_rs.Packets.Control.Laws.{close_session_packet_codec-Lawful}
use ubass_rs.Packets.Streams.Laws.{
  data_packet_codec-Lawful, metadata_packet_codec-Lawful, parity_packet_codec-Lawful,
}
use ubass_rs.Packets.Streams.Empty.{retransmit_or_empty-Lawful}
use ubass_rs.Packets.Replies.Laws.{ack_packet_codec-Lawful, keep_alive_packet_codec-Lawful}
use ubass_rs.Packets.Replies.Refused.{
  session_does_not_exist_explicit-Lawful, unexpected_packet_explicit-Lawful,
}

-- The payload of a packet, if it has one, is not longer than the constructors assert.
abbrev pub HasPayloadThatFits : Packet → Type 0
HasPayloadThatFits (Packet.hello_packet _) = Unit
HasPayloadThatFits (Packet.track_request_packet p) = length p.payload ≤ max_payload_length
HasPayloadThatFits (Packet.data_packet p) = length p.payload ≤ max_payload_length
HasPayloadThatFits (Packet.metadata_packet p) = length p.payload ≤ max_payload_length
HasPayloadThatFits (Packet.parity_packet p) = length p.payload ≤ parity_max_payload_length
HasPayloadThatFits (Packet.ack_packet _) = Unit
HasPayloadThatFits (Packet.keep_alive_packet _) = Unit
HasPayloadThatFits (Packet.handshake_ack_packet _) = Unit
HasPayloadThatFits (Packet.retransmit_packet p) = length p.payload * 6 ≤ max_payload_length
HasPayloadThatFits (Packet.playback_control_packet _) = Unit
HasPayloadThatFits (Packet.incompatible_version_packet _) = Unit
HasPayloadThatFits (Packet.session_does_not_exist_error_packet _) = Unit
HasPayloadThatFits (Packet.unexpected_packet_error_packet _) = Unit
HasPayloadThatFits (Packet.track_rejection_packet p) = length p.payload ≤ max_payload_length
HasPayloadThatFits (Packet.close_session_packet _) = Unit
HasPayloadThatFits (Packet.handshake_rejection _) = Unit

length-packet_bytes :
    (p : Packet) → IsPacket p → HasPayloadThatFits p → length (packet_bytes p) ≤ 1404
length-packet_bytes (Packet.hello_packet p) h fits =
    omega (arith, (hello_packet_codec-Lawful false).size p h)
length-packet_bytes (Packet.track_request_packet p) h fits =
    omega (arith, track_request_packet_codec-Lawful.size p h, fits)
length-packet_bytes (Packet.data_packet p) h fits =
    omega (arith, data_packet_codec-Lawful.size p h, fits)
length-packet_bytes (Packet.metadata_packet p) h fits =
    omega (arith, metadata_packet_codec-Lawful.size p h, fits)
length-packet_bytes (Packet.parity_packet p) h fits =
    omega (arith, parity_packet_codec-Lawful.size p h, fits)
length-packet_bytes (Packet.ack_packet p) h fits = omega (arith, ack_packet_codec-Lawful.size p h)
length-packet_bytes (Packet.keep_alive_packet p) h fits = omega (
  arith,
  keep_alive_packet_codec-Lawful.size (record p { address = none })
      (h.0, (h.1.0, (tt, (tt, (h.1.1.1.1.0, (h.1.1.1.1.1, refl)))))),
)
length-packet_bytes (Packet.handshake_ack_packet p) h fits =
    omega (arith, handshake_ack_packet_codec-Lawful.size p h)
length-packet_bytes (Packet.retransmit_packet p) h fits =
    omega (arith, (retransmit_or_empty-Lawful false).size p h, fits)
length-packet_bytes (Packet.playback_control_packet p) h fits =
    omega (arith, playback_control_packet_codec-Lawful.size p h)
length-packet_bytes (Packet.incompatible_version_packet p) h fits =
    omega (arith, incompatible_version_packet_codec-Lawful.size p h)
length-packet_bytes (Packet.session_does_not_exist_error_packet p) h fits =
    omega (arith, session_does_not_exist_explicit-Lawful.size p h)
length-packet_bytes (Packet.unexpected_packet_error_packet p) h fits =
    omega (arith, unexpected_packet_explicit-Lawful.size p h)
length-packet_bytes (Packet.track_rejection_packet p) h fits =
    omega (arith, track_rejection_packet_codec-Lawful.size p h, fits)
length-packet_bytes (Packet.close_session_packet p) h fits =
    omega (arith, close_session_packet_codec-Lawful.size p h)
length-packet_bytes (Packet.handshake_rejection p) h fits =
    omega (arith, handshake_rejection_codec-Lawful.size p h)

-- `serialize!` of every packet whose values fit their fields and whose payload is not longer than the
-- constructors assert neither fails nor panics, and what it writes is at most 1404 bytes, which with an
-- IP header of 60 bytes and a UDP header of 8 leaves at least 28 of the 1500 bytes of an Ethernet frame.
pub packet_bytes_bound :
    (debug : Bool) (p : Packet)
    → IsPacket p
    → HasPayloadThatFits p
    → (bytes : Bytes) × (packet_to_wire debug p ≡ ok bytes) × (length bytes ≤ 1404)
packet_bytes_bound debug p h fits =
    (packet_bytes p, (packet_round_trip debug p h).0, length-packet_bytes p h fits)
