-- ===== src/Packets/RoundTrip.antt =====
-- What becomes of a packet on the wire.
use ubass_rs.Base.{◌≡◌, refl, Bool}
use ubass_rs.Base.Outcome.{ok}
use ubass_rs.Wire.Codec.{Bytes}
use ubass_rs.Packets.Packet.{Packet, packet_to_wire, deserialize_like}
use ubass_rs.Packets.Handshake.Laws.{IsHelloPacket, hello_packet_bytes, hello_packet_codec-Lawful}
use ubass_rs.Packets.Handshake.Laws.{
  IsHandshakeAckPacket, handshake_ack_packet_bytes, handshake_ack_packet_codec-Lawful,
}
use ubass_rs.Packets.Handshake.Laws.{
  IsIncompatibleVersionPacket, incompatible_version_packet_bytes,
  incompatible_version_packet_codec-Lawful,
}
use ubass_rs.Packets.Handshake.Laws.{
  IsHandshakeRejection, handshake_rejection_bytes, handshake_rejection_codec-Lawful,
}
use ubass_rs.Packets.Control.Laws.{
  IsTrackRequestPacket, track_request_packet_bytes, track_request_packet_codec-Lawful,
}
use ubass_rs.Packets.Control.Laws.{
  IsPlaybackControlPacket, playback_control_packet_bytes, playback_control_packet_codec-Lawful,
}
use ubass_rs.Packets.Control.Laws.{
  IsTrackRejectionPacket, track_rejection_packet_bytes, track_rejection_packet_codec-Lawful,
}
use ubass_rs.Packets.Control.Laws.{
  IsCloseSessionPacket, close_session_packet_bytes, close_session_packet_codec-Lawful,
}
use ubass_rs.Packets.Streams.Laws.{IsDataPacket, data_packet_bytes, data_packet_codec-Lawful}
use ubass_rs.Packets.Streams.Laws.{
  IsMetadataPacket, metadata_packet_bytes, metadata_packet_codec-Lawful,
}
use ubass_rs.Packets.Streams.Laws.{IsParityPacket, parity_packet_bytes, parity_packet_codec-Lawful}
use ubass_rs.Packets.Streams.Laws.{retransmit_packet_bytes}
use ubass_rs.Packets.Replies.Laws.{IsAckPacket, ack_packet_bytes, ack_packet_codec-Lawful}
use ubass_rs.Packets.Replies.Laws.{keep_alive_packet_bytes}
use ubass_rs.Packets.Replies.Laws.{session_does_not_exist_error_packet_bytes}
use ubass_rs.Packets.Replies.Laws.{unexpected_packet_error_packet_bytes}
use ubass_rs.Packets.Streams.Empty.{FitsRetransmit}
use ubass_rs.Packets.Replies.Refused.{FitsSessionDoesNotExist, FitsUnexpectedPacket}
use ubass_rs.Packets.ReadBack.{
  FitsKeepAlive, read_back, round_trips, keep_alive_round_trip, retransmit_written, retransmit_read,
  session_error_written, session_error_read, unexpected_error_written, unexpected_error_read,
}

-- The values of the fields of a packet fit the widths that the wire gives them. A buffer id, if there is
-- one, is not 0, and an app id is ASCII text of fewer than 512 bytes, as their constructors assert. No
-- error type, number of ranges or address is left out.
abbrev pub IsPacket : Packet → Type 0
IsPacket (Packet.hello_packet p) = IsHelloPacket p
IsPacket (Packet.track_request_packet p) = IsTrackRequestPacket p
IsPacket (Packet.data_packet p) = IsDataPacket p
IsPacket (Packet.metadata_packet p) = IsMetadataPacket p
IsPacket (Packet.parity_packet p) = IsParityPacket p
IsPacket (Packet.ack_packet p) = IsAckPacket p
IsPacket (Packet.keep_alive_packet p) = FitsKeepAlive p
IsPacket (Packet.handshake_ack_packet p) = IsHandshakeAckPacket p
IsPacket (Packet.retransmit_packet p) = FitsRetransmit p
IsPacket (Packet.playback_control_packet p) = IsPlaybackControlPacket p
IsPacket (Packet.incompatible_version_packet p) = IsIncompatibleVersionPacket p
IsPacket (Packet.session_does_not_exist_error_packet p) = FitsSessionDoesNotExist p
IsPacket (Packet.unexpected_packet_error_packet p) = FitsUnexpectedPacket p
IsPacket (Packet.track_rejection_packet p) = IsTrackRejectionPacket p
IsPacket (Packet.close_session_packet p) = IsCloseSessionPacket p
IsPacket (Packet.handshake_rejection p) = IsHandshakeRejection p

-- The layout of a packet, field after field.
abbrev pub packet_bytes : Packet → Bytes
packet_bytes (Packet.hello_packet p) = hello_packet_bytes p
packet_bytes (Packet.track_request_packet p) = track_request_packet_bytes p
packet_bytes (Packet.data_packet p) = data_packet_bytes p
packet_bytes (Packet.metadata_packet p) = metadata_packet_bytes p
packet_bytes (Packet.parity_packet p) = parity_packet_bytes p
packet_bytes (Packet.ack_packet p) = ack_packet_bytes p
packet_bytes (Packet.keep_alive_packet p) = keep_alive_packet_bytes p
packet_bytes (Packet.handshake_ack_packet p) = handshake_ack_packet_bytes p
packet_bytes (Packet.retransmit_packet p) = retransmit_packet_bytes p
packet_bytes (Packet.playback_control_packet p) = playback_control_packet_bytes p
packet_bytes (Packet.incompatible_version_packet p) = incompatible_version_packet_bytes p
packet_bytes (Packet.session_does_not_exist_error_packet p) =
    session_does_not_exist_error_packet_bytes p
packet_bytes (Packet.unexpected_packet_error_packet p) = unexpected_packet_error_packet_bytes p
packet_bytes (Packet.track_rejection_packet p) = track_rejection_packet_bytes p
packet_bytes (Packet.close_session_packet p) = close_session_packet_bytes p
packet_bytes (Packet.handshake_rejection p) = handshake_rejection_bytes p

-- For every packet whose values fit their fields, `serialize!` writes exactly the bytes of its layout
-- without an error or a panic. `deserialize` of those bytes gives the same packet back, with three
-- exceptions: an error packet of the type `SessionDoesNotExist` and a retransmission request without
-- ranges are refused with `Err`, and a keep-alive comes back without its address.
pub packet_round_trip :
    (debug : Bool) (p : Packet)
    → IsPacket p
    → (packet_to_wire debug p ≡ ok (packet_bytes p))
      × (deserialize_like debug p (packet_bytes p) ≡ read_back p)
unfolding packet_to_wire deserialize_like
packet_round_trip debug (Packet.hello_packet p) h =
    round_trips (hello_packet_codec-Lawful debug) p h (λ p. Packet.hello_packet p)
packet_round_trip debug (Packet.track_request_packet p) h =
    round_trips track_request_packet_codec-Lawful p h (λ p. Packet.track_request_packet p)
packet_round_trip debug (Packet.data_packet p) h =
    round_trips data_packet_codec-Lawful p h (λ p. Packet.data_packet p)
packet_round_trip debug (Packet.metadata_packet p) h =
    round_trips metadata_packet_codec-Lawful p h (λ p. Packet.metadata_packet p)
packet_round_trip debug (Packet.parity_packet p) h =
    round_trips parity_packet_codec-Lawful p h (λ p. Packet.parity_packet p)
packet_round_trip debug (Packet.ack_packet p) h =
    round_trips ack_packet_codec-Lawful p h (λ p. Packet.ack_packet p)
packet_round_trip debug (Packet.keep_alive_packet p) h = keep_alive_round_trip debug p h
packet_round_trip debug (Packet.handshake_ack_packet p) h =
    round_trips handshake_ack_packet_codec-Lawful p h (λ p. Packet.handshake_ack_packet p)
packet_round_trip debug (Packet.retransmit_packet p) h =
    (retransmit_written debug p h, retransmit_read debug p h p.payload refl)
packet_round_trip debug (Packet.playback_control_packet p) h =
    round_trips playback_control_packet_codec-Lawful p h (λ p. Packet.playback_control_packet p)
packet_round_trip debug (Packet.incompatible_version_packet p) h =
    round_trips incompatible_version_packet_codec-Lawful p h
      (λ p. Packet.incompatible_version_packet p)
packet_round_trip debug (Packet.session_does_not_exist_error_packet p) h =
    (session_error_written debug p h, session_error_read debug p h p.error_type refl)
packet_round_trip debug (Packet.unexpected_packet_error_packet p) h =
    (unexpected_error_written debug p h, unexpected_error_read debug p h p.error_type refl)
packet_round_trip debug (Packet.track_rejection_packet p) h =
    round_trips track_rejection_packet_codec-Lawful p h (λ p. Packet.track_rejection_packet p)
packet_round_trip debug (Packet.close_session_packet p) h =
    round_trips close_session_packet_codec-Lawful p h (λ p. Packet.close_session_packet p)
packet_round_trip debug (Packet.handshake_rejection p) h =
    round_trips handshake_rejection_codec-Lawful p h (λ p. Packet.handshake_rejection p)
