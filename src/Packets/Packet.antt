-- ===== src/Packets/Packet.antt =====
-- `enum Packet` of src/manager/packets.rs and its methods, the byte format of each kind, and the
-- `serialize!` macro of packet_processor/outbound.rs.
use ubass_rs.Base.{ℕ, Bool, Option, none, some, replicate, if◌then◌else◌}
use ubass_rs.Base.Outcome.{Outcome, ok, panic, ◌>>=◌}
use ubass_rs.Wire.Codec.{Bytes, Serialize}
use ubass_rs.Packets.Flags.{OptionFlags, set_flag}
use ubass_rs.Packets.Handshake.{HelloPacket, hello_packet_codec, HandshakeAckPacket}
use ubass_rs.Packets.Handshake.{
  handshake_ack_packet_codec, IncompatibleVersionPacket, incompatible_version_packet_codec,
}
use ubass_rs.Packets.Handshake.{HandshakeRejection, handshake_rejection_codec}
use ubass_rs.Packets.Control.{TrackRequestPacket, track_request_packet_codec, PlaybackControlPacket}
use ubass_rs.Packets.Control.{
  playback_control_packet_codec, TrackRejectionPacket, track_rejection_packet_codec,
}
use ubass_rs.Packets.Control.{CloseSessionPacket, close_session_packet_codec}
use ubass_rs.Packets.Streams.{DataPacket, data_packet_codec, MetadataPacket}
use ubass_rs.Packets.Streams.{metadata_packet_codec, ParityPacket, parity_packet_codec}
use ubass_rs.Packets.Streams.{RetransmitPacket, retransmit_packet_codec}
use ubass_rs.Packets.Replies.{AckPacket, ack_packet_codec, KeepAlivePacket}
use ubass_rs.Packets.Replies.{
  keep_alive_packet_codec, SessionDoesNotExistErrorPacket,
  session_does_not_exist_error_packet_codec,
}
use ubass_rs.Packets.Replies.{UnexpectedPacketErrorPacket, unexpected_packet_error_packet_codec}

pub data Packet : Type 0 where
  hello_packet : HelloPacket → Packet
  track_request_packet : TrackRequestPacket → Packet
  data_packet : DataPacket → Packet
  metadata_packet : MetadataPacket → Packet
  parity_packet : ParityPacket → Packet
  ack_packet : AckPacket → Packet
  keep_alive_packet : KeepAlivePacket → Packet
  handshake_ack_packet : HandshakeAckPacket → Packet
  retransmit_packet : RetransmitPacket → Packet
  playback_control_packet : PlaybackControlPacket → Packet
  incompatible_version_packet : IncompatibleVersionPacket → Packet
  session_does_not_exist_error_packet : SessionDoesNotExistErrorPacket → Packet
  unexpected_packet_error_packet : UnexpectedPacketErrorPacket → Packet
  track_rejection_packet : TrackRejectionPacket → Packet
  close_session_packet : CloseSessionPacket → Packet
  handshake_rejection : HandshakeRejection → Packet

-- `Packet::session_id`, in a build with debug assertions or without them.
unfoldable pub session_id : Bool → Packet → Outcome (Option ℕ)
session_id debug (Packet.hello_packet p) = ok (some p.proposed_session_id)
session_id debug (Packet.track_request_packet p) = ok (some p.session_id)
session_id debug (Packet.data_packet p) = ok (some p.session_id)
session_id debug (Packet.metadata_packet p) = ok (some p.session_id)
session_id debug (Packet.parity_packet p) = ok (some p.session_id)
session_id debug (Packet.ack_packet p) = ok (some p.session_id)
session_id debug (Packet.keep_alive_packet p) = ok (some p.session_id)
session_id debug (Packet.handshake_ack_packet p) = if debug then panic else ok none
session_id debug (Packet.retransmit_packet p) = ok (some p.session_id)
session_id debug (Packet.playback_control_packet p) = ok (some p.session_id)
session_id debug (Packet.incompatible_version_packet p) = if debug then panic else ok none
session_id debug (Packet.session_does_not_exist_error_packet p) = ok (some p.session_id)
session_id debug (Packet.unexpected_packet_error_packet p) = ok (some p.session_id)
session_id debug (Packet.track_rejection_packet p) = ok (some p.session_id)
session_id debug (Packet.close_session_packet p) = ok (some p.session_id)
session_id debug (Packet.handshake_rejection p) = ok (some p.session_id)

-- `Packet::mark_resend`
unfoldable pub mark_resend : Packet → Packet
mark_resend (Packet.hello_packet p) =
    Packet.hello_packet (record p { opts = set_flag p.opts OptionFlags.resend })
mark_resend (Packet.track_request_packet p) =
    Packet.track_request_packet (record p { opts = set_flag p.opts OptionFlags.resend })
mark_resend (Packet.data_packet p) =
    Packet.data_packet (record p { opts = set_flag p.opts OptionFlags.resend })
mark_resend (Packet.metadata_packet p) =
    Packet.metadata_packet (record p { opts = set_flag p.opts OptionFlags.resend })
mark_resend (Packet.parity_packet p) =
    Packet.parity_packet (record p { opts = set_flag p.opts OptionFlags.resend })
mark_resend (Packet.ack_packet p) =
    Packet.ack_packet (record p { opts = set_flag p.opts OptionFlags.resend })
mark_resend (Packet.keep_alive_packet p) =
    Packet.keep_alive_packet (record p { opts = set_flag p.opts OptionFlags.resend })
mark_resend (Packet.handshake_ack_packet p) =
    Packet.handshake_ack_packet (record p { opts = set_flag p.opts OptionFlags.resend })
mark_resend (Packet.retransmit_packet p) =
    Packet.retransmit_packet (record p { opts = set_flag p.opts OptionFlags.resend })
mark_resend (Packet.playback_control_packet p) =
    Packet.playback_control_packet (record p { opts = set_flag p.opts OptionFlags.resend })
mark_resend (Packet.incompatible_version_packet p) = Packet.incompatible_version_packet p
mark_resend (Packet.session_does_not_exist_error_packet p) =
    Packet.session_does_not_exist_error_packet
      (record p { opts = set_flag p.opts OptionFlags.resend })
mark_resend (Packet.unexpected_packet_error_packet p) =
    Packet.unexpected_packet_error_packet (record p { opts = set_flag p.opts OptionFlags.resend })
mark_resend (Packet.track_rejection_packet p) =
    Packet.track_rejection_packet (record p { opts = set_flag p.opts OptionFlags.resend })
mark_resend (Packet.close_session_packet p) =
    Packet.close_session_packet (record p { opts = set_flag p.opts OptionFlags.resend })
mark_resend (Packet.handshake_rejection p) =
    Packet.handshake_rejection (record p { opts = set_flag p.opts OptionFlags.resend })

-- `serialize!(packet -> buffer)`: a buffer of zeros of the size that `sized` gives, written by
-- `serialize`.
unfoldable pub to_wire : {A : Type 0} → Serialize A → A → Outcome Bytes
to_wire c a = c.serialize a (replicate (c.sized a) 0)

unfoldable pub packet_to_wire : Bool → Packet → Outcome Bytes
unfolding to_wire
packet_to_wire debug (Packet.hello_packet p) = to_wire (hello_packet_codec debug) p
packet_to_wire debug (Packet.track_request_packet p) = to_wire track_request_packet_codec p
packet_to_wire debug (Packet.data_packet p) = to_wire data_packet_codec p
packet_to_wire debug (Packet.metadata_packet p) = to_wire metadata_packet_codec p
packet_to_wire debug (Packet.parity_packet p) = to_wire parity_packet_codec p
packet_to_wire debug (Packet.ack_packet p) = to_wire ack_packet_codec p
packet_to_wire debug (Packet.keep_alive_packet p) = to_wire keep_alive_packet_codec p
packet_to_wire debug (Packet.handshake_ack_packet p) = to_wire handshake_ack_packet_codec p
packet_to_wire debug (Packet.retransmit_packet p) = to_wire (retransmit_packet_codec debug) p
packet_to_wire debug (Packet.playback_control_packet p) = to_wire playback_control_packet_codec p
packet_to_wire debug (Packet.incompatible_version_packet p) =
    to_wire incompatible_version_packet_codec p
packet_to_wire debug (Packet.session_does_not_exist_error_packet p) =
    to_wire session_does_not_exist_error_packet_codec p
packet_to_wire debug (Packet.unexpected_packet_error_packet p) =
    to_wire unexpected_packet_error_packet_codec p
packet_to_wire debug (Packet.track_rejection_packet p) = to_wire track_rejection_packet_codec p
packet_to_wire debug (Packet.close_session_packet p) = to_wire close_session_packet_codec p
packet_to_wire debug (Packet.handshake_rejection p) = to_wire handshake_rejection_codec p

unfoldable pub deserialize_as : {A : Type 0} → Serialize A → (A → Packet) → Bytes → Outcome Packet
deserialize_as c wrap bytes = do packet ← c.deserialize bytes; ok (wrap packet)

-- `X::deserialize(&data)` for the struct `X` of a given packet, wrapped in its `Packet` variant.
unfoldable pub deserialize_like : Bool → Packet → Bytes → Outcome Packet
unfolding deserialize_as
deserialize_like debug (Packet.hello_packet _) =
    deserialize_as (hello_packet_codec debug) (λ p. Packet.hello_packet p)
deserialize_like debug (Packet.track_request_packet _) =
    deserialize_as track_request_packet_codec (λ p. Packet.track_request_packet p)
deserialize_like debug (Packet.data_packet _) =
    deserialize_as data_packet_codec (λ p. Packet.data_packet p)
deserialize_like debug (Packet.metadata_packet _) =
    deserialize_as metadata_packet_codec (λ p. Packet.metadata_packet p)
deserialize_like debug (Packet.parity_packet _) =
    deserialize_as parity_packet_codec (λ p. Packet.parity_packet p)
deserialize_like debug (Packet.ack_packet _) =
    deserialize_as ack_packet_codec (λ p. Packet.ack_packet p)
deserialize_like debug (Packet.keep_alive_packet _) =
    deserialize_as keep_alive_packet_codec (λ p. Packet.keep_alive_packet p)
deserialize_like debug (Packet.handshake_ack_packet _) =
    deserialize_as handshake_ack_packet_codec (λ p. Packet.handshake_ack_packet p)
deserialize_like debug (Packet.retransmit_packet _) =
    deserialize_as (retransmit_packet_codec debug) (λ p. Packet.retransmit_packet p)
deserialize_like debug (Packet.playback_control_packet _) =
    deserialize_as playback_control_packet_codec (λ p. Packet.playback_control_packet p)
deserialize_like debug (Packet.incompatible_version_packet _) =
    deserialize_as incompatible_version_packet_codec (λ p. Packet.incompatible_version_packet p)
deserialize_like debug (Packet.session_does_not_exist_error_packet _) =
    deserialize_as session_does_not_exist_error_packet_codec
      (λ p. Packet.session_does_not_exist_error_packet p)
deserialize_like debug (Packet.unexpected_packet_error_packet _) =
    deserialize_as unexpected_packet_error_packet_codec
      (λ p. Packet.unexpected_packet_error_packet p)
deserialize_like debug (Packet.track_rejection_packet _) =
    deserialize_as track_rejection_packet_codec (λ p. Packet.track_rejection_packet p)
deserialize_like debug (Packet.close_session_packet _) =
    deserialize_as close_session_packet_codec (λ p. Packet.close_session_packet p)
deserialize_like debug (Packet.handshake_rejection _) =
    deserialize_as handshake_rejection_codec (λ p. Packet.handshake_rejection p)
