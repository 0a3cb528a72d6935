-- ===== src/Packets/Control.antt =====
-- The packets that control a session, from src/manager/packets.rs: the struct, the tuple of its
-- fields, and its derived byte format.
pub mod Laws
use ubass_rs.Base.{ℕ, Bool, List, Option}
use ubass_rs.Base.Outcome.{Outcome}
use ubass_rs.Wire.Codec.{Bytes, Serialize, Reserved, reserved_bytes}
use ubass_rs.Wire.Derive.{Fields, last, payload, ◌⨟◌, derive_struct, derive_headers}
use ubass_rs.Packets.Kinds.{
  PacketType, packet_type, ControlType, control_type, ErrorType, error_type,
}
use ubass_rs.Packets.Kinds.{
  PlaybackControlType, playback_control_type, HandshakeRejectionReason, handshake_rejection_reason,
}
use ubass_rs.Packets.Scalars.{
  version, options, session_id, timestamp, handshake_id, public_key, packet_fingerprint,
  secondary_type,
}
use ubass_rs.Packets.Scalars.{
  batch_id, FecInfo, fec_info, byte_position, buffer_size, buffer_id, optional_buffer_id,
  payload_field,
}
use ubass_rs.Packets.Scalars.{
  parity_payload, app_id, SocketAddr, optional_socket_addr, ByteRange, byte_ranges,
}

-- `struct TrackRequestPacket`
pub record TrackRequestPacket : Type 0 where
  pub version : ℕ
  pub opts : ℕ
  pub packet_type : PacketType
  pub control_type : ControlType
  pub reserved : Reserved 2
  pub session_id : ℕ
  pub timestamp : ℕ
  pub payload : Bytes

abbrev pub TrackRequestPacketRow : Type 0
TrackRequestPacketRow = ℕ × (ℕ × (PacketType × (ControlType × ((Reserved 2) × (ℕ × (ℕ × Bytes))))))

abbrev pub track_request_packet_split : TrackRequestPacket → TrackRequestPacketRow
track_request_packet_split p = (
  p.version,
  (
    p.opts,
    (p.packet_type, (p.control_type, (p.reserved, (p.session_id, (p.timestamp, p.payload))))),
  ),
)

abbrev pub track_request_packet_build : TrackRequestPacketRow → TrackRequestPacket
track_request_packet_build t = record {
  version = t.0;
  opts = t.1.0;
  packet_type = t.1.1.0;
  control_type = t.1.1.1.0;
  reserved = t.1.1.1.1.0;
  session_id = t.1.1.1.1.1.0;
  timestamp = t.1.1.1.1.1.1.0;
  payload = t.1.1.1.1.1.1.1;
}

abbrev pub track_request_packet_fields : Fields TrackRequestPacketRow
track_request_packet_fields =
    version
    ⨟ options
    ⨟ packet_type
    ⨟ control_type
    ⨟ reserved_bytes 2
    ⨟ session_id
    ⨟ timestamp
    ⨟ payload payload_field

abbrev pub track_request_packet_codec : Serialize TrackRequestPacket
track_request_packet_codec =
    derive_struct track_request_packet_fields track_request_packet_split track_request_packet_build

abbrev pub track_request_packet_headers : TrackRequestPacket → Outcome Bytes
track_request_packet_headers = derive_headers track_request_packet_fields track_request_packet_split

-- `struct PlaybackControlPacket`
pub record PlaybackControlPacket : Type 0 where
  pub version : ℕ
  pub opts : ℕ
  pub packet_type : PacketType
  pub control_type : PlaybackControlType
  pub reserved : Reserved 2
  pub session_id : ℕ
  pub timestamp : ℕ
  pub seek_position : ℕ

abbrev pub PlaybackControlPacketRow : Type 0
PlaybackControlPacketRow =
    ℕ × (ℕ × (PacketType × (PlaybackControlType × ((Reserved 2) × (ℕ × (ℕ × ℕ))))))

abbrev pub playback_control_packet_split : PlaybackControlPacket → PlaybackControlPacketRow
playback_control_packet_split p = (
  p.version,
  (
    p.opts,
    (p.packet_type, (p.control_type, (p.reserved, (p.session_id, (p.timestamp, p.seek_position))))),
  ),
)

abbrev pub playback_control_packet_build : PlaybackControlPacketRow → PlaybackControlPacket
playback_control_packet_build t = record {
  version = t.0;
  opts = t.1.0;
  packet_type = t.1.1.0;
  control_type = t.1.1.1.0;
  reserved = t.1.1.1.1.0;
  session_id = t.1.1.1.1.1.0;
  timestamp = t.1.1.1.1.1.1.0;
  seek_position = t.1.1.1.1.1.1.1;
}

abbrev pub playback_control_packet_fields : Fields PlaybackControlPacketRow
playback_control_packet_fields =
    version
    ⨟ options
    ⨟ packet_type
    ⨟ playback_control_type
    ⨟ reserved_bytes 2
    ⨟ session_id
    ⨟ timestamp
    ⨟ last byte_position

abbrev pub playback_control_packet_codec : Serialize PlaybackControlPacket
playback_control_packet_codec =
    derive_struct playback_control_packet_fields playback_control_packet_split
      playback_control_packet_build

abbrev pub playback_control_packet_headers : PlaybackControlPacket → Outcome Bytes
playback_control_packet_headers =
    derive_headers playback_control_packet_fields playback_control_packet_split

-- `struct CloseSessionPacket`
pub record CloseSessionPacket : Type 0 where
  pub version : ℕ
  pub opts : ℕ
  pub packet_type : PacketType
  pub control_type : ControlType
  pub reserved : Reserved 2
  pub session_id : ℕ
  pub timestamp : ℕ

abbrev pub CloseSessionPacketRow : Type 0
CloseSessionPacketRow = ℕ × (ℕ × (PacketType × (ControlType × ((Reserved 2) × (ℕ × ℕ)))))

abbrev pub close_session_packet_split : CloseSessionPacket → CloseSessionPacketRow
close_session_packet_split p = (
  p.version,
  (p.opts, (p.packet_type, (p.control_type, (p.reserved, (p.session_id, p.timestamp))))),
)

abbrev pub close_session_packet_build : CloseSessionPacketRow → CloseSessionPacket
close_session_packet_build t = record {
  version = t.0;
  opts = t.1.0;
  packet_type = t.1.1.0;
  control_type = t.1.1.1.0;
  reserved = t.1.1.1.1.0;
  session_id = t.1.1.1.1.1.0;
  timestamp = t.1.1.1.1.1.1;
}

abbrev pub close_session_packet_fields : Fields CloseSessionPacketRow
close_session_packet_fields =
    version ⨟ options ⨟ packet_type ⨟ control_type ⨟ reserved_bytes 2 ⨟ session_id ⨟ last timestamp

abbrev pub close_session_packet_codec : Serialize CloseSessionPacket
close_session_packet_codec =
    derive_struct close_session_packet_fields close_session_packet_split close_session_packet_build

abbrev pub close_session_packet_headers : CloseSessionPacket → Outcome Bytes
close_session_packet_headers = derive_headers close_session_packet_fields close_session_packet_split

-- `struct TrackRejectionPacket`
pub record TrackRejectionPacket : Type 0 where
  pub version : ℕ
  pub opts : ℕ
  pub packet_type : PacketType
  pub control_type : ControlType
  pub reserved : Reserved 2
  pub session_id : ℕ
  pub timestamp : ℕ
  pub payload : Bytes

abbrev pub TrackRejectionPacketRow : Type 0
TrackRejectionPacketRow =
    ℕ × (ℕ × (PacketType × (ControlType × ((Reserved 2) × (ℕ × (ℕ × Bytes))))))

abbrev pub track_rejection_packet_split : TrackRejectionPacket → TrackRejectionPacketRow
track_rejection_packet_split p = (
  p.version,
  (
    p.opts,
    (p.packet_type, (p.control_type, (p.reserved, (p.session_id, (p.timestamp, p.payload))))),
  ),
)

abbrev pub track_rejection_packet_build : TrackRejectionPacketRow → TrackRejectionPacket
track_rejection_packet_build t = record {
  version = t.0;
  opts = t.1.0;
  packet_type = t.1.1.0;
  control_type = t.1.1.1.0;
  reserved = t.1.1.1.1.0;
  session_id = t.1.1.1.1.1.0;
  timestamp = t.1.1.1.1.1.1.0;
  payload = t.1.1.1.1.1.1.1;
}

abbrev pub track_rejection_packet_fields : Fields TrackRejectionPacketRow
track_rejection_packet_fields =
    version
    ⨟ options
    ⨟ packet_type
    ⨟ control_type
    ⨟ reserved_bytes 2
    ⨟ session_id
    ⨟ timestamp
    ⨟ payload payload_field

abbrev pub track_rejection_packet_codec : Serialize TrackRejectionPacket
track_rejection_packet_codec =
    derive_struct track_rejection_packet_fields track_rejection_packet_split
      track_rejection_packet_build

abbrev pub track_rejection_packet_headers : TrackRejectionPacket → Outcome Bytes
track_rejection_packet_headers =
    derive_headers track_rejection_packet_fields track_rejection_packet_split
