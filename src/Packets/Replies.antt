-- ===== src/Packets/Replies.antt =====
-- Acknowledgements, keep-alives and errors, from src/manager/packets.rs: the struct, the tuple of
-- its fields, and its derived byte format.
pub mod Laws
pub mod Refused
use ubass_rs.Base.{ℕ, Bool, List, Option}
use ubass_rs.Base.Outcome.{Outcome}
use ubass_rs.Wire.Codec.{Bytes, Serialize, Reserved, reserved_bytes}
use ubass_rs.Wire.Derive.{Fields, last, payload, ◌⨟◌, derive_struct, derive_headers}
use ubass_rs.Packets.Kinds.{
  PacketType, packet_type, ControlType, control_type, ErrorType, error_type,
}
use ubass_rs.Packets.Kinds.{
  PlaybackControlType, playback_control_type, HandshakeRejectionReason, handshake_rejection_reason,
}
use ubass_rs.Packets.Scalars.{
  version, options, session_id, timestamp, handshake_id, public_key, packet_fingerprint,
  secondary_type,
}
use ubass_rs.Packets.Scalars.{
  batch_id, FecInfo, fec_info, byte_position, buffer_size, buffer_id, optional_buffer_id,
  payload_field,
}
use ubass_rs.Packets.Scalars.{
  parity_payload, app_id, SocketAddr, optional_socket_addr, ByteRange, byte_ranges,
}

-- `struct AckPacket`
pub record AckPacket : Type 0 where
  pub version : ℕ
  pub opts : ℕ
  pub packet_type : PacketType
  pub reserved : Reserved 3
  pub session_id : ℕ
  pub timestamp : ℕ
  pub fingerprint : Bytes

abbrev pub AckPacketRow : Type 0
AckPacketRow = ℕ × (ℕ × (PacketType × ((Reserved 3) × (ℕ × (ℕ × Bytes)))))

abbrev pub ack_packet_split : AckPacket → AckPacketRow
ack_packet_split p = (
  p.version,
  (p.opts, (p.packet_type, (p.reserved, (p.session_id, (p.timestamp, p.fingerprint))))),
)

abbrev pub ack_packet_build : AckPacketRow → AckPacket
ack_packet_build t = record {
  version = t.0;
  opts = t.1.0;
  packet_type = t.1.1.0;
  reserved = t.1.1.1.0;
  session_id = t.1.1.1.1.0;
  timestamp = t.1.1.1.1.1.0;
  fingerprint = t.1.1.1.1.1.1;
}

abbrev pub ack_packet_fields : Fields AckPacketRow
ack_packet_fields =
    version
    ⨟ options
    ⨟ packet_type
    ⨟ reserved_bytes 3
    ⨟ session_id
    ⨟ timestamp
    ⨟ last packet_fingerprint

abbrev pub ack_packet_codec : Serialize AckPacket
ack_packet_codec = derive_struct ack_packet_fields ack_packet_split ack_packet_build

-- `struct KeepAlivePacket`
pub record KeepAlivePacket : Type 0 where
  pub version : ℕ
  pub opts : ℕ
  pub packet_type : PacketType
  pub reserved : Reserved 3
  pub session_id : ℕ
  pub timestamp : ℕ
  pub address : Option SocketAddr

abbrev pub KeepAlivePacketRow : Type 0
KeepAlivePacketRow = ℕ × (ℕ × (PacketType × ((Reserved 3) × (ℕ × (ℕ × (Option SocketAddr))))))

abbrev pub keep_alive_packet_split : KeepAlivePacket → KeepAlivePacketRow
keep_alive_packet_split p =
    (p.version, (p.opts, (p.packet_type, (p.reserved, (p.session_id, (p.timestamp, p.address))))))

abbrev pub keep_alive_packet_build : KeepAlivePacketRow → KeepAlivePacket
keep_alive_packet_build t = record {
  version = t.0;
  opts = t.1.0;
  packet_type = t.1.1.0;
  reserved = t.1.1.1.0;
  session_id = t.1.1.1.1.0;
  timestamp = t.1.1.1.1.1.0;
  address = t.1.1.1.1.1.1;
}

abbrev pub keep_alive_packet_fields : Fields KeepAlivePacketRow
keep_alive_packet_fields =
    version
    ⨟ options
    ⨟ packet_type
    ⨟ reserved_bytes 3
    ⨟ session_id
    ⨟ timestamp
    ⨟ last optional_socket_addr

abbrev pub keep_alive_packet_codec : Serialize KeepAlivePacket
keep_alive_packet_codec =
    derive_struct keep_alive_packet_fields keep_alive_packet_split keep_alive_packet_build

-- `struct SessionDoesNotExistErrorPacket`
pub record SessionDoesNotExistErrorPacket : Type 0 where
  pub version : ℕ
  pub opts : ℕ
  pub packet_type : PacketType
  pub error_type : ErrorType
  pub reserved : Reserved 2
  pub session_id : ℕ
  pub timestamp : ℕ

abbrev pub SessionDoesNotExistErrorPacketRow : Type 0
SessionDoesNotExistErrorPacketRow = ℕ × (ℕ × (PacketType × (ErrorType × ((Reserved 2) × (ℕ × ℕ)))))

abbrev pub session_does_not_exist_error_packet_split :
    SessionDoesNotExistErrorPacket → SessionDoesNotExistErrorPacketRow
session_does_not_exist_error_packet_split p = (
  p.version,
  (p.opts, (p.packet_type, (p.error_type, (p.reserved, (p.session_id, p.timestamp))))),
)

abbrev pub session_does_not_exist_error_packet_build :
    SessionDoesNotExistErrorPacketRow → SessionDoesNotExistErrorPacket
session_does_not_exist_error_packet_build t = record {
  version = t.0;
  opts = t.1.0;
  packet_type = t.1.1.0;
  error_type = t.1.1.1.0;
  reserved = t.1.1.1.1.0;
  session_id = t.1.1.1.1.1.0;
  timestamp = t.1.1.1.1.1.1;
}

abbrev pub session_does_not_exist_error_packet_fields : Fields SessionDoesNotExistErrorPacketRow
session_does_not_exist_error_packet_fields =
    version ⨟ options ⨟ packet_type ⨟ error_type ⨟ reserved_bytes 2 ⨟ session_id ⨟ last timestamp

abbrev pub session_does_not_exist_error_packet_codec : Serialize SessionDoesNotExistErrorPacket
session_does_not_exist_error_packet_codec =
    derive_struct session_does_not_exist_error_packet_fields
      session_does_not_exist_error_packet_split session_does_not_exist_error_packet_build

-- `struct UnexpectedPacketErrorPacket`
pub record UnexpectedPacketErrorPacket : Type 0 where
  pub version : ℕ
  pub opts : ℕ
  pub packet_type : PacketType
  pub error_type : ErrorType
  pub reserved : Reserved 2
  pub session_id : ℕ
  pub timestamp : ℕ
  pub received_packet_type : PacketType
  pub received_secondary_type : ℕ
  pub received_fingerprint : Bytes

abbrev pub UnexpectedPacketErrorPacketRow : Type 0
UnexpectedPacketErrorPacketRow =
    ℕ × (ℕ × (PacketType × (ErrorType × ((Reserved 2) × (ℕ × (ℕ × (PacketType × (ℕ × Bytes))))))))

abbrev pub unexpected_packet_error_packet_split :
    UnexpectedPacketErrorPacket → UnexpectedPacketErrorPacketRow
unexpected_packet_error_packet_split p = (
  p.version,
  (
    p.opts,
    (
      p.packet_type,
      (
        p.error_type,
        (
          p.reserved,
          (
            p.session_id,
            (
              p.timestamp,
              (p.received_packet_type, (p.received_secondary_type, p.received_fingerprint)),
            ),
          ),
        ),
      ),
    ),
  ),
)

abbrev pub unexpected_packet_error_packet_build :
    UnexpectedPacketErrorPacketRow → UnexpectedPacketErrorPacket
unexpected_packet_error_packet_build t = record {
  version = t.0;
  opts = t.1.0;
  packet_type = t.1.1.0;
  error_type = t.1.1.1.0;
  reserved = t.1.1.1.1.0;
  session_id = t.1.1.1.1.1.0;
  timestamp = t.1.1.1.1.1.1.0;
  received_packet_type = t.1.1.1.1.1.1.1.0;
  received_secondary_type = t.1.1.1.1.1.1.1.1.0;
  received_fingerprint = t.1.1.1.1.1.1.1.1.1;
}

abbrev pub unexpected_packet_error_packet_fields : Fields UnexpectedPacketErrorPacketRow
unexpected_packet_error_packet_fields =
    version
    ⨟ options
    ⨟ packet_type
    ⨟ error_type
    ⨟ reserved_bytes 2
    ⨟ session_id
    ⨟ timestamp
    ⨟ packet_type
    ⨟ secondary_type
    ⨟ last packet_fingerprint

abbrev pub unexpected_packet_error_packet_codec : Serialize UnexpectedPacketErrorPacket
unexpected_packet_error_packet_codec =
    derive_struct unexpected_packet_error_packet_fields unexpected_packet_error_packet_split
      unexpected_packet_error_packet_build

abbrev pub unexpected_packet_error_packet_headers : UnexpectedPacketErrorPacket → Outcome Bytes
unexpected_packet_error_packet_headers =
    derive_headers unexpected_packet_error_packet_fields unexpected_packet_error_packet_split
