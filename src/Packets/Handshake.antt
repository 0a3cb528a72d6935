-- ===== src/Packets/Handshake.antt =====
-- The packets of the handshake, from src/manager/packets.rs: the struct, the tuple of its fields,
-- and its derived byte format.
pub mod Laws
use ubass_rs.Base.{ℕ, Bool, List, Option}
use ubass_rs.Base.Outcome.{Outcome}
use ubass_rs.Wire.Codec.{Bytes, Serialize, Reserved, reserved_bytes}
use ubass_rs.Wire.Derive.{Fields, last, payload, ◌⨟◌, derive_struct, derive_headers}
use ubass_rs.Packets.Kinds.{
  PacketType, packet_type, ControlType, control_type, ErrorType, error_type,
}
use ubass_rs.Packets.Kinds.{
  PlaybackControlType, playback_control_type, HandshakeRejectionReason, handshake_rejection_reason,
}
use ubass_rs.Packets.Scalars.{
  version, options, session_id, timestamp, handshake_id, public_key, packet_fingerprint,
  secondary_type,
}
use ubass_rs.Packets.Scalars.{
  batch_id, FecInfo, fec_info, byte_position, buffer_size, buffer_id, optional_buffer_id,
  payload_field,
}
use ubass_rs.Packets.Scalars.{
  parity_payload, app_id, SocketAddr, optional_socket_addr, ByteRange, byte_ranges,
}

-- `struct HelloPacket`
pub record HelloPacket : Type 0 where
  pub version : ℕ
  pub opts : ℕ
  pub packet_type : PacketType
  pub control_type : ControlType
  pub reserved : Reserved 2
  pub proposed_session_id : ℕ
  pub handshake_id : ℕ
  pub timestamp : ℕ
  pub public_key : Bytes
  pub app_id : Bytes

abbrev pub HelloPacketRow : Type 0
HelloPacketRow =
    ℕ × (ℕ × (PacketType × (ControlType × ((Reserved 2) × (ℕ × (ℕ × (ℕ × (Bytes × Bytes))))))))

abbrev pub hello_packet_split : HelloPacket → HelloPacketRow
hello_packet_split p = (
  p.version,
  (
    p.opts,
    (
      p.packet_type,
      (
        p.control_type,
        (
          p.reserved,
          (p.proposed_session_id, (p.handshake_id, (p.timestamp, (p.public_key, p.app_id)))),
        ),
      ),
    ),
  ),
)

abbrev pub hello_packet_build : HelloPacketRow → HelloPacket
hello_packet_build t = record {
  version = t.0;
  opts = t.1.0;
  packet_type = t.1.1.0;
  control_type = t.1.1.1.0;
  reserved = t.1.1.1.1.0;
  proposed_session_id = t.1.1.1.1.1.0;
  handshake_id = t.1.1.1.1.1.1.0;
  timestamp = t.1.1.1.1.1.1.1.0;
  public_key = t.1.1.1.1.1.1.1.1.0;
  app_id = t.1.1.1.1.1.1.1.1.1;
}

abbrev pub hello_packet_fields : Bool → Fields HelloPacketRow
hello_packet_fields debug =
    version
    ⨟ options
    ⨟ packet_type
    ⨟ control_type
    ⨟ reserved_bytes 2
    ⨟ session_id
    ⨟ handshake_id
    ⨟ timestamp
    ⨟ public_key
    ⨟ last (app_id debug)

abbrev pub hello_packet_codec : Bool → Serialize HelloPacket
hello_packet_codec debug =
    derive_struct (hello_packet_fields debug) hello_packet_split hello_packet_build

abbrev pub hello_packet_headers : Bool → HelloPacket → Outcome Bytes
hello_packet_headers debug = derive_headers (hello_packet_fields debug) hello_packet_split

-- `struct HandshakeAckPacket`
pub record HandshakeAckPacket : Type 0 where
  pub version : ℕ
  pub opts : ℕ
  pub packet_type : PacketType
  pub reserved : Reserved 3
  pub session_id : ℕ
  pub timestamp : ℕ
  pub handshake_id : ℕ

abbrev pub HandshakeAckPacketRow : Type 0
HandshakeAckPacketRow = ℕ × (ℕ × (PacketType × ((Reserved 3) × (ℕ × (ℕ × ℕ)))))

abbrev pub handshake_ack_packet_split : HandshakeAckPacket → HandshakeAckPacketRow
handshake_ack_packet_split p = (
  p.version,
  (p.opts, (p.packet_type, (p.reserved, (p.session_id, (p.timestamp, p.handshake_id))))),
)

abbrev pub handshake_ack_packet_build : HandshakeAckPacketRow → HandshakeAckPacket
handshake_ack_packet_build t = record {
  version = t.0;
  opts = t.1.0;
  packet_type = t.1.1.0;
  reserved = t.1.1.1.0;
  session_id = t.1.1.1.1.0;
  timestamp = t.1.1.1.1.1.0;
  handshake_id = t.1.1.1.1.1.1;
}

abbrev pub handshake_ack_packet_fields : Fields HandshakeAckPacketRow
handshake_ack_packet_fields =
    version ⨟ options ⨟ packet_type ⨟ reserved_bytes 3 ⨟ session_id ⨟ timestamp ⨟ last handshake_id

abbrev pub handshake_ack_packet_codec : Serialize HandshakeAckPacket
handshake_ack_packet_codec =
    derive_struct handshake_ack_packet_fields handshake_ack_packet_split handshake_ack_packet_build

-- `struct HandshakeRejection`
pub record HandshakeRejection : Type 0 where
  pub version : ℕ
  pub opts : ℕ
  pub packet_type : PacketType
  pub control_type : ControlType
  pub reserved : Reserved 2
  pub session_id : ℕ
  pub timestamp : ℕ
  pub handshake_id : ℕ
  pub reason : HandshakeRejectionReason

abbrev pub HandshakeRejectionRow : Type 0
HandshakeRejectionRow =
    ℕ
    × (ℕ
        × (PacketType
            × (ControlType × ((Reserved 2) × (ℕ × (ℕ × (ℕ × HandshakeRejectionReason)))))))

abbrev pub handshake_rejection_split : HandshakeRejection → HandshakeRejectionRow
handshake_rejection_split p = (
  p.version,
  (
    p.opts,
    (
      p.packet_type,
      (p.control_type, (p.reserved, (p.session_id, (p.timestamp, (p.handshake_id, p.reason))))),
    ),
  ),
)

abbrev pub handshake_rejection_build : HandshakeRejectionRow → HandshakeRejection
handshake_rejection_build t = record {
  version = t.0;
  opts = t.1.0;
  packet_type = t.1.1.0;
  control_type = t.1.1.1.0;
  reserved = t.1.1.1.1.0;
  session_id = t.1.1.1.1.1.0;
  timestamp = t.1.1.1.1.1.1.0;
  handshake_id = t.1.1.1.1.1.1.1.0;
  reason = t.1.1.1.1.1.1.1.1;
}

abbrev pub handshake_rejection_fields : Fields HandshakeRejectionRow
handshake_rejection_fields =
    version
    ⨟ options
    ⨟ packet_type
    ⨟ control_type
    ⨟ reserved_bytes 2
    ⨟ session_id
    ⨟ timestamp
    ⨟ handshake_id
    ⨟ last handshake_rejection_reason

abbrev pub handshake_rejection_codec : Serialize HandshakeRejection
handshake_rejection_codec =
    derive_struct handshake_rejection_fields handshake_rejection_split handshake_rejection_build

-- `struct IncompatibleVersionPacket`
pub record IncompatibleVersionPacket : Type 0 where
  pub zero_version : ℕ
  pub min_version : ℕ

abbrev pub IncompatibleVersionPacketRow : Type 0
IncompatibleVersionPacketRow = ℕ × ℕ

abbrev pub incompatible_version_packet_split :
    IncompatibleVersionPacket → IncompatibleVersionPacketRow
incompatible_version_packet_split p = (p.zero_version, p.min_version)

abbrev pub incompatible_version_packet_build :
    IncompatibleVersionPacketRow → IncompatibleVersionPacket
incompatible_version_packet_build t = record { zero_version = t.0; min_version = t.1 }

abbrev pub incompatible_version_packet_fields : Fields IncompatibleVersionPacketRow
incompatible_version_packet_fields = version ⨟ last version

abbrev pub incompatible_version_packet_codec : Serialize IncompatibleVersionPacket
incompatible_version_packet_codec =
    derive_struct incompatible_version_packet_fields incompatible_version_packet_split
      incompatible_version_packet_build
