-- ===== src/Packets/Streams.antt =====
-- The packets that carry a stream, its parity and its retransmission requests, from
-- src/manager/packets.rs: the struct, the tuple of its fields, and its derived byte format.
pub mod Laws
pub mod Empty
use ubass_rs.Base.{ℕ, Bool, List, Option}
use ubass_rs.Base.Outcome.{Outcome}
use ubass_rs.Wire.Codec.{Bytes, Serialize, Reserved, reserved_bytes}
use ubass_rs.Wire.Derive.{Fields, last, payload, ◌⨟◌, derive_struct, derive_headers}
use ubass_rs.Packets.Kinds.{
  PacketType, packet_type, ControlType, control_type, ErrorType, error_type,
}
use ubass_rs.Packets.Kinds.{
  PlaybackControlType, playback_control_type, HandshakeRejectionReason, handshake_rejection_reason,
}
use ubass_rs.Packets.Scalars.{
  version, options, session_id, timestamp, handshake_id, public_key, packet_fingerprint,
  secondary_type,
}
use ubass_rs.Packets.Scalars.{
  batch_id, FecInfo, fec_info, byte_position, buffer_size, buffer_id, optional_buffer_id,
  payload_field,
}
use ubass_rs.Packets.Scalars.{
  parity_payload, app_id, SocketAddr, optional_socket_addr, ByteRange, byte_ranges,
}

-- `struct DataPacket`
pub record DataPacket : Type 0 where
  pub version : ℕ
  pub opts : ℕ
  pub packet_type : PacketType
  pub batch_id : ℕ
  pub fec_info : FecInfo
  pub session_id : ℕ
  pub timestamp : ℕ
  pub byte_range_start : ℕ
  pub payload : Bytes

abbrev pub DataPacketRow : Type 0
DataPacketRow = ℕ × (ℕ × (PacketType × (ℕ × (FecInfo × (ℕ × (ℕ × (ℕ × Bytes)))))))

abbrev pub data_packet_split : DataPacket → DataPacketRow
data_packet_split p = (
  p.version,
  (
    p.opts,
    (
      p.packet_type,
      (p.batch_id, (p.fec_info, (p.session_id, (p.timestamp, (p.byte_range_start, p.payload))))),
    ),
  ),
)

abbrev pub data_packet_build : DataPacketRow → DataPacket
data_packet_build t = record {
  version = t.0;
  opts = t.1.0;
  packet_type = t.1.1.0;
  batch_id = t.1.1.1.0;
  fec_info = t.1.1.1.1.0;
  session_id = t.1.1.1.1.1.0;
  timestamp = t.1.1.1.1.1.1.0;
  byte_range_start = t.1.1.1.1.1.1.1.0;
  payload = t.1.1.1.1.1.1.1.1;
}

abbrev pub data_packet_fields : Fields DataPacketRow
data_packet_fields =
    version
    ⨟ options
    ⨟ packet_type
    ⨟ batch_id
    ⨟ fec_info
    ⨟ session_id
    ⨟ timestamp
    ⨟ byte_position
    ⨟ payload payload_field

abbrev pub data_packet_codec : Serialize DataPacket
data_packet_codec = derive_struct data_packet_fields data_packet_split data_packet_build

abbrev pub data_packet_headers : DataPacket → Outcome Bytes
data_packet_headers = derive_headers data_packet_fields data_packet_split

-- `struct MetadataPacket`
pub record MetadataPacket : Type 0 where
  pub version : ℕ
  pub opts : ℕ
  pub packet_type : PacketType
  pub batch_id : ℕ
  pub fec_info : FecInfo
  pub session_id : ℕ
  pub timestamp : ℕ
  pub buffer_id : ℕ
  pub buffer_size : ℕ
  pub position : ℕ
  pub payload : Bytes

abbrev pub MetadataPacketRow : Type 0
MetadataPacketRow = ℕ × (ℕ × (PacketType × (ℕ × (FecInfo × (ℕ × (ℕ × (ℕ × (ℕ × (ℕ × Bytes)))))))))

abbrev pub metadata_packet_split : MetadataPacket → MetadataPacketRow
metadata_packet_split p = (
  p.version,
  (
    p.opts,
    (
      p.packet_type,
      (
        p.batch_id,
        (
          p.fec_info,
          (p.session_id, (p.timestamp, (p.buffer_id, (p.buffer_size, (p.position, p.payload))))),
        ),
      ),
    ),
  ),
)

abbrev pub metadata_packet_build : MetadataPacketRow → MetadataPacket
metadata_packet_build t = record {
  version = t.0;
  opts = t.1.0;
  packet_type = t.1.1.0;
  batch_id = t.1.1.1.0;
  fec_info = t.1.1.1.1.0;
  session_id = t.1.1.1.1.1.0;
  timestamp = t.1.1.1.1.1.1.0;
  buffer_id = t.1.1.1.1.1.1.1.0;
  buffer_size = t.1.1.1.1.1.1.1.1.0;
  position = t.1.1.1.1.1.1.1.1.1.0;
  payload = t.1.1.1.1.1.1.1.1.1.1;
}

abbrev pub metadata_packet_fields : Fields MetadataPacketRow
metadata_packet_fields =
    version
    ⨟ options
    ⨟ packet_type
    ⨟ batch_id
    ⨟ fec_info
    ⨟ session_id
    ⨟ timestamp
    ⨟ buffer_id
    ⨟ buffer_size
    ⨟ byte_position
    ⨟ payload payload_field

abbrev pub metadata_packet_codec : Serialize MetadataPacket
metadata_packet_codec =
    derive_struct metadata_packet_fields metadata_packet_split metadata_packet_build

abbrev pub metadata_packet_headers : MetadataPacket → Outcome Bytes
metadata_packet_headers = derive_headers metadata_packet_fields metadata_packet_split

-- `struct ParityPacket`
pub record ParityPacket : Type 0 where
  pub version : ℕ
  pub opts : ℕ
  pub packet_type : PacketType
  pub batch_id : ℕ
  pub fec_info : FecInfo
  pub session_id : ℕ
  pub timestamp : ℕ
  pub payload : Bytes

abbrev pub ParityPacketRow : Type 0
ParityPacketRow = ℕ × (ℕ × (PacketType × (ℕ × (FecInfo × (ℕ × (ℕ × Bytes))))))

abbrev pub parity_packet_split : ParityPacket → ParityPacketRow
parity_packet_split p = (
  p.version,
  (p.opts, (p.packet_type, (p.batch_id, (p.fec_info, (p.session_id, (p.timestamp, p.payload)))))),
)

abbrev pub parity_packet_build : ParityPacketRow → ParityPacket
parity_packet_build t = record {
  version = t.0;
  opts = t.1.0;
  packet_type = t.1.1.0;
  batch_id = t.1.1.1.0;
  fec_info = t.1.1.1.1.0;
  session_id = t.1.1.1.1.1.0;
  timestamp = t.1.1.1.1.1.1.0;
  payload = t.1.1.1.1.1.1.1;
}

abbrev pub parity_packet_fields : Fields ParityPacketRow
parity_packet_fields =
    version
    ⨟ options
    ⨟ packet_type
    ⨟ batch_id
    ⨟ fec_info
    ⨟ session_id
    ⨟ timestamp
    ⨟ payload parity_payload

abbrev pub parity_packet_codec : Serialize ParityPacket
parity_packet_codec = derive_struct parity_packet_fields parity_packet_split parity_packet_build

abbrev pub parity_packet_headers : ParityPacket → Outcome Bytes
parity_packet_headers = derive_headers parity_packet_fields parity_packet_split

-- `struct RetransmitPacket`
pub record RetransmitPacket : Type 0 where
  pub version : ℕ
  pub opts : ℕ
  pub packet_type : PacketType
  pub control_type : ControlType
  pub buffer_id : Option ℕ
  pub session_id : ℕ
  pub timestamp : ℕ
  pub payload : List ByteRange

abbrev pub RetransmitPacketRow : Type 0
RetransmitPacketRow =
    ℕ × (ℕ × (PacketType × (ControlType × ((Option ℕ) × (ℕ × (ℕ × (List ByteRange)))))))

abbrev pub retransmit_packet_split : RetransmitPacket → RetransmitPacketRow
retransmit_packet_split p = (
  p.version,
  (
    p.opts,
    (p.packet_type, (p.control_type, (p.buffer_id, (p.session_id, (p.timestamp, p.payload))))),
  ),
)

abbrev pub retransmit_packet_build : RetransmitPacketRow → RetransmitPacket
retransmit_packet_build t = record {
  version = t.0;
  opts = t.1.0;
  packet_type = t.1.1.0;
  control_type = t.1.1.1.0;
  buffer_id = t.1.1.1.1.0;
  session_id = t.1.1.1.1.1.0;
  timestamp = t.1.1.1.1.1.1.0;
  payload = t.1.1.1.1.1.1.1;
}

abbrev pub retransmit_packet_fields : Bool → Fields RetransmitPacketRow
retransmit_packet_fields debug =
    version
    ⨟ options
    ⨟ packet_type
    ⨟ control_type
    ⨟ optional_buffer_id debug
    ⨟ session_id
    ⨟ timestamp
    ⨟ payload byte_ranges

abbrev pub retransmit_packet_codec : Bool → Serialize RetransmitPacket
retransmit_packet_codec debug =
    derive_struct (retransmit_packet_fields debug) retransmit_packet_split retransmit_packet_build

abbrev pub retransmit_packet_headers : Bool → RetransmitPacket → Outcome Bytes
retransmit_packet_headers debug =
    derive_headers (retransmit_packet_fields debug) retransmit_packet_split
