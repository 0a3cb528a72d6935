-- ===== src/Packets/New/Carriers.antt =====
-- The constructors of the packets that carry a stream, from src/manager/packets.rs. `now` is what
-- `Timestamp::now()` returns. `assert_opts_valid` is called in builds with debug assertions.
use ubass_rs.Base.{ℕ, ◌/◌, ◌-◌, ◌%◌, leb, ltb, Bool, List, length, none, some}
use ubass_rs.Base.Outcome.{Outcome, ok, ◌>>=◌, ◌>>◌}
use ubass_rs.Wire.Codec.{Bytes}
use ubass_rs.Packets.Kinds.{PacketType, session_control, SessionControlType}
use ubass_rs.Packets.Flags.{OptionFlags, set_flag, valid_flag}
use ubass_rs.Packets.Scalars.{
  debug_assert, current_version, FecInfo, ByteRange, elem_size, max_payload_length,
  payload_field_new, parity_payload_new,
}
use ubass_rs.Packets.Streams.{DataPacket, MetadataPacket, ParityPacket, RetransmitPacket}

-- `DataPacket::new`
unfoldable pub data_packet_new : Bool → ℕ → ℕ → ℕ → FecInfo → ℕ → ℕ → Bytes → Outcome DataPacket
unfolding current_version valid_flag
data_packet_new debug now opts batch info session start bytes = do
  debug_assert debug (valid_flag opts)
  payload_ ← payload_field_new debug bytes
  ok (record {
    version = current_version;
    opts = opts;
    packet_type = PacketType.data_type;
    batch_id = batch;
    fec_info = info;
    session_id = session;
    timestamp = now;
    byte_range_start = start;
    payload = payload_;
  })

-- `MetadataPacket::new`
unfoldable pub metadata_packet_new :
    Bool → ℕ → ℕ → ℕ → FecInfo → ℕ → ℕ → ℕ → ℕ → Bytes → Outcome MetadataPacket
unfolding current_version valid_flag
metadata_packet_new debug now opts batch info session buffer size pos bytes = do
  debug_assert debug (ltb pos size)
  debug_assert debug (valid_flag opts)
  payload_ ← payload_field_new debug bytes
  ok (record {
    version = current_version;
    opts = opts;
    packet_type = PacketType.metadata;
    batch_id = batch;
    fec_info = info;
    session_id = session;
    timestamp = now;
    buffer_id = buffer;
    buffer_size = size;
    position = pos;
    payload = payload_;
  })

-- `ParityPacket::new`
unfoldable pub parity_packet_new : Bool → ℕ → ℕ → ℕ → FecInfo → ℕ → Bytes → Outcome ParityPacket
unfolding current_version valid_flag
parity_packet_new debug now opts batch info session bytes = do
  debug_assert debug (valid_flag opts)
  payload_ ← parity_payload_new debug bytes
  ok (record {
    version = current_version;
    opts = opts;
    packet_type = PacketType.parity;
    batch_id = batch;
    fec_info = info;
    session_id = session;
    timestamp = now;
    payload = payload_;
  })

-- `RetransmitPacket::LOCAL_MAX_PAYLOAD_LENGTH`
abbrev pub retransmit_max_payload_length : ℕ
retransmit_max_payload_length = max_payload_length - max_payload_length % 6

-- `RetransmitPacket::data`
unfoldable pub retransmit_packet_data : Bool → ℕ → ℕ → ℕ → List ByteRange → Outcome RetransmitPacket
unfolding current_version set_flag valid_flag
retransmit_packet_data debug now opts session ranges = do
  debug_assert debug (leb (length ranges) (retransmit_max_payload_length / elem_size))
  let opts_ = set_flag opts OptionFlags.require_ack
  debug_assert debug (valid_flag opts_)
  ok (record {
    version = current_version;
    opts = opts_;
    packet_type = PacketType.session;
    control_type = session_control SessionControlType.retransmit;
    buffer_id = none;
    session_id = session;
    timestamp = now;
    payload = ranges;
  })

-- `RetransmitPacket::metadata`
unfoldable pub retransmit_packet_metadata :
    Bool → ℕ → ℕ → ℕ → ℕ → List ByteRange → Outcome RetransmitPacket
unfolding current_version set_flag valid_flag
retransmit_packet_metadata debug now opts session buffer ranges = do
  debug_assert debug (leb (length ranges) (retransmit_max_payload_length / elem_size))
  let opts_ = set_flag (set_flag opts OptionFlags.require_ack) OptionFlags.metadata
  debug_assert debug (valid_flag opts_)
  ok (record {
    version = current_version;
    opts = opts_;
    packet_type = PacketType.session;
    control_type = session_control SessionControlType.retransmit;
    buffer_id = some buffer;
    session_id = session;
    timestamp = now;
    payload = ranges;
  })
