-- ===== src/Fec.antt =====
-- Forward error correction by parity packets: src/packet_processor/fec/mod.rs and
-- src/packet_processor/fec/xor.rs. `debug` tells whether the build has debug assertions.
pub mod Batch
pub mod Payload
pub mod Loss
pub mod Xor
use ubass_rs.Base.{
  ℕ, ◌+◌, ◌-◌, ◌%◌, ◌^◌, List, [], ◌∷◌, ◌++◌, Bool, true, false, leb, length, take, drop, replicate,
  if◌then◌else◌,
}
use ubass_rs.Base.Outcome.{Outcome, ok, err, panic, ◌>>=◌}
use ubass_rs.Base.Bits.{xor_comm}
use Prim.Native.Nat.{bit_xor}
use ubass_rs.Wire.Codec.{Bytes, uint, byte_vec, serialize_at}
use ubass_rs.Wire.Derive.{ignore_err}
use ubass_rs.Packets.Scalars.{FecInfo, byte_position, payload_field, parity_max_payload_length}
use ubass_rs.Packets.Streams.{DataPacket, ParityPacket}

-- `FEC_DATA_SIZE`
abbrev pub fec_data_size : ℕ
fec_data_size = parity_max_payload_length

-- `FECData::default()`
abbrev pub empty_data : Bytes
empty_data = replicate fec_data_size 0

-- `debug_assert!(value.payload.serialize(&mut buf[4..]).is_ok())`: the call is part of the assertion, so
-- a build without debug assertions does not make it.
unfoldable pub assert_payload : Bool → Bytes → Bytes → Outcome Bytes
unfolding serialize_at
assert_payload true payload buf = elim (serialize_at payload_field payload 4 buf) [
  | ok buf' ↦ ok buf'
  | err ↦ panic
  | panic ↦ panic
]
assert_payload false payload buf = ok buf

-- `From<&DataPacket> for FECData`
unfoldable pub fec_data : Bool → DataPacket → Outcome Bytes
unfolding serialize_at ignore_err assert_payload
fec_data debug value = do
  positioned ← ignore_err empty_data (byte_position.serialize value.byte_range_start empty_data)
  filled ← assert_payload debug value.payload positioned
  ignore_err filled
      (serialize_at (uint 2) (length value.payload % 2 ^ 16) (fec_data_size - 2) filled)

-- `struct RecoverdPacket`
pub record RecoverdPacket : Type 0 where
  pub byte_range_start : ℕ
  pub payload : Bytes

-- `deserialize(..).expect(..)`
abbrev pub expect_ok {ℓ} : {A : Type ℓ} → Outcome A → Outcome A
expect_ok (ok a) = ok a
expect_ok err = panic
expect_ok panic = panic

-- `From<FECData> for RecoverdPacket`, of data of the fixed size.
unfoldable pub recovered_packet : Bytes → Outcome RecoverdPacket
recovered_packet value = do
  start ← expect_ok (byte_position.deserialize (take 4 value))
  payload_len ← expect_ok ((uint 2).deserialize (drop (length value - 2) value))
  ok (record {
    byte_range_start = start;
    payload = take payload_len (drop 4 (take (length value - 2) value));
  })

-- `struct FECPacket`
pub record FecPacket : Type 0 where
  pub is_parity : Bool
  pub session_id : ℕ
  pub batch_id : ℕ
  pub fec_info : FecInfo
  pub fec_bytes : Bytes

-- `From<DataPacket> for FECPacket`
unfoldable pub data_fec_packet : Bool → DataPacket → Outcome FecPacket
unfolding fec_data
data_fec_packet debug value = do
  data_ ← fec_data debug value
  ok (record {
    is_parity = false;
    session_id = value.session_id;
    batch_id = value.batch_id;
    fec_info = value.fec_info;
    fec_bytes = data_;
  })

-- `From<ParityPacket> for FECPacket`
unfoldable pub parity_fec_packet : ParityPacket → Outcome FecPacket
unfolding ignore_err
parity_fec_packet value = do
  data_ ← ignore_err empty_data (byte_vec.serialize value.payload empty_data)
  ok (record {
    is_parity = true;
    session_id = value.session_id;
    batch_id = value.batch_id;
    fec_info = value.fec_info;
    fec_bytes = data_;
  })

-- `BitXorAssign for FECData`
unfoldable pub xor_data : Bytes → Bytes → Bytes
xor_data [] bs = []
xor_data (a ∷ xs) [] = a ∷ xs
xor_data (a ∷ xs) (b ∷ bs) = bit_xor a b ∷ xor_data xs bs
