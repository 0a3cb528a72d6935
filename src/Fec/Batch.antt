-- ===== src/Fec/Batch.antt =====
-- The batches of src/packet_processor/fec/xor.rs. The two `u128` words of `batch_mask` are the list of
-- their 256 bits.
pub mod Algebra
pub mod Mask
pub mod Recovery
pub mod LostPacket
use ubass_rs.Base.{
  ℕ, ◌+◌, ◌-◌, ◌*◌, ◌^◌, ◌%◌, List, [], ◌∷◌, Bool, true, false, not, ◌&&◌, ◌==◌, ltb, get_or, set,
  take, replicate, if◌then◌else◌, Option, none, some,
}
use ubass_rs.Base.Outcome.{Outcome, ok, panic, ◌>>=◌}
use ubass_rs.Wire.Codec.{Bytes}
use ubass_rs.Packets.Scalars.{max_payload_length, byte_position}
use ubass_rs.Fec.{FecPacket, empty_data, xor_data, expect_ok}

-- `struct InboundBatchData`
pub record InboundBatch : Type 0 where
  pub product : Bytes
  pub parity : Option Bytes
  pub batch_size : ℕ
  pub data_received : ℕ
  pub batch_mask : List Bool
  pub created_at : ℕ
  pub base_byte_pos : Option ℕ
  pub is_contiguous : Bool

-- `InboundBatchData::new`, at the time `now`
unfoldable pub inbound_new : ℕ → ℕ → InboundBatch
inbound_new now batch_size = record {
  product = empty_data;
  parity = none;
  batch_size = batch_size;
  data_received = 0;
  batch_mask = replicate 256 false;
  created_at = now;
  base_byte_pos = none;
  is_contiguous = true;
}

-- What `add` does to `base_byte_pos` and `is_contiguous`.
unfoldable pub track_base : Option ℕ → Bool → ℕ → Option ℕ × Bool
track_base none contiguous derived_base = (some derived_base, contiguous)
track_base (some existing) contiguous derived_base =
    (some existing, if not (existing == derived_base) then false else contiguous)

-- `add`. The subtraction is `saturating_sub`.
unfoldable pub inbound_add : InboundBatch → FecPacket → Outcome (InboundBatch × Bool)
unfolding track_base xor_data
inbound_add batch packet =
    if ltb batch.data_received batch.batch_size
      && not (get_or batch.batch_mask packet.fec_info.batch_pos true)
    then (do
      pkt_byte_pos ← expect_ok (byte_position.deserialize (take 4 packet.fec_bytes))
      let base =
          track_base batch.base_byte_pos batch.is_contiguous
            (pkt_byte_pos - packet.fec_info.batch_pos * max_payload_length)
      ok (
        record batch {
          product = xor_data batch.product packet.fec_bytes;
          data_received = batch.data_received + 1;
          batch_mask = set batch.batch_mask packet.fec_info.batch_pos true;
          base_byte_pos = base.0;
          is_contiguous = base.1;
        },
        true,
      ))
    else ok (batch, false)

-- `parity`
unfoldable pub inbound_parity : InboundBatch → Bytes → InboundBatch × Bool
inbound_parity batch parity = elim batch.parity [
  | some _ ↦ (batch, false)
  | none ↦ (record batch { parity = some parity }, true)
]

-- What `received` does to the batch of a packet.
unfoldable pub inbound_receive : InboundBatch → FecPacket → Outcome InboundBatch
unfolding inbound_add inbound_parity
inbound_receive batch packet =
    if packet.is_parity
    then ok (inbound_parity batch packet.fec_bytes).0
    else (do added ← inbound_add batch packet; ok added.0)

-- `self.data_received == self.batch_size - 1` on `u8`s
unfoldable pub lacks_one : Bool → InboundBatch → Outcome Bool
lacks_one debug batch =
    if batch.batch_size == 0
    then if debug then panic else ok (batch.data_received == 255)
    else ok (batch.data_received == batch.batch_size - 1)

-- `recover`
unfoldable pub inbound_recover : Bool → InboundBatch → Outcome (Option Bytes)
unfolding lacks_one xor_data
inbound_recover debug batch = do
  ready ← lacks_one debug batch
  ok (
      if ready
      then elim batch.parity [ none ↦ none | some parity ↦ some (xor_data batch.product parity) ]
      else none)

-- `struct OutboundBatchData`
pub record OutboundBatch : Type 0 where
  pub product : Bytes
  pub batch_size : ℕ
  pub current_size : ℕ

unfoldable pub outbound_new : ℕ → OutboundBatch
outbound_new batch_size = record { product = empty_data; batch_size = batch_size; current_size = 0 }

-- `add`
unfoldable pub outbound_add : OutboundBatch → Bytes → OutboundBatch × Bool
unfolding xor_data
outbound_add batch data_ = (
  record batch { product = xor_data batch.product data_; current_size = batch.current_size + 1 },
  batch.batch_size == batch.current_size + 1,
)

-- Packets of one batch, one after the other.
unfoldable pub receive_packets : InboundBatch → List FecPacket → Outcome InboundBatch
unfolding inbound_receive
receive_packets batch [] = ok batch
receive_packets batch (packet ∷ packets) = do
  next ← inbound_receive batch packet
  receive_packets next packets

-- The data of the sent packets of one batch, one after the other: the batch, and what the last `add`
-- returned.
unfoldable pub send_data : OutboundBatch → Bool → List Bytes → OutboundBatch × Bool
unfolding outbound_add
send_data batch ready [] = (batch, ready)
send_data batch ready (d ∷ ds) = send_data (outbound_add batch d).0 (outbound_add batch d).1 ds
