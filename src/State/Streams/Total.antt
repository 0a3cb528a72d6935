-- ===== src/State/Streams/Total.antt =====
-- What `received_data_packet` of src/manager/state.rs does to a session that receives a stream.
use ubass_rs.Base.{◌≡◌, some}
use ubass_rs.Base.Maps.{HashMap, nat_eq}
use ubass_rs.Packets.Streams.{DataPacket}
use ubass_rs.Base.{none}
use ubass_rs.Base.Maps.{get, pair_eq}
use ubass_rs.Fec.Batch.{InboundBatch}
use ubass_rs.Fec.Xor.{MapKey}
use ubass_rs.Fec.Xor.Received.{HaveSizes, is_recoverable}
use ubass_rs.State.Streams.Received.{Answer, ReceivedData}

module _ {Addr : Type 0} where
  -- What becomes of the open batches: a packet that goes on is added to its batch, and the answer is
  -- whether that can be recovered now; otherwise they stay.
  abbrev pub PassesOn :
      HashMap MapKey InboundBatch → DataPacket → Answer → ReceivedData Addr → Type 0
  PassesOn inbound packet Answer.passed_on r =
      (batch : InboundBatch) × ((get (packet.batch_id, packet.session_id) r.inbound ≡ some batch)
        × ((r.recoverable ≡ some (is_recoverable batch)) × HaveSizes r.inbound))
  PassesOn inbound packet answer r = (r.inbound ≡ inbound) × (r.recoverable ≡ none)
