-- ===== src/Fec/Xor.antt =====
-- `struct Xor` of src/packet_processor/fec/xor.rs: the batches that are open, by batch and session.
-- Each operation is one step: what the locks let another task do in between is not modelled.
pub mod Batches
pub mod Missing
pub mod Prune
pub mod Received
use ubass_rs.Buffers.Writeable.{add_u32}
use ubass_rs.Packets.Scalars.{max_payload_length}
use ubass_rs.Base.{zero, suc}
use ubass_rs.Base.{
  ℕ, ◌+◌, ◌-◌, ◌*◌, ◌^◌, ◌==◌, ltb, ◌&&◌, Bool, true, false, not, List, [], ◌∷◌, ◌++◌, get_or,
  if◌then◌else◌, Option, none, some,
}
use ubass_rs.Base.Maps.{HashMap, pair_eq, nat_eq, get, remove, insert, or_insert}
use ubass_rs.Base.Outcome.{Outcome, ok, ◌>>=◌}
use ubass_rs.Packets.Flags.{no_options}
use ubass_rs.Packets.Scalars.{FecInfo, fec_info_new, max_payload_length}
use ubass_rs.Packets.Streams.{ParityPacket}
use ubass_rs.Packets.New.Carriers.{parity_packet_new}
use ubass_rs.Fec.{FecPacket, RecoverdPacket, recovered_packet}
use ubass_rs.Fec.Batch.{
  InboundBatch, inbound_new, inbound_receive, inbound_recover, lacks_one, OutboundBatch,
  outbound_new, outbound_add,
}

-- `MapKey`: the batch and the session.
abbrev pub MapKey : Type 0
MapKey = ℕ × ℕ

abbrev pub key_of : FecPacket → MapKey
key_of p = (p.batch_id, p.session_id)

-- The packet of a full batch.
unfoldable pub parity_of_batch : Bool → ℕ → FecPacket → OutboundBatch → Outcome ParityPacket
unfolding fec_info_new parity_packet_new
parity_of_batch debug now packet batch = do
  info ← fec_info_new debug packet.fec_info.batch_size 0 1
  parity_packet_new debug now no_options packet.batch_id info packet.session_id batch.product

-- `sent`
unfoldable pub sent :
    Bool
    → ℕ
    → HashMap MapKey OutboundBatch
    → FecPacket
    → Outcome (HashMap MapKey OutboundBatch × Option (List ParityPacket))
unfolding or_insert insert remove outbound_new outbound_add parity_of_batch
sent debug now outbound packet =
    let added =
      outbound_add (or_insert (key_of packet) (outbound_new packet.fec_info.batch_size) outbound)
        packet.fec_bytes in
    if added.1
    then (do
      parity ← parity_of_batch debug now packet added.0
      ok (remove (key_of packet) outbound, some (parity ∷ [])))
    else ok (insert (key_of packet) added.0 outbound, none)

abbrev pub is_some : {V : Type 0} → Option V → Bool
is_some none = false
is_some (some v) = true

-- `received`: whether a packet can be recovered now.
unfoldable pub received :
    Bool
    → ℕ
    → HashMap MapKey InboundBatch
    → FecPacket
    → Outcome (HashMap MapKey InboundBatch × Bool)
unfolding or_insert insert inbound_new inbound_receive lacks_one is_some
received debug now inbound packet = do
  batch ←
      inbound_receive
        (or_insert (key_of packet) (inbound_new now packet.fec_info.batch_size) inbound) packet
  lacks ← lacks_one debug batch
  ok (insert (key_of packet) batch inbound, lacks && is_some batch.parity)

-- `recover`
unfoldable pub recover :
    Bool
    → HashMap MapKey InboundBatch
    → MapKey
    → Outcome (HashMap MapKey InboundBatch × Option (List RecoverdPacket))
unfolding get remove inbound_recover recovered_packet
recover debug inbound k = elim (get k inbound) [
  | none ↦ ok (inbound, none)
  | some batch ↦ do
    bytes ← inbound_recover debug batch
    elim bytes [
      | none ↦ ok (remove k inbound, none)
      | some d ↦ do packet ← recovered_packet d; ok (remove k inbound, some (packet ∷ []))
    ]
]

-- `sent` of one packet after the other, with what each returned.
unfoldable pub sent_all :
    Bool
    → ℕ
    → HashMap MapKey OutboundBatch
    → List FecPacket
    → Outcome (HashMap MapKey OutboundBatch × List (Option (List ParityPacket)))
unfolding sent
sent_all debug now outbound [] = ok (outbound, [])
sent_all debug now outbound (packet ∷ packets) = do
  first ← sent debug now outbound packet
  rest ← sent_all debug now first.0 packets
  ok (rest.0, first.1 ∷ rest.1)

-- `missing_positions` of a batch with the given base, from the place `i` on.
unfoldable pub missing_loop : Bool → List Bool → ℕ → ℕ → ℕ → Outcome (List ℕ)
unfolding add_u32
missing_loop debug mask base i zero = ok []
missing_loop debug mask base i (suc n) = do
  position ← if get_or mask i true then ok 0 else add_u32 debug base (i * max_payload_length)
  rest ← missing_loop debug mask base (i + 1) n
  ok (if get_or mask i true then rest else position ∷ rest)

-- `missing_positions`
unfoldable pub missing_positions : Bool → InboundBatch → Outcome (List ℕ)
unfolding missing_loop
missing_positions debug batch = elim batch.base_byte_pos [
  | none ↦ ok []
  | some base ↦
      if not batch.is_contiguous
      then ok []
      else missing_loop debug batch.batch_mask base 0 batch.batch_size
]
