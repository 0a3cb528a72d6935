-- ===== src/Fec/Xor/Received.antt =====
-- `Xor::received` of src/packet_processor/fec/xor.rs for the data packets that the manager passes on.
use ubass_rs.Base.{
  ℕ, ◌+◌, ◌-◌, ◌<◌, ◌^◌, ◌≤◌, ◌≡◌, refl, ap, arith, ◌==◌, ◌&&◌, ltb, not, get_or, set, ◌*◌, Bool,
  true, false, length, All, some, Option-cases, Bool-cases, inl, inr,
}
use ubass_rs.Base.Outcome.{ok}
use ubass_rs.Base.Maps.{
  HashMap, pair_eq, nat_eq, get, insert, or_insert, All-get, All-remove, get-insert_self,
}
use ubass_rs.Packets.Streams.{DataPacket}
use ubass_rs.Fec.{FecPacket, xor_data, data_fec_packet}
use ubass_rs.Fec.Payload.{fec_data-recovered_packet}
use ubass_rs.Fec.Batch.{
  InboundBatch, inbound_new, inbound_add, inbound_receive, lacks_one, track_base,
}
use ubass_rs.Fec.Batch.Recovery.{position_read}
use ubass_rs.Fec.Xor.{MapKey, key_of, is_some, received}

-- No open batch is of no packets.
abbrev pub HaveSizes : HashMap MapKey InboundBatch → Type 0
HaveSizes inbound = All (λ x. 0 < x.1.batch_size) inbound

-- A batch can be recovered when all packets but one and the parity have come.
abbrev pub is_recoverable : InboundBatch → Bool
is_recoverable batch = (batch.data_received + 1 == batch.batch_size) && is_some batch.parity

-- The data of a packet whose position and payload fit.
pub data_fec_packet_total :
    (debug : Bool) (packet : DataPacket)
    → packet.byte_range_start < 2 ^ 32
    → length packet.payload ≤ 1368
    → (p : FecPacket) × (data_fec_packet debug packet ≡ ok p)
      × (p.is_parity ≡ false)
      × (key_of p ≡ (packet.batch_id, packet.session_id))
      × (p.fec_info ≡ packet.fec_info)
      × (length p.fec_bytes ≡ 1374)
unfolding data_fec_packet
data_fec_packet_total debug packet h l =
    let (bytes, eq, size, back) = fec_data-recovered_packet debug packet h l in
    (
      record {
        is_parity = false;
        session_id = packet.session_id;
        batch_id = packet.batch_id;
        fec_info = packet.fec_info;
        fec_bytes = bytes;
      },
      rw (data_fec_packet, eq) refl,
      refl,
      refl,
      refl,
      size,
    )

inbound_receive_total :
    (batch : InboundBatch) (p : FecPacket)
    → p.is_parity ≡ false
    → length p.fec_bytes ≡ 1374
    → (after : InboundBatch) × (inbound_receive batch p ≡ ok after)
      × (after.batch_size ≡ batch.batch_size)
unfolding inbound_receive inbound_add
inbound_receive_total batch p is size =
    elim (Bool-cases (
      ltb batch.data_received batch.batch_size
      && not (get_or batch.batch_mask p.fec_info.batch_pos true))) [
        | inl new ↦
            let (n, read) = position_read p.fec_bytes size in
            (
              record batch {
                product = xor_data batch.product p.fec_bytes;
                data_received = batch.data_received + 1;
                batch_mask = set batch.batch_mask p.fec_info.batch_pos true;
                base_byte_pos =
                    (track_base batch.base_byte_pos batch.is_contiguous
                      (n - p.fec_info.batch_pos * 1368)).0;
                is_contiguous =
                    (track_base batch.base_byte_pos batch.is_contiguous
                      (n - p.fec_info.batch_pos * 1368)).1;
              },
              rw (inbound_receive, is, inbound_add, new, read) refl,
              refl,
            )
        | inr old ↦ (batch, rw (inbound_receive, is, inbound_add, old) refl, refl)
      ]

has_size : (n : ℕ) → 0 < n → (n == 0) ≡ false
has_size n h = ground arith

one_less : (k n : ℕ) → 0 < n → (k == n - 1) ≡ (k + 1 == n)
one_less k n h = ground arith

lacks_one_total :
    (debug : Bool) (batch : InboundBatch)
    → 0 < batch.batch_size
    → lacks_one debug batch ≡ ok (batch.data_received + 1 == batch.batch_size)
unfolding lacks_one
lacks_one_total debug batch h =
    rw (lacks_one, has_size batch.batch_size h)
      (ap (λ b. ok b) (one_less batch.data_received batch.batch_size h))

or_insert-size :
    (k : MapKey) (new : InboundBatch) (inbound : HashMap MapKey InboundBatch)
    → HaveSizes inbound
    → 0 < new.batch_size
    → 0 < (or_insert k new inbound).batch_size
unfolding or_insert
or_insert-size k new inbound sizes h = elim (Option-cases (get k inbound)) [
  | inl fresh ↦ rw (or_insert, fresh) h
  | inr (w, old) ↦ rw (or_insert, old) (All-get (λ v. 0 < v.batch_size) k w inbound sizes old)
]

-- A data packet of a batch with a size, when no open batch is of no packets: `received` does not panic,
-- what it returns is whether the batch of the packet can be recovered now, and again no open
-- batch is of no packets.
pub received_total :
    (debug : Bool) (now : ℕ) (inbound : HashMap MapKey InboundBatch) (p : FecPacket)
    → HaveSizes inbound
    → p.is_parity ≡ false
    → 0 < p.fec_info.batch_size
    → length p.fec_bytes ≡ 1374
    → (after : HashMap MapKey InboundBatch) × (batch : InboundBatch) × (received debug now inbound p
        ≡ ok (after, is_recoverable batch))
      × (get (key_of p) after ≡ some batch)
      × HaveSizes after
unfolding received insert inbound_new
received_total debug now inbound p sizes is some_size size =
    let old = or_insert (key_of p) (inbound_new now p.fec_info.batch_size) inbound in
    let has : 0 < old.batch_size =
      or_insert-size (key_of p) (inbound_new now p.fec_info.batch_size) inbound sizes some_size in
    let (batch, eq, same) = inbound_receive_total old p is size in
    let fits : 0 < batch.batch_size = omega (arith, has, same) in
    (
      insert (key_of p) batch inbound,
      batch,
      rw (received, eq, lacks_one_total debug batch fits) refl,
      get-insert_self (key_of p) batch inbound,
      (fits, All-remove (λ x. 0 < x.1.batch_size) (key_of p) inbound sizes),
    )
