-- ===== src/State/Sending/Batch.antt =====
-- What `send_data_packets` sends.
use ubass_rs.Base.{
  ℕ, zero, suc, ◌+◌, ◌%◌, min, ◌≤◌, ◌<◌, ◌≡◌, refl, ap, arith, le→leb, Bool, List, [], ◌∷◌, map,
  length, All,
}
use ubass_rs.Base.Outcome.{ok}
use ubass_rs.Wire.Codec.{Bytes}
use ubass_rs.Packets.Kinds.{PacketType}
use ubass_rs.Packets.Flags.{no_options}
use ubass_rs.Packets.Scalars.{FecInfo, current_version}
use ubass_rs.Packets.Streams.{DataPacket}
use ubass_rs.Packets.New.Carriers.{data_packet_new}
use ubass_rs.Packets.New.Acked.{debug_assert-true}
use ubass_rs.State.Sending.{xor_recovery_count, data_packets, send_data_packets}

-- The places of a batch of `len` packets from `i` on.
unfoldable pub places : ℕ → ℕ → ℕ → List FecInfo
places len i zero = []
places len i (suc n) =
    record { batch_size = len; batch_pos = i; recovery_count = 0 } ∷ places len (i + 1) n

no_recovery : (len : ℕ) → min xor_recovery_count len ≡ 0
no_recovery len = omega arith

small_place : (i : ℕ) → i < 256 → i % 256 ≡ i
small_place i h = omega (arith, h)

data_packets_lem :
    (debug : Bool) (now session batch len i : ℕ) (chunks : List (ℕ × Bytes))
    → i + length chunks < 256
    → All (λ c. length c.1 ≤ 1368) chunks
    → (packets : List DataPacket) × (data_packets debug now session batch len i chunks ≡ ok packets)
      × (map (λ p. (p.byte_range_start, p.payload)) packets ≡ chunks)
      × (map (λ p. p.fec_info) packets ≡ places len i (length chunks))
      × All (λ p. (p.batch_id ≡ batch) × (p.session_id ≡ session)) packets
unfolding data_packets places data_packet_new
data_packets_lem debug now session batch len i [] h fits = ([], refl, refl, refl, tt)
data_packets_lem debug now session batch len i ((position, payload) ∷ chunks) h (l, fits) =
    let (packets, eq, same, numbered, of) =
      data_packets_lem debug now session batch len (i + 1) chunks (omega (arith, h)) fits in
    let info : FecInfo = record { batch_size = len; batch_pos = i; recovery_count = 0 } in
    (
      record {
        version = current_version;
        opts = no_options;
        packet_type = PacketType.data_type;
        batch_id = batch;
        fec_info = info;
        session_id = session;
        timestamp = now;
        byte_range_start = position;
        payload = payload;
      }
          ∷ packets,
      rw
          (
            data_packets,
            no_recovery len,
            small_place i (omega (arith, h)),
            data_packet_new,
            debug_assert-true debug,
            le→leb (length payload) 1368 l,
            debug_assert-true debug,
            eq,
          )
          refl,
      ap (λ cs. (position, payload) ∷ cs) same,
      ap (λ is. info ∷ is) numbered,
      ((refl, refl), of),
    )

-- Up to 255 chunks of at most 1368 bytes are sent without a panic: as packets of the batch and the session
-- that carry the chunks, in order, each numbered by its place, with the number of chunks as the size.
pub send_data_packets_lem :
    (debug : Bool) (now session batch : ℕ) (chunks : List (ℕ × Bytes))
    → length chunks < 256
    → All (λ c. length c.1 ≤ 1368) chunks
    → (packets : List DataPacket) × (send_data_packets debug now session batch chunks ≡ ok packets)
      × (map (λ p. (p.byte_range_start, p.payload)) packets ≡ chunks)
      × (map (λ p. p.fec_info) packets ≡ places (length chunks) 0 (length chunks))
      × All (λ p. (p.batch_id ≡ batch) × (p.session_id ≡ session)) packets
unfolding send_data_packets
send_data_packets_lem debug now session batch chunks h fits =
    rw (send_data_packets, small_place (length chunks) h)
      (data_packets_lem debug now session batch (length chunks) 0 chunks (omega (arith, h)) fits)
