-- ===== src/Fec/Loss.antt =====
-- From the packets of a batch to the one that was lost (src/packet_processor/fec).
use ubass_rs.Base.{ℕ, zero, suc, ◌^◌, ◌≤◌, ◌<◌, ◌≡◌, ◌≢◌, sym, ap, ◌∙◌, arith}
use ubass_rs.Base.{
  Bool, Option, some, List, [], ◌∷◌, length, get_elem?, get_or, All, replicate, if◌then◌else◌,
}
use ubass_rs.Base.Outcome.{Outcome, ok}
use ubass_rs.Wire.Codec.{Bytes}
use ubass_rs.Packets.Streams.{DataPacket}
use ubass_rs.Fec.{FecPacket, RecoverdPacket, fec_data, recovered_packet}
use ubass_rs.Fec.Payload.{fec_data-recovered_packet}
use ubass_rs.Fec.Batch.{InboundBatch, inbound_new, inbound_recover, receive_packets}
use ubass_rs.Fec.Batch.Mask.{IsFull}
use ubass_rs.Fec.Batch.Recovery.{IsOf}
use ubass_rs.Fec.Batch.LostPacket.{HasData, HasParity, lost_packet_recovered}

-- The data packets of a batch and what they put into the error correction.
abbrev pub AreDataOf : Bool → List DataPacket → List Bytes → Type 0
AreDataOf debug [] [] = Unit
AreDataOf debug [] (d ∷ ds) = ⊥
AreDataOf debug (p ∷ ps) [] = ⊥
AreDataOf debug (p ∷ ps) (d ∷ ds) =
    (p.byte_range_start < 2 ^ 32)
    × ((length p.payload ≤ 1368) × ((fec_data debug p ≡ ok d) × AreDataOf debug ps ds))

-- What is recovered of a packet.
abbrev pub recovered_of : Bool → DataPacket → RecoverdPacket
recovered_of debug p = record {
  byte_range_start = p.byte_range_start;
  payload = if debug then p.payload else replicate (length p.payload) 0;
}

one_data :
    (debug : Bool) (p : DataPacket) (d : Bytes)
    → p.byte_range_start < 2 ^ 32
    → length p.payload ≤ 1368
    → fec_data debug p ≡ ok d
    → (length d ≡ 1374) × (recovered_packet d ≡ ok (recovered_of debug p))
one_data debug p d h l e =
    let (bytes, eq, size, back) = fec_data-recovered_packet debug p h l in
    let same : bytes ≡ d = ok_inj (sym eq ∙ e) in
    (ap (λ b. length b) (sym same) ∙ size, ap (λ b. recovered_packet b) (sym same) ∙ back)
  where
    ok_inj : {a b : Bytes} → ◌≡◌ {A = Outcome Bytes} (ok a) (ok b) → a ≡ b
    ok_inj q = cc q

AreDataOf-IsFull :
    (debug : Bool) (ps : List DataPacket) (ds : List Bytes) → AreDataOf debug ps ds → IsFull ds
AreDataOf-IsFull debug [] [] h = tt
AreDataOf-IsFull debug [] (d ∷ ds) h = elim h [ ]
AreDataOf-IsFull debug (p ∷ ps) [] h = elim h [ ]
AreDataOf-IsFull debug (p ∷ ps) (d ∷ ds) (h, (l, (e, later))) =
    ((one_data debug p d h l e).0, AreDataOf-IsFull debug ps ds later)

data_at :
    (debug : Bool) (ps : List DataPacket) (ds : List Bytes) (m : ℕ) (p : DataPacket)
    → AreDataOf debug ps ds
    → get_elem? ps m ≡ some p
    → (m < length ds) × (recovered_packet (get_or ds m []) ≡ ok (recovered_of debug p))
data_at debug [] [] m p h at_m = cc at_m
data_at debug [] (d ∷ ds) m p h at_m = elim h [ ]
data_at debug (q ∷ ps) [] m p h at_m = elim h [ ]
data_at debug (q ∷ ps) (d ∷ ds) zero p (h, (l, (e, later))) at_m = (
  omega arith,
  (one_data debug q d h l e).1 ∙ ap (λ r. ok (recovered_of debug r)) (some_inj at_m),
)
  where
    some_inj : {a b : DataPacket} → ◌≡◌ {A = Option DataPacket} (some a) (some b) → a ≡ b
    some_inj w = cc w
data_at debug (q ∷ ps) (d ∷ ds) (suc m) p (h, (l, (e, later))) at_m =
    let (inside, back) = data_at debug ps ds m p later at_m in (omega (arith, inside), back)

-- A batch of at most 255 data packets with 32-bit positions and payloads of at most 1368 bytes loses
-- packet `p`, its `m`-th. The others and the parity packet of their data arrive, in any order and any
-- number of times. Nothing panics, `recover` gives data, and the packet that comes out of these has
-- the position of `p` and, in a build with debug assertions, its payload; without them it has zeros.
pub lost_packet_restored :
    (debug : Bool) (now : ℕ) (sent : List DataPacket) (ds : List Bytes) (m : ℕ) (p : DataPacket)
    (arrived : List FecPacket)
    → AreDataOf debug sent ds
    → length ds ≤ 255
    → get_elem? sent m ≡ some p
    → All (IsOf ds) arrived
    → ¬ HasData arrived m
    → ((j : ℕ) → j < length ds → j ≢ m → HasData arrived j)
    → HasParity arrived
    → (after : InboundBatch) × (bytes : Bytes) × (receive_packets
          (inbound_new now (length ds))
          arrived
        ≡ ok after)
      × (inbound_recover debug after ≡ ok (some bytes))
      × (recovered_packet bytes ≡ ok (recovered_of debug p))
lost_packet_restored debug now sent ds m p arrived data_of few at_m of lost others parity =
    let (inside, back) = data_at debug sent ds m p data_of at_m in
    let (after, eq, _, recovered) =
      lost_packet_recovered debug now ds m arrived (AreDataOf-IsFull debug sent ds data_of) few
        inside of lost others parity in
    (after, get_or ds m [], eq, recovered, back)
