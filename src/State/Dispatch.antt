-- ===== src/State/Dispatch.antt =====
-- `dispatch_retransmit_request` of src/manager/state.rs. What is sent is a list.
use ubass_rs.Base.{
  ℕ, zero, suc, ◌/◌, ◌≤◌, ◌<◌, ◌≡◌, refl, ap, ap₂, ◌∙◌, arith, Bool, true, List, [], ◌∷◌, ◌++◌,
  take, drop, length, length-take, length-drop, take-append-drop, All,
}
use ubass_rs.Base.Outcome.{Outcome, ok, ◌>>=◌}
use ubass_rs.Packets.Flags.{no_options, valid_flag}
use ubass_rs.Packets.Scalars.{ByteRange, elem_size}
use ubass_rs.Packets.Streams.{RetransmitPacket}
use ubass_rs.Packets.New.Carriers.{retransmit_packet_data, retransmit_max_payload_length}
use ubass_rs.Packets.New.Acked.{RequiresAck, retransmit_packet_data_lem}

-- `ranges.chunks(n)`: a list has at most as many chunks as elements.
unfoldable pub chunks_loop : ℕ → ℕ → List ByteRange → List (List ByteRange)
chunks_loop zero n ranges = []
chunks_loop (suc fuel) n [] = []
chunks_loop (suc fuel) n (r ∷ ranges) =
    take n (r ∷ ranges) ∷ chunks_loop fuel n (drop n (r ∷ ranges))

unfoldable pub chunks : ℕ → List ByteRange → List (List ByteRange)
unfolding chunks_loop
chunks n ranges = chunks_loop (length ranges) n ranges

-- The packets of the chunks, in order.
unfoldable pub retransmit_packets :
    Bool → ℕ → ℕ → List (List ByteRange) → Outcome (List RetransmitPacket)
retransmit_packets debug now session [] = ok []
retransmit_packets debug now session (chunk ∷ rest) = do
  packet ← retransmit_packet_data debug now no_options session chunk
  packets ← retransmit_packets debug now session rest
  ok (packet ∷ packets)

-- `dispatch_retransmit_request`. Of no ranges there are no chunks, so nothing is sent.
unfoldable pub dispatch_retransmit_request :
    Bool → ℕ → ℕ → List ByteRange → Outcome (List RetransmitPacket)
unfolding chunks retransmit_packets
dispatch_retransmit_request debug now session ranges =
    retransmit_packets debug now session (chunks (retransmit_max_payload_length / elem_size) ranges)

-- The ranges that packets carry, in order.
unfoldable pub carried : List RetransmitPacket → List ByteRange
carried [] = []
carried (p ∷ packets) = p.payload ++ carried packets

retransmit_packets_lem :
    (debug : Bool) (now session fuel : ℕ) (ranges : List ByteRange)
    → length ranges ≤ fuel
    → (packets : List RetransmitPacket) × (retransmit_packets debug now session
          (chunks_loop fuel 228 ranges)
        ≡ ok packets)
      × (carried packets ≡ ranges)
      × All
          (λ p.
            (p.session_id ≡ session)
            × ((0 < length p.payload) × ((length p.payload ≤ 228) × RequiresAck true p.opts)))
          packets
unfolding chunks_loop retransmit_packets carried valid_flag
retransmit_packets_lem debug now session zero [] h = ([], refl, refl, tt)
retransmit_packets_lem debug now session zero (r ∷ ranges) h = absurd (omega (arith, h))
retransmit_packets_lem debug now session (suc fuel) [] h = ([], refl, refl, tt)
retransmit_packets_lem debug now session (suc fuel) (r ∷ ranges) h =
    let (p, made, of, payload, ack) =
      retransmit_packet_data_lem debug now no_options session (take 228 (r ∷ ranges)) refl
        (omega (arith, length-take 228 (r ∷ ranges))) in
    let (packets, eq, same, facts) =
      retransmit_packets_lem debug now session fuel (drop 228 (r ∷ ranges))
        (omega (arith, h, length-drop 228 (r ∷ ranges))) in
    (
      p ∷ packets,
      rw (made, eq) refl,
      ap₂ (λ a b. a ++ b) payload same ∙ take-append-drop 228 (r ∷ ranges),
      (
        (
          of,
          (
            omega (arith, ap length payload, length-take 228 (r ∷ ranges)),
            (omega (arith, ap length payload, length-take 228 (r ∷ ranges)), ack),
          ),
        ),
        facts,
      ),
    )

-- Whatever the ranges: the request does not panic; its packets are of the session, ask to be acknowledged
-- and carry at least one and at most 228 ranges each, and one after the other exactly the given ranges,
-- in order. So there is no packet when there are no ranges.
pub dispatch_retransmit_request-carried :
    (debug : Bool) (now session : ℕ) (ranges : List ByteRange)
    → (packets : List RetransmitPacket) × (dispatch_retransmit_request debug now session ranges
        ≡ ok packets)
      × (carried packets ≡ ranges)
      × All
          (λ p.
            (p.session_id ≡ session)
            × ((0 < length p.payload) × ((length p.payload ≤ 228) × RequiresAck true p.opts)))
          packets
unfolding dispatch_retransmit_request chunks
dispatch_retransmit_request-carried debug now session ranges =
    retransmit_packets_lem debug now session (length ranges) ranges (omega arith)
