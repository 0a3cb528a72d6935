-- ===== src/Examples.antt =====
-- Runs of the theorems on small inputs.
mod Manager
mod Sessions
mod Sending
use ubass_rs.Base.{
  ℕ, zero, suc, ◌+◌, ◌*◌, ◌/◌, ◌%◌, ◌^◌, ◌≤◌, ◌<◌, ◌≡◌, refl, ◌⊎◌, inl, inr, arith, ◌==◌, ◌≢◌, ◌↔◌,
}
use ubass_rs.Base.{
  Bool, true, false, not, List, [], ◌∷◌, length, replicate, length-replicate, get_or, Option, none,
  some, ltb, if◌then◌else◌,
}
use ubass_rs.Base.Outcome.{ok, err}
use ubass_rs.Wire.Codec.{Bytes}
use ubass_rs.Wire.Derive.{enum_variants}
use ubass_rs.Wire.Enums.{language_values, enum_variants-language}
use ubass_rs.Packets.Kinds.{PacketType, ErrorType, error_type}
use ubass_rs.Packets.Kinds.Unread.{session_does_not_exist_unread}
use ubass_rs.Packets.Scalars.{version_new, version_parse}
use ubass_rs.Packets.Scalars.Version.{version_parse-new}
use ubass_rs.Packets.Flags.{OptionFlags, set_flag, unset_flag, contains_flag}
use ubass_rs.Packets.Flags.Laws.{flags_behave_as_set}
use ubass_rs.Packets.Streams.{DataPacket}
use ubass_rs.Packets.Packet.{Packet, packet_to_wire, deserialize_like}
use ubass_rs.Packets.Sizes.{packet_bytes_bound}
use ubass_rs.Packets.RoundTrip.{IsPacket, packet_bytes, packet_round_trip}
use ubass_rs.Buffers.Areas.{occupy_areas}
use ubass_rs.Buffers.Areas.Laws.{areas_from, occupy_areas-areas_from}
use ubass_rs.Buffers.Writeable.{
  WriteableBuffer, from_bytes, write, WriteResult, seek_head, buffer_length, is_done,
}
use ubass_rs.Buffers.Writeable.Head.{IsWriteable}
use ubass_rs.Buffers.Writeable.Writes.{WriteMeans, write_total, from_bytes-IsWriteable}
use ubass_rs.Buffers.Writeable.Holes.{IsIn, seek_head_lem}
use ubass_rs.Buffers.Readable.{readable, next, seek}
use ubass_rs.Buffers.Transfer.{chunk_at, chunks_of, receive}
use ubass_rs.Buffers.Transfer.Complete.{transfer_complete}
use ubass_rs.Buffers.Transfer.Sender.{
  send_all, sent_chunks, at_chunk, seek_chunk, next-seek, track_transfer,
}
use ubass_rs.Fec.{FecPacket}
use ubass_rs.Fec.Xor.Missing.{IsMissing, missing_positions_lem}
use ubass_rs.Base.Maps.{HashMap, pair_eq, nat_eq, get}
use ubass_rs.Fec.Xor.{MapKey, sent_all, missing_positions}
use ubass_rs.Fec.Xor.Batches.{only_at_end, bytes_of, batch_sent}
use ubass_rs.Packets.Streams.{ParityPacket}
use ubass_rs.Fec.Batch.{OutboundBatch}
use ubass_rs.Fec.Batch.{
  InboundBatch, inbound_new, inbound_recover, lacks_one, receive_packets, outbound_new, send_data,
}
use ubass_rs.Fec.Batch.Mask.{IsFull, parity_of}
use ubass_rs.Fec.Batch.LostPacket.{HasData, lost_packet_recovered, parity_sent}
use ubass_rs.Packets.Scalars.{ByteRange}
use ubass_rs.Fec.{fec_data, recovered_packet}
use ubass_rs.Fec.Payload.{fec_data-recovered_packet}
use ubass_rs.Fec.Loss.{recovered_of, lost_packet_restored}
use ubass_rs.Retransmit.{coalesce_byte_positions, split_all}
use ubass_rs.Retransmit.Ranges.{ranges_at, coalesce_byte_positions-split}
use ubass_rs.Packets.Kinds.{PlaybackControlType, HandshakeRejectionReason}
use ubass_rs.Packets.Flags.{valid_flag}
use ubass_rs.Packets.Streams.{RetransmitPacket}
use ubass_rs.Packets.Control.{
  TrackRequestPacket, PlaybackControlPacket, CloseSessionPacket, TrackRejectionPacket,
}
use ubass_rs.Packets.Handshake.{HandshakeRejection}
use ubass_rs.Packets.Replies.{KeepAlivePacket}
use ubass_rs.Packets.New.Carriers.{retransmit_packet_data}
use ubass_rs.Packets.New.Signals.{
  track_request_packet_request_track, playback_control_packet_new, close_session_packet_new,
  track_rejection_packet_new, keep_alive_packet_new, handshake_rejection_new,
}
use ubass_rs.Packets.New.Acked.{RequiresAck, constructors_set_require_ack}

abbrev data_packet_five : DataPacket
data_packet_five = record {
  version = 1;
  opts = 0;
  packet_type = PacketType.data_type;
  batch_id = 7;
  fec_info = record { batch_size = 4; batch_pos = 2; recovery_count = 1 };
  session_id = 99;
  timestamp = 1000;
  byte_range_start = 1368;
  payload = 5 ∷ [];
}

data_packet_five_fits : IsPacket (Packet.data_packet data_packet_five)
data_packet_five_fits = (
  omega arith,
  (
    omega arith,
    (
      tt,
      (
        omega arith,
        (
          (omega arith, (omega arith, omega arith)),
          (omega arith, (omega arith, (omega arith, tt))),
        ),
      ),
    ),
  ),
)

packet_round_trip_example :
    (packet_to_wire true (Packet.data_packet data_packet_five)
      ≡ ok (packet_bytes (Packet.data_packet data_packet_five)))
    × (deserialize_like true
          (Packet.data_packet data_packet_five)
          (packet_bytes (Packet.data_packet data_packet_five))
        ≡ ok (Packet.data_packet data_packet_five))
packet_round_trip_example =
    packet_round_trip true (Packet.data_packet data_packet_five) data_packet_five_fits

abbrev three_bytes : Bytes
three_bytes = 1 ∷ 2 ∷ 3 ∷ []

abbrev three_zeros : Bytes
three_zeros = 0 ∷ 0 ∷ 0 ∷ []

track_transfer_example :
    (packets : List (ℕ × Bytes)) × (after : WriteableBuffer) × (send_all
        (sent_chunks three_bytes + 1)
        (readable three_bytes)
      ≡ ok packets)
    × (length packets ≡ sent_chunks three_bytes)
    × (receive true (from_bytes three_zeros) packets ≡ ok after)
    × (after.buffer ≡ three_bytes)
track_transfer_example = track_transfer true three_bytes three_zeros refl (omega arith)

transfer_complete_example :
    (after : WriteableBuffer) × (receive false
        (from_bytes three_zeros)
        (chunks_of three_bytes (0 ∷ 0 ∷ []))
      ≡ ok after)
    × (after.buffer ≡ three_bytes)
    × (is_done after ≡ not (length three_bytes % 1368 == 0))
transfer_complete_example =
    transfer_complete false three_bytes three_zeros (0 ∷ 0 ∷ []) refl (omega arith)
      (omega arith, (omega arith, tt)) (λ i h. inl (omega (arith, h)))

small : buffer_length (from_bytes three_zeros) + 1368 < 2 ^ 32
unfolding from_bytes
small = omega arith

write_total_example :
    (after : WriteableBuffer) × (result : WriteResult) × (write true
        (from_bytes three_zeros)
        0
        three_bytes
      ≡ ok (after, result))
    × WriteMeans (from_bytes three_zeros) 0 three_bytes after result
write_total_example =
    write_total true (from_bytes three_zeros) 0 three_bytes (from_bytes-IsWriteable three_zeros).0
      small

seek_head_lem_example :
    (head : ℕ) × (answer : Option Bool) × (seek_head true (from_bytes three_zeros) 2
      ≡ ok (record (from_bytes three_zeros) { head = head }, answer))
    × (answer ≡ (
        if ltb (buffer_length (from_bytes three_zeros)) 2
        then none
        else some (ltb (from_bytes three_zeros).head 2)))
    × ((from_bytes three_zeros).head ≤ head)
    × ((answer ≡ none) ⊎ (2 / 1368 ≤ head / 1368))
    × IsWriteable (record (from_bytes three_zeros) { head = head })
seek_head_lem_example =
    seek_head_lem true (from_bytes three_zeros) 2 (from_bytes-IsWriteable three_zeros).0 small

next-seek_example :
    next (seek (readable three_bytes) 2).0
    ≡ ok (
        if ltb (seek_chunk (readable three_bytes) 2 * 1368) (length three_bytes)
        then (
          at_chunk three_bytes (seek_chunk (readable three_bytes) 2 + 1),
          some (
            seek_chunk (readable three_bytes) 2 * 1368,
            chunk_at three_bytes (seek_chunk (readable three_bytes) 2),
          ),
        )
        else ((seek (readable three_bytes) 2).0, none))
next-seek_example = next-seek (readable three_bytes) 2 (omega arith)

occupy_areas-areas_from_example :
    occupy_areas 1 (areas_from none 0 (false ∷ false ∷ false ∷ []))
    ≡ areas_from none 0 (false ∷ true ∷ false ∷ [])
occupy_areas-areas_from_example = occupy_areas-areas_from 1 (false ∷ false ∷ false ∷ []) refl

flags_behave_as_set_example :
    (contains_flag (set_flag 1 OptionFlags.resend) OptionFlags.require_ack
      ≡ contains_flag 1 OptionFlags.require_ack)
    × (contains_flag (unset_flag 1 OptionFlags.resend) OptionFlags.require_ack
        ≡ contains_flag 1 OptionFlags.require_ack)
flags_behave_as_set_example = flags_behave_as_set 1 OptionFlags.resend OptionFlags.require_ack

version_parse-new_example :
    (version_parse (version_new 1 2 3) ≡ (1, 2, 3)) × (version_new 1 2 3 < 2 ^ 16)
version_parse-new_example = version_parse-new 1 2 3 (omega arith) (omega arith) (omega arith)

enum_variants-language_example :
    enum_variants ((true, some 1) ∷ (false, none) ∷ [])
    ≡ language_values 0 ((true, some 1) ∷ (false, none) ∷ [])
enum_variants-language_example = enum_variants-language true 1 ((false, none) ∷ []) tt

session_does_not_exist_unread_example :
    (error_type.serialize ErrorType.session_does_not_exist (0 ∷ []) ≡ ok (3 ∷ []))
    × ((error_type.deserialize (3 ∷ []) ≡ err)
        × (¬ (error_type.deserialize (2 ∷ []) ≡ ok ErrorType.session_does_not_exist)))
session_does_not_exist_unread_example = session_does_not_exist_unread [] (2 ∷ [])

abbrev two_data : List Bytes
two_data = replicate 1374 3 ∷ replicate 1374 5 ∷ []

abbrev second_packet : FecPacket
second_packet = record {
  is_parity = false;
  session_id = 99;
  batch_id = 7;
  fec_info = record { batch_size = 2; batch_pos = 1; recovery_count = 1 };
  fec_bytes = replicate 1374 5;
}

abbrev parity_packet_of_two : FecPacket
parity_packet_of_two = record {
  is_parity = true;
  session_id = 99;
  batch_id = 7;
  fec_info = record { batch_size = 2; batch_pos = 0; recovery_count = 1 };
  fec_bytes = parity_of two_data;
}

two_data-IsFull : IsFull two_data
two_data-IsFull = (length-replicate {A = ℕ} 1374 3, (length-replicate {A = ℕ} 1374 5, tt))

first_lost : ¬ HasData (parity_packet_of_two ∷ second_packet ∷ second_packet ∷ []) 0
first_lost (inl (is, e)) = cc is
first_lost (inr (inl (is, e))) = omega (arith, e)
first_lost (inr (inr (inl (is, e)))) = omega (arith, e)
first_lost (inr (inr (inr h))) = elim h [ ]

only_second : (j : ℕ) → j < 2 → j ≢ 0 → j ≡ 1
only_second zero h d = absurd (d refl)
only_second (suc zero) h d = refl
only_second (suc (suc j)) h d = absurd (omega (arith, h))

lost_packet_recovered_example :
    (after : InboundBatch) × (receive_packets
        (inbound_new 0 (length two_data))
        (parity_packet_of_two ∷ second_packet ∷ second_packet ∷ [])
      ≡ ok after)
    × (lacks_one true after ≡ ok true)
    × (inbound_recover true after ≡ ok (some (get_or two_data 0 [])))
lost_packet_recovered_example =
    lost_packet_recovered true 0 two_data 0
      (parity_packet_of_two ∷ second_packet ∷ second_packet ∷ []) two_data-IsFull (omega arith)
      (omega arith)
      (inl (refl, refl), (inr (refl, (omega arith, refl)), (inr (refl, (omega arith, refl)), tt)))
      first_lost (λ j h d. inr (inl (refl, only_second j h d))) (inl refl)

parity_sent_example :
    ((send_data (outbound_new 2) false two_data).0.product ≡ parity_of two_data)
    × ((send_data (outbound_new 2) false two_data).1 ≡ (2 == length two_data))
parity_sent_example = parity_sent 2 (replicate 1374 3) (replicate 1374 5 ∷ []) two_data-IsFull

fec_data-recovered_packet_example :
    (bytes : Bytes) × (fec_data false data_packet_five ≡ ok bytes)
    × (length bytes ≡ 1374)
    × (recovered_packet bytes ≡ ok (record { byte_range_start = 1368; payload = 0 ∷ [] }))
fec_data-recovered_packet_example =
    fec_data-recovered_packet false data_packet_five (omega arith) (omega arith)

five_data : (bytes : Bytes) × (fec_data true data_packet_five ≡ ok bytes)
five_data =
    let (bytes, eq, _, _) =
      fec_data-recovered_packet true data_packet_five (omega arith) (omega arith) in
    (bytes, eq)

abbrev twice_five : List Bytes
twice_five = five_data.0 ∷ five_data.0 ∷ []

abbrev five_arrives : FecPacket
five_arrives = record second_packet { fec_bytes = five_data.0 }

abbrev parity_of_five : FecPacket
parity_of_five = record parity_packet_of_two { fec_bytes = parity_of twice_five }

lost_five : ¬ HasData (five_arrives ∷ parity_of_five ∷ []) 0
lost_five (inl (is, e)) = omega (arith, e)
lost_five (inr (inl (is, e))) = cc is
lost_five (inr (inr h)) = elim h [ ]

lost_packet_restored_example :
    (after : InboundBatch) × (bytes : Bytes) × (receive_packets
        (inbound_new 0 (length twice_five))
        (five_arrives ∷ parity_of_five ∷ [])
      ≡ ok after)
    × (inbound_recover true after ≡ ok (some bytes))
    × (recovered_packet bytes ≡ ok (recovered_of true data_packet_five))
lost_packet_restored_example =
    lost_packet_restored true 0 (data_packet_five ∷ data_packet_five ∷ []) twice_five 0
      data_packet_five (five_arrives ∷ parity_of_five ∷ [])
      (omega arith, (omega arith, (five_data.1, (omega arith, (omega arith, (five_data.1, tt))))))
      (omega arith) refl (inr (refl, (omega arith, refl)), (inl (refl, refl), tt)) lost_five
      (λ j h d. inl (refl, only_second j h d)) (inr (inl refl))

coalesce_byte_positions-split_example :
    (out : List ByteRange) × (coalesce_byte_positions true (0 ∷ 1368 ∷ 4104 ∷ []) ≡ ok out)
    × (split_all true out ≡ ok (ranges_at (0 ∷ 1368 ∷ 4104 ∷ [])))
coalesce_byte_positions-split_example =
    coalesce_byte_positions-split true 0 (1368 ∷ 4104 ∷ []) (omega arith)
      (omega arith, (omega arith, (omega arith, (omega arith, tt))))

packet_bytes_bound_example :
    (bytes : Bytes) × (packet_to_wire true (Packet.data_packet data_packet_five) ≡ ok bytes)
    × (length bytes ≤ 1404)
packet_bytes_bound_example =
    packet_bytes_bound true (Packet.data_packet data_packet_five) data_packet_five_fits
      (omega arith)

no_options_valid : valid_flag 0 ≡ true
unfolding valid_flag
no_options_valid = refl

constructors_set_require_ack_example :
    ((p : RetransmitPacket) × (retransmit_packet_data true 5 0 99 [] ≡ ok p)
      × RequiresAck true p.opts)
    × (((p : TrackRequestPacket) × (track_request_packet_request_track true 5 0 99 three_bytes
            ≡ ok p)
          × RequiresAck true p.opts)
        × (((p : PlaybackControlPacket) × (playback_control_packet_new true 5 0 99
                  PlaybackControlType.pause none
                ≡ ok p)
              × RequiresAck true p.opts)
            × (((p : CloseSessionPacket) × (close_session_packet_new true 5 0 99 ≡ ok p)
                  × RequiresAck true p.opts)
                × (((p : TrackRejectionPacket) × (track_rejection_packet_new true 5 0 99 three_bytes
                        ≡ ok p)
                      × RequiresAck true p.opts)
                    × (((p : KeepAlivePacket) × (keep_alive_packet_new true 5 0 99 ≡ ok p)
                          × RequiresAck false p.opts)
                        × ((p : HandshakeRejection) × (handshake_rejection_new true 5 0 99
                                HandshakeRejectionReason.app 4
                              ≡ ok p)
                            × RequiresAck false p.opts))))))
constructors_set_require_ack_example =
    constructors_set_require_ack true 5 0 99 [] three_bytes PlaybackControlType.pause none
      HandshakeRejectionReason.app 4 no_options_valid (omega arith) (omega arith)

abbrev first_sent : FecPacket
first_sent = record second_packet { fec_bytes = replicate 1374 3 }

none_open : get {K = MapKey} {V = OutboundBatch} (7, 99) [] ≡ none
unfolding get
none_open = refl

batch_sent_example :
    (after : HashMap MapKey OutboundBatch) × (parity : ParityPacket) × (sent_all true 5 []
        (first_sent ∷ second_packet ∷ [])
      ≡ ok (after, only_at_end 1 parity))
    × (parity.payload ≡ parity_of (bytes_of (first_sent ∷ second_packet ∷ [])))
    × (◌≡◌ {A = MapKey} (parity.batch_id, parity.session_id) (7, 99))
    × (get (7, 99) after ≡ none)
batch_sent_example =
    batch_sent true 5 (7, 99) [] first_sent (second_packet ∷ []) none_open
      (
        (refl, (refl, length-replicate {A = ℕ} 1374 3)),
        ((refl, (refl, length-replicate {A = ℕ} 1374 5)), tt),
      )
      (omega arith)

-- A batch of three of which the second packet came.
abbrev one_of_three : InboundBatch
one_of_three = record {
  product = replicate 1374 5;
  parity = none;
  batch_size = 3;
  data_received = 1;
  batch_mask = false ∷ true ∷ replicate 254 false;
  created_at = 0;
  base_byte_pos = some 4104;
  is_contiguous = true;
}

missing_positions_run : missing_positions true one_of_three ≡ ok (4104 ∷ 6840 ∷ [])
unfolding missing_positions
missing_positions_run = refl

missing_positions_lem_example :
    (ps : List ℕ) × (missing_positions true one_of_three ≡ ok ps)
    × ((p : ℕ) → IsIn p ps ↔ IsMissing one_of_three.batch_mask 4104 0 3 p)
missing_positions_lem_example = missing_positions_lem true one_of_three 4104 refl refl (omega arith)
