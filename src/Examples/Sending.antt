-- ===== src/Examples/Sending.antt =====
-- Runs of the theorems on the sending of streams on small inputs.
use ubass_rs.Base.{
  ℕ, suc, ◌+◌, ◌*◌, ◌/◌, min, max, ◌≡◌, refl, arith, ltb, leb, ◌&&◌, ◌||◌, true, false, List, [],
  ◌∷◌, map, length, replicate, length-replicate, All, none, some,
}
use ubass_rs.Base.Outcome.{ok}
use ubass_rs.Base.Maps.{nat_eq, contains}
use ubass_rs.Wire.Codec.{Bytes}
use ubass_rs.Packets.Streams.{DataPacket}
use ubass_rs.Buffers.Transfer.{chunks_of}
use ubass_rs.Buffers.Transfer.Sender.{range_from}
use ubass_rs.State.Streams.{PlaybackControl, StreamEvent, StreamMessage}
use ubass_rs.State.Sending.{add_seek_hole_indices, send_data_packets, send_stream}
use ubass_rs.State.Sending.Extras.{IsSetFrom, add_seek_hole_indices_lem}
use ubass_rs.State.Sending.Batch.{places, send_data_packets_lem}
use ubass_rs.State.Sending.Tick.{sending, sent_now, send_stream-fresh}

-- A seek from 3000 back to 1000, when chunk 5 is to be sent already.
add_seek_hole_indices_lem_example :
    (contains {K = ℕ} 1 (add_seek_hole_indices (5 ∷ []) 3000 1000) ≡ (
      (leb (min 3000 1000 / 1368) 1 && ltb (1 * 1368) (max 3000 1000))
      || contains {K = ℕ} 1 (5 ∷ [])))
    × IsSetFrom 0 (add_seek_hole_indices (5 ∷ []) 3000 1000)
add_seek_hole_indices_lem_example = add_seek_hole_indices_lem (5 ∷ []) 3000 1000 1 (omega arith, tt)

abbrev two_chunks : List (ℕ × Bytes)
two_chunks = (0, 7 ∷ []) ∷ (1368, 8 ∷ 9 ∷ []) ∷ []

send_data_packets_lem_example :
    (packets : List DataPacket) × (send_data_packets true 50 7 1 two_chunks ≡ ok packets)
    × (map (λ p. (p.byte_range_start, p.payload)) packets ≡ two_chunks)
    × (map (λ p. p.fec_info) packets ≡ places 2 0 2)
    × All (λ p. (p.batch_id ≡ 1) × (p.session_id ≡ 7)) packets
send_data_packets_lem_example =
    send_data_packets_lem true 50 7 1 two_chunks (omega arith) (omega arith, (omega arith, tt))

abbrev long_track : Bytes
long_track = replicate 3000 0

abbrev goes_on : StreamMessage
goes_on = record {
  head = 1368;
  paused = false;
  closed = false;
  complete = none;
  approved = none;
  buffer_closed = false;
}

send_stream-fresh_example :
    (packets : List DataPacket) × (count : ℕ) × (sent_now 28 long_track 1 ≡ suc count)
    × (send_stream true 50 7 28
          (sending long_track 1 4 (StreamEvent.playback PlaybackControl.play) goes_on [])
          (9 ∷ [])
        ≡ ok (record {
          stream =
              sending long_track
                (1 + suc count)
                5
                (StreamEvent.playback PlaybackControl.play)
                (record goes_on { head = min (1368 + suc count * 1368) (length long_track) })
                [];
          extras = 9 ∷ [];
          packets = packets;
          last = some ((1 + count) * 1368);
        }))
    × (map (λ p. (p.byte_range_start, p.payload)) packets
        ≡ chunks_of long_track (range_from 1 (suc count)))
    × (map (λ p. p.fec_info) packets ≡ places (suc count) 0 (suc count))
    × All (λ p. (p.batch_id ≡ 5) × (p.session_id ≡ 7)) packets
send_stream-fresh_example =
    send_stream-fresh true 50 7 28 long_track 1 4 (StreamEvent.playback PlaybackControl.play)
      goes_on [] (9 ∷ []) (omega arith) (omega arith)
      (omega (arith, length-replicate {A = ℕ} 3000 0))
      (omega (arith, length-replicate {A = ℕ} 3000 0)) (omega arith) refl
