-- ===== src/Examples/Manager.antt =====
-- Runs of the theorems on the state of the manager on small inputs.
use ubass_rs.Base.{
  ℕ, ◌+◌, ◌/◌, ◌≤◌, ◌<◌, ◌≡◌, ◌≢◌, refl, arith, ◌||◌, not, Bool, true, false, List, [], ◌∷◌, length,
  length-replicate, replicate, All, Option, none, some, if◌then◌else◌,
}
use ubass_rs.Base.Outcome.{ok}
use ubass_rs.Base.Maps.{HashMap, list_eq, nat_eq, get, contains}
use ubass_rs.Wire.Codec.{Bytes, serialize_at, copy_front, to_be_bytes}
use ubass_rs.Wire.Derive.{derive_headers, ignore_err}
use ubass_rs.Packets.Scalars.{ByteRange}
use ubass_rs.Packets.Kinds.{PacketType}
use ubass_rs.Packets.Streams.{DataPacket, RetransmitPacket}
use ubass_rs.Packets.New.Acked.{RequiresAck}
use ubass_rs.Packets.Packet.{Packet, session_id}
use ubass_rs.Buffers.Writeable.{buffer_length, from_bytes}
use ubass_rs.Buffers.Writeable.Head.{IsWriteable, IsAddressable}
use ubass_rs.Buffers.Writeable.Writes.{from_bytes-IsWriteable}
use ubass_rs.Retransmit.{split_all}
use ubass_rs.Retransmit.Ranges.{ranges_at}
use ubass_rs.State.Requests.{StreamingFrom, reserve_for_request, finalize_sweep_pick}
use ubass_rs.State.Dispatch.{
  dispatch_retransmit_request, carried, dispatch_retransmit_request-carried,
}
use ubass_rs.State.Streams.{Streaming, StreamMessage, SessionStates, EstablishedState}
use ubass_rs.Fec.{RecoverdPacket}
use ubass_rs.Clock.{is_recent, ArePast}
use ubass_rs.State.FecPrune.{ask_again}
use ubass_rs.State.FecPrune.Round.{ask_again_lem}
use ubass_rs.Base.Maps.{pair_eq}
use ubass_rs.State.Requests.Positions.{missing_chunks}
use ubass_rs.State.Requests.Sweep.{is_expected, finalize_sweep_pick-missing_chunks}
use ubass_rs.State.Requests.Reserve.{IsUnfilled, AreApart, IsStreaming, reserved_once}
use ubass_rs.State.Fingerprints.{
  FingerprintWindow, contains_fingerprint, add, add_insert, prune_round,
}
use ubass_rs.State.Fingerprints.Counts.{same, count_queue}
use ubass_rs.State.Fingerprints.Interleaved.{
  start, Step, Run, AreSpaced, IsCounted, acceptances_spaced,
}
use ubass_rs.State.Fingerprints.Pruned.{IsTidy, is_young, prune_round-is_young, add-IsTidy}
use ubass_rs.State.Acks.{PendingAckWindow, entry_new, Round, prune_rounds, fingerprint_try_from}
use ubass_rs.State.Acks.Loops.{sends_left, HasEntry}
use ubass_rs.State.Acks.Bounded.{IsWaiting, prune_rounds-sends_left}
use ubass_rs.State.Acks.Ends.{six_rounds_end}
use ubass_rs.State.Requests.Wanted.{wanted, open_positions}

-- A stream of three chunks of which the second was asked for at 7.
abbrev three_chunks : StreamingFrom
three_chunks = record { buffer = from_bytes (replicate 3000 0); pending = (1, 7) ∷ [] }

three_chunks-IsWriteable : IsWriteable three_chunks.buffer
three_chunks-IsWriteable = (from_bytes-IsWriteable (replicate 3000 0)).0

three_chunks-IsStreaming : IsStreaming 100 three_chunks
three_chunks-IsStreaming = record {
  chunks = three_chunks-IsWriteable.chunks;
  past = (omega arith, tt);
}

three_chunks-IsAddressable : IsAddressable three_chunks.buffer
unfolding from_bytes
three_chunks-IsAddressable = omega (arith, length-replicate {A = ℕ} 3000 0)

finalize_sweep_pick-missing_chunks_example :
    (after : HashMap ℕ ℕ) × (ranges : List ByteRange) × (finalize_sweep_pick true 100 []
        three_chunks
      ≡ ok (record three_chunks { pending = after }, ranges))
    × (split_all true ranges
        ≡ ok (
            ranges_at
              (missing_chunks (is_expected 100 [] three_chunks.pending) 0 three_chunks.buffer.map)))
    × All
        (λ p. get (p / 1368) after ≡ some 100)
        (missing_chunks (is_expected 100 [] three_chunks.pending) 0 three_chunks.buffer.map)
finalize_sweep_pick-missing_chunks_example =
    finalize_sweep_pick-missing_chunks true 100 [] three_chunks three_chunks-IsWriteable
      three_chunks-IsAddressable (omega arith, tt)

reserved_once_example :
    (first : StreamingFrom) × (second : StreamingFrom) × (asked : List ℕ) × (again : List ℕ)
    × (reserve_for_request true 100 three_chunks (0 ∷ 1368 ∷ 2736 ∷ 0 ∷ []) ≡ ok (first, asked))
    × (reserve_for_request true 400 (record first { buffer = three_chunks.buffer }) (0 ∷ 1368 ∷ [])
        ≡ ok (second, again))
    × All (IsUnfilled three_chunks.buffer) asked
    × All (IsUnfilled three_chunks.buffer) again
    × AreApart asked
    × AreApart again
    × All (λ p. All (λ q. p / 1368 ≢ q / 1368) again) asked
reserved_once_example =
    reserved_once true 100 400 three_chunks three_chunks.buffer (0 ∷ 1368 ∷ 2736 ∷ 0 ∷ [])
      (0 ∷ 1368 ∷ []) three_chunks-IsStreaming three_chunks-IsWriteable.chunks (omega arith)
      (omega arith)

abbrev print_one : Bytes
print_one = 1 ∷ []

accepted_once : Run true ((0, print_one) ∷ []) (record start {
  window = record { fingerprints = print_one ∷ []; queue = [] };
  adding = print_one ∷ [];
})
unfolding add_insert contains
accepted_once =
    Run.go (print_one ∷ []) Run.begin
      (Step.insert_new print_one (record { fingerprints = print_one ∷ []; queue = [] }) refl)

acceptances_spaced_example :
    AreSpaced ((0, print_one) ∷ [])
    × IsCounted (record start {
      window = record { fingerprints = print_one ∷ []; queue = [] };
      adding = print_one ∷ [];
    })
acceptances_spaced_example = acceptances_spaced accepted_once

abbrev one_known : FingerprintWindow
one_known = record { fingerprints = print_one ∷ []; queue = (7, print_one) ∷ [] }

counted_one : (b : Bool) → (if b then 1 else 0) + 0 ≡ (if b || false then 1 else 0)
counted_one true = omega arith
counted_one false = omega arith

one_known-IsTidy : IsTidy 600 one_known
unfolding count_queue contains
one_known-IsTidy = record {
  counted = λ f. counted_one (same f print_one);
  past = (omega arith, tt);
  ordered = (tt, tt);
}

prune_round-is_young_example :
    (after : FingerprintWindow) × (prune_round true 600 one_known ≡ ok after)
    × ((f : Bytes) → contains_fingerprint after f ≡ is_young 600 f one_known.queue)
    × IsTidy 600 after
prune_round-is_young_example = prune_round-is_young true 600 one_known one_known-IsTidy

add-IsTidy_example :
    ((add 600 one_known (2 ∷ [])).1 ≡ not (contains_fingerprint one_known (2 ∷ [])))
    × ((g : Bytes)
        → contains_fingerprint (add 600 one_known (2 ∷ [])).0 g
          ≡ (same g (2 ∷ []) || contains_fingerprint one_known g))
    × IsTidy 600 (add 600 one_known (2 ∷ [])).0
add-IsTidy_example = add-IsTidy 600 one_known (2 ∷ []) one_known-IsTidy

abbrev waiting_packet : Packet
waiting_packet = Packet.data_packet (record {
  version = 1;
  opts = 0;
  packet_type = PacketType.data_type;
  batch_id = 7;
  fec_info = record { batch_size = 4; batch_pos = 2; recovery_count = 1 };
  session_id = 99;
  timestamp = 1000;
  byte_range_start = 1368;
  payload = 5 ∷ [];
})

abbrev one_waits : PendingAckWindow
one_waits = record {
  pending = (print_one, waiting_packet) ∷ [];
  queue = entry_new 10 print_one ∷ [];
  canceled = false;
}

one_waits-IsWaiting : IsWaiting true 10 one_waits
unfolding session_id
one_waits-IsWaiting = record {
  sessions = ((99, refl), tt);
  live = ((omega arith, omega arith), tt);
}

abbrev everywhere : ℕ → Option ℕ
everywhere session = some session

abbrev six_times : List ℕ
six_times = 600 ∷ 1200 ∷ 1800 ∷ 2400 ∷ 3000 ∷ 3600 ∷ []

six_rounds_end_example :
    (r : Round ℕ) × (prune_rounds everywhere true six_times one_waits ≡ ok r)
    × (r.window.queue ≡ [])
    × ((f : Bytes) → HasEntry f one_waits.queue → get f r.window.pending ≡ none)
six_rounds_end_example =
    six_rounds_end everywhere true 10 six_times one_waits (λ session. (session, refl)) refl
      one_waits-IsWaiting
      (omega arith, (omega arith, (omega arith, (omega arith, (omega arith, (omega arith, tt))))))
      (omega arith)

prune_rounds-sends_left_example :
    (r : Round ℕ) × (prune_rounds everywhere true (20 ∷ 600 ∷ []) one_waits ≡ ok r)
    × (length r.sent + sends_left r.window.queue ≤ sends_left one_waits.queue)
prune_rounds-sends_left_example =
    prune_rounds-sends_left everywhere true 10 (20 ∷ 600 ∷ []) one_waits one_waits-IsWaiting
      (omega arith, (omega arith, tt))

-- A hash that keeps what it is given.
abbrev whole : Bytes → Bytes
whole b = b

abbrev print_of_waiting : Bytes
print_of_waiting =
    0 ∷ 1 ∷ 0 ∷ 0 ∷ 1 ∷ 0 ∷ 7 ∷ 4 ∷ 2 ∷ 1 ∷ 0 ∷ 0 ∷ 0 ∷ 0 ∷ 0 ∷ 0 ∷ 0 ∷ 99 ∷ 0 ∷ 0 ∷ 0 ∷ 0 ∷ 0 ∷ 0
    ∷ 3 ∷ 232 ∷ 0 ∷ 0 ∷ 5 ∷ 88 ∷ []

fingerprint_run : fingerprint_try_from whole true waiting_packet ≡ ok print_of_waiting
unfolding fingerprint_try_from derive_headers ignore_err serialize_at copy_front to_be_bytes
fingerprint_run = refl

dispatch_retransmit_request-carried_example :
    (packets : List RetransmitPacket) × (dispatch_retransmit_request true 5 99
        (record { start = 0; length = 1368 } ∷ [])
      ≡ ok packets)
    × (carried packets ≡ record { start = 0; length = 1368 } ∷ [])
    × All
        (λ p.
          (p.session_id ≡ 99)
          × ((0 < length p.payload) × ((length p.payload ≤ 228) × RequiresAck true p.opts)))
        packets
dispatch_retransmit_request-carried_example =
    dispatch_retransmit_request-carried true 5 99 (record { start = 0; length = 1368 } ∷ [])

-- The second chunk comes, alone in its batch, to the stream of three chunks.
abbrev shown : StreamMessage
shown = record {
  head = 0;
  paused = false;
  closed = false;
  complete = none;
  approved = none;
  buffer_closed = false;
}

abbrev listener : EstablishedState ℕ
listener = record {
  session_id = 99;
  state =
      SessionStates.streaming_state
        (record { streaming = Streaming.from three_chunks; stream = shown; fec = [] });
  address = 4;
  app_id = [];
}

abbrev second_chunk : DataPacket
second_chunk = record {
  version = 0;
  opts = 0;
  packet_type = PacketType.data_type;
  fec_info = record { batch_size = 2; recovery_count = 1; batch_pos = 1 };
  batch_id = 1;
  session_id = 99;
  timestamp = 100;
  byte_range_start = 1368;
  payload = replicate 1368 7;
}

-- The first chunk is recovered from batch 1.
abbrev one_recovered : List RecoverdPacket
one_recovered = record { byte_range_start = 0; payload = replicate 1368 7 } ∷ []

ask_again_lem_example :
    (after : HashMap ℕ ℕ) × (packets : List RetransmitPacket) × (ask_again true 100 99
        (0 ∷ 1368 ∷ 2736 ∷ [])
        three_chunks
      ≡ ok (record three_chunks { pending = after }, packets))
    × (split_all true (carried packets)
        ≡ ok (ranges_at (wanted 100 three_chunks (0 ∷ 1368 ∷ 2736 ∷ []))))
    × All (λ p. get (p / 1368) after ≡ some 100) (wanted 100 three_chunks (0 ∷ 1368 ∷ 2736 ∷ []))
    × ArePast (λ ts. ts) 100 after
    × All (λ p. (p.session_id ≡ 99) × RequiresAck true p.opts) packets
ask_again_lem_example =
    ask_again_lem true 100 99 (0 ∷ 1368 ∷ 2736 ∷ []) three_chunks three_chunks-IsStreaming
      three_chunks-IsAddressable ((omega arith, (omega arith, tt)), ((omega arith, tt), (tt, tt)))

-- The second was asked for at 7, so the first and the last are wanted.
wanted_run : wanted 100 three_chunks (0 ∷ 1368 ∷ 2736 ∷ []) ≡ 0 ∷ 2736 ∷ []
unfolding open_positions is_recent from_bytes buffer_length
wanted_run = refl
