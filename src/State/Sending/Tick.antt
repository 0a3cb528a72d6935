-- ===== src/State/Sending/Tick.antt =====
-- What a tick of `send_on_session` sends while the buffer has chunks left.
use ubass_rs.Base.{
  ℕ, zero, suc, ◌+◌, ◌-◌, ◌*◌, ◌/◌, ◌%◌, ◌^◌, min, ◌≤◌, ◌<◌, ◌≡◌, refl, sym, ap, ◌∙◌, arith, ltb,
  lt→ltb, Bool, false, List, map, length, All, some, add_zero, Bool-cases, inl, inr, ltb→lt, ltb→ge,
}
use ubass_rs.Base.Outcome.{ok}
use ubass_rs.Wire.Codec.{Bytes}
use ubass_rs.Packets.Streams.{DataPacket}
use ubass_rs.Packets.New.Acked.{debug_assert-true}
use ubass_rs.Buffers.Transfer.{chunks_of}
use ubass_rs.Buffers.Transfer.Chunks.{length-chunk_at}
use ubass_rs.Buffers.Transfer.Sender.{range_from, at_chunk, next_chunk, next_end, length_chunks}
use ubass_rs.State.Batches.{SessionFecState}
use ubass_rs.State.Streams.{
  StreamMessage, StreamEvent, Streaming, StreamState, take_chunks, is_halted, get_chunks,
  get_chunks_of, next_batch_id,
}
use ubass_rs.State.Sending.{last_position, send_batch, send_chunks, send_stream}
use ubass_rs.State.Sending.Batch.{places, send_data_packets_lem}

-- How many chunks are sent: at most `n` of those from chunk `i` on.
abbrev pub sent_now : ℕ → Bytes → ℕ → ℕ
sent_now n src i = min n ((length src + 1367) / 1368 - i)

take_chunks_lem :
    (src : Bytes) (n i : ℕ)
    → length src < 2 ^ 32
    → take_chunks n (at_chunk src i)
      ≡ ok (at_chunk src (i + sent_now n src i), chunks_of src (range_from i (sent_now n src i)))
unfolding take_chunks
take_chunks_lem src zero i small = rw (nothing, add_zero i) refl
  where
    nothing : sent_now 0 src i ≡ 0
    nothing = omega arith
take_chunks_lem src (suc n) i small = elim (Bool-cases (ltb (i * 1368) (length src))) [
  | inl more ↦
      rw
        (
          take_chunks,
          next_chunk src i (ltb→lt (i * 1368) (length src) more) small,
          take_chunks_lem src n (i + 1) small,
          one_more (ltb→lt (i * 1368) (length src) more),
          shift,
        )
        refl
  | inr over ↦
      rw
        (
          take_chunks,
          next_end src i (ltb→ge (i * 1368) (length src) over),
          nothing (ltb→ge (i * 1368) (length src) over),
          add_zero i,
        )
        refl
]
  where
    one_more : i * 1368 < length src → sent_now (suc n) src i ≡ suc (sent_now n src (i + 1))
    one_more h = omega (arith, h)

    shift : i + suc (sent_now n src (i + 1)) ≡ i + 1 + sent_now n src (i + 1)
    shift = omega arith

    nothing : length src ≤ i * 1368 → sent_now (suc n) src i ≡ 0
    nothing h = omega (arith, h)

chunks_fit : (src : Bytes) (i n : ℕ) → All (λ c. length c.1 ≤ 1368) (chunks_of src (range_from i n))
chunks_fit src i zero = tt
chunks_fit src i (suc n) = (omega (arith, length-chunk_at src i), chunks_fit src (i + 1) n)

last_chunk :
    (src : Bytes) (i n : ℕ)
    → last_position (chunks_of src (range_from i (suc n))) ≡ some ((i + n) * 1368)
unfolding last_position
last_chunk src i zero = ap (λ k. some (k * 1368)) (sym (add_zero i))
last_chunk src i (suc n) = last_chunk src (i + 1) n ∙ ap (λ k. some (k * 1368)) (omega arith)

-- A stream that is sent from chunk `i` of the track on, whose last batch had this number.
abbrev pub sending : Bytes → ℕ → ℕ → StreamEvent → StreamMessage → SessionFecState → StreamState
sending src i batch event m fec = record {
  streaming =
      Streaming.to (record { buffer = at_chunk src i; current_batch = batch; event = event });
  stream = m;
  fec = fec;
}

send_batch_lem :
    (debug : Bool) (now session : ℕ) (src : Bytes) (i count batch : ℕ) (event : StreamEvent)
    (m : StreamMessage) (fec : SessionFecState) (extras : List ℕ) (j : ℕ)
    → batch + 1 < 2 ^ 16
    → suc count < 256
    → (packets : List DataPacket) × (send_batch debug now session
          (sending src j batch event m fec).streaming
          (sending src j batch event m fec)
          extras
          (chunks_of src (range_from i (suc count)))
        ≡ ok (record {
          stream = sending src j (batch + 1) event m fec;
          extras = extras;
          packets = packets;
          last = some ((i + count) * 1368);
        }))
      × (map (λ p. (p.byte_range_start, p.payload)) packets
          ≡ chunks_of src (range_from i (suc count)))
      × (map (λ p. p.fec_info) packets ≡ places (suc count) 0 (suc count))
      × All (λ p. (p.batch_id ≡ batch + 1) × (p.session_id ≡ session)) packets
unfolding send_batch next_batch_id
send_batch_lem debug now session src i count batch event m fec extras j small few =
    let chunks = chunks_of src (range_from i (suc count)) in
    let size = length_chunks src i (suc count) in
    let (packets, eq, same, numbered, of) =
      send_data_packets_lem debug now session (batch + 1) chunks (omega (arith, size, few))
        (chunks_fit src i (suc count)) in
    (
      packets,
      rw
          (
            send_batch,
            next_batch_id,
            no_wrap small,
            lt→ltb 0 (batch + 1) (omega arith),
            debug_assert-true debug,
            eq,
            last_chunk src i count,
          )
          refl,
      same,
      numbered ∙ ap (λ k. places k 0 k) size,
      of,
    )
  where
    no_wrap : batch + 1 < 65536 → (batch + 1) % 65536 ≡ batch + 1
    no_wrap h = omega (arith, h)

get_chunks_lem :
    (n : ℕ) (src : Bytes) (i batch count : ℕ) (event : StreamEvent) (m : StreamMessage)
    (fec : SessionFecState)
    → length src < 2 ^ 32
    → is_halted m ≡ false
    → sent_now n src i ≡ suc count
    → get_chunks n (sending src i batch event m fec)
      ≡ ok (
        sending src
            (i + suc count)
            batch
            event
            (record m { head = min (m.head + suc count * 1368) (length src) })
            fec,
        some (chunks_of src (range_from i (suc count))),
      )
unfolding get_chunks get_chunks_of
get_chunks_lem n src i batch count event m fec small goes size =
    rw
      (
        get_chunks,
        get_chunks_of,
        goes,
        take_chunks_lem src n i small,
        size,
        length_chunks src (i + 1) count,
      )
      refl

-- A tick with room for `n` packets, 0 < n < 256, on a stream that is neither paused nor closed, that has sent fewer
-- than 65535 batches and that is at chunk `i` of a track of less than 2³² bytes, which begins in front of
-- its end: it does not panic; it sends the next `n` chunks, or all that are left, in order, as one batch
-- with the next number, numbered by their places and with their number as the size; the position of
-- the last of them is what it returns; the stream stands behind them, and the extras are left alone.
pub send_stream-fresh :
    (debug : Bool) (now session n : ℕ) (src : Bytes) (i batch : ℕ) (event : StreamEvent)
    (m : StreamMessage) (fec : SessionFecState) (extras : List ℕ)
    → 0 < n
    → n < 256
    → length src < 2 ^ 32
    → i * 1368 < length src
    → batch + 1 < 2 ^ 16
    → is_halted m ≡ false
    → (packets : List DataPacket) × (count : ℕ) × (sent_now n src i ≡ suc count)
      × (send_stream debug now session n (sending src i batch event m fec) extras
          ≡ ok (record {
            stream =
                sending src
                  (i + suc count)
                  (batch + 1)
                  event
                  (record m { head = min (m.head + suc count * 1368) (length src) })
                  fec;
            extras = extras;
            packets = packets;
            last = some ((i + count) * 1368);
          }))
      × (map (λ p. (p.byte_range_start, p.payload)) packets
          ≡ chunks_of src (range_from i (suc count)))
      × (map (λ p. p.fec_info) packets ≡ places (suc count) 0 (suc count))
      × All (λ p. (p.batch_id ≡ batch + 1) × (p.session_id ≡ session)) packets
unfolding send_stream send_chunks
send_stream-fresh debug now session n src i batch event m fec extras some_room few small inside
      fresh goes =
    let count = sent_now n src i - 1 in
    let size : sent_now n src i ≡ suc count = omega (arith, some_room, inside) in
    let (packets, eq, same, numbered, of) =
      send_batch_lem debug now session src i count batch event
        (record m { head = min (m.head + suc count * 1368) (length src) }) fec extras
        (i + suc count) fresh (omega (arith, size, few)) in
    (
      packets,
      count,
      size,
      rw (send_stream, get_chunks_lem n src i batch count event m fec small goes size) eq,
      same,
      numbered,
      of,
    )
