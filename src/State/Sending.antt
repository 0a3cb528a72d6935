-- ===== src/State/Sending.antt =====
-- How a stream is sent: `send_on_session`, its events and its ticks, of src/manager/state.rs. What is sent
-- is a list; a step of the loop is a function of the tables, of what the loop keeps and of the time.
pub mod Extras
pub mod Batch
pub mod Tick
use ubass_rs.Base.{
  ℕ, zero, suc, ◌+◌, ◌-◌, ◌*◌, ◌/◌, ◌%◌, ◌^◌, min, ltb, leb, ◌==◌, not, ◌&&◌, Bool, true, false,
  List, [], ◌∷◌, ◌++◌, take, drop, map, length, Option, none, some, if◌then◌else◌,
}
use ubass_rs.Base.Outcome.{Outcome, ok, panic, ◌>>=◌}
use ubass_rs.Base.Maps.{Eq, HashMap, nat_eq, get, insert}
use ubass_rs.Wire.Codec.{Bytes}
use ubass_rs.Packets.Flags.{no_options}
use ubass_rs.Packets.Scalars.{ByteRange, FecInfo, max_payload_length}
use ubass_rs.Packets.Streams.{DataPacket}
use ubass_rs.Packets.New.Carriers.{data_packet_new}
use ubass_rs.Buffers.Readable.{ReadableBuffer, seek}
use ubass_rs.Retransmit.{chunk_ranges, split_all}
use ubass_rs.State.Streams.{
  PlaybackControl, StreamEvent, Streaming, StreamingTo, StreamState, SessionStates, streaming_state,
  EstablishedState, ConnectionStates, established, address, next_batch_id, get_chunks, retransmit,
}
use ubass_rs.State.Sessions.{ProtocolState, close_stream_of}

-- `BTreeSet<usize>`: its elements in increasing order.
unfoldable pub btree_insert : ℕ → List ℕ → List ℕ
btree_insert x [] = x ∷ []
btree_insert x (y ∷ set) =
    let rest = btree_insert x set in
    if ltb x y then x ∷ y ∷ set else if x == y then y ∷ set else y ∷ rest

-- `start_chunk..end_chunk`, inserted one after the other.
unfoldable pub insert_range : ℕ → ℕ → List ℕ → List ℕ
unfolding btree_insert
insert_range start zero set = set
insert_range start (suc n) set = insert_range (start + 1) n (btree_insert start set)

abbrev pub div_ceil : ℕ → ℕ → ℕ
div_ceil a b = (a + (b - 1)) / b

-- `add_seek_hole_indices`
unfoldable pub add_seek_hole_indices : List ℕ → ℕ → ℕ → List ℕ
unfolding insert_range
add_seek_hole_indices extras last_sent to =
    let forward = ltb last_sent to in
    let lo = if forward then last_sent else to in
    let hi = if forward then to else last_sent in
    insert_range (lo / max_payload_length)
      (div_ceil hi max_payload_length - lo / max_payload_length) extras

-- `RECOVERY_COUNT` of builds that correct errors by XOR.
abbrev pub xor_recovery_count : ℕ
xor_recovery_count = 0

-- The loop of `send_data_packets` from chunk `i` of `len` on.
unfoldable pub data_packets :
    Bool → ℕ → ℕ → ℕ → ℕ → ℕ → List (ℕ × Bytes) → Outcome (List DataPacket)
data_packets debug now session batch len i [] = ok []
data_packets debug now session batch len i ((position, payload) ∷ chunks) = do
  packet ←
      data_packet_new debug now no_options batch
        (record {
          batch_size = len;
          batch_pos = i % 2 ^ 8;
          recovery_count = min xor_recovery_count len;
        })
        session position payload
  packets ← data_packets debug now session batch len (i + 1) chunks
  ok (packet ∷ packets)

-- `send_data_packets`
unfoldable pub send_data_packets : Bool → ℕ → ℕ → ℕ → List (ℕ × Bytes) → Outcome (List DataPacket)
unfolding data_packets
send_data_packets debug now session batch chunks =
    data_packets debug now session batch (length chunks % 2 ^ 8) 0 chunks

-- What a tick leaves: the stream, the extras, the packets, and the position that was sent last.
pub record Ticked : Type 0 where
  pub stream : StreamState
  pub extras : List ℕ
  pub packets : List DataPacket
  pub last : Option ℕ

-- `chunks.last()?.0`
unfoldable pub last_position : List (ℕ × Bytes) → Option ℕ
last_position [] = none
last_position (x ∷ []) = some x.0
last_position (x ∷ y ∷ chunks) = last_position (y ∷ chunks)

-- `extras` at most `n` at a time, as ranges of one chunk each.
abbrev pub extra_positions : ℕ → List ℕ → List ℕ
extra_positions n extras = map (λ i. i * max_payload_length % 2 ^ 32) (take n extras)

-- The chunks of the tick are sent as one batch, if there are any.
unfoldable pub send_batch :
    Bool → ℕ → ℕ → Streaming → StreamState → List ℕ → List (ℕ × Bytes) → Outcome Ticked
unfolding next_batch_id send_data_packets last_position
send_batch debug now session direction s extras [] =
    ok (record { stream = s; extras = extras; packets = []; last = none })
send_batch debug now session (Streaming.from sf) s extras (x ∷ chunks) =
    ok (record { stream = s; extras = extras; packets = []; last = none })
send_batch debug now session (Streaming.to st) s extras (x ∷ chunks) = do
  batch ← next_batch_id debug st
  packets ← send_data_packets debug now session batch.1 (x ∷ chunks)
  ok (record {
    stream = record s { streaming = Streaming.to batch.0 };
    extras = extras;
    packets = packets;
    last = last_position (x ∷ chunks);
  })

-- The extras are sent only when no chunk is left in front of the head.
unfoldable pub send_chunks :
    Bool → ℕ → ℕ → ℕ → StreamState → List ℕ → List (ℕ × Bytes) → Outcome Ticked
unfolding retransmit chunk_ranges send_batch
send_chunks debug now session n s extras (x ∷ chunks) =
    send_batch debug now session s.streaming s extras (x ∷ chunks)
send_chunks debug now session n s [] [] =
    ok (record { stream = s; extras = []; packets = []; last = none })
send_chunks debug now session n s (i ∷ extras) [] = do
  ranges ← chunk_ranges debug (extra_positions n (i ∷ extras))
  elim (retransmit s ranges) [
    | none ↦ ok (record { stream = s; extras = drop n (i ∷ extras); packets = []; last = none })
    | some chunks ↦ send_batch debug now session s.streaming s (drop n (i ∷ extras)) chunks
  ]

-- `send_stream_action` on the stream of the session.
unfoldable pub send_stream : Bool → ℕ → ℕ → ℕ → StreamState → List ℕ → Outcome Ticked
unfolding get_chunks send_chunks
send_stream debug now session n s extras = do
  got ← get_chunks n s
  elim got.1 [
    | none ↦ ok (record { stream = got.0; extras = extras; packets = []; last = none })
    | some chunks ↦ send_chunks debug now session n got.0 extras chunks
  ]

-- The same on the state and the connection of the session, which do nothing unless a stream is sent.
unfoldable pub send_in_state :
    Bool
    → ℕ
    → ℕ
    → ℕ
    → SessionStates
    → List ℕ
    → Outcome (SessionStates × List ℕ × List DataPacket × Option ℕ)
unfolding send_stream
send_in_state debug now session n SessionStates.up extras = ok (SessionStates.up, extras, [], none)
send_in_state debug now session n SessionStates.down extras =
    ok (SessionStates.down, extras, [], none)
send_in_state debug now session n (streaming_state s) extras = do
  ticked ← send_stream debug now session n s extras
  ok (streaming_state ticked.stream, ticked.extras, ticked.packets, ticked.last)

unfoldable pub send_on_connection :
    {Addr : Type 0}
    → Bool
    → ℕ
    → ℕ
    → ℕ
    → ConnectionStates Addr
    → List ℕ
    → Outcome (ConnectionStates Addr × List ℕ × List DataPacket × Option ℕ)
unfolding send_in_state
send_on_connection debug now session n (ConnectionStates.handshake s app_id a) extras =
    ok (ConnectionStates.handshake s app_id a, extras, [], none)
send_on_connection debug now session n (established c) extras = do
  ticked ← send_in_state debug now session n c.state extras
  ok (established (record c { state = ticked.0 }), ticked.1, ticked.2, ticked.3)

-- What the loop of `send_on_session` keeps.
pub record SendLoop : Type 0 where
  pub playing : Bool
  pub extras : List ℕ
  pub last_sent : ℕ

-- The chunk indices of the ranges, inserted.
unfoldable pub insert_chunks : List ByteRange → List ℕ → List ℕ
unfolding btree_insert
insert_chunks [] extras = extras
insert_chunks (r ∷ ranges) extras =
    insert_chunks ranges (btree_insert (r.start / max_payload_length) extras)

-- `buffer.seek(pos)`, of a stream that is sent.
unfoldable pub seek_state : ℕ → SessionStates → SessionStates
unfolding seek
seek_state pos SessionStates.up = SessionStates.up
seek_state pos SessionStates.down = SessionStates.down
seek_state pos (streaming_state s) = elim s.streaming [
  | Streaming.from sf ↦ streaming_state s
  | Streaming.to st ↦
      streaming_state
        (record s { streaming = Streaming.to (record st { buffer = (seek st.buffer pos).0 }) })
]

unfoldable pub seek_connection : {Addr : Type 0} → ℕ → ConnectionStates Addr → ConnectionStates Addr
unfolding seek_state
seek_connection pos (ConnectionStates.handshake s app_id a) = ConnectionStates.handshake s app_id a
seek_connection pos (established c) = established (record c { state = seek_state pos c.state })

module _ {Addr Secret Key : Type 0} ⦃e : Eq Addr⦄ where
  -- `seek_action`
  unfoldable pub seek_action : ProtocolState Addr Secret Key → ℕ → ℕ → ProtocolState Addr Secret Key
  unfolding get insert seek_connection
  seek_action st session pos = elim (get session st.connections) [
    | none ↦ st
    | some c ↦ record st { connections = insert session (seek_connection pos c) st.connections }
  ]

  -- `send_stream_action`: the tables, the extras, what is sent, and the position that was sent last.
  unfoldable pub send_stream_action :
      Bool
      → ℕ
      → ProtocolState Addr Secret Key
      → ℕ
      → ℕ
      → List ℕ
      → Outcome (ProtocolState Addr Secret Key × List ℕ × List (DataPacket × Addr) × Option ℕ)
  unfolding get insert send_on_connection
  send_stream_action debug now st session n extras = elim (get session st.connections) [
    | none ↦ ok (st, extras, [], none)
    | some c ↦ do
      ticked ← send_on_connection debug now session n c extras
      ok (
        record st { connections = insert session ticked.0 st.connections },
        ticked.1,
        map (λ p. (p, address c)) ticked.2,
        ticked.3,
      )
  ]

  -- `handle_stream_event`
  unfoldable pub handle_stream_event :
      Bool
      → ProtocolState Addr Secret Key
      → StreamEvent
      → ℕ
      → SendLoop
      → Outcome (ProtocolState Addr Secret Key × SendLoop)
  unfolding seek_action add_seek_hole_indices close_stream_of split_all insert_chunks
  handle_stream_event debug st (StreamEvent.playback PlaybackControl.pause) session l =
      ok (st, record l { playing = false })
  handle_stream_event debug st (StreamEvent.playback PlaybackControl.play) session l =
      ok (st, record l { playing = true })
  handle_stream_event debug st (StreamEvent.playback (PlaybackControl.seek to)) session l = ok (
    seek_action st session to,
    record l { extras = add_seek_hole_indices l.extras l.last_sent to },
  )
  handle_stream_event debug st (StreamEvent.playback PlaybackControl.done) session l =
      ok ((close_stream_of st session).0, l)
  handle_stream_event debug st (StreamEvent.playback PlaybackControl.close) session l =
      ok ((close_stream_of st session).0, l)
  handle_stream_event debug st (StreamEvent.retransmit_event ranges) session l = do
    chunks ← split_all debug ranges
    ok (st, record l { extras = insert_chunks chunks l.extras })
