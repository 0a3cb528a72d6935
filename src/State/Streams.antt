-- ===== src/State/Streams.antt =====
-- `ConnectionStates` of src/manager/state.rs and what it holds: the streams of a session. Channels to
-- the application are not modelled, but for the message that a stream shows. `Addr` is `SocketAddr`.
pub mod Received
pub mod Recovered
pub mod Kept
pub mod Accepted
pub mod Total
pub mod Restored
use ubass_rs.Base.{
  ℕ, zero, suc, ◌+◌, ◌-◌, ◌*◌, ◌%◌, ◌^◌, min, ltb, not, ◌&&◌, ◌||◌, Bool, true, false, List, [],
  ◌∷◌, length, Option, none, some, if◌then◌else◌,
}
use ubass_rs.Base.Outcome.{Outcome, ok, panic, ◌>>=◌, ◌>>◌}
use ubass_rs.Wire.Codec.{Bytes}
use ubass_rs.Packets.Scalars.{ByteRange, max_payload_length, debug_assert}
use ubass_rs.Buffers.Readable.{ReadableBuffer, next, read}
use ubass_rs.Buffers.Writeable.{WriteableBuffer}
use ubass_rs.State.Requests.{StreamingFrom, streaming_from_new}
use ubass_rs.State.Batches.{SessionFecState}

-- `enum PlaybackControl` and `enum StreamEvent` of src/utils/messages.rs
pub data PlaybackControl : Type 0 where
  play pause close done : PlaybackControl
  seek : ℕ → PlaybackControl

pub data StreamEvent : Type 0 where
  playback : PlaybackControl → StreamEvent
  retransmit_event : List ByteRange → StreamEvent

-- `struct StreamMessage`
pub record StreamMessage : Type 0 where
  pub head : ℕ
  pub paused : Bool
  pub closed : Bool
  pub complete : Option Bool
  pub approved : Option Bool
  pub buffer_closed : Bool

-- `struct StreamingTo`
pub record StreamingTo : Type 0 where
  pub buffer : ReadableBuffer
  pub current_batch : ℕ
  pub event : StreamEvent

-- `next_batch_id`: what `fetch_add` returned, plus one, on `u16`s; `BatchID::new` asserts that it is
-- not zero.
unfoldable pub next_batch_id : Bool → StreamingTo → Outcome (StreamingTo × ℕ)
next_batch_id debug s = do
  let raw = (s.current_batch + 1) % 2 ^ 16
  debug_assert debug (ltb 0 raw)
  ok (record s { current_batch = raw }, raw)

-- `enum Streaming`
pub data Streaming : Type 0 where
  to : StreamingTo → Streaming
  from : StreamingFrom → Streaming

-- `struct StreamState`
pub record StreamState : Type 0 where
  pub streaming : Streaming
  pub stream : StreamMessage
  pub fec : SessionFecState

-- `buffer.take(n).collect()`
unfoldable pub take_chunks : ℕ → ReadableBuffer → Outcome (ReadableBuffer × List (ℕ × Bytes))
unfolding next
take_chunks zero b = ok (b, [])
take_chunks (suc n) b = do
  step ← next b
  elim step.1 [
    | none ↦ ok (step.0, [])
    | some chunk ↦ do rest ← take_chunks n step.0; ok (rest.0, chunk ∷ rest.1)
  ]

abbrev pub is_halted : StreamMessage → Bool
is_halted m = m.paused || m.closed

-- `get_chunks`, of the direction that the state has.
unfoldable pub get_chunks_of :
    Streaming → ℕ → StreamState → Outcome (StreamState × Option (List (ℕ × Bytes)))
unfolding take_chunks
get_chunks_of (from sf) n s = ok (s, none)
get_chunks_of (to st) n s = if is_halted s.stream then ok (s, none) else (do
  taken ← take_chunks n st.buffer
  ok (
    record s {
      streaming = to (record st { buffer = taken.0 });
      stream = record s.stream {
        head = min (s.stream.head + length taken.1 * max_payload_length) (length st.buffer.buffer);
      };
    },
    some taken.1,
  ))

unfoldable pub get_chunks : ℕ → StreamState → Outcome (StreamState × Option (List (ℕ × Bytes)))
unfolding get_chunks_of
get_chunks n s = get_chunks_of s.streaming n s

-- The `for` of `StreamState::retransmit`.
unfoldable pub read_ranges : ReadableBuffer → List ByteRange → List (ℕ × Bytes)
unfolding read
read_ranges b [] = []
read_ranges b (r ∷ ranges) =
    let end = min (r.start + min r.length max_payload_length) (length b.buffer) in
    elim (read b r.start end) [
      | none ↦ read_ranges b ranges
      | some payload ↦ (r.start, payload) ∷ read_ranges b ranges
    ]

unfoldable pub retransmit_of : Streaming → StreamState → List ByteRange → Option (List (ℕ × Bytes))
unfolding read_ranges
retransmit_of (from sf) s ranges = none
retransmit_of (to st) s ranges =
    if is_halted s.stream then none else some (read_ranges st.buffer ranges)

-- `StreamState::retransmit`
unfoldable pub retransmit : StreamState → List ByteRange → Option (List (ℕ × Bytes))
unfolding retransmit_of
retransmit s ranges = retransmit_of s.streaming s ranges

-- `enum SessionStates`
pub data SessionStates : Type 0 where
  up down : SessionStates
  streaming_state : StreamState → SessionStates

-- `struct EstablishedState`
pub record EstablishedState (Addr : Type 0) : Type 0 where
  pub session_id : ℕ
  pub state : SessionStates
  pub address : Addr
  pub app_id : Bytes

-- `enum ConnectionStates`
pub data ConnectionStates (Addr : Type 0) : Type 0 where
  handshake : ℕ → Bytes → Addr → ConnectionStates Addr
  established : EstablishedState Addr → ConnectionStates Addr

module _ {Addr : Type 0} where
  -- `address` and `update_address`
  unfoldable pub address : ConnectionStates Addr → Addr
  address (handshake session app_id a) = a
  address (established e) = e.address

  unfoldable pub update_address : ConnectionStates Addr → Addr → ConnectionStates Addr
  update_address (handshake session app_id a) new = handshake session app_id new
  update_address (established e) new = established (record e { address = new })

  -- A stream begins only on an established session that has none; anything else is a broken
  -- invariant, which builds without debug assertions ignore.
  unfoldable pub begin_stream :
      Bool → ConnectionStates Addr → StreamState → Outcome (ConnectionStates Addr)
  begin_stream debug (handshake session app_id a) s =
      if debug then panic else ok (handshake session app_id a)
  begin_stream debug (established e) s = elim e.state [
    | up ↦ ok (established (record e { state = streaming_state s }))
    | down ↦ ok (established (record e { state = streaming_state s }))
    | streaming_state _ ↦ if debug then panic else ok (established e)
  ]

  -- `streaming_from`
  unfoldable pub streaming_from :
      Bool
      → ConnectionStates Addr
      → WriteableBuffer
      → StreamMessage
      → Outcome (ConnectionStates Addr)
  unfolding begin_stream streaming_from_new
  streaming_from debug c buffer sender =
      begin_stream debug c
        (record { streaming = from (streaming_from_new buffer); stream = sender; fec = [] })

  -- `stream_to`
  unfoldable pub stream_to :
      Bool
      → ConnectionStates Addr
      → ReadableBuffer
      → StreamMessage
      → Outcome (ConnectionStates Addr)
  unfolding begin_stream
  stream_to debug c buffer sender = begin_stream debug c (record {
    streaming = to (record { buffer = buffer; event = playback play; current_batch = 0 });
    stream = sender;
    fec = [];
  })

  -- `close_stream`: the connection, and the message that the stream shows last.
  unfoldable pub close_stream :
      Bool → ConnectionStates Addr → Outcome (ConnectionStates Addr × Option StreamMessage)
  close_stream debug (handshake session app_id a) =
      if debug then panic else ok (handshake session app_id a, none)
  close_stream debug (established e) = elim e.state [
    | up ↦ if debug then panic else ok (established e, none)
    | down ↦ if debug then panic else ok (established e, none)
    | streaming_state s ↦
        ok (established (record e { state = up }), some (record s.stream { closed = true }))
  ]
