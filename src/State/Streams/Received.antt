-- ===== src/State/Streams/Received.antt =====
-- `ConnectionStates::received_data_packet` of src/manager/state.rs. What it sends is a list; what
-- `requestable_areas` picks is an argument.
use ubass_rs.Base.{
  ℕ, ◌+◌, ◌%◌, ◌^◌, ltb, ◌==◌, ◌&&◌, ◌||◌, Bool, true, false, List, [], ◌∷◌, map, Option, none,
  some, if◌then◌else◌,
}
use ubass_rs.Base.Outcome.{Outcome, ok, panic, ◌>>=◌}
use ubass_rs.Packets.Flags.{OptionFlags, construct}
use ubass_rs.Packets.Scalars.{ByteRange}
use ubass_rs.Packets.Streams.{DataPacket}
use ubass_rs.Packets.Packet.{Packet}
use ubass_rs.Packets.New.Signals.{playback_control_packet_done}
use ubass_rs.Buffers.Areas.{Area}
use ubass_rs.Buffers.Writeable.{WriteableBuffer, WriteResult, write, is_done, head_at_end}
use ubass_rs.Base.Maps.{HashMap}
use ubass_rs.Fec.{data_fec_packet}
use ubass_rs.Fec.Batch.{InboundBatch}
use ubass_rs.Fec.Xor.{MapKey, received}
use ubass_rs.State.Requests.{StreamingFrom, clear_pending, finalize_sweep_pick, score_policy_pick}
use ubass_rs.State.Batches.{SessionFecState, fec_add_data, active_byte_ranges}
use ubass_rs.State.Dispatch.{dispatch_retransmit_request}
use ubass_rs.State.Streams.{
  Streaming, from, StreamMessage, StreamState, streaming_state, SessionStates, up, down,
  EstablishedState, ConnectionStates, established, close_stream,
}

-- How it ends: the packet goes on to the error correction, `Ok(false)`, or one of the errors.
pub data Answer : Type 0 where
  passed_on finished irrelevant state_mismatch : Answer

-- The connection afterwards, the message that its stream shows, what is sent, and the answer.
pub record Handled (Addr : Type 0) : Type 0 where
  pub connection : ConnectionStates Addr
  pub message : Option StreamMessage
  pub sent : List (Packet × Addr)
  pub answer : Answer

-- What `received_data_packet` leaves: also the open batches, and whether the batch of a packet that went on
-- can be recovered, which is the value that the caller gets then.
pub record ReceivedData (Addr : Type 0) : Type 0 where
  pub handled : Handled Addr
  pub inbound : HashMap MapKey InboundBatch
  pub recoverable : Option Bool

-- `stream.borrow().complete.is_some_and(identity)`
abbrev pub allows_partial : Option Bool → Bool
allows_partial none = false
allows_partial (some b) = b

-- `batch_pos + 1` on a `u8`
unfoldable pub add_u8 : Bool → ℕ → ℕ → Outcome ℕ
add_u8 debug a b =
    if ltb (a + b) 256 then ok (a + b) else if debug then panic else ok ((a + b) % 2 ^ 8)

-- `buffer.is_done() || (complete_allow_partial && head_at_end)`
unfoldable pub declares_done : StreamMessage → WriteableBuffer → Bool
unfolding is_done head_at_end
declares_done m b = is_done b || (allows_partial m.complete && head_at_end b)

-- What is picked when the whole track is not there yet.
unfoldable pub pick_missing :
    (WriteableBuffer → List Area)
    → Bool
    → ℕ
    → Bool
    → SessionFecState
    → StreamingFrom
    → Outcome (SessionFecState × StreamingFrom × List ByteRange)
unfolding head_at_end
pick_missing requestable_areas debug now batch_end fec sf =
    if head_at_end sf.buffer
    then (do
      active ← active_byte_ranges debug now fec
      picked ← finalize_sweep_pick debug now active.1 sf
      ok (active.0, picked.0, picked.1))
    else if batch_end
    then (do
      active ← active_byte_ranges debug now fec
      picked ← score_policy_pick requestable_areas debug now active.1 sf
      ok (active.0, picked.0, picked.1))
    else ok (fec, sf, [])

-- The message after a write.
abbrev pub shown_head : StreamMessage → WriteableBuffer → StreamMessage
shown_head m b = record m { head = b.head; approved = some true }

module _ {Addr : Type 0} where
  -- The connection with its stream replaced.
  abbrev pub with_stream :
      EstablishedState Addr
      → StreamingFrom
      → StreamMessage
      → SessionFecState
      → ConnectionStates Addr
  with_stream e sf m fec =
      established (record e {
        state = streaming_state (record { streaming = from sf; stream = m; fec = fec });
      })

  abbrev pub to_packets : Addr → List Packet → List (Packet × Addr)
  to_packets a packets = map (λ p. (p, a)) packets

  -- The track is complete.
  unfoldable pub declare_done :
      Bool
      → ℕ
      → ℕ
      → EstablishedState Addr
      → StreamingFrom
      → StreamMessage
      → SessionFecState
      → Outcome (Handled Addr)
  unfolding close_stream
  declare_done debug now session e sf m fec = do
    packet ←
        playback_control_packet_done debug now (construct (OptionFlags.require_ack ∷ [])) session
    closed ← close_stream debug (with_stream e sf m fec)
    ok (record {
      connection = closed.0;
      message = closed.1;
      sent = (Packet.playback_control_packet packet, e.address) ∷ [];
      answer = Answer.finished;
    })

  -- Missing chunks are asked for.
  unfoldable pub request_missing :
      (WriteableBuffer → List Area)
      → Bool
      → ℕ
      → ℕ
      → Bool
      → EstablishedState Addr
      → StreamingFrom
      → StreamMessage
      → SessionFecState
      → Outcome (Handled Addr)
  request_missing requestable_areas debug now session batch_end e sf m fec = do
    picked ← pick_missing requestable_areas debug now batch_end fec sf
    packets ← dispatch_retransmit_request debug now session picked.2
    ok (record {
      connection = with_stream e picked.1 m picked.0;
      message = some m;
      sent = to_packets e.address (map (λ p. Packet.retransmit_packet p) packets);
      answer = Answer.passed_on;
    })

  -- What follows a write that was accepted.
  unfoldable pub after_write :
      (WriteableBuffer → List Area)
      → Bool
      → ℕ
      → EstablishedState Addr
      → StreamingFrom
      → StreamMessage
      → SessionFecState
      → DataPacket
      → Outcome (Handled Addr)
  unfolding declares_done
  after_write requestable_areas debug now e sf m fec packet = do
    next_pos ← add_u8 debug packet.fec_info.batch_pos 1
    if declares_done m sf.buffer
        then declare_done debug now packet.session_id e sf m fec
        else request_missing requestable_areas debug now packet.session_id
            (next_pos == packet.fec_info.batch_size) e sf m fec

  unfoldable pub receive_written :
      (WriteableBuffer → List Area)
      → Bool
      → ℕ
      → EstablishedState Addr
      → StreamingFrom
      → StreamMessage
      → SessionFecState
      → DataPacket
      → WriteResult
      → Outcome (Handled Addr)
  unfolding after_write clear_pending
  receive_written requestable_areas debug now e sf m fec packet (WriteResult.refused why) =
      ok (record {
        connection = with_stream e sf m fec;
        message = some m;
        sent = [];
        answer = Answer.irrelevant;
      })
  receive_written requestable_areas debug now e sf m fec packet (WriteResult.wrote start end) =
      after_write requestable_areas debug now e (clear_pending sf packet.byte_range_start)
        (shown_head m sf.buffer) fec packet

  -- The packet comes to a session that receives.
  unfoldable pub receive_streaming :
      (WriteableBuffer → List Area)
      → Bool
      → ℕ
      → EstablishedState Addr
      → StreamingFrom
      → StreamMessage
      → SessionFecState
      → DataPacket
      → Outcome (Handled Addr)
  receive_streaming requestable_areas debug now e sf m fec packet = do
    written ← write debug sf.buffer packet.byte_range_start packet.payload
    receive_written requestable_areas debug now e (record sf { buffer = written.0 }) m
        (fec_add_data now fec packet.batch_id packet.fec_info packet.byte_range_start) packet
        written.1

  abbrev pub mismatch : ConnectionStates Addr → Outcome (Handled Addr)
  mismatch c =
      ok (record { connection = c; message = none; sent = []; answer = Answer.state_mismatch })

  unfoldable pub received_on_stream :
      (WriteableBuffer → List Area)
      → Bool
      → ℕ
      → EstablishedState Addr
      → StreamState
      → Streaming
      → DataPacket
      → Outcome (Handled Addr)
  unfolding receive_streaming
  received_on_stream requestable_areas debug now e s (Streaming.to st) packet =
      mismatch (established e)
  received_on_stream requestable_areas debug now e s (from sf) packet =
      receive_streaming requestable_areas debug now e sf s.stream s.fec packet

  unfoldable pub received_in_state :
      (WriteableBuffer → List Area)
      → Bool
      → ℕ
      → EstablishedState Addr
      → SessionStates
      → DataPacket
      → Outcome (Handled Addr)
  unfolding received_on_stream
  received_in_state requestable_areas debug now e up packet = mismatch (established e)
  received_in_state requestable_areas debug now e down packet = mismatch (established e)
  received_in_state requestable_areas debug now e (streaming_state s) packet =
      received_on_stream requestable_areas debug now e s s.streaming packet

  -- All of it but the last line.
  unfoldable pub handle_data_packet :
      (WriteableBuffer → List Area)
      → Bool
      → ℕ
      → ConnectionStates Addr
      → DataPacket
      → Outcome (Handled Addr)
  unfolding received_in_state
  handle_data_packet requestable_areas debug now (ConnectionStates.handshake session app_id a)
        packet =
      mismatch (ConnectionStates.handshake session app_id a)
  handle_data_packet requestable_areas debug now (established e) packet =
      received_in_state requestable_areas debug now e e.state packet

  -- `Ok(fec::received(packet).await)` where the packet goes on to the error correction
  unfoldable pub pass_on :
      Bool
      → ℕ
      → HashMap MapKey InboundBatch
      → DataPacket
      → Handled Addr
      → Answer
      → Outcome (ReceivedData Addr)
  unfolding data_fec_packet received
  pass_on debug now inbound packet h Answer.passed_on = do
    fec_packet ← data_fec_packet debug packet
    ready ← received debug now inbound fec_packet
    ok (record { handled = h; inbound = ready.0; recoverable = some ready.1 })
  pass_on debug now inbound packet h Answer.finished =
      ok (record { handled = h; inbound = inbound; recoverable = none })
  pass_on debug now inbound packet h Answer.irrelevant =
      ok (record { handled = h; inbound = inbound; recoverable = none })
  pass_on debug now inbound packet h Answer.state_mismatch =
      ok (record { handled = h; inbound = inbound; recoverable = none })

  -- `received_data_packet`. `inbound` is the map of open batches of the error correction.
  unfoldable pub received_data_packet :
      (WriteableBuffer → List Area)
      → Bool
      → ℕ
      → HashMap MapKey InboundBatch
      → ConnectionStates Addr
      → DataPacket
      → Outcome (ReceivedData Addr)
  unfolding handle_data_packet pass_on
  received_data_packet requestable_areas debug now inbound c packet = do
    h ← handle_data_packet requestable_areas debug now c packet
    pass_on debug now inbound packet h h.answer
