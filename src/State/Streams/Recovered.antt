-- ===== src/State/Streams/Recovered.antt =====
-- `ConnectionStates::recovered_packet` of src/manager/state.rs.
use ubass_rs.Base.{ℕ, Bool, true, false, List, [], ◌∷◌, map, some, if◌then◌else◌}
use ubass_rs.Base.Outcome.{Outcome, ok, ◌>>=◌}
use ubass_rs.Packets.Flags.{OptionFlags, construct}
use ubass_rs.Packets.Packet.{Packet}
use ubass_rs.Packets.New.Signals.{playback_control_packet_done}
use ubass_rs.Buffers.Areas.{Area}
use ubass_rs.Buffers.Writeable.{WriteableBuffer, refused, wrote, write}
use ubass_rs.Fec.{RecoverdPacket}
use ubass_rs.State.Requests.{StreamingFrom, clear_pending}
use ubass_rs.State.Batches.{SessionFecState, evict}
use ubass_rs.State.Dispatch.{dispatch_retransmit_request}
use ubass_rs.State.Streams.{
  Streaming, from, SessionStates, StreamMessage, StreamState, streaming_state, EstablishedState,
  ConnectionStates, established,
}
use ubass_rs.State.Streams.Received.{
  Answer, Handled, with_stream, mismatch, to_packets, declares_done, pick_missing,
}

-- What the loop over the recovered packets leaves: the stream, its message, and whether every write was
-- accepted. A refused write returns from the function.
pub record Stored : Type 0 where
  pub streaming_from : StreamingFrom
  pub message : StreamMessage
  pub complete : Bool

unfoldable pub store_packets :
    Bool → StreamingFrom → StreamMessage → List RecoverdPacket → Outcome Stored
unfolding clear_pending
store_packets debug sf m [] = ok (record { streaming_from = sf; message = m; complete = true })
store_packets debug sf m (p ∷ packets) = do
  written ← write debug sf.buffer p.byte_range_start p.payload
  elim written.1 [
    | refused why ↦ ok (record {
      streaming_from = record sf { buffer = written.0 };
      message = m;
      complete = false;
    })
    | wrote start end ↦
        store_packets debug (clear_pending (record sf { buffer = written.0 }) p.byte_range_start)
          (record m { head = written.0.head }) packets
  ]

module _ {Addr : Type 0} where
  -- The track is complete: the stream shows that it is closed, but the session keeps it.
  unfoldable pub recovered_done :
      Bool
      → ℕ
      → EstablishedState Addr
      → StreamingFrom
      → StreamMessage
      → SessionFecState
      → Outcome (Handled Addr)
  recovered_done debug now e sf m fec = do
    packet ←
        playback_control_packet_done debug now (construct (OptionFlags.require_ack ∷ []))
          e.session_id
    ok (record {
      connection = with_stream e sf (record m { closed = true }) fec;
      message = some (record m { closed = true });
      sent = (Packet.playback_control_packet packet, e.address) ∷ [];
      answer = Answer.finished;
    })

  unfoldable pub recovered_more :
      (WriteableBuffer → List Area)
      → Bool
      → ℕ
      → EstablishedState Addr
      → StreamingFrom
      → StreamMessage
      → SessionFecState
      → Outcome (Handled Addr)
  recovered_more requestable_areas debug now e sf m fec = do
    picked ← pick_missing requestable_areas debug now true fec sf
    packets ← dispatch_retransmit_request debug now e.session_id picked.2
    ok (record {
      connection = with_stream e picked.1 m picked.0;
      message = some m;
      sent = to_packets e.address (map (λ p. Packet.retransmit_packet p) packets);
      answer = Answer.finished;
    })

  unfoldable pub recovered_streaming :
      (WriteableBuffer → List Area)
      → Bool
      → ℕ
      → EstablishedState Addr
      → StreamingFrom
      → StreamMessage
      → SessionFecState
      → ℕ
      → List RecoverdPacket
      → Outcome (Handled Addr)
  unfolding declares_done evict
  recovered_streaming requestable_areas debug now e sf m fec batch_id packets = do
    stored ← store_packets debug sf (record m { approved = some true }) packets
    if stored.complete
        then if declares_done stored.message stored.streaming_from.buffer
          then recovered_done debug now e stored.streaming_from stored.message (evict fec batch_id)
          else recovered_more requestable_areas debug now e stored.streaming_from stored.message
              (evict fec batch_id)
        else ok (record {
          connection = with_stream e stored.streaming_from stored.message (evict fec batch_id);
          message = some stored.message;
          sent = [];
          answer = Answer.irrelevant;
        })

  unfoldable pub recovered_on_stream :
      (WriteableBuffer → List Area)
      → Bool
      → ℕ
      → EstablishedState Addr
      → StreamState
      → Streaming
      → ℕ
      → List RecoverdPacket
      → Outcome (Handled Addr)
  unfolding recovered_streaming
  recovered_on_stream requestable_areas debug now e s (Streaming.to st) batch_id packets =
      mismatch (established e)
  recovered_on_stream requestable_areas debug now e s (from sf) batch_id packets =
      recovered_streaming requestable_areas debug now e sf s.stream s.fec batch_id packets

  unfoldable pub recovered_in_state :
      (WriteableBuffer → List Area)
      → Bool
      → ℕ
      → EstablishedState Addr
      → SessionStates
      → ℕ
      → List RecoverdPacket
      → Outcome (Handled Addr)
  unfolding recovered_on_stream
  recovered_in_state requestable_areas debug now e SessionStates.up batch_id packets =
      mismatch (established e)
  recovered_in_state requestable_areas debug now e SessionStates.down batch_id packets =
      mismatch (established e)
  recovered_in_state requestable_areas debug now e (streaming_state s) batch_id packets =
      recovered_on_stream requestable_areas debug now e s s.streaming batch_id packets

  -- `recovered_packet`. `Ok(())` is the answer `finished`.
  unfoldable pub recovered_packet_of :
      (WriteableBuffer → List Area)
      → Bool
      → ℕ
      → ConnectionStates Addr
      → ℕ
      → List RecoverdPacket
      → Outcome (Handled Addr)
  unfolding recovered_in_state
  recovered_packet_of requestable_areas debug now (ConnectionStates.handshake session app_id a)
        batch_id packets =
      mismatch (ConnectionStates.handshake session app_id a)
  recovered_packet_of requestable_areas debug now (established e) batch_id packets =
      recovered_in_state requestable_areas debug now e e.state batch_id packets
