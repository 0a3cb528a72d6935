-- ===== src/State/Streams/Restored.antt =====
-- What `recovered_packet` of src/manager/state.rs does to a session that receives a stream.
use ubass_rs.Base.{ℕ, ◌/◌, ◌≡◌, Bool, true, false, List, [], ◌∷◌, some, if◌then◌else◌}
use ubass_rs.Base.Maps.{nat_eq}
use ubass_rs.Packets.Kinds.{PlaybackControlType}
use ubass_rs.Packets.Packet.{Packet}
use ubass_rs.Packets.Control.{PlaybackControlPacket}
use ubass_rs.Packets.New.Acked.{RequiresAck}
use ubass_rs.Buffers.Writeable.{WriteableBuffer, wrote, refused}
use ubass_rs.State.Requests.{StreamingFrom}
use ubass_rs.State.Batches.{SessionFecState}
use ubass_rs.State.Streams.{StreamMessage, EstablishedState}
use ubass_rs.State.Streams.Received.{Answer, Handled, with_stream, declares_done}
use ubass_rs.Fec.{RecoverdPacket}
use ubass_rs.Base.{◌⊎◌}
use ubass_rs.Base.Maps.{remove}
use ubass_rs.Buffers.Writeable.{BufferError}
use ubass_rs.Buffers.Writeable.Writes.{WriteMeans}
use ubass_rs.State.Streams.Recovered.{Stored}
use ubass_rs.State.Streams.Accepted.{AsksMore}

-- What storing packets means: each is written in turn, which takes its request off and shows the head,
-- up to the first that is refused.
abbrev pub Stores : StreamingFrom → StreamMessage → List RecoverdPacket → Stored → Type 0
Stores sf m [] stored = stored ≡ record { streaming_from = sf; message = m; complete = true }
Stores sf m (p ∷ packets) stored =
    ((after : WriteableBuffer) × ((start : ℕ) × ((end : ℕ) × (WriteMeans sf.buffer
              p.byte_range_start p.payload after (wrote start end)
            × Stores
                (record { buffer = after; pending = remove (p.byte_range_start / 1368) sf.pending })
                (record m { head = after.head }) packets stored))))
    ⊎ ((after : WriteableBuffer) × ((why : BufferError) × (WriteMeans sf.buffer p.byte_range_start
              p.payload after (refused why)
            × (stored ≡ record {
              streaming_from = record sf { buffer = after };
              message = m;
              complete = false;
            }))))

module _ {Addr : Type 0} where
  -- The sender is told that the track is there; the session goes on streaming.
  abbrev pub SaysDone :
      EstablishedState Addr
      → SessionFecState
      → StreamingFrom
      → StreamMessage
      → Handled Addr
      → Type 0
  SaysDone e fec sf m h =
      (h.connection ≡ with_stream e sf (record m { closed = true }) fec)
      × ((h.answer ≡ Answer.finished)
          × ((p : PlaybackControlPacket) × ((h.sent
                  ≡ (Packet.playback_control_packet p, e.address) ∷ [])
                × ((p.session_id ≡ e.session_id)
                    × ((p.control_type ≡ PlaybackControlType.done) × RequiresAck true p.opts)))))

  -- What `recovered_packet` does after the packets were stored.
  abbrev pub Restores :
      Bool
      → ℕ
      → EstablishedState Addr
      → SessionFecState
      → StreamingFrom
      → StreamMessage
      → Bool
      → Handled Addr
      → Type 0
  Restores debug now e fec sf m complete h =
      if complete
      then if declares_done m sf.buffer
        then SaysDone e fec sf m h
        else AsksMore Answer.finished debug now e.session_id e m fec sf h
      else h ≡ record {
        connection = with_stream e sf m fec;
        message = some m;
        sent = [];
        answer = Answer.irrelevant;
      }
