-- ===== src/State/Streams/Accepted.antt =====
-- What `received_data_packet` of src/manager/state.rs does to a session that receives a stream, up to its
-- last line.
use ubass_rs.Base.{
  ℕ, ◌+◌, ◌≤◌, ◌<◌, ◌/◌, ◌≡◌, refl, sym, subst, ap, ◌∙◌, arith, ◌==◌, lt→ltb, Bool, true, List, [],
  ◌∷◌, map, Bool-cases, inl, inr, some, if◌then◌else◌, All, All-imp,
}
use ubass_rs.Base.Outcome.{ok}
use ubass_rs.Base.Maps.{HashMap, nat_eq, All-remove}
use ubass_rs.Wire.Codec.{Bytes, reserved}
use ubass_rs.Packets.Kinds.{PacketType, PlaybackControlType}
use ubass_rs.Packets.Flags.{construct, valid_flag, set_flag, contains_flag}
use ubass_rs.Packets.Scalars.{current_version}
use ubass_rs.Packets.Streams.{DataPacket, RetransmitPacket}
use ubass_rs.Packets.Packet.{Packet}
use ubass_rs.Packets.Control.{PlaybackControlPacket}
use ubass_rs.Packets.New.Signals.{playback_control_packet_done, playback_control_packet_new}
use ubass_rs.Packets.New.Acked.{RequiresAck, debug_assert-true}
use ubass_rs.Buffers.Areas.{Area}
use ubass_rs.Buffers.Writeable.{
  WriteableBuffer, buffer_length, BufferError, WriteResult, wrote, refused, head_at_end,
}
use ubass_rs.Buffers.Writeable.Head.{IsWriteable}
use ubass_rs.Buffers.Writeable.Writes.{WriteMeans, write_total, length-copied_at}
use ubass_rs.Retransmit.{split_all}
use ubass_rs.Base.Maps.{pair_eq}
use ubass_rs.State.Requests.{StreamingFrom, clear_pending}
use ubass_rs.State.Batches.{SessionFecState, fec_add_data}
use ubass_rs.State.Batches.Active.{fec_add_data-ArePastBatches}
use ubass_rs.State.Dispatch.{carried, dispatch_retransmit_request-carried}
use ubass_rs.State.Streams.{
  StreamMessage, SessionStates, EstablishedState, established, close_stream, from, streaming_state,
}
use ubass_rs.State.Streams.Received.{
  Answer, Handled, with_stream, to_packets, shown_head, add_u8, declares_done, declare_done,
  request_missing, after_write, receive_written, receive_streaming, received_on_stream,
  received_in_state, handle_data_packet,
}
use ubass_rs.State.Streams.Kept.{IsReceiving, swept, pick_missing_lem}

-- A write keeps the buffer in order and its size.
pub write_keeps :
    (b : WriteableBuffer) (position : ℕ) (bytes : Bytes) (after : WriteableBuffer)
    (result : WriteResult)
    → IsWriteable b
    → WriteMeans b position bytes after result
    → IsWriteable after × (buffer_length after ≡ buffer_length b)
write_keeps b position bytes after (wrote start end) w
      (s, (t, (u, (fits, (same, (head, ok_after)))))) =
    (
      ok_after,
      ap buffer_length same ∙ length-copied_at position bytes b.buffer (omega (arith, t, fits.1)),
    )
write_keeps b position bytes after (refused BufferError.not_valid) w h =
    (subst IsWriteable (sym h.0) w, ap buffer_length h.0)
write_keeps b position bytes after (refused BufferError.occupied) w h =
    (subst IsWriteable (sym h.0) w, ap buffer_length h.0)
write_keeps b position bytes after (refused BufferError.wrong_size) w h =
    (subst IsWriteable (sym h.0) w, ap buffer_length h.0)

module _ {Addr : Type 0} where
  -- The stream ends, the sender is told, and the session may stream again.
  abbrev pub EndsStream : ℕ → EstablishedState Addr → StreamMessage → Handled Addr → Type 0
  EndsStream session e m h =
      (h.connection ≡ established (record e { state = SessionStates.up }))
      × ((h.message ≡ some (record m { closed = true }))
          × ((h.answer ≡ Answer.finished)
              × ((p : PlaybackControlPacket) × ((h.sent
                      ≡ (Packet.playback_control_packet p, e.address) ∷ [])
                    × ((p.session_id ≡ session)
                        × ((p.control_type ≡ PlaybackControlType.done)
                            × RequiresAck true p.opts))))))

  -- The stream goes on with other pending requests and batches, and what is missing is asked for.
  abbrev pub AsksMore :
      Answer
      → Bool
      → ℕ
      → ℕ
      → EstablishedState Addr
      → StreamMessage
      → SessionFecState
      → StreamingFrom
      → Handled Addr
      → Type 0
  AsksMore answer debug now session e m fec sf h =
      (fec' : SessionFecState) × ((pending : HashMap ℕ ℕ) × ((packets : List RetransmitPacket) × ((h
              ≡ record {
                connection = with_stream e (record sf { pending = pending }) m fec';
                message = some m;
                sent = to_packets e.address (map (λ p. Packet.retransmit_packet p) packets);
                answer = answer;
              })
            × (IsReceiving now (record sf { pending = pending }) fec'
                × (All (λ p. (p.session_id ≡ session) × RequiresAck true p.opts) packets
                    × (head_at_end sf.buffer ≡ true
                        → split_all debug (carried packets) ≡ ok (swept now fec sf)))))))

  declare_done_lem :
      (debug : Bool) (now session : ℕ) (e : EstablishedState Addr) (sf : StreamingFrom)
      (m : StreamMessage) (fec : SessionFecState)
      → (h : Handled Addr) × (declare_done debug now session e sf m fec ≡ ok h)
        × EndsStream session e m h
  unfolding declare_done playback_control_packet_done playback_control_packet_new close_stream
      set_flag contains_flag valid_flag construct current_version
  declare_done_lem debug now session e sf m fec =
      let p : PlaybackControlPacket = record {
        version = current_version;
        opts = 1;
        packet_type = PacketType.playback;
        control_type = PlaybackControlType.done;
        reserved = reserved;
        session_id = session;
        timestamp = now;
        seek_position = 0;
      } in
      (
        record {
          connection = established (record e { state = SessionStates.up });
          message = some (record m { closed = true });
          sent = (Packet.playback_control_packet p, e.address) ∷ [];
          answer = Answer.finished;
        },
        rw
            (
              declare_done,
              playback_control_packet_done,
              playback_control_packet_new,
              debug_assert-true debug,
            )
            refl,
        (refl, (refl, (refl, (p, (refl, (refl, (refl, refl))))))),
      )

  request_missing_lem :
      (requestable_areas : WriteableBuffer → List Area) (debug : Bool) (now session : ℕ)
      (batch_end : Bool) (e : EstablishedState Addr) (sf : StreamingFrom) (m : StreamMessage)
      (fec : SessionFecState)
      → IsReceiving now sf fec
      → (h : Handled Addr) × (request_missing requestable_areas debug now session batch_end e sf m
            fec
          ≡ ok h)
        × AsksMore Answer.passed_on debug now session e m fec sf h
  unfolding request_missing
  request_missing_lem requestable_areas debug now session batch_end e sf m fec r =
      let (fec', after, ranges, picked, kept, split) =
        pick_missing_lem requestable_areas debug now batch_end fec sf r in
      let (packets, sent, same, facts) =
        dispatch_retransmit_request-carried debug now session ranges in
      (
        record {
          connection = with_stream e (record sf { pending = after }) m fec';
          message = some m;
          sent = to_packets e.address (map (λ p. Packet.retransmit_packet p) packets);
          answer = Answer.passed_on;
        },
        rw (request_missing, picked, sent) refl,
        (
          fec',
          (
            after,
            (
              packets,
              (
                refl,
                (
                  kept,
                  (
                    All-imp (λ p h. (h.0, h.1.1.1)) packets facts,
                    λ h. ap (λ l. split_all debug l) same ∙ split h,
                  ),
                ),
              ),
            ),
          ),
        ),
      )

  -- What `received_data_packet` does after a write with this result: `after` is the buffer that it left.
  abbrev pub Handles :
      Bool
      → ℕ
      → EstablishedState Addr
      → StreamMessage
      → SessionFecState
      → StreamingFrom
      → DataPacket
      → WriteResult
      → Handled Addr
      → Type 0
  Handles debug now e m fec sf packet (refused why) h = h ≡ record {
    connection = with_stream e sf m fec;
    message = some m;
    sent = [];
    answer = Answer.irrelevant;
  }
  Handles debug now e m fec sf packet (wrote start end) h =
      if declares_done (shown_head m sf.buffer) sf.buffer
      then EndsStream packet.session_id e (shown_head m sf.buffer) h
      else AsksMore Answer.passed_on debug now packet.session_id e (shown_head m sf.buffer) fec
          (clear_pending sf packet.byte_range_start) h

  after_write_lem :
      (requestable_areas : WriteableBuffer → List Area) (debug : Bool) (now : ℕ)
      (e : EstablishedState Addr) (sf : StreamingFrom) (m : StreamMessage) (fec : SessionFecState)
      (packet : DataPacket)
      → IsReceiving now sf fec
      → packet.fec_info.batch_pos < 255
      → (h : Handled Addr) × (after_write requestable_areas debug now e sf m fec packet ≡ ok h)
        × (if declares_done m sf.buffer
            then EndsStream packet.session_id e m h
            else AsksMore Answer.passed_on debug now packet.session_id e m fec sf h)
  unfolding after_write add_u8
  after_write_lem requestable_areas debug now e sf m fec packet r small =
      let fits = lt→ltb (packet.fec_info.batch_pos + 1) 256 (omega (arith, small)) in
      elim (Bool-cases (declares_done m sf.buffer)) [
        | inl done ↦
            let (h, eq, ends) = declare_done_lem debug now packet.session_id e sf m fec in
            (h, rw (after_write, add_u8, fits, done) eq, rw (done) ends)
        | inr more ↦
            let (h, eq, asks) =
              request_missing_lem requestable_areas debug now packet.session_id
                (packet.fec_info.batch_pos + 1 == packet.fec_info.batch_size) e sf m fec r in
            (h, rw (after_write, add_u8, fits, more) eq, rw (more) asks)
      ]

  receive_written_lem :
      (requestable_areas : WriteableBuffer → List Area) (debug : Bool) (now : ℕ)
      (e : EstablishedState Addr) (sf : StreamingFrom) (m : StreamMessage) (fec : SessionFecState)
      (packet : DataPacket) (result : WriteResult)
      → IsReceiving now sf fec
      → packet.fec_info.batch_pos < 255
      → (h : Handled Addr) × (receive_written requestable_areas debug now e sf m fec packet result
          ≡ ok h)
        × Handles debug now e m fec sf packet result h
  unfolding receive_written clear_pending
  receive_written_lem requestable_areas debug now e sf m fec packet (refused why) r small = (
    record {
      connection = with_stream e sf m fec;
      message = some m;
      sent = [];
      answer = Answer.irrelevant;
    },
    refl,
    refl,
  )
  receive_written_lem requestable_areas debug now e sf m fec packet (wrote start end) r small =
      after_write_lem requestable_areas debug now e (clear_pending sf packet.byte_range_start)
        (shown_head m sf.buffer) fec packet
        (record {
          buffer = r.buffer;
          addressable = r.addressable;
          past = All-remove (λ x. x.1 ≤ now) (packet.byte_range_start / 1368) sf.pending r.past;
          batches = r.batches;
        })
        small

  handle_data_packet-receive_streaming :
      (requestable_areas : WriteableBuffer → List Area) (debug : Bool) (now : ℕ)
      (e : EstablishedState Addr) (sf : StreamingFrom) (m : StreamMessage) (fec : SessionFecState)
      (packet : DataPacket)
      → e.state ≡ streaming_state (record { streaming = from sf; stream = m; fec = fec })
      → handle_data_packet requestable_areas debug now (established e) packet
        ≡ receive_streaming requestable_areas debug now e sf m fec packet
  unfolding handle_data_packet received_in_state received_on_stream
  handle_data_packet-receive_streaming requestable_areas debug now e sf m fec packet streams =
      ap (λ st. received_in_state requestable_areas debug now e st packet) streams

  pub handle_data_packet-Handles :
      (requestable_areas : WriteableBuffer → List Area) (debug : Bool) (now : ℕ)
      (e : EstablishedState Addr) (sf : StreamingFrom) (m : StreamMessage) (fec : SessionFecState)
      (packet : DataPacket)
      → e.state ≡ streaming_state (record { streaming = from sf; stream = m; fec = fec })
      → IsReceiving now sf fec
      → packet.fec_info.batch_pos < 255
      → (after : WriteableBuffer) × (result : WriteResult) × (h : Handled Addr) × (WriteMeans
          sf.buffer packet.byte_range_start packet.payload after result)
        × IsReceiving now
            (record sf { buffer = after })
            (fec_add_data now fec packet.batch_id packet.fec_info packet.byte_range_start)
        × (handle_data_packet requestable_areas debug now (established e) packet ≡ ok h)
        × Handles debug now e m
            (fec_add_data now fec packet.batch_id packet.fec_info packet.byte_range_start)
            (record sf { buffer = after })
            packet
            result
            h
  unfolding receive_streaming
  handle_data_packet-Handles requestable_areas debug now e sf m fec packet streams r small =
      let (after, result, wrote_eq, means) =
        write_total debug sf.buffer packet.byte_range_start packet.payload r.buffer r.addressable in
      let (well, size) =
        write_keeps sf.buffer packet.byte_range_start packet.payload after result r.buffer means in
      let later : IsReceiving now (record sf { buffer = after })
          (fec_add_data now fec packet.batch_id packet.fec_info packet.byte_range_start) =
        record {
          buffer = well;
          addressable = omega (arith, size, r.addressable);
          past = r.past;
          batches =
              fec_add_data-ArePastBatches now fec packet.batch_id packet.fec_info
                packet.byte_range_start r.batches;
        } in
      let (h, eq, handles) =
        receive_written_lem requestable_areas debug now e (record sf { buffer = after }) m
          (fec_add_data now fec packet.batch_id packet.fec_info packet.byte_range_start) packet
          result later small in
      (
        after,
        result,
        h,
        means,
        later,
        handle_data_packet-receive_streaming requestable_areas debug now e sf m fec packet streams
            ∙ rw (receive_streaming, wrote_eq) eq,
        handles,
      )
