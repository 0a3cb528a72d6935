-- ===== src/Packets/New/Acked.antt =====
-- Which packets of src/manager/packets.rs ask to be acknowledged.
use ubass_rs.Base.{
  ℕ, ◌/◌, ◌≤◌, ◌≡◌, refl, ap, ◌∙◌, arith, ◌==◌, le→leb, Bool, true, false, List, length, Option,
  none, some,
}
use ubass_rs.Base.Bits.{bit_and_step, bit_or-half, bit_or-zero}
use ubass_rs.Base.Outcome.{ok}
use ubass_rs.Wire.Codec.{Bytes, reserved}
use Prim.Native.Nat.{bit_and, bit_or}
use ubass_rs.Packets.Kinds.{
  PacketType, SessionControlType, session_control, PlaybackControlType, HandshakeRejectionReason,
}
use ubass_rs.Packets.Flags.{OptionFlags, set_flag, unset_flag, contains_flag, valid_flag}
use ubass_rs.Packets.Flags.Laws.{flags_behave_as_set}
use ubass_rs.Packets.Scalars.{ByteRange, debug_assert, current_version}
use ubass_rs.Packets.Streams.{RetransmitPacket}
use ubass_rs.Packets.Control.{
  TrackRequestPacket, PlaybackControlPacket, CloseSessionPacket, TrackRejectionPacket,
}
use ubass_rs.Packets.Handshake.{HandshakeRejection}
use ubass_rs.Packets.Replies.{KeepAlivePacket}
use ubass_rs.Packets.New.Carriers.{retransmit_packet_data}
use ubass_rs.Packets.New.Signals.{
  track_request_packet_request_track, playback_control_packet_new, close_session_packet_new,
  track_rejection_packet_new, keep_alive_packet_new, handshake_rejection_new,
}

pub debug_assert-true : (debug : Bool) → debug_assert debug true ≡ ok tt
debug_assert-true true = refl
debug_assert-true false = refl

set_keeps_others : (o : ℕ) → bit_and (bit_or o 1) 65528 ≡ bit_and o 65528
set_keeps_others o = omega (
  arith,
  bit_and_step (bit_or o 1) 65528,
  bit_and_step o 65528,
  ap (λ k. bit_and k 32764) (bit_or-half o 1 ∙ bit_or-zero (o / 2)),
)

-- Options stay valid when `RequireAck` is set.
set_flag-valid_flag :
    (o : ℕ) → valid_flag o ≡ true → valid_flag (set_flag o OptionFlags.require_ack) ≡ true
unfolding valid_flag set_flag
set_flag-valid_flag o h = ap (λ k. k == 0) (set_keeps_others o) ∙ h

acked : (o : ℕ) → contains_flag (set_flag o OptionFlags.require_ack) OptionFlags.require_ack ≡ true
acked o = (flags_behave_as_set o OptionFlags.require_ack OptionFlags.require_ack).0

not_acked :
    (o : ℕ) → contains_flag (unset_flag o OptionFlags.require_ack) OptionFlags.require_ack ≡ false
not_acked o = (flags_behave_as_set o OptionFlags.require_ack OptionFlags.require_ack).1

abbrev pub RequiresAck : Bool → ℕ → Type 0
RequiresAck b opts = contains_flag opts OptionFlags.require_ack ≡ b

pub retransmit_packet_data_lem :
    (debug : Bool) (now opts session : ℕ) (ranges : List ByteRange)
    → valid_flag opts ≡ true
    → length ranges ≤ 228
    → (p : RetransmitPacket) × (retransmit_packet_data debug now opts session ranges ≡ ok p)
      × (p.session_id ≡ session)
      × (p.payload ≡ ranges)
      × RequiresAck true p.opts
unfolding retransmit_packet_data
retransmit_packet_data_lem debug now opts session ranges valid few = (
  record {
    version = current_version;
    opts = set_flag opts OptionFlags.require_ack;
    packet_type = PacketType.session;
    control_type = session_control SessionControlType.retransmit;
    buffer_id = none;
    session_id = session;
    timestamp = now;
    payload = ranges;
  },
  rw
      (
        retransmit_packet_data,
        le→leb (length ranges) 228 few,
        debug_assert-true debug,
        set_flag-valid_flag opts valid,
        debug_assert-true debug,
      )
      refl,
  refl,
  refl,
  acked opts,
)

-- With valid options, at most 228 ranges and a payload of at most 1368 bytes the constructors of the
-- packets that a session depends on - requests for retransmission and for tracks, playback controls,
-- closing, rejection of a track - do not panic, and the packet asks to be acknowledged whatever the
-- options said; a keep-alive and the rejection of a handshake do not ask for it, whatever they said.
pub constructors_set_require_ack :
    (debug : Bool) (now opts session : ℕ) (ranges : List ByteRange) (track : Bytes)
    (playback : PlaybackControlType) (seek : Option ℕ) (why : HandshakeRejectionReason)
    (handshake : ℕ)
    → valid_flag opts ≡ true
    → length ranges ≤ 228
    → length track ≤ 1368
    → ((p : RetransmitPacket) × (retransmit_packet_data debug now opts session ranges ≡ ok p)
        × RequiresAck true p.opts)
      × (((p : TrackRequestPacket) × (track_request_packet_request_track debug now opts session
                track
              ≡ ok p)
            × RequiresAck true p.opts)
          × (((p : PlaybackControlPacket) × (playback_control_packet_new debug now opts session
                    playback seek
                  ≡ ok p)
                × RequiresAck true p.opts)
              × (((p : CloseSessionPacket) × (close_session_packet_new debug now opts session
                      ≡ ok p)
                    × RequiresAck true p.opts)
                  × (((p : TrackRejectionPacket) × (track_rejection_packet_new debug now opts
                            session track
                          ≡ ok p)
                        × RequiresAck true p.opts)
                      × (((p : KeepAlivePacket) × (keep_alive_packet_new debug now opts session
                              ≡ ok p)
                            × RequiresAck false p.opts)
                          × ((p : HandshakeRejection) × (handshake_rejection_new debug now opts
                                  session why handshake
                                ≡ ok p)
                              × RequiresAck false p.opts))))))
unfolding retransmit_packet_data track_request_packet_request_track playback_control_packet_new
    close_session_packet_new track_rejection_packet_new keep_alive_packet_new
    handshake_rejection_new
constructors_set_require_ack debug now opts session ranges track playback seek why handshake valid
      few short =
    (
      (
        record {
          version = current_version;
          opts = set_flag opts OptionFlags.require_ack;
          packet_type = PacketType.session;
          control_type = session_control SessionControlType.retransmit;
          buffer_id = none;
          session_id = session;
          timestamp = now;
          payload = ranges;
        },
        rw
            (
              retransmit_packet_data,
              le→leb (length ranges) 228 few,
              debug_assert-true debug,
              set_flag-valid_flag opts valid,
              debug_assert-true debug,
            )
            refl,
        acked opts,
      ),
      (
        (
          record {
            version = current_version;
            opts = set_flag opts OptionFlags.require_ack;
            packet_type = PacketType.session;
            control_type = session_control SessionControlType.track_request;
            reserved = reserved;
            session_id = session;
            timestamp = now;
            payload = track;
          },
          rw
              (
                track_request_packet_request_track,
                set_flag-valid_flag opts valid,
                debug_assert-true debug,
              )
              refl,
          acked opts,
        ),
        (
          (
            record {
              version = current_version;
              opts = set_flag opts OptionFlags.require_ack;
              packet_type = PacketType.playback;
              control_type = playback;
              reserved = reserved;
              session_id = session;
              timestamp = now;
              seek_position = elim seek [ none ↦ 0 | some p ↦ p ];
            },
            rw
                (
                  playback_control_packet_new,
                  set_flag-valid_flag opts valid,
                  debug_assert-true debug,
                )
                refl,
            acked opts,
          ),
          (
            (_, refl, acked opts),
            (
              (
                record {
                  version = current_version;
                  opts = set_flag opts OptionFlags.require_ack;
                  packet_type = PacketType.session;
                  control_type = session_control SessionControlType.track_reject;
                  reserved = reserved;
                  session_id = session;
                  timestamp = now;
                  payload = track;
                },
                rw
                    (
                      track_rejection_packet_new,
                      valid,
                      debug_assert-true debug,
                      le→leb (length track) 1368 short,
                      debug_assert-true debug,
                    )
                    refl,
                acked opts,
              ),
              ((_, refl, not_acked opts), (_, refl, not_acked opts)),
            ),
          ),
        ),
      ),
    )
