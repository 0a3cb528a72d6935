-- ===== src/Packets/New/Signals.antt =====
-- The constructors of the packets that carry no stream, from src/manager/packets.rs. `now` is what
-- `Timestamp::now()` returns. `assert_opts_valid` is called in builds with debug assertions.
use ubass_rs.Base.{ℕ, ltb, not, Bool, length, Option, none, some}
use ubass_rs.Base.Outcome.{Outcome, ok, ◌>>=◌, ◌>>◌}
use ubass_rs.Wire.Codec.{Bytes, reserved}
use ubass_rs.Packets.Kinds.{
  PacketType, host_control, session_control, HostControlType, SessionControlType,
  PlaybackControlType, ErrorType, HandshakeRejectionReason,
}
use ubass_rs.Packets.Flags.{
  OptionFlags, set_flag, unset_flag, contains_flag, valid_flag, no_options,
}
use ubass_rs.Packets.Scalars.{
  debug_assert, current_version, version_new, min_compatible_version, max_payload_length,
  payload_field_new,
}
use ubass_rs.Packets.Control.{
  TrackRequestPacket, PlaybackControlPacket, CloseSessionPacket, TrackRejectionPacket,
}
use ubass_rs.Packets.Handshake.{
  HelloPacket, HandshakeAckPacket, HandshakeRejection, IncompatibleVersionPacket,
}
use ubass_rs.Packets.Replies.{AckPacket, KeepAlivePacket, SessionDoesNotExistErrorPacket}

-- `HelloPacket::new`
unfoldable pub hello_packet_new : Bool → ℕ → ℕ → ℕ → ℕ → Bytes → Bytes → Outcome HelloPacket
unfolding current_version valid_flag
hello_packet_new debug now opts session handshake key app = do
  debug_assert debug (valid_flag opts)
  ok (record {
    version = current_version;
    opts = opts;
    packet_type = PacketType.host;
    control_type = host_control HostControlType.hello;
    reserved = reserved;
    proposed_session_id = session;
    handshake_id = handshake;
    timestamp = now;
    public_key = key;
    app_id = app;
  })

-- `TrackRequestPacket::request_track`
unfoldable pub track_request_packet_request_track :
    Bool → ℕ → ℕ → ℕ → Bytes → Outcome TrackRequestPacket
unfolding current_version set_flag valid_flag
track_request_packet_request_track debug now opts session track = do
  let opts_ = set_flag opts OptionFlags.require_ack
  debug_assert debug (valid_flag opts_)
  ok (record {
    version = current_version;
    opts = opts_;
    packet_type = PacketType.session;
    control_type = session_control SessionControlType.track_request;
    reserved = reserved;
    session_id = session;
    timestamp = now;
    payload = track;
  })

-- `TrackRequestPacket::request_metadata`
unfoldable pub track_request_packet_request_metadata :
    Bool → ℕ → ℕ → ℕ → Bytes → Outcome TrackRequestPacket
unfolding current_version set_flag valid_flag
track_request_packet_request_metadata debug now opts session bytes = do
  payload_ ← payload_field_new debug bytes
  debug_assert debug (ltb (length payload_) max_payload_length)
  let opts_ = set_flag opts OptionFlags.require_ack
  debug_assert debug (valid_flag opts_)
  ok (record {
    version = current_version;
    opts = opts_;
    packet_type = PacketType.session;
    control_type = session_control SessionControlType.metadata_request;
    reserved = reserved;
    session_id = session;
    timestamp = now;
    payload = payload_;
  })

-- `PlaybackControlPacket::new`
unfoldable pub playback_control_packet_new :
    Bool → ℕ → ℕ → ℕ → PlaybackControlType → Option ℕ → Outcome PlaybackControlPacket
unfolding current_version set_flag valid_flag
playback_control_packet_new debug now opts session playback seek_pos = do
  let opts_ = set_flag opts OptionFlags.require_ack
  debug_assert debug (valid_flag opts_)
  ok (record {
    version = current_version;
    opts = opts_;
    packet_type = PacketType.playback;
    control_type = playback;
    reserved = reserved;
    session_id = session;
    timestamp = now;
    seek_position = elim seek_pos [ none ↦ 0 | some p ↦ p ];
  })

-- `PlaybackControlPacket::close`
unfoldable pub playback_control_packet_close : Bool → ℕ → ℕ → ℕ → Outcome PlaybackControlPacket
unfolding playback_control_packet_new
playback_control_packet_close debug now opts session =
    playback_control_packet_new debug now opts session PlaybackControlType.close none

-- `PlaybackControlPacket::done`
unfoldable pub playback_control_packet_done : Bool → ℕ → ℕ → ℕ → Outcome PlaybackControlPacket
unfolding playback_control_packet_new
playback_control_packet_done debug now opts session =
    playback_control_packet_new debug now opts session PlaybackControlType.done none

-- `AckPacket::new`
unfoldable pub ack_packet_new : Bool → ℕ → ℕ → ℕ → Bytes → Outcome AckPacket
unfolding current_version contains_flag valid_flag
ack_packet_new debug now opts session print = do
  debug_assert debug (not (contains_flag opts OptionFlags.require_ack))
  debug_assert debug (valid_flag opts)
  ok (record {
    version = current_version;
    opts = opts;
    packet_type = PacketType.ack;
    reserved = reserved;
    session_id = session;
    timestamp = now;
    fingerprint = print;
  })

-- `KeepAlivePacket::new`
unfoldable pub keep_alive_packet_new : Bool → ℕ → ℕ → ℕ → Outcome KeepAlivePacket
unfolding current_version unset_flag
keep_alive_packet_new _ now opts session = do
  let opts_ = unset_flag opts OptionFlags.require_ack
  ok (record {
    version = current_version;
    opts = opts_;
    packet_type = PacketType.keep_alive;
    reserved = reserved;
    session_id = session;
    timestamp = now;
    address = none;
  })

-- `HandshakeAckPacket::new`
unfoldable pub handshake_ack_packet_new : Bool → ℕ → ℕ → ℕ → Outcome HandshakeAckPacket
unfolding current_version
handshake_ack_packet_new _ now session handshake = do
  ok (record {
    version = current_version;
    opts = no_options;
    packet_type = PacketType.handshake_ack;
    reserved = reserved;
    session_id = session;
    timestamp = now;
    handshake_id = handshake;
  })

-- `CloseSessionPacket::new`
unfoldable pub close_session_packet_new : Bool → ℕ → ℕ → ℕ → Outcome CloseSessionPacket
unfolding current_version set_flag
close_session_packet_new _ now opts session = do
  let opts_ = set_flag opts OptionFlags.require_ack
  ok (record {
    version = current_version;
    opts = opts_;
    packet_type = PacketType.session;
    control_type = session_control SessionControlType.close;
    reserved = reserved;
    session_id = session;
    timestamp = now;
  })

-- `HandshakeRejection::new`
unfoldable pub handshake_rejection_new :
    Bool → ℕ → ℕ → ℕ → HandshakeRejectionReason → ℕ → Outcome HandshakeRejection
unfolding current_version unset_flag
handshake_rejection_new _ now opts session why handshake = do
  let opts_ = unset_flag opts OptionFlags.require_ack
  ok (record {
    version = current_version;
    opts = opts_;
    packet_type = PacketType.host;
    control_type = host_control HostControlType.handshake_reject;
    reserved = reserved;
    session_id = session;
    timestamp = now;
    handshake_id = handshake;
    reason = why;
  })

-- `SessionDoesNotExistErrorPacket::new`
unfoldable pub session_does_not_exist_error_packet_new :
    Bool → ℕ → ℕ → ℕ → Outcome SessionDoesNotExistErrorPacket
unfolding current_version valid_flag
session_does_not_exist_error_packet_new debug now opts session = do
  debug_assert debug (valid_flag opts)
  ok (record {
    version = current_version;
    opts = opts;
    packet_type = PacketType.error;
    error_type = ErrorType.session_does_not_exist;
    reserved = reserved;
    session_id = session;
    timestamp = now;
  })

-- `TrackRejectionPacket::new`
unfoldable pub track_rejection_packet_new : Bool → ℕ → ℕ → ℕ → Bytes → Outcome TrackRejectionPacket
unfolding current_version set_flag valid_flag
track_rejection_packet_new debug now opts session track = do
  debug_assert debug (valid_flag opts)
  let opts_ = set_flag opts OptionFlags.require_ack
  payload_ ← payload_field_new debug track
  ok (record {
    version = current_version;
    opts = opts_;
    packet_type = PacketType.session;
    control_type = session_control SessionControlType.track_reject;
    reserved = reserved;
    session_id = session;
    timestamp = now;
    payload = payload_;
  })

-- `IncompatibleVersionPacket::packet`
unfoldable pub incompatible_version_packet : IncompatibleVersionPacket
unfolding version_new min_compatible_version
incompatible_version_packet = record {
  zero_version = version_new 0 0 0;
  min_version = min_compatible_version;
}
