-- ===== src/Packets/Kinds.antt =====
-- The one-byte enums of src/manager/packets.rs, with the discriminants that the source writes.
-- Each has its variants as the derive macro reads them, its discriminants as the language numbers
-- them, and its implementation of `Serialize`.
pub mod Laws
pub mod Unread
use ubass_rs.Base.{ℕ, List, [], ◌∷◌, Option, none, some}
use ubass_rs.Base.Outcome.{Outcome, ok, err}
use ubass_rs.Wire.Codec.{Bytes, Serialize}
use ubass_rs.Wire.Derive.{derive_enum}

-- `enum PacketType`. Rust's `Data` is `data_type`.
pub data PacketType : Type 0 where
  data_type metadata parity ack handshake_ack host session playback error keep_alive : PacketType

abbrev pub packet_type_variants : List (PacketType × Option ℕ)
packet_type_variants =
    (PacketType.data_type, some 1)
    ∷ (PacketType.metadata, some 2)
    ∷ (PacketType.parity, some 3)
    ∷ (PacketType.ack, some 4)
    ∷ (PacketType.handshake_ack, some 5)
    ∷ (PacketType.host, some 7)
    ∷ (PacketType.session, some 8)
    ∷ (PacketType.playback, some 9)
    ∷ (PacketType.error, some 10)
    ∷ (PacketType.keep_alive, some 11)
    ∷ []

abbrev pub packet_type_discriminant : PacketType → ℕ
packet_type_discriminant PacketType.data_type = 1
packet_type_discriminant PacketType.metadata = 2
packet_type_discriminant PacketType.parity = 3
packet_type_discriminant PacketType.ack = 4
packet_type_discriminant PacketType.handshake_ack = 5
packet_type_discriminant PacketType.host = 7
packet_type_discriminant PacketType.session = 8
packet_type_discriminant PacketType.playback = 9
packet_type_discriminant PacketType.error = 10
packet_type_discriminant PacketType.keep_alive = 11

abbrev pub packet_type : Serialize PacketType
packet_type = derive_enum 1 packet_type_discriminant packet_type_variants

-- `enum HostControlType`
pub data HostControlType : Type 0 where
  hello handshake_reject : HostControlType

abbrev pub host_control_type_variants : List (HostControlType × Option ℕ)
host_control_type_variants =
    (HostControlType.hello, some 201) ∷ (HostControlType.handshake_reject, some 202) ∷ []

abbrev pub host_control_type_discriminant : HostControlType → ℕ
host_control_type_discriminant HostControlType.hello = 201
host_control_type_discriminant HostControlType.handshake_reject = 202

abbrev pub host_control_type : Serialize HostControlType
host_control_type = derive_enum 1 host_control_type_discriminant host_control_type_variants

-- `enum SessionControlType`
pub data SessionControlType : Type 0 where
  retransmit track_request metadata_request track_reject close : SessionControlType

abbrev pub session_control_type_variants : List (SessionControlType × Option ℕ)
session_control_type_variants =
    (SessionControlType.retransmit, some 1)
    ∷ (SessionControlType.track_request, some 2)
    ∷ (SessionControlType.metadata_request, some 3)
    ∷ (SessionControlType.track_reject, some 4)
    ∷ (SessionControlType.close, some 5)
    ∷ []

abbrev pub session_control_type_discriminant : SessionControlType → ℕ
session_control_type_discriminant SessionControlType.retransmit = 1
session_control_type_discriminant SessionControlType.track_request = 2
session_control_type_discriminant SessionControlType.metadata_request = 3
session_control_type_discriminant SessionControlType.track_reject = 4
session_control_type_discriminant SessionControlType.close = 5

abbrev pub session_control_type : Serialize SessionControlType
session_control_type = derive_enum 1 session_control_type_discriminant session_control_type_variants

-- `enum PlaybackControlType`
pub data PlaybackControlType : Type 0 where
  play pause close done seek : PlaybackControlType

abbrev pub playback_control_type_variants : List (PlaybackControlType × Option ℕ)
playback_control_type_variants =
    (PlaybackControlType.play, some 101)
    ∷ (PlaybackControlType.pause, some 102)
    ∷ (PlaybackControlType.close, some 103)
    ∷ (PlaybackControlType.done, some 104)
    ∷ (PlaybackControlType.seek, some 105)
    ∷ []

abbrev pub playback_control_type_discriminant : PlaybackControlType → ℕ
playback_control_type_discriminant PlaybackControlType.play = 101
playback_control_type_discriminant PlaybackControlType.pause = 102
playback_control_type_discriminant PlaybackControlType.close = 103
playback_control_type_discriminant PlaybackControlType.done = 104
playback_control_type_discriminant PlaybackControlType.seek = 105

abbrev pub playback_control_type : Serialize PlaybackControlType
playback_control_type =
    derive_enum 1 playback_control_type_discriminant playback_control_type_variants

-- `enum ErrorType`, whose last two variants have no discriminant in the source.
pub data ErrorType : Type 0 where
  unexpected_packet incomprehensible_packet session_does_not_exist : ErrorType

abbrev pub error_type_variants : List (ErrorType × Option ℕ)
error_type_variants =
    (ErrorType.unexpected_packet, some 1)
    ∷ (ErrorType.incomprehensible_packet, none)
    ∷ (ErrorType.session_does_not_exist, none)
    ∷ []

abbrev pub error_type_discriminant : ErrorType → ℕ
error_type_discriminant ErrorType.unexpected_packet = 1
error_type_discriminant ErrorType.incomprehensible_packet = 2
error_type_discriminant ErrorType.session_does_not_exist = 3

abbrev pub error_type : Serialize ErrorType
error_type = derive_enum 1 error_type_discriminant error_type_variants

-- `enum HandshakeRejectionReason`
pub data HandshakeRejectionReason : Type 0 where
  app id_collision : HandshakeRejectionReason

abbrev pub handshake_rejection_reason_variants : List (HandshakeRejectionReason × Option ℕ)
handshake_rejection_reason_variants =
    (HandshakeRejectionReason.app, some 1) ∷ (HandshakeRejectionReason.id_collision, some 2) ∷ []

abbrev pub handshake_rejection_reason_discriminant : HandshakeRejectionReason → ℕ
handshake_rejection_reason_discriminant HandshakeRejectionReason.app = 1
handshake_rejection_reason_discriminant HandshakeRejectionReason.id_collision = 2

abbrev pub handshake_rejection_reason : Serialize HandshakeRejectionReason
handshake_rejection_reason =
    derive_enum 1 handshake_rejection_reason_discriminant handshake_rejection_reason_variants

-- `enum ControlType`
pub data ControlType : Type 0 where
  host_control : HostControlType → ControlType
  session_control : SessionControlType → ControlType
  playback_control : PlaybackControlType → ControlType

abbrev pub serialize_control_type : ControlType → Bytes → Outcome Bytes
serialize_control_type (host_control t) buf = host_control_type.serialize t buf
serialize_control_type (session_control t) buf = session_control_type.serialize t buf
serialize_control_type (playback_control t) buf = playback_control_type.serialize t buf

-- `PlaybackControlType::deserialize(bytes).map(Self::Playback)`
abbrev pub as_playback : Outcome PlaybackControlType → Outcome ControlType
as_playback (ok t) = ok (playback_control t)
as_playback err = err
as_playback Outcome.panic = Outcome.panic

abbrev pub or_playback : Bytes → Outcome SessionControlType → Outcome ControlType
or_playback bytes (ok t) = ok (session_control t)
or_playback bytes err = as_playback (playback_control_type.deserialize bytes)
or_playback bytes Outcome.panic = Outcome.panic

abbrev pub or_session : Bytes → Outcome HostControlType → Outcome ControlType
or_session bytes (ok t) = ok (host_control t)
or_session bytes err = or_playback bytes (session_control_type.deserialize bytes)
or_session bytes Outcome.panic = Outcome.panic

-- The hand-written `Serialize` of `ControlType` tries the three enums in turn.
abbrev pub control_type : Serialize ControlType
control_type = record {
  serialize = serialize_control_type;
  deserialize = λ bytes. or_session bytes (host_control_type.deserialize bytes);
  sized = λ t. 1;
}
