-- ===== src/Packets/Kinds/Laws.antt =====
-- The one-byte enums keep the promise of `Serialize`.
use ubass_rs.Base.{ℕ, ◌^◌, ◌<◌, ◌≡◌, refl, arith, false, ◌++◌, ◌≤◌, length, drop}
use ubass_rs.Base.Outcome.{ok}
use ubass_rs.Wire.Codec.{Bytes, uint, to_be_bytes}
use ubass_rs.Wire.Derive.{enum_variants, match_variant}
use ubass_rs.Wire.Laws.{Lawful, Lawful-rename, uint-Lawful}
use ubass_rs.Wire.Enums.{derive_enum-Lawful}
use ubass_rs.Packets.Kinds.{PacketType, packet_type, packet_type_variants, packet_type_discriminant}
use ubass_rs.Packets.Kinds.{
  HostControlType, host_control_type, host_control_type_variants, host_control_type_discriminant,
}
use ubass_rs.Packets.Kinds.{
  SessionControlType, session_control_type, session_control_type_variants,
  session_control_type_discriminant,
}
use ubass_rs.Packets.Kinds.{
  PlaybackControlType, playback_control_type, playback_control_type_variants,
  playback_control_type_discriminant,
}
use ubass_rs.Packets.Kinds.{
  HandshakeRejectionReason, handshake_rejection_reason, handshake_rejection_reason_variants,
  handshake_rejection_reason_discriminant,
}
use ubass_rs.Packets.Kinds.{ErrorType, error_type, error_type_variants, error_type_discriminant}
use ubass_rs.Packets.Kinds.{
  ControlType, control_type, host_control, session_control, playback_control, or_session,
}

abbrev pub packet_type_byte : PacketType → Bytes
packet_type_byte v = to_be_bytes 1 (packet_type_discriminant v)

packet_type_found :
    (v : PacketType)
    → (match_variant (packet_type_discriminant v) (enum_variants packet_type_variants) ≡ ok v)
      × (packet_type_discriminant v < 256 ^ 1)
unfolding match_variant enum_variants
packet_type_found PacketType.data_type = (refl, omega arith)
packet_type_found PacketType.metadata = (refl, omega arith)
packet_type_found PacketType.parity = (refl, omega arith)
packet_type_found PacketType.ack = (refl, omega arith)
packet_type_found PacketType.handshake_ack = (refl, omega arith)
packet_type_found PacketType.host = (refl, omega arith)
packet_type_found PacketType.session = (refl, omega arith)
packet_type_found PacketType.playback = (refl, omega arith)
packet_type_found PacketType.error = (refl, omega arith)
packet_type_found PacketType.keep_alive = (refl, omega arith)

pub packet_type-Lawful : Lawful false packet_type (λ v. Unit {0}) packet_type_byte
packet_type-Lawful =
    Lawful-rename (λ v h. (packet_type_found v, refl))
      (derive_enum-Lawful 1 packet_type_discriminant packet_type_variants)

abbrev pub host_control_type_byte : HostControlType → Bytes
host_control_type_byte v = to_be_bytes 1 (host_control_type_discriminant v)

host_control_type_found :
    (v : HostControlType)
    → (match_variant (host_control_type_discriminant v) (enum_variants host_control_type_variants)
        ≡ ok v)
      × (host_control_type_discriminant v < 256 ^ 1)
unfolding match_variant enum_variants
host_control_type_found HostControlType.hello = (refl, omega arith)
host_control_type_found HostControlType.handshake_reject = (refl, omega arith)

pub host_control_type-Lawful : Lawful false host_control_type (λ v. Unit {0}) host_control_type_byte
host_control_type-Lawful =
    Lawful-rename (λ v h. (host_control_type_found v, refl))
      (derive_enum-Lawful 1 host_control_type_discriminant host_control_type_variants)

abbrev pub session_control_type_byte : SessionControlType → Bytes
session_control_type_byte v = to_be_bytes 1 (session_control_type_discriminant v)

session_control_type_found :
    (v : SessionControlType)
    → (match_variant
          (session_control_type_discriminant v)
          (enum_variants session_control_type_variants)
        ≡ ok v)
      × (session_control_type_discriminant v < 256 ^ 1)
unfolding match_variant enum_variants
session_control_type_found SessionControlType.retransmit = (refl, omega arith)
session_control_type_found SessionControlType.track_request = (refl, omega arith)
session_control_type_found SessionControlType.metadata_request = (refl, omega arith)
session_control_type_found SessionControlType.track_reject = (refl, omega arith)
session_control_type_found SessionControlType.close = (refl, omega arith)

pub session_control_type-Lawful :
    Lawful false session_control_type (λ v. Unit {0}) session_control_type_byte
session_control_type-Lawful =
    Lawful-rename (λ v h. (session_control_type_found v, refl))
      (derive_enum-Lawful 1 session_control_type_discriminant session_control_type_variants)

abbrev pub playback_control_type_byte : PlaybackControlType → Bytes
playback_control_type_byte v = to_be_bytes 1 (playback_control_type_discriminant v)

playback_control_type_found :
    (v : PlaybackControlType)
    → (match_variant
          (playback_control_type_discriminant v)
          (enum_variants playback_control_type_variants)
        ≡ ok v)
      × (playback_control_type_discriminant v < 256 ^ 1)
unfolding match_variant enum_variants
playback_control_type_found PlaybackControlType.play = (refl, omega arith)
playback_control_type_found PlaybackControlType.pause = (refl, omega arith)
playback_control_type_found PlaybackControlType.close = (refl, omega arith)
playback_control_type_found PlaybackControlType.done = (refl, omega arith)
playback_control_type_found PlaybackControlType.seek = (refl, omega arith)

pub playback_control_type-Lawful :
    Lawful false playback_control_type (λ v. Unit {0}) playback_control_type_byte
playback_control_type-Lawful =
    Lawful-rename (λ v h. (playback_control_type_found v, refl))
      (derive_enum-Lawful 1 playback_control_type_discriminant playback_control_type_variants)

abbrev pub handshake_rejection_reason_byte : HandshakeRejectionReason → Bytes
handshake_rejection_reason_byte v = to_be_bytes 1 (handshake_rejection_reason_discriminant v)

handshake_rejection_reason_found :
    (v : HandshakeRejectionReason)
    → (match_variant
          (handshake_rejection_reason_discriminant v)
          (enum_variants handshake_rejection_reason_variants)
        ≡ ok v)
      × (handshake_rejection_reason_discriminant v < 256 ^ 1)
unfolding match_variant enum_variants
handshake_rejection_reason_found HandshakeRejectionReason.app = (refl, omega arith)
handshake_rejection_reason_found HandshakeRejectionReason.id_collision = (refl, omega arith)

pub handshake_rejection_reason-Lawful :
    Lawful false handshake_rejection_reason (λ v. Unit {0}) handshake_rejection_reason_byte
handshake_rejection_reason-Lawful =
    Lawful-rename (λ v h. (handshake_rejection_reason_found v, refl))
      (derive_enum-Lawful 1 handshake_rejection_reason_discriminant
        handshake_rejection_reason_variants)

-- The variants of `ErrorType` that the derived `deserialize` finds.
abbrev pub IsReadable : ErrorType → Type 0
IsReadable ErrorType.session_does_not_exist = ⊥
IsReadable v = Unit

abbrev pub error_type_byte : ErrorType → Bytes
error_type_byte v = to_be_bytes 1 (error_type_discriminant v)

error_type_found :
    (v : ErrorType)
    → IsReadable v
    → (match_variant (error_type_discriminant v) (enum_variants error_type_variants) ≡ ok v)
      × (error_type_discriminant v < 256 ^ 1)
unfolding match_variant enum_variants
error_type_found ErrorType.unexpected_packet h = (refl, omega arith)
error_type_found ErrorType.incomprehensible_packet h = (refl, omega arith)
error_type_found ErrorType.session_does_not_exist h = elim h [ ]

pub error_type-Lawful : Lawful false error_type IsReadable error_type_byte
error_type-Lawful =
    Lawful-rename (λ v h. (error_type_found v h, refl))
      (derive_enum-Lawful 1 error_type_discriminant error_type_variants)

abbrev pub control_type_byte : ControlType → Bytes
control_type_byte (host_control t) = host_control_type_byte t
control_type_byte (session_control t) = session_control_type_byte t
control_type_byte (playback_control t) = playback_control_type_byte t

-- What the three derived `deserialize` read first.
byte_read : (d : ℕ) (rest : Bytes) → d < 256 → (uint 1).deserialize (to_be_bytes 1 d ++ rest) ≡ ok d
byte_read d rest h = (uint-Lawful 1).reads d rest h tt

control_type_reads :
    (t : ControlType) (rest : Bytes) → control_type.deserialize (control_type_byte t ++ rest) ≡ ok t
unfolding match_variant enum_variants
control_type_reads (host_control t) rest = rw (host_control_type-Lawful.reads t rest tt tt)
control_type_reads (session_control SessionControlType.retransmit) rest =
    rw (byte_read 1 rest (omega arith), or_session) (rw (byte_read 1 rest (omega arith)))
control_type_reads (session_control SessionControlType.track_request) rest =
    rw (byte_read 2 rest (omega arith), or_session) (rw (byte_read 2 rest (omega arith)))
control_type_reads (session_control SessionControlType.metadata_request) rest =
    rw (byte_read 3 rest (omega arith), or_session) (rw (byte_read 3 rest (omega arith)))
control_type_reads (session_control SessionControlType.track_reject) rest =
    rw (byte_read 4 rest (omega arith), or_session) (rw (byte_read 4 rest (omega arith)))
control_type_reads (session_control SessionControlType.close) rest =
    rw (byte_read 5 rest (omega arith), or_session) (rw (byte_read 5 rest (omega arith)))
control_type_reads (playback_control PlaybackControlType.play) rest =
    simp (byte_read 101 rest (omega arith))
control_type_reads (playback_control PlaybackControlType.pause) rest =
    simp (byte_read 102 rest (omega arith))
control_type_reads (playback_control PlaybackControlType.close) rest =
    simp (byte_read 103 rest (omega arith))
control_type_reads (playback_control PlaybackControlType.done) rest =
    simp (byte_read 104 rest (omega arith))
control_type_reads (playback_control PlaybackControlType.seek) rest =
    simp (byte_read 105 rest (omega arith))

pub control_type-Lawful : Lawful false control_type (λ v. Unit {0}) control_type_byte
control_type-Lawful = record {
  size = size;
  writes = writes;
  reads = λ t rest h _. control_type_reads t rest;
}
  where
    size : (t : ControlType) → Unit {0} → length (control_type_byte t) ≡ 1
    size (host_control t) h = host_control_type-Lawful.size t tt
    size (session_control t) h = session_control_type-Lawful.size t tt
    size (playback_control t) h = playback_control_type-Lawful.size t tt

    writes :
        (t : ControlType) (buf : Bytes)
        → Unit {0}
        → 1 ≤ length buf
        → control_type.serialize t buf ≡ ok (control_type_byte t ++ drop 1 buf)
    writes (host_control t) buf h room = host_control_type-Lawful.writes t buf tt room
    writes (session_control t) buf h room = session_control_type-Lawful.writes t buf tt room
    writes (playback_control t) buf h room = playback_control_type-Lawful.writes t buf tt room
