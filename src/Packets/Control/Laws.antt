-- ===== src/Packets/Control/Laws.antt =====
-- The layout on the wire of the packets of Packets/Control.antt: when the values fit their fields, and
-- the bytes of each packet, field by field.
use ubass_rs.Base.{◌^◌, ◌<◌, refl, true, false, ◌++◌, replicate}
use ubass_rs.Wire.Codec.{Bytes, to_be_bytes}
use ubass_rs.Wire.Laws.{Lawful, reserved_bytes-Lawful}
use ubass_rs.Wire.Structs.{last-Lawful, payload-Lawful, ⨟-Lawful, derive_struct-Lawful}
use ubass_rs.Packets.Kinds.Laws.{
  packet_type_byte, packet_type-Lawful, control_type_byte, control_type-Lawful,
}
use ubass_rs.Packets.Kinds.Laws.{playback_control_type_byte, playback_control_type-Lawful}
use ubass_rs.Packets.Scalars.Laws.{number-Lawful, payload_field-Lawful}
use ubass_rs.Packets.Control.{
  TrackRequestPacket, track_request_packet_split, track_request_packet_build,
  track_request_packet_codec,
}
use ubass_rs.Packets.Control.{
  PlaybackControlPacket, playback_control_packet_split, playback_control_packet_build,
  playback_control_packet_codec,
}
use ubass_rs.Packets.Control.{
  CloseSessionPacket, close_session_packet_split, close_session_packet_build,
  close_session_packet_codec,
}
use ubass_rs.Packets.Control.{
  TrackRejectionPacket, track_rejection_packet_split, track_rejection_packet_build,
  track_rejection_packet_codec,
}

abbrev pub IsTrackRequestPacket : TrackRequestPacket → Type 0
IsTrackRequestPacket p =
    (p.version < 256 ^ 2)
    × ((p.opts < 256 ^ 2)
        × ((Unit {0})
            × ((Unit {0})
                × ((Unit {0})
                    × ((p.session_id < 256 ^ 8) × ((p.timestamp < 256 ^ 8) × (Unit {0})))))))

abbrev pub track_request_packet_bytes : TrackRequestPacket → Bytes
track_request_packet_bytes p =
    (to_be_bytes 2 p.version)
    ++ ((to_be_bytes 2 p.opts)
        ++ ((packet_type_byte p.packet_type)
            ++ ((control_type_byte p.control_type)
                ++ ((replicate 2 0)
                    ++ ((to_be_bytes 8 p.session_id)
                        ++ ((to_be_bytes 8 p.timestamp) ++ p.payload))))))

pub track_request_packet_codec-Lawful :
    Lawful true track_request_packet_codec IsTrackRequestPacket track_request_packet_bytes
track_request_packet_codec-Lawful =
    derive_struct-Lawful
      (⨟-Lawful (number-Lawful 2) (
        ⨟-Lawful (number-Lawful 2) (
          ⨟-Lawful packet_type-Lawful (
            ⨟-Lawful control_type-Lawful (
              ⨟-Lawful (reserved_bytes-Lawful 2) (
                ⨟-Lawful (number-Lawful 8)
                  (⨟-Lawful (number-Lawful 8) (payload-Lawful payload_field-Lawful))))))))
      track_request_packet_split track_request_packet_build (λ p. refl)

abbrev pub IsPlaybackControlPacket : PlaybackControlPacket → Type 0
IsPlaybackControlPacket p =
    (p.version < 256 ^ 2)
    × ((p.opts < 256 ^ 2)
        × ((Unit {0})
            × ((Unit {0})
                × ((Unit {0})
                    × ((p.session_id < 256 ^ 8)
                        × ((p.timestamp < 256 ^ 8) × (p.seek_position < 256 ^ 4)))))))

abbrev pub playback_control_packet_bytes : PlaybackControlPacket → Bytes
playback_control_packet_bytes p =
    (to_be_bytes 2 p.version)
    ++ ((to_be_bytes 2 p.opts)
        ++ ((packet_type_byte p.packet_type)
            ++ ((playback_control_type_byte p.control_type)
                ++ ((replicate 2 0)
                    ++ ((to_be_bytes 8 p.session_id)
                        ++ ((to_be_bytes 8 p.timestamp) ++ (to_be_bytes 4 p.seek_position)))))))

pub playback_control_packet_codec-Lawful :
    Lawful false playback_control_packet_codec IsPlaybackControlPacket playback_control_packet_bytes
playback_control_packet_codec-Lawful =
    derive_struct-Lawful
      (⨟-Lawful (number-Lawful 2) (
        ⨟-Lawful (number-Lawful 2) (
          ⨟-Lawful packet_type-Lawful (
            ⨟-Lawful playback_control_type-Lawful (
              ⨟-Lawful (reserved_bytes-Lawful 2) (
                ⨟-Lawful (number-Lawful 8)
                  (⨟-Lawful (number-Lawful 8) (last-Lawful (number-Lawful 4)))))))))
      playback_control_packet_split playback_control_packet_build (λ p. refl)

abbrev pub IsCloseSessionPacket : CloseSessionPacket → Type 0
IsCloseSessionPacket p =
    (p.version < 256 ^ 2)
    × ((p.opts < 256 ^ 2)
        × ((Unit {0})
            × ((Unit {0}) × ((Unit {0}) × ((p.session_id < 256 ^ 8) × (p.timestamp < 256 ^ 8))))))

abbrev pub close_session_packet_bytes : CloseSessionPacket → Bytes
close_session_packet_bytes p =
    (to_be_bytes 2 p.version)
    ++ ((to_be_bytes 2 p.opts)
        ++ ((packet_type_byte p.packet_type)
            ++ ((control_type_byte p.control_type)
                ++ ((replicate 2 0)
                    ++ ((to_be_bytes 8 p.session_id) ++ (to_be_bytes 8 p.timestamp))))))

pub close_session_packet_codec-Lawful :
    Lawful false close_session_packet_codec IsCloseSessionPacket close_session_packet_bytes
close_session_packet_codec-Lawful =
    derive_struct-Lawful
      (⨟-Lawful (number-Lawful 2) (
        ⨟-Lawful (number-Lawful 2) (
          ⨟-Lawful packet_type-Lawful (
            ⨟-Lawful control_type-Lawful (
              ⨟-Lawful (reserved_bytes-Lawful 2)
                (⨟-Lawful (number-Lawful 8) (last-Lawful (number-Lawful 8))))))))
      close_session_packet_split close_session_packet_build (λ p. refl)

abbrev pub IsTrackRejectionPacket : TrackRejectionPacket → Type 0
IsTrackRejectionPacket p =
    (p.version < 256 ^ 2)
    × ((p.opts < 256 ^ 2)
        × ((Unit {0})
            × ((Unit {0})
                × ((Unit {0})
                    × ((p.session_id < 256 ^ 8) × ((p.timestamp < 256 ^ 8) × (Unit {0})))))))

abbrev pub track_rejection_packet_bytes : TrackRejectionPacket → Bytes
track_rejection_packet_bytes p =
    (to_be_bytes 2 p.version)
    ++ ((to_be_bytes 2 p.opts)
        ++ ((packet_type_byte p.packet_type)
            ++ ((control_type_byte p.control_type)
                ++ ((replicate 2 0)
                    ++ ((to_be_bytes 8 p.session_id)
                        ++ ((to_be_bytes 8 p.timestamp) ++ p.payload))))))

pub track_rejection_packet_codec-Lawful :
    Lawful true track_rejection_packet_codec IsTrackRejectionPacket track_rejection_packet_bytes
track_rejection_packet_codec-Lawful =
    derive_struct-Lawful
      (⨟-Lawful (number-Lawful 2) (
        ⨟-Lawful (number-Lawful 2) (
          ⨟-Lawful packet_type-Lawful (
            ⨟-Lawful control_type-Lawful (
              ⨟-Lawful (reserved_bytes-Lawful 2) (
                ⨟-Lawful (number-Lawful 8)
                  (⨟-Lawful (number-Lawful 8) (payload-Lawful payload_field-Lawful))))))))
      track_rejection_packet_split track_rejection_packet_build (λ p. refl)
