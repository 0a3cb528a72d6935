-- ===== src/Packets/Handshake/Laws.antt =====
-- The layout on the wire of the packets of Packets/Handshake.antt: when the values fit their fields, and
-- the bytes of each packet, field by field.
use ubass_rs.Base.{◌^◌, ◌<◌, ◌≡◌, refl, Bool, true, false, ◌++◌, length, replicate}
use ubass_rs.Wire.Codec.{Bytes, to_be_bytes}
use ubass_rs.Wire.Laws.{Lawful, reserved_bytes-Lawful}
use ubass_rs.Wire.Structs.{last-Lawful, ⨟-Lawful, derive_struct-Lawful}
use ubass_rs.Packets.Kinds.Laws.{
  packet_type_byte, packet_type-Lawful, control_type_byte, control_type-Lawful,
}
use ubass_rs.Packets.Kinds.Laws.{handshake_rejection_reason_byte, handshake_rejection_reason-Lawful}
use ubass_rs.Packets.Scalars.{is_ascii}
use ubass_rs.Packets.Scalars.Laws.{number-Lawful, bytes-Lawful}
use ubass_rs.Packets.Scalars.Laws.{app_id-Lawful}
use ubass_rs.Packets.Handshake.{
  HelloPacket, hello_packet_split, hello_packet_build, hello_packet_codec,
}
use ubass_rs.Packets.Handshake.{
  HandshakeAckPacket, handshake_ack_packet_split, handshake_ack_packet_build,
  handshake_ack_packet_codec,
}
use ubass_rs.Packets.Handshake.{
  HandshakeRejection, handshake_rejection_split, handshake_rejection_build,
  handshake_rejection_codec,
}
use ubass_rs.Packets.Handshake.{
  IncompatibleVersionPacket, incompatible_version_packet_split, incompatible_version_packet_build,
  incompatible_version_packet_codec,
}

abbrev pub IsHelloPacket : HelloPacket → Type 0
IsHelloPacket p =
    (p.version < 256 ^ 2)
    × ((p.opts < 256 ^ 2)
        × ((Unit {0})
            × ((Unit {0})
                × ((Unit {0})
                    × ((p.proposed_session_id < 256 ^ 8)
                        × ((p.handshake_id < 256 ^ 4)
                            × ((p.timestamp < 256 ^ 8)
                                × ((length p.public_key ≡ 32)
                                    × ((is_ascii p.app_id ≡ true) × (length p.app_id < 512))))))))))

abbrev pub hello_packet_bytes : HelloPacket → Bytes
hello_packet_bytes p =
    (to_be_bytes 2 p.version)
    ++ ((to_be_bytes 2 p.opts)
        ++ ((packet_type_byte p.packet_type)
            ++ ((control_type_byte p.control_type)
                ++ ((replicate 2 0)
                    ++ ((to_be_bytes 8 p.proposed_session_id)
                        ++ ((to_be_bytes 4 p.handshake_id)
                            ++ ((to_be_bytes 8 p.timestamp) ++ (p.public_key ++ p.app_id))))))))

pub hello_packet_codec-Lawful :
    (debug : Bool) → Lawful true (hello_packet_codec debug) IsHelloPacket hello_packet_bytes
hello_packet_codec-Lawful debug =
    derive_struct-Lawful
      (⨟-Lawful (number-Lawful 2) (
        ⨟-Lawful (number-Lawful 2) (
          ⨟-Lawful packet_type-Lawful (
            ⨟-Lawful control_type-Lawful (
              ⨟-Lawful (reserved_bytes-Lawful 2) (
                ⨟-Lawful (number-Lawful 8) (
                  ⨟-Lawful (number-Lawful 4) (
                    ⨟-Lawful (number-Lawful 8)
                      (⨟-Lawful (bytes-Lawful 32) (last-Lawful (app_id-Lawful debug)))))))))))
      hello_packet_split hello_packet_build (λ p. refl)

abbrev pub IsHandshakeAckPacket : HandshakeAckPacket → Type 0
IsHandshakeAckPacket p =
    (p.version < 256 ^ 2)
    × ((p.opts < 256 ^ 2)
        × ((Unit {0})
            × ((Unit {0})
                × ((p.session_id < 256 ^ 8)
                    × ((p.timestamp < 256 ^ 8) × (p.handshake_id < 256 ^ 4))))))

abbrev pub handshake_ack_packet_bytes : HandshakeAckPacket → Bytes
handshake_ack_packet_bytes p =
    (to_be_bytes 2 p.version)
    ++ ((to_be_bytes 2 p.opts)
        ++ ((packet_type_byte p.packet_type)
            ++ ((replicate 3 0)
                ++ ((to_be_bytes 8 p.session_id)
                    ++ ((to_be_bytes 8 p.timestamp) ++ (to_be_bytes 4 p.handshake_id))))))

pub handshake_ack_packet_codec-Lawful :
    Lawful false handshake_ack_packet_codec IsHandshakeAckPacket handshake_ack_packet_bytes
handshake_ack_packet_codec-Lawful =
    derive_struct-Lawful
      (⨟-Lawful (number-Lawful 2) (
        ⨟-Lawful (number-Lawful 2) (
          ⨟-Lawful packet_type-Lawful (
            ⨟-Lawful (reserved_bytes-Lawful 3) (
              ⨟-Lawful (number-Lawful 8)
                (⨟-Lawful (number-Lawful 8) (last-Lawful (number-Lawful 4))))))))
      handshake_ack_packet_split handshake_ack_packet_build (λ p. refl)

abbrev pub IsHandshakeRejection : HandshakeRejection → Type 0
IsHandshakeRejection p =
    (p.version < 256 ^ 2)
    × ((p.opts < 256 ^ 2)
        × ((Unit {0})
            × ((Unit {0})
                × ((Unit {0})
                    × ((p.session_id < 256 ^ 8)
                        × ((p.timestamp < 256 ^ 8) × ((p.handshake_id < 256 ^ 4) × (Unit {0}))))))))

abbrev pub handshake_rejection_bytes : HandshakeRejection → Bytes
handshake_rejection_bytes p =
    (to_be_bytes 2 p.version)
    ++ ((to_be_bytes 2 p.opts)
        ++ ((packet_type_byte p.packet_type)
            ++ ((control_type_byte p.control_type)
                ++ ((replicate 2 0)
                    ++ ((to_be_bytes 8 p.session_id)
                        ++ ((to_be_bytes 8 p.timestamp)
                            ++ ((to_be_bytes 4 p.handshake_id)
                                ++ (handshake_rejection_reason_byte p.reason))))))))

pub handshake_rejection_codec-Lawful :
    Lawful false handshake_rejection_codec IsHandshakeRejection handshake_rejection_bytes
handshake_rejection_codec-Lawful =
    derive_struct-Lawful
      (⨟-Lawful (number-Lawful 2) (
        ⨟-Lawful (number-Lawful 2) (
          ⨟-Lawful packet_type-Lawful (
            ⨟-Lawful control_type-Lawful (
              ⨟-Lawful (reserved_bytes-Lawful 2) (
                ⨟-Lawful (number-Lawful 8) (
                  ⨟-Lawful (number-Lawful 8) (
                    ⨟-Lawful (number-Lawful 4)
                      (last-Lawful handshake_rejection_reason-Lawful)))))))))
      handshake_rejection_split handshake_rejection_build (λ p. refl)

abbrev pub IsIncompatibleVersionPacket : IncompatibleVersionPacket → Type 0
IsIncompatibleVersionPacket p = (p.zero_version < 256 ^ 2) × (p.min_version < 256 ^ 2)

abbrev pub incompatible_version_packet_bytes : IncompatibleVersionPacket → Bytes
incompatible_version_packet_bytes p =
    (to_be_bytes 2 p.zero_version) ++ (to_be_bytes 2 p.min_version)

pub incompatible_version_packet_codec-Lawful :
    Lawful false incompatible_version_packet_codec IsIncompatibleVersionPacket
      incompatible_version_packet_bytes
incompatible_version_packet_codec-Lawful =
    derive_struct-Lawful (⨟-Lawful (number-Lawful 2) (last-Lawful (number-Lawful 2)))
      incompatible_version_packet_split incompatible_version_packet_build (λ p. refl)
