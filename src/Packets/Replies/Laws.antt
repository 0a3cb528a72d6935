-- ===== src/Packets/Replies/Laws.antt =====
-- The layout on the wire of the packets of Packets/Replies.antt: when the values fit their fields, and
-- the bytes of each packet, field by field.
use ubass_rs.Base.{◌^◌, ◌<◌, ◌≡◌, refl, false, none, [], ◌++◌, length, replicate}
use ubass_rs.Wire.Codec.{Bytes, to_be_bytes}
use ubass_rs.Wire.Laws.{Lawful, reserved_bytes-Lawful}
use ubass_rs.Wire.Structs.{last-Lawful, ⨟-Lawful, derive_struct-Lawful}
use ubass_rs.Packets.Kinds.Laws.{packet_type_byte, packet_type-Lawful}
use ubass_rs.Packets.Kinds.Laws.{IsReadable}
use ubass_rs.Packets.Kinds.Laws.{error_type_byte, error_type-Lawful}
use ubass_rs.Packets.Scalars.Laws.{number-Lawful, bytes-Lawful}
use ubass_rs.Packets.Scalars.Laws.{optional_socket_addr-Lawful}
use ubass_rs.Packets.Replies.{AckPacket, ack_packet_split, ack_packet_build, ack_packet_codec}
use ubass_rs.Packets.Replies.{
  KeepAlivePacket, keep_alive_packet_split, keep_alive_packet_build, keep_alive_packet_codec,
}
use ubass_rs.Packets.Replies.{
  SessionDoesNotExistErrorPacket, session_does_not_exist_error_packet_split,
  session_does_not_exist_error_packet_build, session_does_not_exist_error_packet_codec,
}
use ubass_rs.Packets.Replies.{
  UnexpectedPacketErrorPacket, unexpected_packet_error_packet_split,
  unexpected_packet_error_packet_build, unexpected_packet_error_packet_codec,
}

abbrev pub IsAckPacket : AckPacket → Type 0
IsAckPacket p =
    (p.version < 256 ^ 2)
    × ((p.opts < 256 ^ 2)
        × ((Unit {0})
            × ((Unit {0})
                × ((p.session_id < 256 ^ 8)
                    × ((p.timestamp < 256 ^ 8) × (length p.fingerprint ≡ 16))))))

abbrev pub ack_packet_bytes : AckPacket → Bytes
ack_packet_bytes p =
    (to_be_bytes 2 p.version)
    ++ ((to_be_bytes 2 p.opts)
        ++ ((packet_type_byte p.packet_type)
            ++ ((replicate 3 0)
                ++ ((to_be_bytes 8 p.session_id)
                    ++ ((to_be_bytes 8 p.timestamp) ++ p.fingerprint)))))

pub ack_packet_codec-Lawful : Lawful false ack_packet_codec IsAckPacket ack_packet_bytes
ack_packet_codec-Lawful =
    derive_struct-Lawful
      (⨟-Lawful (number-Lawful 2) (
        ⨟-Lawful (number-Lawful 2) (
          ⨟-Lawful packet_type-Lawful (
            ⨟-Lawful (reserved_bytes-Lawful 3) (
              ⨟-Lawful (number-Lawful 8)
                (⨟-Lawful (number-Lawful 8) (last-Lawful (bytes-Lawful 16))))))))
      ack_packet_split ack_packet_build (λ p. refl)

abbrev pub IsKeepAlivePacket : KeepAlivePacket → Type 0
IsKeepAlivePacket p =
    (p.version < 256 ^ 2)
    × ((p.opts < 256 ^ 2)
        × ((Unit {0})
            × ((Unit {0})
                × ((p.session_id < 256 ^ 8) × ((p.timestamp < 256 ^ 8) × (p.address ≡ none))))))

abbrev pub keep_alive_packet_bytes : KeepAlivePacket → Bytes
keep_alive_packet_bytes p =
    (to_be_bytes 2 p.version)
    ++ ((to_be_bytes 2 p.opts)
        ++ ((packet_type_byte p.packet_type)
            ++ ((replicate 3 0)
                ++ ((to_be_bytes 8 p.session_id) ++ ((to_be_bytes 8 p.timestamp) ++ [])))))

pub keep_alive_packet_codec-Lawful :
    Lawful false keep_alive_packet_codec IsKeepAlivePacket keep_alive_packet_bytes
keep_alive_packet_codec-Lawful =
    derive_struct-Lawful
      (⨟-Lawful (number-Lawful 2) (
        ⨟-Lawful (number-Lawful 2) (
          ⨟-Lawful packet_type-Lawful (
            ⨟-Lawful (reserved_bytes-Lawful 3) (
              ⨟-Lawful (number-Lawful 8)
                (⨟-Lawful (number-Lawful 8) (last-Lawful optional_socket_addr-Lawful)))))))
      keep_alive_packet_split keep_alive_packet_build (λ p. refl)

abbrev pub IsSessionDoesNotExistErrorPacket : SessionDoesNotExistErrorPacket → Type 0
IsSessionDoesNotExistErrorPacket p =
    (p.version < 256 ^ 2)
    × ((p.opts < 256 ^ 2)
        × ((Unit {0})
            × ((IsReadable p.error_type)
                × ((Unit {0}) × ((p.session_id < 256 ^ 8) × (p.timestamp < 256 ^ 8))))))

abbrev pub session_does_not_exist_error_packet_bytes : SessionDoesNotExistErrorPacket → Bytes
session_does_not_exist_error_packet_bytes p =
    (to_be_bytes 2 p.version)
    ++ ((to_be_bytes 2 p.opts)
        ++ ((packet_type_byte p.packet_type)
            ++ ((error_type_byte p.error_type)
                ++ ((replicate 2 0)
                    ++ ((to_be_bytes 8 p.session_id) ++ (to_be_bytes 8 p.timestamp))))))

pub session_does_not_exist_error_packet_codec-Lawful :
    Lawful false session_does_not_exist_error_packet_codec IsSessionDoesNotExistErrorPacket
      session_does_not_exist_error_packet_bytes
session_does_not_exist_error_packet_codec-Lawful =
    derive_struct-Lawful
      (⨟-Lawful (number-Lawful 2) (
        ⨟-Lawful (number-Lawful 2) (
          ⨟-Lawful packet_type-Lawful (
            ⨟-Lawful error_type-Lawful (
              ⨟-Lawful (reserved_bytes-Lawful 2)
                (⨟-Lawful (number-Lawful 8) (last-Lawful (number-Lawful 8))))))))
      session_does_not_exist_error_packet_split session_does_not_exist_error_packet_build
      (λ p. refl)

abbrev pub IsUnexpectedPacketErrorPacket : UnexpectedPacketErrorPacket → Type 0
IsUnexpectedPacketErrorPacket p =
    (p.version < 256 ^ 2)
    × ((p.opts < 256 ^ 2)
        × ((Unit {0})
            × ((IsReadable p.error_type)
                × ((Unit {0})
                    × ((p.session_id < 256 ^ 8)
                        × ((p.timestamp < 256 ^ 8)
                            × ((Unit {0})
                                × ((p.received_secondary_type < 256 ^ 2)
                                    × (length p.received_fingerprint ≡ 16)))))))))

abbrev pub unexpected_packet_error_packet_bytes : UnexpectedPacketErrorPacket → Bytes
unexpected_packet_error_packet_bytes p =
    (to_be_bytes 2 p.version)
    ++ ((to_be_bytes 2 p.opts)
        ++ ((packet_type_byte p.packet_type)
            ++ ((error_type_byte p.error_type)
                ++ ((replicate 2 0)
                    ++ ((to_be_bytes 8 p.session_id)
                        ++ ((to_be_bytes 8 p.timestamp)
                            ++ ((packet_type_byte p.received_packet_type)
                                ++ ((to_be_bytes 2 p.received_secondary_type)
                                    ++ p.received_fingerprint))))))))

pub unexpected_packet_error_packet_codec-Lawful :
    Lawful false unexpected_packet_error_packet_codec IsUnexpectedPacketErrorPacket
      unexpected_packet_error_packet_bytes
unexpected_packet_error_packet_codec-Lawful =
    derive_struct-Lawful
      (⨟-Lawful (number-Lawful 2) (
        ⨟-Lawful (number-Lawful 2) (
          ⨟-Lawful packet_type-Lawful (
            ⨟-Lawful error_type-Lawful (
              ⨟-Lawful (reserved_bytes-Lawful 2) (
                ⨟-Lawful (number-Lawful 8) (
                  ⨟-Lawful (number-Lawful 8) (
                    ⨟-Lawful packet_type-Lawful
                      (⨟-Lawful (number-Lawful 2) (last-Lawful (bytes-Lawful 16)))))))))))
      unexpected_packet_error_packet_split unexpected_packet_error_packet_build (λ p. refl)
