-- ===== src/Packets/Replies/Refused.antt =====
-- The packets of Packets/Replies.antt with an error type: what the derived `serialize` writes for any of
-- the error types, and that the derived `deserialize` refuses `SessionDoesNotExist`.
use ubass_rs.Base.{◌^◌, ◌<◌, ◌≡◌, refl, arith, false, ◌++◌, length, List, [], ◌∷◌, some, Option, ℕ}
use ubass_rs.Base.Outcome.{ok, err}
use ubass_rs.Wire.Codec.{Bytes, Serialize, reserved_bytes, to_be_bytes}
use ubass_rs.Wire.Derive.{◌⨟◌, last, derive_enum, derive_struct, enum_variants, match_variant}
use ubass_rs.Wire.Laws.{Lawful, Lawful-rename, reserved_bytes-Lawful}
use ubass_rs.Wire.Structs.{last-Lawful, ⨟-Lawful, derive_struct-Lawful}
use ubass_rs.Wire.Enums.{derive_enum-Lawful}
use ubass_rs.Wire.Refused.{⨟_refused, ⨟-Refuses, derive_struct_refused}
use ubass_rs.Packets.Kinds.{packet_type, ErrorType, error_type, error_type_discriminant}
use ubass_rs.Packets.Kinds.Laws.{packet_type-Lawful, error_type_byte}
use ubass_rs.Packets.Kinds.Unread.{session_does_not_exist_unread}
use ubass_rs.Packets.Scalars.{
  version, options, session_id, timestamp, secondary_type, packet_fingerprint,
}
use ubass_rs.Packets.Scalars.Laws.{number-Lawful, bytes-Lawful}
use ubass_rs.Packets.Replies.{
  SessionDoesNotExistErrorPacket, session_does_not_exist_error_packet_split,
  session_does_not_exist_error_packet_build, session_does_not_exist_error_packet_codec,
  UnexpectedPacketErrorPacket, unexpected_packet_error_packet_split,
  unexpected_packet_error_packet_build, unexpected_packet_error_packet_codec,
}
use ubass_rs.Packets.Replies.Laws.{
  session_does_not_exist_error_packet_bytes, unexpected_packet_error_packet_bytes,
}

-- `ErrorType` with every discriminant written out: it is written the same, and read back.
abbrev explicit_variants : List (ErrorType × Option ℕ)
explicit_variants =
    (ErrorType.unexpected_packet, some 1)
    ∷ (ErrorType.incomprehensible_packet, some 2)
    ∷ (ErrorType.session_does_not_exist, some 3)
    ∷ []

abbrev error_type_explicit : Serialize ErrorType
error_type_explicit = derive_enum 1 error_type_discriminant explicit_variants

explicit_found :
    (v : ErrorType)
    → (match_variant (error_type_discriminant v) (enum_variants explicit_variants) ≡ ok v)
      × (error_type_discriminant v < 256 ^ 1)
unfolding match_variant enum_variants
explicit_found ErrorType.unexpected_packet = (refl, omega arith)
explicit_found ErrorType.incomprehensible_packet = (refl, omega arith)
explicit_found ErrorType.session_does_not_exist = (refl, omega arith)

error_type_explicit-Lawful : Lawful false error_type_explicit (λ v. Unit {0}) error_type_byte
error_type_explicit-Lawful =
    Lawful-rename (λ v h. (explicit_found v, refl))
      (derive_enum-Lawful 1 error_type_discriminant explicit_variants)

error_type_refuses :
    (v : ErrorType)
    → v ≡ ErrorType.session_does_not_exist
    → (rest : Bytes) → error_type.deserialize (error_type_byte v ++ rest) ≡ err
unfolding to_be_bytes
error_type_refuses ErrorType.session_does_not_exist e rest =
    (session_does_not_exist_unread rest []).1.0
error_type_refuses ErrorType.unexpected_packet e rest = cc e
error_type_refuses ErrorType.incomprehensible_packet e rest = cc e

-- The fields of the packet fit the wire, whatever its error is.
abbrev pub FitsSessionDoesNotExist : SessionDoesNotExistErrorPacket → Type 0
FitsSessionDoesNotExist p =
    (p.version < 256 ^ 2)
    × ((p.opts < 256 ^ 2)
        × ((Unit {0})
            × ((Unit {0}) × ((Unit {0}) × ((p.session_id < 256 ^ 8) × (p.timestamp < 256 ^ 8))))))

abbrev pub session_does_not_exist_explicit : Serialize SessionDoesNotExistErrorPacket
session_does_not_exist_explicit =
    derive_struct
      (version
        ⨟ options
        ⨟ packet_type
        ⨟ error_type_explicit
        ⨟ reserved_bytes 2
        ⨟ session_id
        ⨟ last timestamp)
      session_does_not_exist_error_packet_split session_does_not_exist_error_packet_build

pub session_does_not_exist_explicit-Lawful :
    Lawful false session_does_not_exist_explicit FitsSessionDoesNotExist
      session_does_not_exist_error_packet_bytes
session_does_not_exist_explicit-Lawful =
    derive_struct-Lawful
      (⨟-Lawful (number-Lawful 2) (
        ⨟-Lawful (number-Lawful 2) (
          ⨟-Lawful packet_type-Lawful (
            ⨟-Lawful error_type_explicit-Lawful (
              ⨟-Lawful (reserved_bytes-Lawful 2)
                (⨟-Lawful (number-Lawful 8) (last-Lawful (number-Lawful 8))))))))
      session_does_not_exist_error_packet_split session_does_not_exist_error_packet_build
      (λ p. refl)

pub session_does_not_exist_refused :
    (p : SessionDoesNotExistErrorPacket)
    → FitsSessionDoesNotExist p
    → p.error_type ≡ ErrorType.session_does_not_exist
    → session_does_not_exist_error_packet_codec.deserialize
        (session_does_not_exist_error_packet_bytes p)
      ≡ err
session_does_not_exist_refused p h e =
    derive_struct_refused session_does_not_exist_error_packet_split
      session_does_not_exist_error_packet_build
      (⨟_refused (number-Lawful 2) p.version h.0 (
        ⨟_refused (number-Lawful 2) p.opts h.1.0 (
          ⨟_refused packet_type-Lawful p.packet_type tt (
            ⨟-Refuses error_type (reserved_bytes 2 ⨟ session_id ⨟ last timestamp) _
              (error_type_refuses p.error_type e _)))))

abbrev pub FitsUnexpectedPacket : UnexpectedPacketErrorPacket → Type 0
FitsUnexpectedPacket p =
    (p.version < 256 ^ 2)
    × ((p.opts < 256 ^ 2)
        × ((Unit {0})
            × ((Unit {0})
                × ((Unit {0})
                    × ((p.session_id < 256 ^ 8)
                        × ((p.timestamp < 256 ^ 8)
                            × ((Unit {0})
                                × ((p.received_secondary_type < 256 ^ 2)
                                    × (length p.received_fingerprint ≡ 16)))))))))

abbrev pub unexpected_packet_explicit : Serialize UnexpectedPacketErrorPacket
unexpected_packet_explicit =
    derive_struct
      (version
        ⨟ options
        ⨟ packet_type
        ⨟ error_type_explicit
        ⨟ reserved_bytes 2
        ⨟ session_id
        ⨟ timestamp
        ⨟ packet_type
        ⨟ secondary_type
        ⨟ last packet_fingerprint)
      unexpected_packet_error_packet_split unexpected_packet_error_packet_build

pub unexpected_packet_explicit-Lawful :
    Lawful false unexpected_packet_explicit FitsUnexpectedPacket
      unexpected_packet_error_packet_bytes
unexpected_packet_explicit-Lawful =
    derive_struct-Lawful
      (⨟-Lawful (number-Lawful 2) (
        ⨟-Lawful (number-Lawful 2) (
          ⨟-Lawful packet_type-Lawful (
            ⨟-Lawful error_type_explicit-Lawful (
              ⨟-Lawful (reserved_bytes-Lawful 2) (
                ⨟-Lawful (number-Lawful 8) (
                  ⨟-Lawful (number-Lawful 8) (
                    ⨟-Lawful packet_type-Lawful
                      (⨟-Lawful (number-Lawful 2) (last-Lawful (bytes-Lawful 16)))))))))))
      unexpected_packet_error_packet_split unexpected_packet_error_packet_build (λ p. refl)

pub unexpected_packet_refused :
    (p : UnexpectedPacketErrorPacket)
    → FitsUnexpectedPacket p
    → p.error_type ≡ ErrorType.session_does_not_exist
    → unexpected_packet_error_packet_codec.deserialize (unexpected_packet_error_packet_bytes p)
      ≡ err
unexpected_packet_refused p h e =
    derive_struct_refused unexpected_packet_error_packet_split unexpected_packet_error_packet_build
      (⨟_refused (number-Lawful 2) p.version h.0 (
        ⨟_refused (number-Lawful 2) p.opts h.1.0 (
          ⨟_refused packet_type-Lawful p.packet_type tt (
            ⨟-Refuses error_type
              (reserved_bytes 2
                ⨟ session_id
                ⨟ timestamp
                ⨟ packet_type
                ⨟ secondary_type
                ⨟ last packet_fingerprint)
              _ (error_type_refuses p.error_type e _)))))
