-- ===== src/Packets/Streams/Laws.antt =====
-- The layout on the wire of the packets of Packets/Streams.antt: when the values fit their fields, and
-- the bytes of each packet, field by field.
use ubass_rs.Base.{◌^◌, ◌<◌, refl, Bool, true, ◌++◌}
use ubass_rs.Wire.Codec.{Bytes, to_be_bytes}
use ubass_rs.Wire.Laws.{Lawful}
use ubass_rs.Wire.Structs.{payload-Lawful, ⨟-Lawful, derive_struct-Lawful}
use ubass_rs.Packets.Kinds.Laws.{
  packet_type_byte, packet_type-Lawful, control_type_byte, control_type-Lawful,
}
use ubass_rs.Packets.Scalars.Laws.{newtype-Lawful, number-Lawful, payload_field-Lawful}
use ubass_rs.Packets.Scalars.Laws.{
  IsFecInfo, fec_info_bytes, fec_info-Lawful, IsBufferId, buffer_id_bytes,
}
use ubass_rs.Packets.Scalars.Laws.{optional_buffer_id-Lawful}
use ubass_rs.Packets.Scalars.Ranges.{IsByteRanges, ranges_bytes, byte_ranges-Lawful}
use ubass_rs.Packets.Streams.{DataPacket, data_packet_split, data_packet_build, data_packet_codec}
use ubass_rs.Packets.Streams.{
  MetadataPacket, metadata_packet_split, metadata_packet_build, metadata_packet_codec,
}
use ubass_rs.Packets.Streams.{
  ParityPacket, parity_packet_split, parity_packet_build, parity_packet_codec,
}
use ubass_rs.Packets.Streams.{
  RetransmitPacket, retransmit_packet_split, retransmit_packet_build, retransmit_packet_codec,
}

abbrev pub IsDataPacket : DataPacket → Type 0
IsDataPacket p =
    (p.version < 256 ^ 2)
    × ((p.opts < 256 ^ 2)
        × ((Unit {0})
            × ((p.batch_id < 256 ^ 2)
                × ((IsFecInfo p.fec_info)
                    × ((p.session_id < 256 ^ 8)
                        × ((p.timestamp < 256 ^ 8)
                            × ((p.byte_range_start < 256 ^ 4) × (Unit {0}))))))))

abbrev pub data_packet_bytes : DataPacket → Bytes
data_packet_bytes p =
    (to_be_bytes 2 p.version)
    ++ ((to_be_bytes 2 p.opts)
        ++ ((packet_type_byte p.packet_type)
            ++ ((to_be_bytes 2 p.batch_id)
                ++ ((fec_info_bytes p.fec_info)
                    ++ ((to_be_bytes 8 p.session_id)
                        ++ ((to_be_bytes 8 p.timestamp)
                            ++ ((to_be_bytes 4 p.byte_range_start) ++ p.payload)))))))

pub data_packet_codec-Lawful : Lawful true data_packet_codec IsDataPacket data_packet_bytes
data_packet_codec-Lawful =
    derive_struct-Lawful
      (⨟-Lawful (number-Lawful 2) (
        ⨟-Lawful (number-Lawful 2) (
          ⨟-Lawful packet_type-Lawful (
            ⨟-Lawful (number-Lawful 2) (
              ⨟-Lawful fec_info-Lawful (
                ⨟-Lawful (number-Lawful 8) (
                  ⨟-Lawful (number-Lawful 8)
                    (⨟-Lawful (number-Lawful 4) (payload-Lawful payload_field-Lawful)))))))))
      data_packet_split data_packet_build (λ p. refl)

abbrev pub IsMetadataPacket : MetadataPacket → Type 0
IsMetadataPacket p =
    (p.version < 256 ^ 2)
    × ((p.opts < 256 ^ 2)
        × ((Unit {0})
            × ((p.batch_id < 256 ^ 2)
                × ((IsFecInfo p.fec_info)
                    × ((p.session_id < 256 ^ 8)
                        × ((p.timestamp < 256 ^ 8)
                            × ((p.buffer_id < 256 ^ 2)
                                × ((p.buffer_size < 256 ^ 4)
                                    × ((p.position < 256 ^ 4) × (Unit {0}))))))))))

abbrev pub metadata_packet_bytes : MetadataPacket → Bytes
metadata_packet_bytes p =
    (to_be_bytes 2 p.version)
    ++ ((to_be_bytes 2 p.opts)
        ++ ((packet_type_byte p.packet_type)
            ++ ((to_be_bytes 2 p.batch_id)
                ++ ((fec_info_bytes p.fec_info)
                    ++ ((to_be_bytes 8 p.session_id)
                        ++ ((to_be_bytes 8 p.timestamp)
                            ++ ((to_be_bytes 2 p.buffer_id)
                                ++ ((to_be_bytes 4 p.buffer_size)
                                    ++ ((to_be_bytes 4 p.position) ++ p.payload)))))))))

pub metadata_packet_codec-Lawful :
    Lawful true metadata_packet_codec IsMetadataPacket metadata_packet_bytes
metadata_packet_codec-Lawful =
    derive_struct-Lawful
      (⨟-Lawful (number-Lawful 2) (
        ⨟-Lawful (number-Lawful 2) (
          ⨟-Lawful packet_type-Lawful (
            ⨟-Lawful (number-Lawful 2) (
              ⨟-Lawful fec_info-Lawful (
                ⨟-Lawful (number-Lawful 8) (
                  ⨟-Lawful (number-Lawful 8) (
                    ⨟-Lawful (number-Lawful 2) (
                      ⨟-Lawful (number-Lawful 4)
                        (⨟-Lawful (number-Lawful 4) (payload-Lawful payload_field-Lawful)))))))))))
      metadata_packet_split metadata_packet_build (λ p. refl)

abbrev pub IsParityPacket : ParityPacket → Type 0
IsParityPacket p =
    (p.version < 256 ^ 2)
    × ((p.opts < 256 ^ 2)
        × ((Unit {0})
            × ((p.batch_id < 256 ^ 2)
                × ((IsFecInfo p.fec_info)
                    × ((p.session_id < 256 ^ 8) × ((p.timestamp < 256 ^ 8) × (Unit {0})))))))

abbrev pub parity_packet_bytes : ParityPacket → Bytes
parity_packet_bytes p =
    (to_be_bytes 2 p.version)
    ++ ((to_be_bytes 2 p.opts)
        ++ ((packet_type_byte p.packet_type)
            ++ ((to_be_bytes 2 p.batch_id)
                ++ ((fec_info_bytes p.fec_info)
                    ++ ((to_be_bytes 8 p.session_id)
                        ++ ((to_be_bytes 8 p.timestamp) ++ p.payload))))))

pub parity_packet_codec-Lawful : Lawful true parity_packet_codec IsParityPacket parity_packet_bytes
parity_packet_codec-Lawful =
    derive_struct-Lawful
      (⨟-Lawful (number-Lawful 2) (
        ⨟-Lawful (number-Lawful 2) (
          ⨟-Lawful packet_type-Lawful (
            ⨟-Lawful (number-Lawful 2) (
              ⨟-Lawful fec_info-Lawful (
                ⨟-Lawful (number-Lawful 8) (
                  ⨟-Lawful (number-Lawful 8)
                    (payload-Lawful (newtype-Lawful payload_field-Lawful)))))))))
      parity_packet_split parity_packet_build (λ p. refl)

abbrev pub IsRetransmitPacket : RetransmitPacket → Type 0
IsRetransmitPacket p =
    (p.version < 256 ^ 2)
    × ((p.opts < 256 ^ 2)
        × ((Unit {0})
            × ((Unit {0})
                × ((IsBufferId p.buffer_id)
                    × ((p.session_id < 256 ^ 8)
                        × ((p.timestamp < 256 ^ 8) × (IsByteRanges p.payload)))))))

abbrev pub retransmit_packet_bytes : RetransmitPacket → Bytes
retransmit_packet_bytes p =
    (to_be_bytes 2 p.version)
    ++ ((to_be_bytes 2 p.opts)
        ++ ((packet_type_byte p.packet_type)
            ++ ((control_type_byte p.control_type)
                ++ ((buffer_id_bytes p.buffer_id)
                    ++ ((to_be_bytes 8 p.session_id)
                        ++ ((to_be_bytes 8 p.timestamp) ++ (ranges_bytes p.payload)))))))

pub retransmit_packet_codec-Lawful :
    (debug : Bool)
    → Lawful true (retransmit_packet_codec debug) IsRetransmitPacket retransmit_packet_bytes
retransmit_packet_codec-Lawful debug =
    derive_struct-Lawful
      (⨟-Lawful (number-Lawful 2) (
        ⨟-Lawful (number-Lawful 2) (
          ⨟-Lawful packet_type-Lawful (
            ⨟-Lawful control_type-Lawful (
              ⨟-Lawful (optional_buffer_id-Lawful debug) (
                ⨟-Lawful (number-Lawful 8)
                  (⨟-Lawful (number-Lawful 8) (payload-Lawful byte_ranges-Lawful))))))))
      retransmit_packet_split retransmit_packet_build (λ p. refl)
