-- ===== src/Packets/Streams/Empty.antt =====
-- A `RetransmitPacket` without ranges: it is written, and not read.
use ubass_rs.Base.{◌^◌, ◌<◌, ◌≡◌, refl, Bool, true, ◌++◌, List, [], ◌∷◌, All}
use ubass_rs.Base.Outcome.{ok, err}
use ubass_rs.Wire.Codec.{Bytes, Serialize, to_be_bytes}
use ubass_rs.Wire.Derive.{◌⨟◌, payload, derive_struct}
use ubass_rs.Wire.Laws.{Lawful}
use ubass_rs.Wire.Structs.{payload-Lawful, ⨟-Lawful, derive_struct-Lawful}
use ubass_rs.Wire.Refused.{⨟_refused, payload-Refuses, derive_struct_refused}
use ubass_rs.Packets.Kinds.{packet_type, control_type}
use ubass_rs.Packets.Kinds.Laws.{packet_type-Lawful, control_type-Lawful}
use ubass_rs.Packets.Scalars.{
  ByteRange, byte_ranges, version, options, session_id, timestamp, optional_buffer_id,
}
use ubass_rs.Packets.Scalars.Laws.{
  IsByteRange, IsBufferId, number-Lawful, optional_buffer_id-Lawful,
}
use ubass_rs.Packets.Scalars.Ranges.{
  ranges_bytes, length-ranges_bytes, byte_ranges_writes, byte_ranges-Lawful,
}
use ubass_rs.Packets.Streams.{
  RetransmitPacket, retransmit_packet_split, retransmit_packet_build, retransmit_packet_codec,
}
use ubass_rs.Packets.Streams.Laws.{retransmit_packet_bytes}

-- `Vec<ByteRange>` that is also read when it is empty.
abbrev ranges_or_none : Serialize (List ByteRange)
ranges_or_none = record byte_ranges {
  deserialize =
      λ bytes. elim bytes [ [] ↦ ok [] | ◌∷◌ b rest ↦ byte_ranges.deserialize (b ∷ rest) ];
}

ranges_or_none-Lawful : Lawful true ranges_or_none (λ rs. All IsByteRange rs) ranges_bytes
unfolding to_be_bytes
ranges_or_none-Lawful = record {
  size = λ rs h. length-ranges_bytes rs h;
  writes = λ rs buf h room. byte_ranges_writes rs buf h room;
  reads = reads;
}
  where
    reads :
        (rs : List ByteRange) (rest : Bytes)
        → All IsByteRange rs
        → rest ≡ []
        → ranges_or_none.deserialize (ranges_bytes rs ++ rest) ≡ ok rs
    reads [] rest h e = rw e refl
    reads (r ∷ rs) rest h e = byte_ranges-Lawful.reads (r ∷ rs) rest (λ z. cc z, h) e

-- The fields of the packet fit the wire, whether there are ranges or not.
abbrev pub FitsRetransmit : RetransmitPacket → Type 0
FitsRetransmit p =
    (p.version < 256 ^ 2)
    × ((p.opts < 256 ^ 2)
        × ((Unit {0})
            × ((Unit {0})
                × ((IsBufferId p.buffer_id)
                    × ((p.session_id < 256 ^ 8)
                        × ((p.timestamp < 256 ^ 8) × (All IsByteRange p.payload)))))))

abbrev pub retransmit_or_empty : Bool → Serialize RetransmitPacket
retransmit_or_empty debug =
    derive_struct
      (version
        ⨟ options
        ⨟ packet_type
        ⨟ control_type
        ⨟ optional_buffer_id debug
        ⨟ session_id
        ⨟ timestamp
        ⨟ payload ranges_or_none)
      retransmit_packet_split retransmit_packet_build

pub retransmit_or_empty-Lawful :
    (debug : Bool) → Lawful true (retransmit_or_empty debug) FitsRetransmit retransmit_packet_bytes
retransmit_or_empty-Lawful debug =
    derive_struct-Lawful
      (⨟-Lawful (number-Lawful 2) (
        ⨟-Lawful (number-Lawful 2) (
          ⨟-Lawful packet_type-Lawful (
            ⨟-Lawful control_type-Lawful (
              ⨟-Lawful (optional_buffer_id-Lawful debug) (
                ⨟-Lawful (number-Lawful 8)
                  (⨟-Lawful (number-Lawful 8) (payload-Lawful ranges_or_none-Lawful))))))))
      retransmit_packet_split retransmit_packet_build (λ p. refl)

pub empty_retransmit_refused :
    (debug : Bool) (p : RetransmitPacket)
    → FitsRetransmit p
    → p.payload ≡ []
    → (retransmit_packet_codec debug).deserialize (retransmit_packet_bytes p) ≡ err
empty_retransmit_refused debug p h e =
    derive_struct_refused retransmit_packet_split retransmit_packet_build (
      ⨟_refused (number-Lawful 2) p.version h.0 (
        ⨟_refused (number-Lawful 2) p.opts h.1.0 (
          ⨟_refused packet_type-Lawful p.packet_type tt (
            ⨟_refused control_type-Lawful p.control_type tt (
              ⨟_refused (optional_buffer_id-Lawful debug) p.buffer_id h.1.1.1.1.0 (
                ⨟_refused (number-Lawful 8) p.session_id h.1.1.1.1.1.0 (
                  ⨟_refused (number-Lawful 8) p.timestamp h.1.1.1.1.1.1.0 (
                    payload-Refuses byte_ranges (ranges_bytes p.payload)
                      (none_refused p.payload e)))))))))
  where
    none_refused : (rs : List ByteRange) → rs ≡ [] → byte_ranges.deserialize (ranges_bytes rs) ≡ err
    none_refused [] e = refl
    none_refused (r ∷ rs) e = cc e
