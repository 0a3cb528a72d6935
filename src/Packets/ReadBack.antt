-- ===== src/Packets/ReadBack.antt =====
-- What the derived formats write and read back, for each kind of packet.
use ubass_rs.Base.{
  ◌≡◌, refl, sym, ap, ◌∙◌, Bool, true, false, ◌++◌, [], replicate, length-replicate, append-nil,
  drop-all, length, arith, ◌<◌, ◌^◌, List, ◌∷◌, none, subst,
}
use ubass_rs.Base.Outcome.{Outcome, ok, err, ◌>>=◌}
use ubass_rs.Wire.Codec.{Bytes, Serialize, serialize_at}
use ubass_rs.Wire.Laws.{Lawful, Room, Rest}
use ubass_rs.Packets.Packet.{Packet, to_wire, packet_to_wire, deserialize_as, deserialize_like}
use ubass_rs.Packets.Streams.Laws.{retransmit_packet_bytes, retransmit_packet_codec-Lawful}
use ubass_rs.Packets.Replies.Laws.{keep_alive_packet_bytes, keep_alive_packet_codec-Lawful}
use ubass_rs.Packets.Replies.Laws.{
  session_does_not_exist_error_packet_bytes, session_does_not_exist_error_packet_codec-Lawful,
}
use ubass_rs.Packets.Replies.Laws.{
  unexpected_packet_error_packet_bytes, unexpected_packet_error_packet_codec-Lawful,
}
use ubass_rs.Packets.Kinds.{ErrorType}
use ubass_rs.Packets.Kinds.Laws.{IsReadable}
use ubass_rs.Packets.Scalars.{ByteRange}
use ubass_rs.Packets.Streams.{RetransmitPacket, retransmit_packet_codec}
use ubass_rs.Packets.Streams.Empty.{
  FitsRetransmit, retransmit_or_empty-Lawful, empty_retransmit_refused,
}
use ubass_rs.Packets.Replies.{
  KeepAlivePacket, SessionDoesNotExistErrorPacket, session_does_not_exist_error_packet_codec,
  UnexpectedPacketErrorPacket, unexpected_packet_error_packet_codec,
}
use ubass_rs.Packets.Replies.Refused.{
  FitsSessionDoesNotExist, session_does_not_exist_explicit-Lawful, session_does_not_exist_refused,
  FitsUnexpectedPacket, unexpected_packet_explicit-Lawful, unexpected_packet_refused,
}

abbrev pub FitsKeepAlive : KeepAlivePacket → Type 0
FitsKeepAlive p =
    (p.version < 256 ^ 2)
    × ((p.opts < 256 ^ 2)
        × ((Unit {0}) × ((Unit {0}) × ((p.session_id < 256 ^ 8) × (p.timestamp < 256 ^ 8)))))

-- What a packet is read as: no error of the type `SessionDoesNotExist` and no request without ranges is
-- read, and the address of a keep-alive is lost.
abbrev error_read_back : ErrorType → Packet → Outcome Packet
error_read_back ErrorType.session_does_not_exist p = err
error_read_back ErrorType.unexpected_packet p = ok p
error_read_back ErrorType.incomprehensible_packet p = ok p

abbrev retransmit_read_back : List ByteRange → Packet → Outcome Packet
retransmit_read_back [] p = err
retransmit_read_back (r ∷ rs) p = ok p

abbrev pub read_back : Packet → Outcome Packet
read_back (Packet.keep_alive_packet p) = ok (Packet.keep_alive_packet (record p { address = none }))
read_back (Packet.retransmit_packet p) = retransmit_read_back p.payload (Packet.retransmit_packet p)
read_back (Packet.session_does_not_exist_error_packet p) =
    error_read_back p.error_type (Packet.session_does_not_exist_error_packet p)
read_back (Packet.unexpected_packet_error_packet p) =
    error_read_back p.error_type (Packet.unexpected_packet_error_packet p)
read_back p = ok p

to_wire-Lawful :
    {tail : Bool} {A : Type 0} {c : Serialize A} {Valid : A → Type 0} {encode : A → Bytes}
    → Lawful tail c Valid encode
    → (a : A) → Valid a
    → to_wire c a ≡ ok (encode a)
unfolding to_wire
to_wire-Lawful {tail = tail} {c = c} {encode = encode} l a h =
    l.writes a zeros h (room tail)
    ∙ ap (λ (r : Bytes). ok r)
        (ap (λ r. encode a ++ r) (drop-all (c.sized a) zeros (omega (arith, length_zeros)))
          ∙ append-nil (encode a))
  where
    zeros : Bytes
    zeros = replicate (c.sized a) 0

    length_zeros : length zeros ≡ c.sized a
    length_zeros = length-replicate (c.sized a) 0

    room : (t : Bool) → Room t (c.sized a) (length zeros)
    room true = sym length_zeros
    room false = omega (arith, length_zeros)

deserialize-Lawful :
    {tail : Bool} {A : Type 0} {c : Serialize A} {Valid : A → Type 0} {encode : A → Bytes}
    → Lawful tail c Valid encode
    → (a : A) → Valid a
    → c.deserialize (encode a) ≡ ok a
deserialize-Lawful {tail = tail} {c = c} {encode = encode} l a h =
    rw (append-nil (encode a)) at (l.reads a [] h (rest tail))
  where
    rest : (t : Bool) → Rest t []
    rest true = refl
    rest false = tt

pub round_trips :
    {tail : Bool} {A : Type 0} {c : Serialize A} {Valid : A → Type 0} {encode : A → Bytes}
    → Lawful tail c Valid encode
    → (a : A) → Valid a
    → (wrap : A → Packet)
    → (to_wire c a ≡ ok (encode a)) × (deserialize_as c wrap (encode a) ≡ ok (wrap a))
unfolding deserialize_as
round_trips l a h wrap = (to_wire-Lawful l a h, rw (deserialize-Lawful l a h) refl)

refused_as :
    {A : Type 0} (c : Serialize A) (wrap : A → Packet) (bytes : Bytes)
    → c.deserialize bytes ≡ err
    → deserialize_as c wrap bytes ≡ err
unfolding deserialize_as
refused_as c wrap bytes h = ap (λ o. o >>= (λ packet. ok (wrap packet))) h

pub keep_alive_round_trip :
    (debug : Bool) (p : KeepAlivePacket)
    → FitsKeepAlive p
    → (packet_to_wire debug (Packet.keep_alive_packet p) ≡ ok (keep_alive_packet_bytes p))
      × (deserialize_like debug (Packet.keep_alive_packet p) (keep_alive_packet_bytes p)
          ≡ read_back (Packet.keep_alive_packet p))
unfolding packet_to_wire deserialize_like to_wire serialize_at
keep_alive_round_trip debug p (v, (o, (t, (r, (s, m))))) =
    round_trips keep_alive_packet_codec-Lawful (record p { address = none })
      (v, (o, (t, (r, (s, (m, refl)))))) (λ p. Packet.keep_alive_packet p)

pub retransmit_written :
    (debug : Bool) (p : RetransmitPacket)
    → FitsRetransmit p
    → packet_to_wire debug (Packet.retransmit_packet p) ≡ ok (retransmit_packet_bytes p)
unfolding packet_to_wire to_wire serialize_at
retransmit_written debug p h = to_wire-Lawful (retransmit_or_empty-Lawful debug) p h

pub retransmit_read :
    (debug : Bool) (p : RetransmitPacket)
    → FitsRetransmit p
    → (rs : List ByteRange) → p.payload ≡ rs
    → deserialize_like debug (Packet.retransmit_packet p) (retransmit_packet_bytes p)
      ≡ retransmit_read_back rs (Packet.retransmit_packet p)
unfolding deserialize_like
retransmit_read debug p h [] e =
    refused_as (retransmit_packet_codec debug) (λ p. Packet.retransmit_packet p)
      (retransmit_packet_bytes p) (empty_retransmit_refused debug p h e)
retransmit_read debug p (v, (o, (t, (c, (b, (s, (m, all))))))) (r ∷ rs) e =
    (round_trips (retransmit_packet_codec-Lawful debug) p
      (v, (o, (t, (c, (b, (s, (m, (λ z. cc (z, e), all)))))))) (λ p. Packet.retransmit_packet p)).1

pub session_error_written :
    (debug : Bool) (p : SessionDoesNotExistErrorPacket)
    → FitsSessionDoesNotExist p
    → packet_to_wire debug (Packet.session_does_not_exist_error_packet p)
      ≡ ok (session_does_not_exist_error_packet_bytes p)
unfolding packet_to_wire to_wire serialize_at
session_error_written debug p h = to_wire-Lawful session_does_not_exist_explicit-Lawful p h

pub session_error_read :
    (debug : Bool) (p : SessionDoesNotExistErrorPacket)
    → FitsSessionDoesNotExist p
    → (type : ErrorType) → p.error_type ≡ type
    → deserialize_like debug
        (Packet.session_does_not_exist_error_packet p)
        (session_does_not_exist_error_packet_bytes p)
      ≡ error_read_back type (Packet.session_does_not_exist_error_packet p)
unfolding deserialize_like
session_error_read debug p h ErrorType.session_does_not_exist e =
    refused_as session_does_not_exist_error_packet_codec
      (λ p. Packet.session_does_not_exist_error_packet p)
      (session_does_not_exist_error_packet_bytes p) (session_does_not_exist_refused p h e)
session_error_read debug p (v, (o, (t, (_, rest)))) ErrorType.unexpected_packet e =
    (round_trips session_does_not_exist_error_packet_codec-Lawful p
      (v, (o, (t, (subst IsReadable (sym e) tt, rest))))
      (λ p. Packet.session_does_not_exist_error_packet p)).1
session_error_read debug p (v, (o, (t, (_, rest)))) ErrorType.incomprehensible_packet e =
    (round_trips session_does_not_exist_error_packet_codec-Lawful p
      (v, (o, (t, (subst IsReadable (sym e) tt, rest))))
      (λ p. Packet.session_does_not_exist_error_packet p)).1

pub unexpected_error_written :
    (debug : Bool) (p : UnexpectedPacketErrorPacket)
    → FitsUnexpectedPacket p
    → packet_to_wire debug (Packet.unexpected_packet_error_packet p)
      ≡ ok (unexpected_packet_error_packet_bytes p)
unfolding packet_to_wire to_wire serialize_at
unexpected_error_written debug p h = to_wire-Lawful unexpected_packet_explicit-Lawful p h

pub unexpected_error_read :
    (debug : Bool) (p : UnexpectedPacketErrorPacket)
    → FitsUnexpectedPacket p
    → (type : ErrorType) → p.error_type ≡ type
    → deserialize_like debug
        (Packet.unexpected_packet_error_packet p)
        (unexpected_packet_error_packet_bytes p)
      ≡ error_read_back type (Packet.unexpected_packet_error_packet p)
unfolding deserialize_like
unexpected_error_read debug p h ErrorType.session_does_not_exist e =
    refused_as unexpected_packet_error_packet_codec (λ p. Packet.unexpected_packet_error_packet p)
      (unexpected_packet_error_packet_bytes p) (unexpected_packet_refused p h e)
unexpected_error_read debug p (v, (o, (t, (_, rest)))) ErrorType.unexpected_packet e =
    (round_trips unexpected_packet_error_packet_codec-Lawful p
      (v, (o, (t, (subst IsReadable (sym e) tt, rest))))
      (λ p. Packet.unexpected_packet_error_packet p)).1
unexpected_error_read debug p (v, (o, (t, (_, rest)))) ErrorType.incomprehensible_packet e =
    (round_trips unexpected_packet_error_packet_codec-Lawful p
      (v, (o, (t, (subst IsReadable (sym e) tt, rest))))
      (λ p. Packet.unexpected_packet_error_packet p)).1
