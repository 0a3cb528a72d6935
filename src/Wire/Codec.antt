-- ===== src/Wire/Codec.antt =====
-- The `Serialize` trait of src/packet_processor/serialize.rs and its hand-written implementations.
-- A byte is a number below 256. A buffer that is written is a list of bytes: `serialize` returns
-- the buffer as `Ok(())` leaves it. What an `Err(())` leaves in the buffer is not modelled.
use ubass_rs.Base.{ℕ, zero, suc, ◌+◌, ◌*◌, ◌/◌, ◌%◌, ◌^◌, List, [], ◌∷◌, ◌++◌}
use ubass_rs.Base.{Option, none, some, ltb, if◌then◌else◌, length, take, drop, replicate}
use ubass_rs.Base.Outcome.{Outcome, ok, err, panic, ◌>>=◌}

abbrev pub Bytes : Type 0
Bytes = List ℕ

pub record Serialize (A : Type 0) : Type 0 where
  pub serialize : A → Bytes → Outcome Bytes
  pub deserialize : Bytes → Outcome A
  pub sized : A → ℕ

-- `&bytes[offset..]`, which panics past the end.
unfoldable pub slice_from : ℕ → Bytes → Outcome Bytes
slice_from offset bytes = if ltb (length bytes) offset then panic else ok (drop offset bytes)

-- `bytes.get(..n)`
unfoldable pub get_front : ℕ → Bytes → Option Bytes
get_front n bytes = if ltb (length bytes) n then none else some (take n bytes)

-- `buf[..bytes.len()].copy_from_slice(bytes)`
unfoldable pub copy_front : Bytes → Bytes → Outcome Bytes
copy_front bytes buf =
    if ltb (length buf) (length bytes) then panic else ok (bytes ++ drop (length bytes) buf)

-- `x.serialize(&mut buf[offset..])`: the bytes in front of the offset stay.
unfoldable pub serialize_at : {A : Type 0} → Serialize A → A → ℕ → Bytes → Outcome Bytes
unfolding slice_from
serialize_at c a offset buf = do
  rest ← slice_from offset buf
  written ← c.serialize a rest
  ok (take offset buf ++ written)

-- `to_be_bytes` of an integer of `k` bytes.
unfoldable pub to_be_bytes : ℕ → ℕ → Bytes
to_be_bytes zero x = []
to_be_bytes (suc k) x = (x / 256 ^ k % 256) ∷ to_be_bytes k x

-- `from_be_bytes`
unfoldable pub from_be_bytes : Bytes → ℕ
from_be_bytes [] = 0
from_be_bytes (b ∷ bs) = b * 256 ^ length bs + from_be_bytes bs

-- `impl_packet_serialization_ints!`, for an unsigned integer of `k` bytes.
abbrev pub uint : ℕ → Serialize ℕ
uint k = record {
  serialize = λ x buf. if ltb (length buf) k then err else copy_front (to_be_bytes k x) buf;
  deserialize =
      λ bytes. elim (get_front k bytes) [ none ↦ err | some front ↦ ok (from_be_bytes front) ];
  sized = λ x. k;
}

-- `Vec<u8>`
abbrev pub byte_vec : Serialize Bytes
byte_vec = record {
  serialize = λ v buf. if ltb (length buf) (length v) then err else copy_front v buf;
  deserialize = λ bytes. ok bytes;
  sized = λ v. length v;
}

-- `[u8; N]` and `Box<[u8; N]>`: a list of `n` bytes.
abbrev pub byte_array : ℕ → Serialize Bytes
byte_array n = record {
  serialize = λ v buf. if ltb (length buf) n then err else copy_front v buf;
  deserialize = λ bytes. elim (get_front n bytes) [ none ↦ err | some front ↦ ok front ];
  sized = λ v. n;
}

-- `SocketAddrV4`: four octets and a port.
pub record SocketAddrV4 : Type 0 where
  pub octets : Bytes
  pub port : ℕ

abbrev pub socket_addr_v4 : Serialize SocketAddrV4
socket_addr_v4 = record {
  serialize = λ a buf. if ltb (length buf) 6 then err else do
    buf' ← (byte_array 4).serialize a.octets buf
    serialize_at (uint 2) a.port 4 buf';
  deserialize = λ bytes. if ltb (length bytes) 6 then err else do
    octets ← (byte_array 4).deserialize bytes
    rest ← slice_from 4 bytes
    port ← (uint 2).deserialize rest
    ok (record { octets = octets; port = port });
  sized = λ a. 6;
}

-- `(T1, T2)`
abbrev pub pair : {A B : Type 0} → Serialize A → Serialize B → Serialize (A × B)
pair c d = record {
  serialize = λ p buf. if ltb (length buf) (c.sized p.0 + d.sized p.1) then err else do
    buf' ← c.serialize p.0 buf
    serialize_at d p.1 (c.sized p.0) buf';
  deserialize = λ bytes. do
    f1 ← c.deserialize bytes
    rest ← slice_from (c.sized f1) bytes
    f2 ← d.deserialize rest
    ok (f1, f2);
  sized = λ p. c.sized p.0 + d.sized p.1;
}

-- `Reserved<N>`: `n` zero bytes, whose contents are not read back.
pub data Reserved (n : ℕ) : Type 0 where
  reserved : Reserved n

abbrev pub reserved_bytes : (n : ℕ) → Serialize (Reserved n)
reserved_bytes n = record {
  serialize = λ r buf. if ltb (length buf) n then err else copy_front (replicate n 0) buf;
  deserialize = λ bytes. if ltb (length bytes) n then err else ok reserved;
  sized = λ r. n;
}
