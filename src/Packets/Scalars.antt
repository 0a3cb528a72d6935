-- ===== src/Packets/Scalars.antt =====
-- The single-field structs of src/manager/packets.rs and the small structs made of them. A newtype
-- over an integer or a byte list is that number or list. `debug` says whether the build has
-- `debug_assertions`.
pub mod Laws
pub mod Ranges
pub mod Version
use ubass_rs.Base.{ℕ, zero, suc, ◌+◌, ◌-◌, ◌*◌, ◌/◌, ◌%◌, ◌^◌, Bool, true, false, not, ◌&&◌, ◌||◌}
use ubass_rs.Base.{List, [], ◌∷◌, ◌++◌, Option, none, some, length, take, drop}
use ubass_rs.Base.{ltb, leb, ◌==◌, if◌then◌else◌}
use Prim.Native.Nat.{bit_and, bit_or}
use ubass_rs.Base.Outcome.{Outcome, ok, err, panic, ◌>>=◌, ◌>>◌}
use ubass_rs.Wire.Codec.{Bytes, Serialize, uint, byte_vec, byte_array, serialize_at}
use ubass_rs.Wire.Derive.{last, ◌⨟◌, derive_struct}

-- `debug_assert!(condition)`
abbrev pub debug_assert : Bool → Bool → Outcome (Unit {0})
debug_assert debug condition = if debug && not condition then panic else ok tt

-- `#[derive(Serialize)]` on a struct with one unnamed field.
abbrev pub newtype : {A : Type 0} → Serialize A → Serialize A
newtype c = derive_struct (last c) (λ a. a) (λ a. a)

-- `MAX_PAYLOAD_LENGTH`
abbrev pub max_payload_length : ℕ
max_payload_length = 1368

-- `struct Version(u16)`, packed as 4 bits major, 4 bits minor and 8 bits patch.
abbrev pub version : Serialize ℕ
version = newtype (uint 2)

-- `Version::new` of three `u8`s: `(major as u16) << 12 | (minor as u16) << 8 | patch as u16`
unfoldable pub version_new : ℕ → ℕ → ℕ → ℕ
version_new major minor patch =
    bit_or (bit_or (major * 2 ^ 12 % 2 ^ 16) (minor * 2 ^ 8 % 2 ^ 16)) patch

-- `Version::parse`
unfoldable pub version_parse : ℕ → ℕ × ℕ × ℕ
version_parse v = (v / 2 ^ 12 % 2 ^ 8, bit_and (v / 2 ^ 8) 0xF % 2 ^ 8, bit_and v 0xFF % 2 ^ 8)

unfoldable pub current_version : ℕ
unfolding version_new
current_version = version_new 0 0 1

unfoldable pub min_compatible_version : ℕ
unfolding version_new
min_compatible_version = version_new 0 0 1

unfoldable pub version_is_compatible : ℕ → Bool
unfolding min_compatible_version
version_is_compatible v = leb min_compatible_version v

unfoldable pub version_is_zero : ℕ → Bool
version_is_zero v = v == 0

-- `Options(u16)`, `BatchID(u16)`, `SessionId(u64)`, `Timestamp(u64)`, `HandshakeId(u32)`
abbrev pub options : Serialize ℕ
options = newtype (uint 2)

abbrev pub batch_id : Serialize ℕ
batch_id = newtype (uint 2)

-- `BatchID::new`
abbrev pub batch_id_new : Bool → ℕ → Outcome ℕ
batch_id_new debug id = do debug_assert debug (not (id == 0)); ok id

abbrev pub session_id : Serialize ℕ
session_id = newtype (uint 8)

abbrev pub timestamp : Serialize ℕ
timestamp = newtype (uint 8)

abbrev pub handshake_id : Serialize ℕ
handshake_id = newtype (uint 4)

-- `PublicKey([u8; 32])`, `PacketFingerprint([u8; 16])`, `SecondaryType(u16)`
abbrev pub public_key : Serialize Bytes
public_key = newtype (byte_array 32)

abbrev pub packet_fingerprint : Serialize Bytes
packet_fingerprint = newtype (byte_array 16)

abbrev pub secondary_type : Serialize ℕ
secondary_type = newtype (uint 2)

-- `PayloadField(Vec<u8>)` and `ParityPayload(PayloadField)`
abbrev pub payload_field : Serialize Bytes
payload_field = newtype byte_vec

-- `PayloadField::new`
abbrev pub payload_field_new : Bool → Bytes → Outcome Bytes
payload_field_new debug vec = do debug_assert debug (leb (length vec) max_payload_length); ok vec

-- `PayloadField::empty` holds one zero byte.
abbrev pub payload_field_empty : Bytes
payload_field_empty = 0 ∷ []

abbrev pub parity_payload : Serialize Bytes
parity_payload = newtype payload_field

-- `ParityPacket::LOCAL_MAX_PAYLOAD_LENGTH`: the sizes of a `BytePosition` and of a `u16` on top.
abbrev pub parity_max_payload_length : ℕ
parity_max_payload_length = max_payload_length + 4 + 2

-- `ParityPayload::new`
abbrev pub parity_payload_new : Bool → Bytes → Outcome Bytes
parity_payload_new debug vec = do
  debug_assert debug (leb (length vec) parity_max_payload_length)
  ok vec

-- `BytePosition(u32)`, `BufferSize(u32)`, `BufferId(u16)`
abbrev pub byte_position : Serialize ℕ
byte_position = newtype (uint 4)

abbrev pub buffer_size : Serialize ℕ
buffer_size = newtype (uint 4)

abbrev pub buffer_id : Serialize ℕ
buffer_id = newtype (uint 2)

-- `BufferId::new`
abbrev pub buffer_id_new : Bool → ℕ → Outcome ℕ
buffer_id_new debug id = do debug_assert debug (not (id == 0)); ok id

-- `buf[0] = 0; buf[1] = 0;`, with `buf` of two bytes at least.
abbrev pub write_no_buffer_id : Bytes → Outcome Bytes
write_no_buffer_id buf = ok (0 ∷ 0 ∷ drop 2 buf)

abbrev pub serialize_buffer_id : Option ℕ → Bytes → Outcome Bytes
serialize_buffer_id none buf = write_no_buffer_id buf
serialize_buffer_id (some id) buf = buffer_id.serialize id buf

-- `impl Serialize for Option<BufferId>`: 0 stands for `None`.
abbrev pub optional_buffer_id : Bool → Serialize (Option ℕ)
optional_buffer_id debug = record {
  serialize = λ o buf. if ltb (length buf) 2 then err else serialize_buffer_id o buf;
  deserialize = λ bytes. do
    rep ← (uint 2).deserialize bytes
    if rep == 0 then ok none else (buffer_id_new debug rep >>= λ id. ok (some id));
  sized = λ o. 2;
}

-- `std::net::SocketAddr`
pub record SocketAddr : Type 0 where
  pub ip : Bytes
  pub port : ℕ

-- `impl Serialize for Option<SocketAddr>`, which writes and reads nothing.
abbrev pub optional_socket_addr : Serialize (Option SocketAddr)
optional_socket_addr = record {
  serialize = λ a buf. ok buf;
  deserialize = λ bytes. ok none;
  sized = λ a. 0;
}

-- `struct FECInfo`
pub record FecInfo : Type 0 where
  pub batch_size : ℕ
  pub batch_pos : ℕ
  pub recovery_count : ℕ

abbrev pub fec_info : Serialize FecInfo
fec_info =
    derive_struct (uint 1 ⨟ uint 1 ⨟ last (uint 1))
      (λ f. (f.batch_size, (f.batch_pos, f.recovery_count)))
      (λ t. record { batch_size = t.0; batch_pos = t.1.0; recovery_count = t.1.1 })

-- `FECInfo::new`. The sum is of `u8`s: it panics past 255 in a build with debug assertions, and is
-- not computed in another.
unfoldable pub fec_info_new : Bool → ℕ → ℕ → ℕ → Outcome FecInfo
fec_info_new debug batch_size batch_pos recovery_count = do
  debug_assert debug (ltb (batch_size + recovery_count) 256)
  debug_assert debug (ltb batch_pos (batch_size + recovery_count))
  debug_assert debug (leb recovery_count batch_size)
  ok (record { batch_size = batch_size; batch_pos = batch_pos; recovery_count = recovery_count })

-- `struct ByteRange`
pub record ByteRange : Type 0 where
  pub start : ℕ
  pub length : ℕ

abbrev pub byte_range : Serialize ByteRange
byte_range =
    derive_struct (byte_position ⨟ last (uint 2)) (λ r. (r.start, r.length))
      (λ t. record { start = t.0; length = t.1 })

-- `ByteRange::new`
abbrev pub byte_range_new : Bool → ℕ → ℕ → Outcome ByteRange
byte_range_new debug start len = do
  debug_assert debug (leb len max_payload_length)
  ok (record { start = start; length = len })

-- `ByteRange::elem_size`
abbrev pub elem_size : ℕ
elem_size = byte_range.sized (record { start = 0; length = 0 })

-- The loop of `serialize`: the `i`-th range goes to `buf[i * stride..]`.
unfoldable pub serialize_ranges : ℕ → List ByteRange → Bytes → Outcome Bytes
unfolding serialize_at
serialize_ranges i [] buf = ok buf
serialize_ranges i (e ∷ es) buf = do
  buf' ← serialize_at byte_range e (i * elem_size) buf
  serialize_ranges (i + 1) es buf'

-- `bytes.chunks(stride).filter(|c| c.len() == stride).map(ByteRange::deserialize).collect()`.
-- One round takes a chunk; `length bytes` rounds are enough.
unfoldable pub deserialize_ranges : ℕ → Bytes → Outcome (List ByteRange)
deserialize_ranges fuel [] = ok []
deserialize_ranges zero (b ∷ bs) = ok []
deserialize_ranges (suc fuel) (b ∷ bs) =
    let rest = deserialize_ranges fuel (drop elem_size (b ∷ bs)) in
    if ltb (length (take elem_size (b ∷ bs))) elem_size
    then rest
    else (byte_range.deserialize (take elem_size (b ∷ bs)) >>= λ r. rest >>= λ rs. ok (r ∷ rs))

-- `impl Serialize for Vec<ByteRange>`
abbrev pub byte_ranges : Serialize (List ByteRange)
byte_ranges = record {
  serialize =
      λ es buf. if ltb (length buf) (length es * elem_size) then err else serialize_ranges 0 es buf;
  deserialize = λ bytes.
      if ltb (length bytes) elem_size then err else deserialize_ranges (length bytes) bytes;
  sized = λ es. length es * elem_size;
}

-- `str::is_ascii`
unfoldable pub is_ascii : Bytes → Bool
is_ascii [] = true
is_ascii (b ∷ bs) = ltb b 128 && is_ascii bs

-- `AppId(String)` of src/manager/state.rs, as its bytes; `AppId::MAX_LENGTH` is 512.
abbrev pub app_id_new : Bool → Bytes → Outcome Bytes
app_id_new debug id = do
  debug_assert debug (is_ascii id)
  debug_assert debug (ltb (length id) 512)
  ok id

-- `copy_from_slice` wants a buffer of the exact length. A text that is ASCII is valid UTF-8, so the
-- two tests of `deserialize` are one.
abbrev pub app_id : Bool → Serialize Bytes
app_id debug = record {
  serialize = λ id buf.
      if ltb (length buf) (length id)
      then err
      else if length buf == length id
      then ok id
      else panic;
  deserialize = λ bytes. if is_ascii bytes then app_id_new debug bytes else err;
  sized = λ id. length id;
}
