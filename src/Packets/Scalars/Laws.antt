-- ===== src/Packets/Scalars/Laws.antt =====
-- The scalars keep the promise of `Serialize`.
use ubass_rs.Base.{ℕ, ◌^◌, ◌≤◌, ◌<◌, ◌≡◌, refl, arith}
use ubass_rs.Base.{Bool, true, false, [], ◌∷◌, ◌++◌, Option, none, some}
use ubass_rs.Base.{length, drop, drop-all, le→ltb, lt→ltb, if◌then◌else◌, ◌==◌, ==_refl, append-nil}
use ubass_rs.Base.Outcome.{ok, ◌>>=◌}
use ubass_rs.Wire.Codec.{Bytes, Serialize, uint, byte_array, to_be_bytes}
use ubass_rs.Wire.Laws.{Lawful, uint-Lawful, byte_vec-Lawful, byte_array-Lawful}
use ubass_rs.Wire.Structs.{last-Lawful, ⨟-Lawful, derive_struct-Lawful}
use ubass_rs.Packets.Scalars.{newtype, payload_field, FecInfo, fec_info, ByteRange, byte_range}
use ubass_rs.Packets.Scalars.{optional_buffer_id, buffer_id_new}
use ubass_rs.Packets.Scalars.{optional_socket_addr, is_ascii, app_id}

pub newtype-Lawful :
    {tail : Bool} {A : Type 0} {c : Serialize A} {Valid : A → Type 0} {encode : A → Bytes}
    → Lawful tail c Valid encode
    → Lawful tail (newtype c) Valid encode
newtype-Lawful law = derive_struct-Lawful (last-Lawful law) (λ a. a) (λ a. a) (λ a. refl)

-- A newtype over an integer of `k` bytes.
pub number-Lawful : (k : ℕ) → Lawful false (newtype (uint k)) (λ x. x < 256 ^ k) (to_be_bytes k)
number-Lawful k = newtype-Lawful (uint-Lawful k)

pub bytes-Lawful : (n : ℕ) → Lawful false (newtype (byte_array n)) (λ v. length v ≡ n) (λ v. v)
bytes-Lawful n = newtype-Lawful (byte_array-Lawful n)

pub payload_field-Lawful : Lawful true payload_field (λ v. Unit {0}) (λ v. v)
payload_field-Lawful = newtype-Lawful byte_vec-Lawful

-- `FECInfo`: three bytes.
abbrev pub IsFecInfo : FecInfo → Type 0
IsFecInfo f = (f.batch_size < 256 ^ 1) × ((f.batch_pos < 256 ^ 1) × (f.recovery_count < 256 ^ 1))

abbrev pub fec_info_bytes : FecInfo → Bytes
fec_info_bytes f =
    to_be_bytes 1 f.batch_size ++ (to_be_bytes 1 f.batch_pos ++ to_be_bytes 1 f.recovery_count)

pub fec_info-Lawful : Lawful false fec_info IsFecInfo fec_info_bytes
fec_info-Lawful =
    derive_struct-Lawful
      (⨟-Lawful (uint-Lawful 1) (⨟-Lawful (uint-Lawful 1) (last-Lawful (uint-Lawful 1)))) _ _
      (λ f. refl)

-- `ByteRange`: a position of four bytes and a length of two.
abbrev pub IsByteRange : ByteRange → Type 0
IsByteRange r = (r.start < 256 ^ 4) × (r.length < 256 ^ 2)

abbrev pub byte_range_bytes : ByteRange → Bytes
byte_range_bytes r = to_be_bytes 4 r.start ++ to_be_bytes 2 r.length

pub byte_range-Lawful : Lawful false byte_range IsByteRange byte_range_bytes
byte_range-Lawful =
    derive_struct-Lawful (⨟-Lawful (number-Lawful 4) (last-Lawful (uint-Lawful 2))) _ _ (λ r. refl)

-- `Option<BufferId>`: an ID is never 0.
abbrev pub IsBufferId : Option ℕ → Type 0
IsBufferId none = Unit
IsBufferId (some id) = (0 < id) × (id < 256 ^ 2)

abbrev pub buffer_id_bytes : Option ℕ → Bytes
buffer_id_bytes none = 0 ∷ 0 ∷ []
buffer_id_bytes (some id) = to_be_bytes 2 id

checked :
    (debug : Bool) (id : ℕ)
    → 0 < id
    → (if id == 0 then ok none else (buffer_id_new debug id >>= λ i. ok (some i))) ≡ ok (some id)
checked debug id h = ground arith

pub optional_buffer_id-Lawful :
    (debug : Bool) → Lawful false (optional_buffer_id debug) IsBufferId buffer_id_bytes
unfolding to_be_bytes
optional_buffer_id-Lawful debug = record { size = size; writes = writes; reads = reads }
  where
    size : (o : Option ℕ) → IsBufferId o → length (buffer_id_bytes o) ≡ 2
    size none h = refl
    size (some id) h = (uint-Lawful 2).size id h.1

    writes :
        (o : Option ℕ) (buf : Bytes)
        → IsBufferId o
        → 2 ≤ length buf
        → (optional_buffer_id debug).serialize o buf ≡ ok (buffer_id_bytes o ++ drop 2 buf)
    writes none buf h room = rw (le→ltb (length buf) 2 room)
    writes (some id) buf h room =
        let fits = le→ltb (length buf) 2 room in
        rw fits (rw fits at ((number-Lawful 2).writes id buf h.1 room))

    reads :
        (o : Option ℕ) (rest : Bytes)
        → IsBufferId o
        → Unit {0}
        → (optional_buffer_id debug).deserialize (buffer_id_bytes o ++ rest) ≡ ok o
    reads none rest h _ = rw ((uint-Lawful 2).reads 0 rest (omega arith) tt)
    reads (some id) rest h _ = rw ((uint-Lawful 2).reads id rest h.1 tt) (checked debug id h.0)

pub optional_socket_addr-Lawful : Lawful false optional_socket_addr (λ a. a ≡ none) (λ a. [])
optional_socket_addr-Lawful = record {
  size = λ a h. refl;
  writes = λ a buf h room. refl;
  reads = λ a rest h _. rw h;
}

-- The debug assertions of `AppId::new` pass.
app_id_deserialize_ok :
    (debug : Bool) (id : Bytes)
    → is_ascii id ≡ true
    → length id < 512
    → (app_id debug).deserialize id ≡ ok id
app_id_deserialize_ok debug id h k = ground (arith, h, lt→ltb (length id) 512 k)

pub app_id-Lawful :
    (debug : Bool)
    → Lawful true (app_id debug) (λ id. (is_ascii id ≡ true) × (length id < 512)) (λ id. id)
app_id-Lawful debug = record {
  size = λ id h. refl;
  writes = λ id buf h room.
      rw
        (
          ← room,
          le→ltb (length id) (length id) (omega arith),
          ==_refl,
          drop-all (length id) buf (omega arith),
          append-nil,
        )
        refl;
  reads = λ id rest h r. rw (r, append-nil) (app_id_deserialize_ok debug id h.0 h.1);
}
