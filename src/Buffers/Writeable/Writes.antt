-- ===== src/Buffers/Writeable/Writes.antt =====
-- What `write` does on each of its branches, and that it keeps a buffer well-formed.
use ubass_rs.Base.{ℕ, zero, suc, ◌+◌, ◌/◌, ◌≤◌, ◌<◌, ◌≡◌, refl, sym, ap, ◌∙◌, arith, inl, inr}
use ubass_rs.Base.{
  Bool, true, false, List, [], ◌∷◌, ◌++◌, length, take, drop, set, get_or, get_elem?-get_or,
  length-set, length-append, length-take, length-drop, Bool-cases, none, some, le→ltb, add_zero,
  add_suc, add_one, one_add, get_or-default,
}
use ubass_rs.Base.{
  ◌||◌, ◌&&◌, not, ◌-◌, ◌==◌, ==_iff, ==_refl, ◌⊎◌, ltb→ge, ltb, ltb→lt, replicate,
  length-replicate,
}
use ubass_rs.Base.Outcome.{ok}
use ubass_rs.Wire.Codec.{Bytes}
use ubass_rs.Packets.Scalars.{debug_assert}
use ubass_rs.Buffers.Areas.{area, occupy_areas}
use ubass_rs.Buffers.Areas.Laws.{areas_from, occupy_areas-areas_from}
use ubass_rs.Buffers.Writeable.{
  WriteableBuffer, buffer_length, from_bytes, index_map, occupy, copy_at, position_occupied,
  position_to_index, is_wrong_size, write_chunk, write, WriteResult, wrote, refused, BufferError,
}
use ubass_rs.Buffers.Writeable.Head.{
  IsAddressable, IsWriteable, advance_head_lem, position_to_index-some,
}

pub index_map_lem : (m : List Bool) (i : ℕ) → i < length m → index_map m i ≡ ok (get_or m i false)
unfolding index_map
index_map_lem m i h = rw (index_map, get_elem?-get_or i m false h) refl

pub position_occupied_lem :
    (b : WriteableBuffer) (position : ℕ)
    → length b.map ≡ buffer_length b / 1368 + 1
    → position ≤ buffer_length b
    → position_occupied b position ≡ ok (some (get_or b.map (position / 1368) false))
unfolding position_occupied
position_occupied_lem b position chunks h =
    rw
      (
        position_occupied,
        position_to_index-some b position h,
        index_map_lem b.map (position / 1368) (omega arith),
      )
      refl

debug_assert-true : (debug : Bool) → debug_assert debug true ≡ ok tt
debug_assert-true true = refl
debug_assert-true false = refl

-- The buffer that `occupy` leaves.
abbrev pub occupied_at : WriteableBuffer → ℕ → WriteableBuffer
occupied_at b i = record b {
  map = set b.map i true;
  invalid_areas = occupy_areas i b.invalid_areas;
}

pub occupy_lem :
    (debug : Bool) (b : WriteableBuffer) (position : ℕ)
    → length b.map ≡ buffer_length b / 1368 + 1
    → position ≤ buffer_length b
    → get_or b.map (position / 1368) false ≡ false
    → occupy debug b position ≡ ok (occupied_at b (position / 1368))
unfolding occupy
occupy_lem debug b position chunks h unfilled =
    rw
      (
        occupy,
        position_to_index-some b position h,
        index_map_lem b.map (position / 1368) (omega arith),
        unfilled,
        debug_assert-true debug,
      )
      refl

-- The bytes of a buffer after a copy at a position.
abbrev pub copied_at : ℕ → Bytes → Bytes → Bytes
copied_at position bytes buf = take position buf ++ (bytes ++ drop (position + length bytes) buf)

pub length-copied_at :
    (position : ℕ) (bytes buf : Bytes)
    → position + length bytes ≤ length buf
    → length (copied_at position bytes buf) ≡ length buf
length-copied_at position bytes buf h = omega (
  arith,
  length-append (take position buf) (bytes ++ drop (position + length bytes) buf),
  length-append bytes (drop (position + length bytes) buf),
  length-take position buf,
  length-drop (position + length bytes) buf,
)

-- The buffer that a write leaves, but for its head.
abbrev pub written_at : WriteableBuffer → ℕ → Bytes → ℕ → WriteableBuffer
written_at b position bytes head = record {
  buffer = copied_at position bytes b.buffer;
  head = head;
  map = set b.map (position / 1368) true;
  invalid_areas = areas_from none 0 (set b.map (position / 1368) true);
}

copy_at_lem :
    (position : ℕ) (bytes buf : Bytes)
    → position + length bytes ≤ length buf
    → copy_at position bytes buf ≡ ok (copied_at position bytes buf)
unfolding copy_at
copy_at_lem position bytes buf h =
    rw (copy_at, le→ltb (length buf) (position + length bytes) h) refl

-- The chunk is unfilled and the payload has the right size: the write happens.
pub write_chunk-accepts :
    (debug : Bool) (b : WriteableBuffer) (position : ℕ) (bytes : Bytes)
    → IsWriteable b
    → IsAddressable b
    → get_or b.map (position / 1368) false ≡ false
    → position + length bytes ≤ buffer_length b
    → is_wrong_size b position bytes ≡ false
    → (head : ℕ) × (write_chunk debug b position bytes
        ≡ ok (written_at b position bytes head, wrote position (position + length bytes)))
      × (b.head ≤ head)
      × IsWriteable (written_at b position bytes head)
unfolding write_chunk
write_chunk-accepts debug b position bytes ok_b small unfilled fits right =
    let (head, eq, forth, head_fits, stops) =
      advance_head_lem debug copied (omega (arith, same))
        (omega (arith, same, length-set b.map (position / 1368) true, ok_b.chunks))
        (rw same ok_b.head_fits) in
    (
      head,
      rw
          (
            write_chunk,
            right,
            occupy_lem debug b position ok_b.chunks (omega arith) unfilled,
            copy_at_lem position bytes b.buffer fits,
            eq,
            areas_eq,
          )
          refl,
      forth,
      record {
        chunks = omega (arith, same, length-set b.map (position / 1368) true, ok_b.chunks);
        areas = refl;
        head_fits = head_fits;
        stops = stops;
      },
    )
  where
    copied : WriteableBuffer
    copied = record (occupied_at b (position / 1368)) { buffer = copied_at position bytes b.buffer }

    same : length (copied_at position bytes b.buffer) ≡ buffer_length b
    same = length-copied_at position bytes b.buffer fits

    areas_eq :
        occupy_areas (position / 1368) b.invalid_areas
        ≡ areas_from none 0 (set b.map (position / 1368) true)
    areas_eq = rw (ok_b.areas) (
        (occupy_areas-areas_from (position / 1368) b.map (
          get_or-default (position / 1368) b.map true false (omega (arith, ok_b.chunks))
          ∙ unfilled)))

-- The payload is a whole chunk, unless it is for the last one, and ends inside of the buffer.
abbrev pub HasRightSize : WriteableBuffer → ℕ → Bytes → Type 0
HasRightSize b position bytes =
    ((length bytes ≡ 1368) ⊎ (position / 1368 ≡ length b.map - 1))
    × (position + length bytes ≤ buffer_length b)

-- What a write means for its buffer, by what it returns.
abbrev pub WriteMeans : WriteableBuffer → ℕ → Bytes → WriteableBuffer → WriteResult → Type 0
WriteMeans b position bytes after (wrote start end) =
    (start ≡ position)
    × ((end ≡ position + length bytes)
        × ((get_or b.map (position / 1368) false ≡ false)
            × ((HasRightSize b position bytes)
                × ((after ≡ written_at b position bytes after.head)
                    × ((b.head ≤ after.head) × IsWriteable after)))))
WriteMeans b position bytes after (refused BufferError.not_valid) =
    (after ≡ b) × (buffer_length b < position)
WriteMeans b position bytes after (refused BufferError.occupied) =
    (after ≡ b) × (get_or b.map (position / 1368) false ≡ true)
WriteMeans b position bytes after (refused BufferError.wrong_size) =
    (after ≡ b)
    × ((get_or b.map (position / 1368) false ≡ false) × (¬ (HasRightSize b position bytes)))

is_wrong_size-HasRightSize :
    (b : WriteableBuffer) (position : ℕ) (bytes : Bytes)
    → is_wrong_size b position bytes ≡ false
    → HasRightSize b position bytes
unfolding is_wrong_size
is_wrong_size-HasRightSize b position bytes h =
    let (size, inside) = or_false _ _ h in (whole_or_last size, ltb→ge _ _ inside)
  where
    or_false : (x y : Bool) → (x || y) ≡ false → (x ≡ false) × (y ≡ false)
    or_false true y e = cc
    or_false false y e = (refl, e)

    whole_or_last :
        (not (length bytes == 1368) && not (position / 1368 == length b.map - 1)) ≡ false
        → (length bytes ≡ 1368) ⊎ (position / 1368 ≡ length b.map - 1)
    whole_or_last e = elim (Bool-cases (length bytes == 1368)) [
      | inl whole ↦ inl ((==_iff (length bytes) 1368).0 whole)
      | inr other ↦ elim (Bool-cases (position / 1368 == length b.map - 1)) [
        | inl last ↦ inr ((==_iff (position / 1368) (length b.map - 1)).0 last)
        | inr middle ↦ absurd (cc (rw (other, middle) at e))
      ]
    ]

not-HasRightSize :
    (b : WriteableBuffer) (position : ℕ) (bytes : Bytes)
    → is_wrong_size b position bytes ≡ true
    → ¬ (HasRightSize b position bytes)
unfolding is_wrong_size
not-HasRightSize b position bytes wrong (inl whole, inside) =
    cc (
      rw (whole, le→ltb (buffer_length b) (position + 1368) (omega (arith, whole, inside))) at
        wrong)
not-HasRightSize b position bytes wrong (inr last, inside) = cc (
  rw (last, ==_refl (length b.map - 1), le→ltb (buffer_length b) (position + length bytes) inside)
      at wrong,
  in_last (length bytes == 1368),
)
  where
    in_last : (whole : Bool) → ((not whole && false) || false) ≡ false
    in_last true = refl
    in_last false = refl

pub position_occupied-none :
    (b : WriteableBuffer) (position : ℕ)
    → ltb (buffer_length b) position ≡ true
    → position_occupied b position ≡ ok none
unfolding position_occupied position_to_index
position_occupied-none b position h = rw (position_occupied, position_to_index, h) refl

at_right_size :
    (debug : Bool) (b : WriteableBuffer) (position : ℕ) (bytes : Bytes)
    → IsWriteable b
    → IsAddressable b
    → get_or b.map (position / 1368) false ≡ false
    → (wrong : Bool) → is_wrong_size b position bytes ≡ wrong
    → (after : WriteableBuffer) × (result : WriteResult) × (write_chunk debug b position bytes
        ≡ ok (after, result))
      × WriteMeans b position bytes after result
unfolding write_chunk
at_right_size debug b position bytes ok_b small unfilled true size = (
  b,
  refused BufferError.wrong_size,
  rw (write_chunk, size) refl,
  (refl, (unfilled, not-HasRightSize b position bytes size)),
)
at_right_size debug b position bytes ok_b small unfilled false size =
    let fits = is_wrong_size-HasRightSize b position bytes size in
    let (head, eq, forth, well) =
      write_chunk-accepts debug b position bytes ok_b small unfilled fits.1 size in
    (
      written_at b position bytes head,
      wrote position (position + length bytes),
      eq,
      (refl, (refl, (unfilled, (fits, (refl, (forth, well)))))),
    )

at_chunk :
    (debug : Bool) (b : WriteableBuffer) (position : ℕ) (bytes : Bytes)
    → IsWriteable b
    → IsAddressable b
    → position ≤ buffer_length b
    → (filled : Bool) → get_or b.map (position / 1368) false ≡ filled
    → (after : WriteableBuffer) × (result : WriteResult) × (write debug b position bytes
        ≡ ok (after, result))
      × WriteMeans b position bytes after result
unfolding write
at_chunk debug b position bytes ok_b small inside true filled = (
  b,
  refused BufferError.occupied,
  rw (write, position_occupied_lem b position ok_b.chunks inside, filled) refl,
  (refl, filled),
)
at_chunk debug b position bytes ok_b small inside false unfilled =
    let (after, result, eq, means) =
      at_right_size debug b position bytes ok_b small unfilled (is_wrong_size b position bytes)
        refl in
    (
      after,
      result,
      rw (write, position_occupied_lem b position ok_b.chunks inside, unfilled) eq,
      means,
    )

-- A write to a well-formed buffer that 32-bit positions can address never panics, in a build with
-- debug assertions or without. It is refused, and changes nothing, exactly with the error that the state
-- of the chunk and the size of the payload call for: a payload has the right size when it is a whole
-- chunk, or is for the last one, and ends in the buffer. Otherwise it returns the range of the payload,
-- which has the right size, the payload stands there and all other bytes are kept, exactly the chunk
-- is marked, the list of invalid areas is that of the marked map, the head does not go back, and the
-- buffer is well-formed again.
pub write_total :
    (debug : Bool) (b : WriteableBuffer) (position : ℕ) (bytes : Bytes)
    → IsWriteable b
    → IsAddressable b
    → (after : WriteableBuffer) × (result : WriteResult) × (write debug b position bytes
        ≡ ok (after, result))
      × WriteMeans b position bytes after result
unfolding write
write_total debug b position bytes ok_b small = elim (Bool-cases (ltb (buffer_length b) position)) [
  | inl past ↦ (
    b,
    refused BufferError.not_valid,
    rw (write, position_occupied-none b position past) refl,
    (refl, ltb→lt (buffer_length b) position past),
  )
  | inr inside ↦
      at_chunk debug b position bytes ok_b small (ground arith)
        (get_or b.map (position / 1368) false) refl
]

holes_of_replicate : (s k n : ℕ) → areas_from (some s) k (replicate n false) ≡ area s (k + n) ∷ []
unfolding areas_from
holes_of_replicate s k zero = ap (λ e. area s e ∷ []) (sym (add_zero k))
holes_of_replicate s k (suc n) =
    holes_of_replicate s (k + 1) n ∙ ap (λ e. area s e ∷ []) (sym (add_suc k n))

holes_new : (n : ℕ) → areas_from none 0 (replicate (n + 1) false) ≡ area 0 (n + 1) ∷ []
unfolding areas_from
holes_new n = rw (add_one n) (holes_of_replicate 0 1 n ∙ ap (λ e. area 0 e ∷ []) (one_add n))

get_or-replicate : (n i : ℕ) → get_or (replicate n false) i false ≡ false
get_or-replicate zero i = refl
get_or-replicate (suc n) zero = refl
get_or-replicate (suc n) (suc i) = get_or-replicate n i

-- A new buffer is well-formed, and no chunk of it is filled.
pub from_bytes-IsWriteable :
    (value : Bytes)
    → IsWriteable (from_bytes value) × ((i : ℕ) → get_or (from_bytes value).map i false ≡ false)
unfolding from_bytes
from_bytes-IsWriteable value = (
  record {
    chunks = length-replicate (length value / 1368 + 1) false;
    areas = sym (holes_new (length value / 1368));
    head_fits = (omega arith, inl refl);
    stops = inr (get_or-replicate (length value / 1368 + 1) 0);
  },
  get_or-replicate (length value / 1368 + 1),
)
