-- ===== src/Buffers/Writeable.antt =====
-- `struct WriteableBuffer` of src/api/types.rs: the bytes that a receiver fills, chunk by chunk. The
-- memory behind the pointer is the list `buffer`; a null pointer is not modelled. `debug` tells
-- whether the build has debug assertions and overflow checks.
pub mod Head
pub mod Writes
pub mod Holes
use ubass_rs.Base.{ℕ, zero, suc, ◌+◌, ◌-◌, ◌*◌, ◌/◌, ◌%◌, ◌^◌, min, ◌==◌, ltb, leb}
use ubass_rs.Base.{Bool, true, false, not, ◌&&◌, ◌||◌, if◌then◌else◌, Option, none, some}
use ubass_rs.Base.{List, [], ◌∷◌, ◌++◌, length, get_elem?, set, take, drop, replicate}
use ubass_rs.Base.Outcome.{Outcome, ok, panic, ◌>>=◌, ◌>>◌}
use ubass_rs.Wire.Codec.{Bytes}
use ubass_rs.Packets.Scalars.{debug_assert, max_payload_length}
use ubass_rs.Buffers.Areas.{Area, area, occupy_areas}

pub record WriteableBuffer : Type 0 where
  pub buffer : Bytes
  pub head : ℕ
  pub map : List Bool
  pub invalid_areas : List Area

-- `From<&[u8]>` and `From<*mut T>`
unfoldable pub from_bytes : Bytes → WriteableBuffer
from_bytes value =
    let num_chunks = length value / max_payload_length + 1 in
    record {
      buffer = value;
      head = 0;
      map = replicate num_chunks false;
      invalid_areas = area 0 num_chunks ∷ [];
    }

-- `self.len()`
abbrev pub buffer_length : WriteableBuffer → ℕ
buffer_length b = length b.buffer

-- `self.map[i]`
unfoldable pub index_map : List Bool → ℕ → Outcome Bool
index_map m i = elim (get_elem? m i) [ none ↦ panic | some filled ↦ ok filled ]

unfoldable pub all_filled : List Bool → Bool
all_filled [] = true
all_filled (filled ∷ m) = filled && all_filled m

unfoldable pub head_at_end : WriteableBuffer → Bool
head_at_end b = leb (buffer_length b) b.head

unfoldable pub is_done : WriteableBuffer → Bool
unfolding all_filled head_at_end
is_done b = head_at_end b && all_filled b.map

unfoldable pub position_to_index : WriteableBuffer → ℕ → Option ℕ
position_to_index b position =
    if ltb (buffer_length b) position then none else some (position / max_payload_length)

unfoldable pub position_occupied : WriteableBuffer → ℕ → Outcome (Option Bool)
unfolding index_map position_to_index
position_occupied b position = elim (position_to_index b position) [
  | none ↦ ok none
  | some i ↦ do filled ← index_map b.map i; ok (some filled)
]

unfoldable pub occupy : Bool → WriteableBuffer → ℕ → Outcome WriteableBuffer
unfolding index_map position_to_index occupy_areas
occupy debug b position = elim (position_to_index b position) [
  | none ↦ if debug then panic else ok b
  | some i ↦ do
    filled ← index_map b.map i
    debug_assert debug (not filled)
    ok (record b { map = set b.map i true; invalid_areas = occupy_areas i b.invalid_areas })
]

-- `+=` on a `u32`
unfoldable pub add_u32 : Bool → ℕ → ℕ → Outcome ℕ
add_u32 debug a b =
    if ltb (a + b) (2 ^ 32) then ok (a + b) else if debug then panic else ok ((a + b) % 2 ^ 32)

-- The `while` of `advance_head`, on the map from chunk `i` on: the head and the chunk it stops at.
unfoldable pub advance_loop : Bool → ℕ → ℕ → List Bool → Outcome (ℕ × ℕ)
unfolding add_u32
advance_loop debug head i [] = ok (head, i)
advance_loop debug head i (false ∷ m) = ok (head, i)
advance_loop debug head i (true ∷ m) = do
  next ← add_u32 debug head max_payload_length
  advance_loop debug next (i + 1) m

unfoldable pub advance_head : Bool → WriteableBuffer → Outcome WriteableBuffer
unfolding advance_loop position_to_index
advance_head debug b = elim (position_to_index b b.head) [
  | none ↦ ok b
  | some first ↦ do
    stop ← advance_loop debug b.head first (drop first b.map)
    ok (record b { head = if stop.1 == length b.map then buffer_length b % 2 ^ 32 else stop.0 })
]

-- What `seek_head` returns is `None`, or whether the head went forward.
unfoldable pub seek_head : Bool → WriteableBuffer → ℕ → Outcome (WriteableBuffer × Option Bool)
unfolding advance_head position_to_index
seek_head debug b pos = elim (position_to_index b pos) [
  | none ↦ ok (b, none)
  | some _ ↦
      if ltb b.head pos
      then (do
        advanced ←
            advance_head debug (record b { head = pos / max_payload_length * max_payload_length })
        ok (advanced, some true))
      else ok (b, some false)
]

walk_back : List Bool → ℕ → Outcome ℕ
unfolding index_map
walk_back m zero = ok 0
walk_back m (suc prev) = do
  filled ← index_map m prev
  if filled then ok (suc prev) else walk_back m prev

unfoldable pub last_occupied_pos : WriteableBuffer → ℕ → Outcome (Option ℕ)
unfolding walk_back position_to_index
last_occupied_pos b from = elim (position_to_index b from) [
  | none ↦ ok none
  | some i ↦ do stop ← walk_back b.map i; ok (some (stop * max_payload_length % 2 ^ 32))
]

-- `(i..i + n).filter_map(…)`
unfoldable pub holes_loop : List Bool → ℕ → ℕ → Outcome (List ℕ)
unfolding index_map
holes_loop m i zero = ok []
holes_loop m i (suc n) = do
  filled ← index_map m i
  holes ← holes_loop m (i + 1) n
  ok (if filled then holes else (i * max_payload_length % 2 ^ 32) ∷ holes)

unfoldable pub find_holes : WriteableBuffer → ℕ → Outcome (List ℕ)
unfolding holes_loop position_to_index
find_holes b until = elim (position_to_index b (min until (buffer_length b % 2 ^ 32))) [
  | none ↦ panic
  | some end_idx ↦ holes_loop b.map 0 end_idx
]

-- `BufferError`, without the variant of a null pointer.
pub data BufferError : Type 0 where
  occupied not_valid wrong_size : BufferError

-- `Result<Range<usize>, BufferError>`
pub data WriteResult : Type 0 where
  wrote : ℕ → ℕ → WriteResult
  refused : BufferError → WriteResult

-- The test for `WrongSize`. The map has just been read at a chunk, so it has one.
unfoldable pub is_wrong_size : WriteableBuffer → ℕ → Bytes → Bool
is_wrong_size b position to_write =
    (not (length to_write == max_payload_length)
      && not (position / max_payload_length == length b.map - 1))
    || ltb (buffer_length b) (position + length to_write)

-- `buf[position..position + bytes.len()].copy_from_slice(bytes)`
unfoldable pub copy_at : ℕ → Bytes → Bytes → Outcome Bytes
copy_at position bytes buf =
    if ltb (length buf) (position + length bytes)
    then panic
    else ok (take position buf ++ (bytes ++ drop (position + length bytes) buf))

-- `write`, once the chunk is known to be there and not occupied.
unfoldable pub write_chunk :
    Bool → WriteableBuffer → ℕ → Bytes → Outcome (WriteableBuffer × WriteResult)
unfolding occupy advance_head copy_at is_wrong_size
write_chunk debug b position to_write =
    if is_wrong_size b position to_write then ok (b, refused BufferError.wrong_size) else (do
      marked ← occupy debug b position
      copied ← copy_at position to_write marked.buffer
      advanced ← advance_head debug (record marked { buffer = copied })
      ok (advanced, wrote position (position + length to_write)))

unfoldable pub write : Bool → WriteableBuffer → ℕ → Bytes → Outcome (WriteableBuffer × WriteResult)
unfolding position_occupied write_chunk
write debug b position to_write = do
  state ← position_occupied b position
  elim state [
    | none ↦ ok (b, refused BufferError.not_valid)
    | some true ↦ ok (b, refused BufferError.occupied)
    | some false ↦ write_chunk debug b position to_write
  ]
