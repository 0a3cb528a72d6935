-- ===== src/Retransmit.antt =====
-- Requests for retransmission: `ByteRange::concat` of src/manager/packets.rs, and
-- `coalesce_byte_positions` and `split_range_into_chunks` of src/manager/state.rs.
pub mod Ranges
pub mod Total
use ubass_rs.Base.{
  ℕ, zero, suc, ◌+◌, ◌-◌, ◌/◌, ◌%◌, ◌^◌, min, ◌==◌, leb, ltb, ◌&&◌, if◌then◌else◌, Bool, true,
  false, List, [], ◌∷◌, ◌++◌, map,
}
use ubass_rs.Base.Outcome.{Outcome, ok, ◌>>=◌}
use ubass_rs.Packets.Scalars.{ByteRange, byte_range_new, max_payload_length}
use ubass_rs.Buffers.Writeable.{add_u32}

-- `self.start + self.length == other.start || other.start + other.length == self.start`
unfoldable pub ranges_touch : Bool → ByteRange → ByteRange → Outcome Bool
ranges_touch debug self other = do
  self_end ← add_u32 debug self.start self.length
  if self_end == other.start
      then ok true
      else (do other_end ← add_u32 debug other.start other.length; ok (other_end == self.start))

-- `ByteRange::concat`. The sum of the lengths is that of `checked_add` on `u16`s.
unfoldable pub concat : Bool → ByteRange → ByteRange → Outcome (ByteRange × Bool)
unfolding ranges_touch
concat debug self other = do
  touch ← ranges_touch debug self other
  if touch && ltb (self.length + other.length) (2 ^ 16)
      then (do
        other_end ← add_u32 debug other.start other.length
        ok (
          record self {
            start = if other_end == self.start then other.start else self.start;
            length = self.length + other.length;
          },
          true,
        ))
      else ok (self, false)

-- The `for` of `coalesce_byte_positions`.
unfoldable pub coalesce_loop : Bool → ByteRange → List ByteRange → Outcome (List ByteRange)
unfolding concat
coalesce_loop debug current [] = ok (current ∷ [])
coalesce_loop debug current (next ∷ rest) = do
  joined ← concat debug current next
  elim joined.1 [
    | true ↦ coalesce_loop debug joined.0 rest
    | false ↦ do out ← coalesce_loop debug next rest; ok (current ∷ out)
  ]

-- `.map(|p| ByteRange::new(p, MAX_PAYLOAD_LENGTH as u16))`
unfoldable pub chunk_ranges : Bool → List ℕ → Outcome (List ByteRange)
chunk_ranges debug [] = ok []
chunk_ranges debug (p ∷ ps) = do
  r ← byte_range_new debug p max_payload_length
  rs ← chunk_ranges debug ps
  ok (r ∷ rs)

unfoldable pub coalesce_ranges : Bool → List ByteRange → Outcome (List ByteRange)
unfolding coalesce_loop
coalesce_ranges debug [] = ok []
coalesce_ranges debug (current ∷ rest) = coalesce_loop debug current rest

unfoldable pub coalesce_byte_positions : Bool → List ℕ → Outcome (List ByteRange)
unfolding chunk_ranges coalesce_ranges
coalesce_byte_positions debug positions = do
  ranges ← chunk_ranges debug positions
  coalesce_ranges debug ranges

-- The iterator of `split_range_into_chunks` from `pos` on, `fuel` times at most.
unfoldable pub split_loop : Bool → ℕ → ℕ → ℕ → Outcome (List ByteRange)
split_loop debug zero pos end = ok []
split_loop debug (suc fuel) pos end = elim (leb end pos) [
  | true ↦ ok []
  | false ↦ do
    r ← byte_range_new debug pos (min (end - pos) max_payload_length % 2 ^ 16)
    next ← add_u32 debug pos r.length
    rest ← split_loop debug fuel next end
    ok (r ∷ rest)
]

-- A range of `length` bytes has at most `length / 1368 + 1` chunks.
unfoldable pub split_range_into_chunks : Bool → ByteRange → Outcome (List ByteRange)
unfolding split_loop
split_range_into_chunks debug range = do
  end ← add_u32 debug range.start range.length
  split_loop debug (range.length / max_payload_length + 2) range.start end

-- The chunks of several ranges, one range after the other.
unfoldable pub split_all : Bool → List ByteRange → Outcome (List ByteRange)
unfolding split_range_into_chunks
split_all debug [] = ok []
split_all debug (r ∷ rs) = do
  first ← split_range_into_chunks debug r
  rest ← split_all debug rs
  ok (first ++ rest)
