-- ===== src/Buffers/Readable.antt =====
-- `struct ReadableBuffer` of src/api/types.rs: the bytes that a sender hands out, chunk by chunk.
use ubass_rs.Base.{
  ℕ, ◌+◌, ◌-◌, ◌%◌, ◌^◌, min, Bool, leb, ltb, ◌||◌, if◌then◌else◌, Option, none, some, length, take,
  drop,
}
use ubass_rs.Base.Outcome.{Outcome, ok, panic, ◌>>=◌}
use ubass_rs.Wire.Codec.{Bytes}
use ubass_rs.Packets.Scalars.{max_payload_length}

pub record ReadableBuffer : Type 0 where
  pub buffer : Bytes
  pub head : ℕ

abbrev pub readable : Bytes → ReadableBuffer
readable value = record { buffer = value; head = 0 }

-- `&self.buffer[start..end]`
unfoldable pub slice : Bytes → ℕ → ℕ → Outcome Bytes
slice buffer start end =
    if ltb end start || ltb (length buffer) end
    then panic
    else ok (take (end - start) (drop start buffer))

unfoldable pub readable_is_done : ReadableBuffer → Bool
readable_is_done b = leb (length b.buffer) b.head

-- `Iterator::next`
unfoldable pub next : ReadableBuffer → Outcome (ReadableBuffer × Option (ℕ × Bytes))
unfolding slice readable_is_done
next b =
    let head = min (length b.buffer) (b.head + max_payload_length) in
    if readable_is_done b then ok (b, none) else (do
      chunk ← slice b.buffer b.head head
      ok (record b { head = head }, some (b.head % 2 ^ 32, chunk)))

-- `seek` returns the position before it.
unfoldable pub seek : ReadableBuffer → ℕ → ReadableBuffer × ℕ
seek b pos =
    let exact = min pos (length b.buffer) in
    (record b { head = exact - exact % max_payload_length }, b.head % 2 ^ 32)

-- `self.buffer.get(range.start..end)`
unfoldable pub read : ReadableBuffer → ℕ → ℕ → Option Bytes
read b start end =
    let stop = min end (length b.buffer) in
    if ltb stop start then none else some (take (stop - start) (drop start b.buffer))
