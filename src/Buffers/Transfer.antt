-- ===== src/Buffers/Transfer.antt =====
-- The chunks of a `ReadableBuffer`, written one after the other to a `WriteableBuffer`
-- (src/api/types.rs).
pub mod Chunks
pub mod Complete
pub mod Sender
use ubass_rs.Base.{ℕ, ◌*◌, Bool, List, [], ◌∷◌, take, drop, map}
use ubass_rs.Base.Outcome.{Outcome, ok, ◌>>=◌}
use ubass_rs.Wire.Codec.{Bytes}
use ubass_rs.Buffers.Writeable.{WriteableBuffer, write}

-- Chunk `i` of the bytes of a track, with its position.
abbrev pub chunk_at : Bytes → ℕ → Bytes
chunk_at src i = take 1368 (drop (i * 1368) src)

abbrev pub chunks_of : Bytes → List ℕ → List (ℕ × Bytes)
chunks_of src is = map (λ i. (i * 1368, chunk_at src i)) is

-- What arrives is written, and what `write` answers is not looked at.
unfoldable pub receive : Bool → WriteableBuffer → List (ℕ × Bytes) → Outcome WriteableBuffer
receive debug b [] = ok b
receive debug b (packet ∷ packets) = do
  answer ← write debug b packet.0 packet.1
  receive debug answer.0 packets
