-- ===== src/Buffers/Transfer/Sender.antt =====
-- What a `ReadableBuffer` (src/api/types.rs) hands out: the chunks of its bytes, in order.
use ubass_rs.Base.{
  ℕ, zero, suc, ◌+◌, ◌-◌, ◌*◌, ◌/◌, ◌%◌, ◌^◌, ◌≤◌, ◌<◌, min, ◌≡◌, refl, sym, ap, ◌∙◌, arith, inl,
  inr,
}
use ubass_rs.Base.{
  Bool, false, Option, none, some, List, [], ◌∷◌, length, take, drop, length-drop, ltb, le→ltb,
  lt→leb_false, le→leb, if◌then◌else◌, All, add_one, Bool-cases, ltb→lt, ltb→ge,
}
use ubass_rs.Base.Outcome.{Outcome, ok, ◌>>=◌}
use ubass_rs.Wire.Codec.{Bytes}
use ubass_rs.Buffers.Readable.{ReadableBuffer, readable, next, seek, slice, readable_is_done}
use ubass_rs.Buffers.Transfer.{chunk_at, chunks_of, receive}
use ubass_rs.Buffers.Transfer.Complete.{IsSent, transfer_complete}
use ubass_rs.Buffers.Writeable.{WriteableBuffer, from_bytes}

-- `next` until it returns `None`, `fuel` times at most.
unfoldable pub send_all : ℕ → ReadableBuffer → Outcome (List (ℕ × Bytes))
unfolding next
send_all zero b = ok []
send_all (suc fuel) b = do
  sent ← next b
  rest ← send_all fuel sent.0
  elim sent.1 [ none ↦ ok [] | some packet ↦ ok (packet ∷ rest) ]

-- The numbers from `i` on, `n` of them.
abbrev pub range_from : ℕ → ℕ → List ℕ
range_from i zero = []
range_from i (suc n) = i ∷ range_from (i + 1) n

take-min : (n m : ℕ) (xs : Bytes) → length xs ≤ m → take (min m n) xs ≡ take n xs
take-min n m [] h = nil (min m n) n
  where
    nil : (a b : ℕ) → ◌≡◌ {A = Bytes} (take a []) (take b [])
    nil zero zero = refl
    nil zero (suc b) = refl
    nil (suc a) zero = refl
    nil (suc a) (suc b) = refl
take-min zero m (x ∷ xs) h = ap (λ k. take k (x ∷ xs)) (min_zero m)
  where
    min_zero : (m : ℕ) → min m 0 ≡ 0
    min_zero m = omega arith
take-min (suc n) zero (x ∷ xs) h = absurd (omega arith)
take-min (suc n) (suc m) (x ∷ xs) h =
    rw (min_suc m n) (ap (λ r. x ∷ r) (take-min n m xs (omega arith)))
  where
    min_suc : (m n : ℕ) → min (suc m) (suc n) ≡ suc (min m n)
    min_suc m n = omega arith

next_at :
    (src : Bytes) (head : ℕ)
    → head < length src
    → next (record { buffer = src; head = head })
      ≡ ok (
        record { buffer = src; head = min (length src) (head + 1368) },
        some (head % 2 ^ 32, take 1368 (drop head src)),
      )
unfolding next
next_at src head h = rw (next, not_done, slice, above, inside, size, taken) refl
  where
    stop : ℕ
    stop = min (length src) (head + 1368)

    not_done : readable_is_done (record { buffer = src; head = head }) ≡ false
    not_done = lt→leb_false head (length src) h

    above : ltb stop head ≡ false
    above = le→ltb stop head (omega arith)

    inside : ltb (length src) stop ≡ false
    inside = le→ltb (length src) stop (omega arith)

    size : stop - head ≡ min (length src - head) 1368
    size = omega arith

    taken : take (min (length src - head) 1368) (drop head src) ≡ take 1368 (drop head src)
    taken = take-min 1368 (length src - head) (drop head src) (omega (arith, length-drop head src))

-- A buffer that is read from chunk `i` on, or at its end when it has no such chunk.
abbrev pub at_chunk : Bytes → ℕ → ReadableBuffer
at_chunk src i = record { buffer = src; head = min (length src) (i * 1368) }

-- The chunk that a seek goes to.
abbrev pub seek_chunk : ReadableBuffer → ℕ → ℕ
seek_chunk b pos = min pos (length b.buffer) / 1368

pub next_chunk :
    (src : Bytes) (i : ℕ)
    → i * 1368 < length src
    → length src < 2 ^ 32
    → next (at_chunk src i) ≡ ok (at_chunk src (i + 1), some (i * 1368, chunk_at src i))
next_chunk src i h small = rw (here, next_at src (i * 1368) h, fits, following) refl
  where
    here : min (length src) (i * 1368) ≡ i * 1368
    here = omega arith

    fits : i * 1368 % 2 ^ 32 ≡ i * 1368
    fits = omega arith

    following : i * 1368 + 1368 ≡ (i + 1) * 1368
    following = omega arith

-- For a track of less than 2³² bytes, after a seek to `pos` - or to the end, when `pos` is past it - the
-- next thing a sender hands out is the whole chunk that this position lies in, with the position of
-- that chunk's start, and then it stands at the chunk behind; when no chunk begins there, because the
-- track ends with the chunk in front, it hands out nothing and stays.
pub next-seek :
    (b : ReadableBuffer) (pos : ℕ)
    → length b.buffer < 2 ^ 32
    → next (seek b pos).0
      ≡ ok (
          if ltb (seek_chunk b pos * 1368) (length b.buffer)
          then (
            at_chunk b.buffer (seek_chunk b pos + 1),
            some (seek_chunk b pos * 1368, chunk_at b.buffer (seek_chunk b pos)),
          )
          else ((seek b pos).0, none))
unfolding seek next readable_is_done
next-seek b pos small = elim (Bool-cases (ltb (seek_chunk b pos * 1368) (length b.buffer))) [
  | inl e ↦
      rw (seek, landed)
        (next_chunk b.buffer (seek_chunk b pos)
            (ltb→lt (seek_chunk b pos * 1368) (length b.buffer) e) small
          ∙ ap (λ c. ok (if c then found else stays)) (sym e))
  | inr e ↦
      rw
        (
          seek,
          next,
          readable_is_done,
          le→leb (length b.buffer) (min pos (length b.buffer) - min pos (length b.buffer) % 1368)
              (omega (arith, ltb→ge (seek_chunk b pos * 1368) (length b.buffer) e)),
        )
        (ap (λ c. ok (if c then found else ended)) (sym e))
]
  where
    landed :
        min pos (length b.buffer) - min pos (length b.buffer) % 1368
        ≡ min (length b.buffer) (seek_chunk b pos * 1368)
    landed = omega arith

    found : ReadableBuffer × Option (ℕ × Bytes)
    found = (
      at_chunk b.buffer (seek_chunk b pos + 1),
      some (seek_chunk b pos * 1368, chunk_at b.buffer (seek_chunk b pos)),
    )

    stays : ReadableBuffer × Option (ℕ × Bytes)
    stays = (at_chunk b.buffer (seek_chunk b pos), none)

    ended : ReadableBuffer × Option (ℕ × Bytes)
    ended = (
      record {
        buffer = b.buffer;
        head = min pos (length b.buffer) - min pos (length b.buffer) % 1368;
      },
      none,
    )

pub next_end :
    (src : Bytes) (i : ℕ)
    → length src ≤ i * 1368
    → next (at_chunk src i) ≡ ok (at_chunk src i, none)
unfolding next readable_is_done
next_end src i h =
    rw
      (next, readable_is_done, le→leb (length src) (min (length src) (i * 1368)) (omega (arith, h)))
      refl

pub length_chunks : (src : Bytes) (i n : ℕ) → length (chunks_of src (range_from i n)) ≡ n
length_chunks src i zero = refl
length_chunks src i (suc n) = ap (λ k. suc k) (length_chunks src (i + 1) n)

all_sent :
    (src : Bytes) (i n : ℕ)
    → length src < 2 ^ 32
    → n * 1368 < length src + 1368 - i * 1368
    → length src ≤ (i + n) * 1368
    → send_all (suc n) (at_chunk src i) ≡ ok (chunks_of src (range_from i n))
unfolding send_all
all_sent src i zero small h l = rw (next_end src i (omega (arith, l))) refl
all_sent src i (suc n) small h l =
    rw
      (
        next_chunk src i (omega (arith, h)) small,
        all_sent src (i + 1) n small (omega (arith, h)) (omega (arith, l)),
      )
      refl

-- The number of chunks that a sender hands out.
abbrev pub sent_chunks : Bytes → ℕ
sent_chunks src = (length src + 1367) / 1368

range_inside :
    (len i n : ℕ) → (i + n) * 1368 < len + 1368 → All (λ j. j * 1368 < len) (range_from i n)
range_inside len i zero h = tt
range_inside len i (suc n) h = (omega arith, range_inside len (i + 1) n (omega arith))

range_has : (i n j : ℕ) → i ≤ j → j < i + n → IsSent (range_from i n) j
range_has i zero j h l = absurd (omega arith)
range_has i (suc n) j h l = elim (Bool-cases (ltb i j)) [
  | inl later ↦ inr (range_has (i + 1) n j (omega (arith, ltb→lt i j later)) (omega arith))
  | inr here ↦ inl (omega (arith, ltb→ge i j here))
]

-- A track of less than 2³² - 1368 bytes, handed out by a `ReadableBuffer` from its start until it has no
-- more, and written as it comes to a new `WriteableBuffer` of the same size: the sender hands out
-- its chunks and ends, nothing panics, and the receiver holds the track.
pub track_transfer :
    (debug : Bool) (src dst : Bytes)
    → length dst ≡ length src
    → length src + 1368 < 2 ^ 32
    → (packets : List (ℕ × Bytes)) × (after : WriteableBuffer) × (send_all
          (sent_chunks src + 1)
          (readable src)
        ≡ ok packets)
      × (length packets ≡ sent_chunks src)
      × (receive debug (from_bytes dst) packets ≡ ok after)
      × (after.buffer ≡ src)
track_transfer debug src dst same small =
    let all : All (λ j. j * 1368 < length src) (range_from 0 (sent_chunks src)) =
      range_inside (length src) 0 (sent_chunks src) (omega arith) in
    let (after, eq, holds, _) =
      transfer_complete debug src dst (range_from 0 (sent_chunks src)) same small all
        (λ i h. range_has 0 (sent_chunks src) i (omega arith) (omega arith)) in
    (
      chunks_of src (range_from 0 (sent_chunks src)),
      after,
      rw (add_one (sent_chunks src), start)
          (all_sent src 0 (sent_chunks src) (omega arith) (omega arith) (omega arith)),
      length_chunks src 0 (sent_chunks src),
      eq,
      holds,
    )
  where
    start : readable src ≡ at_chunk src 0
    start = ap (λ h. record { buffer = src; head = h }) (omega arith)
