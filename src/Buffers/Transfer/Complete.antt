-- ===== src/Buffers/Transfer/Complete.antt =====
-- All chunks of a track, in any order and any number of times.
use ubass_rs.Base.{
  ℕ, zero, suc, ◌+◌, ◌*◌, ◌/◌, ◌%◌, ◌^◌, ◌<◌, ◌≡◌, refl, ap, ◌∙◌, arith, ◌==◌, ◌⊎◌, inl, inr,
}
use ubass_rs.Base.{
  Bool, true, false, not, ◌&&◌, List, [], ◌∷◌, length, get_or, get_or-ext, All, Bool-cases, leb,
  leb_refl, ==_iff,
}
use ubass_rs.Base.Outcome.{ok}
use ubass_rs.Wire.Codec.{Bytes}
use ubass_rs.Buffers.Writeable.{
  WriteableBuffer, from_bytes, is_done, head_at_end, all_filled, buffer_length,
}
use ubass_rs.Buffers.Writeable.Head.{IsWriteable}
use ubass_rs.Buffers.Writeable.Writes.{from_bytes-IsWriteable}
use ubass_rs.Buffers.Transfer.{chunks_of, receive}
use ubass_rs.Buffers.Transfer.Chunks.{Agrees, write_chunk_at}

-- Chunk `i` is among those sent.
abbrev pub IsSent : List ℕ → ℕ → Type 0
IsSent [] i = ⊥
IsSent (j ∷ js) i = (i ≡ j) ⊎ IsSent js i

-- What a buffer is after some chunks of a track have arrived.
abbrev pub Received : Bytes → WriteableBuffer → List ℕ → WriteableBuffer → Type 0
Received src b is after =
    IsWriteable after
    × (Agrees src after
        × (((i : ℕ) → IsSent is i → get_or after.map i false ≡ true)
            × ((i : ℕ) → get_or b.map i false ≡ true → get_or after.map i false ≡ true)))

receive_chunks :
    (debug : Bool) (src : Bytes) (b : WriteableBuffer) (is : List ℕ)
    → IsWriteable b
    → length src + 1368 < 2 ^ 32
    → Agrees src b
    → All (λ i. i * 1368 < length src) is
    → (after : WriteableBuffer) × (receive debug b (chunks_of src is) ≡ ok after)
      × Received src b is after
unfolding receive
receive_chunks debug src b [] ok_b small agrees h =
    (b, refl, (ok_b, (agrees, (λ i sent. elim sent [ ], λ i f. f))))
receive_chunks debug src b (i ∷ is) ok_b small agrees h =
    let (mid, result, eq, (ok_mid, (agrees_mid, (has, keeps)))) =
      write_chunk_at debug src b i ok_b (omega (arith, small, agrees.same_length)) agrees h.0 in
    let (after, eq_after, (ok_after, (agrees_after, (all_sent, keeps_after)))) =
      receive_chunks debug src mid is ok_mid small agrees_mid h.1 in
    (
      after,
      rw (eq) eq_after,
      (
        ok_after,
        (
          agrees_after,
          (
            λ j sent. elim sent [
              | inl e ↦ keeps_after j (ap (λ n. get_or mid.map n false) e ∙ has)
              | inr later ↦ all_sent j later
            ],
            λ j f. keeps_after j (keeps j f),
          ),
        ),
      ),
    )

all_filled_get :
    (m : List Bool) (i : ℕ) → all_filled m ≡ true → i < length m → get_or m i false ≡ true
unfolding all_filled
all_filled_get [] i h l = absurd (omega arith)
all_filled_get (false ∷ m) i h l = cc
all_filled_get (true ∷ m) zero h l = refl
all_filled_get (true ∷ m) (suc i) h l = all_filled_get m i h (omega arith)

all_filled_put :
    (m : List Bool) → ((i : ℕ) → i < length m → get_or m i false ≡ true) → all_filled m ≡ true
unfolding all_filled
all_filled_put [] h = refl
all_filled_put (false ∷ m) h = cc (h 0 (omega arith))
all_filled_put (true ∷ m) h = all_filled_put m (λ i l. h (suc i) (omega arith))

-- A buffer that has every chunk of the track holds the track.
holds_track :
    (src : Bytes) (b : WriteableBuffer)
    → Agrees src b
    → ((i : ℕ) → i * 1368 < length src → get_or b.map i false ≡ true)
    → b.buffer ≡ src
holds_track src b agrees has =
    get_or-ext b.buffer src 0 agrees.same_length
      (λ k l. agrees.same_bytes k (has (k / 1368) (omega (arith, l, agrees.same_length))))

done_when :
    (src : Bytes) (b : WriteableBuffer)
    → IsWriteable b
    → Agrees src b
    → ((i : ℕ) → i * 1368 < length src → get_or b.map i false ≡ true)
    → is_done b ≡ not (length src % 1368 == 0)
unfolding is_done head_at_end
done_when src b ok_b agrees has = elim (Bool-cases (length src % 1368 == 0)) [
  | inl whole ↦
      rw (is_done, never_filled ((==_iff (length src % 1368) 0).0 whole), whole)
        (and_false (leb (buffer_length b) b.head))
  | inr part ↦
      let filled =
        all_filled_put b.map
          (λ i l. has i (omega (arith, ok_b.chunks, agrees.same_length, l, rest part))) in
      rw (is_done, head_at_end, filled, part, at_end part) refl
]
  where
    and_false : (x : Bool) → (x && false) ≡ false
    and_false true = refl
    and_false false = refl

    rest : (length src % 1368 == 0) ≡ false → 0 < length src % 1368
    rest h = ground arith

    never_filled : length src % 1368 ≡ 0 → all_filled b.map ≡ false
    never_filled whole = elim (Bool-cases (all_filled b.map)) [
      | inl all ↦ absurd (
          omega (
            arith,
            whole,
            agrees.inside (length src / 1368) (
                all_filled_get b.map (length src / 1368) all
                  (omega (arith, ok_b.chunks, agrees.same_length))),
          ))
      | inr h ↦ h
    ]

    at_end : (length src % 1368 == 0) ≡ false → leb (buffer_length b) b.head ≡ true
    at_end part = elim ok_b.stops [
      | inl e ↦ rw (e) (leb_refl (buffer_length b))
      | inr open_ ↦ absurd (
          cc (
            open_,
            has (b.head / 1368) (omega (arith, rest part, ok_b.head_fits.0, agrees.same_length)),
          ))
    ]

-- The chunks of a track of less than 2³² - 1368 bytes, each of them written at least once, in any
-- order and any number of times, to a new buffer of the size of the track, are received without a
-- panic, and the buffer holds the track. `is_done` then holds exactly when the size of the track is
-- not a multiple of 1368: the map of a buffer has a chunk more than a track of such a size, and that
-- chunk is never sent.
pub transfer_complete :
    (debug : Bool) (src dst : Bytes) (is : List ℕ)
    → length dst ≡ length src
    → length src + 1368 < 2 ^ 32
    → All (λ i. i * 1368 < length src) is
    → ((i : ℕ) → i * 1368 < length src → IsSent is i)
    → (after : WriteableBuffer) × (receive debug (from_bytes dst) (chunks_of src is) ≡ ok after)
      × (after.buffer ≡ src)
      × (is_done after ≡ not (length src % 1368 == 0))
unfolding from_bytes
transfer_complete debug src dst is same small chunks every =
    let (fresh, empty) = from_bytes-IsWriteable dst in
    let agrees : Agrees src (from_bytes dst) = record {
      same_length = same;
      same_bytes = λ k filled. absurd (cc (filled, empty (k / 1368)));
      inside = λ i filled. absurd (cc (filled, empty i));
    } in
    let (after, eq, (ok_after, (agrees_after, (sent, _)))) =
      receive_chunks debug src (from_bytes dst) is fresh small agrees chunks in
    let has : (i : ℕ) → i * 1368 < length src → get_or after.map i false ≡ true =
      λ i l. sent i (every i l) in
    (
      after,
      eq,
      holds_track src after agrees_after has,
      done_when src after ok_after agrees_after has,
    )
