-- ===== src/Buffers/Transfer/Chunks.antt =====
-- A chunk of a sender's buffer, written to a buffer that agrees with it.
use ubass_rs.Base.{
  ℕ, zero, suc, ◌+◌, ◌-◌, ◌*◌, ◌/◌, ◌≤◌, ◌<◌, min, ◌≡◌, refl, sym, ap, ◌∙◌, arith, ◌==◌, ltb,
  ltb→lt, ltb→ge, ==_iff, ==_false, ◌≢◌,
}
use ubass_rs.Base.{
  List, [], ◌∷◌, Bool, true, false, ◌++◌, length, take, drop, set, get_or, length-take, length-drop,
  get_or-append_left, get_or-append_right, get_or-take, get_or-drop, get_or-past, get_or-set_self,
  get_or-set_ne, Bool-cases, inl, inr,
}
use ubass_rs.Base.Outcome.{ok}
use ubass_rs.Wire.Codec.{Bytes}
use ubass_rs.Buffers.Writeable.{
  WriteableBuffer, buffer_length, write, WriteResult, wrote, refused, BufferError,
}
use ubass_rs.Buffers.Writeable.Head.{IsAddressable, IsWriteable}
use ubass_rs.Buffers.Writeable.Writes.{
  copied_at, written_at, length-copied_at, HasRightSize, WriteMeans, write_total,
}
use ubass_rs.Buffers.Transfer.{chunk_at}

-- The filled chunks hold the bytes of the track, and no chunk behind its end is filled.
pub record Agrees (src : Bytes) (b : WriteableBuffer) : Type 0 where
  pub same_length : length b.buffer ≡ length src
  pub same_bytes :
      (k : ℕ) → get_or b.map (k / 1368) false ≡ true → get_or b.buffer k 0 ≡ get_or src k 0
  pub inside : (i : ℕ) → get_or b.map i false ≡ true → i * 1368 < length src

pub length-chunk_at :
    (src : Bytes) (i : ℕ) → length (chunk_at src i) ≡ min 1368 (length src - i * 1368)
length-chunk_at src i =
    omega (arith, length-take 1368 (drop (i * 1368) src), length-drop (i * 1368) src)

copied_inside :
    (p k : ℕ) (c buf : Bytes)
    → p + length c ≤ length buf
    → p ≤ k
    → k < p + length c
    → get_or (copied_at p c buf) k 0 ≡ get_or c (k - p) 0
copied_inside p k c buf h l m =
    get_or-append_right k (take p buf) (c ++ drop (p + length c) buf) 0 (omega (arith, taken))
    ∙ get_or-append_left (k - length (take p buf)) c (drop (p + length c) buf) 0
        (omega (arith, taken))
    ∙ ap (λ n. get_or c (k - n) 0) taken
  where
    taken : length (take p buf) ≡ p
    taken = omega (arith, length-take p buf)

copied_before :
    (p k : ℕ) (c buf : Bytes)
    → p ≤ length buf
    → k < p
    → get_or (copied_at p c buf) k 0 ≡ get_or buf k 0
copied_before p k c buf h l =
    get_or-append_left k (take p buf) (c ++ drop (p + length c) buf) 0
      (omega (arith, length-take p buf))
    ∙ get_or-take k p buf 0 l

copied_behind :
    (p k : ℕ) (c buf : Bytes)
    → p + length c ≤ length buf
    → p + length c ≤ k
    → get_or (copied_at p c buf) k 0 ≡ get_or buf k 0
copied_behind p k c buf h l =
    get_or-append_right k (take p buf) (c ++ drop (p + length c) buf) 0 (omega (arith, taken))
    ∙ get_or-append_right (k - length (take p buf)) c (drop (p + length c) buf) 0
        (omega (arith, taken))
    ∙ get_or-drop (p + length c) (k - length (take p buf) - length c) buf 0
    ∙ ap (λ n. get_or buf n 0) rest
  where
    taken : length (take p buf) ≡ p
    taken = omega (arith, length-take p buf)

    rest : p + length c + (k - length (take p buf) - length c) ≡ k
    rest = omega (arith, taken)

chunk_byte :
    (src : Bytes) (i k : ℕ)
    → i * 1368 ≤ k
    → k - i * 1368 < 1368
    → get_or (chunk_at src i) (k - i * 1368) 0 ≡ get_or src k 0
chunk_byte src i k h l =
    get_or-take (k - i * 1368) 1368 (drop (i * 1368) src) 0 l
    ∙ get_or-drop (i * 1368) (k - i * 1368) src 0
    ∙ ap (λ n. get_or src n 0) whole
  where
    whole : i * 1368 + (k - i * 1368) ≡ k
    whole = omega arith

chunk_index : (i : ℕ) → i * 1368 / 1368 ≡ i
chunk_index i = omega arith

-- A chunk of the track has the right size for its place.
chunk-HasRightSize :
    (src : Bytes) (b : WriteableBuffer) (i : ℕ)
    → length b.buffer ≡ length src
    → length b.map ≡ buffer_length b / 1368 + 1
    → i * 1368 < length src
    → HasRightSize b (i * 1368) (chunk_at src i)
chunk-HasRightSize src b i same chunks h =
    (omega (arith, size, same, chunks), omega (arith, size, same))
  where
    size : length (chunk_at src i) ≡ min 1368 (length src - i * 1368)
    size = length-chunk_at src i

same_chunk :
    (src : Bytes) (b : WriteableBuffer) (i k : ℕ)
    → length b.buffer ≡ length src
    → i * 1368 + length (chunk_at src i) ≤ buffer_length b
    → i ≡ k / 1368
    → get_or (copied_at (i * 1368) (chunk_at src i) b.buffer) k 0 ≡ get_or src k 0
same_chunk src b i k same fits e = elim (Bool-cases (ltb k (length src))) [
  | inl l ↦
      copied_inside (i * 1368) k (chunk_at src i) b.buffer fits (omega (arith, e))
        (omega (arith, e, length-chunk_at src i, ltb→lt k (length src) l))
      ∙ chunk_byte src i k (omega (arith, e)) (omega (arith, e))
  | inr l ↦
      get_or-past k (copied_at (i * 1368) (chunk_at src i) b.buffer) 0 (
        omega
          (arith, not_below l, same, length-copied_at (i * 1368) (chunk_at src i) b.buffer fits))
      ∙ sym (get_or-past k src 0 (not_below l))
]
  where
    not_below : ltb k (length src) ≡ false → length src ≤ k
    not_below l = ground arith

other_chunk :
    (src : Bytes) (b : WriteableBuffer) (i k : ℕ)
    → i * 1368 + length (chunk_at src i) ≤ buffer_length b
    → length b.buffer ≡ length src
    → i ≢ k / 1368
    → get_or (copied_at (i * 1368) (chunk_at src i) b.buffer) k 0 ≡ get_or b.buffer k 0
other_chunk src b i k fits same differ = elim (Bool-cases (ltb k (i * 1368))) [
  | inl l ↦
      copied_before (i * 1368) k (chunk_at src i) b.buffer (omega (arith, fits))
        (ltb→lt k (i * 1368) l)
  | inr l ↦ elim (Bool-cases (ltb k (length src))) [
    | inl m ↦
        copied_behind (i * 1368) k (chunk_at src i) b.buffer fits
          (behind l (ltb→lt k (length src) m))
    | inr m ↦
        get_or-past k (copied_at (i * 1368) (chunk_at src i) b.buffer) 0 (
          omega
            (arith, not_below m, same, length-copied_at (i * 1368) (chunk_at src i) b.buffer fits))
        ∙ sym (get_or-past k b.buffer 0 (omega (arith, not_below m, same)))
  ]
]
  where
    not_below : ltb k (length src) ≡ false → length src ≤ k
    not_below l = ground arith

    behind : ltb k (i * 1368) ≡ false → k < length src → i * 1368 + length (chunk_at src i) ≤ k
    behind l m = elim (Bool-cases (ltb k (i * 1368 + 1368))) [
      | inl e ↦ absurd (differ (omega (arith, ltb→ge k (i * 1368) l, ltb→lt k (i * 1368 + 1368) e)))
      | inr e ↦ omega (arith, length-chunk_at src i, ltb→ge k (i * 1368 + 1368) e)
    ]

-- The buffer after the write of chunk `i` still agrees with the track, and chunk `i` is filled.
written-Agrees :
    (src : Bytes) (b : WriteableBuffer) (i head : ℕ)
    → Agrees src b
    → length b.map ≡ buffer_length b / 1368 + 1
    → i * 1368 < length src
    → i * 1368 + length (chunk_at src i) ≤ buffer_length b
    → Agrees src (written_at b (i * 1368) (chunk_at src i) head)
written-Agrees src b i head agrees chunks h fits = record {
  same_length = length-copied_at (i * 1368) (chunk_at src i) b.buffer fits ∙ agrees.same_length;
  same_bytes = λ k filled. elim (Bool-cases (i == k / 1368)) [
    | inl e ↦ same_chunk src b i k agrees.same_length fits ((==_iff i (k / 1368)).0 e)
    | inr e ↦
        let differ = (==_false i (k / 1368) e) in
        other_chunk src b i k fits agrees.same_length differ
        ∙ agrees.same_bytes k (unset (k / 1368) differ filled)
  ];
  inside = λ j filled. elim (Bool-cases (i == j)) [
    | inl e ↦ omega (arith, h, (==_iff i j).0 e)
    | inr e ↦ agrees.inside j (unset j (==_false i j e) filled)
  ];
}
  where
    unset :
        (j : ℕ)
        → i ≢ j
        → get_or (set b.map (i * 1368 / 1368) true) j false ≡ true
        → get_or b.map j false ≡ true
    unset j differ filled =
        sym (
          get_or-set_ne b.map (i * 1368 / 1368) j true false
            (λ e. differ (sym (chunk_index i) ∙ e)))
        ∙ filled

still_set :
    (m : List Bool) (i j : ℕ) → get_or m j false ≡ true → get_or (set m i true) j false ≡ true
still_set [] i j h = h
still_set (v ∷ m) zero zero h = refl
still_set (v ∷ m) zero (suc j) h = h
still_set (v ∷ m) (suc i) zero h = h
still_set (v ∷ m) (suc i) (suc j) h = still_set m i j h

abbrev pub Arrived : Bytes → WriteableBuffer → ℕ → WriteableBuffer → Type 0
Arrived src b i after =
    IsWriteable after
    × (Agrees src after
        × ((get_or after.map i false ≡ true)
            × ((j : ℕ) → get_or b.map j false ≡ true → get_or after.map j false ≡ true)))

arrived :
    (src : Bytes) (b : WriteableBuffer) (i : ℕ)
    → IsWriteable b
    → Agrees src b
    → i * 1368 < length src
    → (after : WriteableBuffer) (result : WriteResult)
    → WriteMeans b (i * 1368) (chunk_at src i) after result
    → Arrived src b i after
arrived src b i ok_b agrees h after (wrote start end)
      (s, (e, (unfilled, (fits, (same, (forth, well)))))) =
    (
      well,
      rw (same) (
        written-Agrees src b i after.head agrees ok_b.chunks h (omega (arith, e, fits.1)),
        (
          ap (λ j. get_or (set b.map j true) i false) (chunk_index i)
              ∙ get_or-set_self b.map i true false
                  (omega (arith, ok_b.chunks, agrees.same_length, h)),
          still_set b.map (i * 1368 / 1368),
        ),
      ),
    )
arrived src b i ok_b agrees h after (refused BufferError.not_valid) (same, past) =
    absurd (omega (arith, past, agrees.same_length, h))
arrived src b i ok_b agrees h after (refused BufferError.occupied) (same, filled) =
    rw (same)
      (ok_b, (agrees, (ap (λ j. get_or b.map j false) (sym (chunk_index i)) ∙ filled, λ j f. f)))
arrived src b i ok_b agrees h after (refused BufferError.wrong_size) (same, (unfilled, wrong)) =
    absurd (wrong (chunk-HasRightSize src b i agrees.same_length ok_b.chunks h))

-- One chunk of the track arrives at a buffer that agrees with the track: afterwards the buffer is
-- well-formed, agrees with the track, has the chunk, and still has all chunks it had.
pub write_chunk_at :
    (debug : Bool) (src : Bytes) (b : WriteableBuffer) (i : ℕ)
    → IsWriteable b
    → IsAddressable b
    → Agrees src b
    → i * 1368 < length src
    → (after : WriteableBuffer) × (result : WriteResult) × (write debug b
          (i * 1368)
          (chunk_at src i)
        ≡ ok (after, result))
      × Arrived src b i after
write_chunk_at debug src b i ok_b small agrees h =
    let (after, result, eq, means) = write_total debug b (i * 1368) (chunk_at src i) ok_b small in
    (after, result, eq, arrived src b i ok_b agrees h after result means)
