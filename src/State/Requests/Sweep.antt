-- ===== src/State/Requests/Sweep.antt =====
-- What `finalize_sweep_pick` asks for.
use ubass_rs.Base.{
  ℕ, suc, ◌+◌, ◌*◌, ◌/◌, ◌^◌, ◌≤◌, ◌<◌, ◌≡◌, refl, sym, subst, ap, ◌∙◌, arith, Bool, true, false,
  ◌||◌, if◌then◌else◌, List, [], ◌∷◌, length, get_or, zero_add, All, Bool-cases, inl, inr, some,
  ◌==◌,
}
use ubass_rs.Base.Outcome.{ok}
use ubass_rs.Base.Maps.{HashMap, nat_eq, get, insert, contains_key, contains_key-insert}
use ubass_rs.Clock.{recent, is_recent, ArePast, contains_key-recent, retain_recent-recent}
use ubass_rs.Packets.Scalars.{ByteRange}
use ubass_rs.Buffers.Writeable.{WriteableBuffer, buffer_length, position_occupied}
use ubass_rs.Buffers.Writeable.Head.{IsWriteable, IsAddressable}
use ubass_rs.Buffers.Writeable.Writes.{position_occupied_lem}
use ubass_rs.Retransmit.{coalesce_byte_positions, split_all}
use ubass_rs.Retransmit.Ranges.{ranges_at, IsIncreasing, coalesce_byte_positions-split}
use ubass_rs.State.Requests.{
  StreamingFrom, reserve_loop, reserve_for_request, area_positions, drop_active, is_active,
  pick_areas, finalize_sweep_pick,
}
use ubass_rs.State.Requests.Positions.{
  missing_chunks, area_positions-areas_from, drop_active-unfilled_positions,
}
use ubass_rs.State.Requests.Reserve.{
  reserve_refuses, reserve_accepts, IsStreaming, reserve_loop-Reserves,
}

missing_chunks-ext :
    (skip other : ℕ → Bool) (k : ℕ) (m : List Bool)
    → ((j : ℕ) → k ≤ j → skip j ≡ other j)
    → missing_chunks skip k m ≡ missing_chunks other k m
unfolding missing_chunks
missing_chunks-ext skip other k [] same = refl
missing_chunks-ext skip other k (true ∷ m) same =
    missing_chunks-ext skip other (k + 1) m (λ j h. same j (omega (arith, h)))
missing_chunks-ext skip other k (false ∷ m) same =
    rw
      (
        missing_chunks,
        same k (omega arith),
        missing_chunks-ext skip other (k + 1) m (λ j h. same j (omega (arith, h))),
      )
      refl

-- `m` is the rest of the map of the buffer from chunk `k` on.
abbrev IsRest : WriteableBuffer → ℕ → List Bool → Type 0
IsRest b k m =
    (k + length m ≡ length b.map)
    × ((j : ℕ) → j < length m → get_or b.map (k + j) false ≡ get_or m j false)

IsRest-tail :
    (b : WriteableBuffer) (k : ℕ) (filled : Bool) (m : List Bool)
    → IsRest b k (filled ∷ m)
    → IsRest b (k + 1) m
IsRest-tail b k filled m (size, same) = (
  omega (arith, size),
  λ j h. ap (λ i. get_or b.map i false) (omega arith) ∙ same (suc j) (omega (arith, h)),
)

abbrev skip_or_pending : (ℕ → Bool) → HashMap ℕ ℕ → ℕ → Bool
skip_or_pending skip pending i = skip i || contains_key i pending

chunk_of : (k : ℕ) → k * 1368 / 1368 ≡ k
chunk_of k = omega arith

chunk_unfilled :
    (b : WriteableBuffer) (k : ℕ) (m : List Bool)
    → length b.map ≡ buffer_length b / 1368 + 1
    → IsRest b k (false ∷ m)
    → position_occupied b (k * 1368) ≡ ok (some false)
chunk_unfilled b k m chunks (size, same) =
    position_occupied_lem b (k * 1368) chunks (omega (arith, size, chunks))
    ∙ ap (λ f. ok (some f)) (ap (λ i. get_or b.map i false) (omega arith) ∙ same 0 (omega arith))

inserted_later :
    (skip : ℕ → Bool) (pending : HashMap ℕ ℕ) (k now : ℕ) (m : List Bool)
    → missing_chunks (skip_or_pending skip (insert k now pending)) (k + 1) m
      ≡ missing_chunks (skip_or_pending skip pending) (k + 1) m
inserted_later skip pending k now m =
    missing_chunks-ext (skip_or_pending skip (insert k now pending)) (skip_or_pending skip pending)
      (k + 1) m
      (λ j h.
        ap (λ c. skip j || c)
          (contains_key-insert k j now pending
            ∙ ap (λ c. if c then true else contains_key j pending) (later j h)))
  where
    later : (j : ℕ) → k + 1 ≤ j → (k == j) ≡ false
    later j h = ground arith

-- The chunks of the rest that are neither skipped nor pending are accepted.
reserve_loop-missing_chunks :
    (b : WriteableBuffer) (now : ℕ) (skip : ℕ → Bool) (pending : HashMap ℕ ℕ) (k : ℕ)
    (m : List Bool)
    → length b.map ≡ buffer_length b / 1368 + 1
    → IsRest b k m
    → (after : HashMap ℕ ℕ) × (reserve_loop b now pending (missing_chunks skip k m)
        ≡ ok (missing_chunks (skip_or_pending skip pending) k m, after))
unfolding missing_chunks reserve_loop
reserve_loop-missing_chunks b now skip pending k [] chunks r = (pending, refl)
reserve_loop-missing_chunks b now skip pending k (true ∷ m) chunks r =
    reserve_loop-missing_chunks b now skip pending (k + 1) m chunks (IsRest-tail b k true m r)
reserve_loop-missing_chunks b now skip pending k (false ∷ m) chunks r =
    let rest = IsRest-tail b k false m r in
    let state = chunk_unfilled b k m chunks r in
    elim (Bool-cases (skip k)) [
      | inl skipped ↦
          let (after, eq) = reserve_loop-missing_chunks b now skip pending (k + 1) m chunks rest in
          (after, rw (missing_chunks, skipped) eq)
      | inr wanted ↦ elim (Bool-cases (contains_key k pending)) [
        | inl old ↦
            let (after, eq) =
              reserve_loop-missing_chunks b now skip pending (k + 1) m chunks rest in
            (
              after,
              rw (missing_chunks, wanted, old)
                  (reserve_refuses b now pending (k * 1368) (missing_chunks skip (k + 1) m)
                    (some false) state (ap (λ i. contains_key i pending) (chunk_of k) ∙ old)
                    (missing_chunks (skip_or_pending skip pending) (k + 1) m) after eq),
            )
        | inr new ↦
            let (after, eq) =
              reserve_loop-missing_chunks b now skip (insert k now pending) (k + 1) m chunks rest in
            (
              after,
              rw (missing_chunks, wanted, new)
                  (reserve_accepts b now pending (k * 1368) (missing_chunks skip (k + 1) m) state
                    (ap (λ i. contains_key i pending) (chunk_of k) ∙ new)
                    (missing_chunks (skip_or_pending skip pending) (k + 1) m) after
                    (ap
                        (λ i.
                          reserve_loop b now (insert i now pending) (missing_chunks skip (k + 1) m))
                        (chunk_of k)
                      ∙ (eq ∙ ap (λ l. ok (l, after)) (inserted_later skip pending k now m)))),
            )
      ]
    ]

IsIncreasing-missing_chunks :
    (skip : ℕ → Bool) (last k : ℕ) (m : List Bool)
    → last < k * 1368
    → (k + length m) * 1368 < 2 ^ 32
    → IsIncreasing last (missing_chunks skip k m)
unfolding missing_chunks
IsIncreasing-missing_chunks skip last k [] h small = tt
IsIncreasing-missing_chunks skip last k (true ∷ m) h small =
    IsIncreasing-missing_chunks skip last (k + 1) m (omega (arith, h)) (omega (arith, small))
IsIncreasing-missing_chunks skip last k (false ∷ m) h small = elim (Bool-cases (skip k)) [
  | inl skipped ↦
      rw (missing_chunks, skipped)
        (IsIncreasing-missing_chunks skip last (k + 1) m (omega (arith, h)) (omega (arith, small)))
  | inr wanted ↦
      rw (missing_chunks, wanted)
        (
          h,
          (
            omega (arith, small),
            IsIncreasing-missing_chunks skip (k * 1368) (k + 1) m (omega arith)
                (omega (arith, small)),
          ),
        )
]

-- Positions of chunks are coalesced without a panic, and split again as they were.
coalesce-missing_chunks :
    (debug : Bool) (skip : ℕ → Bool) (k : ℕ) (m : List Bool)
    → (k + length m) * 1368 < 2 ^ 32
    → (ranges : List ByteRange) × (coalesce_byte_positions debug (missing_chunks skip k m)
        ≡ ok ranges)
      × (split_all debug ranges ≡ ok (ranges_at (missing_chunks skip k m)))
unfolding missing_chunks coalesce_byte_positions split_all
coalesce-missing_chunks debug skip k [] small = ([], refl, refl)
coalesce-missing_chunks debug skip k (true ∷ m) small =
    coalesce-missing_chunks debug skip (k + 1) m (omega (arith, small))
coalesce-missing_chunks debug skip k (false ∷ m) small = elim (Bool-cases (skip k)) [
  | inl skipped ↦
      rw (missing_chunks, skipped)
        (coalesce-missing_chunks debug skip (k + 1) m (omega (arith, small)))
  | inr wanted ↦
      rw (missing_chunks, wanted)
        (coalesce_byte_positions-split debug (k * 1368) (missing_chunks skip (k + 1) m)
          (omega (arith, small))
          (IsIncreasing-missing_chunks skip (k * 1368) (k + 1) m (omega arith)
            (omega (arith, small))))
]

-- The chunks that are left out: an open batch may bring them, or they were asked for in the last 500 ms.
abbrev pub is_expected : ℕ → List (ℕ × ℕ) → HashMap ℕ ℕ → ℕ → Bool
is_expected now fec_active pending i =
    is_active fec_active (i * 1368) || is_recent (λ ts. ts) now 500 i pending

pub ok_fields : {A B : Type 0} (p q : A × B) → ok p ≡ ok q → p.0 ≡ q.0
ok_fields p q h = cc h

pending_recent :
    (now : ℕ) (fec_active : List (ℕ × ℕ)) (pending : HashMap ℕ ℕ) (k : ℕ) (m : List Bool)
    → missing_chunks
        (skip_or_pending (λ i. is_active fec_active (i * 1368)) (recent (λ ts. ts) now 500 pending))
        k
        m
      ≡ missing_chunks (is_expected now fec_active pending) k m
pending_recent now fec_active pending k m =
    missing_chunks-ext
      (skip_or_pending (λ i. is_active fec_active (i * 1368)) (recent (λ ts. ts) now 500 pending))
      (is_expected now fec_active pending) k m
      (λ j h.
        ap (λ c. is_active fec_active (j * 1368) || c)
          (contains_key-recent (λ ts. ts) now 500 j pending))

reserved_chunks :
    (debug : Bool) (now : ℕ) (fec_active : List (ℕ × ℕ)) (sf : StreamingFrom)
    → IsStreaming now sf
    → (after : HashMap ℕ ℕ) × (reserve_for_request debug now sf
          (missing_chunks (λ i. is_active fec_active (i * 1368)) 0 sf.buffer.map)
        ≡ ok (
          record sf { pending = after },
          missing_chunks (is_expected now fec_active sf.pending) 0 sf.buffer.map,
        ))
      × All
          (λ p. get (p / 1368) after ≡ some now)
          (missing_chunks (is_expected now fec_active sf.pending) 0 sf.buffer.map)
unfolding reserve_for_request
reserved_chunks debug now fec_active sf s =
    let skip : ℕ → Bool = λ i. is_active fec_active (i * 1368) in
    let kept = recent (λ ts. ts) now 500 sf.pending in
    let (accepted, after, eq, r) =
      reserve_loop-Reserves sf.buffer now kept (missing_chunks skip 0 sf.buffer.map) s.chunks in
    let (after2, eq2) =
      reserve_loop-missing_chunks sf.buffer now skip kept 0 sf.buffer.map s.chunks
        (omega arith, λ j h. ap (λ i. get_or sf.buffer.map i false) (zero_add j)) in
    let same =
      ok_fields (accepted, after)
        (missing_chunks (skip_or_pending skip kept) 0 sf.buffer.map, after2) (sym eq ∙ eq2)
      ∙ pending_recent now fec_active sf.pending 0 sf.buffer.map in
    (
      after,
      rw
          (
            reserve_for_request,
            retain_recent-recent (λ ts. ts) debug now 500 sf.pending s.past,
            eq,
            same,
          )
          refl,
      subst (λ l. All (λ p. get (p / 1368) after ≡ some now) l) same r.marked,
    )

swept_positions :
    (fec_active : List (ℕ × ℕ)) (b : WriteableBuffer)
    → IsWriteable b
    → IsAddressable b
    → drop_active fec_active (area_positions b.invalid_areas)
      ≡ missing_chunks (λ i. is_active fec_active (i * 1368)) 0 b.map
swept_positions fec_active b w small =
    ap (λ areas. drop_active fec_active (area_positions areas)) w.areas
    ∙ (ap (λ ps. drop_active fec_active ps)
          (area_positions-areas_from 0 b.map (omega (arith, small, w.chunks)))
        ∙ drop_active-unfilled_positions fec_active 0 b.map)

-- `finalize_sweep_pick` on a well-formed addressable buffer none of whose pending requests is of the
-- future: it does not panic; the ranges that it returns, split into chunks, are exactly the unfilled
-- chunks of the map, in order, without those in a range of `fec_active` and those asked for in the
-- last 500 ms; all of them are then pending since `now`, and the buffer is as it was.
pub finalize_sweep_pick-missing_chunks :
    (debug : Bool) (now : ℕ) (fec_active : List (ℕ × ℕ)) (sf : StreamingFrom)
    → IsWriteable sf.buffer
    → IsAddressable sf.buffer
    → ArePast (λ ts. ts) now sf.pending
    → (after : HashMap ℕ ℕ) × (ranges : List ByteRange) × (finalize_sweep_pick debug now fec_active
          sf
        ≡ ok (record sf { pending = after }, ranges))
      × (split_all debug ranges
          ≡ ok (ranges_at (missing_chunks (is_expected now fec_active sf.pending) 0 sf.buffer.map)))
      × All
          (λ p. get (p / 1368) after ≡ some now)
          (missing_chunks (is_expected now fec_active sf.pending) 0 sf.buffer.map)
unfolding finalize_sweep_pick pick_areas
finalize_sweep_pick-missing_chunks debug now fec_active sf w small past =
    let (after, reserved, marked) =
      reserved_chunks debug now fec_active sf (record { chunks = w.chunks; past = past }) in
    let (ranges, eq, split) =
      coalesce-missing_chunks debug (is_expected now fec_active sf.pending) 0 sf.buffer.map
        (omega (arith, small, w.chunks)) in
    (
      after,
      ranges,
      rw (finalize_sweep_pick, swept_positions fec_active sf.buffer w small, reserved, eq) refl,
      split,
      marked,
    )
