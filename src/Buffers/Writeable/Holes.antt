-- ===== src/Buffers/Writeable/Holes.antt =====
-- What `find_holes` and `seek_head` do on a well-formed `WriteableBuffer`.
use ubass_rs.Base.{ℕ, ◌+◌, ◌*◌, ◌/◌, ◌≤◌, ◌<◌, ◌≡◌, refl, arith, ◌⊎◌, inl, inr}
use ubass_rs.Base.{
  if◌then◌else◌, Bool, true, false, Option, none, some, List, [], ◌∷◌, get_or, Bool-cases, ltb,
  ltb→lt, ltb→ge,
}
use ubass_rs.Base.Outcome.{ok}
use ubass_rs.Buffers.Writeable.{WriteableBuffer, buffer_length, seek_head, position_to_index}
use ubass_rs.Buffers.Writeable.Head.{
  IsAddressable, IsWriteable, IsHead, advance_head_lem, position_to_index-some,
}

abbrev pub IsIn : ℕ → List ℕ → Type 0
IsIn p [] = ⊥
IsIn p (q ∷ qs) = (p ≡ q) ⊎ IsIn p qs

-- `p` is the position of an unfilled chunk from `i` on and in front of `i + n`.
abbrev pub IsHole : List Bool → ℕ → ℕ → ℕ → Type 0
IsHole m i n p = (j : ℕ) × (i ≤ j) × (j < i + n) × (p ≡ j * 1368) × (get_or m j false ≡ false)

-- A head in front of `pos` is at the start of a chunk, which is not behind that of `pos`.
aligned_forward :
    (len head pos : ℕ) → IsHead len head → pos ≤ len → head < pos → head ≤ pos / 1368 * 1368
aligned_forward len head pos (fits, inl aligned) h l = omega (arith, aligned)
aligned_forward len head pos (fits, inr at_end) h l = absurd (omega (arith, at_end))

seek_forward :
    (debug : Bool) (b : WriteableBuffer) (pos : ℕ)
    → IsWriteable b
    → IsAddressable b
    → ltb (buffer_length b) pos ≡ false
    → pos ≤ buffer_length b
    → ltb b.head pos ≡ true
    → b.head < pos
    → (head : ℕ) × (answer : Option Bool) × (seek_head debug b pos
        ≡ ok (record b { head = head }, answer))
      × (answer ≡ (if ltb (buffer_length b) pos then none else some (ltb b.head pos)))
      × (b.head ≤ head)
      × ((answer ≡ none) ⊎ (pos / 1368 ≤ head / 1368))
      × IsWriteable (record b { head = head })
unfolding seek_head
seek_forward debug b pos ok_b small inside h forward l =
    let (head, eq, forth, fits, stops) =
      advance_head_lem debug (record b { head = pos / 1368 * 1368 }) small ok_b.chunks
        (omega (arith, h), inl (omega arith)) in
    (
      head,
      some true,
      rw (seek_head, position_to_index-some b pos h, forward, eq) refl,
      rw (inside, forward) refl,
      omega (arith, forth, aligned_forward (buffer_length b) b.head pos ok_b.head_fits h l),
      inr (omega (arith, forth)),
      record { chunks = ok_b.chunks; areas = ok_b.areas; head_fits = fits; stops = stops },
    )

-- `seek_head(pos)` on a well-formed buffer that 32-bit positions can address never panics and keeps it
-- well-formed. A position past the end is refused; otherwise the answer tells whether `pos` is in
-- front of the head. The head never goes back, nothing else changes, and unless the
-- position is refused it is at the chunk of `pos` or behind it.
pub seek_head_lem :
    (debug : Bool) (b : WriteableBuffer) (pos : ℕ)
    → IsWriteable b
    → IsAddressable b
    → (head : ℕ) × (answer : Option Bool) × (seek_head debug b pos
        ≡ ok (record b { head = head }, answer))
      × (answer ≡ (if ltb (buffer_length b) pos then none else some (ltb b.head pos)))
      × (b.head ≤ head)
      × ((answer ≡ none) ⊎ (pos / 1368 ≤ head / 1368))
      × IsWriteable (record b { head = head })
unfolding seek_head
seek_head_lem debug b pos ok_b small = elim (Bool-cases (ltb (buffer_length b) pos)) [
  | inl past ↦ (
    b.head,
    none,
    rw (seek_head, position_to_index, past) refl,
    rw (past) refl,
    omega arith,
    inl refl,
    ok_b,
  )
  | inr inside ↦ elim (Bool-cases (ltb b.head pos)) [
    | inl forward ↦
        seek_forward debug b pos ok_b small inside (ltb→ge (buffer_length b) pos inside) forward
          (ltb→lt b.head pos forward)
    | inr backward ↦ (
      b.head,
      some false,
      rw (seek_head, position_to_index-some b pos (ltb→ge (buffer_length b) pos inside), backward)
          refl,
      rw (inside, backward) refl,
      omega arith,
      inr (omega (arith, ltb→ge b.head pos backward)),
      ok_b,
    )
  ]
]
