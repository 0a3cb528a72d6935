-- ===== src/Buffers/Writeable/Head.antt =====
-- The head of a `WriteableBuffer`: where `advance_head` and `seek_head` move it.
use ubass_rs.Base.{
  ℕ, suc, ◌+◌, ◌*◌, ◌/◌, ◌%◌, ◌^◌, ◌≤◌, ◌<◌, ◌≡◌, refl, sym, ap, ap₂, ◌∙◌, arith, ◌==◌, ◌⊎◌, inl,
  inr, Bool-cases, if◌then◌else◌,
}
use ubass_rs.Base.{
  Bool, true, false, List, [], ◌∷◌, length, drop, length-drop, get_or, get_or-drop, none, some,
  lt→ltb, le→ltb,
}
use ubass_rs.Base.Outcome.{ok}
use ubass_rs.Buffers.Areas.Laws.{areas_from}
use ubass_rs.Buffers.Writeable.{
  WriteableBuffer, buffer_length, add_u32, advance_loop, advance_head, position_to_index,
}

-- The head is in the buffer, at the start of a chunk or at the end.
abbrev pub IsHead : ℕ → ℕ → Type 0
IsHead len head = (head ≤ len) × ((head % 1368 ≡ 0) ⊎ (head ≡ len))

-- A buffer that positions of 32 bits can address, also one chunk past its end.
abbrev pub IsAddressable : WriteableBuffer → Type 0
IsAddressable b = buffer_length b + 1368 < 2 ^ 32

pub record IsWriteable (b : WriteableBuffer) : Type 0 where
  pub chunks : length b.map ≡ buffer_length b / 1368 + 1
  pub areas : b.invalid_areas ≡ areas_from none 0 b.map
  pub head_fits : IsHead (buffer_length b) b.head
  -- The head is at an unfilled chunk, unless it is at the end.
  pub stops : (b.head ≡ buffer_length b) ⊎ (get_or b.map (b.head / 1368) false ≡ false)

pub add_u32_lem : (debug : Bool) (a b : ℕ) → a + b < 2 ^ 32 → add_u32 debug a b ≡ ok (a + b)
unfolding add_u32
add_u32_lem debug a b h = rw (lt→ltb (a + b) (2 ^ 32) h) refl

add_zero : (a : ℕ) → a + 0 ≡ a
add_zero a = omega arith

-- The loop stops at an unfilled chunk `i + n` or behind the last one, having added `n` chunks.
advance_loop_lem :
    (debug : Bool) (head i : ℕ) (m : List Bool)
    → head + length m * 1368 < 2 ^ 32
    → (n : ℕ) × (n ≤ length m)
      × (advance_loop debug head i m ≡ ok (head + n * 1368, i + n))
      × (get_or m n false ≡ false)
unfolding advance_loop
advance_loop_lem debug head i [] h = (0, omega arith, rw (add_zero head, add_zero i) refl, refl)
advance_loop_lem debug head i (false ∷ m) h =
    (0, omega arith, rw (add_zero head, add_zero i) refl, refl)
advance_loop_lem debug head i (true ∷ m) h =
    let (n, bound, eq, open_) = advance_loop_lem debug (head + 1368) (i + 1) m (omega arith) in
    (
      suc n,
      omega arith,
      rw (add_u32_lem debug head 1368 (omega arith), eq)
          (ap₂ (λ a b. ok (a, b)) (omega arith) (omega arith)),
      open_,
    )

IsHead-inside :
    (len head n : ℕ) → IsHead len head → head / 1368 + n ≤ len / 1368 → IsHead len (head + n * 1368)
IsHead-inside len head n (fits, inl aligned) h = (omega arith, inl (omega arith))
IsHead-inside len head n (fits, inr at_end) h = (omega arith, inr (omega arith))

pub position_to_index-some :
    (b : WriteableBuffer) (position : ℕ)
    → position ≤ buffer_length b
    → position_to_index b position ≡ some (position / 1368)
unfolding position_to_index
position_to_index-some b position h =
    rw (position_to_index, le→ltb (buffer_length b) position h) refl

advance_head_stop :
    (debug : Bool) (b : WriteableBuffer) (head stop : ℕ)
    → b.head ≤ buffer_length b
    → advance_loop debug b.head (b.head / 1368) (drop (b.head / 1368) b.map) ≡ ok (head, stop)
    → advance_head debug b
      ≡ ok (record b { head = if stop == length b.map then buffer_length b % 2 ^ 32 else head })
unfolding advance_head
advance_head_stop debug b head stop fits eq =
    rw (advance_head, position_to_index-some b b.head fits, eq) refl

-- Where `advance_head` moves the head of a buffer whose head is where it may be: not back, to a place
-- where it may be, that is at an unfilled chunk unless it is the end.
pub advance_head_lem :
    (debug : Bool) (b : WriteableBuffer)
    → IsAddressable b
    → length b.map ≡ buffer_length b / 1368 + 1
    → IsHead (buffer_length b) b.head
    → (head : ℕ) × (advance_head debug b ≡ ok (record b { head = head }))
      × (b.head ≤ head)
      × IsHead (buffer_length b) head
      × ((head ≡ buffer_length b) ⊎ (get_or b.map (head / 1368) false ≡ false))
advance_head_lem debug b small chunks fits =
    let (n, bound, eq, unfilled) =
      advance_loop_lem debug b.head (b.head / 1368) (drop (b.head / 1368) b.map)
        (omega (arith, length-drop (b.head / 1368) b.map)) in
    let stopped = advance_head_stop debug b (b.head + n * 1368) (b.head / 1368 + n) fits.0 eq in
    elim (Bool-cases (b.head / 1368 + n == length b.map)) [
      | inl at_end ↦ (
        buffer_length b,
        stopped ∙ rw (at_end, whole) refl,
        fits.0,
        (omega arith, inr refl),
        inl refl,
      )
      | inr inside ↦ (
        b.head + n * 1368,
        stopped ∙ rw inside refl,
        omega arith,
        IsHead-inside (buffer_length b) b.head n fits (inside_bound n inside bound),
        inr (
            ap (λ i. get_or b.map i false) (omega arith)
            ∙ (sym (get_or-drop (b.head / 1368) n b.map false) ∙ unfilled)),
      )
    ]
  where
    whole : buffer_length b % 2 ^ 32 ≡ buffer_length b
    whole = omega arith

    inside_bound :
        (n : ℕ)
        → (b.head / 1368 + n == length b.map) ≡ false
        → n ≤ length (drop (b.head / 1368) b.map)
        → b.head / 1368 + n ≤ buffer_length b / 1368
    inside_bound n h l = ground (arith, length-drop (b.head / 1368) b.map, chunks)
