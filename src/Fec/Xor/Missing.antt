-- ===== src/Fec/Xor/Missing.antt =====
-- `missing_positions` of src/packet_processor/fec/xor.rs.
use ubass_rs.Base.{
  ℕ, zero, suc, ◌+◌, ◌*◌, ◌^◌, ◌≤◌, ◌<◌, ◌≡◌, ◌≢◌, refl, sym, ap, ◌∙◌, arith, ◌==◌, ==_iff,
  ==_false, ltb, ltb→lt, ltb→ge, ◌⊎◌, inl, inr, ◌↔◌, Bool, true, false, List, [], ◌∷◌, get_or, some,
  if◌then◌else◌, Bool-cases,
}
use ubass_rs.Base.Outcome.{ok}
use ubass_rs.Buffers.Writeable.Head.{add_u32_lem}
use ubass_rs.Buffers.Writeable.Holes.{IsIn}
use ubass_rs.Fec.Batch.{InboundBatch}
use ubass_rs.Fec.Xor.{missing_loop, missing_positions}

-- `p` is the position of a packet that has not come, at a place from `i` on and in front of `i + n`.
abbrev pub IsMissing : List Bool → ℕ → ℕ → ℕ → ℕ → Type 0
IsMissing mask base i n p =
    (j : ℕ) × (i ≤ j) × (j < i + n) × (p ≡ base + j * 1368) × (get_or mask j true ≡ false)

later-IsMissing :
    (mask : List Bool) (base i n p : ℕ)
    → IsMissing mask base i (suc n) p
    → ((p ≡ base + i * 1368) × (get_or mask i true ≡ false)) ⊎ IsMissing mask base (i + 1) n p
later-IsMissing mask base i n p (j, l, u, e, f) = elim (Bool-cases (i == j)) [
  | inl s ↦
      let same = (==_iff i j).0 s in
      inl (e ∙ ap (λ k. base + k * 1368) (sym same), ap (λ k. get_or mask k true) same ∙ f)
  | inr s ↦ inr (j, later (==_false i j s), omega (arith, u), e, f)
]
  where
    later : i ≢ j → i + 1 ≤ j
    later d = elim (Bool-cases (ltb i j)) [
      | inl b ↦ omega (arith, ltb→lt i j b)
      | inr b ↦ absurd (d (omega (arith, l, ltb→ge i j b)))
    ]

earlier-IsMissing :
    (mask : List Bool) (base i n p : ℕ)
    → IsMissing mask base (i + 1) n p
    → IsMissing mask base i (suc n) p
earlier-IsMissing mask base i n p (j, l, u, e, f) = (j, omega (arith, l), omega (arith, u), e, f)

IsMissing-step :
    (mask : List Bool) (base i n : ℕ) (here : Bool) (rest : List ℕ)
    → get_or mask i true ≡ here
    → ((p : ℕ) → IsIn p rest ↔ IsMissing mask base (i + 1) n p)
    → (p : ℕ)
    → IsIn p (if here then rest else (base + i * 1368) ∷ rest) ↔ IsMissing mask base i (suc n) p
IsMissing-step mask base i n true rest h same p = (
  λ e. earlier-IsMissing mask base i n p ((same p).0 e),
  λ gap. elim (later-IsMissing mask base i n p gap) [
    | inl here ↦ absurd (cc (h, here.1))
    | inr later ↦ (same p).1 later
  ],
)
IsMissing-step mask base i n false rest h same p = (
  λ e. elim e [
    | inl here ↦ (i, omega arith, omega arith, here, h)
    | inr later ↦ earlier-IsMissing mask base i n p ((same p).0 later)
  ],
  λ gap. elim (later-IsMissing mask base i n p gap) [
    | inl here ↦ inl here.0
    | inr later ↦ inr ((same p).1 later)
  ],
)

missing_loop_lem :
    (debug : Bool) (mask : List Bool) (base i n : ℕ)
    → base + (i + n) * 1368 < 2 ^ 32
    → (ps : List ℕ) × (missing_loop debug mask base i n ≡ ok ps)
      × ((p : ℕ) → IsIn p ps ↔ IsMissing mask base i n p)
unfolding missing_loop
missing_loop_lem debug mask base i zero small =
    ([], refl, λ p. (λ e. elim e [ ], λ gap. omega (arith, gap.1, gap.2)))
missing_loop_lem debug mask base i (suc n) small =
    let (rest, eq, same) = missing_loop_lem debug mask base (i + 1) n (omega (arith, small)) in
    (
      if get_or mask i true then rest else (base + i * 1368) ∷ rest,
      elim (Bool-cases (get_or mask i true)) [
        | inl h ↦ rw (missing_loop, h, eq) refl
        | inr h ↦
            rw (missing_loop, h, add_u32_lem debug base (i * 1368) (omega (arith, small)), eq) refl
      ],
      IsMissing-step mask base i n (get_or mask i true) rest refl same,
    )

-- A batch whose base position is known and whose packets all fit it, and whose positions up to the end
-- fit 32 bits: missing_positions does not panic, and the list that it returns holds exactly the
-- positions of the places below the batch size that the mask does not have.
pub missing_positions_lem :
    (debug : Bool) (batch : InboundBatch) (base : ℕ)
    → batch.base_byte_pos ≡ some base
    → batch.is_contiguous ≡ true
    → base + batch.batch_size * 1368 < 2 ^ 32
    → (ps : List ℕ) × (missing_positions debug batch ≡ ok ps)
      × ((p : ℕ) → IsIn p ps ↔ IsMissing batch.batch_mask base 0 batch.batch_size p)
unfolding missing_positions
missing_positions_lem debug batch base known contiguous small =
    let (ps, eq, same) =
      missing_loop_lem debug batch.batch_mask base 0 batch.batch_size (omega (arith, small)) in
    (ps, rw (missing_positions, known, contiguous) eq, same)
