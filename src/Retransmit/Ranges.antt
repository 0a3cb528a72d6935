-- ===== src/Retransmit/Ranges.antt =====
-- Coalesced positions, split again.
use ubass_rs.Base.{
  ℕ, zero, suc, ◌+◌, ◌-◌, ◌*◌, ◌/◌, ◌%◌, ◌^◌, ◌≤◌, ◌<◌, min, ◌≡◌, refl, ap, ◌∙◌, arith, ◌==◌,
  ==_iff, ltb, lt→ltb, lt→leb_false, le→leb, inl, inr,
}
use ubass_rs.Base.{add_zero, Bool, true, false, ◌&&◌, List, [], ◌∷◌, ◌++◌, map, Bool-cases}
use ubass_rs.Base.Outcome.{ok}
use ubass_rs.Packets.Scalars.{ByteRange, byte_range_new}
use ubass_rs.Buffers.Writeable.Head.{add_u32_lem}
use ubass_rs.Retransmit.{
  ranges_touch, concat, coalesce_loop, chunk_ranges, coalesce_ranges, coalesce_byte_positions,
  split_loop, split_range_into_chunks, split_all,
}

abbrev pub range : ℕ → ℕ → ByteRange
range s n = record { start = s; length = n }

-- The range of one chunk at each position.
abbrev pub ranges_at : List ℕ → List ByteRange
ranges_at ps = map (λ p. range p 1368) ps

-- `n` chunks from a position on.
abbrev run : ℕ → ℕ → List ByteRange
run s zero = []
run s (suc n) = range s 1368 ∷ run (s + 1368) n

-- Every position is above the one before, the first is above `last`, and all ends fit 32 bits.
abbrev pub IsIncreasing : ℕ → List ℕ → Type 0
IsIncreasing last [] = Unit
IsIncreasing last (p ∷ ps) = (last < p) × ((p + 1368 < 2 ^ 32) × IsIncreasing p ps)

new_range : (debug : Bool) (s n : ℕ) → n ≤ 1368 → byte_range_new debug s n ≡ ok (range s n)
new_range true s n h = rw (le→leb n 1368 h) refl
new_range false s n h = refl

split_loop-run :
    (debug : Bool) (fuel s n : ℕ)
    → n < fuel
    → s + n * 1368 < 2 ^ 32
    → split_loop debug fuel s (s + n * 1368) ≡ ok (run s n)
unfolding split_loop
split_loop-run debug zero s n h l = absurd (omega (arith, h))
split_loop-run debug (suc fuel) s zero h l = rw (split_loop, le→leb (s + 0) s (omega arith)) refl
split_loop-run debug (suc fuel) s (suc n) h l =
    rw
      (
        split_loop,
        lt→leb_false s (s + suc n * 1368) (omega arith),
        whole,
        new_range debug s 1368 (omega arith),
        add_u32_lem debug s 1368 (omega (arith, l)),
        later,
        split_loop-run debug fuel (s + 1368) n (omega (arith, h)) (omega (arith, l)),
      )
      refl
  where
    whole : min (s + suc n * 1368 - s) 1368 % 2 ^ 16 ≡ 1368
    whole = omega arith

    later : s + suc n * 1368 ≡ s + 1368 + n * 1368
    later = omega arith

split_run :
    (debug : Bool) (s n : ℕ)
    → s + n * 1368 < 2 ^ 32
    → split_range_into_chunks debug (range s (n * 1368)) ≡ ok (run s n)
unfolding split_range_into_chunks
split_run debug s n h =
    rw
      (
        split_range_into_chunks,
        add_u32_lem debug s (n * 1368) h,
        split_loop-run debug (n * 1368 / 1368 + 2) s n (omega arith) h,
      )
      refl

touch_lem :
    (debug : Bool) (s n p : ℕ)
    → s < p
    → s + n * 1368 < 2 ^ 32
    → p + 1368 < 2 ^ 32
    → ranges_touch debug (range s (n * 1368)) (range p 1368) ≡ ok (s + n * 1368 == p)
unfolding ranges_touch
touch_lem debug s n p h l m = elim (Bool-cases (s + n * 1368 == p)) [
  | inl e ↦ rw (ranges_touch, add_u32_lem debug s (n * 1368) l, e) refl
  | inr e ↦
      rw (ranges_touch, add_u32_lem debug s (n * 1368) l, e, add_u32_lem debug p 1368 m, apart) refl
]
  where
    apart : (p + 1368 == s) ≡ false
    apart = ground arith

concat_joins :
    (debug : Bool) (s n p : ℕ)
    → s < p
    → p + 1368 < 2 ^ 32
    → s + n * 1368 ≡ p
    → n * 1368 + 1368 < 2 ^ 16
    → concat debug (range s (n * 1368)) (range p 1368) ≡ ok (range s (suc n * 1368), true)
unfolding concat
concat_joins debug s n p h m e fits =
    rw
      (
        concat,
        touch_lem debug s n p h (omega (arith, e, m)) m,
        (==_iff (s + n * 1368) p).1 e,
        lt→ltb (n * 1368 + 1368) (2 ^ 16) fits,
        add_u32_lem debug p 1368 m,
        apart,
        longer,
      )
      refl
  where
    apart : (p + 1368 == s) ≡ false
    apart = ground arith

    longer : n * 1368 + 1368 ≡ suc n * 1368
    longer = omega arith

concat_refuses :
    (debug : Bool) (s n p : ℕ)
    → s < p
    → s + n * 1368 < 2 ^ 32
    → p + 1368 < 2 ^ 32
    → ((s + n * 1368 == p) && ltb (n * 1368 + 1368) (2 ^ 16)) ≡ false
    → concat debug (range s (n * 1368)) (range p 1368) ≡ ok (range s (n * 1368), false)
unfolding concat
concat_refuses debug s n p h l m apart = rw (concat, touch_lem debug s n p h l m, apart) refl

run_last :
    (s n : ℕ) (rest : List ByteRange)
    → run s (suc n) ++ rest ≡ run s n ++ (range (s + n * 1368) 1368 ∷ rest)
run_last s zero rest = ap (λ k. range k 1368 ∷ rest) (omega arith)
run_last s (suc n) rest =
    ap (λ r. range s 1368 ∷ r)
      (run_last (s + 1368) n rest
        ∙ ap (λ k. run (s + 1368) n ++ (range k 1368 ∷ rest)) (omega arith))

join_facts : (a p len : ℕ) → ((a == p) && ltb len (2 ^ 16)) ≡ true → (a ≡ p) × (len < 2 ^ 16)
join_facts a p len h = ground arith

ap-IsIncreasing : {a b : ℕ} (ps : List ℕ) → b ≡ a → IsIncreasing a ps → IsIncreasing b ps
ap-IsIncreasing ps e up = rw (e) up

-- A run of `n + 1` chunks is being coalesced, and the positions that follow are behind its last chunk.
coalesce_loop-split :
    (debug : Bool) (s n : ℕ) (ps : List ℕ)
    → s + suc n * 1368 < 2 ^ 32
    → IsIncreasing (s + n * 1368) ps
    → (out : List ByteRange) × (coalesce_loop debug (range s (suc n * 1368)) (ranges_at ps)
        ≡ ok out)
      × (split_all debug out ≡ ok (run s (suc n) ++ ranges_at ps))
unfolding coalesce_loop split_all
coalesce_loop-split debug s n [] h up =
    (range s (suc n * 1368) ∷ [], refl, rw (split_run debug s (suc n) h) refl)
coalesce_loop-split debug s n (p ∷ ps) h (above, (fits, up)) =
    elim (Bool-cases ((s + suc n * 1368 == p) && ltb (suc n * 1368 + 1368) (2 ^ 16))) [
      | inl join ↦
          let (meets, room) = join_facts (s + suc n * 1368) p (suc n * 1368 + 1368) join in
          let (out, eq, split) =
            coalesce_loop-split debug s (suc n) ps (omega (arith, meets, fits))
              (ap-IsIncreasing ps meets up) in
          (
            out,
            rw
                (
                  coalesce_loop,
                  concat_joins debug s (suc n) p (omega (arith, above)) fits meets room,
                )
                eq,
            split
                ∙ ap (λ r. ok r)
                    (run_last s (suc n) (ranges_at ps)
                      ∙ ap (λ k. run s (suc n) ++ (range k 1368 ∷ ranges_at ps)) meets),
          )
      | inr apart ↦
          let (out, eq, split) =
            coalesce_loop-split debug p 0 ps (omega (arith, fits))
              (ap-IsIncreasing ps (add_zero p) up) in
          (
            range s (suc n * 1368) ∷ out,
            rw
                (
                  coalesce_loop,
                  concat_refuses debug s (suc n) p (omega (arith, above)) h fits apart,
                  eq,
                )
                refl,
            rw (split_run debug s (suc n) h, split) refl,
          )
    ]

pub ranges_made : (debug : Bool) (ps : List ℕ) → chunk_ranges debug ps ≡ ok (ranges_at ps)
unfolding chunk_ranges
ranges_made debug [] = refl
ranges_made debug (p ∷ ps) =
    rw (chunk_ranges, new_range debug p 1368 (omega arith), ranges_made debug ps) refl

-- Positions of chunks in increasing order whose ends fit 32 bits: `coalesce_byte_positions` does not
-- panic, and `split_range_into_chunks` of the ranges that it returns, one after the other, gives exactly
-- the chunks at these positions, in order - no chunk is lost, repeated or made up, also where a range
-- would not fit its 16-bit length and is begun anew.
pub coalesce_byte_positions-split :
    (debug : Bool) (p : ℕ) (ps : List ℕ)
    → p + 1368 < 2 ^ 32
    → IsIncreasing p ps
    → (out : List ByteRange) × (coalesce_byte_positions debug (p ∷ ps) ≡ ok out)
      × (split_all debug out ≡ ok (ranges_at (p ∷ ps)))
unfolding coalesce_byte_positions coalesce_ranges
coalesce_byte_positions-split debug p ps fits up =
    let (out, eq, split) =
      coalesce_loop-split debug p 0 ps (omega (arith, fits)) (ap-IsIncreasing ps (add_zero p) up) in
    (out, rw (coalesce_byte_positions, ranges_made debug (p ∷ ps)) eq, split)
