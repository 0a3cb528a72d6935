-- ===== src/Retransmit/Total.antt =====
-- `coalesce_byte_positions` of positions in any order.
use ubass_rs.Base.{
  ℕ, ◌+◌, ◌^◌, ◌≤◌, ◌<◌, ◌≡◌, refl, arith, ◌==◌, ==_iff, ltb, ◌⊎◌, inl, inr, Bool, true, false,
  ◌&&◌, if◌then◌else◌, List, [], ◌∷◌, All, Bool-cases,
}
use ubass_rs.Base.Outcome.{ok}
use ubass_rs.Packets.Scalars.{ByteRange}
use ubass_rs.Buffers.Writeable.Head.{add_u32_lem}
use ubass_rs.Retransmit.{
  ranges_touch, concat, coalesce_loop, coalesce_ranges, coalesce_byte_positions,
}
use ubass_rs.Retransmit.Ranges.{ranges_at, ranges_made}

-- The range ends at `bound` at most.
abbrev EndsBy : ℕ → ByteRange → Type 0
EndsBy bound r = r.start + r.length ≤ bound

touch_total :
    (debug : Bool) (bound : ℕ) (self other : ByteRange)
    → bound < 2 ^ 32
    → EndsBy bound self
    → EndsBy bound other
    → (touch : Bool) × (ranges_touch debug self other ≡ ok touch)
      × (touch ≡ true
          → (self.start + self.length ≡ other.start) ⊎ (other.start + other.length ≡ self.start))
unfolding ranges_touch
touch_total debug bound self other small h l =
    elim (Bool-cases (self.start + self.length == other.start)) [
      | inl meets ↦ (
        true,
        rw (ranges_touch, add_u32_lem debug self.start self.length (omega (arith, small, h)), meets)
            refl,
        λ e. inl ((==_iff (self.start + self.length) other.start).0 meets),
      )
      | inr apart ↦ (
        other.start + other.length == self.start,
        rw
            (
              ranges_touch,
              add_u32_lem debug self.start self.length (omega (arith, small, h)),
              apart,
              add_u32_lem debug other.start other.length (omega (arith, small, l)),
            )
            refl,
        λ e. inr ((==_iff (other.start + other.length) self.start).0 e),
      )
    ]

joined_end :
    (bound s n o k : ℕ)
    → s + n ≤ bound
    → o + k ≤ bound
    → (s + n ≡ o) ⊎ (o + k ≡ s)
    → (if o + k == s then o else s) + (n + k) ≤ bound
joined_end bound s n o k h l (inl e) = ground arith
joined_end bound s n o k h l (inr e) = ground arith

and_left : (a b : Bool) → (a && b) ≡ true → a ≡ true
and_left true b h = refl
and_left false b h = h

concat_total :
    (debug : Bool) (bound : ℕ) (self other : ByteRange)
    → bound < 2 ^ 32
    → EndsBy bound self
    → EndsBy bound other
    → (out : ByteRange) × (joined : Bool) × (concat debug self other ≡ ok (out, joined))
      × EndsBy bound out
unfolding concat
concat_total debug bound self other small h l =
    let (touch, eq, meets) = touch_total debug bound self other small h l in
    elim (Bool-cases (touch && ltb (self.length + other.length) (2 ^ 16))) [
      | inl join ↦ (
        record self {
          start = if other.start + other.length == self.start then other.start else self.start;
          length = self.length + other.length;
        },
        true,
        rw (concat, eq, join, add_u32_lem debug other.start other.length (omega (arith, small, l)))
            refl,
        joined_end bound self.start self.length other.start other.length h l
            (meets (and_left touch (ltb (self.length + other.length) (2 ^ 16)) join)),
      )
      | inr apart ↦ (self, false, rw (concat, eq, apart) refl, h)
    ]

coalesce_loop_total :
    (debug : Bool) (bound : ℕ) (current : ByteRange) (rest : List ByteRange)
    → bound < 2 ^ 32
    → EndsBy bound current
    → All (EndsBy bound) rest
    → (out : List ByteRange) × (coalesce_loop debug current rest ≡ ok out)
unfolding coalesce_loop
coalesce_loop_total debug bound current [] small h all = (current ∷ [], refl)
coalesce_loop_total debug bound current (next ∷ rest) small h (l, all) =
    let (joined, same_run, eq, fits) = concat_total debug bound current next small h l in
    elim (Bool-cases same_run) [
      | inl join ↦
          let (out, later) = coalesce_loop_total debug bound joined rest small fits all in
          (out, rw (coalesce_loop, eq, join) later)
      | inr apart ↦
          let (out, later) = coalesce_loop_total debug bound next rest small l all in
          (current ∷ out, rw (coalesce_loop, eq, apart, later) refl)
    ]

ends_at :
    (bound : ℕ) (ps : List ℕ) → All (λ p. p + 1368 ≤ bound) ps → All (EndsBy bound) (ranges_at ps)
ends_at bound [] h = tt
ends_at bound (p ∷ ps) (h, hs) = (h, ends_at bound ps hs)

-- Positions in any order whose chunks end at a bound that fits 32 bits are coalesced without a panic.
pub coalesce_byte_positions_total :
    (debug : Bool) (bound : ℕ) (ps : List ℕ)
    → bound < 2 ^ 32
    → All (λ p. p + 1368 ≤ bound) ps
    → (out : List ByteRange) × (coalesce_byte_positions debug ps ≡ ok out)
unfolding coalesce_byte_positions coalesce_ranges
coalesce_byte_positions_total debug bound [] small h =
    ([], rw (coalesce_byte_positions, ranges_made debug []) refl)
coalesce_byte_positions_total debug bound (p ∷ ps) small h =
    let ends = ends_at bound (p ∷ ps) h in
    let (out, eq) =
      coalesce_loop_total debug bound (record { start = p; length = 1368 }) (ranges_at ps) small
        ends.0 ends.1 in
    (out, rw (coalesce_byte_positions, ranges_made debug (p ∷ ps)) eq)
