-- ===== src/Packets/Scalars/Ranges.antt =====
-- `Vec<ByteRange>` keeps the promise of `Serialize`.
use ubass_rs.Base.{ℕ, zero, suc, ◌+◌, ◌*◌, ◌≤◌, ◌≡◌, ◌≢◌, refl, sym, ap, ◌∙◌, arith, true}
use ubass_rs.Base.{
  List, [], ◌∷◌, ◌++◌, length, take, drop, drop-all, All, le→ltb, length-append, length-take,
}
use ubass_rs.Base.{take-append_left, drop-append_left, append-nil, append_assoc, length-drop}
use ubass_rs.Base.Outcome.{Outcome, ok, ◌>>=◌}
use ubass_rs.Wire.Codec.{Bytes}
use ubass_rs.Wire.Laws.{Lawful}
use ubass_rs.Wire.Structs.{serialize_at_lem, take_written}
use ubass_rs.Packets.Scalars.{
  ByteRange, byte_range, serialize_ranges, deserialize_ranges, byte_ranges,
}
use ubass_rs.Packets.Scalars.Laws.{IsByteRange, byte_range_bytes, byte_range-Lawful}

-- `Vec<ByteRange>`: the ranges one after the other, and one at least.
abbrev pub ranges_bytes : List ByteRange → Bytes
ranges_bytes [] = []
ranges_bytes (r ∷ rs) = byte_range_bytes r ++ ranges_bytes rs

abbrev pub IsByteRanges : List ByteRange → Type 0
IsByteRanges rs = (rs ≢ []) × All IsByteRange rs

pub length-ranges_bytes :
    (rs : List ByteRange) → All IsByteRange rs → length (ranges_bytes rs) ≡ length rs * 6
length-ranges_bytes [] h = refl
length-ranges_bytes (r ∷ rs) (h, hs) = omega (
  arith,
  length-append (byte_range_bytes r) (ranges_bytes rs),
  byte_range-Lawful.size r h,
  length-ranges_bytes rs hs,
)

take-all {ℓ} : {A : Type ℓ} (n : ℕ) (xs : List A) → length xs ≤ n → take n xs ≡ xs
take-all zero [] h = refl
take-all zero (x ∷ xs) h = absurd (omega arith)
take-all (suc n) [] h = refl
take-all (suc n) (x ∷ xs) h = ap (λ ys. x ∷ ys) (take-all n xs (omega arith))

serialize_ranges_lem :
    (rs : List ByteRange) (i : ℕ) (buf : Bytes)
    → All IsByteRange rs
    → i * 6 + length rs * 6 ≡ length buf
    → serialize_ranges i rs buf ≡ ok (take (i * 6) buf ++ ranges_bytes rs)
unfolding serialize_ranges
serialize_ranges_lem [] i buf h e =
    ap ok (sym (append-nil (take (i * 6) buf) ∙ take-all (i * 6) buf (omega arith)))
serialize_ranges_lem (r ∷ rs) i buf (h, hs) e =
    rw
      (
        serialize_at_lem byte_range-Lawful r (i * 6) buf h (omega (arith, six)),
        serialize_ranges_lem rs (i + 1) buf₁ hs
            (rw (length-append, length-append, length-take, length-drop) (omega (arith, six))),
        take_written (take (i * 6) buf) (byte_range_bytes r) _ ((i + 1) * 6)
            (rw length-take (omega (arith, six))),
        append_assoc,
      )
      refl
  where
    six : length (byte_range_bytes r) ≡ 6
    six = byte_range-Lawful.size r h

    buf₁ : Bytes
    buf₁ =
        take (i * 6) buf ++ (byte_range_bytes r ++ drop (i * 6 + length (byte_range_bytes r)) buf)

deserialize_ranges_step :
    (fuel : ℕ) (bytes : Bytes)
    → 6 ≤ length bytes
    → deserialize_ranges (suc fuel) bytes ≡ (
        byte_range.deserialize (take 6 bytes) >>= λ r.
        deserialize_ranges fuel (drop 6 bytes) >>= λ rs. ok (r ∷ rs))
unfolding deserialize_ranges
deserialize_ranges_step fuel [] h = absurd (omega arith)
deserialize_ranges_step fuel (b ∷ bs) h =
    rw (le→ltb (length (take 6 (b ∷ bs))) 6 (omega (arith, length-take 6 (b ∷ bs))))

deserialize_ranges_lem :
    (rs : List ByteRange) (fuel : ℕ)
    → All IsByteRange rs
    → length (ranges_bytes rs) ≤ fuel
    → deserialize_ranges fuel (ranges_bytes rs) ≡ ok rs
unfolding deserialize_ranges
deserialize_ranges_lem [] zero h e = refl
deserialize_ranges_lem [] (suc fuel) h e = refl
deserialize_ranges_lem (r ∷ rs) zero (h, hs) e =
    absurd (omega (arith, length-ranges_bytes (r ∷ rs) (h, hs)))
deserialize_ranges_lem (r ∷ rs) (suc fuel) (h, hs) e =
    deserialize_ranges_step fuel (ranges_bytes (r ∷ rs))
      (omega (arith, length-ranges_bytes (r ∷ rs) (h, hs)))
    ∙ rw
        (
          take-append_left (byte_range_bytes r) (ranges_bytes rs) 6 (sym six),
          drop-append_left (byte_range_bytes r) (ranges_bytes rs) 6 (sym six),
          deserialize_ranges_lem rs fuel hs smaller,
        )
        (ap (λ (o : Outcome ByteRange). o >>= λ r'. ok (r' ∷ rs)) read)
  where
    six : length (byte_range_bytes r) ≡ 6
    six = byte_range-Lawful.size r h

    smaller : length (ranges_bytes rs) ≤ fuel
    smaller = omega (arith, length-append (byte_range_bytes r) (ranges_bytes rs), six)

    read : byte_range.deserialize (byte_range_bytes r) ≡ ok r
    read = rw append-nil at (byte_range-Lawful.reads r [] h tt)

-- Also no ranges are written.
pub byte_ranges_writes :
    (rs : List ByteRange) (buf : Bytes)
    → All IsByteRange rs
    → length rs * 6 ≡ length buf
    → byte_ranges.serialize rs buf ≡ ok (ranges_bytes rs ++ drop (length rs * 6) buf)
byte_ranges_writes rs buf h room = rw (le→ltb (length buf) (length rs * 6) (omega (arith, room))) (
    serialize_ranges_lem rs 0 buf h (omega (arith, room))
    ∙ ap (λ k. ok k)
        (sym (append-nil _)
          ∙ ap (λ k. ranges_bytes rs ++ k) (sym (drop-all _ buf (omega (arith, room))))))

pub byte_ranges-Lawful : Lawful true byte_ranges IsByteRanges ranges_bytes
byte_ranges-Lawful = record {
  size = λ rs h. length-ranges_bytes rs h.1;
  writes = λ rs buf h room. byte_ranges_writes rs buf h.1 room;
  reads = λ rs rest h r. rw (r, append-nil) (byte_ranges_reads rs h.0 h.1);
}
  where
    byte_ranges_reads :
        (rs : List ByteRange)
        → rs ≢ []
        → All IsByteRange rs
        → byte_ranges.deserialize (ranges_bytes rs) ≡ ok rs
    byte_ranges_reads [] ne h = absurd (ne refl)
    byte_ranges_reads (r ∷ rs) ne h =
        rw
          (le→ltb (length (ranges_bytes (r ∷ rs))) 6
            (omega (arith, length-ranges_bytes (r ∷ rs) h)))
          (deserialize_ranges_lem (r ∷ rs) _ h (omega arith))
