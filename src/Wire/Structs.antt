-- ===== src/Wire/Structs.antt =====
-- The derive macros keep the promise of `Serialize` when the fields do.
use ubass_rs.Base.{ℕ, ◌+◌, ◌≤◌, ◌≡◌, refl, sym, ap, ◌∙◌, arith, Bool, true, false}
use ubass_rs.Base.{[], ◌++◌, append_assoc, le→ltb, length, take, drop}
use ubass_rs.Base.{length-append, length-drop, length-take}
use ubass_rs.Base.{take-append_left, drop-append_left, drop-drop}
use native.Mathlib.Nat.{add_assoc, zero-add}
use ubass_rs.Base.Outcome.{ok}
use ubass_rs.Wire.Codec.{Bytes, Serialize, slice_from, serialize_at}
use ubass_rs.Wire.Derive.{Fields, last, payload, ◌⨟◌, derive_struct}
use ubass_rs.Wire.Laws.{Lawful, Room, Rest, Room-le, Room-sub}

-- The same promise for a row of fields that begins at an offset.
pub record LawfulFields (tail : Bool) {A : Type 0} (fs : Fields A) (Valid : A → Type 0)
    (encode : A → Bytes) : Type 0 where
  pub size : (a : A) (acc : ℕ) → Valid a → fs.total a acc ≡ acc + length (encode a)
  pub writes :
      (a : A) (offset : ℕ) (buf : Bytes)
      → Valid a
      → Room tail (offset + length (encode a)) (length buf)
      → fs.write a offset buf
        ≡ ok (take offset buf ++ (encode a ++ drop (offset + length (encode a)) buf))
  pub reads :
      (a : A) (front rest : Bytes)
      → Valid a
      → Rest tail rest
      → fs.read (length front) (front ++ (encode a ++ rest)) ≡ ok a

pub slice_from_lem : (front rest : Bytes) → slice_from (length front) (front ++ rest) ≡ ok rest
unfolding slice_from
slice_from_lem front rest =
    rw (le→ltb (length (front ++ rest)) (length front) (omega (arith, length-append front rest)))
      (ap ok (drop-append_left front rest (length front) refl))

slice_from-drop : (n : ℕ) (buf : Bytes) → n ≤ length buf → slice_from n buf ≡ ok (drop n buf)
unfolding slice_from
slice_from-drop n buf h = rw (le→ltb (length buf) n h)

module _ {tail : Bool} {A : Type 0} {c : Serialize A} {Valid : A → Type 0} {encode : A → Bytes}
    (law : Lawful tail c Valid encode) where
  pub serialize_at_lem :
      (a : A) (offset : ℕ) (buf : Bytes)
      → Valid a
      → Room tail (offset + length (encode a)) (length buf)
      → serialize_at c a offset buf
        ≡ ok (take offset buf ++ (encode a ++ drop (offset + length (encode a)) buf))
  unfolding serialize_at
  serialize_at_lem a offset buf h room =
      rw
        (
          le→ltb (length buf) offset (omega (arith, Room-le tail _ _ room)),
          law.writes a (drop offset buf) h room',
          drop-drop,
          ← law.size a h,
        )
        refl
    where
      room' : Room tail (c.sized a) (length (drop offset buf))
      room' = rw (length-drop, ← law.size a h) (Room-sub tail offset _ _ room)

-- A buffer into which `mid` has been written behind `front`.
module _ (front mid rest : Bytes) (n : ℕ) (e : n ≡ length front + length mid) where
  pub take_written : take n (front ++ (mid ++ rest)) ≡ front ++ mid
  take_written =
      rw (← append_assoc front mid rest)
        (take-append_left (front ++ mid) rest n (e ∙ sym (length-append front mid)))

  drop_written : (k : ℕ) → drop (n + k) (front ++ (mid ++ rest)) ≡ drop k rest
  drop_written k =
      sym (drop-drop k n _)
      ∙ ap (drop k) (
          rw (← append_assoc front mid rest)
            (drop-append_left (front ++ mid) rest n (e ∙ sym (length-append front mid))))

module _ {tail : Bool} {A : Type 0} {c : Serialize A} {Valid : A → Type 0} {encode : A → Bytes}
    (law : Lawful tail c Valid encode) where
  pub last-Lawful : LawfulFields tail (last c) Valid encode
  last-Lawful = record {
    size = λ a acc h. rw (law.size a h);
    writes = serialize_at_lem law;
    reads = λ a front rest h r. rw (slice_from_lem front (encode a ++ rest)) (law.reads a rest h r);
  }

module _ {A : Type 0} {c : Serialize A} {Valid : A → Type 0} {encode : A → Bytes}
    (law : Lawful true c Valid encode) where
  pub payload-Lawful : LawfulFields true (payload c) Valid encode
  payload-Lawful =
      let laws = last-Lawful law in
      record { size = laws.size; writes = laws.writes; reads = laws.reads }

module _ {tail : Bool} {A B : Type 0} {c : Serialize A} {fs : Fields B} {Valid : A → Type 0}
    {Valids : B → Type 0} {encode : A → Bytes} {encodes : B → Bytes}
    (law : Lawful false c Valid encode) (laws : LawfulFields tail fs Valids encodes) where
  abbrev Both : A × B → Type 0
  Both p = Valid p.0 × Valids p.1

  abbrev joined : A × B → Bytes
  joined p = encode p.0 ++ encodes p.1

  ⨟_writes :
      (p : A × B) (offset : ℕ) (buf : Bytes)
      → Both p
      → Room tail (offset + length (joined p)) (length buf)
      → (c ⨟ fs).write p offset buf
        ≡ ok (take offset buf ++ (joined p ++ drop (offset + length (joined p)) buf))
  ⨟_writes (a, b) offset buf (h, hs) room =
      rw
        (
          serialize_at_lem law a offset buf h room₁,
          ← law.size a h,
          laws.writes b (offset + length (encode a)) buf₁ hs room₂,
          take_written (take offset buf) (encode a) _ (offset + length (encode a)) at_end,
          drop_written (take offset buf) (encode a) _ (offset + length (encode a)) at_end,
          drop-drop,
          length-append,
          append_assoc,
          append_assoc,
          add_assoc,
        )
        refl
    where
      fits : offset + length (encode a) + length (encodes b) ≤ length buf
      fits = omega (arith, Room-le tail _ _ room, length-append (encode a) (encodes b))

      room₁ : offset + length (encode a) ≤ length buf
      room₁ = omega (arith, fits)

      buf₁ : Bytes
      buf₁ = take offset buf ++ (encode a ++ drop (offset + length (encode a)) buf)

      at_end : offset + length (encode a) ≡ length (take offset buf) + length (encode a)
      at_end = omega (arith, fits, length-take offset buf)

      length-buf₁ : length buf₁ ≡ length buf
      length-buf₁ =
          rw (length-append, length-append, length-drop, length-take) (omega (arith, fits))

      room₂ : Room tail (offset + length (encode a) + length (encodes b)) (length buf₁)
      room₂ = rw (length-buf₁, add_assoc, ← length-append (encode a) (encodes b)) room

  ⨟_reads :
      (p : A × B) (front rest : Bytes)
      → Both p
      → Rest tail rest
      → (c ⨟ fs).read (length front) (front ++ (joined p ++ rest)) ≡ ok p
  ⨟_reads (a, b) front rest (h, hs) r =
      rw
        (
          append_assoc (encode a) (encodes b) rest,
          slice_from_lem front (encode a ++ (encodes b ++ rest)),
          law.reads a (encodes b ++ rest) h tt,
          ← law.size a h,
          ← length-append front (encode a),
          ← append_assoc front (encode a) (encodes b ++ rest),
          laws.reads b (front ++ encode a) rest hs r,
        )
        refl

  pub ⨟-Lawful : LawfulFields tail (c ⨟ fs) Both joined
  ⨟-Lawful = record {
    size = λ p acc h.
        laws.size p.1 (acc + c.sized p.0) h.1
        ∙ omega (arith, law.size p.0 h.0, length-append (encode p.0) (encodes p.1));
    writes = ⨟_writes;
    reads = ⨟_reads;
  }

module _ {tail : Bool} {A R : Type 0} {fs : Fields A} {Valid : A → Type 0} {encode : A → Bytes}
    (laws : LawfulFields tail fs Valid encode) (split : R → A) (build : A → R)
    (same : (r : R) → build (split r) ≡ r) where
  pub derive_struct-Lawful :
      Lawful tail (derive_struct fs split build) (λ r. Valid (split r)) (λ r. encode (split r))
  derive_struct-Lawful = record {
    size = λ r h. sym (total r h);
    writes = λ r buf h room.
        rw (le→ltb (length buf) (fs.total (split r) 0) (Room-le tail _ _ room), total r h)
          (laws.writes (split r) 0 buf h (rw (zero-add, ← total r h) room) ∙ rw zero-add);
    reads = λ r rest h e. rw (laws.reads (split r) [] rest h e) (ap ok (same r));
  }
    where
      total : (r : R) → Valid (split r) → fs.total (split r) 0 ≡ length (encode (split r))
      total r h = laws.size (split r) 0 h ∙ omega arith
