-- ===== src/State/Sending/Extras.antt =====
-- Which chunks a seek marks to be sent later.
use ubass_rs.Base.{
  ℕ, zero, suc, ◌+◌, ◌-◌, ◌*◌, ◌/◌, ◌≤◌, ◌≡◌, refl, ap, ap₂, ◌∙◌, arith, ltb, leb, min, max, ◌==◌,
  ◌&&◌, ◌||◌, Bool, true, false, List, [], ◌∷◌, Bool-cases, inl, inr,
}
use ubass_rs.Base.Maps.{nat_eq, contains}
use ubass_rs.State.Sending.{btree_insert, insert_range, div_ceil, add_seek_hole_indices}

-- The set is in increasing order, from `low` on.
abbrev pub IsSetFrom : ℕ → List ℕ → Type 0
IsSetFrom low [] = Unit
IsSetFrom low (x ∷ set) = (low ≤ x) × IsSetFrom (x + 1) set

contains-btree_insert :
    (i x : ℕ) (set : List ℕ) → contains i (btree_insert x set) ≡ ((i == x) || contains i set)
unfolding contains btree_insert
contains-btree_insert i x [] = refl
contains-btree_insert i x (y ∷ set) = ground (arith, contains-btree_insert i x set)

not_below : (x y : ℕ) → ltb x y ≡ false → (x == y) ≡ false → y + 1 ≤ x
not_below x y h k = ground arith

below : (x y : ℕ) → ltb x y ≡ true → x + 1 ≤ y
below x y h = ground arith

btree_insert-IsSetFrom :
    (low x : ℕ) (set : List ℕ) → low ≤ x → IsSetFrom low set → IsSetFrom low (btree_insert x set)
unfolding btree_insert
btree_insert-IsSetFrom low x [] h s = (h, tt)
btree_insert-IsSetFrom low x (y ∷ set) h (l, s) = elim (Bool-cases (ltb x y)) [
  | inl first ↦ rw (btree_insert, first) (h, (below x y first, s))
  | inr later ↦ elim (Bool-cases (x == y)) [
    | inl there ↦ rw (btree_insert, later, there) (l, s)
    | inr other ↦
        rw (btree_insert, later, other)
          (l, btree_insert-IsSetFrom (y + 1) x set (not_below x y later other) s)
  ]
]

one_more :
    (i start n : ℕ) (c : Bool)
    → ((leb (start + 1) i && ltb i (start + 1 + n)) || ((i == start) || c))
      ≡ ((leb start i && ltb i (start + suc n)) || c)
one_more i start n c = ground arith

contains-insert_range :
    (i start n : ℕ) (set : List ℕ)
    → contains i (insert_range start n set) ≡ ((leb start i && ltb i (start + n)) || contains i set)
unfolding insert_range
contains-insert_range i start zero set = ground arith
contains-insert_range i start (suc n) set =
    contains-insert_range i (start + 1) n (btree_insert start set)
    ∙ (ap (λ c. (leb (start + 1) i && ltb i (start + 1 + n)) || c)
          (contains-btree_insert i start set)
        ∙ one_more i start n (contains i set))

insert_range-IsSetFrom :
    (start n : ℕ) (set : List ℕ) → IsSetFrom 0 set → IsSetFrom 0 (insert_range start n set)
unfolding insert_range
insert_range-IsSetFrom start zero set s = s
insert_range-IsSetFrom start (suc n) set s =
    insert_range-IsSetFrom (start + 1) n (btree_insert start set)
      (btree_insert-IsSetFrom 0 start set (omega arith) s)

not_forward : (x y : ℕ) → ltb x y ≡ false → y ≤ x
not_forward x y h = ground arith

range_end :
    (lo hi : ℕ) → lo ≤ hi → lo / 1368 + ((hi + 1367) / 1368 - lo / 1368) ≡ (hi + 1367) / 1368
range_end lo hi h = omega (arith, h)

ceil_below : (i hi : ℕ) → ltb i ((hi + 1367) / 1368) ≡ ltb (i * 1368) hi
ceil_below i hi = ground arith

contains-seek :
    (lo hi i : ℕ) (extras : List ℕ)
    → lo ≤ hi
    → contains i (insert_range (lo / 1368) (div_ceil hi 1368 - lo / 1368) extras)
      ≡ ((leb (lo / 1368) i && ltb (i * 1368) hi) || contains i extras)
contains-seek lo hi i extras h =
    contains-insert_range i (lo / 1368) (div_ceil hi 1368 - lo / 1368) extras
    ∙ ap (λ b. (leb (lo / 1368) i && b) || contains i extras)
        (ap (λ e. ltb i e) (range_end lo hi h) ∙ ceil_below i hi)

-- A seek, forward or back, between any two positions: exactly the chunks that have a byte
-- from the lower position up to the higher one are added to the set, which stays in increasing order
-- without repetition. In case both are the same, no chunk is added if a chunk begins there, and otherwise
-- the chunk that they are in.
pub add_seek_hole_indices_lem :
    (extras : List ℕ) (last_sent to i : ℕ)
    → IsSetFrom 0 extras
    → (contains i (add_seek_hole_indices extras last_sent to) ≡ (
        (leb (min last_sent to / 1368) i && ltb (i * 1368) (max last_sent to))
        || contains i extras))
      × IsSetFrom 0 (add_seek_hole_indices extras last_sent to)
unfolding add_seek_hole_indices
add_seek_hole_indices_lem extras last_sent to i s = elim (Bool-cases (ltb last_sent to)) [
  | inl forward ↦
      rw (add_seek_hole_indices, forward)
        (
          contains-seek last_sent to i extras (omega (arith, below last_sent to forward))
              ∙ ap₂ (λ lo hi. (leb (lo / 1368) i && ltb (i * 1368) hi) || contains i extras)
                  (omega (arith, below last_sent to forward))
                  (omega (arith, below last_sent to forward)),
          insert_range-IsSetFrom (last_sent / 1368) (div_ceil to 1368 - last_sent / 1368) extras s,
        )
  | inr back ↦
      rw (add_seek_hole_indices, back)
        (
          contains-seek to last_sent i extras (not_forward last_sent to back)
              ∙ ap₂ (λ lo hi. (leb (lo / 1368) i && ltb (i * 1368) hi) || contains i extras)
                  (omega (arith, not_forward last_sent to back))
                  (omega (arith, not_forward last_sent to back)),
          insert_range-IsSetFrom (to / 1368) (div_ceil last_sent 1368 - to / 1368) extras s,
        )
]
