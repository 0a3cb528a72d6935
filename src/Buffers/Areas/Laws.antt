-- ===== src/Buffers/Areas/Laws.antt =====
-- The list of areas that `occupy` maintains is the list of the maximal runs of unfilled chunks.
use ubass_rs.Base.{ℕ, zero, suc, ◌+◌, ◌-◌, ◌<◌, ◌≤◌, ◌≡◌, refl, ap, arith, ◌==◌}
use ubass_rs.Base.{Bool, true, false, List, [], ◌∷◌, set, get_or, if◌then◌else◌}
use ubass_rs.Base.{
  zero_add, Option, none, some, ◌∙◌, sym, Bool-cases, inl, inr, ==_refl, ==_iff, not, ◌++◌,
}
use ubass_rs.Buffers.Areas.{Area, area, contains, split_area, occupy_areas}

-- The maximal runs of `false` of a map whose first chunk has number `k`, in order. The first
-- argument is the chunk at which a run that is not over began.
unfoldable pub areas_from : Option ℕ → ℕ → List Bool → List Area
areas_from none k [] = []
areas_from none k (true ∷ m) = areas_from none (k + 1) m
areas_from none k (false ∷ m) = areas_from (some k) (k + 1) m
areas_from (some s) k [] = area s k ∷ []
areas_from (some s) k (true ∷ m) = area s k ∷ areas_from none (k + 1) m
areas_from (some s) k (false ∷ m) = areas_from (some s) (k + 1) m

abbrev pub areas_after : ℕ → ℕ → List Bool → List Area
areas_after i k m = areas_from (if k == i + 1 then none else some (i + 1)) k m

contains-true : (s k i : ℕ) → s ≤ i → i < k → contains (area s k) i ≡ true
unfolding contains
contains-true s k i h l = ground arith

contains-false : (s k i : ℕ) → k ≤ i → contains (area s k) i ≡ false
unfolding contains
contains-false s k i h = ground arith

cons_skip :
    (s k i : ℕ) (rest : List Area)
    → k ≤ i
    → occupy_areas i (area s k ∷ rest) ≡ area s k ∷ occupy_areas i rest
unfolding occupy_areas
cons_skip s k i rest h = rw (contains-false s k i h) refl

cons_first :
    (s k : ℕ) (rest : List Area)
    → s < k
    → occupy_areas s (area s k ∷ rest) ≡ (if k == s + 1 then rest else area (s + 1) k ∷ rest)
unfolding occupy_areas split_area
cons_first s k rest h = rw (contains-true s k s (omega arith) h, ==_refl s) (push (k == s + 1))
  where
    push :
        (b : Bool)
        → (if b then [] else area (s + 1) k ∷ []) ++ rest
          ≡ (if b then rest else area (s + 1) k ∷ rest)
    push true = refl
    push false = refl

cons_inside :
    (s i k : ℕ) (rest : List Area)
    → s < i
    → i < k
    → occupy_areas i (area s k ∷ rest)
      ≡ area s i ∷ (if k == i + 1 then rest else area (i + 1) k ∷ rest)
unfolding occupy_areas split_area
cons_inside s i k rest h l =
    rw (contains-true s k i (omega arith) l, differ, same) (push (k == i + 1))
  where
    differ : (s == i) ≡ false
    differ = ground arith

    same : (k - 1 == i) ≡ (k == i + 1)
    same = ground arith

    push :
        (b : Bool)
        → (if not b then area s i ∷ area (i + 1) k ∷ [] else area s i ∷ []) ++ rest
          ≡ area s i ∷ (if b then rest else area (i + 1) k ∷ rest)
    push true = refl
    push false = refl

after_nil :
    (b : Bool) (i k : ℕ)
    → (if b then [] else area i k ∷ []) ≡ areas_from (if b then none else some i) k []
unfolding areas_from
after_nil true i k = refl
after_nil false i k = refl

after_true :
    (b : Bool) (i k : ℕ) (m : List Bool)
    → (if b then areas_from none (k + 1) m else area i k ∷ areas_from none (k + 1) m)
      ≡ areas_from (if b then none else some i) k (true ∷ m)
unfolding areas_from
after_true true i k m = refl
after_true false i k m = refl

after_false :
    (i k : ℕ) (m : List Bool) → i < k → areas_after i (k + 1) m ≡ areas_after i k (false ∷ m)
unfolding areas_from
after_false i k m h = elim (Bool-cases (k == i + 1)) [
  | inl e ↦ rw (later, e) (ap (λ s. areas_from (some s) (k + 1) m) (sym ((==_iff k (i + 1)).0 e)))
  | inr e ↦ rw (later, e) refl
]
  where
    later : (k + 1 == i + 1) ≡ false
    later = ground arith

-- The first chunk of a run is filled.
occupy_first :
    (s k : ℕ) (m : List Bool) → s < k → occupy_areas s (areas_from (some s) k m) ≡ areas_after s k m
unfolding areas_from
occupy_first s k [] h = cons_first s k [] h ∙ after_nil (k == s + 1) (s + 1) k
occupy_first s k (true ∷ m) h =
    cons_first s k (areas_from none (k + 1) m) h ∙ after_true (k == s + 1) (s + 1) k m
occupy_first s k (false ∷ m) h = occupy_first s (k + 1) m (omega arith) ∙ after_false s k m h

-- A later chunk of a run that has been passed is filled.
occupy_inside :
    (s i k : ℕ) (m : List Bool)
    → s < i
    → i < k
    → occupy_areas i (areas_from (some s) k m) ≡ area s i ∷ areas_after i k m
unfolding areas_from
occupy_inside s i k [] h l =
    cons_inside s i k [] h l ∙ ap (λ r. area s i ∷ r) (after_nil (k == i + 1) (i + 1) k)
occupy_inside s i k (true ∷ m) h l =
    cons_inside s i k (areas_from none (k + 1) m) h l
    ∙ ap (λ r. area s i ∷ r) (after_true (k == i + 1) (i + 1) k m)
occupy_inside s i k (false ∷ m) h l =
    occupy_inside s i (k + 1) m h (omega arith) ∙ ap (λ r. area s i ∷ r) (after_false i k m l)

after_here : (k : ℕ) (m : List Bool) → areas_after k (k + 1) m ≡ areas_from none (k + 1) m
after_here k m = rw (==_refl (k + 1)) refl

here : (k : ℕ) → k + 0 ≡ k
here k = omega arith

shift : (k j : ℕ) → k + suc j ≡ k + 1 + j
shift k j = omega arith

-- For a map that begins at chunk `k`, also behind a run that began at a chunk `s` in front of it.
occupy_in_runs :
    (k j : ℕ) (m : List Bool)
    → get_or m j true ≡ false
    → (occupy_areas (k + j) (areas_from none k m) ≡ areas_from none k (set m j true))
      × ((s : ℕ)
          → s < k
          → occupy_areas (k + j) (areas_from (some s) k m) ≡ areas_from (some s) k (set m j true))
unfolding areas_from
occupy_in_runs k j [] h = cc
occupy_in_runs k zero (true ∷ m) h = cc
occupy_in_runs k zero (false ∷ m) h = (
  rw (here k) (occupy_first k (k + 1) m (omega arith) ∙ after_here k m),
  λ s l.
      rw (here k)
        (occupy_inside s k (k + 1) m l (omega arith) ∙ ap (λ r. area s k ∷ r) (after_here k m)),
)
occupy_in_runs k (suc j) (true ∷ m) h =
    let later = occupy_in_runs (k + 1) j m h in
    (
      rw (shift k j) later.0,
      λ s l.
          cons_skip s k (k + suc j) (areas_from none (k + 1) m) (omega arith)
          ∙ ap (λ r. area s k ∷ r) (rw (shift k j) later.0),
    )
occupy_in_runs k (suc j) (false ∷ m) h =
    let later = occupy_in_runs (k + 1) j m h in
    (rw (shift k j) (later.1 k (omega arith)), λ s l. rw (shift k j) (later.1 s (omega arith)))

-- `occupy` keeps the list of areas equal to the runs of unfilled chunks: filling the unfilled chunk
-- `j` of a map turns the maximal runs of the map into those of the map in which chunk `j` is filled.
pub occupy_areas-areas_from :
    (j : ℕ) (m : List Bool)
    → get_or m j true ≡ false
    → occupy_areas j (areas_from none 0 m) ≡ areas_from none 0 (set m j true)
occupy_areas-areas_from j m h = rw (zero_add j) at (occupy_in_runs 0 j m h).0
