-- ===== src/Buffers/Areas.antt =====
-- `struct Area` of src/api/types.rs, and what `WriteableBuffer::occupy` does to the list of the
-- areas that are not filled.
pub mod Laws
use ubass_rs.Base.{ℕ, ◌+◌, ◌-◌, ◌==◌, Bool, not, ◌&&◌, leb, ltb, if◌then◌else◌}
use ubass_rs.Base.{List, [], ◌∷◌, ◌++◌}

-- `Area(Range<usize>)`
pub record Area : Type 0 where
  pub start : ℕ
  pub end : ℕ

abbrev pub area : ℕ → ℕ → Area
area s e = record { start = s; end = e }

-- `self.0.contains(&i)`
unfoldable pub contains : Area → ℕ → Bool
contains a i = leb a.start i && ltb i a.end

-- What an area that contains `i` is replaced by: nothing, the part behind `i`, the part in front of
-- it, or both.
unfoldable pub split_area : ℕ → Area → List Area
split_area i a =
    if a.start == i
    then if a.end == i + 1 then [] else area (i + 1) a.end ∷ []
    else if not (a.end - 1 == i)
    then area a.start i ∷ area (i + 1) a.end ∷ []
    else area a.start i ∷ []

-- The first area that contains `i` is replaced.
unfoldable pub occupy_areas : ℕ → List Area → List Area
unfolding contains split_area
occupy_areas i [] = []
occupy_areas i (a ∷ rest) = if contains a i then split_area i a ++ rest else a ∷ occupy_areas i rest
