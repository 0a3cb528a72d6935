-- ===== src/State/Requests/Positions.antt =====
-- The positions of the unfilled chunks, by the list of areas and by the map.
use ubass_rs.Base.{
  ℕ, zero, suc, ◌+◌, ◌-◌, ◌*◌, ◌%◌, ◌^◌, ◌<◌, ◌≡◌, refl, ap, ◌∙◌, arith, Bool, true, false,
  if◌then◌else◌, List, [], ◌∷◌, ◌++◌, length, none, some,
}
use ubass_rs.Buffers.Areas.Laws.{areas_from}
use ubass_rs.State.Requests.{chunk_positions, area_positions, is_active, drop_active}

-- The positions of the unfilled chunks of a map that begins at chunk `k`.
unfoldable pub unfilled_positions : ℕ → List Bool → List ℕ
unfilled_positions k [] = []
unfilled_positions k (true ∷ m) = unfilled_positions (k + 1) m
unfilled_positions k (false ∷ m) = (k * 1368) ∷ unfilled_positions (k + 1) m

-- Those of them that `skip` does not leave out.
unfoldable pub missing_chunks : (ℕ → Bool) → ℕ → List Bool → List ℕ
missing_chunks skip k [] = []
missing_chunks skip k (true ∷ m) = missing_chunks skip (k + 1) m
missing_chunks skip k (false ∷ m) =
    let rest = missing_chunks skip (k + 1) m in if skip k then rest else (k * 1368) ∷ rest

one_more : (s k : ℕ) → s < k → k + 1 - s ≡ suc (k - s)
one_more s k h = omega (arith, h)

only_one : (k : ℕ) → k + 1 - k ≡ suc zero
only_one k = omega arith

meets : (s k : ℕ) → s < k → s + (k - s) ≡ k
meets s k h = omega (arith, h)

fits : (k n : ℕ) → (k + suc n) * 1368 < 2 ^ 32 → k * 1368 % 2 ^ 32 ≡ k * 1368
fits k n h = omega (arith, h)

chunk_positions_last :
    (s n : ℕ)
    → (s + n) * 1368 < 2 ^ 32
    → (rest : List ℕ)
    → chunk_positions s (suc n) ++ rest ≡ chunk_positions s n ++ (((s + n) * 1368) ∷ rest)
unfolding chunk_positions
chunk_positions_last s zero h rest = ap (λ k. k ∷ rest) (here s h)
  where
    here : (s : ℕ) → (s + 0) * 1368 < 2 ^ 32 → s * 1368 % 2 ^ 32 ≡ (s + 0) * 1368
    here s h = omega (arith, h)
chunk_positions_last s (suc n) h rest =
    ap (λ l. (s * 1368 % 2 ^ 32) ∷ l)
      (chunk_positions_last (s + 1) n (omega (arith, h)) rest
        ∙ ap (λ k. chunk_positions (s + 1) n ++ ((k * 1368) ∷ rest)) (later s n))
  where
    later : (s n : ℕ) → s + 1 + n ≡ s + suc n
    later s n = omega arith

mutual
  unfolding areas_from area_positions unfilled_positions chunk_positions

  area_positions-run :
      (s k : ℕ) (m : List Bool)
      → s < k
      → (k + length m) * 1368 < 2 ^ 32
      → area_positions (areas_from (some s) k m)
        ≡ chunk_positions s (k - s) ++ unfilled_positions k m
  area_positions-run s k [] h small = refl
  area_positions-run s k (true ∷ m) h small =
      ap (λ l. chunk_positions s (k - s) ++ l)
        (area_positions-areas_from (k + 1) m (omega (arith, small)))
  area_positions-run s k (false ∷ m) h small =
      area_positions-run s (k + 1) m (omega (arith, h)) (omega (arith, small))
      ∙ (ap (λ n. chunk_positions s n ++ unfilled_positions (k + 1) m) (one_more s k h)
          ∙ (chunk_positions_last s (k - s) (omega (arith, h, small)) (unfilled_positions (k + 1) m)
              ∙ ap (λ j. chunk_positions s (k - s) ++ ((j * 1368) ∷ unfilled_positions (k + 1) m))
                  (meets s k h)))

  pub area_positions-areas_from :
      (k : ℕ) (m : List Bool)
      → (k + length m) * 1368 < 2 ^ 32
      → area_positions (areas_from none k m) ≡ unfilled_positions k m
  area_positions-areas_from k [] h = refl
  area_positions-areas_from k (true ∷ m) h = area_positions-areas_from (k + 1) m (omega (arith, h))
  area_positions-areas_from k (false ∷ m) h =
      area_positions-run k (k + 1) m (omega arith) (omega (arith, h))
      ∙ (ap (λ n. chunk_positions k n ++ unfilled_positions (k + 1) m) (only_one k)
          ∙ ap (λ p. p ∷ unfilled_positions (k + 1) m) (fits k (length m) h))

pub drop_active-unfilled_positions :
    (fec_active : List (ℕ × ℕ)) (k : ℕ) (m : List Bool)
    → drop_active fec_active (unfilled_positions k m)
      ≡ missing_chunks (λ i. is_active fec_active (i * 1368)) k m
unfolding drop_active unfilled_positions missing_chunks
drop_active-unfilled_positions fec_active k [] = refl
drop_active-unfilled_positions fec_active k (true ∷ m) =
    drop_active-unfilled_positions fec_active (k + 1) m
drop_active-unfilled_positions fec_active k (false ∷ m) =
    rw (drop_active-unfilled_positions fec_active (k + 1) m) refl
