-- ===== src/Fec/Batch/Mask.antt =====
-- The packets of a batch that its mask has not seen.
use ubass_rs.Base.{ℕ, zero, suc, ◌≤◌, ◌<◌, ◌≡◌, refl, sym, ap, ◌∙◌, arith}
use ubass_rs.Base.{
  Bool, true, false, List, [], ◌∷◌, length, get_or, set, All, replicate, length-replicate,
}
use ubass_rs.Wire.Codec.{Bytes}
use ubass_rs.Fec.{empty_data, xor_data}
use ubass_rs.Fec.Batch.Algebra.{xor_data_comm, xor_data_assoc, length-xor_data}

-- The data of every packet of a batch has the fixed size.
abbrev pub IsFull : List Bytes → Type 0
IsFull ds = All (λ d. length d ≡ 1374) ds

-- The sum of the data of a whole batch.
unfoldable pub parity_of : List Bytes → Bytes
unfolding xor_data
parity_of [] = empty_data
parity_of (d ∷ ds) = xor_data d (parity_of ds)

-- The sum of the data whose bit is not set.
unfoldable pub rest_of : List Bool → List Bytes → Bytes
unfolding xor_data
rest_of mask [] = empty_data
rest_of [] (d ∷ ds) = empty_data
rest_of (true ∷ mask) (d ∷ ds) = rest_of mask ds
rest_of (false ∷ mask) (d ∷ ds) = xor_data d (rest_of mask ds)

-- The number of packets whose bit is set.
unfoldable pub count_seen : List Bool → List Bytes → ℕ
count_seen mask [] = 0
count_seen [] (d ∷ ds) = 0
count_seen (true ∷ mask) (d ∷ ds) = suc (count_seen mask ds)
count_seen (false ∷ mask) (d ∷ ds) = count_seen mask ds

pub length-rest_of :
    (mask : List Bool) (ds : List Bytes) → IsFull ds → length (rest_of mask ds) ≡ 1374
unfolding rest_of
length-rest_of mask [] full = length-replicate {A = ℕ} 1374 0
length-rest_of [] (d ∷ ds) full = length-replicate {A = ℕ} 1374 0
length-rest_of (true ∷ mask) (d ∷ ds) full = length-rest_of mask ds full.1
length-rest_of (false ∷ mask) (d ∷ ds) full = length-xor_data d (rest_of mask ds) ∙ full.0

pub get_or-IsFull :
    (ds : List Bytes) (i : ℕ) → IsFull ds → i < length ds → length (get_or ds i []) ≡ 1374
get_or-IsFull [] i full h = absurd (omega (arith, h))
get_or-IsFull (d ∷ ds) zero full h = full.0
get_or-IsFull (d ∷ ds) (suc i) full h = get_or-IsFull ds i full.1 (omega (arith, h))

-- Setting a bit takes one packet out of the sum and adds one to the count.
pub rest_of-set :
    (mask : List Bool) (ds : List Bytes) (i : ℕ)
    → IsFull ds
    → i < length ds
    → get_or mask i true ≡ false
    → (rest_of mask ds ≡ xor_data (get_or ds i []) (rest_of (set mask i true) ds))
      × (count_seen (set mask i true) ds ≡ suc (count_seen mask ds))
unfolding rest_of count_seen
rest_of-set mask [] i full h unset = absurd (omega (arith, h))
rest_of-set [] (d ∷ ds) i full h unset = cc
rest_of-set (true ∷ mask) (d ∷ ds) zero full h unset = cc
rest_of-set (false ∷ mask) (d ∷ ds) zero full h unset = (refl, refl)
rest_of-set (true ∷ mask) (d ∷ ds) (suc i) full h unset =
    let (rest, count) = rest_of-set mask ds i full.1 (omega (arith, h)) unset in
    (rest, ap (λ n. suc n) count)
rest_of-set (false ∷ mask) (d ∷ ds) (suc i) full h unset =
    let (rest, count) = rest_of-set mask ds i full.1 (omega (arith, h)) unset in
    let size = get_or-IsFull ds i full.1 (omega (arith, h)) in
    let rest_size = length-rest_of (set mask i true) ds full.1 in
    (
      ap (λ r. xor_data d r) rest
          ∙ (sym (
                xor_data_assoc d (get_or ds i []) (rest_of (set mask i true) ds) (full.0 ∙ sym size)
                  (size ∙ sym rest_size))
              ∙ (ap (λ r. xor_data r (rest_of (set mask i true) ds))
                    (xor_data_comm d (get_or ds i []) (full.0 ∙ sym size))
                  ∙ xor_data_assoc (get_or ds i []) d (rest_of (set mask i true) ds)
                      (size ∙ sym full.0) (full.0 ∙ sym rest_size))),
      count,
    )

-- When all bits are set nothing is left.
pub rest_of-all :
    (mask : List Bool) (ds : List Bytes)
    → ((j : ℕ) → j < length ds → get_or mask j false ≡ true)
    → (rest_of mask ds ≡ empty_data) × (count_seen mask ds ≡ length ds)
unfolding rest_of count_seen
rest_of-all mask [] all = (refl, refl)
rest_of-all [] (d ∷ ds) all = cc (all 0 (omega arith))
rest_of-all (false ∷ mask) (d ∷ ds) all = cc (all 0 (omega arith))
rest_of-all (true ∷ mask) (d ∷ ds) all =
    let (rest, count) = rest_of-all mask ds (λ j h. all (suc j) (omega arith)) in
    (rest, ap (λ n. suc n) count)

pub count_seen-le : (mask : List Bool) (ds : List Bytes) → count_seen mask ds ≤ length ds
unfolding count_seen
count_seen-le mask [] = omega arith
count_seen-le [] (d ∷ ds) = omega arith
count_seen-le (true ∷ mask) (d ∷ ds) = omega (arith, count_seen-le mask ds)
count_seen-le (false ∷ mask) (d ∷ ds) = omega (arith, count_seen-le mask ds)

pub rest_of-none :
    (n : ℕ) (ds : List Bytes)
    → length ds ≤ n
    → (rest_of (replicate n false) ds ≡ parity_of ds) × (count_seen (replicate n false) ds ≡ 0)
unfolding rest_of count_seen parity_of
rest_of-none n [] h = (refl, refl)
rest_of-none zero (d ∷ ds) h = absurd (omega (arith, h))
rest_of-none (suc n) (d ∷ ds) h =
    let (rest, count) = rest_of-none n ds (omega (arith, h)) in (ap (λ r. xor_data d r) rest, count)
