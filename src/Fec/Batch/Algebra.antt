-- ===== src/Fec/Batch/Algebra.antt =====
-- `^` on the data of packets of one length.
use ubass_rs.Base.{
  ℕ, zero, suc, ◌≡◌, refl, sym, ap, ap₂, ◌∙◌, arith, [], ◌∷◌, length, replicate, length-replicate,
}
use ubass_rs.Base.Bits.{xor_comm, xor_assoc, xor_self, xor-zero}
use ubass_rs.Wire.Codec.{Bytes}
use ubass_rs.Fec.{xor_data}

pub xor_data_comm : (xs bs : Bytes) → length xs ≡ length bs → xor_data xs bs ≡ xor_data bs xs
unfolding xor_data
xor_data_comm [] [] h = refl
xor_data_comm [] (b ∷ bs) h = absurd (omega (arith, h))
xor_data_comm (a ∷ xs) [] h = absurd (omega (arith, h))
xor_data_comm (a ∷ xs) (b ∷ bs) h =
    ap₂ (λ x y. x ∷ y) (xor_comm a b) (xor_data_comm xs bs (omega (arith, h)))

pub xor_data_assoc :
    (xs bs cs : Bytes)
    → length xs ≡ length bs
    → length bs ≡ length cs
    → xor_data (xor_data xs bs) cs ≡ xor_data xs (xor_data bs cs)
unfolding xor_data
xor_data_assoc [] bs cs h l = refl
xor_data_assoc (a ∷ xs) [] cs h l = absurd (omega (arith, h))
xor_data_assoc (a ∷ xs) (b ∷ bs) [] h l = absurd (omega (arith, l))
xor_data_assoc (a ∷ xs) (b ∷ bs) (c ∷ cs) h l =
    ap₂ (λ x y. x ∷ y) (xor_assoc a b c)
      (xor_data_assoc xs bs cs (omega (arith, h)) (omega (arith, l)))

pub length-xor_data : (xs bs : Bytes) → length (xor_data xs bs) ≡ length xs
unfolding xor_data
length-xor_data [] bs = refl
length-xor_data (a ∷ xs) [] = refl
length-xor_data (a ∷ xs) (b ∷ bs) = ap (λ n. suc n) (length-xor_data xs bs)

pub xor_data_self : (xs : Bytes) → xor_data xs xs ≡ replicate (length xs) 0
unfolding xor_data
xor_data_self [] = refl
xor_data_self (a ∷ xs) = ap₂ (λ x y. x ∷ y) (xor_self a) (xor_data_self xs)

pub xor_data_zero : (xs : Bytes) (n : ℕ) → xor_data xs (replicate n 0) ≡ xs
unfolding xor_data
xor_data_zero [] n = refl
xor_data_zero (a ∷ xs) zero = refl
xor_data_zero (a ∷ xs) (suc n) = ap₂ (λ x y. x ∷ y) (xor-zero a) (xor_data_zero xs n)

-- What has been put in comes out again.
pub xor_data_cancel : (xs bs : Bytes) → length xs ≡ length bs → xor_data xs (xor_data xs bs) ≡ bs
xor_data_cancel xs bs h =
    sym (xor_data_assoc xs xs bs refl h)
    ∙ ap (λ z. xor_data z bs) (xor_data_self xs)
    ∙ xor_data_comm (replicate (length xs) 0) bs (length-replicate (length xs) 0 ∙ h)
    ∙ xor_data_zero bs (length xs)
