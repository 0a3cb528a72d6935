-- ===== src/Base/Lists.antt =====
-- Lists measured, cut and indexed by native numbers, under the library's names.
use Prim.Native.Nat.{ℕ, zero, suc, ◌+◌, ◌-◌, ◌≤◌, ◌<◌, min}
use mathlib.Core.Path.{◌≡◌, refl, sym, ap, ap₂, ◌∙◌}
use mathlib.Core.Logic.{◌≢◌}
use mathlib.Core.List.{List, [], ◌∷◌, ◌++◌}
use mathlib.Core.Option.{Option, none, some}
use native.Mathlib.Omega.{arith}

module _ {ℓ} {A : Type ℓ} where
  abbrev pub length : List A → ℕ
  length [] = 0
  length (x ∷ xs) = suc (length xs)

  abbrev pub get_elem? : List A → ℕ → Option A
  get_elem? [] i = none
  get_elem? (x ∷ xs) zero = some x
  get_elem? (x ∷ xs) (suc i) = get_elem? xs i

  -- A write out of bounds changes nothing.
  abbrev pub set : List A → ℕ → A → List A
  set [] i v = []
  set (x ∷ xs) zero v = v ∷ xs
  set (x ∷ xs) (suc i) v = x ∷ set xs i v

  abbrev pub get_or : List A → ℕ → A → A
  get_or [] i d = d
  get_or (x ∷ xs) zero d = x
  get_or (x ∷ xs) (suc i) d = get_or xs i d

  abbrev pub take : ℕ → List A → List A
  take zero xs = []
  take (suc n) [] = []
  take (suc n) (x ∷ xs) = x ∷ take n xs

  abbrev pub drop : ℕ → List A → List A
  drop zero xs = xs
  drop (suc n) [] = []
  drop (suc n) (x ∷ xs) = drop n xs

  abbrev pub replicate : ℕ → A → List A
  replicate zero a = []
  replicate (suc n) a = a ∷ replicate n a

  abbrev pub All {κ} : (A → Type κ) → List A → Type κ
  All P [] = Unit {κ}
  All P (x ∷ xs) = P x × All P xs

pub zero_add : (n : ℕ) → 0 + n ≡ n
zero_add n = omega arith

pub add_zero : (n : ℕ) → n + 0 ≡ n
add_zero n = omega arith

pub add_suc : (k n : ℕ) → k + suc n ≡ k + 1 + n
add_suc k n = omega arith

pub add_one : (n : ℕ) → n + 1 ≡ suc n
add_one n = omega arith

pub one_add : (n : ℕ) → 1 + n ≡ suc n
one_add n = omega arith

sub_zero : (n : ℕ) → n - 0 ≡ n
sub_zero n = omega arith

suc_sub : (k n : ℕ) → k - n ≡ suc k - suc n
suc_sub k n = omega arith

suc_add : (i n : ℕ) → suc i + n ≡ suc (i + n)
suc_add i n = omega arith

module _ {ℓ} {A : Type ℓ} where
  pub length-append : (xs ys : List A) → length (xs ++ ys) ≡ length xs + length ys
  length-append [] ys = omega arith
  length-append (x ∷ xs) ys = omega (arith, length-append xs ys)

  pub length-take : (n : ℕ) (xs : List A) → length (take n xs) ≡ min n (length xs)
  length-take zero xs = omega arith
  length-take (suc n) [] = omega arith
  length-take (suc n) (x ∷ xs) = omega (arith, length-take n xs)

  pub length-drop : (n : ℕ) (xs : List A) → length (drop n xs) ≡ length xs - n
  length-drop zero xs = omega arith
  length-drop (suc n) [] = omega arith
  length-drop (suc n) (x ∷ xs) = omega (arith, length-drop n xs)

  pub length-replicate : (n : ℕ) (a : A) → length (replicate n a) ≡ n
  length-replicate zero a = refl
  length-replicate (suc n) a = ap suc (length-replicate n a)

  pub length-set : (xs : List A) (i : ℕ) (v : A) → length (set xs i v) ≡ length xs
  length-set [] i v = refl
  length-set (x ∷ xs) zero v = refl
  length-set (x ∷ xs) (suc i) v = ap suc (length-set xs i v)

  pub take-append-drop : (n : ℕ) (xs : List A) → take n xs ++ drop n xs ≡ xs
  take-append-drop zero xs = refl
  take-append-drop (suc n) [] = refl
  take-append-drop (suc n) (x ∷ xs) = ap (λ ys. x ∷ ys) (take-append-drop n xs)

  -- Cutting a concatenation where its first part ends.
  pub take-append_left : (xs ys : List A) (n : ℕ) → n ≡ length xs → take n (xs ++ ys) ≡ xs
  take-append_left [] ys zero e = refl
  take-append_left [] ys (suc n) e = absurd (omega arith)
  take-append_left (x ∷ xs) ys zero e = absurd (omega arith)
  take-append_left (x ∷ xs) ys (suc n) e =
      ap (λ zs. x ∷ zs) (take-append_left xs ys n (omega arith))

  pub drop-append_left : (xs ys : List A) (n : ℕ) → n ≡ length xs → drop n (xs ++ ys) ≡ ys
  drop-append_left [] ys zero e = refl
  drop-append_left [] ys (suc n) e = absurd (omega arith)
  drop-append_left (x ∷ xs) ys zero e = absurd (omega arith)
  drop-append_left (x ∷ xs) ys (suc n) e = drop-append_left xs ys n (omega arith)

  pub drop-nil : (n : ℕ) → drop {A = A} n [] ≡ []
  drop-nil zero = refl
  drop-nil (suc n) = refl

  pub drop-drop : (m n : ℕ) (xs : List A) → drop m (drop n xs) ≡ drop (n + m) xs
  drop-drop m zero xs = ap (λ k. drop k xs) (omega arith)
  drop-drop m (suc n) [] = drop-nil m ∙ sym (drop-nil (suc n + m))
  drop-drop m (suc n) (x ∷ xs) = drop-drop m n xs ∙ ap (λ k. drop k (x ∷ xs)) (suc_add n m)
    where
      suc_add : (n m : ℕ) → suc (n + m) ≡ suc n + m
      suc_add n m = omega arith

  pub drop-all : (n : ℕ) (xs : List A) → length xs ≤ n → drop n xs ≡ []
  drop-all zero [] h = refl
  drop-all (suc n) [] h = refl
  drop-all zero (x ∷ xs) h = absurd (omega arith)
  drop-all (suc n) (x ∷ xs) h = drop-all n xs (omega arith)

  pub get_or-set_self :
      (xs : List A) (i : ℕ) (v d : A) → i < length xs → get_or (set xs i v) i d ≡ v
  get_or-set_self [] i v d h = absurd (omega arith)
  get_or-set_self (x ∷ xs) zero v d h = refl
  get_or-set_self (x ∷ xs) (suc i) v d h = get_or-set_self xs i v d (omega arith)

  pub get_or-set_ne :
      (xs : List A) (i j : ℕ) (v d : A) → i ≢ j → get_or (set xs i v) j d ≡ get_or xs j d
  get_or-set_ne [] i j v d h = refl
  get_or-set_ne (x ∷ xs) zero zero v d h = absurd (h refl)
  get_or-set_ne (x ∷ xs) zero (suc j) v d h = refl
  get_or-set_ne (x ∷ xs) (suc i) zero v d h = refl
  get_or-set_ne (x ∷ xs) (suc i) (suc j) v d h = get_or-set_ne xs i j v d (λ e. h (ap suc e))

  pub get_or-drop : (i n : ℕ) (xs : List A) (d : A) → get_or (drop i xs) n d ≡ get_or xs (i + n) d
  get_or-drop zero n xs d = ap (λ j. get_or xs j d) (sym (zero_add n))
  get_or-drop (suc i) n [] d = refl
  get_or-drop (suc i) n (x ∷ xs) d =
      get_or-drop i n xs d ∙ ap (λ j. get_or (x ∷ xs) j d) (sym (suc_add i n))

  pub get_elem?-get_or :
      (i : ℕ) (xs : List A) (d : A) → i < length xs → get_elem? xs i ≡ some (get_or xs i d)
  get_elem?-get_or i [] d h = absurd (omega arith)
  get_elem?-get_or zero (x ∷ xs) d h = refl
  get_elem?-get_or (suc i) (x ∷ xs) d h = get_elem?-get_or i xs d (omega arith)

  pub get_or-default :
      (i : ℕ) (xs : List A) (d e : A) → i < length xs → get_or xs i d ≡ get_or xs i e
  get_or-default i [] d e h = absurd (omega arith)
  get_or-default zero (x ∷ xs) d e h = refl
  get_or-default (suc i) (x ∷ xs) d e h = get_or-default i xs d e (omega arith)

  pub get_or-append_left :
      (k : ℕ) (xs ys : List A) (d : A) → k < length xs → get_or (xs ++ ys) k d ≡ get_or xs k d
  get_or-append_left k [] ys d h = absurd (omega arith)
  get_or-append_left zero (x ∷ xs) ys d h = refl
  get_or-append_left (suc k) (x ∷ xs) ys d h = get_or-append_left k xs ys d (omega arith)

  pub get_or-append_right :
      (k : ℕ) (xs ys : List A) (d : A)
      → length xs ≤ k
      → get_or (xs ++ ys) k d ≡ get_or ys (k - length xs) d
  get_or-append_right k [] ys d h = ap (λ j. get_or ys j d) (sym (sub_zero k))
  get_or-append_right zero (x ∷ xs) ys d h = absurd (omega arith)
  get_or-append_right (suc k) (x ∷ xs) ys d h =
      get_or-append_right k xs ys d (omega arith) ∙ ap (λ j. get_or ys j d) (suc_sub k (length xs))

  pub get_or-take : (k n : ℕ) (xs : List A) (d : A) → k < n → get_or (take n xs) k d ≡ get_or xs k d
  get_or-take k zero xs d h = absurd (omega arith)
  get_or-take k (suc n) [] d h = refl
  get_or-take zero (suc n) (x ∷ xs) d h = refl
  get_or-take (suc k) (suc n) (x ∷ xs) d h = get_or-take k n xs d (omega arith)

  pub get_or-past : (k : ℕ) (xs : List A) (d : A) → length xs ≤ k → get_or xs k d ≡ d
  get_or-past k [] d h = refl
  get_or-past zero (x ∷ xs) d h = absurd (omega arith)
  get_or-past (suc k) (x ∷ xs) d h = get_or-past k xs d (omega arith)

  -- Lists of one length with the same elements are equal.
  pub get_or-ext :
      (xs ys : List A) (d : A)
      → length xs ≡ length ys
      → ((k : ℕ) → k < length xs → get_or xs k d ≡ get_or ys k d)
      → xs ≡ ys
  get_or-ext [] [] d h same = refl
  get_or-ext [] (y ∷ ys) d h same = absurd (omega (arith, h))
  get_or-ext (x ∷ xs) [] d h same = absurd (omega (arith, h))
  get_or-ext (x ∷ xs) (y ∷ ys) d h same =
      ap₂ (λ a rest. a ∷ rest) (same 0 (omega arith))
        (get_or-ext xs ys d (omega (arith, h)) (λ k l. same (suc k) (omega arith)))

  pub take-replicate : (n m : ℕ) (a : A) → take n (replicate (n + m) a) ≡ replicate n a
  take-replicate zero m a = refl
  take-replicate (suc n) m a =
      ap (λ k. take (suc n) (replicate k a)) (suc_add n m) ∙ ap (λ r. a ∷ r) (take-replicate n m a)

  pub drop-replicate : (n m : ℕ) (a : A) → drop n (replicate (n + m) a) ≡ replicate m a
  drop-replicate zero m a = ap (λ k. replicate k a) (zero_add m)
  drop-replicate (suc n) m a =
      ap (λ k. drop (suc n) (replicate k a)) (suc_add n m) ∙ drop-replicate n m a

  pub take-append : (n : ℕ) (xs ys : List A) → take (length xs + n) (xs ++ ys) ≡ xs ++ take n ys
  take-append n [] ys = ap (λ k. take k ys) (zero_add n)
  take-append n (x ∷ xs) ys =
      ap (λ k. take k (x ∷ xs ++ ys)) (suc_add (length xs) n)
      ∙ ap (λ r. x ∷ r) (take-append n xs ys)

  pub drop-append : (n : ℕ) (xs ys : List A) → drop (length xs + n) (xs ++ ys) ≡ drop n ys
  drop-append n [] ys = ap (λ k. drop k ys) (zero_add n)
  drop-append n (x ∷ xs) ys =
      ap (λ k. drop k (x ∷ xs ++ ys)) (suc_add (length xs) n) ∙ drop-append n xs ys

  pub All-imp {κ μ} :
      {P : A → Type κ} {Q : A → Type μ}
      → ((x : A) → P x → Q x)
      → (xs : List A) → All P xs
      → All Q xs
  All-imp f [] h = tt
  All-imp f (x ∷ xs) h = (f x h.0, All-imp f xs h.1)

  pub All-append {κ} : (P : A → Type κ) (xs ys : List A) → All P xs → All P ys → All P (xs ++ ys)
  All-append P [] ys hx hy = hy
  All-append P (x ∷ xs) ys hx hy = (hx.0, All-append P xs ys hx.1 hy)
