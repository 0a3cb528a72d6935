-- ===== src/Base/Maps.antt =====
-- `HashMap` and `HashSet` of the standard library, as lists without an order that the code may use.
use mathlib.Core.Path.{◌≡◌, refl, sym, ap, subst}
use mathlib.Core.Logic.{◌↔◌, inl, inr}
use mathlib.Core.Bool.{Bool, true, false, ◌&&◌, ◌||◌}
use mathlib.Core.Option.{Option, none, some}
use mathlib.Core.List.{List, [], ◌∷◌}
use Prim.Native.Nat.{ℕ}
use native.Mathlib.Omega.{arith}
use ubass_rs.Base.Lists.{All}
use ubass_rs.Base.Tests.{◌==◌, ==_iff, if◌then◌else◌, Bool-cases}

-- `Eq` of keys
pub record Eq {ℓ} (A : Type ℓ) : Type ℓ where
  pub beq : A → A → Bool
  pub beq_iff : (a b : A) → (beq a b ≡ true) ↔ (a ≡ b)

instance abbrev pub nat_eq : Eq ℕ
nat_eq = record { beq = λ a b. a == b; beq_iff = ==_iff }

unfoldable pub pair_beq : {A B : Type 0} → Eq A → Eq B → A × B → A × B → Bool
pair_beq e f (a, b) (c, d) = e.beq a c && f.beq b d

and_true : (a b : Bool) → (a && b) ≡ true → (a ≡ true) × (b ≡ true)
and_true true b h = (refl, h)
and_true false b h = cc

pub pair_beq_iff :
    {A B : Type 0} (e : Eq A) (f : Eq B) (p q : A × B) → (pair_beq e f p q ≡ true) ↔ (p ≡ q)
unfolding pair_beq
pair_beq_iff e f (a, b) (c, d) = (
  λ h.
      let (l, r) = and_true (e.beq a c) (f.beq b d) h in
      cc ((e.beq_iff a c).0 l, (f.beq_iff b d).0 r),
  λ h. rw (pair_beq, (e.beq_iff a c).1 (ap (λ p. p.0) h), (f.beq_iff b d).1 (ap (λ p. p.1) h)) refl,
)

instance abbrev pub pair_eq : {A B : Type 0} ⦃e : Eq A⦄ ⦃f : Eq B⦄ → Eq (A × B)
pair_eq ⦃e⦄ ⦃f⦄ = record { beq = pair_beq e f; beq_iff = pair_beq_iff e f }

unfoldable pub list_beq : {A : Type 0} → Eq A → List A → List A → Bool
list_beq e [] [] = true
list_beq e [] (b ∷ bs) = false
list_beq e (a ∷ as') [] = false
list_beq e (a ∷ as') (b ∷ bs) = e.beq a b && list_beq e as' bs

pub list_beq_iff : {A : Type 0} (e : Eq A) (p q : List A) → (list_beq e p q ≡ true) ↔ (p ≡ q)
unfolding list_beq
list_beq_iff e [] [] = (λ h. refl, λ h. refl)
list_beq_iff e [] (b ∷ bs) = (λ h. cc, λ h. cc)
list_beq_iff e (a ∷ l) [] = (λ h. cc, λ h. cc)
list_beq_iff e (a ∷ l) (b ∷ bs) = (
  λ h.
      let (x, y) = and_true (e.beq a b) (list_beq e l bs) h in
      cc ((e.beq_iff a b).0 x, (list_beq_iff e l bs).0 y),
  λ h. rw (list_beq, (e.beq_iff a b).1 (cc h), (list_beq_iff e l bs).1 (cc h)) refl,
)

instance abbrev pub list_eq : {A : Type 0} ⦃e : Eq A⦄ → Eq (List A)
list_eq ⦃e⦄ = record { beq = list_beq e; beq_iff = list_beq_iff e }

abbrev pub HashMap : Type 0 → Type 0 → Type 0
HashMap K V = List (K × V)

abbrev pub HashSet : Type 0 → Type 0
HashSet K = List K

module _ {K : Type 0} ⦃e : Eq K⦄ where
  pub beq_refl : (k : K) → e.beq k k ≡ true
  beq_refl k = (e.beq_iff k k).1 refl

  pub beq_sym : (a b : K) → e.beq a b ≡ e.beq b a
  beq_sym a b = ground (arith, e.beq_iff a b, e.beq_iff b a)

  pub beq_trans : (a b c : K) → e.beq a b ≡ true → e.beq c b ≡ e.beq c a
  beq_trans a b c h = ap (λ x. e.beq c x) (sym ((e.beq_iff a b).0 h))

  module _ {V : Type 0} where
    unfoldable pub get : K → HashMap K V → Option V
    get k [] = none
    get k (x ∷ m) = if e.beq k x.0 then some x.1 else get k m

    unfoldable pub remove : K → HashMap K V → HashMap K V
    remove k [] = []
    remove k (x ∷ m) = let rest = remove k m in if e.beq k x.0 then rest else x ∷ rest

    unfoldable pub insert : K → V → HashMap K V → HashMap K V
    unfolding remove
    insert k v m = (k, v) ∷ remove k m

    -- `.entry(k).or_insert(v)`
    unfoldable pub or_insert : K → V → HashMap K V → V
    unfolding get
    or_insert k v m = elim (get k m) [ none ↦ v | some w ↦ w ]

    unfoldable pub contains_key : K → HashMap K V → Bool
    contains_key k [] = false
    contains_key k (x ∷ m) = e.beq k x.0 || contains_key k m

    pub get-remove_self : (k : K) (m : HashMap K V) → get k (remove k m) ≡ none
    unfolding get remove
    get-remove_self k [] = refl
    get-remove_self k (x ∷ m) = elim (Bool-cases (e.beq k x.0)) [
      | inl h ↦ rw (remove, h) (get-remove_self k m)
      | inr h ↦ rw (remove, h) (rw (get, h) (get-remove_self k m))
    ]

    pub get-insert_self : (k : K) (v : V) (m : HashMap K V) → get k (insert k v m) ≡ some v
    unfolding get insert
    get-insert_self k v m = rw (insert, get, beq_refl k) refl

    pub get-remove :
        (k j : K) (m : HashMap K V) → get j (remove k m) ≡ (if e.beq k j then none else get j m)
    unfolding get remove
    get-remove k j [] = ground arith
    get-remove k j (x ∷ m) =
        ground (arith, e.beq_iff k x.0, e.beq_iff k j, e.beq_iff j x.0, get-remove k j m)

    pub get-insert :
        (k j : K) (v : V) (m : HashMap K V)
        → get j (insert k v m) ≡ (if e.beq k j then some v else get j m)
    unfolding get insert
    get-insert k j v m = ground (arith, e.beq_iff k j, e.beq_iff j k, get-remove k j m)

    pub get-none : (k : K) (m : HashMap K V) → contains_key k m ≡ false → get k m ≡ none
    unfolding get contains_key
    get-none k [] h = refl
    get-none k (x ∷ m) h = ground (arith, get-none k m)

    pub contains_key-none : (k : K) (m : HashMap K V) → get k m ≡ none → contains_key k m ≡ false
    unfolding get contains_key
    contains_key-none k [] h = refl
    contains_key-none k (x ∷ m) h = ground (arith, contains_key-none k m)

    pub contains_key-some :
        (k : K) (v : V) (m : HashMap K V) → get k m ≡ some v → contains_key k m ≡ true
    unfolding get contains_key
    contains_key-some k v [] h = cc
    contains_key-some k v (x ∷ m) h = ground (arith, contains_key-some k v m)

    pub All-remove {κ} :
        (P : K × V → Type κ) (k : K) (m : HashMap K V) → All P m → All P (remove k m)
    unfolding remove
    All-remove P k [] h = tt
    All-remove P k (x ∷ m) h = elim (Bool-cases (e.beq k x.0)) [
      | inl c ↦ rw (remove, c) (All-remove P k m h.1)
      | inr c ↦ rw (remove, c) (h.0, All-remove P k m h.1)
    ]

    pub All-get {κ} :
        (P : V → Type κ) (k : K) (v : V) (m : HashMap K V)
        → All (λ x. P x.1) m
        → get k m ≡ some v
        → P v
    unfolding get
    All-get P k v [] h eq = cc
    All-get P k v (x ∷ m) h eq = elim (Bool-cases (e.beq k x.0)) [
      | inl here ↦ subst P (cc (rw (get, here) at eq)) h.0
      | inr later ↦ All-get P k v m h.1 (rw (get, later) at eq)
    ]

    pub or_insert-none : (k : K) (v : V) (m : HashMap K V) → get k m ≡ none → or_insert k v m ≡ v
    unfolding or_insert
    or_insert-none k v m h = rw (or_insert, h) refl

    pub or_insert-insert : (k : K) (v w : V) (m : HashMap K V) → or_insert k v (insert k w m) ≡ w
    unfolding or_insert
    or_insert-insert k v w m = rw (or_insert, get-insert_self k w m) refl

    pub contains_key-remove :
        (k j : K) (m : HashMap K V)
        → contains_key j (remove k m) ≡ (if e.beq k j then false else contains_key j m)
    unfolding contains_key remove
    contains_key-remove k j [] = ground arith
    contains_key-remove k j (x ∷ m) =
        ground (arith, e.beq_iff k x.0, e.beq_iff k j, e.beq_iff j x.0, contains_key-remove k j m)

    pub contains_key-insert :
        (k j : K) (v : V) (m : HashMap K V)
        → contains_key j (insert k v m) ≡ (if e.beq k j then true else contains_key j m)
    unfolding contains_key insert
    contains_key-insert k j v m =
        ground (arith, e.beq_iff k j, e.beq_iff j k, contains_key-remove k j m)

  -- `HashSet::contains`
  unfoldable pub contains : K → HashSet K → Bool
  contains k [] = false
  contains k (x ∷ s) = e.beq k x || contains k s

  -- `HashSet::remove`
  unfoldable pub without : K → HashSet K → HashSet K
  without k [] = []
  without k (x ∷ s) = let rest = without k s in if e.beq k x then rest else x ∷ rest

  pub contains-without :
      (k j : K) (s : HashSet K)
      → contains j (without k s) ≡ (if e.beq k j then false else contains j s)
  unfolding contains without
  contains-without k j [] = ground arith
  contains-without k j (x ∷ s) =
      ground (arith, e.beq_iff k x, e.beq_iff k j, e.beq_iff j x, contains-without k j s)
