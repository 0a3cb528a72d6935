-- ===== src/Clock.antt =====
-- `Timestamp` of src/manager/types.rs. `now` is what `Timestamp::now()` gives: the milliseconds since the
-- start. The calls of it in one operation give one number.
use ubass_rs.Base.{
  ℕ, ◌+◌, ◌-◌, ◌^◌, ◌≤◌, ◌≡◌, refl, arith, ltb, leb, le→ltb, Bool, true, false, ◌&&◌, ◌||◌,
  if◌then◌else◌, [], ◌∷◌, some, All, Bool-cases, inl, inr,
}
use ubass_rs.Base.Outcome.{Outcome, ok, panic, ◌>>=◌}
use ubass_rs.Base.Maps.{Eq, HashMap, get, insert, contains_key, All-remove}

-- `Self::now().0 - self.0 > millis`, on `u64`s
unfoldable pub been_longer_than : Bool → ℕ → ℕ → ℕ → Outcome Bool
been_longer_than debug now stamp millis =
    if ltb now stamp
    then if debug then panic else ok (ltb millis (now + 2 ^ 64 - stamp))
    else ok (ltb millis (now - stamp))

-- `.retain(|_, v| !stamp(v).been_longer_than(millis))`
unfoldable pub retain_recent :
    {K V : Type 0} → (V → ℕ) → Bool → ℕ → ℕ → HashMap K V → Outcome (HashMap K V)
unfolding been_longer_than
retain_recent stamp debug now millis [] = ok []
retain_recent stamp debug now millis (x ∷ m) = do
  old ← been_longer_than debug now (stamp x.1) millis
  rest ← retain_recent stamp debug now millis m
  ok (if old then rest else x ∷ rest)

-- The entries of the last `millis`.
unfoldable pub recent : {K V : Type 0} → (V → ℕ) → ℕ → ℕ → HashMap K V → HashMap K V
recent stamp now millis [] = []
recent stamp now millis (x ∷ m) =
    let rest = recent stamp now millis m in if ltb millis (now - stamp x.1) then rest else x ∷ rest

-- Whether a key has an entry of the last `millis`.
unfoldable pub is_recent : {K V : Type 0} ⦃e : Eq K⦄ → (V → ℕ) → ℕ → ℕ → K → HashMap K V → Bool
is_recent stamp now millis k [] = false
is_recent ⦃e⦄ stamp now millis k (x ∷ m) =
    (e.beq k x.0 && leb (now - stamp x.1) millis) || is_recent stamp now millis k m

-- No entry is of the future.
abbrev pub ArePast : {K V : Type 0} → (V → ℕ) → ℕ → HashMap K V → Type 0
ArePast stamp now m = All (λ x. stamp x.1 ≤ now) m

pub been_longer_than_lem :
    (debug : Bool) (now stamp millis : ℕ)
    → stamp ≤ now
    → been_longer_than debug now stamp millis ≡ ok (ltb millis (now - stamp))
unfolding been_longer_than
been_longer_than_lem debug now stamp millis h = rw (been_longer_than, le→ltb now stamp h) refl

pub retain_recent-recent :
    {K V : Type 0} (stamp : V → ℕ) (debug : Bool) (now millis : ℕ) (m : HashMap K V)
    → ArePast stamp now m
    → retain_recent stamp debug now millis m ≡ ok (recent stamp now millis m)
unfolding retain_recent recent
retain_recent-recent stamp debug now millis [] h = refl
retain_recent-recent stamp debug now millis (x ∷ m) (h, past) =
    rw
      (
        retain_recent,
        been_longer_than_lem debug now (stamp x.1) millis h,
        retain_recent-recent stamp debug now millis m past,
      )
      refl

pub contains_key-recent :
    {K V : Type 0} ⦃e : Eq K⦄ (stamp : V → ℕ) (now millis : ℕ) (k : K) (m : HashMap K V)
    → contains_key k (recent stamp now millis m) ≡ is_recent stamp now millis k m
unfolding contains_key recent is_recent
contains_key-recent stamp now millis k [] = refl
contains_key-recent stamp now millis k (x ∷ m) =
    ground (arith, contains_key-recent stamp now millis k m)

pub is_recent-get :
    {K V : Type 0} ⦃e : Eq K⦄ (stamp : V → ℕ) (now millis : ℕ) (k : K) (v : V) (m : HashMap K V)
    → get k m ≡ some v
    → now ≤ stamp v + millis
    → is_recent stamp now millis k m ≡ true
unfolding get is_recent
is_recent-get stamp now millis k v [] h l = cc
is_recent-get ⦃e⦄ stamp now millis k v (x ∷ m) h l =
    ground (arith, is_recent-get stamp now millis k v m)

pub ArePast-recent :
    {K V : Type 0} (stamp : V → ℕ) (now millis : ℕ) (m : HashMap K V)
    → ArePast stamp now m
    → ArePast stamp now (recent stamp now millis m)
unfolding recent
ArePast-recent stamp now millis [] h = tt
ArePast-recent stamp now millis (x ∷ m) h = elim (Bool-cases (ltb millis (now - stamp x.1))) [
  | inl c ↦ rw (recent, c) (ArePast-recent stamp now millis m h.1)
  | inr c ↦ rw (recent, c) (h.0, ArePast-recent stamp now millis m h.1)
]

pub ArePast-later :
    {K V : Type 0} (stamp : V → ℕ) (now later : ℕ) (m : HashMap K V)
    → now ≤ later
    → ArePast stamp now m
    → ArePast stamp later m
ArePast-later stamp now later [] h past = tt
ArePast-later stamp now later (x ∷ m) h past =
    (omega (arith, h, past.0), ArePast-later stamp now later m h past.1)

pub ArePast-insert :
    {K V : Type 0} ⦃e : Eq K⦄ (stamp : V → ℕ) (now : ℕ) (k : K) (v : V) (m : HashMap K V)
    → stamp v ≤ now
    → ArePast stamp now m
    → ArePast stamp now (insert k v m)
unfolding insert
ArePast-insert stamp now k v m h past = (h, All-remove (λ x. stamp x.1 ≤ now) k m past)
