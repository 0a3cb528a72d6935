-- ===== src/State/Fingerprints/Counts.antt =====
-- How often a fingerprint is in the lists of the window.
use ubass_rs.Base.{
  ℕ, ◌+◌, ◌-◌, ◌≤◌, ◌<◌, ◌≡◌, ◌≢◌, refl, ap, ◌∙◌, arith, Bool, true, false, if◌then◌else◌, List, [],
  ◌∷◌, ◌++◌, All, Bool-cases, inl, inr, ltb, ltb→lt,
}
use ubass_rs.Base.Outcome.{ok}
use ubass_rs.Base.Maps.{
  HashSet, list_eq, nat_eq, contains, without, contains-without, beq_sym, beq_refl,
}
use ubass_rs.Wire.Codec.{Bytes}
use ubass_rs.Clock.{been_longer_than_lem}
use ubass_rs.State.Fingerprints.{pop_expired, remove_expired}

abbrev pub same : Bytes → Bytes → Bool
same f g = list_eq.beq f g

unfoldable pub count : Bytes → List Bytes → ℕ
count f [] = 0
count f (g ∷ l) = (if same f g then 1 else 0) + count f l

unfoldable pub count_queue : Bytes → List (ℕ × Bytes) → ℕ
count_queue f [] = 0
count_queue f (x ∷ q) = (if same f x.1 then 1 else 0) + count_queue f q

pub count-append : (f : Bytes) (xs ys : List Bytes) → count f (xs ++ ys) ≡ count f xs + count f ys
unfolding count
count-append f [] ys = omega arith
count-append f (x ∷ xs) ys = omega (arith, count-append f xs ys)

pub count_queue-append :
    (f : Bytes) (xs ys : List (ℕ × Bytes))
    → count_queue f (xs ++ ys) ≡ count_queue f xs + count_queue f ys
unfolding count_queue
count_queue-append f [] ys = omega arith
count_queue-append f (x ∷ xs) ys = omega (arith, count_queue-append f xs ys)

pub same_of : (f g : Bytes) → g ≡ f → same f g ≡ true
same_of f g e = ap (λ x. same f x) e ∙ beq_refl f

pub none_counted : (f : Bytes) (l : List Bytes) → count f l ≡ 0 → All (λ g. g ≢ f) l
unfolding count
none_counted f [] h = tt
none_counted f (g ∷ l) h =
    (λ e. omega (arith, rw (count, same_of f g e) at h), none_counted f l (omega (arith, h)))

pub none_queued : (f : Bytes) (q : List (ℕ × Bytes)) → count_queue f q ≡ 0 → All (λ x. x.1 ≢ f) q
unfolding count_queue
none_queued f [] h = tt
none_queued f (x ∷ q) h =
    (λ e. omega (arith, rw (count_queue, same_of f x.1 e) at h), none_queued f q (omega (arith, h)))

removed :
    (b b' : Bool) (n : ℕ) (c w : Bool)
    → b ≡ b'
    → w ≡ (if b then false else c)
    → (if ltb 0 n then false else w) ≡ (if ltb 0 ((if b' then 1 else 0) + n) then false else c)
removed b b' n c w e h = ground arith

-- The fingerprints that are removed are those of the list.
pub contains-remove_expired :
    (f : Bytes) (expired : List Bytes) (s : HashSet Bytes)
    → contains f (remove_expired expired s)
      ≡ (if ltb 0 (count f expired) then false else contains f s)
unfolding remove_expired count
contains-remove_expired f [] s = refl
contains-remove_expired f (g ∷ expired) s =
    contains-remove_expired f expired (without g s)
    ∙ removed (list_eq.beq g f) (same f g) (count f expired) (contains f s)
        (contains f (without g s)) (beq_sym g f) (contains-without g f s)

-- No entry of the queue is of the future.
abbrev pub IsPastQueue : ℕ → List (ℕ × Bytes) → Type 0
IsPastQueue now queue = All (λ x. x.0 ≤ now) queue

-- What is popped off a queue: no fingerprint is lost, and only entries older than 500 ms are popped.
pub record Pops (now : ℕ) (queue : List (ℕ × Bytes)) (expired : List Bytes)
    (rest : List (ℕ × Bytes)) : Type 0 where
  pub counted : (f : Bytes) → count f expired + count_queue f rest ≡ count_queue f queue
  pub past : IsPastQueue now rest
  pub aged :
      (t : ℕ) (f : Bytes)
      → All (λ x. x.1 ≡ f → t ≤ x.0) queue
      → All (λ g. g ≡ f → t + 500 < now) expired × All (λ x. x.1 ≡ f → t ≤ x.0) rest

pub pop_expired-Pops :
    (debug : Bool) (now : ℕ) (queue : List (ℕ × Bytes))
    → IsPastQueue now queue
    → (expired : List Bytes) × (rest : List (ℕ × Bytes)) × (pop_expired debug now queue
        ≡ ok (expired, rest))
      × Pops now queue expired rest
unfolding pop_expired count count_queue
pop_expired-Pops debug now [] past =
    ([], [], refl, record { counted = λ f. refl; past = tt; aged = λ t f h. (tt, tt) })
pop_expired-Pops debug now ((ts, g) ∷ queue) (h, past) = elim (Bool-cases (ltb 500 (now - ts))) [
  | inl old ↦
      let (expired, rest, eq, p) = pop_expired-Pops debug now queue past in
      (
        g ∷ expired,
        rest,
        rw (pop_expired, been_longer_than_lem debug now ts 500 h, old, eq) refl,
        record {
          counted = λ f. omega (arith, p.counted f);
          past = p.past;
          aged = λ t f a.
              let (gone, left) = p.aged t f a.1 in
              ((λ e. omega (arith, a.0 e, ltb→lt 500 (now - ts) old), gone), left);
        },
      )
  | inr young ↦ (
    [],
    (ts, g) ∷ queue,
    rw (pop_expired, been_longer_than_lem debug now ts 500 h, young) refl,
    record { counted = λ f. omega arith; past = (h, past); aged = λ t f a. (tt, a) },
  )
]
