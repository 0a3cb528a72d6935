-- ===== src/State/Fingerprints/Pruned.antt =====
-- What a round of `prune` leaves in the window.
use ubass_rs.Base.{
  ℕ, ◌+◌, ◌-◌, ◌≤◌, ◌≡◌, refl, sym, subst, ap, ◌∙◌, arith, Bool, true, false, ◌&&◌, ◌||◌,
  if◌then◌else◌, List, [], ◌∷◌, ◌++◌, All, All-imp, All-append, not, Bool-cases, inl, inr, ltb, leb,
  ltb→lt, ltb→ge, le→leb, lt→leb_false,
}
use ubass_rs.Base.Outcome.{ok}
use ubass_rs.Base.Maps.{list_eq, nat_eq, contains, list_beq_iff}
use ubass_rs.Wire.Codec.{Bytes}
use ubass_rs.Clock.{been_longer_than_lem}
use ubass_rs.State.Fingerprints.{
  FingerprintWindow, contains_fingerprint, add, add_insert, add_push, pop_expired, remove_expired,
  prune_queue, prune_set, prune_round,
}
use ubass_rs.State.Fingerprints.Counts.{
  same, count, count_queue, count_queue-append, contains-remove_expired, IsPastQueue, Pops,
  pop_expired-Pops,
}

-- The entries of the queue are in the order of their times.
abbrev pub IsOrdered : List (ℕ × Bytes) → Type 0
IsOrdered [] = Unit
IsOrdered (x ∷ queue) = All (λ y. x.0 ≤ y.0) queue × IsOrdered queue

-- Whether a fingerprint was pushed in the last 500 ms.
unfoldable pub is_young : ℕ → Bytes → List (ℕ × Bytes) → Bool
is_young now f [] = false
is_young now f (x ∷ queue) = (same f x.1 && leb (now - x.0) 500) || is_young now f queue

-- No task is between two sections: the set holds what the queue holds, once.
pub record IsTidy (now : ℕ) (w : FingerprintWindow) : Type 0 where
  pub counted : (f : Bytes) → count_queue f w.queue ≡ (if contains f w.fingerprints then 1 else 0)
  pub past : IsPastQueue now w.queue
  pub ordered : IsOrdered w.queue

young_cons :
    (b y : Bool) (n : ℕ) → y ≡ ltb 0 n → ((b && true) || y) ≡ ltb 0 ((if b then 1 else 0) + n)
young_cons b y n h = ground arith

is_young-count_queue :
    (now : ℕ) (f : Bytes) (queue : List (ℕ × Bytes))
    → All (λ x. now ≤ x.0 + 500) queue
    → is_young now f queue ≡ ltb 0 (count_queue f queue)
unfolding is_young count_queue
is_young-count_queue now f [] h = refl
is_young-count_queue now f (x ∷ queue) (h, hs) =
    rw (is_young, le→leb (now - x.0) 500 (omega (arith, h)))
      (young_cons (same f x.1) (is_young now f queue) (count_queue f queue)
        (is_young-count_queue now f queue hs))

old_cons : (b y : Bool) → ((b && false) || y) ≡ y
old_cons true y = refl
old_cons false y = refl

-- The rest of an ordered queue has the young fingerprints.
pop_expired-is_young :
    (debug : Bool) (now : ℕ) (queue : List (ℕ × Bytes))
    → IsPastQueue now queue
    → IsOrdered queue
    → (expired : List Bytes) × (rest : List (ℕ × Bytes)) × (pop_expired debug now queue
        ≡ ok (expired, rest))
      × ((f : Bytes) → is_young now f queue ≡ ltb 0 (count_queue f rest))
      × IsOrdered rest
unfolding pop_expired is_young count_queue
pop_expired-is_young debug now [] past ordered = ([], [], refl, λ f. refl, tt)
pop_expired-is_young debug now ((ts, g) ∷ queue) (h, past) (first, ordered) =
    elim (Bool-cases (ltb 500 (now - ts))) [
      | inl old ↦
          let (expired, rest, eq, young, sorted) =
            pop_expired-is_young debug now queue past ordered in
          (
            g ∷ expired,
            rest,
            rw (pop_expired, been_longer_than_lem debug now ts 500 h, old, eq) refl,
            λ f.
                rw (is_young, lt→leb_false 500 (now - ts) (ltb→lt 500 (now - ts) old))
                  (old_cons (same f g) (is_young now f queue) ∙ young f),
            sorted,
          )
      | inr new ↦ (
        [],
        (ts, g) ∷ queue,
        rw (pop_expired, been_longer_than_lem debug now ts 500 h, new) refl,
        λ f. is_young-count_queue now f ((ts, g) ∷ queue) (
          omega (arith, ltb→ge 500 (now - ts) new),
          All-imp (λ y l. omega (arith, l, ltb→ge 500 (now - ts) new)) queue first,
        ),
        (first, ordered),
      )
    ]

ok_injective : {A : Type 0} (a b : A) → ok a ≡ ok b → a ≡ b
ok_injective a b h = cc h

kept_count :
    (e r q : ℕ) (b : Bool)
    → e + r ≡ q
    → q ≡ (if b then 1 else 0)
    → (if ltb 0 e then false else b) ≡ ltb 0 r
kept_count e r q b h k = ground arith

kept_once :
    (e r q : ℕ) (b : Bool)
    → e + r ≡ q
    → q ≡ (if b then 1 else 0)
    → r ≡ (if if ltb 0 e then false else b then 1 else 0)
kept_once e r q b h k = ground arith

-- A round of `prune` on a window that no task is about to change: it does not panic, the window then
-- contains exactly the fingerprints that were pushed in the last 500 ms, and it is tidy again.
pub prune_round-is_young :
    (debug : Bool) (now : ℕ) (w : FingerprintWindow)
    → IsTidy now w
    → (after : FingerprintWindow) × (prune_round debug now w ≡ ok after)
      × ((f : Bytes) → contains_fingerprint after f ≡ is_young now f w.queue)
      × IsTidy now after
unfolding prune_round prune_queue prune_set contains_fingerprint
prune_round-is_young debug now w t =
    let (expired, rest, eq, young, sorted) =
      pop_expired-is_young debug now w.queue t.past t.ordered in
    let (expired2, rest2, eq2, p2) = pop_expired-Pops debug now w.queue t.past in
    let p =
      subst (λ r. Pops now w.queue r.0 r.1)
        (ok_injective (expired2, rest2) (expired, rest) (sym eq2 ∙ eq)) p2 in
    (
      record { fingerprints = remove_expired expired w.fingerprints; queue = rest },
      rw (prune_round, eq) refl,
      λ f.
          contains-remove_expired f expired w.fingerprints
          ∙ (kept_count (count f expired) (count_queue f rest) (count_queue f w.queue)
                (contains f w.fingerprints) (p.counted f) (t.counted f)
              ∙ sym (young f)),
      record {
        counted = λ f.
            kept_once (count f expired) (count_queue f rest) (count_queue f w.queue)
              (contains f w.fingerprints) (p.counted f) (t.counted f)
            ∙ ap (λ b. if b then 1 else 0) (sym (contains-remove_expired f expired w.fingerprints));
        past = p.past;
        ordered = sorted;
      },
    )

IsOrdered-append :
    (now : ℕ) (f : Bytes) (queue : List (ℕ × Bytes))
    → IsPastQueue now queue
    → IsOrdered queue
    → IsOrdered (queue ++ ((now, f) ∷ []))
IsOrdered-append now f [] past ordered = (tt, tt)
IsOrdered-append now f (x ∷ queue) (h, past) (first, ordered) = (
  All-append (λ y. x.0 ≤ y.0) queue ((now, f) ∷ []) first (h, tt),
  IsOrdered-append now f queue past ordered,
)

counted_add :
    (q : ℕ) (b c : Bool)
    → (b ≡ true → c ≡ false)
    → q ≡ (if c then 1 else 0)
    → q + ((if b then 1 else 0) + 0) ≡ (if b || c then 1 else 0)
counted_add q true true h k = cc (h refl)
counted_add q true false h k = omega (arith, k)
counted_add q false c h k = omega (arith, k)

pushed_IsTidy :
    (now : ℕ) (w : FingerprintWindow) (f : Bytes)
    → IsTidy now w
    → contains f w.fingerprints ≡ false
    → IsTidy now (record { fingerprints = f ∷ w.fingerprints; queue = w.queue ++ ((now, f) ∷ []) })
unfolding contains count_queue
pushed_IsTidy now w f t new = record {
  counted = λ g.
      count_queue-append g w.queue ((now, f) ∷ [])
      ∙ counted_add (count_queue g w.queue) (same g f) (contains g w.fingerprints)
          (λ e. ap (λ x. contains x w.fingerprints) ((list_beq_iff nat_eq g f).0 e) ∙ new)
          (t.counted g);
  past = All-append (λ x. x.0 ≤ now) w.queue ((now, f) ∷ []) t.past (omega arith, tt);
  ordered = IsOrdered-append now f w.queue t.past t.ordered;
}

-- `add` on a tidy window: it returns whether the fingerprint is new, the window then contains it and
-- what it contained before, and nothing else, and it is tidy again.
pub add-IsTidy :
    (now : ℕ) (w : FingerprintWindow) (f : Bytes)
    → IsTidy now w
    → ((add now w f).1 ≡ not (contains_fingerprint w f))
      × ((g : Bytes)
          → contains_fingerprint (add now w f).0 g ≡ (same g f || contains_fingerprint w g))
      × IsTidy now (add now w f).0
unfolding add add_insert add_push contains_fingerprint contains
add-IsTidy now w f t = elim (Bool-cases (contains f w.fingerprints)) [
  | inl known ↦
      rw (add, known)
        (
          refl,
          λ g. sym (
              absorbed (same g f) (contains g w.fingerprints)
                (λ e. ap (λ x. contains x w.fingerprints) ((list_beq_iff nat_eq g f).0 e) ∙ known)),
          t,
        )
  | inr new ↦ rw (add, new) (refl, λ g. refl, pushed_IsTidy now w f t new)
]
  where
    absorbed : (b c : Bool) → (b ≡ true → c ≡ true) → (b || c) ≡ c
    absorbed true c h = sym (h refl)
    absorbed false c h = refl
