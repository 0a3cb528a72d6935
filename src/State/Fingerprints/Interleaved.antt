-- ===== src/State/Fingerprints/Interleaved.antt =====
-- Tasks that add fingerprints, and the task that prunes, in any order of their sections under a lock.
use ubass_rs.Base.{
  ℕ, ◌+◌, ◌≤◌, ◌<◌, ◌≡◌, refl, sym, ap, subst, ◌∙◌, arith, Bool, true, false, ◌||◌, ◌⊎◌,
  if◌then◌else◌, List, [], ◌∷◌, ◌++◌, map, All, All-imp, All-append, Bool-cases, inl, inr, ltb,
  ltb→lt,
}
use ubass_rs.Base.Outcome.{ok}
use ubass_rs.Base.Maps.{list_eq, nat_eq, contains, beq_refl, list_beq_iff}
use ubass_rs.Wire.Codec.{Bytes}
use ubass_rs.State.Fingerprints.{
  FingerprintWindow, fingerprint_window, add_insert, add_push, prune_queue, prune_set,
}
use ubass_rs.State.Fingerprints.Counts.{
  same, none_counted, none_queued, count, count_queue, count-append, count_queue-append,
  contains-remove_expired, IsPastQueue, Pops, pop_expired-Pops,
}

-- The window, the fingerprints of the adds between their two sections, those that `prune` has popped
-- and not removed yet, and the time.
pub record System : Type 0 where
  pub window : FingerprintWindow
  pub adding : List Bytes
  pub expired : List Bytes
  pub now : ℕ

abbrev pub start : System
start = record { window = fingerprint_window; adding = []; expired = []; now = 0 }

-- A section of a task, with the fingerprint that an `add` accepts in it.
pub data Step (debug : Bool) (s : System) : List Bytes → System → Type 0 where
  wait : (later : ℕ) → s.now ≤ later → Step debug s [] (record s { now = later })
  insert_new :
      (f : Bytes) (w : FingerprintWindow)
      → add_insert s.window f ≡ (w, true)
      → Step debug s (f ∷ []) (record s { window = w; adding = f ∷ s.adding })
  insert_known :
      (f : Bytes) (w : FingerprintWindow)
      → add_insert s.window f ≡ (w, false)
      → Step debug s [] (record s { window = w })
  push :
      (before : List Bytes) (f : Bytes) (after : List Bytes)
      → s.adding ≡ before ++ (f ∷ after)
      → Step debug s [] (record s { window = add_push s.now s.window f; adding = before ++ after })
  pop :
      (w : FingerprintWindow) (popped : List Bytes)
      → prune_queue debug s.now s.window ≡ ok (w, popped)
      → Step debug s [] (record s { window = w; expired = s.expired ++ popped })
  drain : Step debug s [] (record s { window = prune_set s.expired s.window; expired = [] })

-- What is reached from the empty window, and what `add` accepted on the way and when, last first.
pub data Run (debug : Bool) : List (ℕ × Bytes) → System → Type 0 where
  begin : Run debug [] start
  go :
      {accepted : List (ℕ × Bytes)} {s t : System} (fs : List Bytes)
      → Run debug accepted s
      → Step debug s fs t
      → Run debug (map (λ f. (s.now, f)) fs ++ accepted) t

-- More than 500 ms pass from one acceptance of a fingerprint to the next.
abbrev pub AreSpaced : List (ℕ × Bytes) → Type 0
AreSpaced [] = Unit
AreSpaced (x ∷ accepted) = All (λ y. y.1 ≡ x.1 → y.0 + 500 < x.0) accepted × AreSpaced accepted

-- A fingerprint is in the set exactly when it is in one of the lists, and then it is there once.
abbrev pub IsCounted : System → Type 0
IsCounted s =
    (f : Bytes)
    → count f s.adding + count_queue f s.window.queue + count f s.expired
      ≡ (if contains f s.window.fingerprints then 1 else 0)

-- What an acceptance of `f` at the time `t` leaves.
record IsRemembered (s : System) (t : ℕ) (f : Bytes) : Type 0 where
  in_past : t ≤ s.now
  forgotten : contains f s.window.fingerprints ≡ false → t + 500 < s.now
  aged : All (λ g. g ≡ f → t + 500 < s.now) s.expired
  queued : All (λ x. x.1 ≡ f → t ≤ x.0) s.window.queue

record IsConsistent (s : System) (accepted : List (ℕ × Bytes)) : Type 0 where
  counted : IsCounted s
  past : IsPastQueue s.now s.window.queue
  remembered : All (λ x. IsRemembered s x.0 x.1) accepted
  spaced : AreSpaced accepted

add_insert-new :
    (v w : FingerprintWindow) (f : Bytes)
    → add_insert v f ≡ (w, true)
    → (contains f v.fingerprints ≡ false) × (w ≡ record v { fingerprints = f ∷ v.fingerprints })
unfolding add_insert
add_insert-new v w f h = elim (Bool-cases (contains f v.fingerprints)) [
  | inl known ↦ cc (rw (add_insert, known) at h)
  | inr new ↦ (new, ap (λ p. p.0) (sym (rw (add_insert, new) at h)))
]

add_insert-known : (v w : FingerprintWindow) (f : Bytes) → add_insert v f ≡ (w, false) → w ≡ v
unfolding add_insert
add_insert-known v w f h = elim (Bool-cases (contains f v.fingerprints)) [
  | inl known ↦ ap (λ p. p.0) (sym (rw (add_insert, known) at h))
  | inr new ↦ cc (rw (add_insert, new) at h)
]

counted_new :
    (b c : Bool) (x y z : ℕ)
    → (b ≡ true → c ≡ false)
    → x + y + z ≡ (if c then 1 else 0)
    → (if b then 1 else 0) + x + y + z ≡ (if b || c then 1 else 0)
counted_new true true x y z h e = cc (h refl)
counted_new true false x y z h e = omega (arith, e)
counted_new false c x y z h e = omega (arith, e)

or_right : (b c : Bool) → (b || c) ≡ false → c ≡ false
or_right true c h = cc
or_right false c h = h

none_of : (x y z : ℕ) (b : Bool) → b ≡ false → x + y + z ≡ (if b then 1 else 0) → (y ≡ 0) × (z ≡ 0)
none_of x y z b h e = ground arith

wait_IsConsistent :
    (s : System) (accepted : List (ℕ × Bytes)) (later : ℕ)
    → s.now ≤ later
    → IsConsistent s accepted
    → IsConsistent (record s { now = later }) accepted
wait_IsConsistent s accepted later h c = record {
  counted = c.counted;
  past = All-imp (λ x l. omega (arith, h, l)) s.window.queue c.past;
  remembered =
      All-imp
        (λ x r. record {
          in_past = omega (arith, h, r.in_past);
          forgotten = λ out. omega (arith, h, r.forgotten out);
          aged = All-imp (λ g a e. omega (arith, h, a e)) s.expired r.aged;
          queued = r.queued;
        })
        accepted c.remembered;
  spaced = c.spaced;
}

insert_IsConsistent :
    (s : System) (accepted : List (ℕ × Bytes)) (f : Bytes)
    → contains f s.window.fingerprints ≡ false
    → IsConsistent s accepted
    → IsConsistent
        (record s {
          window = record s.window { fingerprints = f ∷ s.window.fingerprints };
          adding = f ∷ s.adding;
        })
        ((s.now, f) ∷ accepted)
unfolding contains count
insert_IsConsistent s accepted f new c =
    let (unqueued, unexpired) =
      none_of (count f s.adding) (count_queue f s.window.queue) (count f s.expired)
        (contains f s.window.fingerprints) new (c.counted f) in
    record {
      counted = λ g.
          counted_new (same g f) (contains g s.window.fingerprints) (count g s.adding)
            (count_queue g s.window.queue) (count g s.expired)
            (λ e. ap (λ x. contains x s.window.fingerprints) ((list_beq_iff nat_eq g f).0 e) ∙ new)
            (c.counted g);
      past = c.past;
      remembered = (
        record {
          in_past = omega arith;
          forgotten = λ out. cc (out, beq_refl f);
          aged = All-imp (λ g no e. absurd (no e)) s.expired (none_counted f s.expired unexpired);
          queued =
              All-imp (λ x no e. absurd (no e)) s.window.queue
                (none_queued f s.window.queue unqueued);
        },
        All-imp
            (λ x r. record {
              in_past = r.in_past;
              forgotten = λ out.
                  r.forgotten (or_right (same x.1 f) (contains x.1 s.window.fingerprints) out);
              aged = r.aged;
              queued = r.queued;
            })
            accepted c.remembered,
      );
      spaced = (
        All-imp (λ y r e. r.forgotten (ap (λ g. contains g s.window.fingerprints) e ∙ new)) accepted
            c.remembered,
        c.spaced,
      );
    }

counted_push : (b x y q z i : ℕ) → x + (b + y) + q + z ≡ i → x + y + (q + (b + 0)) + z ≡ i
counted_push b x y q z i h = omega (arith, h)

push_IsConsistent :
    (s : System) (accepted : List (ℕ × Bytes)) (before : List Bytes) (f : Bytes)
    (after : List Bytes)
    → s.adding ≡ before ++ (f ∷ after)
    → IsConsistent s accepted
    → IsConsistent
        (record s { window = add_push s.now s.window f; adding = before ++ after })
        accepted
unfolding add_push count count_queue
push_IsConsistent s accepted before f after adding c = record {
  counted = λ g.
      ap (λ n. n + count_queue g (s.window.queue ++ ((s.now, f) ∷ [])) + count g s.expired)
        (count-append g before after)
      ∙ (ap (λ n. count g before + count g after + n + count g s.expired)
            (count_queue-append g s.window.queue ((s.now, f) ∷ []))
          ∙ counted_push (if same g f then 1 else 0) (count g before) (count g after)
              (count_queue g s.window.queue) (count g s.expired)
              (if contains g s.window.fingerprints then 1 else 0)
              (ap (λ n. n + count_queue g s.window.queue + count g s.expired)
                  (sym (ap (count g) adding ∙ count-append g before (f ∷ after)))
                ∙ c.counted g));
  past = All-append (λ x. x.0 ≤ s.now) s.window.queue ((s.now, f) ∷ []) c.past (omega arith, tt);
  remembered =
      All-imp
        (λ x r. record {
          in_past = r.in_past;
          forgotten = r.forgotten;
          aged = r.aged;
          queued =
              All-append (λ y. y.1 ≡ x.1 → x.0 ≤ y.0) s.window.queue ((s.now, f) ∷ []) r.queued
                (λ e. r.in_past, tt);
        })
        accepted c.remembered;
  spaced = c.spaced;
}

counted_pop : (a q e i p r : ℕ) → p + r ≡ q → a + q + e ≡ i → a + r + (e + p) ≡ i
counted_pop a q e i p r h k = omega (arith, h, k)

-- A pop, of a queue that `pop_expired` splits.
popped_IsConsistent :
    (s : System) (accepted : List (ℕ × Bytes)) (popped : List Bytes) (rest : List (ℕ × Bytes))
    → Pops s.now s.window.queue popped rest
    → IsConsistent s accepted
    → IsConsistent
        (record s { window = record s.window { queue = rest }; expired = s.expired ++ popped })
        accepted
popped_IsConsistent s accepted popped rest p c = record {
  counted = λ g.
      ap (λ n. count g s.adding + count_queue g rest + n) (count-append g s.expired popped)
      ∙ counted_pop (count g s.adding) (count_queue g s.window.queue) (count g s.expired)
          (if contains g s.window.fingerprints then 1 else 0) (count g popped) (count_queue g rest)
          (p.counted g) (c.counted g);
  past = p.past;
  remembered =
      All-imp
        (λ x r. record {
          in_past = r.in_past;
          forgotten = r.forgotten;
          aged =
              All-append (λ g. g ≡ x.1 → x.0 + 500 < s.now) s.expired popped r.aged
                (p.aged x.0 x.1 r.queued).0;
          queued = (p.aged x.0 x.1 r.queued).1;
        })
        accepted c.remembered;
  spaced = c.spaced;
}

counted_drain :
    (a q e : ℕ) (b : Bool)
    → a + q + e ≡ (if b then 1 else 0)
    → a + q + 0 ≡ (if if ltb 0 e then false else b then 1 else 0)
counted_drain a q e b h = ground arith

drained : (e : ℕ) (b : Bool) → (if ltb 0 e then false else b) ≡ false → (0 < e) ⊎ (b ≡ false)
drained e b h = elim (Bool-cases (ltb 0 e)) [
  | inl some_ ↦ inl (ltb→lt 0 e some_)
  | inr no_ ↦ inr (rw no_ at h)
]

aged_of : (f : Bytes) (l : List Bytes) {P : Type 0} → 0 < count f l → All (λ g. g ≡ f → P) l → P
unfolding count
aged_of f [] h a = absurd (omega (arith, h))
aged_of f (g ∷ l) h a = elim (Bool-cases (same f g)) [
  | inl e ↦ a.0 (sym ((list_beq_iff nat_eq f g).0 e))
  | inr e ↦ aged_of f l (omega (arith, rw (count, e) at h)) a.1
]

drain_IsConsistent :
    (s : System) (accepted : List (ℕ × Bytes))
    → IsConsistent s accepted
    → IsConsistent (record s { window = prune_set s.expired s.window; expired = [] }) accepted
unfolding prune_set count
drain_IsConsistent s accepted c = record {
  counted = λ g.
      counted_drain (count g s.adding) (count_queue g s.window.queue) (count g s.expired)
        (contains g s.window.fingerprints) (c.counted g)
      ∙ ap (λ b. if b then 1 else 0)
          (sym (contains-remove_expired g s.expired s.window.fingerprints));
  past = c.past;
  remembered =
      All-imp
        (λ x r. record {
          in_past = r.in_past;
          forgotten = λ out.
              elim (drained (count x.1 s.expired) (contains x.1 s.window.fingerprints)
                (sym (contains-remove_expired x.1 s.expired s.window.fingerprints) ∙ out)) [
                  | inl old ↦ aged_of x.1 s.expired old r.aged
                  | inr gone ↦ r.forgotten gone
                ];
          aged = tt;
          queued = r.queued;
        })
        accepted c.remembered;
  spaced = c.spaced;
}

ok_injective : {A : Type 0} (a b : A) → ok a ≡ ok b → a ≡ b
ok_injective a b h = cc h

pop_IsConsistent :
    (debug : Bool) (s : System) (accepted : List (ℕ × Bytes)) (w : FingerprintWindow)
    (popped : List Bytes)
    → prune_queue debug s.now s.window ≡ ok (w, popped)
    → IsConsistent s accepted
    → IsConsistent (record s { window = w; expired = s.expired ++ popped }) accepted
unfolding prune_queue
pop_IsConsistent debug s accepted w popped eq c =
    let (gone, rest, popped_eq, p) = pop_expired-Pops debug s.now s.window.queue c.past in
    let same_result : (record s.window { queue = rest }, gone) ≡ (w, popped) =
      ok_injective (record s.window { queue = rest }, gone) (w, popped)
        (rw (prune_queue, popped_eq) at eq) in
    subst (λ r. IsConsistent (record s { window = r.0; expired = s.expired ++ r.1 }) accepted)
      same_result (popped_IsConsistent s accepted gone rest p c)

Step-IsConsistent :
    {debug : Bool} {s t : System} {fs : List Bytes} {accepted : List (ℕ × Bytes)}
    → Step debug s fs t
    → IsConsistent s accepted
    → IsConsistent t (map (λ f. (s.now, f)) fs ++ accepted)
Step-IsConsistent {s = s} {accepted = accepted} (wait later h) c =
    wait_IsConsistent s accepted later h c
Step-IsConsistent {s = s} {accepted = accepted} (insert_new f w eq) c =
    let (new, same_window) = add_insert-new s.window w f eq in
    subst
      (λ v. IsConsistent (record s { window = v; adding = f ∷ s.adding }) ((s.now, f) ∷ accepted))
      (sym same_window) (insert_IsConsistent s accepted f new c)
Step-IsConsistent {s = s} {accepted = accepted} (insert_known f w eq) c =
    subst (λ v. IsConsistent (record s { window = v }) accepted)
      (sym (add_insert-known s.window w f eq)) c
Step-IsConsistent {s = s} {accepted = accepted} (push before f after eq) c =
    push_IsConsistent s accepted before f after eq c
Step-IsConsistent {debug} {s} {accepted = accepted} (pop w popped eq) c =
    pop_IsConsistent debug s accepted w popped eq c
Step-IsConsistent {s = s} {accepted = accepted} drain c = drain_IsConsistent s accepted c

start_IsConsistent : IsConsistent start []
unfolding contains count count_queue
start_IsConsistent = record { counted = λ f. omega arith; past = tt; remembered = tt; spaced = tt }

Run-IsConsistent :
    {debug : Bool} {accepted : List (ℕ × Bytes)} {s : System}
    → Run debug accepted s
    → IsConsistent s accepted
Run-IsConsistent begin = start_IsConsistent
Run-IsConsistent (go fs r st) = Step-IsConsistent st (Run-IsConsistent r)

-- Whatever the order in which tasks insert fingerprints, push them on the queue, pop them and remove
-- them, each under its lock, and whatever time passes: between two acceptances of one fingerprint by
-- `add` more than 500 ms pass, and each fingerprint of the set is exactly once in the queue, in an
-- unfinished `add` or among those that `prune` has popped and is about to remove.
pub acceptances_spaced :
    {debug : Bool} {accepted : List (ℕ × Bytes)} {s : System}
    → Run debug accepted s
    → AreSpaced accepted × IsCounted s
acceptances_spaced r = let c = Run-IsConsistent r in (c.spaced, c.counted)
