-- ===== src/State/Acks/Loops.antt =====
-- The loops of a round of `PendingAckWindow::prune`.
use ubass_rs.Base.{
  ℕ, ◌+◌, ◌-◌, ◌≤◌, ◌<◌, ◌≡◌, refl, arith, ltb, lt→ltb, ltb→lt, ltb→ge, ◌⊎◌, inl, inr, Bool, List,
  [], ◌∷◌, length, All, Bool-cases,
}
use ubass_rs.Base.Outcome.{ok}
use ubass_rs.Base.Maps.{list_eq, nat_eq}
use ubass_rs.Wire.Codec.{Bytes}
use ubass_rs.Clock.{been_longer_than_lem}
use ubass_rs.State.Acks.{PendingAckQueueEntry, Popped, retried, ready_to_retry, pop_ready}

-- An entry that is not of the future and that has been retried at most five times.
abbrev pub IsLive : ℕ → PendingAckQueueEntry → Type 0
IsLive now e = (e.timestamp ≤ now) × (e.retries ≤ 5)

-- How often the entries of a queue may be sent again.
unfoldable pub sends_left : List PendingAckQueueEntry → ℕ
sends_left [] = 0
sends_left (e ∷ queue) = 5 - e.retries + sends_left queue

abbrev pub HasEntry : Bytes → List PendingAckQueueEntry → Type 0
HasEntry f [] = ⊥
HasEntry f (e ∷ queue) = (e.fingerprint ≡ f) ⊎ HasEntry f queue

abbrev pub IsAmong : Bytes → List Bytes → Type 0
IsAmong f [] = ⊥
IsAmong f (g ∷ l) = (g ≡ f) ⊎ IsAmong f l

pub record Pops (now : ℕ) (queue : List PendingAckQueueEntry) (p : Popped) : Type 0 where
  pub retries_live : All (IsLive now) p.to_retry
  pub rest_live : All (IsLive now) p.rest
  pub spent : length p.to_retry + sends_left p.to_retry + sends_left p.rest ≤ sends_left queue
  pub found :
      (f : Bytes)
      → HasEntry f queue
      → IsAmong f p.expired ⊎ (HasEntry f p.to_retry ⊎ HasEntry f p.rest)
  pub all_ready :
      (k : ℕ)
      → All (λ e. (e.timestamp + 500 < now) × (k ≤ e.retries)) queue
      → All (λ e. (e.timestamp ≡ now) × (k + 1 ≤ e.retries)) p.to_retry × (p.rest ≡ [])

ready_lem :
    (debug : Bool) (now : ℕ) (e : PendingAckQueueEntry)
    → IsLive now e
    → ready_to_retry debug now e ≡ ok (ltb 500 (now - e.timestamp))
unfolding ready_to_retry
ready_lem debug now e h = been_longer_than_lem debug now e.timestamp 500 h.0

retried_lem :
    (debug : Bool) (now : ℕ) (e : PendingAckQueueEntry)
    → IsLive now e
    → retried debug e ≡ ok (record e { retries = e.retries + 1 }, ltb 5 (e.retries + 1))
unfolding retried
retried_lem debug now e h = rw (retried, lt→ltb (e.retries + 1) 256 (omega (arith, h.1))) refl

Pops-stop :
    (now : ℕ) (e : PendingAckQueueEntry) (queue : List PendingAckQueueEntry)
    → All (IsLive now) (e ∷ queue)
    → now ≤ e.timestamp + 500
    → Pops now (e ∷ queue) (record { expired = []; to_retry = []; rest = e ∷ queue })
unfolding sends_left
Pops-stop now e queue live young = record {
  retries_live = tt;
  rest_live = live;
  spent = omega arith;
  found = λ f h. inr (inr h);
  all_ready = λ k h. absurd (omega (arith, h.0.0, young));
}

Pops-expire :
    (now : ℕ) (e : PendingAckQueueEntry) (queue : List PendingAckQueueEntry) (p : Popped)
    → 5 < e.retries + 1
    → Pops now queue p
    → Pops now (e ∷ queue) (record p { expired = e.fingerprint ∷ p.expired })
unfolding sends_left
Pops-expire now e queue p old ps = record {
  retries_live = ps.retries_live;
  rest_live = ps.rest_live;
  spent = omega (arith, ps.spent);
  found = λ f h. elim h [ inl same ↦ inl (inl same) | inr later ↦ expire f (ps.found f later) ];
  all_ready = λ k h. ps.all_ready k h.1;
}
  where
    expire :
        (f : Bytes)
        → IsAmong f p.expired ⊎ (HasEntry f p.to_retry ⊎ HasEntry f p.rest)
        → ((e.fingerprint ≡ f) ⊎ IsAmong f p.expired) ⊎ (HasEntry f p.to_retry ⊎ HasEntry f p.rest)
    expire f (inl h) = inl (inr h)
    expire f (inr h) = inr h

Pops-retry :
    (now : ℕ) (e : PendingAckQueueEntry) (queue : List PendingAckQueueEntry) (p : Popped)
    → e.retries + 1 ≤ 5
    → Pops now queue p
    → Pops now (e ∷ queue) (record p {
      to_retry = (record e { retries = e.retries + 1; timestamp = now }) ∷ p.to_retry;
    })
unfolding sends_left
Pops-retry now e queue p young ps = record {
  retries_live = ((omega arith, young), ps.retries_live);
  rest_live = ps.rest_live;
  spent = omega (arith, ps.spent, young);
  found = λ f h. elim h [ inl same ↦ inr (inl (inl same)) | inr later ↦ keep f (ps.found f later) ];
  all_ready =
      λ k h. (((refl, omega (arith, h.0.1)), (ps.all_ready k h.1).0), (ps.all_ready k h.1).1);
}
  where
    keep :
        (f : Bytes)
        → IsAmong f p.expired ⊎ (HasEntry f p.to_retry ⊎ HasEntry f p.rest)
        → IsAmong f p.expired ⊎ (((e.fingerprint ≡ f) ⊎ HasEntry f p.to_retry) ⊎ HasEntry f p.rest)
    keep f (inl h) = inl h
    keep f (inr (inl h)) = inr (inl (inr h))
    keep f (inr (inr h)) = inr (inr h)

pub pop_ready-Pops :
    (debug : Bool) (now : ℕ) (queue : List PendingAckQueueEntry)
    → All (IsLive now) queue
    → (p : Popped) × (pop_ready debug now queue ≡ ok p) × Pops now queue p
unfolding pop_ready sends_left
pop_ready-Pops debug now [] live = (
  record { expired = []; to_retry = []; rest = [] },
  refl,
  record {
    retries_live = tt;
    rest_live = tt;
    spent = omega arith;
    found = λ f h. elim h [ ];
    all_ready = λ k h. (tt, refl);
  },
)
pop_ready-Pops debug now (e ∷ queue) (live, lives) =
    elim (Bool-cases (ltb 500 (now - e.timestamp))) [
      | inr young ↦ (
        record { expired = []; to_retry = []; rest = e ∷ queue },
        rw (pop_ready, ready_lem debug now e live, young) refl,
        Pops-stop now e queue (live, lives)
            (omega (arith, ltb→ge 500 (now - e.timestamp) young, live.0)),
      )
      | inl ready ↦
          let (p, eq, ps) = pop_ready-Pops debug now queue lives in
          elim (Bool-cases (ltb 5 (e.retries + 1))) [
            | inl old ↦ (
              record p { expired = e.fingerprint ∷ p.expired },
              rw
                  (
                    pop_ready,
                    ready_lem debug now e live,
                    ready,
                    retried_lem debug now e live,
                    old,
                    eq,
                  )
                  refl,
              Pops-expire now e queue p (ltb→lt 5 (e.retries + 1) old) ps,
            )
            | inr fresh ↦ (
              record p {
                to_retry = (record e { retries = e.retries + 1; timestamp = now }) ∷ p.to_retry;
              },
              rw
                  (
                    pop_ready,
                    ready_lem debug now e live,
                    ready,
                    retried_lem debug now e live,
                    fresh,
                    eq,
                  )
                  refl,
              Pops-retry now e queue p (ltb→ge 5 (e.retries + 1) fresh) ps,
            )
          ]
    ]
