-- ===== src/State/Acks/Ends.antt =====
-- A packet that is never acknowledged is given up.
use ubass_rs.Base.{
  ℕ, ◌+◌, ◌≤◌, ◌<◌, ◌≡◌, refl, subst, ◌∙◌, arith, inl, inr, Bool, true, false, List, [], ◌∷◌,
  length, All, All-imp, Option, none,
}
use ubass_rs.Base.Outcome.{ok}
use ubass_rs.Base.Maps.{list_eq, nat_eq, get}
use ubass_rs.Wire.Codec.{Bytes}
use ubass_rs.State.Acks.{PendingAckQueueEntry, PendingAckWindow, Round, after_round, prune_rounds}
use ubass_rs.State.Acks.Loops.{IsLive, HasEntry}
use ubass_rs.State.Acks.Sends.{AreReachable}
use ubass_rs.State.Acks.Bounded.{
  IsWaiting, IsTracked, IsWaiting-later, prune_acks-Prunes, rounds_step,
}

-- Times each more than 500 ms after the one before, the first after `last`.
abbrev pub AreRounds : ℕ → List ℕ → Type 0
AreRounds last [] = Unit
AreRounds last (t ∷ times) = (last + 500 < t) × AreRounds t times

none_left :
    (now k : ℕ) (queue : List PendingAckQueueEntry)
    → 6 ≤ k
    → All (IsLive now) queue
    → All (λ e. (e.timestamp ≤ now) × (k ≤ e.retries)) queue
    → queue ≡ []
none_left now k [] h live old = refl
none_left now k (e ∷ queue) h live old = absurd (omega (arith, h, live.0.1, old.0.1))

tracked_end :
    (f : Bytes) (w : PendingAckWindow) → IsTracked f w → w.queue ≡ [] → get f w.pending ≡ none
tracked_end f w (inl gone) empty = gone
tracked_end f w (inr entry) empty = elim (subst (HasEntry f) empty entry) [ ]

-- The same with entries that were all retried `k` times already.
rounds_end :
    {Addr : Type 0} (address_of : ℕ → Option Addr) (debug : Bool) (last k : ℕ) (times : List ℕ)
    (w : PendingAckWindow)
    → AreReachable address_of
    → w.canceled ≡ false
    → IsWaiting debug last w
    → All (λ e. (e.timestamp ≤ last) × (k ≤ e.retries)) w.queue
    → AreRounds last times
    → 6 ≤ k + length times
    → (r : Round Addr) × (prune_rounds address_of debug times w ≡ ok r)
      × (r.window.queue ≡ [])
      × ((f : Bytes) → IsTracked f w → get f r.window.pending ≡ none)
unfolding prune_rounds
rounds_end address_of debug last k [] w reach open_ waits old apart enough =
    let empty = none_left last k w.queue (omega (arith, enough)) waits.live old in
    (record { window = w; sent = []; goes_on = true }, refl, empty, λ f t. tracked_end f w t empty)
rounds_end address_of debug last k (t ∷ times) w reach open_ waits old (apart, aparts) enough =
    let (first, eq, ps) =
      prune_acks-Prunes address_of debug t w (IsWaiting-later t (omega (arith, apart)) waits) in
    let (rest, later, empty, gone) =
      rounds_end address_of debug t (k + 1) times first.window reach (ps.open_ ∙ open_) ps.waiting
        (All-imp (λ e h. (omega (arith, h.0), h.1)) first.window.queue
          (ps.all_ready k (All-imp (λ e h. (omega (arith, h.0, apart), h.1)) w.queue old)))
        aparts (omega (arith, enough)) in
    (
      after_round first rest,
      rounds_step address_of debug t times w first rest open_ eq ps.going later,
      empty,
      λ f h. gone f (ps.tracked reach f h),
    )

-- A window that is not closed, whose packets belong to sessions that all have an address, and whose
-- entries are of the past and were retried at most five times: after six rounds of `prune` or more, each
-- more than 500 ms after the one before, with nothing added in between, no round panicked, the queue is
-- empty, and no packet that had an entry waits any longer, acknowledged or not.
pub six_rounds_end :
    {Addr : Type 0} (address_of : ℕ → Option Addr) (debug : Bool) (last : ℕ) (times : List ℕ)
    (w : PendingAckWindow)
    → AreReachable address_of
    → w.canceled ≡ false
    → IsWaiting debug last w
    → AreRounds last times
    → 6 ≤ length times
    → (r : Round Addr) × (prune_rounds address_of debug times w ≡ ok r)
      × (r.window.queue ≡ [])
      × ((f : Bytes) → HasEntry f w.queue → get f r.window.pending ≡ none)
six_rounds_end address_of debug last times w reach open_ waits apart enough =
    let (r, eq, empty, gone) =
      rounds_end address_of debug last 0 times w reach open_ waits
        (All-imp (λ e l. (l.0, omega arith)) w.queue waits.live) apart (omega (arith, enough)) in
    (r, eq, empty, λ f h. gone f (inr h))
