-- ===== src/State/Acks/Bounded.antt =====
-- Rounds of `PendingAckWindow::prune`: what they keep, and how much they send.
use ubass_rs.Base.{
  ℕ, ◌+◌, ◌≤◌, ◌<◌, ◌≡◌, refl, sym, ap, subst, arith, ◌⊎◌, inl, inr, Bool, true, false,
  if◌then◌else◌, List, [], ◌∷◌, ◌++◌, length, length-append, All, All-imp, All-append, Bool-cases,
  Option, none,
}
use ubass_rs.Base.Outcome.{ok}
use ubass_rs.Base.Maps.{list_eq, nat_eq, get}
use ubass_rs.Wire.Codec.{Bytes}
use ubass_rs.State.Acks.{
  PendingAckQueueEntry, Popped, PendingAckWindow, Resent, remove_all, Round, after_round,
  prune_acks, prune_rounds,
}
use ubass_rs.State.Acks.Loops.{IsLive, sends_left, HasEntry, Pops, pop_ready-Pops}
use ubass_rs.State.Acks.Sends.{
  HasSession, AreReachable, Resends, resend-Resends, get-remove_all, get-remove_all-none,
  All-remove_all,
}

-- Every packet that waits belongs to a session, and every entry is of the past and retried at most
-- five times.
pub record IsWaiting (debug : Bool) (now : ℕ) (w : PendingAckWindow) : Type 0 where
  pub sessions : All (λ x. HasSession debug x.1) w.pending
  pub live : All (IsLive now) w.queue

-- The packet is not waiting, or has its entry in the queue.
abbrev pub IsTracked : Bytes → PendingAckWindow → Type 0
IsTracked f w = (get f w.pending ≡ none) ⊎ HasEntry f w.queue

sends_left-append :
    (xs ys : List PendingAckQueueEntry) → sends_left (xs ++ ys) ≡ sends_left xs + sends_left ys
unfolding sends_left
sends_left-append [] ys = omega arith
sends_left-append (x ∷ xs) ys = omega (arith, sends_left-append xs ys)

HasEntry-left :
    (f : Bytes) (xs ys : List PendingAckQueueEntry) → HasEntry f xs → HasEntry f (xs ++ ys)
HasEntry-left f [] ys h = elim h [ ]
HasEntry-left f (x ∷ xs) ys (inl h) = inl h
HasEntry-left f (x ∷ xs) ys (inr h) = inr (HasEntry-left f xs ys h)

HasEntry-right :
    (f : Bytes) (xs ys : List PendingAckQueueEntry) → HasEntry f ys → HasEntry f (xs ++ ys)
HasEntry-right f [] ys h = h
HasEntry-right f (x ∷ xs) ys h = inr (HasEntry-right f xs ys h)

module _ {Addr : Type 0} (address_of : ℕ → Option Addr) where
  pub record Prunes (debug : Bool) (now : ℕ) (w : PendingAckWindow) (r : Round Addr) : Type 0 where
    pub going : r.goes_on ≡ true
    pub open_ : r.window.canceled ≡ w.canceled
    pub waiting : IsWaiting debug now r.window
    pub spent : length r.sent + sends_left r.window.queue ≤ sends_left w.queue
    pub all_ready :
        (k : ℕ)
        → All (λ e. (e.timestamp + 500 < now) × (k ≤ e.retries)) w.queue
        → All (λ e. (e.timestamp ≡ now) × (k + 1 ≤ e.retries)) r.window.queue
    pub tracked : AreReachable address_of → (f : Bytes) → IsTracked f w → IsTracked f r.window

  -- The window after a round whose loops do not stop early.
  abbrev round_of : PendingAckWindow → Popped → Resent Addr → Round Addr
  round_of w p r = record {
    window = record w {
      queue = p.rest ++ r.pushed;
      pending = if r.goes_on then remove_all p.expired w.pending else w.pending;
    };
    sent = r.sent;
    goes_on = r.goes_on;
  }

  tracked_round :
      (w : PendingAckWindow) (p : Popped) (r : Resent Addr) (now : ℕ) (f : Bytes)
      → Pops now w.queue p
      → Resends address_of w.pending p.to_retry r
      → AreReachable address_of
      → IsTracked f w
      → (get f (remove_all p.expired w.pending) ≡ none) ⊎ HasEntry f (p.rest ++ r.pushed)
  tracked_round w p r now f ps rs reach (inl gone) =
      inl (get-remove_all-none f p.expired w.pending gone)
  tracked_round w p r now f ps rs reach (inr h) = elim (ps.found f h) [
    | inl old ↦ inl (get-remove_all f p.expired w.pending old)
    | inr (inr rest) ↦ inr (HasEntry-left f p.rest r.pushed rest)
    | inr (inl retry) ↦ elim (rs.found reach f retry) [
      | inl gone ↦ inl (get-remove_all-none f p.expired w.pending gone)
      | inr pushed ↦ inr (HasEntry-right f p.rest r.pushed pushed)
    ]
  ]

  round_Prunes :
      (debug : Bool) (now : ℕ) (w : PendingAckWindow) (p : Popped) (r : Resent Addr)
      → IsWaiting debug now w
      → Pops now w.queue p
      → Resends address_of w.pending p.to_retry r
      → Prunes debug now w (round_of w p r)
  round_Prunes debug now w p r waits ps rs = record {
    going = rs.going;
    open_ = refl;
    waiting = record {
      sessions = rw rs.going (All-remove_all debug p.expired w.pending waits.sessions);
      live = All-append (IsLive now) p.rest r.pushed ps.rest_live (rs.live now ps.retries_live);
    };
    spent = omega (arith, ps.spent, rs.spent, sends_left-append p.rest r.pushed);
    all_ready = λ k h.
        let (retry, none_left) = ps.all_ready k h in
        All-append (λ e. (e.timestamp ≡ now) × (k + 1 ≤ e.retries)) p.rest r.pushed
          (subst (λ l. All (λ e. (e.timestamp ≡ now) × (k + 1 ≤ e.retries)) l) (sym none_left) tt)
          (rs.kept now (k + 1) retry);
    tracked = λ reach f h. rw rs.going (tracked_round w p r now f ps rs reach h);
  }

  pub prune_acks-Prunes :
      (debug : Bool) (now : ℕ) (w : PendingAckWindow)
      → IsWaiting debug now w
      → (r : Round Addr) × (prune_acks address_of debug now w ≡ ok r) × Prunes debug now w r
  unfolding prune_acks
  prune_acks-Prunes debug now w waits =
      let (p, popped, ps) = pop_ready-Pops debug now w.queue waits.live in
      let (r, resent, rs) = resend-Resends address_of debug w.pending p.to_retry waits.sessions in
      (
        round_of w p r,
        rw (prune_acks, popped, resent) refl,
        round_Prunes debug now w p r waits ps rs,
      )

pub IsWaiting-later :
    {debug : Bool} {now : ℕ} {w : PendingAckWindow} (later : ℕ)
    → now ≤ later
    → IsWaiting debug now w
    → IsWaiting debug later w
IsWaiting-later {w = w} later h waits = record {
  sessions = waits.sessions;
  live = All-imp (λ e l. (omega (arith, h, l.0), l.1)) w.queue waits.live;
}

-- Times in order, from `now` on.
abbrev pub AreOrdered : ℕ → List ℕ → Type 0
AreOrdered now [] = Unit
AreOrdered now (t ∷ times) = (now ≤ t) × AreOrdered t times

pub rounds_closed :
    {Addr : Type 0} (address_of : ℕ → Option Addr) (debug : Bool) (now : ℕ) (times : List ℕ)
    (w : PendingAckWindow) (r : Round Addr)
    → w.canceled ≡ true
    → record { window = w; sent = []; goes_on = false } ≡ r
    → prune_rounds address_of debug (now ∷ times) w ≡ ok r
unfolding prune_rounds
rounds_closed address_of debug now times w r closed same =
    rw (prune_rounds, closed) (ap (λ x. ok x) same)

pub rounds_step :
    {Addr : Type 0} (address_of : ℕ → Option Addr) (debug : Bool) (now : ℕ) (times : List ℕ)
    (w : PendingAckWindow) (first rest : Round Addr)
    → w.canceled ≡ false
    → prune_acks address_of debug now w ≡ ok first
    → first.goes_on ≡ true
    → prune_rounds address_of debug times first.window ≡ ok rest
    → prune_rounds address_of debug (now ∷ times) w ≡ ok (after_round first rest)
unfolding prune_rounds
rounds_step address_of debug now times w first rest open_ eq going later =
    rw (prune_rounds, open_, eq, going, later) refl

-- Rounds of `prune` at any times in order, on a window whose packets belong to sessions and whose entries
-- were retried at most five times: none panics, and what they send again is at most what the entries
-- in the queue have left of five retries each; what is left then is so much less.
pub prune_rounds-sends_left :
    {Addr : Type 0} (address_of : ℕ → Option Addr) (debug : Bool) (now : ℕ) (times : List ℕ)
    (w : PendingAckWindow)
    → IsWaiting debug now w
    → AreOrdered now times
    → (r : Round Addr) × (prune_rounds address_of debug times w ≡ ok r)
      × (length r.sent + sends_left r.window.queue ≤ sends_left w.queue)
unfolding prune_rounds
prune_rounds-sends_left address_of debug now [] w waits order =
    (record { window = w; sent = []; goes_on = true }, refl, omega arith)
prune_rounds-sends_left address_of debug now (t ∷ times) w waits (h, order) =
    elim (Bool-cases w.canceled) [
      | inl closed ↦ (
        record { window = w; sent = []; goes_on = false },
        rounds_closed address_of debug t times w (record { window = w; sent = []; goes_on = false })
            closed refl,
        omega arith,
      )
      | inr open_ ↦
          let (first, eq, ps) =
            prune_acks-Prunes address_of debug t w (IsWaiting-later t h waits) in
          let (rest, later, bound) =
            prune_rounds-sends_left address_of debug t times first.window ps.waiting order in
          (
            after_round first rest,
            rounds_step address_of debug t times w first rest open_ eq ps.going later,
            omega (arith, bound, ps.spent, length-append first.sent rest.sent),
          )
    ]
