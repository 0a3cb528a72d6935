-- ===== src/State/Acks/Sends.antt =====
-- What a round of `PendingAckWindow::prune` sends again, and what it removes.
use ubass_rs.Base.{
  ℕ, ◌+◌, ◌≤◌, ◌≡◌, refl, sym, subst, ◌∙◌, arith, ◌⊎◌, inl, inr, Bool, true, false, if◌then◌else◌,
  List, [], ◌∷◌, length, All, Option-cases, Option, none, some,
}
use ubass_rs.Base.Outcome.{ok}
use ubass_rs.Base.Maps.{
  HashMap, list_eq, nat_eq, get, remove, get-remove, get-remove_self, All-get, All-remove,
}
use ubass_rs.Wire.Codec.{Bytes}
use ubass_rs.Packets.Packet.{Packet, session_id}
use ubass_rs.State.Acks.{
  PendingAckQueueEntry, Resent, nothing_resent, resend, resent_one, remove_all,
}
use ubass_rs.State.Acks.Loops.{IsLive, sends_left, HasEntry, IsAmong}

-- The packet belongs to a session.
abbrev pub HasSession : Bool → Packet → Type 0
HasSession debug p = (id : ℕ) × (session_id debug p ≡ ok (some id))

module _ {Addr : Type 0} (address_of : ℕ → Option Addr) where
  -- Every session has an address.
  abbrev pub AreReachable : Type 0
  AreReachable = (session : ℕ) → (address : Addr) × (address_of session ≡ some address)

  pub record Resends (pending : HashMap Bytes Packet) (entries : List PendingAckQueueEntry)
      (r : Resent Addr) : Type 0 where
    pub going : r.goes_on ≡ true
    pub spent : length r.sent + sends_left r.pushed ≤ length entries + sends_left entries
    pub live : (now : ℕ) → All (IsLive now) entries → All (IsLive now) r.pushed
    pub kept :
        (now k : ℕ)
        → All (λ e. (e.timestamp ≡ now) × (k ≤ e.retries)) entries
        → All (λ e. (e.timestamp ≡ now) × (k ≤ e.retries)) r.pushed
    pub found :
        AreReachable
        → (f : Bytes) → HasEntry f entries
        → (get f pending ≡ none) ⊎ HasEntry f r.pushed

  Resends-skip :
      (pending : HashMap Bytes Packet) (e : PendingAckQueueEntry)
      (entries : List PendingAckQueueEntry) (r : Resent Addr)
      → (AreReachable → get e.fingerprint pending ≡ none)
      → Resends pending entries r
      → Resends pending (e ∷ entries) r
  unfolding sends_left
  Resends-skip pending e entries r gone rs = record {
    going = rs.going;
    spent = omega (arith, rs.spent);
    live = λ now h. rs.live now h.1;
    kept = λ now k h. rs.kept now k h.1;
    found = λ reach f h. elim h [
      | inl same ↦ inl (subst (λ g. get g pending ≡ none) same (gone reach))
      | inr later ↦ rs.found reach f later
    ];
  }

  Resends-one :
      (pending : HashMap Bytes Packet) (e : PendingAckQueueEntry)
      (entries : List PendingAckQueueEntry) (r : Resent Addr) (packet : Packet) (address : Addr)
      → Resends pending entries r
      → Resends pending (e ∷ entries) (resent_one e packet address r)
  unfolding sends_left
  Resends-one pending e entries r packet address rs = record {
    going = rs.going;
    spent = omega (arith, rs.spent);
    live = λ now h. (h.0, rs.live now h.1);
    kept = λ now k h. (h.0, rs.kept now k h.1);
    found = λ reach f h. elim h [
      | inl same ↦ inr (inl same)
      | inr later ↦ push f (rs.found reach f later)
    ];
  }
    where
      push :
          (f : Bytes)
          → (get f pending ≡ none) ⊎ HasEntry f r.pushed
          → (get f pending ≡ none) ⊎ ((e.fingerprint ≡ f) ⊎ HasEntry f r.pushed)
      push f (inl h) = inl h
      push f (inr h) = inr (inr h)

  pub resend-Resends :
      (debug : Bool) (pending : HashMap Bytes Packet) (entries : List PendingAckQueueEntry)
      → All (λ x. HasSession debug x.1) pending
      → (r : Resent Addr) × (resend address_of debug pending entries ≡ ok r)
        × Resends pending entries r
  unfolding resend sends_left
  resend-Resends debug pending [] known = (
    nothing_resent true,
    refl,
    record {
      going = refl;
      spent = omega arith;
      live = λ now h. tt;
      kept = λ now k h. tt;
      found = λ reach f h. elim h [ ];
    },
  )
  resend-Resends debug pending (e ∷ entries) known =
      let (r, eq, rs) = resend-Resends debug pending entries known in
      elim (Option-cases (get e.fingerprint pending)) [
        | inl gone ↦ (r, rw (resend, gone) eq, Resends-skip pending e entries r (λ reach. gone) rs)
        | inr (packet, got) ↦
            let (id, session) = All-get (HasSession debug) e.fingerprint packet pending known got in
            elim (Option-cases (address_of id)) [
              | inl closed ↦ (
                r,
                rw (resend, got, session, closed) eq,
                Resends-skip pending e entries r (λ reach. cc (closed, (reach id).1)) rs,
              )
              | inr (address, there) ↦ (
                resent_one e packet address r,
                rw (resend, got, session, there, eq) refl,
                Resends-one pending e entries r packet address rs,
              )
            ]
      ]

pub get-remove_all-none :
    (f : Bytes) (expired : List Bytes) (pending : HashMap Bytes Packet)
    → get f pending ≡ none
    → get f (remove_all expired pending) ≡ none
unfolding remove_all
get-remove_all-none f [] pending h = h
get-remove_all-none f (g ∷ expired) pending h =
    get-remove_all-none f expired (remove g pending)
      (get-remove g f pending ∙ if_none (list_eq.beq g f) (get f pending) h)
  where
    if_none : (b : Bool) (o : Option Packet) → o ≡ none → (if b then none else o) ≡ none
    if_none true o h = refl
    if_none false o h = h

pub get-remove_all :
    (f : Bytes) (expired : List Bytes) (pending : HashMap Bytes Packet)
    → IsAmong f expired
    → get f (remove_all expired pending) ≡ none
unfolding remove_all
get-remove_all f [] pending h = elim h [ ]
get-remove_all f (g ∷ expired) pending (inl same) =
    get-remove_all-none f expired (remove g pending)
      (subst (λ x. get f (remove x pending) ≡ none) (sym same) (get-remove_self f pending))
get-remove_all f (g ∷ expired) pending (inr later) =
    get-remove_all f expired (remove g pending) later

pub All-remove_all :
    (debug : Bool) (expired : List Bytes) (pending : HashMap Bytes Packet)
    → All (λ x. HasSession debug x.1) pending
    → All (λ x. HasSession debug x.1) (remove_all expired pending)
unfolding remove_all
All-remove_all debug [] pending h = h
All-remove_all debug (g ∷ expired) pending h =
    All-remove_all debug expired (remove g pending)
      (All-remove (λ x. HasSession debug x.1) g pending h)
