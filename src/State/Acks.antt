-- ===== src/State/Acks.antt =====
-- `PendingAckWindow` of src/manager/state.rs, and the fingerprints of packets. The hash is an external
-- crate's, and is an argument; so is the table of the addresses of established sessions. Every round
-- of `prune` is one step.
pub mod Loops
pub mod Sends
pub mod Bounded
pub mod Ends
use ubass_rs.Base.{
  ℕ, ◌+◌, ◌%◌, ◌^◌, ltb, Bool, true, false, if◌then◌else◌, List, [], ◌∷◌, ◌++◌, Option, none, some,
}
use ubass_rs.Base.Outcome.{Outcome, ok, err, panic, ◌>>=◌}
use ubass_rs.Base.Maps.{HashMap, list_eq, nat_eq, get, insert, remove}
use ubass_rs.Wire.Codec.{Bytes}
use ubass_rs.Clock.{been_longer_than}
use ubass_rs.Packets.Handshake.{hello_packet_headers}
use ubass_rs.Packets.Control.{
  track_request_packet_headers, playback_control_packet_headers, close_session_packet_headers,
  track_rejection_packet_headers,
}
use ubass_rs.Packets.Streams.{
  data_packet_headers, metadata_packet_headers, parity_packet_headers, retransmit_packet_headers,
}
use ubass_rs.Packets.Replies.{unexpected_packet_error_packet_headers}
use ubass_rs.Packets.Packet.{Packet, session_id, mark_resend}

-- The headers that the fingerprint of a packet is the hash of.
unfoldable pub fingerprint_headers : Bool → Packet → Outcome Bytes
fingerprint_headers debug (Packet.hello_packet p) = hello_packet_headers debug p
fingerprint_headers debug (Packet.track_request_packet p) = track_request_packet_headers p
fingerprint_headers debug (Packet.data_packet p) = data_packet_headers p
fingerprint_headers debug (Packet.metadata_packet p) = metadata_packet_headers p
fingerprint_headers debug (Packet.parity_packet p) = parity_packet_headers p
fingerprint_headers debug (Packet.retransmit_packet p) = retransmit_packet_headers debug p
fingerprint_headers debug (Packet.playback_control_packet p) = playback_control_packet_headers p
fingerprint_headers debug (Packet.unexpected_packet_error_packet p) =
    unexpected_packet_error_packet_headers p
fingerprint_headers debug (Packet.track_rejection_packet p) = track_rejection_packet_headers p
fingerprint_headers debug (Packet.close_session_packet p) = close_session_packet_headers p
fingerprint_headers debug (Packet.ack_packet p) = err
fingerprint_headers debug (Packet.incompatible_version_packet p) = err
fingerprint_headers debug (Packet.keep_alive_packet p) = err
fingerprint_headers debug (Packet.session_does_not_exist_error_packet p) = err
fingerprint_headers debug (Packet.handshake_ack_packet p) = err
fingerprint_headers debug (Packet.handshake_rejection p) = err

-- `TryFrom<&Packet> for PacketFingerprint`, with the hash `xxh3_128`
unfoldable pub fingerprint_try_from : (Bytes → Bytes) → Bool → Packet → Outcome Bytes
unfolding fingerprint_headers
fingerprint_try_from hash debug packet = do
  headers ← fingerprint_headers debug packet
  ok (hash headers)

-- `struct PendingAckQueueEntry`
pub record PendingAckQueueEntry : Type 0 where
  pub timestamp : ℕ
  pub fingerprint : Bytes
  pub retries : ℕ

abbrev pub max_retries : ℕ
max_retries = 5

-- `PendingAckQueueEntry::new`
abbrev pub entry_new : ℕ → Bytes → PendingAckQueueEntry
entry_new now fingerprint = record { timestamp = now; fingerprint = fingerprint; retries = 0 }

-- `retried`: `+= 1` on a `u8`
unfoldable pub retried : Bool → PendingAckQueueEntry → Outcome (PendingAckQueueEntry × Bool)
retried debug e =
    if ltb (e.retries + 1) 256
    then ok (record e { retries = e.retries + 1 }, ltb max_retries (e.retries + 1))
    else if debug
    then panic
    else ok
        (record e { retries = (e.retries + 1) % 2 ^ 8 }, ltb max_retries ((e.retries + 1) % 2 ^ 8))

-- `ready_to_retry`
unfoldable pub ready_to_retry : Bool → ℕ → PendingAckQueueEntry → Outcome Bool
unfolding been_longer_than
ready_to_retry debug now e = been_longer_than debug now e.timestamp 500

-- `struct PendingAckWindow`, without the channel.
pub record PendingAckWindow : Type 0 where
  pub pending : HashMap Bytes Packet
  pub queue : List PendingAckQueueEntry
  pub canceled : Bool

-- `PendingAckWindow::new`
abbrev pub pending_ack_window : PendingAckWindow
pending_ack_window = record { pending = []; queue = []; canceled = false }

-- `close`
abbrev pub close_acks : PendingAckWindow → PendingAckWindow
close_acks w = record w { canceled = true }

-- `acknowledge`
unfoldable pub acknowledge : PendingAckWindow → Bytes → PendingAckWindow
unfolding remove
acknowledge w fingerprint =
    if w.canceled then w else record w { pending = remove fingerprint w.pending }

-- `inner_add`
unfoldable pub inner_add :
    (Bytes → Bytes) → Bool → ℕ → PendingAckWindow → Packet → Outcome PendingAckWindow
unfolding insert fingerprint_try_from mark_resend
inner_add hash debug now w packet = elim (fingerprint_try_from hash debug packet) [
  | err ↦ if debug then panic else ok w
  | panic ↦ panic
  | ok fingerprint ↦ ok (record w {
    pending = insert fingerprint (mark_resend packet) w.pending;
    queue = w.queue ++ (entry_new now fingerprint ∷ []);
  })
]

-- `add`, with the task that it starts.
unfoldable pub add_pending :
    (Bytes → Bytes) → Bool → ℕ → PendingAckWindow → Packet → Outcome PendingAckWindow
unfolding inner_add
add_pending hash debug now w packet = if w.canceled then ok w else inner_add hash debug now w packet

-- What the inner `while` of `prune` leaves: the fingerprints in `expired`, the entries in `to_retry`, and
-- the queue.
pub record Popped : Type 0 where
  pub expired : List Bytes
  pub to_retry : List PendingAckQueueEntry
  pub rest : List PendingAckQueueEntry

abbrev pub pop_one : ℕ → PendingAckQueueEntry × Bool → Popped → Popped
pop_one now (value, true) p = record p { expired = value.fingerprint ∷ p.expired }
pop_one now (value, false) p = record p { to_retry = record value { timestamp = now } ∷ p.to_retry }

unfoldable pub pop_ready : Bool → ℕ → List PendingAckQueueEntry → Outcome Popped
unfolding ready_to_retry retried
pop_ready debug now [] = ok (record { expired = []; to_retry = []; rest = [] })
pop_ready debug now (front ∷ queue) = do
  ready ← ready_to_retry debug now front
  elim ready [
    | false ↦ ok (record { expired = []; to_retry = []; rest = front ∷ queue })
    | true ↦ do
      value ← retried debug front
      rest ← pop_ready debug now queue
      ok (pop_one now value rest)
  ]

-- `expired.drain(..).for_each(|fingerprint| _ = pending.remove(&fingerprint))`
unfoldable pub remove_all : List Bytes → HashMap Bytes Packet → HashMap Bytes Packet
unfolding remove
remove_all [] pending = pending
remove_all (fingerprint ∷ expired) pending = remove_all expired (remove fingerprint pending)

-- What the `for` of `prune` does with the entries to retry: those that it pushes back, what it sends,
-- and whether the task goes on.
pub record Resent (Addr : Type 0) : Type 0 where
  pub pushed : List PendingAckQueueEntry
  pub sent : List (Packet × Addr)
  pub goes_on : Bool

-- The window after a round, what the round sent, and whether the task goes on.
pub record Round (Addr : Type 0) : Type 0 where
  pub window : PendingAckWindow
  pub sent : List (Packet × Addr)
  pub goes_on : Bool

module _ {Addr : Type 0} where
  abbrev pub nothing_resent : Bool → Resent Addr
  nothing_resent goes_on = record { pushed = []; sent = []; goes_on = goes_on }

  abbrev pub resent_one : PendingAckQueueEntry → Packet → Addr → Resent Addr → Resent Addr
  resent_one e packet address r = record r {
    pushed = e ∷ r.pushed;
    sent = (packet, address) ∷ r.sent;
  }

  abbrev pub after_round : Round Addr → Round Addr → Round Addr
  after_round first r = record r { sent = first.sent ++ r.sent }

  unfoldable pub resend :
      (ℕ → Option Addr)
      → Bool
      → HashMap Bytes Packet
      → List PendingAckQueueEntry
      → Outcome (Resent Addr)
  unfolding get
  resend address_of debug pending [] = ok (nothing_resent true)
  resend address_of debug pending (e ∷ entries) = elim (get e.fingerprint pending) [
    | none ↦ resend address_of debug pending entries
    | some packet ↦ do
      id ← session_id debug packet
      elim id [
        | none ↦ ok (nothing_resent false)
        | some session ↦ elim (address_of session) [
          | none ↦ resend address_of debug pending entries
          | some address ↦ do
            rest ← resend address_of debug pending entries
            ok (resent_one e packet address rest)
        ]
      ]
  ]

  -- One round of the loop of `prune`. When the task ends early, the expired packets stay.
  unfoldable pub prune_acks : (ℕ → Option Addr) → Bool → ℕ → PendingAckWindow → Outcome (Round Addr)
  prune_acks address_of debug now w = do
    popped ← pop_ready debug now w.queue
    resent ← resend address_of debug w.pending popped.to_retry
    ok (record {
      window = record w {
        queue = popped.rest ++ resent.pushed;
        pending = if resent.goes_on then remove_all popped.expired w.pending else w.pending;
      };
      sent = resent.sent;
      goes_on = resent.goes_on;
    })

  -- The loop of `prune`, whose rounds are at the given times.
  unfoldable pub prune_rounds :
      (ℕ → Option Addr) → Bool → List ℕ → PendingAckWindow → Outcome (Round Addr)
  prune_rounds address_of debug [] w = ok (record { window = w; sent = []; goes_on = true })
  prune_rounds address_of debug (now ∷ times) w = elim w.canceled [
    | true ↦ ok (record { window = w; sent = []; goes_on = false })
    | false ↦ do
      first ← prune_acks address_of debug now w
      elim first.goes_on [
        | false ↦ ok first
        | true ↦ do
          rest ← prune_rounds address_of debug times first.window
          ok (after_round first rest)
      ]
  ]
