-- ===== src/State/Fingerprints.antt =====
-- `FingerprintWindow` of src/manager/state.rs: which packets are known. Each operation is split where it
-- gives up a lock, so that tasks can be interleaved there.
pub mod Counts
pub mod Interleaved
pub mod Pruned
use ubass_rs.Base.{ℕ, ◌-◌, Bool, true, false, if◌then◌else◌, List, [], ◌∷◌, ◌++◌, not}
use ubass_rs.Base.Outcome.{Outcome, ok, ◌>>=◌}
use ubass_rs.Base.Maps.{HashSet, list_eq, nat_eq, contains, without}
use ubass_rs.Wire.Codec.{Bytes}
use ubass_rs.Clock.{been_longer_than}

-- `FingerprintWindow::PRUNE_INTERVAL`, which is `PACKET_DISCARD_TIME_MS`
abbrev pub prune_interval : ℕ
prune_interval = 500

-- `struct FingerprintWindow`, without the close signal.
pub record FingerprintWindow : Type 0 where
  pub fingerprints : HashSet Bytes
  pub queue : List (ℕ × Bytes)

-- `FingerprintWindow::default`
abbrev pub fingerprint_window : FingerprintWindow
fingerprint_window = record { fingerprints = []; queue = [] }

-- `contains`
unfoldable pub contains_fingerprint : FingerprintWindow → Bytes → Bool
contains_fingerprint w fingerprint = contains fingerprint w.fingerprints

-- `lock_write!(self.fingerprints).insert(fingerprint)`
unfoldable pub add_insert : FingerprintWindow → Bytes → FingerprintWindow × Bool
add_insert w fingerprint =
    if contains fingerprint w.fingerprints
    then (w, false)
    else (record w { fingerprints = fingerprint ∷ w.fingerprints }, true)

-- `lock!(self.queue).push_back((Timestamp::now(), fingerprint))`
unfoldable pub add_push : ℕ → FingerprintWindow → Bytes → FingerprintWindow
add_push now w fingerprint = record w { queue = w.queue ++ ((now, fingerprint) ∷ []) }

-- `add`
unfoldable pub add : ℕ → FingerprintWindow → Bytes → FingerprintWindow × Bool
unfolding add_insert add_push
add now w fingerprint =
    let inserted = add_insert w fingerprint in
    if not inserted.1 then (inserted.0, false) else (add_push now inserted.0 fingerprint, true)

-- The inner `while` of `prune`: the fingerprints that are pushed to `expired`, and the queue left.
unfoldable pub pop_expired : Bool → ℕ → List (ℕ × Bytes) → Outcome (List Bytes × List (ℕ × Bytes))
unfolding been_longer_than
pop_expired debug now [] = ok ([], [])
pop_expired debug now ((ts, fingerprint) ∷ queue) = do
  old ← been_longer_than debug now ts prune_interval
  elim old [
    | true ↦ do rest ← pop_expired debug now queue; ok (fingerprint ∷ rest.0, rest.1)
    | false ↦ ok ([], (ts, fingerprint) ∷ queue)
  ]

-- `expired.drain(..).for_each(|fingerprint| _ = fingerprints.remove(&fingerprint))`
unfoldable pub remove_expired : List Bytes → HashSet Bytes → HashSet Bytes
remove_expired [] fingerprints = fingerprints
remove_expired (fingerprint ∷ expired) fingerprints =
    remove_expired expired (without fingerprint fingerprints)

-- The section of `prune` under the lock of the queue, and that under the lock of the set.
unfoldable pub prune_queue : Bool → ℕ → FingerprintWindow → Outcome (FingerprintWindow × List Bytes)
unfolding pop_expired
prune_queue debug now w = do
  popped ← pop_expired debug now w.queue
  ok (record w { queue = popped.1 }, popped.0)

unfoldable pub prune_set : List Bytes → FingerprintWindow → FingerprintWindow
unfolding remove_expired
prune_set expired w = record w { fingerprints = remove_expired expired w.fingerprints }

-- One round of the loop of `prune`.
unfoldable pub prune_round : Bool → ℕ → FingerprintWindow → Outcome FingerprintWindow
unfolding prune_queue prune_set
prune_round debug now w = do popped ← prune_queue debug now w; ok (prune_set popped.1 popped.0)
