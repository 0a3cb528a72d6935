-- ===== src/Fec/Xor/Prune.antt =====
-- `Xor::prune` of src/packet_processor/fec/xor.rs, as one step: batches that have been open for long are
-- given up.
use ubass_rs.Base.{ℕ, Bool, List, [], ◌∷◌, none, some, if◌then◌else◌}
use ubass_rs.Base.Outcome.{Outcome, ok, ◌>>=◌}
use ubass_rs.Base.Maps.{HashMap, pair_eq, nat_eq, get, remove}
use ubass_rs.Clock.{been_longer_than}
use ubass_rs.Fec.Batch.{InboundBatch}
use ubass_rs.Fec.Xor.{MapKey, missing_positions}

-- The keys of the batches that are older than `ttl`.
unfoldable pub expired_keys : Bool → ℕ → ℕ → HashMap MapKey InboundBatch → Outcome (List MapKey)
unfolding been_longer_than
expired_keys debug now ttl [] = ok []
expired_keys debug now ttl (x ∷ snapshot) = do
  old ← been_longer_than debug now x.1.created_at ttl
  keys ← expired_keys debug now ttl snapshot
  ok (if old then x.0 ∷ keys else keys)

-- The batches that are removed, and the map left.
unfoldable pub remove_batches :
    List MapKey
    → HashMap MapKey InboundBatch
    → HashMap MapKey InboundBatch × List (MapKey × InboundBatch)
unfolding get remove
remove_batches [] inbound = (inbound, [])
remove_batches (k ∷ keys) inbound =
    let rest = remove_batches keys (remove k inbound) in
    elim (get k inbound) [ none ↦ rest | some batch ↦ (rest.0, (k, batch) ∷ rest.1) ]

-- The session, the batch and the missing positions of each.
unfoldable pub given_up : Bool → List (MapKey × InboundBatch) → Outcome (List (ℕ × ℕ × List ℕ))
unfolding missing_positions
given_up debug [] = ok []
given_up debug (x ∷ removed) = do
  positions ← missing_positions debug x.1
  rest ← given_up debug removed
  ok ((x.0.1, x.0.0, positions) ∷ rest)

-- `prune`
unfoldable pub prune_batches :
    Bool
    → ℕ
    → ℕ
    → HashMap MapKey InboundBatch
    → Outcome (HashMap MapKey InboundBatch × List (ℕ × ℕ × List ℕ))
unfolding expired_keys remove_batches given_up
prune_batches debug now ttl inbound = do
  keys ← expired_keys debug now ttl inbound
  let removed = remove_batches keys inbound
  out ← given_up debug removed.1
  ok (removed.0, out)
