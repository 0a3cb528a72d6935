-- ===== src/State/Batches.antt =====
-- `SessionFecState` and `FecBatchWindow` of src/manager/state.rs: the batches that a session expects. `now`
-- is the time of the call.
pub mod Active
use ubass_rs.Base.{
  ℕ, ◌+◌, ◌-◌, ◌*◌, ◌%◌, ◌^◌, Bool, true, false, not, List, [], ◌∷◌, Option, none, some,
  if◌then◌else◌,
}
use ubass_rs.Base.Outcome.{Outcome, ok, ◌>>=◌}
use ubass_rs.Base.Maps.{HashMap, nat_eq, insert, remove, or_insert}
use ubass_rs.Clock.{retain_recent}
use ubass_rs.Packets.Scalars.{FecInfo, max_payload_length}
use ubass_rs.Fec.Batch.{track_base}

-- `struct FecBatchWindow`
pub record FecBatchWindow : Type 0 where
  pub batch_size : ℕ
  pub recovery_count : ℕ
  pub created_at : ℕ
  pub base_byte_pos : Option ℕ
  pub is_contiguous : Bool

-- `FecBatchWindow::new`
abbrev pub window_new : ℕ → ℕ → ℕ → FecBatchWindow
window_new now batch_size recovery_count = record {
  batch_size = batch_size;
  recovery_count = recovery_count;
  created_at = now;
  base_byte_pos = none;
  is_contiguous = true;
}

-- `FecBatchWindow::add_data`. The index is that of a batch, so the product fits a `u32`; the subtraction
-- is `saturating_sub`.
unfoldable pub window_add_data : FecBatchWindow → ℕ → ℕ → FecBatchWindow
unfolding track_base
window_add_data w index byte_range_start =
    let base =
      track_base w.base_byte_pos w.is_contiguous (byte_range_start - index * max_payload_length) in
    record w { base_byte_pos = base.0; is_contiguous = base.1 }

-- `contiguous_byte_range`
unfoldable pub contiguous_byte_range : FecBatchWindow → Option (ℕ × ℕ)
contiguous_byte_range w = if not w.is_contiguous then none else elim w.base_byte_pos [
  | none ↦ none
  | some base ↦ some (base, base + w.batch_size * max_payload_length)
]

-- `struct SessionFecState`
abbrev pub SessionFecState : Type 0
SessionFecState = HashMap ℕ FecBatchWindow

-- `add_data`
unfoldable pub fec_add_data : ℕ → SessionFecState → ℕ → FecInfo → ℕ → SessionFecState
unfolding or_insert insert window_add_data
fec_add_data now table batch_id fec_info byte_range_start =
    insert batch_id
      (window_add_data
        (or_insert batch_id (window_new now fec_info.batch_size fec_info.recovery_count) table)
        fec_info.batch_pos byte_range_start)
      table

-- `evict`
unfoldable pub evict : SessionFecState → ℕ → SessionFecState
unfolding remove
evict table batch_id = remove batch_id table

-- `.values().filter_map(FecBatchWindow::contiguous_byte_range)`
unfoldable pub active_ranges : SessionFecState → List (ℕ × ℕ)
unfolding contiguous_byte_range
active_ranges [] = []
active_ranges (x ∷ table) = elim (contiguous_byte_range x.1) [
  | none ↦ active_ranges table
  | some r ↦ r ∷ active_ranges table
]

-- `active_byte_ranges`
unfoldable pub active_byte_ranges :
    Bool → ℕ → SessionFecState → Outcome (SessionFecState × List (ℕ × ℕ))
unfolding retain_recent active_ranges
active_byte_ranges debug now table = do
  kept ← retain_recent (λ w. w.created_at) debug now 500 table
  ok (kept, active_ranges kept)
