-- ===== src/State/Batches/Active.antt =====
-- The times of the batches that a session expects, and which ranges are active.
use ubass_rs.Base.{ℕ, ◌≤◌, ◌≡◌, refl, arith, Bool, List, Option-cases, inl, inr}
use ubass_rs.Base.Outcome.{ok}
use ubass_rs.Base.Maps.{nat_eq, get, or_insert, All-get}
use ubass_rs.Clock.{recent, ArePast, ArePast-insert, retain_recent-recent}
use ubass_rs.Packets.Scalars.{FecInfo}
use ubass_rs.State.Batches.{
  window_new, window_add_data, SessionFecState, fec_add_data, active_ranges, active_byte_ranges,
}

-- No batch is of the future.
abbrev pub ArePastBatches : ℕ → SessionFecState → Type 0
ArePastBatches now table = ArePast (λ w. w.created_at) now table

-- The ranges of the batches of the last 500 ms.
abbrev pub active_now : ℕ → SessionFecState → List (ℕ × ℕ)
active_now now table = active_ranges (recent (λ w. w.created_at) now 500 table)

batch_stamp :
    (now batch_id size count : ℕ) (table : SessionFecState)
    → ArePastBatches now table
    → (or_insert batch_id (window_new now size count) table).created_at ≤ now
unfolding or_insert
batch_stamp now batch_id size count table past = elim (Option-cases (get batch_id table)) [
  | inl new ↦ rw (or_insert, new) (omega arith)
  | inr (w, old) ↦ rw (or_insert, old) (All-get (λ v. v.created_at ≤ now) batch_id w table past old)
]

pub fec_add_data-ArePastBatches :
    (now : ℕ) (table : SessionFecState) (batch_id : ℕ) (info : FecInfo) (start : ℕ)
    → ArePastBatches now table
    → ArePastBatches now (fec_add_data now table batch_id info start)
unfolding fec_add_data window_add_data
fec_add_data-ArePastBatches now table batch_id info start past =
    ArePast-insert (λ w. w.created_at) now batch_id
      (window_add_data
        (or_insert batch_id (window_new now info.batch_size info.recovery_count) table)
        info.batch_pos start)
      table (batch_stamp now batch_id info.batch_size info.recovery_count table past) past

pub active_byte_ranges-active_now :
    (debug : Bool) (now : ℕ) (table : SessionFecState)
    → ArePastBatches now table
    → active_byte_ranges debug now table
      ≡ ok (recent (λ w. w.created_at) now 500 table, active_now now table)
unfolding active_byte_ranges
active_byte_ranges-active_now debug now table past =
    rw (active_byte_ranges, retain_recent-recent (λ w. w.created_at) debug now 500 table past) refl
