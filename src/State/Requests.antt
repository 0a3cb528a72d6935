-- ===== src/State/Requests.antt =====
-- `StreamingFrom` of src/manager/state.rs: which chunks a receiver asks for again. `now` is the time of
-- the call.
pub mod Positions
pub mod Reserve
pub mod Sweep
pub mod Total
pub mod Wanted
use ubass_rs.Base.{
  ℕ, zero, suc, ◌+◌, ◌-◌, ◌*◌, ◌/◌, ◌%◌, ◌^◌, leb, ltb, Bool, true, false, not, ◌&&◌, ◌||◌,
  if◌then◌else◌, List, [], ◌∷◌, ◌++◌, Option, none, some,
}
use ubass_rs.Base.Outcome.{Outcome, ok, ◌>>=◌}
use ubass_rs.Base.Maps.{HashMap, nat_eq, remove, insert, contains_key}
use ubass_rs.Clock.{retain_recent}
use ubass_rs.Packets.Scalars.{ByteRange, max_payload_length}
use ubass_rs.Buffers.Areas.{Area}
use ubass_rs.Buffers.Writeable.{WriteableBuffer, position_occupied}
use ubass_rs.Retransmit.{coalesce_byte_positions}

-- `PENDING_TTL_MS`, which is `PACKET_DISCARD_TIME_MS`
abbrev pub pending_ttl_ms : ℕ
pending_ttl_ms = 500

-- `struct StreamingFrom`
pub record StreamingFrom : Type 0 where
  pub buffer : WriteableBuffer
  pub pending : HashMap ℕ ℕ

-- `StreamingFrom::new`
unfoldable pub streaming_from_new : WriteableBuffer → StreamingFrom
streaming_from_new buffer = record { buffer = buffer; pending = [] }

-- `.is_none_or(identity)`
abbrev pub is_none_or : Option Bool → Bool
is_none_or none = true
is_none_or (some b) = b

-- The `filter` of `reserve_for_request`: the accepted positions and the pending chunks.
unfoldable pub reserve_loop :
    WriteableBuffer → ℕ → HashMap ℕ ℕ → List ℕ → Outcome (List ℕ × HashMap ℕ ℕ)
unfolding contains_key insert
reserve_loop b now pending [] = ok ([], pending)
reserve_loop b now pending (pos ∷ positions) = do
  occupied ← position_occupied b pos
  let idx = pos / max_payload_length
  let refused = is_none_or occupied || contains_key idx pending
  rest ← reserve_loop b now (if refused then pending else insert idx now pending) positions
  ok (if refused then rest.0 else pos ∷ rest.0, rest.1)

-- `reserve_for_request`
unfoldable pub reserve_for_request :
    Bool → ℕ → StreamingFrom → List ℕ → Outcome (StreamingFrom × List ℕ)
unfolding retain_recent reserve_loop
reserve_for_request debug now sf positions = do
  kept ← retain_recent (λ ts. ts) debug now pending_ttl_ms sf.pending
  accepted ← reserve_loop sf.buffer now kept positions
  ok (record sf { pending = accepted.1 }, accepted.0)

-- `clear_pending`
unfoldable pub clear_pending : StreamingFrom → ℕ → StreamingFrom
unfolding remove
clear_pending sf position = record sf {
  pending = remove (position / max_payload_length) sf.pending;
}

-- `(start..start + n).map(|i| BytePosition((i * MAX_PAYLOAD_LENGTH) as u32))`
unfoldable pub chunk_positions : ℕ → ℕ → List ℕ
chunk_positions start zero = []
chunk_positions start (suc n) =
    (start * max_payload_length % 2 ^ 32) ∷ chunk_positions (start + 1) n

-- The `flat_map` over the areas.
unfoldable pub area_positions : List Area → List ℕ
unfolding chunk_positions
area_positions [] = []
area_positions (a ∷ areas) = chunk_positions a.start (a.end - a.start) ++ area_positions areas

-- `fec_active.iter().any(|r| r.contains(&p))`
unfoldable pub is_active : List (ℕ × ℕ) → ℕ → Bool
is_active [] p = false
is_active (r ∷ rs) p = (leb r.0 p && ltb p r.1) || is_active rs p

unfoldable pub drop_active : List (ℕ × ℕ) → List ℕ → List ℕ
unfolding is_active
drop_active fec_active [] = []
drop_active fec_active (p ∷ ps) =
    let rest = drop_active fec_active ps in if is_active fec_active p then rest else p ∷ rest

-- What `score_policy_pick` and `finalize_sweep_pick` do with the areas that they take.
unfoldable pub pick_areas :
    Bool → ℕ → List (ℕ × ℕ) → StreamingFrom → List Area → Outcome (StreamingFrom × List ByteRange)
pick_areas debug now fec_active sf areas = do
  accepted ← reserve_for_request debug now sf (drop_active fec_active (area_positions areas))
  ranges ← coalesce_byte_positions debug accepted.1
  ok (accepted.0, ranges)

-- `finalize_sweep_pick`
unfoldable pub finalize_sweep_pick :
    Bool → ℕ → List (ℕ × ℕ) → StreamingFrom → Outcome (StreamingFrom × List ByteRange)
unfolding pick_areas
finalize_sweep_pick debug now fec_active sf =
    pick_areas debug now fec_active sf sf.buffer.invalid_areas

-- `score_policy_pick`. What `requestable_areas` picks is an argument, since its scores are floating
-- point.
unfoldable pub score_policy_pick :
    (WriteableBuffer → List Area)
    → Bool
    → ℕ
    → List (ℕ × ℕ)
    → StreamingFrom
    → Outcome (StreamingFrom × List ByteRange)
unfolding pick_areas
score_policy_pick requestable_areas debug now fec_active sf =
    pick_areas debug now fec_active sf (requestable_areas sf.buffer)
