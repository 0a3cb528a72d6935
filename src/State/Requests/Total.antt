-- ===== src/State/Requests/Total.antt =====
-- `score_policy_pick` and `finalize_sweep_pick` return for whatever areas are picked.
use ubass_rs.Base.{ℕ, ◌+◌, ◌≡◌, refl, arith, Bool, List, All-imp}
use ubass_rs.Base.Outcome.{ok}
use ubass_rs.Base.Maps.{HashMap}
use ubass_rs.Clock.{ArePast, ArePast-recent}
use ubass_rs.Packets.Scalars.{ByteRange}
use ubass_rs.Buffers.Areas.{Area}
use ubass_rs.Buffers.Writeable.{buffer_length}
use ubass_rs.Buffers.Writeable.Head.{IsAddressable}
use ubass_rs.Retransmit.Total.{coalesce_byte_positions_total}
use ubass_rs.State.Requests.{StreamingFrom, area_positions, drop_active, pick_areas}
use ubass_rs.State.Requests.Reserve.{IsStreaming, reserve_for_request-Reserves}

pub pick_areas_total :
    (debug : Bool) (now : ℕ) (fec_active : List (ℕ × ℕ)) (sf : StreamingFrom) (areas : List Area)
    → IsStreaming now sf
    → IsAddressable sf.buffer
    → (after : HashMap ℕ ℕ) × (ranges : List ByteRange) × (pick_areas debug now fec_active sf areas
        ≡ ok (record sf { pending = after }, ranges))
      × ArePast (λ ts. ts) now after
unfolding pick_areas
pick_areas_total debug now fec_active sf areas s small =
    let (accepted, after, eq, r) =
      reserve_for_request-Reserves debug now sf (drop_active fec_active (area_positions areas)) s in
    let (ranges, made) =
      coalesce_byte_positions_total debug (buffer_length sf.buffer + 1368) accepted small
        (All-imp (λ p u. omega (arith, u.0)) accepted r.unfilled) in
    (
      after,
      ranges,
      rw (pick_areas, eq, made) refl,
      r.past (ArePast-recent (λ ts. ts) now 500 sf.pending s.past),
    )
