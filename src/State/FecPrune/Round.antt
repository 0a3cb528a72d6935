-- ===== src/State/FecPrune/Round.antt =====
-- What `FecPruneTask` asks of a session that receives.
use ubass_rs.Base.{
  ℕ, ◌+◌, ◌/◌, ◌^◌, ◌<◌, ◌≡◌, refl, ap, ◌∙◌, arith, Bool, true, List, [], ◌∷◌, some, All, All-imp,
}
use ubass_rs.Base.Outcome.{ok}
use ubass_rs.Base.Maps.{HashMap, nat_eq, get}
use ubass_rs.Clock.{ArePast, ArePast-recent}
use ubass_rs.Packets.Streams.{RetransmitPacket}
use ubass_rs.Packets.New.Acked.{RequiresAck}
use ubass_rs.Buffers.Writeable.Head.{IsAddressable}
use ubass_rs.Retransmit.{split_all}
use ubass_rs.Retransmit.Ranges.{ranges_at, coalesce_byte_positions-split}
use ubass_rs.State.Requests.{StreamingFrom}
use ubass_rs.State.Requests.Reserve.{IsStreaming}
use ubass_rs.State.Requests.Wanted.{
  AreSpaced, wanted, reserve_for_request-wanted, open_positions-AreSpaced, AreSpaced-IsIncreasing,
}
use ubass_rs.State.Dispatch.{carried, dispatch_retransmit_request-carried}
use ubass_rs.State.FecPrune.{ask_again, dispatch_accepted}

dispatch_accepted_lem :
    (debug : Bool) (now session : ℕ) (ps : List ℕ)
    → AreSpaced ps
    → All (λ p. p + 1368 < 2 ^ 32) ps
    → (packets : List RetransmitPacket) × (dispatch_accepted debug now session ps ≡ ok packets)
      × (split_all debug (carried packets) ≡ ok (ranges_at ps))
      × All (λ p. (p.session_id ≡ session) × RequiresAck true p.opts) packets
unfolding dispatch_accepted split_all carried
dispatch_accepted_lem debug now session [] spaced fits = ([], refl, refl, tt)
dispatch_accepted_lem debug now session (p ∷ ps) spaced (fits, later) =
    let (ranges, made, split) =
      coalesce_byte_positions-split debug p ps fits (AreSpaced-IsIncreasing p ps spaced later) in
    let (packets, sent, same, facts) =
      dispatch_retransmit_request-carried debug now session ranges in
    (
      packets,
      rw (dispatch_accepted, made) sent,
      ap (λ l. split_all debug l) same ∙ split,
      All-imp (λ p h. (h.0, h.1.1.1)) packets facts,
    )

-- Positions in increasing order, at least a chunk apart, whose stream receives into an addressable
-- buffer, with no request of the future: `ask_again` does not panic. The packets carry ranges that,
-- split into chunks, are exactly the chunks at those of the positions that are in the buffer, are not
-- filled and were not asked for in the last 500 ms, in order; all of these are then pending since `now`.
-- Only what is pending changes, to requests that are past, and the packets are of the session and ask
-- to be acknowledged.
pub ask_again_lem :
    (debug : Bool) (now session : ℕ) (positions : List ℕ) (sf : StreamingFrom)
    → IsStreaming now sf
    → IsAddressable sf.buffer
    → AreSpaced positions
    → (after : HashMap ℕ ℕ) × (packets : List RetransmitPacket) × (ask_again debug now session
          positions sf
        ≡ ok (record sf { pending = after }, packets))
      × (split_all debug (carried packets) ≡ ok (ranges_at (wanted now sf positions)))
      × All (λ p. get (p / 1368) after ≡ some now) (wanted now sf positions)
      × ArePast (λ ts. ts) now after
      × All (λ p. (p.session_id ≡ session) × RequiresAck true p.opts) packets
unfolding ask_again
ask_again_lem debug now session positions sf s small spaced =
    let (after, eq, r) = reserve_for_request-wanted debug now sf positions s spaced in
    let (packets, sent, split, facts) =
      dispatch_accepted_lem debug now session (wanted now sf positions)
        (open_positions-AreSpaced sf.buffer _ positions spaced)
        (All-imp (λ p u. omega (arith, u.0, small)) (wanted now sf positions) r.unfilled) in
    (
      after,
      packets,
      rw (ask_again, eq, sent) refl,
      split,
      r.marked,
      r.past (ArePast-recent (λ ts. ts) now 500 sf.pending s.past),
      facts,
    )
