-- ===== src/State/Streams/Kept.antt =====
-- What `received_data_packet` does, and the invariant of a stream that it keeps.
use ubass_rs.Base.{
  ℕ, ◌≡◌, refl, sym, subst, ap, ◌∙◌, arith, inl, inr, Bool, true, List, [], Bool-cases,
}
use ubass_rs.Base.Outcome.{ok}
use ubass_rs.Base.Maps.{HashMap, nat_eq}
use ubass_rs.Clock.{recent, ArePast, ArePast-recent}
use ubass_rs.Packets.Scalars.{ByteRange}
use ubass_rs.Buffers.Areas.{Area}
use ubass_rs.Buffers.Writeable.{WriteableBuffer, head_at_end}
use ubass_rs.Buffers.Writeable.Head.{IsWriteable, IsAddressable}
use ubass_rs.Retransmit.{split_all}
use ubass_rs.Retransmit.Ranges.{ranges_at}
use ubass_rs.State.Requests.{StreamingFrom, finalize_sweep_pick, score_policy_pick}
use ubass_rs.State.Requests.Positions.{missing_chunks}
use ubass_rs.State.Requests.Sweep.{is_expected, ok_fields, finalize_sweep_pick-missing_chunks}
use ubass_rs.State.Requests.Total.{pick_areas_total}
use ubass_rs.State.Batches.{SessionFecState}
use ubass_rs.State.Batches.Active.{ArePastBatches, active_now, active_byte_ranges-active_now}
use ubass_rs.State.Streams.Received.{pick_missing}

-- The buffer is well-formed and addressable, and no request and no batch is of the future.
pub record IsReceiving (now : ℕ) (sf : StreamingFrom) (fec : SessionFecState) : Type 0 where
  pub buffer : IsWriteable sf.buffer
  pub addressable : IsAddressable sf.buffer
  pub past : ArePast (λ ts. ts) now sf.pending
  pub batches : ArePastBatches now fec

-- What is picked at the end of the stream.
abbrev pub swept : ℕ → SessionFecState → StreamingFrom → List ByteRange
swept now fec sf =
    ranges_at (missing_chunks (is_expected now (active_now now fec) sf.pending) 0 sf.buffer.map)

-- The sweep leaves the pending requests in the past.
swept_past :
    (debug : Bool) (now : ℕ) (fec_active : List (ℕ × ℕ)) (sf : StreamingFrom)
    → IsWriteable sf.buffer
    → IsAddressable sf.buffer
    → ArePast (λ ts. ts) now sf.pending
    → (after : HashMap ℕ ℕ) × (ranges : List ByteRange) × (finalize_sweep_pick debug now fec_active
          sf
        ≡ ok (record sf { pending = after }, ranges))
      × (split_all debug ranges
          ≡ ok (ranges_at (missing_chunks (is_expected now fec_active sf.pending) 0 sf.buffer.map)))
      × ArePast (λ ts. ts) now after
unfolding finalize_sweep_pick
swept_past debug now fec_active sf w small past =
    let (after, ranges, eq, split, marked) =
      finalize_sweep_pick-missing_chunks debug now fec_active sf w small past in
    let (after2, ranges2, eq2, kept) =
      pick_areas_total debug now fec_active sf sf.buffer.invalid_areas
        (record { chunks = w.chunks; past = past }) small in
    (
      after,
      ranges,
      eq,
      split,
      subst (λ a. ArePast (λ ts. ts) now a)
          (ap (λ s. s.pending)
            (ok_fields (record sf { pending = after2 }, ranges2)
              (record sf { pending = after }, ranges) (sym eq2 ∙ eq)))
          kept,
    )

-- Picking what is missing does not panic and keeps the invariant; at the end it is the sweep.
pub pick_missing_lem :
    (requestable_areas : WriteableBuffer → List Area) (debug : Bool) (now : ℕ) (batch_end : Bool)
    (fec : SessionFecState) (sf : StreamingFrom)
    → IsReceiving now sf fec
    → (fec' : SessionFecState) × (after : HashMap ℕ ℕ) × (ranges : List ByteRange) × (pick_missing
          requestable_areas debug now batch_end fec sf
        ≡ ok (fec', record sf { pending = after }, ranges))
      × IsReceiving now (record sf { pending = after }) fec'
      × (head_at_end sf.buffer ≡ true → split_all debug ranges ≡ ok (swept now fec sf))
unfolding pick_missing score_policy_pick
pick_missing_lem requestable_areas debug now batch_end fec sf r =
    let active = active_byte_ranges-active_now debug now fec r.batches in
    let kept = recent (λ w. w.created_at) now 500 fec in
    let later : ArePastBatches now kept =
      ArePast-recent (λ w. w.created_at) now 500 fec r.batches in
    elim (Bool-cases (head_at_end sf.buffer)) [
      | inl at_end ↦
          let (after, ranges, eq, split, past) =
            swept_past debug now (active_now now fec) sf r.buffer r.addressable r.past in
          (
            kept,
            after,
            ranges,
            rw (pick_missing, at_end, active, eq) refl,
            record { buffer = r.buffer; addressable = r.addressable; past = past; batches = later },
            λ h. split,
          )
      | inr before ↦ elim (Bool-cases batch_end) [
        | inl last ↦
            let (after, ranges, eq, past) =
              pick_areas_total debug now (active_now now fec) sf (requestable_areas sf.buffer)
                (record { chunks = r.buffer.chunks; past = r.past }) r.addressable in
            (
              kept,
              after,
              ranges,
              rw (pick_missing, before, last, active, score_policy_pick, eq) refl,
              record {
                buffer = r.buffer;
                addressable = r.addressable;
                past = past;
                batches = later;
              },
              λ h. ground arith,
            )
        | inr inside ↦
            (fec, sf.pending, [], rw (pick_missing, before, inside) refl, r, λ h. ground arith)
      ]
    ]
