-- ===== src/Fec/Xor/Batches.antt =====
-- A batch that is sent, and the other batches meanwhile.
use ubass_rs.Base.{
  ℕ, zero, suc, ◌+◌, ◌≤◌, ◌<◌, ◌≡◌, refl, sym, ap, ◌∙◌, arith, ◌==◌, ==_iff, lt→ltb, le→leb,
}
use ubass_rs.Base.{
  Bool, true, false, List, [], ◌∷◌, length, length-replicate, map, All, Option, none, some,
}
use ubass_rs.Base.Outcome.{ok}
use ubass_rs.Wire.Codec.{Bytes}
use ubass_rs.Packets.Kinds.{PacketType}
use ubass_rs.Packets.Flags.{no_options}
use ubass_rs.Packets.Scalars.{fec_info_new, debug_assert, current_version}
use ubass_rs.Packets.Streams.{ParityPacket}
use ubass_rs.Packets.New.Carriers.{parity_packet_new}
use ubass_rs.Fec.{FecPacket, xor_data, empty_data}
use ubass_rs.Fec.Batch.{OutboundBatch, outbound_new, outbound_add}
use ubass_rs.Fec.Batch.Algebra.{xor_data_assoc, xor_data_comm, xor_data_zero, length-xor_data}
use ubass_rs.Fec.Batch.Mask.{IsFull, parity_of}
use ubass_rs.Fec.Batch.LostPacket.{length-parity_of}
use ubass_rs.Base.Maps.{
  HashMap, pair_eq, nat_eq, get, remove, insert, or_insert, get-remove_self, or_insert-none,
  or_insert-insert,
}
use ubass_rs.Fec.Xor.{MapKey, key_of, parity_of_batch, sent, sent_all}

debug_assert-true : (debug : Bool) → debug_assert debug true ≡ ok tt
debug_assert-true true = refl
debug_assert-true false = refl

-- The packets of one batch of `n`.
abbrev pub IsOfBatch : MapKey → ℕ → FecPacket → Type 0
IsOfBatch k n p = (key_of p ≡ k) × ((p.fec_info.batch_size ≡ n) × (length p.fec_bytes ≡ 1374))

abbrev pub bytes_of : List FecPacket → List Bytes
bytes_of ps = map (λ p. p.fec_bytes) ps

info_made :
    (debug : Bool) (n : ℕ)
    → 0 < n
    → n ≤ 254
    → fec_info_new debug n 0 1 ≡ ok (record { batch_size = n; batch_pos = 0; recovery_count = 1 })
unfolding fec_info_new
info_made debug n h l =
    rw
      (
        fec_info_new,
        lt→ltb (n + 1) 256 (omega (arith, l)),
        debug_assert-true debug,
        lt→ltb 0 (n + 1) (omega arith),
        debug_assert-true debug,
        le→leb 1 n (omega (arith, h)),
        debug_assert-true debug,
      )
      refl

abbrev made_packet : ℕ → FecPacket → OutboundBatch → ParityPacket
made_packet now p b = record {
  version = current_version;
  opts = no_options;
  packet_type = PacketType.parity;
  batch_id = p.batch_id;
  fec_info = record { batch_size = p.fec_info.batch_size; batch_pos = 0; recovery_count = 1 };
  session_id = p.session_id;
  timestamp = now;
  payload = b.product;
}

packet_made :
    (debug : Bool) (now : ℕ) (p : FecPacket) (b : OutboundBatch)
    → length b.product ≡ 1374
    → parity_packet_new debug now no_options p.batch_id
        (record { batch_size = p.fec_info.batch_size; batch_pos = 0; recovery_count = 1 })
        p.session_id
        b.product
      ≡ ok (made_packet now p b)
unfolding parity_packet_new
packet_made debug now p b size =
    rw
      (
        parity_packet_new,
        debug_assert-true debug,
        le→leb (length b.product) 1374 (omega (arith, size)),
        debug_assert-true debug,
      )
      refl

parity_made :
    (debug : Bool) (now : ℕ) (p : FecPacket) (b : OutboundBatch)
    → 0 < p.fec_info.batch_size
    → p.fec_info.batch_size ≤ 254
    → length b.product ≡ 1374
    → (parity : ParityPacket) × (parity_of_batch debug now p b ≡ ok parity)
      × (parity.payload ≡ b.product)
      × (key_of p ≡ (parity.batch_id, parity.session_id))
unfolding parity_of_batch
parity_made debug now p b h l size = (
  made_packet now p b,
  rw (parity_of_batch, info_made debug p.fec_info.batch_size h l) (packet_made debug now p b size),
  refl,
  refl,
)

sent_last :
    (debug : Bool) (now : ℕ) (out : HashMap MapKey OutboundBatch) (p : FecPacket)
    (b : OutboundBatch)
    → or_insert (key_of p) (outbound_new p.fec_info.batch_size) out ≡ b
    → 0 < p.fec_info.batch_size
    → p.fec_info.batch_size ≤ 254
    → length b.product ≡ 1374
    → b.batch_size ≡ b.current_size + 1
    → (parity : ParityPacket) × (sent debug now out p
        ≡ ok (remove (key_of p) out, some (parity ∷ [])))
      × (parity.payload ≡ xor_data b.product p.fec_bytes)
      × (key_of p ≡ (parity.batch_id, parity.session_id))
unfolding sent outbound_add
sent_last debug now out p b entry h l size full =
    let (parity, eq, payload, key) =
      parity_made debug now p (outbound_add b p.fec_bytes).0 h l
        (length-xor_data b.product p.fec_bytes ∙ size) in
    (
      parity,
      rw (sent, entry, (==_iff b.batch_size (b.current_size + 1)).1 full, eq) refl,
      payload,
      key,
    )

sent_more :
    (debug : Bool) (now : ℕ) (out : HashMap MapKey OutboundBatch) (p : FecPacket)
    (b : OutboundBatch)
    → or_insert (key_of p) (outbound_new p.fec_info.batch_size) out ≡ b
    → b.current_size + 1 < b.batch_size
    → sent debug now out p ≡ ok (insert (key_of p) (outbound_add b p.fec_bytes).0 out, none)
unfolding sent outbound_add
sent_more debug now out p b entry h = rw (sent, entry, not_full) refl
  where
    not_full : (b.batch_size == b.current_size + 1) ≡ false
    not_full = ground arith

-- What is sent of a batch: nothing but at the end, and then its parity packet.
abbrev pub only_at_end : ℕ → ParityPacket → List (Option (List ParityPacket))
only_at_end zero parity = some (parity ∷ []) ∷ []
only_at_end (suc n) parity = none ∷ only_at_end n parity

batch-IsFull :
    (k : MapKey) (n : ℕ) (ps : List FecPacket) → All (IsOfBatch k n) ps → IsFull (bytes_of ps)
batch-IsFull k n [] of = tt
batch-IsFull k n (p ∷ ps) (h, of) = (h.1.1, batch-IsFull k n ps of)

batch_rest :
    (debug : Bool) (now : ℕ) (k : MapKey) (n : ℕ) (out : HashMap MapKey OutboundBatch)
    (p : FecPacket) (ps : List FecPacket) (b : OutboundBatch)
    → IsOfBatch k n p
    → All (IsOfBatch k n) ps
    → or_insert (key_of p) (outbound_new p.fec_info.batch_size) out ≡ b
    → b.batch_size ≡ n
    → b.current_size + length (p ∷ ps) ≡ n
    → n ≤ 254
    → length b.product ≡ 1374
    → (after : HashMap MapKey OutboundBatch) × (parity : ParityPacket) × (sent_all debug now out
          (p ∷ ps)
        ≡ ok (after, only_at_end (length ps) parity))
      × (parity.payload ≡ xor_data b.product (parity_of (bytes_of (p ∷ ps))))
      × ((parity.batch_id, parity.session_id) ≡ k)
      × (get k after ≡ none)
unfolding sent_all parity_of outbound_add
batch_rest debug now k n out p [] b (key, (bs, size)) of entry whole count small width =
    let (parity, eq, payload, k_eq) =
      sent_last debug now out p b entry (omega (arith, bs, count)) (omega (arith, bs, small)) width
        (omega (arith, whole, count)) in
    (
      remove (key_of p) out,
      parity,
      rw (eq) refl,
      payload ∙ ap (λ d. xor_data b.product d) (sym (xor_data_zero p.fec_bytes 1374)),
      sym k_eq ∙ key,
      ap (λ j. get j (remove (key_of p) out)) (sym key) ∙ get-remove_self (key_of p) out,
    )
batch_rest debug now k n out p (q ∷ ps) b (key, (bs, size)) ((q_key, (q_bs, q_size)), of) entry
      whole count small width =
    let more : OutboundBatch = (outbound_add b p.fec_bytes).0 in
    let (after, parity, eq, payload, k_eq, gone) =
      batch_rest debug now k n (insert (key_of p) more out) q ps more (q_key, (q_bs, q_size)) of
        (ap (λ j. or_insert j (outbound_new q.fec_info.batch_size) (insert (key_of p) more out))
            (q_key ∙ sym key)
          ∙ or_insert-insert (key_of p) (outbound_new q.fec_info.batch_size) more out)
        whole (omega (arith, count)) small (length-xor_data b.product p.fec_bytes ∙ width) in
    (
      after,
      parity,
      rw (sent_more debug now out p b entry (omega (arith, whole, count)), eq) refl,
      payload
          ∙ xor_data_assoc b.product p.fec_bytes (parity_of (bytes_of (q ∷ ps))) (width ∙ sym size)
              (size ∙ sym (length-parity_of (bytes_of (q ∷ ps)) (q_size, batch-IsFull k n ps of))),
      k_eq,
      gone,
    )

-- The data packets of one batch of `n` packets, `n` between 1 and 254, are sent one after the other when
-- the batch is not open: no call panics, only the last returns a packet, which is the parity packet of
-- this batch and session whose payload is the sum of the data of all packets, and the batch is not
-- open any more.
pub batch_sent :
    (debug : Bool) (now : ℕ) (k : MapKey) (out : HashMap MapKey OutboundBatch) (p : FecPacket)
    (ps : List FecPacket)
    → get k out ≡ none
    → All (IsOfBatch k (length (p ∷ ps))) (p ∷ ps)
    → length (p ∷ ps) ≤ 254
    → (after : HashMap MapKey OutboundBatch) × (parity : ParityPacket) × (sent_all debug now out
          (p ∷ ps)
        ≡ ok (after, only_at_end (length ps) parity))
      × (parity.payload ≡ parity_of (bytes_of (p ∷ ps)))
      × ((parity.batch_id, parity.session_id) ≡ k)
      × (get k after ≡ none)
unfolding outbound_new
batch_sent debug now k out p ps closed (h, of) small =
    let (after, parity, eq, payload, key, gone) =
      batch_rest debug now k (length (p ∷ ps)) out p ps (outbound_new p.fec_info.batch_size) h of
        fresh h.1.0 (omega arith) small (length-replicate {A = ℕ} 1374 0) in
    (
      after,
      parity,
      eq,
      payload
          ∙ (xor_data_comm empty_data (parity_of (bytes_of (p ∷ ps)))
                (length-replicate {A = ℕ} 1374 0 ∙ sym full)
              ∙ xor_data_zero (parity_of (bytes_of (p ∷ ps))) 1374),
      key,
      gone,
    )
  where
    full : length (parity_of (bytes_of (p ∷ ps))) ≡ 1374
    full = length-parity_of (bytes_of (p ∷ ps)) (batch-IsFull k (length (p ∷ ps)) (p ∷ ps) (h, of))

    fresh :
        or_insert (key_of p) (outbound_new p.fec_info.batch_size) out
        ≡ outbound_new p.fec_info.batch_size
    fresh =
        or_insert-none (key_of p) (outbound_new p.fec_info.batch_size) out
          (ap (λ j. get j out) h.0 ∙ closed)
