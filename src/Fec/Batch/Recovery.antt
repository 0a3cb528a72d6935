-- ===== src/Fec/Batch/Recovery.antt =====
-- The one packet of a batch that is lost comes back from the others and the parity.
use ubass_rs.Base.{ℕ, ◌+◌, ◌-◌, ◌*◌, ◌≤◌, ◌<◌, ◌≡◌, ◌≢◌, refl, sym, ap, ◌∙◌, arith, ◌⊎◌, inl, inr}
use ubass_rs.Base.{
  Bool, true, false, ◌&&◌, ltb, lt→ltb, none, some, List, [], ◌∷◌, length, take, get_or, set,
  length-set, get_or-set_self, get_or-set_ne, if◌then◌else◌,
}
use ubass_rs.Base.Outcome.{Outcome, ok, ◌>>=◌}
use ubass_rs.Wire.Codec.{Bytes, get_front, slice_from, from_be_bytes}
use ubass_rs.Packets.Scalars.{byte_position}
use ubass_rs.Fec.{FecPacket, xor_data}
use ubass_rs.Fec.Batch.{InboundBatch, inbound_add, inbound_parity, inbound_receive, track_base}
use ubass_rs.Fec.Batch.Algebra.{xor_data_assoc, length-xor_data}
use ubass_rs.Fec.Batch.Mask.{
  IsFull, rest_of, parity_of, count_seen, length-rest_of, get_or-IsFull, rest_of-set, count_seen-le,
}

-- A packet of the batch whose data packets have the data `ds`: the parity packet, or one of them.
abbrev pub IsOf : List Bytes → FecPacket → Type 0
IsOf ds p =
    ((p.is_parity ≡ true) × (p.fec_bytes ≡ parity_of ds))
    ⊎ ((p.is_parity ≡ false)
        × ((p.fec_info.batch_pos < length ds) × (p.fec_bytes ≡ get_or ds p.fec_info.batch_pos [])))

pub record IsBatch (ds : List Bytes) (b : InboundBatch) : Type 0 where
  pub size : b.batch_size ≡ length ds
  pub mask_length : length b.batch_mask ≡ 256
  pub product_length : length b.product ≡ 1374
  pub counted : b.data_received ≡ count_seen b.batch_mask ds
  pub total : xor_data b.product (rest_of b.batch_mask ds) ≡ parity_of ds
  pub parity_right : (b.parity ≡ none) ⊎ (b.parity ≡ some (parity_of ds))

pub position_read :
    (d : Bytes) → length d ≡ 1374 → (n : ℕ) × (byte_position.deserialize (take 4 d) ≡ ok n)
unfolding get_front slice_from
position_read [] h = absurd (omega (arith, h))
position_read (a ∷ []) h = absurd (omega (arith, h))
position_read (a ∷ b ∷ []) h = absurd (omega (arith, h))
position_read (a ∷ b ∷ c ∷ []) h = absurd (omega (arith, h))
position_read (a ∷ b ∷ c ∷ e ∷ d) h = (from_be_bytes (a ∷ b ∷ c ∷ e ∷ []), refl)

-- `add` of a packet that is not in the batch yet.
added_new :
    (ds : List Bytes) (b : InboundBatch) (p : FecPacket)
    → IsFull ds
    → length ds ≤ 256
    → IsBatch ds b
    → p.fec_info.batch_pos < length ds
    → p.fec_bytes ≡ get_or ds p.fec_info.batch_pos []
    → get_or b.batch_mask p.fec_info.batch_pos true ≡ false
    → (after : InboundBatch) × (inbound_add b p ≡ ok (after, true))
      × (after.batch_mask ≡ set b.batch_mask p.fec_info.batch_pos true)
      × (after.parity ≡ b.parity)
      × IsBatch ds after
unfolding inbound_add
added_new ds b p full few batch inside same unset =
    let (rest, count) = rest_of-set b.batch_mask ds p.fec_info.batch_pos full inside unset in
    let (n, read) = position_read p.fec_bytes size in
    let base = track_base b.base_byte_pos b.is_contiguous (n - p.fec_info.batch_pos * 1368) in
    (
      record b {
        product = xor_data b.product p.fec_bytes;
        data_received = b.data_received + 1;
        batch_mask = set b.batch_mask p.fec_info.batch_pos true;
        base_byte_pos = base.0;
        is_contiguous = base.1;
      },
      rw
          (
            inbound_add,
            lt→ltb b.data_received b.batch_size (
                omega (
                  arith,
                  batch.counted,
                  batch.size,
                  count,
                  count_seen-le (set b.batch_mask p.fec_info.batch_pos true) ds,
                )),
            unset,
            read,
          )
          refl,
      refl,
      refl,
      record {
        size = batch.size;
        mask_length = length-set b.batch_mask p.fec_info.batch_pos true ∙ batch.mask_length;
        product_length = length-xor_data b.product p.fec_bytes ∙ batch.product_length;
        counted = omega (arith, batch.counted, count);
        total =
            ap (λ d. xor_data (xor_data b.product d) later) same
            ∙ (xor_data_assoc b.product (get_or ds p.fec_info.batch_pos []) later
                  (batch.product_length ∙ sym item)
                  (item ∙ sym (length-rest_of (set b.batch_mask p.fec_info.batch_pos true) ds full))
                ∙ (ap (λ r. xor_data b.product r) (sym rest) ∙ batch.total));
        parity_right = batch.parity_right;
      },
    )
  where
    size : length p.fec_bytes ≡ 1374
    size = ap (λ d. length d) same ∙ get_or-IsFull ds p.fec_info.batch_pos full inside

    item : length (get_or ds p.fec_info.batch_pos []) ≡ 1374
    item = get_or-IsFull ds p.fec_info.batch_pos full inside

    later : Bytes
    later = rest_of (set b.batch_mask p.fec_info.batch_pos true) ds

-- What a packet does to a batch: bits only get set, a data packet's bit is set then, and the parity is
-- there after a parity packet.
abbrev pub Took : List Bytes → InboundBatch → FecPacket → InboundBatch → Type 0
Took ds b p after =
    IsBatch ds after
    × (((j : ℕ)
          → j ≢ p.fec_info.batch_pos
          → get_or after.batch_mask j true ≡ get_or b.batch_mask j true)
        × ((p.is_parity ≡ true → after.batch_mask ≡ b.batch_mask)
            × ((p.is_parity ≡ false → get_or after.batch_mask p.fec_info.batch_pos true ≡ true)
                × ((p.is_parity ≡ true → after.parity ≡ some (parity_of ds))
                    × (b.parity ≡ some (parity_of ds) → after.parity ≡ some (parity_of ds))))))

receive_parity :
    (b after : InboundBatch) (p : FecPacket) (fresh : Bool)
    → p.is_parity ≡ true
    → inbound_parity b p.fec_bytes ≡ (after, fresh)
    → inbound_receive b p ≡ ok after
unfolding inbound_receive
receive_parity b after p fresh is eq =
    ap
      (λ c.
        if c
        then ok (inbound_parity b p.fec_bytes).0
        else (inbound_add b p >>= (λ added. ok added.0)))
      is
    ∙ ap (λ t. ok t.0) eq

receive_data :
    (b after : InboundBatch) (p : FecPacket) (fresh : Bool)
    → p.is_parity ≡ false
    → inbound_add b p ≡ ok (after, fresh)
    → inbound_receive b p ≡ ok after
unfolding inbound_receive
receive_data b after p fresh is eq =
    ap
      (λ c.
        if c
        then ok (inbound_parity b p.fec_bytes).0
        else (inbound_add b p >>= (λ added. ok added.0)))
      is
    ∙ ap (λ t. t >>= (λ added. ok added.0)) eq

parity_kept : (b : InboundBatch) (d e : Bytes) → b.parity ≡ some e → inbound_parity b d ≡ (b, false)
unfolding inbound_parity
parity_kept b d e h =
    ap
      (λ o. elim o as (λ _. InboundBatch × Bool) [
        | some _ ↦ (b, false)
        | none ↦ (record b { parity = some d }, true)
      ])
      h

parity_taken :
    (b : InboundBatch) (d : Bytes)
    → b.parity ≡ none
    → inbound_parity b d ≡ (record b { parity = some d }, true)
unfolding inbound_parity
parity_taken b d h =
    ap
      (λ o. elim o as (λ _. InboundBatch × Bool) [
        | some _ ↦ (b, false)
        | none ↦ (record b { parity = some d }, true)
      ])
      h

add_seen :
    (b : InboundBatch) (p : FecPacket)
    → get_or b.batch_mask p.fec_info.batch_pos true ≡ true
    → inbound_add b p ≡ ok (b, false)
unfolding inbound_add
add_seen b p seen = rw (inbound_add, seen) (and_false _ (ltb b.data_received b.batch_size))
  where
    and_false :
        (r : Outcome (InboundBatch × Bool)) (c : Bool)
        → (if c && false then r else ok (b, false)) ≡ ok (b, false)
    and_false r true = refl
    and_false r false = refl

Took-parity :
    (ds : List Bytes) (b : InboundBatch) (p : FecPacket)
    → IsBatch ds b
    → p.is_parity ≡ true
    → p.fec_bytes ≡ parity_of ds
    → (after : InboundBatch) × (inbound_receive b p ≡ ok after) × Took ds b p after
Took-parity ds b p batch is same = elim batch.parity_right [
  | inl fresh ↦ (
    record b { parity = some p.fec_bytes },
    receive_parity b (record b { parity = some p.fec_bytes }) p true is
        (parity_taken b p.fec_bytes fresh),
    (
      record {
        size = batch.size;
        mask_length = batch.mask_length;
        product_length = batch.product_length;
        counted = batch.counted;
        total = batch.total;
        parity_right = inr (ap (λ d. some d) same);
      },
      (
        λ j d. refl,
        (
          λ _. refl,
          (λ e. absurd (cc (e, is)), (λ _. ap (λ d. some d) same, λ h. absurd (cc (h, fresh)))),
        ),
      ),
    ),
  )
  | inr there ↦ (
    b,
    receive_parity b b p false is (parity_kept b p.fec_bytes (parity_of ds) there),
    (batch, (λ j d. refl, (λ _. refl, (λ e. absurd (cc (e, is)), (λ _. there, λ h. h))))),
  )
]

Took-data :
    (ds : List Bytes) (b : InboundBatch) (p : FecPacket)
    → IsFull ds
    → length ds ≤ 256
    → IsBatch ds b
    → p.is_parity ≡ false
    → p.fec_info.batch_pos < length ds
    → p.fec_bytes ≡ get_or ds p.fec_info.batch_pos []
    → (seen : Bool) → get_or b.batch_mask p.fec_info.batch_pos true ≡ seen
    → (after : InboundBatch) × (inbound_receive b p ≡ ok after) × Took ds b p after
Took-data ds b p full few batch is inside same true seen = (
  b,
  receive_data b b p false is (add_seen b p seen),
  (
    batch,
    (λ j d. refl, (λ e. absurd (cc (e, is)), (λ _. seen, (λ e. absurd (cc (e, is)), λ h. h)))),
  ),
)
Took-data ds b p full few batch is inside same false unset =
    let (after, eq, mask, parity, later) = added_new ds b p full few batch inside same unset in
    (
      after,
      receive_data b after p true is eq,
      (
        later,
        (
          λ j d.
              ap (λ m. get_or m j true) mask
              ∙ get_or-set_ne b.batch_mask p.fec_info.batch_pos j true true (λ e. d (sym e)),
          (
            λ e. absurd (cc (e, is)),
            (
              λ _.
                  ap (λ m. get_or m p.fec_info.batch_pos true) mask
                  ∙ get_or-set_self b.batch_mask p.fec_info.batch_pos true true
                      (omega (arith, inside, few, batch.mask_length)),
              (λ e. absurd (cc (e, is)), λ h. parity ∙ h),
            ),
          ),
        ),
      ),
    )

-- A packet of the batch arrives.
pub packet-Took :
    (ds : List Bytes) (b : InboundBatch) (p : FecPacket)
    → IsFull ds
    → length ds ≤ 256
    → IsBatch ds b
    → IsOf ds p
    → (after : InboundBatch) × (inbound_receive b p ≡ ok after) × Took ds b p after
packet-Took ds b p full few batch (inl (is, same)) = Took-parity ds b p batch is same
packet-Took ds b p full few batch (inr (is, (inside, same))) =
    Took-data ds b p full few batch is inside same (get_or b.batch_mask p.fec_info.batch_pos true)
      refl
