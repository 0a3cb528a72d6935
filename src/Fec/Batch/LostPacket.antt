-- ===== src/Fec/Batch/LostPacket.antt =====
-- A whole batch at both ends: the parity that the sender makes, and the recovery at the receiver.
use ubass_rs.Base.{
  ℕ, zero, suc, ◌+◌, ◌-◌, ◌≤◌, ◌<◌, ◌≡◌, ◌≢◌, refl, sym, ap, ◌∙◌, arith, ◌⊎◌, inl, inr,
}
use ubass_rs.Base.{
  zero_add, Bool, true, false, ◌==◌, some, List, [], ◌∷◌, length, get_or, set, All, replicate,
  length-replicate, get_or-set_self, get_or-set_ne, get_or-default, Bool-cases, ==_iff, ==_false,
}
use ubass_rs.Base.Outcome.{ok}
use ubass_rs.Wire.Codec.{Bytes}
use ubass_rs.Fec.{FecPacket, empty_data, xor_data}
use ubass_rs.Fec.Batch.{
  InboundBatch, inbound_new, inbound_recover, lacks_one, receive_packets, OutboundBatch,
  outbound_new, outbound_add, send_data,
}
use ubass_rs.Fec.Batch.Algebra.{
  xor_data_comm, xor_data_assoc, xor_data_cancel, xor_data_zero, length-xor_data,
}
use ubass_rs.Fec.Batch.Mask.{
  IsFull, rest_of, parity_of, rest_of-none, length-rest_of, get_or-IsFull, rest_of-set, rest_of-all,
}
use ubass_rs.Fec.Batch.Recovery.{IsOf, IsBatch, Took, packet-Took}

-- Data packet `j` is among the packets; the parity packet is.
abbrev pub HasData : List FecPacket → ℕ → Type 0
HasData [] j = ⊥
HasData (p ∷ ps) j = ((p.is_parity ≡ false) × (j ≡ p.fec_info.batch_pos)) ⊎ HasData ps j

abbrev pub HasParity : List FecPacket → Type 0
HasParity [] = ⊥
HasParity (p ∷ ps) = (p.is_parity ≡ true) ⊎ HasParity ps

abbrev bit : InboundBatch → ℕ → Bool
bit b j = get_or b.batch_mask j true

-- A bit stays as it is, unless it is that of a data packet that arrives.
bit_kept :
    (ds : List Bytes) (b : InboundBatch) (p : FecPacket) (after : InboundBatch) (j : ℕ)
    → Took ds b p after
    → ((p.is_parity ≡ false) × (j ≡ p.fec_info.batch_pos)) ⊎ (bit after j ≡ bit b j)
bit_kept ds b p after j took = elim (Bool-cases (j == p.fec_info.batch_pos)) [
  | inl e ↦ elim (Bool-cases p.is_parity) [
    | inl is ↦ inr (ap (λ m. get_or m j true) (took.1.1.0 is))
    | inr is ↦ inl (is, (==_iff j p.fec_info.batch_pos).0 e)
  ]
  | inr e ↦ inr (took.1.0 j (==_false j p.fec_info.batch_pos e))
]

bit_set :
    (ds : List Bytes) (b : InboundBatch) (p : FecPacket) (after : InboundBatch) (j : ℕ)
    → Took ds b p after
    → (p.is_parity ≡ false) × (j ≡ p.fec_info.batch_pos)
    → bit after j ≡ true
bit_set ds b p after j took (is, e) = ap (λ k. get_or after.batch_mask k true) e ∙ took.1.1.1.0 is

bit_stays_set :
    (ds : List Bytes) (b : InboundBatch) (p : FecPacket) (after : InboundBatch) (j : ℕ)
    → Took ds b p after
    → bit b j ≡ true
    → bit after j ≡ true
bit_stays_set ds b p after j took h = elim (bit_kept ds b p after j took) [
  | inl set_ ↦ bit_set ds b p after j took set_
  | inr same ↦ same ∙ h
]

-- What is known of a batch after some packets.
abbrev AfterPackets : List Bytes → InboundBatch → List FecPacket → InboundBatch → Type 0
AfterPackets ds b ps after =
    IsBatch ds after
    × (((j : ℕ) → HasData ps j → bit after j ≡ true)
        × (((j : ℕ) → bit b j ≡ true → bit after j ≡ true)
            × (((j : ℕ) → ¬ HasData ps j → bit after j ≡ bit b j)
                × ((HasParity ps → after.parity ≡ some (parity_of ds))
                    × (b.parity ≡ some (parity_of ds) → after.parity ≡ some (parity_of ds))))))

packets-Took :
    (ds : List Bytes) (b : InboundBatch) (ps : List FecPacket)
    → IsFull ds
    → length ds ≤ 256
    → IsBatch ds b
    → All (IsOf ds) ps
    → (after : InboundBatch) × (receive_packets b ps ≡ ok after) × AfterPackets ds b ps after
unfolding receive_packets
packets-Took ds b [] full few batch of =
    (b, refl, (batch, (λ j h. elim h [ ], (λ j h. h, (λ j h. refl, (λ h. elim h [ ], λ h. h))))))
packets-Took ds b (p ∷ ps) full few batch of =
    let (mid, eq, took) = packet-Took ds b p full few batch of.0 in
    let (after, eq_after, rest) = packets-Took ds mid ps full few took.0 of.1 in
    (
      after,
      rw (eq) eq_after,
      (
        rest.0,
        (
          λ j h. elim h [
            | inl here ↦ rest.1.1.0 j (bit_set ds b p mid j took here)
            | inr later ↦ rest.1.0 j later
          ],
          (
            λ j h. rest.1.1.0 j (bit_stays_set ds b p mid j took h),
            (
              λ j h. rest.1.1.1.0 j (λ later. h (inr later)) ∙ elim (bit_kept ds b p mid j took) [
                | inl here ↦ absurd (h (inl here))
                | inr same ↦ same
              ],
              (
                λ h. elim h [
                  | inl here ↦ rest.1.1.1.1.1 (took.1.1.1.1.0 here)
                  | inr later ↦ rest.1.1.1.1.0 later
                ],
                λ h. rest.1.1.1.1.1 (took.1.1.1.1.1 h),
              ),
            ),
          ),
        ),
      ),
    )

bit_unset : (n j : ℕ) → j < n → get_or (replicate n false) j true ≡ false
bit_unset zero j h = absurd (omega (arith, h))
bit_unset (suc n) zero h = refl
bit_unset (suc n) (suc j) h = bit_unset n j (omega (arith, h))

new-IsBatch :
    (now : ℕ) (ds : List Bytes)
    → IsFull ds
    → length ds ≤ 256
    → IsBatch ds (inbound_new now (length ds))
unfolding inbound_new
new-IsBatch now ds full few = record {
  size = refl;
  mask_length = length-replicate 256 false;
  product_length = length-replicate {A = ℕ} 1374 0;
  counted = sym (rest_of-none 256 ds few).1;
  total =
      xor_data_comm empty_data (rest_of (replicate 256 false) ds)
        (length-replicate {A = ℕ} 1374 0 ∙ sym (length-rest_of (replicate 256 false) ds full))
      ∙ (xor_data_zero (rest_of (replicate 256 false) ds) 1374 ∙ (rest_of-none 256 ds few).0);
  parity_right = inl refl;
}

-- A batch of which all packets but `m` have been seen.
one_left :
    (ds : List Bytes) (b : InboundBatch) (m : ℕ)
    → IsFull ds
    → length ds ≤ 256
    → IsBatch ds b
    → m < length ds
    → bit b m ≡ false
    → ((j : ℕ) → j < length ds → j ≢ m → bit b j ≡ true)
    → (xor_data b.product (get_or ds m []) ≡ parity_of ds) × (b.data_received + 1 ≡ length ds)
one_left ds b m full few batch h unset seen =
    let (rest, count) = rest_of-set b.batch_mask ds m full h unset in
    let (none_left, counted) = rest_of-all (set b.batch_mask m true) ds all_set in
    (
      ap (λ r. xor_data b.product r)
            (sym (
              rest
              ∙ (ap (λ r. xor_data (get_or ds m []) r) none_left
                  ∙ xor_data_zero (get_or ds m []) 1374)))
          ∙ batch.total,
      omega (arith, batch.counted, count, counted),
    )
  where
    all_set : (j : ℕ) → j < length ds → get_or (set b.batch_mask m true) j false ≡ true
    all_set j l = elim (Bool-cases (m == j)) [
      | inl e ↦
          ap (λ k. get_or (set b.batch_mask m true) k false) (sym ((==_iff m j).0 e))
          ∙ get_or-set_self b.batch_mask m true false (omega (arith, h, few, batch.mask_length))
      | inr e ↦
          get_or-set_ne b.batch_mask m j true false (==_false m j e)
          ∙ (get_or-default j b.batch_mask false true (omega (arith, l, few, batch.mask_length))
              ∙ seen j l (λ d. ==_false m j e (sym d)))
    ]

fresh_bit : (now n m : ℕ) → m < 256 → bit (inbound_new now n) m ≡ false
unfolding inbound_new
fresh_bit now n m h = bit_unset 256 m h

lacks_lem :
    (debug : Bool) (b : InboundBatch)
    → 0 < b.batch_size
    → b.data_received + 1 ≡ b.batch_size
    → lacks_one debug b ≡ ok true
unfolding lacks_one
lacks_lem debug b h e = rw (lacks_one, not_zero, one_below) refl
  where
    not_zero : (b.batch_size == 0) ≡ false
    not_zero = ground arith

    one_below : (b.data_received == b.batch_size - 1) ≡ true
    one_below = (==_iff b.data_received (b.batch_size - 1)).1 (omega (arith, e))

-- Of a batch of at most 255 data packets, all but packet `m` arrive, and the parity packet, in any order
-- and any number of times: the batch then lacks one packet, in a build with debug assertions or
-- without, nothing panics, and `recover` gives the data of packet `m`.
pub lost_packet_recovered :
    (debug : Bool) (now : ℕ) (ds : List Bytes) (m : ℕ) (ps : List FecPacket)
    → IsFull ds
    → length ds ≤ 255
    → m < length ds
    → All (IsOf ds) ps
    → ¬ HasData ps m
    → ((j : ℕ) → j < length ds → j ≢ m → HasData ps j)
    → HasParity ps
    → (after : InboundBatch) × (receive_packets (inbound_new now (length ds)) ps ≡ ok after)
      × (lacks_one debug after ≡ ok true)
      × (inbound_recover debug after ≡ ok (some (get_or ds m [])))
unfolding inbound_recover lacks_one
lost_packet_recovered debug now ds m ps full few h of lost others parity =
    let (after, eq, known) =
      packets-Took ds (inbound_new now (length ds)) ps full (omega (arith, few))
        (new-IsBatch now ds full (omega (arith, few))) of in
    let (sum, count) =
      one_left ds after m full (omega (arith, few)) known.0 h
        (known.1.1.1.0 m lost ∙ fresh_bit now (length ds) m (omega (arith, h, few)))
        (λ j l d. known.1.0 j (others j l d)) in
    let lacks : lacks_one debug after ≡ ok true =
      lacks_lem debug after (omega (arith, known.0.size, h)) (omega (arith, known.0.size, count)) in
    (
      after,
      eq,
      lacks,
      rw (inbound_recover, lacks, known.1.1.1.1.0 parity)
          (ap (λ d. ok (some d))
            (ap (λ r. xor_data after.product r) (sym sum)
              ∙ xor_data_cancel after.product (get_or ds m [])
                  (known.0.product_length ∙ sym (get_or-IsFull ds m full h)))),
    )

pub length-parity_of : (ds : List Bytes) → IsFull ds → length (parity_of ds) ≡ 1374
unfolding parity_of
length-parity_of [] full = length-replicate {A = ℕ} 1374 0
length-parity_of (d ∷ ds) full = length-xor_data d (parity_of ds) ∙ full.0

send_product :
    (b : OutboundBatch) (ready : Bool) (ds : List Bytes)
    → IsFull ds
    → length b.product ≡ 1374
    → (send_data b ready ds).0.product ≡ xor_data b.product (parity_of ds)
unfolding send_data outbound_add parity_of
send_product b ready [] full h = sym (xor_data_zero b.product 1374)
send_product b ready (d ∷ ds) full h =
    send_product (outbound_add b d).0 (outbound_add b d).1 ds full.1
      (length-xor_data b.product d ∙ h)
    ∙ xor_data_assoc b.product d (parity_of ds) (h ∙ sym full.0)
        (full.0 ∙ sym (length-parity_of ds full.1))

send_flag :
    (b : OutboundBatch) (ready : Bool) (d : Bytes) (ds : List Bytes)
    → (send_data b ready (d ∷ ds)).1 ≡ (b.batch_size == b.current_size + length (d ∷ ds))
unfolding send_data outbound_add
send_flag b ready d [] = refl
send_flag b ready d (e ∷ ds) =
    send_flag (outbound_add b d).0 (outbound_add b d).1 e ds
    ∙ ap (λ k. b.batch_size == k) (one_more b.current_size (length (e ∷ ds)))
  where
    one_more : (c k : ℕ) → c + 1 + k ≡ c + suc k
    one_more c k = omega arith

-- The `add`s of a batch of `n` at the sender: the sum is that of all data, and the last `add` tells that
-- the batch is full exactly when it is the `n`-th.
pub parity_sent :
    (n : ℕ) (d : Bytes) (ds : List Bytes)
    → IsFull (d ∷ ds)
    → ((send_data (outbound_new n) false (d ∷ ds)).0.product ≡ parity_of (d ∷ ds))
      × ((send_data (outbound_new n) false (d ∷ ds)).1 ≡ (n == length (d ∷ ds)))
unfolding outbound_new
parity_sent n d ds full = (
  send_product (outbound_new n) false (d ∷ ds) full (length-replicate {A = ℕ} 1374 0)
      ∙ (xor_data_comm empty_data (parity_of (d ∷ ds))
            (length-replicate {A = ℕ} 1374 0 ∙ sym (length-parity_of (d ∷ ds) full))
          ∙ xor_data_zero (parity_of (d ∷ ds)) 1374),
  send_flag (outbound_new n) false d ds ∙ ap (λ k. n == k) (zero_add (length (d ∷ ds))),
)
