-- ===== src/Fec/Payload.antt =====
-- The data that a packet puts into the error correction, and the packet that comes out of them
-- (src/packet_processor/fec/mod.rs).
use ubass_rs.Base.{ℕ, suc, ◌+◌, ◌-◌, ◌%◌, ◌^◌, ◌≤◌, ◌<◌, ◌≡◌, refl, sym, ap, ◌∙◌, arith}
use ubass_rs.Base.{
  add_zero, Bool, true, false, [], ◌++◌, length, take, drop, replicate, length-replicate,
  length-append, append_assoc, append-nil, drop-all, length-drop, drop-drop, take-replicate,
  drop-replicate, take-append, drop-append, le→ltb, if◌then◌else◌,
}
use ubass_rs.Base.Outcome.{ok}
use ubass_rs.Wire.Codec.{Bytes, uint, serialize_at, slice_from, to_be_bytes}
use ubass_rs.Wire.Derive.{ignore_err}
use ubass_rs.Wire.Laws.{uint-Lawful, copy_front_lem, length-to_be_bytes}
use ubass_rs.Wire.Structs.{serialize_at_lem}
use ubass_rs.Packets.Scalars.{byte_position, payload_field}
use ubass_rs.Packets.Scalars.Laws.{number-Lawful}
use ubass_rs.Packets.Streams.{DataPacket}
use ubass_rs.Fec.{empty_data, assert_payload, fec_data, recovered_packet}

-- Behind the position, what the payload leaves of the other bytes.
abbrev body : Bool → Bytes → ℕ → Bytes
body true v rest = v ++ replicate rest 0
body false v rest = replicate (length v + rest) 0

positioned : ℕ → Bytes
positioned pos = to_be_bytes 4 pos ++ replicate 1370 0

position_written :
    (pos : ℕ) → pos < 2 ^ 32 → byte_position.serialize pos empty_data ≡ ok (positioned pos)
unfolding positioned
position_written pos h =
    (number-Lawful 4).writes pos empty_data h (omega (arith, length-replicate {A = ℕ} 1374 0))

payload_at :
    (v buf : Bytes)
    → 4 + length v ≤ length buf
    → serialize_at payload_field v 4 buf ≡ ok (take 4 buf ++ (v ++ drop (4 + length v) buf))
unfolding serialize_at slice_from
payload_at v buf h =
    rw
      (
        serialize_at,
        le→ltb (length buf) 4 (omega (arith, h)),
        le→ltb (length (drop 4 buf)) (0 + length v) (omega (arith, h, length-drop 4 buf)),
        le→ltb (length (drop 4 buf)) 0 (omega arith),
        le→ltb (length (drop 4 buf)) (length v) (omega (arith, h, length-drop 4 buf)),
        copy_front_lem v (drop 4 buf) (omega (arith, h, length-drop 4 buf)),
        drop-drop,
      )
      refl

length-positioned : (pos : ℕ) → length (positioned pos) ≡ 1374
unfolding positioned to_be_bytes
length-positioned pos = ap (λ n. suc (suc (suc (suc n)))) (length-replicate {A = ℕ} 1370 0)

zeros_behind :
    (v : Bytes) (pos rest : ℕ)
    → length v + rest ≡ 1370
    → drop (4 + length v) (positioned pos) ≡ replicate rest 0
unfolding positioned to_be_bytes
zeros_behind v pos rest h =
    drop-append (length v) (to_be_bytes 4 pos) (replicate 1370 0)
    ∙ (ap (λ n. drop (length v) (replicate n 0)) (sym h) ∙ drop-replicate (length v) rest 0)

payload_written :
    (debug : Bool) (v : Bytes) (pos rest : ℕ)
    → length v + rest ≡ 1370
    → assert_payload debug v (positioned pos) ≡ ok (to_be_bytes 4 pos ++ body debug v rest)
unfolding assert_payload positioned to_be_bytes
payload_written true v pos rest h =
    rw
      (
        assert_payload,
        payload_at v (positioned pos) (omega (arith, h, length-positioned pos)),
        zeros_behind v pos rest h,
      )
      refl
payload_written false v pos rest h = ap (λ n. ok (to_be_bytes 4 pos ++ replicate n 0)) (sym h)

length-body : (debug : Bool) (v : Bytes) (rest : ℕ) → length (body debug v rest) ≡ length v + rest
length-body true v rest =
    omega (arith, length-append v (replicate rest 0), length-replicate {A = ℕ} rest 0)
length-body false v rest = length-replicate {A = ℕ} (length v + rest) 0

take-body :
    (debug : Bool) (v : Bytes) (k rest : ℕ)
    → length v + k ≡ 1368
    → rest ≡ k + 2
    → take 1368 (body debug v rest) ≡ body debug v k
take-body true v k rest h e =
    ap (λ n. take n (body true v rest)) (sym h)
    ∙ (take-append k v (replicate rest 0)
        ∙ ap (λ r. v ++ r) (ap (λ n. take k (replicate n 0)) e ∙ take-replicate k 2 0))
take-body false v k rest h e =
    ap (λ n. take 1368 (replicate n 0)) whole
    ∙ (take-replicate 1368 2 0 ∙ ap (λ n. replicate n 0) (sym h))
  where
    whole : length v + rest ≡ 1368 + 2
    whole = omega (arith, h, e)

length_written :
    (debug : Bool) (v : Bytes) (pos rest : ℕ)
    → length v + rest ≡ 1370
    → length (to_be_bytes 4 pos ++ body debug v rest) ≡ 1374
length_written debug v pos rest h = omega (
  arith,
  h,
  length-append (to_be_bytes 4 pos) (body debug v rest),
  length-to_be_bytes 4 pos,
  length-body debug v rest,
)

-- The data of a packet: position, payload with zeros behind it - or nothing but zeros -, and length.
fec_data_bytes : Bool → DataPacket → Bytes
fec_data_bytes debug p =
    to_be_bytes 4 p.byte_range_start
    ++ (body debug p.payload (1368 - length p.payload) ++ to_be_bytes 2 (length p.payload))

fec_data_written :
    (debug : Bool) (p : DataPacket)
    → p.byte_range_start < 2 ^ 32
    → length p.payload ≤ 1368
    → fec_data debug p ≡ ok (fec_data_bytes debug p)
unfolding fec_data ignore_err fec_data_bytes
fec_data_written debug p h l =
    rw
      (
        fec_data,
        position_written p.byte_range_start h,
        payload_written debug p.payload p.byte_range_start (1370 - length p.payload)
            (omega (arith, l)),
        small,
        serialize_at_lem (uint-Lawful 2) (length p.payload) 1372
            (to_be_bytes 4 p.byte_range_start ++ body debug p.payload (1370 - length p.payload))
            (omega (arith, l)) (omega (arith, size, length-to_be_bytes 2 (length p.payload))),
      )
      (ap (λ bytes. ok bytes) joined)
  where
    size :
        length (to_be_bytes 4 p.byte_range_start ++ body debug p.payload (1370 - length p.payload))
        ≡ 1374
    size =
        length_written debug p.payload p.byte_range_start (1370 - length p.payload)
          (omega (arith, l))

    small : length p.payload % 2 ^ 16 ≡ length p.payload
    small = omega (arith, l)

    front :
        take 1372
          (to_be_bytes 4 p.byte_range_start ++ body debug p.payload (1370 - length p.payload))
        ≡ to_be_bytes 4 p.byte_range_start ++ body debug p.payload (1368 - length p.payload)
    front =
        ap
          (λ n.
            take n
              (to_be_bytes 4 p.byte_range_start ++ body debug p.payload (1370 - length p.payload)))
          (sym (ap (λ n. n + 1368) (length-to_be_bytes 4 p.byte_range_start)))
        ∙ (take-append 1368 (to_be_bytes 4 p.byte_range_start)
              (body debug p.payload (1370 - length p.payload))
            ∙ ap (λ b. to_be_bytes 4 p.byte_range_start ++ b)
                (take-body debug p.payload (1368 - length p.payload) (1370 - length p.payload)
                  (omega (arith, l)) (omega (arith, l))))

    joined :
        take 1372
            (to_be_bytes 4 p.byte_range_start ++ body debug p.payload (1370 - length p.payload))
          ++ (to_be_bytes 2 (length p.payload)
              ++ drop (1372 + length (to_be_bytes 2 (length p.payload))) (
                  to_be_bytes 4 p.byte_range_start
                  ++ body debug p.payload (1370 - length p.payload)))
        ≡ fec_data_bytes debug p
    joined =
        rw
          (
            front,
            drop-all (1372 + length (to_be_bytes 2 (length p.payload)))
                (to_be_bytes 4 p.byte_range_start ++ body debug p.payload (1370 - length p.payload))
                (omega (arith, size, length-to_be_bytes 2 (length p.payload))),
            append-nil,
          )
          (append_assoc (to_be_bytes 4 p.byte_range_start)
            (body debug p.payload (1368 - length p.payload)) (to_be_bytes 2 (length p.payload)))

take_four : (pos : ℕ) (rest : Bytes) → take 4 (to_be_bytes 4 pos ++ rest) ≡ to_be_bytes 4 pos ++ []
unfolding to_be_bytes
take_four pos rest = refl

drop_body :
    (pos : ℕ) (m rest : Bytes)
    → length m ≡ 1368
    → drop 1372 (to_be_bytes 4 pos ++ (m ++ rest)) ≡ rest ++ []
unfolding to_be_bytes
drop_body pos m rest size =
    ap (λ k. drop k (m ++ rest)) (sym (add_zero (length m) ∙ size))
    ∙ (drop-append 0 m rest ∙ sym (append-nil rest))

take_body :
    (pos : ℕ) (m rest : Bytes)
    → length m ≡ 1368
    → drop 4 (take 1372 (to_be_bytes 4 pos ++ (m ++ rest))) ≡ m
unfolding to_be_bytes
take_body pos m rest size =
    ap (λ k. take k (m ++ rest)) (sym (add_zero (length m) ∙ size))
    ∙ (take-append 0 m rest ∙ append-nil m)

-- What comes out of the data of the error correction.
recovered_from :
    (pos n : ℕ) (m : Bytes)
    → pos < 2 ^ 32
    → n < 2 ^ 16
    → length m ≡ 1368
    → recovered_packet (to_be_bytes 4 pos ++ (m ++ to_be_bytes 2 n))
      ≡ ok (record { byte_range_start = pos; payload = take n m })
unfolding recovered_packet
recovered_from pos n m h l size =
    rw (recovered_packet, position_part, total, length_part, payload_part) refl
  where
    data_ : Bytes
    data_ = to_be_bytes 4 pos ++ (m ++ to_be_bytes 2 n)

    total : length data_ - 2 ≡ 1372
    total = omega (
      arith,
      size,
      length-append (to_be_bytes 4 pos) (m ++ to_be_bytes 2 n),
      length-append m (to_be_bytes 2 n),
      length-to_be_bytes 4 pos,
      length-to_be_bytes 2 n,
    )

    position_part : byte_position.deserialize (take 4 data_) ≡ ok pos
    position_part = rw (take_four pos (m ++ to_be_bytes 2 n)) ((number-Lawful 4).reads pos [] h tt)

    length_part : (uint 2).deserialize (drop 1372 data_) ≡ ok n
    length_part = rw (drop_body pos m (to_be_bytes 2 n) size) ((uint-Lawful 2).reads n [] l tt)

    payload_part : drop 4 (take 1372 data_) ≡ m
    payload_part = take_body pos m (to_be_bytes 2 n) size

take_payload :
    (debug : Bool) (v : Bytes) (k : ℕ)
    → take (length v) (body debug v k) ≡ (if debug then v else replicate (length v) 0)
take_payload true v k =
    ap (λ n. take n (v ++ replicate k 0)) (sym (add_zero (length v)))
    ∙ (take-append 0 v (replicate k 0) ∙ append-nil v)
take_payload false v k = take-replicate (length v) k 0

-- A data packet whose position fits 32 bits and whose payload has at most 1368 bytes goes into the error
-- correction without a panic, as data of the fixed size. What is recovered from these data is the
-- position and the payload of the packet in a build with debug assertions; in a build without them it is
-- the position and as many zeros as the payload has bytes.
pub fec_data-recovered_packet :
    (debug : Bool) (p : DataPacket)
    → p.byte_range_start < 2 ^ 32
    → length p.payload ≤ 1368
    → (bytes : Bytes) × (fec_data debug p ≡ ok bytes)
      × (length bytes ≡ 1374)
      × (recovered_packet bytes
          ≡ ok (record {
            byte_range_start = p.byte_range_start;
            payload = if debug then p.payload else replicate (length p.payload) 0;
          }))
unfolding fec_data_bytes
fec_data-recovered_packet debug p h l = (
  fec_data_bytes debug p,
  fec_data_written debug p h l,
  omega (
    arith,
    l,
    length-append (to_be_bytes 4 p.byte_range_start)
        (body debug p.payload (1368 - length p.payload) ++ to_be_bytes 2 (length p.payload)),
    length-append (body debug p.payload (1368 - length p.payload))
        (to_be_bytes 2 (length p.payload)),
    length-to_be_bytes 4 p.byte_range_start,
    length-to_be_bytes 2 (length p.payload),
    length-body debug p.payload (1368 - length p.payload),
  ),
  recovered_from p.byte_range_start (length p.payload)
        (body debug p.payload (1368 - length p.payload)) h (omega (arith, l))
        (omega (arith, l, length-body debug p.payload (1368 - length p.payload)))
      ∙ ap (λ v. ok (record { byte_range_start = p.byte_range_start; payload = v }))
          (take_payload debug p.payload (1368 - length p.payload)),
)
