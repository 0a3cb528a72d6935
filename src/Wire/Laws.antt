-- ===== src/Wire/Laws.antt =====
-- What a correct implementation of `Serialize` promises, and the primitives that keep the promise.
use ubass_rs.Base.{
  ℕ, zero, suc, ◌+◌, ◌-◌, ◌*◌, ◌/◌, ◌%◌, ◌^◌, ◌≤◌, ◌<◌, ◌≡◌, refl, sym, ap, ◌∙◌, arith,
}
use ubass_rs.Base.{Bool, true, false, some, [], replicate, length-replicate, ◌++◌, append-nil}
use ubass_rs.Base.{le→ltb, length, drop, length-append}
use ubass_rs.Base.{take-append_left}
use ubass_rs.Base.Outcome.{ok}
use ubass_rs.Wire.Codec.{Bytes, Serialize, uint, byte_array, byte_vec, to_be_bytes}
use ubass_rs.Wire.Codec.{from_be_bytes, copy_front, get_front, Reserved, reserved, reserved_bytes}
use native.Mathlib.Nat.{one-le-pow, pow-suc, mod-lt, mod-eq_of_lt}
use native.Mathlib.Nat.{div-add-mod, mul-add-mod_self_left}

-- A type whose encoding ends by itself can stand in front of other bytes (`tail` is false); one that
-- takes all bytes there are can only stand last (`tail` is true).
abbrev pub Room : Bool → ℕ → ℕ → Type 0
Room true need have = need ≡ have
Room false need have = need ≤ have

abbrev pub Rest : Bool → Bytes → Type 0
Rest true rest = rest ≡ []
Rest false rest = Unit {0}

-- `encode` describes the bytes of a valid value with no buffer in sight.
pub record Lawful (tail : Bool) {A : Type 0} (c : Serialize A) (Valid : A → Type 0)
    (encode : A → Bytes) : Type 0 where
  pub size : (a : A) → Valid a → length (encode a) ≡ c.sized a
  pub writes :
      (a : A) (buf : Bytes)
      → Valid a
      → Room tail (c.sized a) (length buf)
      → c.serialize a buf ≡ ok (encode a ++ drop (c.sized a) buf)
  pub reads :
      (a : A) (rest : Bytes) → Valid a → Rest tail rest → c.deserialize (encode a ++ rest) ≡ ok a

pub Room-sub :
    (tail : Bool) (front need have : ℕ)
    → Room tail (front + need) have
    → Room tail need (have - front)
Room-sub true front need have h = omega arith
Room-sub false front need have h = omega arith

pub Room-le : (tail : Bool) (n m : ℕ) → Room tail n m → n ≤ m
Room-le true n m h = omega arith
Room-le false n m h = h

pub length-to_be_bytes : (k x : ℕ) → length (to_be_bytes k x) ≡ k
unfolding to_be_bytes
length-to_be_bytes zero x = refl
length-to_be_bytes (suc k) x = ap suc (length-to_be_bytes k x)

-- One more byte in front of `p = 256 ^ k`.
mod_split : (x p : ℕ) → 0 < p → x / p % 256 * p + x % p ≡ x % (p * 256)
mod_split x p h = sym (
    ap (λ t. t % (p * 256)) parts
    ∙ mul-add-mod_self_left (p * 256) (x / p / 256) (x / p % 256 * p + x % p)
    ∙ mod-eq_of_lt small)
  where
    parts : x ≡ p * 256 * (x / p / 256) + (x / p % 256 * p + x % p)
    parts = omega (arith, div-add-mod x p, ap (λ (t : ℕ). p * t) (div-add-mod (x / p) 256))

    small : x / p % 256 * p + x % p < p * 256
    small = grind (arith, mod-lt x h, mod-lt (x / p) {m = 256} (omega arith))

from_be_bytes-mod : (k x : ℕ) → from_be_bytes (to_be_bytes k x) ≡ x % 256 ^ k
unfolding from_be_bytes to_be_bytes
from_be_bytes-mod zero x = omega arith
from_be_bytes-mod (suc k) x =
    rw (length-to_be_bytes, from_be_bytes-mod k x, pow-suc 256 k)
      (mod_split x (256 ^ k) (one-le-pow k 256 (omega arith)))

-- `from_be_bytes` reads back what `to_be_bytes` wrote, for a number that fits `k` bytes.
pub from_be_bytes-to_be_bytes : (k x : ℕ) → x < 256 ^ k → from_be_bytes (to_be_bytes k x) ≡ x
from_be_bytes-to_be_bytes k x h = from_be_bytes-mod k x ∙ mod-eq_of_lt h

pub copy_front_lem :
    (bytes buf : Bytes)
    → length bytes ≤ length buf
    → copy_front bytes buf ≡ ok (bytes ++ drop (length bytes) buf)
unfolding copy_front
copy_front_lem bytes buf h = rw (le→ltb (length buf) (length bytes) h)

get_front_lem :
    (front rest : Bytes) (n : ℕ) → n ≡ length front → get_front n (front ++ rest) ≡ some front
unfolding get_front
get_front_lem front rest n e =
    rw (le→ltb (length (front ++ rest)) n (omega (arith, length-append front rest)))
      (ap some (take-append_left front rest n e))

-- Integers, at every width.
pub uint-Lawful : (k : ℕ) → Lawful false (uint k) (λ x. x < 256 ^ k) (to_be_bytes k)
uint-Lawful k = record {
  size = λ x h. length-to_be_bytes k x;
  writes = λ x buf h room.
      rw (le→ltb (length buf) k room)
        (copy_front_lem (to_be_bytes k x) buf (rw length-to_be_bytes room) ∙ rw length-to_be_bytes);
  reads = λ x rest h _.
      rw (get_front_lem (to_be_bytes k x) rest k (sym (length-to_be_bytes k x)), uint)
        (ap ok (from_be_bytes-to_be_bytes k x h));
}

-- `[u8; N]`
pub byte_array-Lawful : (n : ℕ) → Lawful false (byte_array n) (λ v. length v ≡ n) (λ v. v)
byte_array-Lawful n = record {
  size = λ v h. h;
  writes = λ v buf h room.
      rw (le→ltb (length buf) n room)
        (copy_front_lem v buf (omega arith) ∙ ap (λ k. ok (v ++ drop k buf)) h);
  reads = λ v rest h _. rw (get_front_lem v rest n (sym h), byte_array);
}

-- `Vec<u8>` takes every byte that is left.
pub byte_vec-Lawful : Lawful true byte_vec (λ v. Unit {0}) (λ v. v)
byte_vec-Lawful = record {
  size = λ v h. refl;
  writes = λ v buf h room.
      rw (le→ltb (length buf) (length v) (omega arith)) (copy_front_lem v buf (omega arith));
  reads = λ v rest h e. ap ok (rw e (append-nil v));
}

Reserved-eta : {n : ℕ} (r : Reserved n) → reserved ≡ r
Reserved-eta reserved = refl

pub reserved_bytes-Lawful :
    (n : ℕ) → Lawful false (reserved_bytes n) (λ r. Unit {0}) (λ r. replicate n 0)
reserved_bytes-Lawful n = record {
  size = λ r h. length-replicate n 0;
  writes = λ r buf h room.
      rw (le→ltb (length buf) n room)
        (copy_front_lem (replicate n 0) buf (rw length-replicate room) ∙ rw length-replicate);
  reads = λ r rest h _.
      rw
        (le→ltb (length (replicate n 0 ++ rest)) n
          (omega (arith, length-append (replicate n 0) rest, length-replicate {A = ℕ} n 0)))
        (ap ok (Reserved-eta r));
}

-- The same implementation under another description of its values and bytes.
pub Lawful-rename :
    {tail : Bool} {A : Type 0} {c : Serialize A} {Valid Valid' : A → Type 0}
    {encode encode' : A → Bytes}
    → ((a : A) → Valid' a → Valid a × (encode' a ≡ encode a))
    → Lawful tail c Valid encode
    → Lawful tail c Valid' encode'
Lawful-rename same law = record {
  size = λ a h. rw (same a h).1 (law.size a (same a h).0);
  writes = λ a buf h room. rw (same a h).1 (law.writes a buf (same a h).0 room);
  reads = λ a rest h r. rw (same a h).1 (law.reads a rest (same a h).0 r);
}

-- What can stand in front of other bytes can stand last.
pub Lawful-last :
    {A : Type 0} {c : Serialize A} {Valid : A → Type 0} {encode : A → Bytes}
    → Lawful false c Valid encode
    → Lawful true c Valid encode
Lawful-last law = record {
  size = law.size;
  writes = λ a buf h room. law.writes a buf h (omega arith);
  reads = λ a rest h r. law.reads a rest h tt;
}
