-- ===== src/Packets/Flags/Laws.antt =====
-- Option flags behave as a set of flags.
use ubass_rs.Base.{ℕ, ◌/◌, ◌%◌, ◌≡◌, refl, arith, Bool, true, false, ◌==◌}
use ubass_rs.Base.{if◌then◌else◌, min, max}
use ubass_rs.Base.Bits.{bit_and-one, bit_and-two, bit_and-four, bit_and-half, bit_and-mod_two}
use ubass_rs.Base.Bits.{bit_or-half, bit_or-mod_two}
use ubass_rs.Packets.Flags.{OptionFlags, flag_value, set_flag, unset_flag, contains_flag}
use Prim.Native.Nat.{bit_and, bit_or}

-- The three digits of an options word.
digits_or :
    (a b : ℕ)
    → (bit_or a b % 2 ≡ max (a % 2) (b % 2))
      × (bit_or a b / 2 % 2 ≡ max (a / 2 % 2) (b / 2 % 2))
      × (bit_or a b / 2 / 2 % 2 ≡ max (a / 2 / 2 % 2) (b / 2 / 2 % 2))
digits_or a b = (
  bit_or-mod_two a b,
  rw bit_or-half (bit_or-mod_two (a / 2) (b / 2)),
  rw (bit_or-half, bit_or-half) (bit_or-mod_two (a / 2 / 2) (b / 2 / 2)),
)

digits_and :
    (a b : ℕ)
    → (bit_and a b % 2 ≡ min (a % 2) (b % 2))
      × (bit_and a b / 2 % 2 ≡ min (a / 2 % 2) (b / 2 % 2))
      × (bit_and a b / 2 / 2 % 2 ≡ min (a / 2 / 2 % 2) (b / 2 / 2 % 2))
digits_and a b = (
  bit_and-mod_two a b,
  rw bit_and-half (bit_and-mod_two (a / 2) (b / 2)),
  rw (bit_and-half, bit_and-half) (bit_and-mod_two (a / 2 / 2) (b / 2 / 2)),
)

-- The digit that a flag stands for.
abbrev flag_digit : OptionFlags → ℕ → ℕ
flag_digit OptionFlags.require_ack o = o % 2
flag_digit OptionFlags.metadata o = o / 2 % 2
flag_digit OptionFlags.resend o = o / 2 / 2 % 2

contains_flag-digit : (o : ℕ) (f : OptionFlags) → contains_flag o f ≡ (flag_digit f o == 1)
unfolding contains_flag
contains_flag-digit o OptionFlags.require_ack = ground (arith, bit_and-one o)
contains_flag-digit o OptionFlags.metadata = ground (arith, bit_and-two o)
contains_flag-digit o OptionFlags.resend = ground (arith, bit_and-four o)

abbrev pub same_flag : OptionFlags → OptionFlags → Bool
same_flag f g = flag_value f == flag_value g

set_digit :
    (o : ℕ) (f g : OptionFlags)
    → flag_digit g (set_flag o f) ≡ (if same_flag f g then 1 else flag_digit g o)
unfolding set_flag
set_digit o OptionFlags.require_ack OptionFlags.require_ack = omega (arith, digits_or o 1)
set_digit o OptionFlags.require_ack OptionFlags.metadata = omega (arith, digits_or o 1)
set_digit o OptionFlags.require_ack OptionFlags.resend = omega (arith, digits_or o 1)
set_digit o OptionFlags.metadata OptionFlags.require_ack = omega (arith, digits_or o 2)
set_digit o OptionFlags.metadata OptionFlags.metadata = omega (arith, digits_or o 2)
set_digit o OptionFlags.metadata OptionFlags.resend = omega (arith, digits_or o 2)
set_digit o OptionFlags.resend OptionFlags.require_ack = omega (arith, digits_or o 4)
set_digit o OptionFlags.resend OptionFlags.metadata = omega (arith, digits_or o 4)
set_digit o OptionFlags.resend OptionFlags.resend = omega (arith, digits_or o 4)

unset_digit :
    (o : ℕ) (f g : OptionFlags)
    → flag_digit g (unset_flag o f) ≡ (if same_flag f g then 0 else flag_digit g o)
unfolding unset_flag
unset_digit o OptionFlags.require_ack OptionFlags.require_ack = omega (arith, digits_and o 65534)
unset_digit o OptionFlags.require_ack OptionFlags.metadata = omega (arith, digits_and o 65534)
unset_digit o OptionFlags.require_ack OptionFlags.resend = omega (arith, digits_and o 65534)
unset_digit o OptionFlags.metadata OptionFlags.require_ack = omega (arith, digits_and o 65533)
unset_digit o OptionFlags.metadata OptionFlags.metadata = omega (arith, digits_and o 65533)
unset_digit o OptionFlags.metadata OptionFlags.resend = omega (arith, digits_and o 65533)
unset_digit o OptionFlags.resend OptionFlags.require_ack = omega (arith, digits_and o 65531)
unset_digit o OptionFlags.resend OptionFlags.metadata = omega (arith, digits_and o 65531)
unset_digit o OptionFlags.resend OptionFlags.resend = omega (arith, digits_and o 65531)

-- For every options word and all flags `f` and `g`: after `set(f)` the word contains `f`, after
-- `unset(f)` it does not, and neither changes whether it contains another flag `g`.
pub flags_behave_as_set :
    (o : ℕ) (f g : OptionFlags)
    → (contains_flag (set_flag o f) g ≡ (if same_flag f g then true else contains_flag o g))
      × (contains_flag (unset_flag o f) g ≡ (if same_flag f g then false else contains_flag o g))
flags_behave_as_set o f g = (
  rw (contains_flag-digit, contains_flag-digit, set_digit) (push (same_flag f g) 1),
  rw (contains_flag-digit, contains_flag-digit, unset_digit) (push (same_flag f g) 0),
)
  where
    push :
        (b : Bool) (k : ℕ)
        → ((if b then k else flag_digit g o) == 1) ≡ (if b then (k == 1) else (flag_digit g o == 1))
    push true k = refl
    push false k = refl
