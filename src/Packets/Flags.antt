-- ===== src/Packets/Flags.antt =====
-- `Options(u16)` and `OptionFlags` of src/manager/packets.rs, with the methods that the `Flags` derive
-- macro of ubass_macros/src/lib.rs generates for them.
pub mod Laws
use ubass_rs.Base.{ℕ, ◌-◌, Bool, not, ◌==◌, List, [], ◌∷◌, if◌then◌else◌}
use Prim.Native.Nat.{bit_and, bit_or}

pub data OptionFlags : Type 0 where
  require_ack metadata resend : OptionFlags

-- `flag as u16`
abbrev pub flag_value : OptionFlags → ℕ
flag_value OptionFlags.require_ack = 1
flag_value OptionFlags.metadata = 2
flag_value OptionFlags.resend = 4

-- `OptionFlags::VARIANTS`
abbrev pub option_flags_variants : List OptionFlags
option_flags_variants = OptionFlags.require_ack ∷ OptionFlags.metadata ∷ OptionFlags.resend ∷ []

fold_flags : ℕ → List OptionFlags → ℕ
fold_flags acc [] = acc
fold_flags acc (f ∷ fs) = fold_flags (bit_or acc (flag_value f)) fs

unfoldable pub construct : List OptionFlags → ℕ
unfolding fold_flags
construct flags = fold_flags 0 flags

abbrev pub no_options : ℕ
no_options = 0

unfoldable pub set_flag : ℕ → OptionFlags → ℕ
set_flag o f = bit_or o (flag_value f)

-- `!flag` of a `u16` is its difference from 65535.
unfoldable pub unset_flag : ℕ → OptionFlags → ℕ
unset_flag o f = bit_and o (65535 - flag_value f)

unfoldable pub contains_flag : ℕ → OptionFlags → Bool
contains_flag o f = not (bit_and o (flag_value f) == 0)

filter_flags : ℕ → List OptionFlags → List OptionFlags
unfolding contains_flag
filter_flags o [] = []
filter_flags o (f ∷ fs) = if contains_flag o f then f ∷ filter_flags o fs else filter_flags o fs

unfoldable pub deconstruct : ℕ → List OptionFlags
unfolding filter_flags
deconstruct o = filter_flags o option_flags_variants

unfoldable pub valid_flag : ℕ → Bool
unfolding construct
valid_flag o = bit_and o (65535 - construct option_flags_variants) == 0
