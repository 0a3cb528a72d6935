-- ===== src/Packets/Kinds/Unread.antt =====
-- `ErrorType` of src/manager/packets.rs has two variants without a discriminant in a row.
use ubass_rs.Base.{
  ◌≡◌, refl, ◌∷◌, arith, Bool, true, false, ◌==◌, le→ltb, ltb, length, suc, if◌then◌else◌, Option,
  some, none,
}
use ubass_rs.Base.Outcome.{ok, err, ◌>>=◌}
use ubass_rs.Wire.Codec.{Bytes, to_be_bytes, from_be_bytes, get_front, copy_front}
use ubass_rs.Wire.Derive.{match_variant, enum_variants}
use ubass_rs.Wire.Laws.{uint-Lawful}
use ubass_rs.Packets.Kinds.{ErrorType, error_type, error_type_variants}

not_first :
    (one two : Bool)
    → ¬ (
        (if one
          then ok ErrorType.unexpected_packet
          else if two
          then ok ErrorType.incomprehensible_packet
          else if two
          then ok ErrorType.session_does_not_exist
          else err)
        ≡ ok ErrorType.session_does_not_exist)
not_first true two h = cc
not_first false true h = cc
not_first false false h = cc

not_read :
    (front : Option Bytes)
    → ¬ (
        (elim front [ none ↦ err | some bytes ↦ ok (from_be_bytes bytes) ]
          >>= (λ tmp. match_variant tmp (enum_variants error_type_variants)))
        ≡ ok ErrorType.session_does_not_exist)
unfolding match_variant enum_variants
not_read none h = cc
not_read (some bytes) h = not_first (from_be_bytes bytes == 1) (from_be_bytes bytes == 2) h

-- `SessionDoesNotExist` is written as a byte that is not read: no bytes at all are read as it, and
-- what it writes is refused, whatever follows it.
pub session_does_not_exist_unread :
    (rest bytes : Bytes)
    → (error_type.serialize ErrorType.session_does_not_exist (0 ∷ rest) ≡ ok (3 ∷ rest))
      × ((error_type.deserialize (3 ∷ rest) ≡ err)
          × (¬ (error_type.deserialize bytes ≡ ok ErrorType.session_does_not_exist)))
unfolding to_be_bytes from_be_bytes get_front copy_front match_variant enum_variants
session_does_not_exist_unread rest bytes = (
  rw fits refl,
  (rw ((uint-Lawful 1).reads 3 rest (omega arith) tt) refl, not_read (get_front 1 bytes)),
)
  where
    fits : ltb (suc (length rest)) 1 ≡ false
    fits = le→ltb (suc (length rest)) 1 (omega arith)
