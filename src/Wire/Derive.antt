-- ===== src/Wire/Derive.antt =====
-- The derive macros of ubass_macros/src/lib.rs, as functions of what the macro reads: the fields of
-- a struct in order, or the variants of an enum with the discriminants that the source writes.
use ubass_rs.Base.{ℕ, ◌+◌, List, [], ◌∷◌, Option, none, some}
use ubass_rs.Base.{◌==◌, ltb, if◌then◌else◌, length, replicate}
use ubass_rs.Base.Outcome.{Outcome, ok, err, panic, ◌>>=◌}
use ubass_rs.Wire.Codec.{Bytes, Serialize, uint, slice_from, serialize_at}

-- The statements that the macros generate for a row of fields. An offset is where the row begins.
pub record Fields (A : Type 0) : Type 0 where
  -- `self.f.serialize(&mut buf[(size so far)..])?;` for each field
  pub write : A → ℕ → Bytes → Outcome Bytes
  -- `let f = T::deserialize(&bytes[offset..])?; offset += f.sized();` for each field
  pub read : ℕ → Bytes → Outcome A
  -- the sum of the fields' sizes, on top of an initial one
  pub total : A → ℕ → ℕ
  -- `_ = self.f.serialize(&mut buf[(size so far)..]);` for each field but `payload`
  pub write_headers : A → ℕ → Bytes → Outcome Bytes
  pub header_total : A → ℕ → ℕ

-- An ignored `Err` leaves the buffer as it was.
unfoldable pub ignore_err : Bytes → Outcome Bytes → Outcome Bytes
ignore_err buf (ok buf') = ok buf'
ignore_err buf err = ok buf
ignore_err buf panic = panic

-- The last field of a struct.
abbrev pub last : {A : Type 0} → Serialize A → Fields A
last c = record {
  write = λ a offset buf. serialize_at c a offset buf;
  read = λ offset bytes. do
    rest ← slice_from offset bytes
    c.deserialize rest;
  total = λ a acc. acc + c.sized a;
  write_headers = λ a offset buf. ignore_err buf (serialize_at c a offset buf);
  header_total = λ a acc. acc + c.sized a;
}

-- The last field of a struct, if its name is `payload`: the headers leave it out.
abbrev pub payload : {A : Type 0} → Serialize A → Fields A
payload c = record (last c) { write_headers = λ a offset buf. ok buf; header_total = λ a acc. acc }

-- A field, and the fields behind it.
infixr 20 ◌⨟◌
abbrev pub ◌⨟◌ : {A B : Type 0} → Serialize A → Fields B → Fields (A × B)
c ⨟ fs = record {
  write = λ p offset buf. do
    buf' ← serialize_at c p.0 offset buf
    fs.write p.1 (offset + c.sized p.0) buf';
  read = λ offset bytes. do
    rest ← slice_from offset bytes
    a ← c.deserialize rest
    b ← fs.read (offset + c.sized a) bytes
    ok (a, b);
  total = λ p acc. fs.total p.1 (acc + c.sized p.0);
  write_headers = λ p offset buf. do
    buf' ← ignore_err buf (serialize_at c p.0 offset buf)
    fs.write_headers p.1 (offset + c.sized p.0) buf';
  header_total = λ p acc. fs.header_total p.1 (acc + c.sized p.0);
}

-- `struct_serialization`: `split` reads the fields off a struct, and `build` is its literal.
abbrev pub derive_struct : {A R : Type 0} → Fields A → (R → A) → (A → R) → Serialize R
derive_struct fs split build = record {
  serialize =
      λ r buf. if ltb (length buf) (fs.total (split r) 0) then err else fs.write (split r) 0 buf;
  deserialize = λ bytes. do
    a ← fs.read 0 bytes
    ok (build a);
  sized = λ r. fs.total (split r) 0;
}

-- `get_headers_impl`
unfoldable pub derive_headers : {A R : Type 0} → Fields A → (R → A) → R → Outcome Bytes
derive_headers fs split r = fs.write_headers (split r) 0 (replicate (fs.header_total (split r) 0) 0)

-- `enum_variants`: the value that the macro gives each variant, for discriminants that are literals, as
-- they are in all enums that derive `Serialize`. An explicit discriminant is the variant's value; another
-- variant has `last_expr + counter`, and `counter` is only ever set to 1. The macro puts the tokens
-- of the sum together, so for an expression such as `1 << 1` precedence would make another value of it.
unfoldable pub variant_values {ℓ} : {A : Type ℓ} → ℕ → ℕ → List (A × Option ℕ) → List (A × ℕ)
variant_values last_expr counter [] = []
variant_values last_expr counter ((v, none) ∷ vs) =
    (v, last_expr + counter) ∷ variant_values last_expr counter vs
variant_values last_expr counter ((v, some e) ∷ vs) = (v, e) ∷ variant_values e 1 vs

unfoldable pub enum_variants {ℓ} : {A : Type ℓ} → List (A × Option ℕ) → List (A × ℕ)
unfolding variant_values
enum_variants vs = variant_values 0 0 vs

-- `if tmp == (#e as repr) { Ok(Self::#i) } else … else { Err(()) }`
unfoldable pub match_variant {ℓ} : {A : Type ℓ} → ℕ → List (A × ℕ) → Outcome A
match_variant tmp [] = err
match_variant tmp ((v, e) ∷ vs) = if tmp == e then ok v else match_variant tmp vs

-- `enum_serialization` for a representation of `k` bytes. `discriminant` is `*self as repr`, the
-- language's own numbering of the variants.
abbrev pub derive_enum : {A : Type 0} → ℕ → (A → ℕ) → List (A × Option ℕ) → Serialize A
derive_enum k discriminant variants = record {
  serialize = λ v buf. if ltb (length buf) k then err else (uint k).serialize (discriminant v) buf;
  deserialize = λ bytes. do
    tmp ← (uint k).deserialize bytes
    match_variant tmp (enum_variants variants);
  sized = λ v. k;
}
