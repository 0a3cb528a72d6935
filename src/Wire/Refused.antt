-- ===== src/Wire/Refused.antt =====
-- A derived `deserialize` that ends with `Err` at one of its fields.
use ubass_rs.Base.{◌≡◌, refl, ap, false, [], append_assoc, ◌++◌, length, length-append}
use ubass_rs.Base.Outcome.{ok, err, ◌>>=◌}
use ubass_rs.Wire.Codec.{Bytes, Serialize}
use ubass_rs.Wire.Derive.{Fields, payload, ◌⨟◌, derive_struct}
use ubass_rs.Wire.Laws.{Lawful}
use ubass_rs.Wire.Structs.{slice_from_lem}

-- The row of fields does not read these bytes, wherever it begins.
pub record Refuses {A : Type 0} (fs : Fields A) (bytes : Bytes) : Type 0 where
  pub refused : (front : Bytes) → fs.read (length front) (front ++ bytes) ≡ err

-- The fields behind a field that is read.
pub ⨟_refused :
    {A B : Type 0} {c : Serialize A} {fs : Fields B} {Valid : A → Type 0} {encode : A → Bytes}
    {rest : Bytes}
    → Lawful false c Valid encode
    → (a : A) → Valid a
    → Refuses fs rest
    → Refuses (c ⨟ fs) (encode a ++ rest)
⨟_refused {encode = encode} {rest = rest} law a h later = record {
  refused = λ front.
      rw
        (
          slice_from_lem front (encode a ++ rest),
          law.reads a rest h tt,
          ← law.size a h,
          ← length-append front (encode a),
          ← append_assoc front (encode a) rest,
          later.refused (front ++ encode a),
        )
        refl;
}

-- The field itself, with fields behind it.
pub ⨟-Refuses :
    {A B : Type 0} (c : Serialize A) (fs : Fields B) (bytes : Bytes)
    → c.deserialize bytes ≡ err
    → Refuses (c ⨟ fs) bytes
⨟-Refuses c fs bytes h = record { refused = λ front. rw (slice_from_lem front bytes, h) refl }

pub payload-Refuses :
    {A : Type 0} (c : Serialize A) (bytes : Bytes)
    → c.deserialize bytes ≡ err
    → Refuses (payload c) bytes
payload-Refuses c bytes h = record { refused = λ front. rw (slice_from_lem front bytes, h) refl }

pub derive_struct_refused :
    {A R : Type 0} {fs : Fields A} {bytes : Bytes} (split : R → A) (build : A → R)
    → Refuses fs bytes
    → (derive_struct fs split build).deserialize bytes ≡ err
derive_struct_refused split build r = ap (λ o. o >>= (λ a. ok (build a))) (r.refused [])
