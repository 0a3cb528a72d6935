-- ===== src/Wire/Enums.antt =====
-- The enum derive macro: when its numbering of the variants is the language's, and what follows.
use ubass_rs.Base.{ℕ, ◌+◌, ◌^◌, ◌<◌, ◌≡◌, refl, ap, false}
use ubass_rs.Base.{List, [], ◌∷◌, Option, none, some, le→ltb, length, Bool, true}
use ubass_rs.Base.Outcome.{ok}
use ubass_rs.Wire.Codec.{to_be_bytes}
use ubass_rs.Wire.Derive.{variant_values, enum_variants, match_variant, derive_enum}
use ubass_rs.Wire.Laws.{Lawful, uint-Lawful, length-to_be_bytes}

-- The numbering of the language: a variant without a discriminant is one above the variant before.
unfoldable pub language_values {ℓ} : {A : Type ℓ} → ℕ → List (A × Option ℕ) → List (A × ℕ)
language_values next [] = []
language_values next ((v, none) ∷ vs) = (v, next) ∷ language_values (next + 1) vs
language_values next ((v, some e) ∷ vs) = (v, e) ∷ language_values (e + 1) vs

-- No variant without a discriminant follows another such variant.
abbrev pub IsSpaced {ℓ} : {A : Type ℓ} → Bool → List (A × Option ℕ) → Type 0
IsSpaced after [] = Unit
IsSpaced after ((v, some e) ∷ vs) = IsSpaced true vs
IsSpaced true ((v, none) ∷ vs) = IsSpaced false vs
IsSpaced false ((v, none) ∷ vs) = ⊥

variant_values-language {ℓ} :
    {A : Type ℓ} (vs : List (A × Option ℕ)) (e : ℕ)
    → IsSpaced true vs
    → variant_values e 1 vs ≡ language_values (e + 1) vs
unfolding variant_values language_values
variant_values-language [] e h = refl
variant_values-language ((v, some d) ∷ vs) e h =
    ap (λ r. (v, d) ∷ r) (variant_values-language vs d h)
variant_values-language ((v, none) ∷ []) e h = refl
variant_values-language ((v, none) ∷ (w, some d) ∷ vs) e h =
    ap (λ r. (v, e + 1) ∷ (w, d) ∷ r) (variant_values-language vs d h)
variant_values-language ((v, none) ∷ (w, none) ∷ vs) e h = elim h [ ]

-- The derive macro numbers the variants of an enum as the language does, when the discriminants that are
-- written are literals, the enum begins with one, and no two variants in a row are without one.
pub enum_variants-language {ℓ} :
    {A : Type ℓ} (v : A) (d : ℕ) (vs : List (A × Option ℕ))
    → IsSpaced true vs
    → enum_variants ((v, some d) ∷ vs) ≡ language_values 0 ((v, some d) ∷ vs)
unfolding enum_variants language_values
enum_variants-language v d vs h = ap (λ r. (v, d) ∷ r) (variant_values-language vs d h)

-- Every variant that the macro's chain of tests finds again round-trips.
pub derive_enum-Lawful :
    (k : ℕ) {A : Type 0} (discriminant : A → ℕ) (variants : List (A × Option ℕ))
    → Lawful false
        (derive_enum k discriminant variants)
        (λ v.
          (match_variant (discriminant v) (enum_variants variants) ≡ ok v)
          × (discriminant v < 256 ^ k))
        (λ v. to_be_bytes k (discriminant v))
derive_enum-Lawful k discriminant variants = record {
  size = λ v h. length-to_be_bytes k (discriminant v);
  writes = λ v buf h room.
      let fits = le→ltb (length buf) k room in
      rw fits (rw fits at ((uint-Lawful k).writes (discriminant v) buf h.1 room));
  reads = λ v rest h _. rw ((uint-Lawful k).reads (discriminant v) rest h.1 tt) h.0;
}
