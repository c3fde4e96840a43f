-- ===== src/Text/Utf16.antt =====
-- Rust's `str::encode_utf16` and `String::from_utf16`, on the characters of a text.
use cliprelay.Base.{
  lt→ltb, le→leb, ltb_false→le, arith, ◌%◌, refl, inr, ◌/◌, ◌*◌, inl, ap, [], ◌∙◌, ◌-◌, ◌&&◌, none,
  ltb, false, Bool-cases, ◌≡◌, ◌∷◌, ◌+◌, ◌++◌, some, leb, if◌then◌else◌, All, ◌≤◌, ◌<◌, Option,
  List, Bool, ℕ,
}

unfoldable pub encode_utf16_char : ℕ → List ℕ
encode_utf16_char c =
    if ltb c 0x10000
    then c ∷ []
    else (0xd800 + (c - 0x10000) / 1024) ∷ (0xdc00 + (c - 0x10000) % 1024) ∷ []

unfoldable pub encode_utf16 : List ℕ → List ℕ
encode_utf16 [] = []
encode_utf16 (c ∷ cs) = encode_utf16_char c ++ encode_utf16 cs

-- What a unit is, with the one after it.
pub data Unit16 : Type 0 where
  single unpaired : Unit16
  pair : ℕ → Unit16

abbrev pub is_surrogate : ℕ → Bool
is_surrogate u = leb 0xd800 u && ltb u 0xe000

unfoldable pub classify : ℕ → Option ℕ → Unit16
classify u none = if is_surrogate u then unpaired else single
classify u (some v) =
    if is_surrogate u
    then (if ltb u 0xdc00 && (leb 0xdc00 v && ltb v 0xe000)
        then pair (0x10000 + (u - 0xd800) * 1024 + (v - 0xdc00))
        else unpaired)
    else single

abbrev pub with_char : ℕ → Option (List ℕ) → Option (List ℕ)
with_char c none = none
with_char c (some cs) = some (c ∷ cs)

-- `none` for an unpaired surrogate.
unfoldable pub from_utf16 : List ℕ → Option (List ℕ)
from_utf16 [] = some []
from_utf16 (u ∷ []) = elim (classify u none) [
  | single ↦ some (u ∷ [])
  | unpaired ↦ none
  | pair c ↦ none
]
from_utf16 (u ∷ v ∷ us) = elim (classify u (some v)) [
  | single ↦ with_char u (from_utf16 (v ∷ us))
  | unpaired ↦ none
  | pair c ↦ with_char c (from_utf16 us)
]

-- A character of Rust: any value but the surrogates.
abbrev pub IsScalar : ℕ → Type 0
IsScalar c = (c < 0x110000) × (is_surrogate c ≡ false)

classify-single : (c : ℕ) (next : Option ℕ) → is_surrogate c ≡ false → classify c next ≡ single
unfolding classify
classify-single c none e = rw e refl
classify-single c (some v) e = rw e refl

single-from_utf16 :
    (c : ℕ) (units : List ℕ)
    → is_surrogate c ≡ false
    → from_utf16 (c ∷ units) ≡ with_char c (from_utf16 units)
unfolding from_utf16
single-from_utf16 c [] e = rw (classify-single c none e, from_utf16) refl
single-from_utf16 c (v ∷ units) e = rw (classify-single c (some v) e, from_utf16) refl

classify-pair :
    (c : ℕ)
    → 0x10000 ≤ c
    → c < 0x110000
    → classify (0xd800 + (c - 0x10000) / 1024) (some (0xdc00 + (c - 0x10000) % 1024)) ≡ pair c
unfolding classify
classify-pair c lo hi =
    let u : ℕ = 0xd800 + (c - 0x10000) / 1024 in
    let v : ℕ = 0xdc00 + (c - 0x10000) % 1024 in
    let back : 0x10000 + (u - 0xd800) * 1024 + (v - 0xdc00) ≡ c = omega arith in
    rw
      (
        le→leb 0xd800 u (omega arith),
        lt→ltb u 0xe000 (omega arith),
        lt→ltb u 0xdc00 (omega arith),
        le→leb 0xdc00 v (omega arith),
        lt→ltb v 0xe000 (omega arith),
      )
      (ap pair back)

pair-from_utf16 :
    (u v c : ℕ) (units : List ℕ)
    → classify u (some v) ≡ pair c
    → from_utf16 (u ∷ v ∷ units) ≡ with_char c (from_utf16 units)
unfolding from_utf16
pair-from_utf16 u v c units e = rw (e, from_utf16) refl

from_utf16-encode_utf16_char :
    (c : ℕ) (units : List ℕ)
    → IsScalar c
    → from_utf16 (encode_utf16_char c ++ units) ≡ with_char c (from_utf16 units)
unfolding encode_utf16_char from_utf16
from_utf16-encode_utf16_char c units s = elim (Bool-cases (ltb c 0x10000)) [
  | inl small ↦ rw (small, encode_utf16_char) (single-from_utf16 c units s.1)
  | inr large ↦
      rw (large, encode_utf16_char)
        (pair-from_utf16 (0xd800 + (c - 0x10000) / 1024) (0xdc00 + (c - 0x10000) % 1024) c units
          (classify-pair c (ltb_false→le c 0x10000 large) s.0))
]

pub from_utf16-encode_utf16 :
    (cs : List ℕ) → All IsScalar cs → from_utf16 (encode_utf16 cs) ≡ some cs
unfolding encode_utf16 from_utf16
from_utf16-encode_utf16 [] h = refl
from_utf16-encode_utf16 (c ∷ cs) h =
    from_utf16-encode_utf16_char c (encode_utf16 cs) h.0
    ∙ ap (with_char c) (from_utf16-encode_utf16 cs h.1)
