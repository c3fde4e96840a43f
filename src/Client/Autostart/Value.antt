-- ===== src/Client/Autostart/Value.antt =====
-- The bytes of a registry value, as they are written and as they are read.
use cliprelay.Core.LittleEndian.{from_le_bytes, to_le_bytes}
use cliprelay.Text.{encode, chars, Text}
use cliprelay.Client.Autostart.{
  encode, from_le_bytes, chars, to_le_bytes, without_nul, wide_null, units_of_bytes, text_of_value,
  bytes_of_units,
}
use cliprelay.Base.{
  ltb_false→le, true, inr, ◌%◌, refl, length-append, inl, some, ltb, false, arith, append_assoc, ap,
  [], ◌∷◌, ◌==◌, ◌*◌, ok, Bool-cases, ◌≡◌, ◌++◌, length, All, ◌<◌, List, ℕ,
}
use cliprelay.Text.Utf16.{from_utf16-encode_utf16, IsScalar, encode_utf16, encode_utf16_char}

abbrev IsUnit : ℕ → Type 0
IsUnit u = u < 0x10000

units_of_bytes-bytes_of_units :
    (us : List ℕ) → All IsUnit us → units_of_bytes (bytes_of_units us) ≡ us
unfolding units_of_bytes bytes_of_units to_le_bytes from_le_bytes
units_of_bytes-bytes_of_units [] h = refl
units_of_bytes-bytes_of_units (u ∷ us) h =
    rw (units_of_bytes-bytes_of_units us h.1) (ap (λ (v : ℕ). v ∷ us) (omega (arith, h.0)))

length-bytes_of_units : (us : List ℕ) → length (bytes_of_units us) ≡ 2 * length us
unfolding bytes_of_units to_le_bytes
length-bytes_of_units [] = refl
length-bytes_of_units (u ∷ us) = omega (arith, length-bytes_of_units us)

without_nul-append : (us : List ℕ) → without_nul (us ++ (0 ∷ [])) ≡ us
unfolding without_nul
without_nul-append [] = refl
without_nul-append (u ∷ []) = refl
without_nul-append (u ∷ v ∷ us) = ap (λ (l : List ℕ). u ∷ l) (without_nul-append (v ∷ us))

encode_utf16_char-IsUnit :
    (c : ℕ) (rest : List ℕ)
    → IsScalar c
    → All IsUnit rest
    → All IsUnit (encode_utf16_char c ++ rest)
unfolding encode_utf16_char
encode_utf16_char-IsUnit c rest s h = elim (Bool-cases (ltb c 0x10000)) [
  | inl small ↦ rw (small, encode_utf16_char) (ground (arith, small), h)
  | inr large ↦
      let lo = ltb_false→le c 0x10000 large in
      rw (large, encode_utf16_char) (omega (arith, lo, s.0), (omega (arith, lo, s.0), h))
]

encode_utf16-IsUnit :
    (cs : List ℕ) (rest : List ℕ)
    → All IsScalar cs
    → All IsUnit rest
    → All IsUnit (encode_utf16 cs ++ rest)
unfolding encode_utf16
encode_utf16-IsUnit [] rest s h = h
encode_utf16-IsUnit (c ∷ cs) rest s h =
    rw (append_assoc (encode_utf16_char c) (encode_utf16 cs) rest)
      (encode_utf16_char-IsUnit c (encode_utf16 cs ++ rest) s.0 (encode_utf16-IsUnit cs rest s.1 h))

-- The characters of a text are characters of Rust, and it is their UTF-8 form, as with every `String`.
pub record IsString (s : Text) : Type 0 where
  pub scalars : All IsScalar (chars s)
  pub encoded : encode (chars s) ≡ s

pub text_of_value-wide_null :
    (s : Text) → IsString s → text_of_value (bytes_of_units (wide_null s)) ≡ ok (some s)
unfolding text_of_value wide_null
text_of_value-wide_null s v =
    let us = encode_utf16 (chars s) ++ (0 ∷ []) in
    let even : (length (bytes_of_units us) % 2 == 0) ≡ true =
      ground (arith, length-bytes_of_units us) in
    let units : units_of_bytes (bytes_of_units us) ≡ us =
      units_of_bytes-bytes_of_units us
        (encode_utf16-IsUnit (chars s) (0 ∷ []) v.scalars (omega arith, tt)) in
    rw
      (
        even,
        text_of_value,
        units,
        without_nul-append (encode_utf16 (chars s)),
        from_utf16-encode_utf16 (chars s) v.scalars,
        v.encoded,
      )
      refl

pub wide_null-length : (s : Text) → (length (bytes_of_units (wide_null s)) == 0) ≡ false
unfolding wide_null
wide_null-length s =
    let us = encode_utf16 (chars s) in
    ground (arith, length-bytes_of_units (us ++ (0 ∷ [])), length-append us (0 ∷ []))
