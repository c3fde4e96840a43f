-- ===== src/Client/FileName/Safe.antt =====
-- What a sanitized name can hold.
use cliprelay.Base.{
  ◌≢◌, Bool, if◌then◌else◌, ℕ, zero, suc, ◌≤◌, ◌≡◌, refl, arith, true, false, Bool-cases, inl, inr,
  List, [], ◌∷◌, length, take, ltb, ◌⊎◌, All, All-append, length-take,
}
use cliprelay.Text.{Text, Bytes, trim, is_empty, chars, encode_char, ascii}
use cliprelay.Client.FileName.{
  is_illegal, is_control, replaced, replace_illegal, floor_char_boundary, sanitize_file_name,
  max_file_name_bytes,
}

-- The ASCII characters that no file name of Windows can hold, besides the controls.
abbrev pub forbidden : Text
forbidden = ascii "\\/:*?\"<>|"

-- A byte of a character outside ASCII, or an ASCII character that is neither a control nor forbidden.
abbrev pub IsSafe : ℕ → Type 0
IsSafe b = (0x80 ≤ b) ⊎ ((0x20 ≤ b) × (b ≢ 0x7f) × All (λ c. b ≢ c) forbidden)

legal-IsSafe : (b : ℕ) → is_illegal b ≡ false → IsSafe b
unfolding is_illegal is_control
legal-IsSafe b h = inr (
  ground arith,
  λ e. absurd (ground arith),
  (
    λ e. absurd (ground arith),
    (
      λ e. absurd (ground arith),
      (
        λ e. absurd (ground arith),
        (
          λ e. absurd (ground arith),
          (
            λ e. absurd (ground arith),
            (
              λ e. absurd (ground arith),
              (
                λ e. absurd (ground arith),
                (λ e. absurd (ground arith), (λ e. absurd (ground arith), tt)),
              ),
            ),
          ),
        ),
      ),
    ),
  ),
)

either-IsSafe :
    (b : Bool) (x y : Bytes) → All IsSafe x → All IsSafe y → All IsSafe (if b then x else y)
either-IsSafe true x y v w = v
either-IsSafe false x y v w = w

encode_char-IsSafe : (c : ℕ) → is_illegal c ≡ false → All IsSafe (encode_char c)
unfolding encode_char
encode_char-IsSafe c h =
    either-IsSafe (ltb c 0x80) _ _ (legal-IsSafe c h, tt)
      (either-IsSafe (ltb c 0x800) _ _ (inl (omega arith), (inl (omega arith), tt))
        (either-IsSafe (ltb c 0x10000) _ _
          (inl (omega arith), (inl (omega arith), (inl (omega arith), tt)))
          (inl (omega arith), (inl (omega arith), (inl (omega arith), (inl (omega arith), tt))))))

underscore_legal : is_illegal 0x5f ≡ false
unfolding is_illegal is_control
underscore_legal = refl

replaced-legal : (c : ℕ) → is_illegal (replaced c) ≡ false
unfolding replaced
replaced-legal c = elim (Bool-cases (is_illegal c)) [
  | inl bad ↦ rw (bad, replaced) underscore_legal
  | inr fine ↦ rw (fine, replaced) fine
]

replace_illegal-IsSafe : (cs : List ℕ) → All IsSafe (replace_illegal cs)
unfolding replace_illegal
replace_illegal-IsSafe [] = tt
replace_illegal-IsSafe (c ∷ cs) =
    All-append IsSafe (encode_char (replaced c)) (replace_illegal cs)
      (encode_char-IsSafe (replaced c) (replaced-legal c)) (replace_illegal-IsSafe cs)

All-take : (n : ℕ) (b : Bytes) → All IsSafe b → All IsSafe (take n b)
All-take zero b h = tt
All-take (suc n) [] h = tt
All-take (suc n) (x ∷ b) h = (h.0, All-take n b h.1)

floor_char_boundary-le : (s : Bytes) (i : ℕ) → floor_char_boundary s i ≤ i
unfolding floor_char_boundary
floor_char_boundary-le s zero = omega arith
floor_char_boundary-le s (suc i) = ground (arith, floor_char_boundary-le s i)

fallback-IsSafe : All IsSafe (ascii "file.bin")
unfolding is_illegal is_control
fallback-IsSafe = (
  legal-IsSafe 0x66 refl,
  (
    legal-IsSafe 0x69 refl,
    (
      legal-IsSafe 0x6c refl,
      (
        legal-IsSafe 0x65 refl,
        (
          legal-IsSafe 0x2e refl,
          (legal-IsSafe 0x62 refl, (legal-IsSafe 0x69 refl, (legal-IsSafe 0x6e refl, tt))),
        ),
      ),
    ),
  ),
)

-- Whatever name is received: the name that is written has at most 128 bytes, and none of them is a
-- slash, a backslash, another of the characters that Windows does not take in names, or an ASCII
-- control.
pub sanitize_file_name-IsSafe :
    (name : Text)
    → (length (sanitize_file_name name) ≤ max_file_name_bytes)
      × All IsSafe (sanitize_file_name name)
unfolding sanitize_file_name
sanitize_file_name-IsSafe name = elim (Bool-cases (is_empty (trim name))) [
  | inl blank ↦ rw (blank, sanitize_file_name) (omega arith, fallback-IsSafe)
  | inr visible ↦
      let out = replace_illegal (chars (trim name)) in
      let cut = floor_char_boundary out max_file_name_bytes in
      let safe = replace_illegal-IsSafe (chars (trim name)) in
      elim (Bool-cases (ltb max_file_name_bytes (length out))) [
        | inl long ↦
            rw (visible, sanitize_file_name, long, sanitize_file_name)
              (
                omega (arith, length-take cut out, floor_char_boundary-le out max_file_name_bytes),
                All-take cut out safe,
              )
        | inr short ↦
            rw (visible, sanitize_file_name, short, sanitize_file_name) (ground arith, safe)
      ]
]
