-- ===== src/Text.antt =====
-- Rust's `String` and `&str`: a text is the list of its UTF-8 bytes. The functions below are those of
-- the standard library that cliprelay calls: `str::from_utf8`, `chars`, `push`, `trim`, `is_empty`.
pub mod Utf16
use cliprelay.Base.{
  ℕ, ◌+◌, ◌-◌, ◌*◌, ◌/◌, ◌%◌, ◌<◌, Bool, true, false, ◌&&◌, ◌||◌, Option, none, some, List, [], ◌∷◌,
  ◌++◌, ltb, leb, ◌==◌, if◌then◌else◌, ◌≡◌, arith,
}
use mathlib.Core.List.{reverse}
use Prim.Native.Char.{code}
use Prim.Native.String.{String}

abbrev pub Bytes : Type 0
Bytes = List ℕ

abbrev pub Text : Type 0
Text = List ℕ

abbrev pub IsByte : ℕ → Type 0
IsByte b = b < 256

-- Where a decoder stands inside a character: how many bytes are due, the bits so far, and the range
-- of the next byte (which shuts out overlong forms, surrogates and values past U+10FFFF).
pub record Utf8State : Type 0 where
  pub due : ℕ
  pub bits : ℕ
  pub lo : ℕ
  pub hi : ℕ

abbrev pub between : Utf8State
between = record { due = 0; bits = 0; lo = 0x80; hi = 0xbf }

first_byte : ℕ → Option (Utf8State × Option ℕ)
first_byte b =
    if ltb b 0x80
    then some (between, some b)
    else if ltb b 0xc2
    then none
    else if ltb b 0xe0
    then some (record { due = 1; bits = b - 0xc0; lo = 0x80; hi = 0xbf }, none)
    else if b == 0xe0
    then some (record { due = 2; bits = 0; lo = 0xa0; hi = 0xbf }, none)
    else if b == 0xed
    then some (record { due = 2; bits = 13; lo = 0x80; hi = 0x9f }, none)
    else if ltb b 0xf0
    then some (record { due = 2; bits = b - 0xe0; lo = 0x80; hi = 0xbf }, none)
    else if b == 0xf0
    then some (record { due = 3; bits = 0; lo = 0x90; hi = 0xbf }, none)
    else if ltb b 0xf4
    then some (record { due = 3; bits = b - 0xf0; lo = 0x80; hi = 0xbf }, none)
    else if b == 0xf4
    then some (record { due = 3; bits = 4; lo = 0x80; hi = 0x8f }, none)
    else none

next_byte : Utf8State → ℕ → Option (Utf8State × Option ℕ)
next_byte s b =
    let bits = s.bits * 64 + (b - 0x80) in
    if leb s.lo b && leb b s.hi
    then (if s.due == 1
        then some (between, some bits)
        else some (record { due = s.due - 1; bits = bits; lo = 0x80; hi = 0xbf }, none))
    else none

pub utf8_step : Utf8State → ℕ → Option (Utf8State × Option ℕ)
unfolding first_byte next_byte
utf8_step s b = if s.due == 0 then first_byte b else next_byte s b

pub decode_from : Utf8State → Bytes → Option (List ℕ)
decode_from s [] = if s.due == 0 then some [] else none
decode_from s (b ∷ bs) = elim (utf8_step s b) [
  | none ↦ none
  | some (s', none) ↦ decode_from s' bs
  | some (s', some c) ↦ elim (decode_from s' bs) [ none ↦ none | some cs ↦ some (c ∷ cs) ]
]

-- The characters of well-formed UTF-8.
unfoldable pub decode : Bytes → Option (List ℕ)
unfolding decode_from utf8_step
decode = decode_from between

-- `std::str::from_utf8`.
unfoldable pub from_utf8 : Bytes → Option Text
unfolding decode
from_utf8 bytes = elim (decode bytes) [ none ↦ none | some cs ↦ some bytes ]

-- The bytes are the UTF-8 form of some text, as those of every `String` are.
abbrev pub IsUtf8 : Text → Type 0
IsUtf8 s = from_utf8 s ≡ some s

-- `str::chars`, collected.
unfoldable pub chars : Text → List ℕ
unfolding decode
chars s = elim (decode s) [ none ↦ [] | some cs ↦ cs ]

-- The UTF-8 form of one character, which `String::push` appends.
unfoldable pub encode_char : ℕ → Bytes
encode_char c =
    if ltb c 0x80
    then c ∷ []
    else if ltb c 0x800
    then (0xc0 + c / 64) ∷ (0x80 + c % 64) ∷ []
    else if ltb c 0x10000
    then (0xe0 + c / 4096) ∷ (0x80 + c / 64 % 64) ∷ (0x80 + c % 64) ∷ []
    else (0xf0 + c / 262144) ∷ (0x80 + c / 4096 % 64) ∷ (0x80 + c / 64 % 64) ∷ (0x80 + c % 64) ∷ []

unfoldable pub encode : List ℕ → Text
unfolding encode_char
encode [] = []
encode (c ∷ cs) = encode_char c ++ encode cs

-- `char::is_whitespace`: the property White_Space of Unicode.
unfoldable pub is_whitespace : ℕ → Bool
is_whitespace c =
    (leb 0x09 c && leb c 0x0d)
    || c == 0x20
    || c == 0x85
    || c == 0xa0
    || c == 0x1680
    || (leb 0x2000 c && leb c 0x200a)
    || c == 0x2028
    || c == 0x2029
    || c == 0x202f
    || c == 0x205f
    || c == 0x3000

skip_whitespace : List ℕ → List ℕ
unfolding is_whitespace
skip_whitespace [] = []
skip_whitespace (c ∷ cs) = if is_whitespace c then skip_whitespace cs else c ∷ cs

-- `str::trim`.
unfoldable pub trim : Text → Text
unfolding chars encode skip_whitespace
trim s = encode (reverse (skip_whitespace (reverse (skip_whitespace (chars s)))))

-- `str::is_empty`.
abbrev pub is_empty {ℓ} : {A : Type ℓ} → List A → Bool
is_empty [] = true
is_empty (x ∷ xs) = false

-- The text has the bytes that it was made from.
pub from_utf8-some : (bytes : Bytes) {s : Text} → from_utf8 bytes ≡ some s → (s ≡ bytes) × IsUtf8 s
unfolding from_utf8
from_utf8-some bytes e = ground arith

-- A literal of ASCII characters, as its bytes.
abbrev pub ascii : String → Text
ascii String.[] = []
ascii (String.◌∷◌ c s) = code c ∷ ascii s
