-- ===== src/Client/FileName.antt =====
-- `sanitize_file_name` of cliprelay-client/src/main.rs: a received file name made safe to write.
pub mod Safe
use cliprelay.Base.{
  ℕ, zero, suc, Bool, true, false, ◌||◌, ◌&&◌, not, List, [], ◌∷◌, ◌++◌, length, take, ltb, leb,
  ◌==◌, if◌then◌else◌,
}
use cliprelay.Text.{Text, Bytes, trim, is_empty, chars, encode, encode_char, ascii}

-- `char::is_control`: the category Cc of Unicode.
unfoldable pub is_control : ℕ → Bool
is_control c = ltb c 0x20 || (leb 0x7f c && leb c 0x9f)

-- The characters that are replaced by an underscore.
unfoldable pub is_illegal : ℕ → Bool
is_illegal c =
    c == 0x5c
    || c == 0x2f
    || c == 0x3a
    || c == 0x2a
    || c == 0x3f
    || c == 0x22
    || c == 0x3c
    || c == 0x3e
    || c == 0x7c
    || is_control c

unfoldable pub replaced : ℕ → ℕ
replaced c = if is_illegal c then 0x5f else c

unfoldable pub replace_illegal : List ℕ → Text
replace_illegal [] = []
replace_illegal (c ∷ cs) = encode_char (replaced c) ++ replace_illegal cs

abbrev pub max_file_name_bytes : ℕ
max_file_name_bytes = 128

-- `str::is_char_boundary` short of the end: the byte there begins a character.
unfoldable pub begins_char : Bytes → ℕ → Bool
begins_char [] i = true
begins_char (b ∷ bs) zero = ltb b 0x80 || leb 0xc0 b
begins_char (b ∷ bs) (suc i) = begins_char bs i

-- `str::floor_char_boundary`, below the end.
unfoldable pub floor_char_boundary : Bytes → ℕ → ℕ
floor_char_boundary s zero = 0
floor_char_boundary s (suc i) =
    let lower = floor_char_boundary s i in if begins_char s (suc i) then suc i else lower

unfoldable pub sanitize_file_name : Text → Text
sanitize_file_name name =
    let trimmed = trim name in
    let out = replace_illegal (chars trimmed) in
    if is_empty trimmed
    then ascii "file.bin"
    else (if ltb max_file_name_bytes (length out)
        then take (floor_char_boundary out max_file_name_bytes) out
        else out)
