-- ===== src/Client/Downloads.antt =====
-- Where a received file is kept: `save_temp_file_to_downloads` and `write_incoming_temp_file` of
-- cliprelay-client/src/main.rs. A file is its name in the one folder; what is there, and what the calls
-- of the system fail with, is an argument.
pub mod Fresh
use cliprelay.Client.FileName.{sanitize_file_name}
use cliprelay.Text.{is_empty, ascii, Text}
use cliprelay.Base.{
  ◌=?◌, zero, ok, [], ◌||◌, ◌==◌, not, err, ◌∷◌, ◌++◌, suc, some, none, if◌then◌else◌, Result, Bool,
  Option, ℕ,
}

pub record Folder : Type 0 where
  pub create_error : Option Text
  pub exists : Text → Bool
  -- What copying, or writing, to a name fails with.
  pub copy_error : Text → Option Text
  pub decimal : ℕ → Text

pub data SaveError : Type 0 where
  system_error no_unique_name : Text → SaveError

-- What stands before and after the last dot.
unfoldable pub last_dot : Text → Option (Text × Text)
last_dot [] = none
last_dot (b ∷ bs) = elim (last_dot bs) [
  | some (before, after) ↦ some (b ∷ before, after)
  | none ↦ if b == 0x2e then some ([], bs) else none
]

-- `Path::file_name` of a name without separators.
unfoldable pub path_file_name : Text → Option Text
path_file_name name =
    if is_empty name || (name =? ascii "." || name =? ascii "..") then none else some name

-- The stem and the extension of a file name, as `Path` splits it.
unfoldable pub split_name : Text → Text × Option Text
split_name name = elim (last_dot name) [
  | none ↦ (name, none)
  | some (before, after) ↦ if is_empty before then (name, none) else (before, some after)
]

-- `file_stem`, or "file", and `extension`.
unfoldable pub stem_and_extension : Text → Text × Option Text
stem_and_extension safe = elim (path_file_name safe) [
  | none ↦ (ascii "file", none)
  | some name ↦ split_name name
]

module _ (folder : Folder) where
  unfoldable pub candidate : Text → Option Text → ℕ → Text
  candidate stem (some ext) i = stem ++ (ascii " (" ++ (folder.decimal i ++ (ascii ")." ++ ext)))
  candidate stem none i = stem ++ (ascii " (" ++ (folder.decimal i ++ ascii ")"))

  -- `for i in first..first + left`: the first candidate that is free.
  unfoldable pub first_free : (ℕ → Text) → ℕ → ℕ → Option Text
  first_free name_of i zero = none
  first_free name_of i (suc left) =
      let rest = first_free name_of (suc i) left in
      if not (folder.exists (name_of i)) then some (name_of i) else rest

  -- The name to save under, from the sanitized one.
  unfoldable pub destination : Text → Option Text
  destination safe =
      let (stem, ext) = stem_and_extension safe in
      let free = first_free (candidate stem ext) 1 200 in
      if folder.exists safe then free else some safe

  unfoldable pub save_temp_file_to_downloads : Text → Result SaveError Text
  save_temp_file_to_downloads file_name =
      let safe = sanitize_file_name file_name in
      elim folder.create_error [
        | some e ↦ err (system_error e)
        | none ↦ elim (destination safe) [
          | none ↦ err (no_unique_name safe)
          | some dest ↦ elim (folder.copy_error dest) [
            | some e ↦ err (system_error e)
            | none ↦ ok dest
          ]
        ]
      ]

  -- The name has the time of writing in it.
  unfoldable pub write_incoming_temp_file : ℕ → Text → Result SaveError Text
  write_incoming_temp_file now file_name =
      let path =
        ascii "incoming_" ++ (folder.decimal now ++ (ascii "_" ++ sanitize_file_name file_name)) in
      elim folder.create_error [
        | some e ↦ err (system_error e)
        | none ↦ elim (folder.copy_error path) [ some e ↦ err (system_error e) | none ↦ ok path ]
      ]
