-- ===== src/Client/Autostart.antt =====
-- Starting with Windows: cliprelay-client/src/lib.rs, the module `autostart` for Windows, which keeps a
-- command in the registry's key Run. The calls of the registry are parameters, on a state of theirs; a
-- path is the text that it is displayed as.
pub mod Value
pub mod Registered
pub mod Handles
use cliprelay.Core.LittleEndian.{to_le_bytes, from_le_bytes}
use cliprelay.Text.{encode, trim, chars, ascii, Text, Bytes}
use cliprelay.Base.{
  ltb, ◌=?◌, not, ◌^◌, ◌%◌, panic, none, false, [], ◌==◌, ◌++◌, true, some, length, leb, err, ◌∷◌,
  ok, if◌then◌else◌, Option, Bool, ◌*◌, Result, List, ℕ,
}
use cliprelay.Text.Utf16.{encode_utf16, from_utf16}

-- The calls of Windows, with what they return: a status, 0 for success, and what they put out.
pub record Registry (S : Type 0) : Type 0 where
  pub read_access : ℕ
  pub write_access : ℕ
  pub reg_sz : ℕ
  pub error_file_not_found : ℕ
  -- The new state, the status and the handle.
  pub open_key : S → ℕ → List ℕ → S × ℕ × ℕ
  -- The status, the type and the size.
  pub query_size : S → ℕ → List ℕ → ℕ × ℕ × ℕ
  -- The status and the bytes, as many as the buffer has.
  pub query_data : S → ℕ → List ℕ → ℕ → ℕ × Bytes
  pub set_value : S → ℕ → List ℕ → ℕ → Bytes → S × ℕ
  pub delete_value : S → ℕ → List ℕ → S × ℕ
  pub close_key : S → ℕ → S

pub data AutostartError : Type 0 where
  reg_open_run_key reg_query_size reg_query_data reg_set reg_delete : ℕ → AutostartError
  value_too_large invalid_utf16 : AutostartError

abbrev pub run_subkey : Text
run_subkey = ascii "Software\\Microsoft\\Windows\\CurrentVersion\\Run"

abbrev pub max_run_value_bytes : ℕ
max_run_value_bytes = 32 * 1024

unfoldable pub autostart_command : Text → Text
autostart_command exe = ascii "\"" ++ (exe ++ ascii "\" --background")

unfoldable pub wide_null : Text → List ℕ
wide_null s = encode_utf16 (chars s) ++ (0 ∷ [])

-- The memory of a list of units, least significant byte first.
unfoldable pub bytes_of_units : List ℕ → Bytes
bytes_of_units [] = []
bytes_of_units (u ∷ us) = to_le_bytes 2 u ++ bytes_of_units us

-- `buf.chunks_exact(2)`.
unfoldable pub units_of_bytes : Bytes → List ℕ
units_of_bytes [] = []
units_of_bytes (a ∷ []) = []
units_of_bytes (a ∷ b ∷ bytes) = from_le_bytes (a ∷ b ∷ []) ∷ units_of_bytes bytes

-- `if let Some(0) = utf16.last().copied() { utf16.pop(); }`.
unfoldable pub without_nul : List ℕ → List ℕ
without_nul [] = []
without_nul (u ∷ []) = if u == 0 then [] else u ∷ []
without_nul (u ∷ v ∷ us) = u ∷ without_nul (v ∷ us)

-- What the bytes of the value say.
unfoldable pub text_of_value : Bytes → Result AutostartError (Option Text)
text_of_value buf =
    if length buf % 2 == 0
    then elim (from_utf16 (without_nul (units_of_bytes buf))) [
      | none ↦ err invalid_utf16
      | some cs ↦ ok (some (encode cs))
    ]
    else ok none

module _ {S : Type 0} (r : Registry S) where
  unfoldable pub run_key_open : S → ℕ → S × Result AutostartError ℕ
  run_key_open s desired_access =
      let (after, status, handle) = r.open_key s desired_access (wide_null run_subkey) in
      if status == 0 then (after, ok handle) else (after, err (reg_open_run_key status))

  -- With the key open: the size first, then that many bytes.
  unfoldable pub query_string : S → ℕ → Text → S × Result AutostartError (Option Text)
  query_string s key name =
      let (status, value_type, size_bytes) = r.query_size s key (wide_null name) in
      let (status_2, buf) = r.query_data s key (wide_null name) size_bytes in
      let closed = r.close_key s key in
      if status == r.error_file_not_found
      then (closed, ok none)
      else if not (status == 0)
      then (closed, err (reg_query_size status))
      else if not (value_type == r.reg_sz)
      then (closed, ok none)
      else if size_bytes == 0
      then (closed, ok (some []))
      else if ltb max_run_value_bytes size_bytes
      then (closed, err value_too_large)
      else if not (status_2 == 0)
      then (closed, err (reg_query_data status_2))
      else (closed, text_of_value buf)

  -- With the key that is opened first.
  abbrev pub opened_first :
      {X : Type 0} → S → ℕ → (S → ℕ → S × Result AutostartError X) → S × Result AutostartError X
  opened_first s access next = elim (run_key_open s access).1 [
    | ok handle ↦ next (run_key_open s access).0 handle
    | err e ↦ ((run_key_open s access).0, err e)
    | panic ↦ ((run_key_open s access).0, panic)
  ]

  unfoldable pub run_key_get_value_string : S → Text → S × Result AutostartError (Option Text)
  run_key_get_value_string s name =
      opened_first s r.read_access (λ opened handle. query_string opened handle name)

  -- With the key open, for the units of the value.
  unfoldable pub set_units : S → ℕ → Text → List ℕ → S × Result AutostartError (Unit {0})
  set_units s key name value_w =
      let bytes = bytes_of_units value_w in
      let (after, status) = r.set_value s key (wide_null name) r.reg_sz bytes in
      if leb (2 ^ 32) (length bytes)
      then (r.close_key s key, err value_too_large)
      else if status == 0
      then (r.close_key after key, ok tt)
      else (r.close_key after key, err (reg_set status))

  unfoldable pub run_key_set_value_string : S → Text → Text → S × Result AutostartError (Unit {0})
  run_key_set_value_string s name value =
      opened_first s r.write_access
        (λ opened handle. set_units opened handle name (wide_null value))

  unfoldable pub delete_opened : S → ℕ → Text → S × Result AutostartError (Unit {0})
  delete_opened s key name =
      let (after, status) = r.delete_value s key (wide_null name) in
      let closed = r.close_key after key in
      if status == r.error_file_not_found
      then (closed, ok tt)
      else if status == 0
      then (closed, ok tt)
      else (closed, err (reg_delete status))

  unfoldable pub run_key_delete_value : S → Text → S × Result AutostartError (Unit {0})
  run_key_delete_value s name =
      opened_first s r.write_access (λ opened handle. delete_opened opened handle name)

  abbrev is_command : Text → Result AutostartError (Option Text) → Result AutostartError Bool
  is_command exe (ok (some v)) = ok (trim v =? trim (autostart_command exe))
  is_command exe (ok none) = ok false
  is_command exe (err e) = err e
  is_command exe panic = panic

  unfoldable pub is_enabled : S → Text → Text → S × Result AutostartError Bool
  is_enabled s exe value_name =
      let (after, value) = run_key_get_value_string s value_name in (after, is_command exe value)

  unfoldable pub set_enabled : S → Text → Text → Bool → S × Result AutostartError (Unit {0})
  set_enabled s exe value_name true = run_key_set_value_string s value_name (autostart_command exe)
  set_enabled s exe value_name false = run_key_delete_value s value_name
