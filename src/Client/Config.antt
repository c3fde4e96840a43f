-- ===== src/Client/Config.antt =====
-- The saved configuration, cliprelay-client/src/main.rs: `validate_saved_config`,
-- `save_saved_config`, `load_saved_config` and `persist_last_counter`. The url crate and serde_json are
-- parameters. A file is its contents, if it exists; which system calls fail is an argument.
pub mod Valid
pub mod Saved
use cliprelay.Base.{
  ℕ, zero, suc, ◌+◌, ◌*◌, Bool, true, false, not, ◌&&◌, ◌||◌, Option, none, some, Result, ok, err,
  panic, ◌>>=◌, ◌>>◌, fail_if, List, [], ◌∷◌, ◌++◌, length, ltb, ◌=?◌, if◌then◌else◌, ◌⊎◌, inl, inr,
}
use cliprelay.Text.{Bytes, Text, trim, is_empty, ascii}
use cliprelay.Core.{Json}
use cliprelay.Client.{
  ClientConfig, SavedClientConfig, max_room_code_len, max_server_url_len, max_device_name_len,
}

-- The lines that `validate_saved_config` lists.
pub data ConfigError : Type 0 where
  room_code_required server_url_required device_name_required wrong_scheme : ConfigError
  room_code_too_long server_url_too_long device_name_too_long : ℕ → ConfigError
  server_url_invalid : Text → ConfigError

-- The errors of saving and loading.
pub data ConfigFailure : Type 0 where
  please_fix : List ConfigError → ConfigFailure
  serialize_failed write_failed rename_failed : Text → ConfigFailure
  metadata_failed read_failed parse_failed : Text → ConfigFailure
  config_too_large : ℕ → ConfigFailure

-- A field that must be there, within a length.
unfoldable pub check_field : Text → ℕ → ConfigError → (ℕ → ConfigError) → List ConfigError
check_field field max_len required too_long =
    if is_empty (trim field)
    then required ∷ []
    else (if ltb max_len (length (trim field)) then too_long (length (trim field)) ∷ [] else [])

-- `Url::parse` and the scheme: `inl` is the parse error's text.
abbrev pub UrlScheme : Type 0
UrlScheme = Text → Text ⊎ Text

unfoldable pub check_scheme : Text ⊎ Text → List ConfigError
check_scheme (inl e) = server_url_invalid e ∷ []
check_scheme (inr scheme) =
    if not (scheme =? ascii "ws") && not (scheme =? ascii "wss") then wrong_scheme ∷ [] else []

unfoldable pub check_server_url : UrlScheme → Text → List ConfigError
check_server_url url_scheme url =
    if is_empty (trim url) || ltb max_server_url_len (length (trim url))
    then check_field url max_server_url_len server_url_required server_url_too_long
    else check_scheme (url_scheme (trim url))

unfoldable pub config_errors : UrlScheme → SavedClientConfig → List ConfigError
config_errors url_scheme cfg =
    check_field cfg.room_code max_room_code_len room_code_required room_code_too_long
    ++ (check_server_url url_scheme cfg.server_url
        ++ check_field cfg.device_name max_device_name_len device_name_required
            device_name_too_long)

unfoldable pub validate_saved_config :
    UrlScheme → SavedClientConfig → Result ConfigFailure (Unit {0})
validate_saved_config url_scheme cfg =
    let errors = config_errors url_scheme cfg in fail_if (not (is_empty errors)) (please_fix errors)

unfoldable pub trimmed : SavedClientConfig → SavedClientConfig
trimmed cfg = record {
  server_url = trim cfg.server_url;
  room_code = trim cfg.room_code;
  device_name = trim cfg.device_name;
  last_counter = cfg.last_counter;
}

abbrev pub max_config_bytes : ℕ
max_config_bytes = 64 * 1024

abbrev pub fails_with : Option Text → (Text → ConfigFailure) → Result ConfigFailure (Unit {0})
fails_with none failure = ok tt
fails_with (some e) failure = err (failure e)

-- What goes wrong in one attempt: the write of the temporary file, or the rename.
pub record Attempt : Type 0 where
  pub write_error : Option Text
  pub rename_error : Option Text

-- One attempt on the configuration file: the rename replaces it as a whole.
unfoldable pub try_save :
    Text → Attempt → Option Text → Option Text × Result ConfigFailure (Unit {0})
try_save payload attempt file = elim attempt.write_error [
  | some e ↦ (file, err (write_failed e))
  | none ↦ elim attempt.rename_error [
    | some e ↦ (file, err (rename_failed e))
    | none ↦ (some payload, ok tt)
  ]
]

-- `for attempt in 1..=MAX_ATTEMPTS`, with `left` attempts after this one. The pauses between them
-- change no state.
unfoldable pub save_attempts :
    Text → (ℕ → Attempt) → ℕ → Option Text → Option Text × Result ConfigFailure (Unit {0})
save_attempts payload attempts zero file = try_save payload (attempts 0) file
save_attempts payload attempts (suc left) file =
    let (file', answer) = try_save payload (attempts (suc left)) file in
    let later = save_attempts payload attempts left file' in
    elim answer [ err e ↦ later | ok u ↦ (file', ok u) | panic ↦ (file', panic) ]

module _ (url_scheme : UrlScheme) (json : Json SavedClientConfig) where
  -- Three attempts at most.
  unfoldable pub save_saved_config :
      SavedClientConfig
      → (ℕ → Attempt)
      → Option Text
      → Option Text × Result ConfigFailure (Unit {0})
  save_saved_config cfg attempts file = elim (validate_saved_config url_scheme (trimmed cfg)) [
    | err e ↦ (file, err e)
    | panic ↦ (file, panic)
    | ok u ↦ elim (json.to_vec (trimmed cfg)) [
      | inl e ↦ (file, err (serialize_failed e))
      | inr payload ↦ save_attempts payload attempts 2 file
    ]
  ]

  unfoldable pub parse_config : Text → Result ConfigFailure SavedClientConfig
  parse_config contents = elim (json.from_slice contents) [
    | inl e ↦ err (parse_failed e)
    | inr cfg ↦ ok cfg
  ]

  -- `metadata_error` and `read_error` are what the two system calls fail with, if they do.
  unfoldable pub load_saved_config :
      Option Text → Option Text → Option Text → Result ConfigFailure (Option SavedClientConfig)
  load_saved_config metadata_error read_error none = ok none
  load_saved_config metadata_error read_error (some contents) = do
    fails_with metadata_error metadata_failed
    fail_if (ltb max_config_bytes (length contents)) (config_too_large (length contents))
    fails_with read_error read_failed
    cfg ← parse_config contents
    validate_saved_config url_scheme cfg
    ok (some cfg)

  -- A failure is logged and no more.
  unfoldable pub persist_last_counter : ClientConfig → ℕ → (ℕ → Attempt) → Option Text → Option Text
  persist_last_counter config last_counter attempts file =
      let cfg : SavedClientConfig = record {
        server_url = config.server_url;
        room_code = config.room_code;
        device_name = config.device_name;
        last_counter = last_counter;
      } in
      (save_saved_config cfg attempts file).0
