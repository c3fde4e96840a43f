-- ===== src/Client/Config/Valid.antt =====
-- Which configurations are accepted.
use cliprelay.Base.{
  not, =?→eq, ◌||◌, ltb_false→le, fail_if, ap, le→ltb_false, ℕ, ◌≤◌, ◌≡◌, refl, arith, false,
  Bool-cases, inl, inr, List, [], ◌∷◌, ◌++◌, length, ok, ltb, ◌=?◌, =?_iff, ◌↔◌, ◌⊎◌,
}
use cliprelay.Text.{Text, trim, is_empty, ascii}
use cliprelay.Client.{SavedClientConfig, max_room_code_len, max_server_url_len, max_device_name_len}
use cliprelay.Client.Config.{
  device_name_too_long, server_url_too_long, please_fix, device_name_required, server_url_required,
  room_code_too_long, room_code_required, ConfigError, UrlScheme, check_field, check_scheme,
  check_server_url, config_errors, validate_saved_config,
}

-- A text that is not blank, and of a length in bytes, without the blanks around it.
pub record IsField (field : Text) (max_len : ℕ) : Type 0 where
  pub visible : is_empty (trim field) ≡ false
  pub field_le : length (trim field) ≤ max_len

-- The URL parses, with the scheme of a WebSocket.
abbrev pub IsWebSocket : UrlScheme → Text → Type 0
IsWebSocket url_scheme url =
    (url_scheme (trim url) ≡ inr (ascii "ws")) ⊎ (url_scheme (trim url) ≡ inr (ascii "wss"))

pub record IsValid (url_scheme : UrlScheme) (cfg : SavedClientConfig) : Type 0 where
  pub room_code : IsField cfg.room_code max_room_code_len
  pub server_url : IsField cfg.server_url max_server_url_len
  pub socket : IsWebSocket url_scheme cfg.server_url
  pub device_name : IsField cfg.device_name max_device_name_len

IsField-of_no_error :
    (field : Text) (max_len : ℕ) (required : ConfigError) (too_long : ℕ → ConfigError)
    → check_field field max_len required too_long ≡ []
    → IsField field max_len
unfolding check_field
IsField-of_no_error field max_len required too_long e = elim (Bool-cases (is_empty (trim field))) [
  | inl blank ↦ absurd (ground arith)
  | inr visible ↦ elim (Bool-cases (ltb max_len (length (trim field)))) [
    | inl long ↦ absurd (ground arith)
    | inr short ↦ record {
      visible = visible;
      field_le = ltb_false→le max_len (length (trim field)) short;
    }
  ]
]

no_error :
    (field : Text) (max_len : ℕ) (required : ConfigError) (too_long : ℕ → ConfigError)
    → IsField field max_len
    → check_field field max_len required too_long ≡ []
unfolding check_field
no_error field max_len required too_long v =
    rw (v.visible, check_field, le→ltb_false max_len (length (trim field)) v.field_le, check_field)
      refl

check_field_iff :
    (field : Text) (max_len : ℕ) (required : ConfigError) (too_long : ℕ → ConfigError)
    → (check_field field max_len required too_long ≡ []) ↔ IsField field max_len
check_field_iff field max_len required too_long = (
  λ e. IsField-of_no_error field max_len required too_long e,
  λ v. no_error field max_len required too_long v,
)

check_scheme_iff :
    (answer : Text ⊎ Text)
    → (check_scheme answer ≡ []) ↔ ((answer ≡ inr (ascii "ws")) ⊎ (answer ≡ inr (ascii "wss")))
unfolding check_scheme
check_scheme_iff (inl e) = (λ h. absurd (ground arith), λ h. absurd (ground arith))
check_scheme_iff (inr s) = (
  λ h. elim (Bool-cases (s =? ascii "ws")) [
    | inl ws ↦ inl (ap inr (=?→eq s (ascii "ws") ws))
    | inr other ↦ elim (Bool-cases (s =? ascii "wss")) [
      | inl wss ↦ inr (ap inr (=?→eq s (ascii "wss") wss))
      | inr neither ↦ absurd (ground arith)
    ]
  ],
  λ h. elim h [
    | inl ws ↦ ground (arith, =?_iff s (ascii "ws"))
    | inr wss ↦ ground (arith, =?_iff s (ascii "wss"))
  ],
)

empty_of_ok :
    (errors : List ConfigError)
    → fail_if (not (is_empty errors)) (please_fix errors) ≡ ok tt
    → errors ≡ []
empty_of_ok [] e = refl
empty_of_ok (x ∷ errors) e = absurd (ground arith)

append_nil_iff : (a b : List ConfigError) → (a ++ b ≡ []) ↔ ((a ≡ []) × (b ≡ []))
append_nil_iff [] b = (λ e. (refl, e), λ h. h.1)
append_nil_iff (x ∷ a) b = (λ e. absurd (ground arith), λ h. absurd (ground arith))

IsField-of_no_url_error :
    (url_scheme : UrlScheme) (url : Text)
    → check_server_url url_scheme url ≡ []
    → IsField url max_server_url_len × IsWebSocket url_scheme url
unfolding check_server_url
IsField-of_no_url_error url_scheme url e =
    elim (Bool-cases (is_empty (trim url) || ltb max_server_url_len (length (trim url)))) [
      | inl bad ↦
          let none_found : check_field url max_server_url_len server_url_required
                server_url_too_long
              ≡ [] =
            ground arith in
          let v =
            IsField-of_no_error url max_server_url_len server_url_required server_url_too_long
              none_found in
          absurd (ground (arith, v.visible, v.field_le))
      | inr fine ↦
          let none_found : check_scheme (url_scheme (trim url)) ≡ [] = ground arith in
          (
            record { visible = ground arith; field_le = ground arith },
            (check_scheme_iff (url_scheme (trim url))).0 none_found,
          )
    ]

no_server_url_error :
    (url_scheme : UrlScheme) (url : Text)
    → IsField url max_server_url_len
    → IsWebSocket url_scheme url
    → check_server_url url_scheme url ≡ []
unfolding check_server_url
no_server_url_error url_scheme url v socket =
    rw
      (
        v.visible,
        check_server_url,
        le→ltb_false max_server_url_len (length (trim url)) v.field_le,
        check_server_url,
      )
      ((check_scheme_iff (url_scheme (trim url))).1 socket)

IsValid-of_ok :
    (url_scheme : UrlScheme) (cfg : SavedClientConfig)
    → validate_saved_config url_scheme cfg ≡ ok tt
    → IsValid url_scheme cfg
unfolding validate_saved_config config_errors
IsValid-of_ok url_scheme cfg e =
    let clean : config_errors url_scheme cfg ≡ [] = empty_of_ok (config_errors url_scheme cfg) e in
    let (room, rest) = (append_nil_iff _ _).0 clean in
    let (url, device) = (append_nil_iff _ _).0 rest in
    let (server, socket) = IsField-of_no_url_error url_scheme cfg.server_url url in
    record {
      room_code =
          (check_field_iff cfg.room_code max_room_code_len room_code_required room_code_too_long).0
            room;
      server_url = server;
      socket = socket;
      device_name =
          (check_field_iff cfg.device_name max_device_name_len device_name_required
              device_name_too_long).0
            device;
    }

ok_of_IsValid :
    (url_scheme : UrlScheme) (cfg : SavedClientConfig)
    → IsValid url_scheme cfg
    → validate_saved_config url_scheme cfg ≡ ok tt
unfolding validate_saved_config config_errors
ok_of_IsValid url_scheme cfg v =
    rw
      (
        no_error cfg.room_code max_room_code_len room_code_required room_code_too_long v.room_code,
        no_server_url_error url_scheme cfg.server_url v.server_url v.socket,
        no_error cfg.device_name max_device_name_len device_name_required device_name_too_long
            v.device_name,
      )
      refl

-- A configuration is accepted exactly when its three texts are not blank and not too long, without
-- the blanks around them, and its URL has the scheme ws or wss.
pub validate_saved_config_iff :
    (url_scheme : UrlScheme) (cfg : SavedClientConfig)
    → (validate_saved_config url_scheme cfg ≡ ok tt) ↔ IsValid url_scheme cfg
validate_saved_config_iff url_scheme cfg =
    (λ e. IsValid-of_ok url_scheme cfg e, λ v. ok_of_IsValid url_scheme cfg v)
