-- ===== src/Tests/WindowRuns.antt =====
-- cliprelay-client's window and configuration at concrete inputs.
use cliprelay.Client.UiState.Clamp.Inside.{clamp_placement_in_rect-IsInside, IsInside}
use cliprelay.Client.UiState.Clamp.{
  max_i32, clamp_u32, clamp_i32, position, max_size, clamp_placement_in_rect,
}
use cliprelay.Client.UiState.{WindowPlacement, SavedUiState, IoFaults, save_ui_state_with_retry}
use cliprelay.Client.UiState.Saved.{IsAtomic, save_ui_state_with_retry-IsAtomic}
use cliprelay.Base.Int.{pos, negsuc, wrap_i32, as_i32, as_u32, ◌-ℤ◌, ◌+ℤ◌}
use cliprelay.Base.{
  Option, zero, suc, ℕ, ◌≡◌, ◌↔◌, ◌⊎◌, ◌≤◌, refl, arith, true, false, some, none, List, [], ◌∷◌, ok,
  inr, inl, ◌=?◌, length, take-append, drop-append,
}
use cliprelay.Text.{Bytes, Text, ascii, trim}
use cliprelay.Core.{Json, RoundTrips}
use cliprelay.Client.{SavedClientConfig, UiEvent, incoming_clipboard}
use cliprelay.Client.Window.{Window, Desktop, on_ui_events, send}
use cliprelay.Client.Window.Bounds.{IsBounded, on_ui_events-IsBounded}
use cliprelay.Client.Config.{
  UrlScheme, Attempt, validate_saved_config, save_saved_config, save_attempts, try_save,
  load_saved_config, trimmed, config_errors, check_field, check_server_url, check_scheme,
  max_config_bytes,
}
use cliprelay.Client.Config.Valid.{IsValid, validate_saved_config_iff}
use cliprelay.Client.Config.Saved.{save_saved_config-keeps, load_saved_config-save_saved_config}
use cliprelay.Tests.Samples.{field, field_of, rest_of, laptop}

abbrev pub sample_desktop : Desktop
sample_desktop = record {
  message_of = λ n. ascii "failed";
  decimal = λ n. n ∷ [];
  applies = λ t. true;
}

abbrev pub new_window : Window
new_window = record {
  active_tab = send;
  status = ascii "Connected";
  peers = [];
  notifications = [];
  auto_apply = false;
  room_key_ready = true;
  last_sent_time = none;
  last_received_time = none;
  last_error = none;
  history = [];
  toast_message = none;
}

new_window-IsBounded : IsBounded new_window
new_window-IsBounded = record { notifications_le = omega arith; history_le = omega arith }

abbrev one_text : List UiEvent
one_text = incoming_clipboard laptop (ascii "hi") (7 ∷ []) ∷ []

on_ui_events-IsBounded_example : IsBounded (on_ui_events sample_desktop new_window 5 one_text).0
on_ui_events-IsBounded_example =
    on_ui_events-IsBounded sample_desktop new_window 5 one_text new_window-IsBounded

abbrev pub always_ws : UrlScheme
always_ws url = inr (ascii "ws")

abbrev den_config : SavedClientConfig
den_config = record {
  server_url = ascii "ws://relay";
  room_code = ascii " den ";
  device_name = ascii "Phone";
  last_counter = 3;
}

validate_saved_config_iff_example :
    (validate_saved_config always_ws den_config ≡ ok tt) ↔ IsValid always_ws den_config
validate_saved_config_iff_example = validate_saved_config_iff always_ws den_config

abbrev write_config : SavedClientConfig → Text ⊎ Bytes
write_config cfg =
    inr (cfg.last_counter ∷ field cfg.server_url (field cfg.room_code (field cfg.device_name [])))

abbrev read_config : Bytes → Text ⊎ SavedClientConfig
read_config [] = inl []
read_config (n ∷ b) = inr (record {
  server_url = field_of b;
  room_code = field_of (rest_of b);
  device_name = field_of (rest_of (rest_of b));
  last_counter = n;
})

abbrev pub config_json : Json SavedClientConfig
config_json = record { to_vec = write_config; from_slice = read_config }

config_fields :
    (n : ℕ) (u r d : Text)
    → read_config (n ∷ field u (field r (field d [])))
      ≡ inr (record { server_url = u; room_code = r; device_name = d; last_counter = n })
config_fields n u r d = rw (
  take-append u (field r (field d [])),
  drop-append u (field r (field d [])),
  take-append r (field d []),
  drop-append r (field d []),
  take-append d [],
)

pub config_json-RoundTrips : RoundTrips config_json
config_json-RoundTrips cfg b e =
    ground (arith, config_fields cfg.last_counter cfg.server_url cfg.room_code cfg.device_name)

abbrev locked : ℕ → Option Text
locked zero = none
locked (suc zero) = none
locked (suc (suc n)) = some (ascii "locked")

-- The first attempt cannot rename; the next one does.
abbrev pub one_failure : ℕ → Attempt
one_failure n = record { write_error = none; rename_error = locked n }

save_saved_config-keeps_example :
    ((save_saved_config always_ws config_json den_config one_failure none).1 ≡ ok tt)
    ⊎ ((save_saved_config always_ws config_json den_config one_failure none).0 ≡ none)
save_saved_config-keeps_example =
    save_saved_config-keeps always_ws config_json den_config one_failure none

saved : (save_saved_config always_ws config_json den_config one_failure none).1 ≡ ok tt
unfolding save_saved_config validate_saved_config config_errors check_field check_server_url
    check_scheme save_attempts try_save trimmed trim ◌=?◌
saved = refl

small :
    (payload : Text)
    → config_json.to_vec (trimmed den_config) ≡ inr payload
    → length payload ≤ max_config_bytes
unfolding trimmed trim
small payload e = ground arith

load_saved_config-save_saved_config_example :
    load_saved_config always_ws config_json none none
      (save_saved_config always_ws config_json den_config one_failure none).0
    ≡ ok (some (trimmed den_config))
load_saved_config-save_saved_config_example =
    load_saved_config-save_saved_config always_ws config_json den_config one_failure none
      config_json-RoundTrips small saved

abbrev blank_state : SavedUiState
blank_state = record { send = none; options = none; popup = none; hotkey = none }

abbrev state_json : Json SavedUiState
state_json = record { to_vec = λ state. inr []; from_slice = λ b. inr blank_state }

abbrev no_rename : ℕ → IoFaults
no_rename n = record { write_fault = none; rename_fault = some (ascii "locked") }

save_ui_state_with_retry-IsAtomic_example :
    IsAtomic state_json blank_state none
      (save_ui_state_with_retry state_json blank_state no_rename none)
save_ui_state_with_retry-IsAtomic_example =
    save_ui_state_with_retry-IsAtomic state_json blank_state no_rename none

-- Far too large, and off the screen to the left.
abbrev off_screen : WindowPlacement
off_screen = record { x = negsuc 49; y = pos 900; w = 5000; h = 300 }

clamp_placement_in_rect-IsInside_example :
    (p : WindowPlacement) × (clamp_placement_in_rect off_screen 400 300
        (pos 8)
        (pos 0, pos 0, pos 1920, pos 1080)
      ≡ some p)
    × IsInside p 400 300 (pos 0) (pos 0) (pos 1920) (pos 1080)
clamp_placement_in_rect-IsInside_example =
    clamp_placement_in_rect-IsInside off_screen 400 300 8 1920 1080 (pos 0) (pos 0) (pos 1920)
      (pos 1080) (omega arith, omega arith) (omega arith, omega arith) (omega arith, omega arith)
      (omega arith, omega arith) (omega arith) (omega arith) (omega arith) (omega arith)
      (omega arith) (omega arith)

clamped_window :
    clamp_placement_in_rect off_screen 400 300 (pos 8) (pos 0, pos 0, pos 1920, pos 1080)
    ≡ some (record { x = pos 0; y = pos 780; w = 1904; h = 300 })
unfolding clamp_placement_in_rect max_size position clamp_i32 clamp_u32 max_i32 wrap_i32 as_i32
    as_u32 ◌-ℤ◌ ◌+ℤ◌
clamped_window = refl
