-- ===== src/Client/Clicks/Sending.antt =====
-- When the user can send.
use cliprelay.Core.{encrypted, max_clipboard_text_bytes, EncryptedPayload}
use cliprelay.Client.Window.Tray.{
  connected_no_error, starts_with-append, events-status, red_of_error, IsWithoutStatus,
}
use cliprelay.Client.Transfer.{Outside}
use cliprelay.Core.Cipher.{encrypt_clipboard_event, Primitives}
use cliprelay.Client.{
  send_text, Bytes, runtime_error, SharedRuntimeState, UiEvent, ClientConfig, Notice,
}
use cliprelay.Text.{Bytes, trim, is_empty, ascii, Text}
use cliprelay.Client.Clicks.{
  max_clipboard_text_bytes, trim, is_empty, can_send_file, ascii, Screen, click_send_text, can_send,
}
use cliprelay.Base.{
  here, there, In, ok, ◌++◌, arith, some, length, =?→eq, inl, ◌∷◌, ltb, inr, refl, Bool-cases, ◌=?◌,
  false, true, ◌≡◌, List, Bool, ℕ,
}
use cliprelay.Client.Window.{
  red, Window, Desktop, on_ui_events, on_ui_event, compute_tray_status, starts_with,
}
use cliprelay.Client.Outgoing.{queue, Clock, on_send_text, text_event, saturating_suc}
use cliprelay.Client.Window.{command}

error_not_connected :
    (status : Text)
    → starts_with status (ascii "Error") ≡ true
    → (status =? ascii "Connected") ≡ false
error_not_connected status e = elim (Bool-cases (status =? ascii "Connected")) [
  | inr other ↦ other
  | inl same ↦
      let is_connected : status ≡ ascii "Connected" = =?→eq status (ascii "Connected") same in
      let no_error : starts_with status (ascii "Error") ≡ false =
        rw is_connected connected_no_error in
      absurd (ground (arith, e, no_error))
]

-- The state after a runtime error and other events shows no connection: the icon is red, and both
-- buttons for sending are not enabled.
pub record IsBlocked (w : Window) (entered : Text) (autostart : Bool) : Type 0 where
  pub is_red : compute_tray_status w.status w.room_key_ready ≡ red
  pub no_text :
      can_send (record { window = w; send_text = entered; autostart_enabled = autostart }) ≡ false
  pub no_file : can_send_file w ≡ false

IsBlocked-of_error :
    (w : Window) (entered : Text) (autostart : Bool)
    → starts_with w.status (ascii "Error") ≡ true
    → IsBlocked w entered autostart
unfolding can_send can_send_file
IsBlocked-of_error w entered autostart e =
    let no = error_not_connected w.status e in
    record {
      is_red = red_of_error w.status w.room_key_ready e;
      no_text = rw no refl;
      no_file = rw no refl;
    }

-- After any runtime error, also one that leaves the connection as it is, such as a text that is too
-- long: until the status of a connection is reported, the icon is red and the user can send neither
-- text nor files, also when the key gets ready and texts come in.
pub runtime_error-IsBlocked :
    (desktop : Desktop) (w : Window) (now : ℕ) (notice : Notice) (events : List UiEvent)
    (entered : Text) (autostart : Bool)
    → IsWithoutStatus events
    → IsBlocked (on_ui_events desktop w now (runtime_error notice ∷ events)).0 entered autostart
unfolding on_ui_events on_ui_event
runtime_error-IsBlocked desktop w now notice events entered autostart quiet =
    let w' = (on_ui_event desktop w now (runtime_error notice)).0 in
    let after = (on_ui_events desktop w' now events).0 in
    IsBlocked-of_error after entered autostart (
      events-status desktop events w' now quiet
        (starts_with-append (ascii "Error") (ascii ": " ++ desktop.message_of notice)))

can_send-fits :
    (s : Screen)
    → can_send s ≡ true
    → (is_empty (trim s.send_text) ≡ false)
      × (ltb max_clipboard_text_bytes (length s.send_text) ≡ false)
unfolding can_send
can_send-fits s e = (ground arith, ground arith)

-- Where "Send Text" is enabled, the runtime has a room key and the text can be encrypted: a click
-- hands the text to the runtime, which queues it encrypted under the next counter.
pub click_send_text-queued :
    (prim : Primitives) (outside : Outside) (config : ClientConfig) (shared : SharedRuntimeState)
    (counter : ℕ) (clock : Clock) (s : Screen) (now : ℕ) (key : Bytes) (payload : EncryptedPayload)
    → can_send s ≡ true
    → shared.room_key ≡ some key
    → encrypt_clipboard_event prim key
        (text_event config clock (saturating_suc counter) s.send_text)
      ≡ ok payload
    → In (command (send_text s.send_text)) (click_send_text s now).1
      × In
          (queue (encrypted payload))
          (on_send_text prim outside config shared counter clock s.send_text).1
unfolding click_send_text on_send_text
click_send_text-queued prim outside config shared counter clock s now key payload enabled has_key
      made =
    let (visible, short) = can_send-fits s enabled in
    (
      rw (enabled, click_send_text) (there here),
      rw (visible, on_send_text, short, on_send_text, has_key, on_send_text, made) here,
    )
