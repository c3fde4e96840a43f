-- ===== src/Client/Clicks.antt =====
-- What the window does with clicks while the client runs: `render_send_tab`, the switches and "Clear" of
-- `render_options_tab`, and the buttons of `render_notifications_tab` in cliprelay-client/src/main.rs.
-- Drawing is left out; what the system answers is an argument.
pub mod Sending
use cliprelay.Core.{max_clipboard_text_bytes}
use cliprelay.Text.{trim, is_empty, ascii, Text}
use cliprelay.Base.{
  length, none, leb, ◌++◌, some, ◌∷◌, ◌=?◌, ◌&&◌, not, if◌then◌else◌, [], Option, List, Bool, ℕ,
}
use cliprelay.Client.{mark_applied, set_auto_apply, ascii, Text, send_text, send_file}
use cliprelay.Client.Window.{
  file_notification, text_notification, ActivityEntry, Window, Notification, Desktop, Effect,
  command, remove_file, save_history, push_history, preview_text, resolve_peer_name, sent,
}

-- The window with the text in the field of the tab Send, and whether autostart is on.
pub record Screen : Type 0 where
  pub window : Window
  pub send_text : Text
  pub autostart_enabled : Bool

pub data NotificationAction : Type 0 where
  apply dismiss : NotificationAction

unfoldable pub can_send_file : Window → Bool
can_send_file w = w.status =? ascii "Connected" && w.room_key_ready

-- Whether the button "Send Text" is enabled.
unfoldable pub can_send : Screen → Bool
can_send s =
    can_send_file s.window
    && (not (is_empty (trim s.send_text)) && leb (length s.send_text) max_clipboard_text_bytes)

unfoldable pub sent_entry : ℕ → Text → Text → ActivityEntry
sent_entry now kind summary = record {
  ts_unix_ms = now;
  direction = sent;
  peer_device_id = ascii "room";
  kind = kind;
  summary = summary;
}

-- A click on "Send Text"; a button that is not enabled takes none.
unfoldable pub click_send_text : Screen → ℕ → Screen × List Effect
click_send_text s now =
    let history =
      push_history s.window.history
        (sent_entry now (ascii "text") (preview_text s.send_text 120)) in
    if can_send s
    then (
      record s {
        window = record s.window {
          history = history;
          toast_message = some (ascii "Sent to connected devices", now);
        };
        send_text = [];
      },
      save_history history ∷ command (send_text s.send_text) ∷ [],
    )
    else (s, [])

-- A click on "Send File…", with the path that is picked, if one is.
unfoldable pub click_send_file : Screen → ℕ → Option Text → Screen × List Effect
click_send_file s now none = (s, [])
click_send_file s now (some path) =
    let history = push_history s.window.history (sent_entry now (ascii "file") path) in
    if can_send_file s.window
    then (
      record s {
        window = record s.window {
          history = history;
          toast_message = some (ascii "Queued file: " ++ path, now);
        };
      },
      save_history history ∷ command (send_file path) ∷ [],
    )
    else (s, [])

unfoldable pub toggle_auto_apply : Window → ℕ → Window × List Effect
toggle_auto_apply w now =
    let on = not w.auto_apply in
    (
      record w {
        auto_apply = on;
        toast_message =
            some (if on then ascii "Auto-apply enabled" else ascii "Auto-apply disabled", now);
      },
      command (set_auto_apply on) ∷ [],
    )

-- `fails` is the answer of the registry.
unfoldable pub toggle_autostart : Screen → ℕ → Bool → Screen
toggle_autostart s now fails =
    let on = not s.autostart_enabled in
    let message : Text =
      if fails
      then ascii "Failed to update autostart setting"
      else (if on then ascii "Autostart enabled" else ascii "Autostart disabled") in
    record s {
      autostart_enabled = if fails then s.autostart_enabled else on;
      window = record s.window { toast_message = some (message, now) };
    }

-- The button is there only if there is a history.
unfoldable pub click_clear : Window → ℕ → Window × List Effect
click_clear w now = if is_empty w.history then (w, []) else (
  record w { history = []; toast_message = some (ascii "Activity history cleared", now) },
  save_history [] ∷ [],
)

-- Applying a notification that was taken out of the list: the text to the clipboard, or the file to the
-- downloads. `saved` is the outcome of saving.
unfoldable pub apply_notification :
    Desktop → Window → ℕ → Notification → Option Text → Window × List Effect
apply_notification desktop w now (text_notification sender preview full_text content_hash) saved =
    let name = resolve_peer_name w.peers sender in
    if desktop.applies full_text
    then (
      record w { toast_message = some (ascii "Clipboard applied from " ++ name, now) },
      command (mark_applied content_hash) ∷ [],
    )
    else (record w { toast_message = some (ascii "Failed to apply clipboard text", now) }, [])
apply_notification desktop w now (file_notification sender preview file_name temp_path)
      (some dest) =
    let name = resolve_peer_name w.peers sender in
    (
      record w {
        toast_message = some (ascii "Saved file from " ++ (name ++ (ascii " to " ++ dest)), now);
      },
      remove_file temp_path ∷ [],
    )
apply_notification desktop w now (file_notification sender preview file_name temp_path) none =
    (record w { toast_message = some (ascii "Failed to save received file", now) }, [])

unfoldable pub dismissed : Notification → List Effect
dismissed (text_notification s p t h) = []
dismissed (file_notification s p f path) = remove_file path ∷ []

-- A button under the first notification; either takes it out of the list.
unfoldable pub on_notification :
    Desktop
    → Window
    → ℕ
    → List Notification
    → NotificationAction
    → Option Text
    → Window × List Effect
on_notification desktop w now [] action saved = (w, [])
on_notification desktop w now (n ∷ ns) apply saved =
    apply_notification desktop (record w { notifications = ns }) now n saved
on_notification desktop w now (n ∷ ns) dismiss saved =
    (record w { notifications = ns }, dismissed n)
