-- ===== src/Client/Window.antt =====
-- The window's state, cliprelay-client/src/main.rs: what `render_running` does with each `UiEvent`,
-- `push_notification`, `resolve_peer_name`, `preview_text` and `compute_tray_status`. Drawing,
-- clicks and the tray icon are left out. The texts of the errors, decimal numbers and the system's
-- clipboard are parameters; the calls of `now_unix_ms` for one event read one value.
pub mod Bounds
pub mod Tray
use cliprelay.Base.{
  ℕ, zero, suc, Bool, true, false, not, ◌&&◌, Option, none, some, List, [], ◌∷◌, ◌++◌, length, take,
  leb, ◌==◌, ◌=?◌, if◌then◌else◌,
}
use cliprelay.Text.{Bytes, Text, ascii, chars, encode}
use cliprelay.Core.{PeerInfo}
use cliprelay.Client.{
  UiEvent, connection_status, peers, last_sent, last_received, room_key_ready, incoming_clipboard,
  incoming_file, runtime_error, Notice, RuntimeCommand, mark_applied, max_notifications,
  max_history_entries,
}

pub data Tab : Type 0 where
  send options notifications_tab : Tab

pub data TrayStatus : Type 0 where
  red amber green : TrayStatus

pub data Notification : Type 0 where
  text_notification : Text → Text → Text → Bytes → Notification
  file_notification : Text → Text → Text → Text → Notification

pub data ActivityDirection : Type 0 where
  sent received : ActivityDirection

pub record ActivityEntry : Type 0 where
  pub ts_unix_ms : ℕ
  pub direction : ActivityDirection
  pub peer_device_id : Text
  pub kind : Text
  pub summary : Text

-- The fields of `AppPhase::Running` that events change or are read for them.
pub record Window : Type 0 where
  pub active_tab : Tab
  pub status : Text
  pub peers : List PeerInfo
  pub notifications : List Notification
  pub auto_apply : Bool
  pub room_key_ready : Bool
  pub last_sent_time : Option ℕ
  pub last_received_time : Option ℕ
  pub last_error : Option Text
  pub history : List ActivityEntry
  pub toast_message : Option (Text × ℕ)

-- What an event causes outside: the history file written, a system notification with its title and
-- text, a command to the runtime, and a temporary file removed.
pub data Effect : Type 0 where
  save_history : List ActivityEntry → Effect
  notify : Text → Text → Effect
  command : RuntimeCommand → Effect
  remove_file : Text → Effect

pub record Desktop : Type 0 where
  pub message_of : Notice → Text
  pub decimal : ℕ → Text
  -- `apply_clipboard_text(…).is_ok()`.
  pub applies : Text → Bool

unfoldable pub preview_chars : List ℕ → ℕ → List ℕ
preview_chars [] n = []
preview_chars (c ∷ cs) zero = 0x2026 ∷ []
preview_chars (c ∷ cs) (suc n) = c ∷ preview_chars cs n

unfoldable pub preview_text : Text → ℕ → Text
preview_text text max_chars = encode (preview_chars (chars text) max_chars)

-- The temporary file of an evicted notification is removed.
unfoldable pub removed_files : Notification → List Effect
removed_files (text_notification s p t h) = []
removed_files (file_notification s p f path) = remove_file path ∷ []

-- The oldest stands first.
unfoldable pub push_notification :
    List Notification → Notification → List Notification × List Effect
push_notification [] n = (n ∷ [], [])
push_notification (oldest ∷ ns) n =
    if leb max_notifications (length (oldest ∷ ns))
    then (ns ++ (n ∷ []), removed_files oldest)
    else ((oldest ∷ ns) ++ (n ∷ []), [])

unfoldable pub resolve_peer_name : List PeerInfo → Text → Text
resolve_peer_name [] device_id = device_id
resolve_peer_name (p ∷ ps) device_id =
    let rest = resolve_peer_name ps device_id in
    if p.device_id =? device_id then p.device_name else rest

unfoldable pub starts_with : Text → Text → Bool
starts_with s [] = true
starts_with [] (c ∷ cs) = false
starts_with (b ∷ s) (c ∷ cs) = b == c && starts_with s cs

unfoldable pub compute_tray_status : Text → Bool → TrayStatus
compute_tray_status status ready =
    if starts_with status (ascii "Error")
    then red
    else (if status =? ascii "Connected" && ready then green else amber)

-- `push_front`, then `pop_back` while there are too many.
unfoldable pub push_history : List ActivityEntry → ActivityEntry → List ActivityEntry
push_history history entry = take max_history_entries (entry ∷ history)

abbrev pub is_notifications : Tab → Bool
is_notifications notifications_tab = true
is_notifications send = false
is_notifications options = false

abbrev pub toast_unless_seen : Window → Text → ℕ → Option (Text × ℕ)
toast_unless_seen w message now =
    if is_notifications w.active_tab then w.toast_message else some (message, now)

module _ (desktop : Desktop) where
  -- After the entry was added to the history.
  unfoldable pub on_clipboard : Window → ℕ → Text → Text → Bytes → Window × List Effect
  on_clipboard w now sender text content_hash =
      let name = resolve_peer_name w.peers sender in
      let body = ascii "From " ++ (name ++ (ascii ": " ++ preview_text text 100)) in
      let (notifications, removed) =
        push_notification w.notifications
          (text_notification sender (preview_text text 450) text content_hash) in
      if w.auto_apply
      then (if desktop.applies text
          then (
            record w { toast_message = some (ascii "Clipboard auto-applied from " ++ name, now) },
            command (mark_applied content_hash) ∷ notify (ascii "Clipboard auto-applied") body ∷ [],
          )
          else (w, []))
      else (
        record w {
          notifications = notifications;
          toast_message = toast_unless_seen w (ascii "New clipboard received") now;
        },
        notify (ascii "New clipboard received") body ∷ removed,
      )

  unfoldable pub on_file : Window → ℕ → Text → Text → Text → ℕ → Window × List Effect
  on_file w now sender file_name temp_path size_bytes =
      let name = resolve_peer_name w.peers sender in
      let size = desktop.decimal size_bytes in
      let body = file_name ++ (ascii " (" ++ (size ++ (ascii " bytes) from " ++ name))) in
      let preview =
        ascii "File: "
        ++ (file_name
            ++ ((0x0a ∷ ascii "Size: ")
                ++ (size
                    ++ (ascii " bytes"
                        ++ (0x0a
                            ∷ 0x0a
                            ∷ ascii "Click Save to store it in Downloads\\ClipRelay."))))) in
      let (notifications, removed) =
        push_notification w.notifications (file_notification sender preview file_name temp_path) in
      (
        record w {
          notifications = notifications;
          toast_message = toast_unless_seen w (ascii "New file received") now;
        },
        notify (ascii "New file received") body ∷ removed,
      )

  -- The entry that `IncomingClipboard` and `IncomingFile` add.
  unfoldable pub with_entry : Window → ℕ → Text → Text → Text → Window
  with_entry w now sender kind summary = record w {
    history = push_history w.history (record {
      ts_unix_ms = now;
      direction = received;
      peer_device_id = sender;
      kind = kind;
      summary = summary;
    });
  }

  -- One event.
  unfoldable pub on_ui_event : Window → ℕ → UiEvent → Window × List Effect
  on_ui_event w now (connection_status status) = (
    record w {
      status = status;
      last_error = if status =? ascii "Connected" then none else w.last_error;
    },
    [],
  )
  on_ui_event w now (peers ps) = (record w { peers = ps }, [])
  on_ui_event w now (last_sent ts) = (record w { last_sent_time = some ts }, [])
  on_ui_event w now (last_received ts) = (record w { last_received_time = some ts }, [])
  on_ui_event w now (room_key_ready ready) = (record w { room_key_ready = ready }, [])
  on_ui_event w now (incoming_clipboard sender text content_hash) =
      let w' = with_entry w now sender (ascii "text") (preview_text text 140) in
      let (after, effects) = on_clipboard w' now sender text content_hash in
      (after, save_history w'.history ∷ effects)
  on_ui_event w now (incoming_file sender file_name temp_path size_bytes) =
      let summary = file_name ++ (ascii " (" ++ (desktop.decimal size_bytes ++ ascii " bytes)")) in
      let w' = with_entry w now sender (ascii "file") summary in
      let (after, effects) = on_file w' now sender file_name temp_path size_bytes in
      (after, save_history w'.history ∷ effects)
  on_ui_event w now (runtime_error notice) =
      let message = desktop.message_of notice in
      (
        record w {
          last_error = some message;
          status = ascii "Error: " ++ message;
          room_key_ready = false;
        },
        [],
      )

  -- The events that have come, one after the other.
  unfoldable pub on_ui_events : Window → ℕ → List UiEvent → Window × List Effect
  on_ui_events w now [] = (w, [])
  on_ui_events w now (event ∷ events) =
      let (w', effects) = on_ui_event w now event in
      let (after, later) = on_ui_events w' now events in (after, effects ++ later)
