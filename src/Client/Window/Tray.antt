-- ===== src/Client/Window/Tray.antt =====
-- The colour of the tray icon.
use cliprelay.Base.{
  ◌∙◌, ap, if◌then◌else◌, ==_refl, ℕ, ◌≡◌, refl, arith, Bool, true, false, List, [], ◌∷◌, ◌++◌,
  ◌=?◌, ◌↔◌, Bool-cases, inl, inr, =?→eq, =?_refl,
}
use cliprelay.Text.{Text, ascii}
use cliprelay.Client.{
  incoming_file, incoming_clipboard, room_key_ready, last_received, last_sent, peers, runtime_error,
  connection_status, Bytes, UiEvent,
}
use cliprelay.Client.Window.{
  preview_text, Effect, Window, Desktop, green, red, starts_with, compute_tray_status, on_ui_event,
  on_ui_events, with_entry, on_clipboard, on_file,
}

pub starts_with-append : (p s : Text) → starts_with (p ++ s) p ≡ true
unfolding starts_with
starts_with-append [] s = refl
starts_with-append (c ∷ p) s = rw (==_refl c) (starts_with-append p s)

pub connected_no_error : starts_with (ascii "Connected") (ascii "Error") ≡ false
unfolding starts_with
connected_no_error = refl

green_only :
    (status : Text) (ready : Bool)
    → compute_tray_status status ready ≡ green
    → (status ≡ ascii "Connected") × (ready ≡ true)
unfolding compute_tray_status
green_only status ready e = elim (Bool-cases (starts_with status (ascii "Error"))) [
  | inl bad ↦ absurd (ground arith)
  | inr fine ↦ elim (Bool-cases (status =? ascii "Connected")) [
    | inl same ↦ (=?→eq status (ascii "Connected") same, ground arith)
    | inr other ↦ absurd (ground arith)
  ]
]

pub red_of_error :
    (status : Text) (ready : Bool)
    → starts_with status (ascii "Error") ≡ true
    → compute_tray_status status ready ≡ red
unfolding compute_tray_status
red_of_error status ready e = rw (e, compute_tray_status) refl

connected_green : compute_tray_status (ascii "Connected") true ≡ green
unfolding compute_tray_status
connected_green =
    rw (connected_no_error, compute_tray_status, =?_refl (ascii "Connected"), compute_tray_status)
      refl

-- The icon is green exactly while the client is connected and the room key is ready.
compute_tray_status-green_iff :
    (status : Text) (ready : Bool)
    → (compute_tray_status status ready ≡ green) ↔ ((status ≡ ascii "Connected") × (ready ≡ true))
compute_tray_status-green_iff status ready =
    (λ e. green_only status ready e, λ h. rw (h.0, h.1) connected_green)

-- No event is the report of a connection.
abbrev pub IsWithoutStatus : List UiEvent → Type 0
IsWithoutStatus [] = Unit {0}
IsWithoutStatus (connection_status s ∷ events) = ⊥
IsWithoutStatus (e ∷ events) = IsWithoutStatus events

either-status :
    (b : Bool) (x y : Window × List Effect) (s : Text)
    → x.0.status ≡ s
    → y.0.status ≡ s
    → (if b then x else y).0.status ≡ s
either-status true x y s v w = v
either-status false x y s v w = w

module _ (desktop : Desktop) where
  clipboard-status :
      (w : Window) (now : ℕ) (sender text : Text) (hash : Bytes)
      → (on_clipboard desktop w now sender text hash).0.status ≡ w.status
  unfolding on_clipboard
  clipboard-status w now sender text hash =
      either-status w.auto_apply _ _ w.status
        (either-status (desktop.applies text) _ _ w.status refl refl) refl

  -- The status says an error until the status of a connection is reported.
  pub events-status :
      (events : List UiEvent) (w : Window) (now : ℕ)
      → IsWithoutStatus events
      → starts_with w.status (ascii "Error") ≡ true
      → starts_with (on_ui_events desktop w now events).0.status (ascii "Error") ≡ true
  unfolding on_ui_events on_ui_event on_file with_entry
  events-status [] w now quiet e = e
  events-status (connection_status s ∷ events) w now quiet e = absurd quiet
  events-status (peers ps ∷ events) w now quiet e = events-status events _ now quiet e
  events-status (last_sent t ∷ events) w now quiet e = events-status events _ now quiet e
  events-status (last_received t ∷ events) w now quiet e = events-status events _ now quiet e
  events-status (room_key_ready b ∷ events) w now quiet e = events-status events _ now quiet e
  events-status (incoming_clipboard s t h ∷ events) w now quiet e =
      events-status events _ now quiet (
        ap (λ (x : Text). starts_with x (ascii "Error"))
          (clipboard-status (with_entry desktop w now s (ascii "text") (preview_text t 140)) now s t
            h)
        ∙ e)
  events-status (incoming_file s f p n ∷ events) w now quiet e = events-status events _ now quiet e
  events-status (runtime_error n ∷ events) w now quiet e =
      events-status events _ now quiet
        (starts_with-append (ascii "Error") (ascii ": " ++ desktop.message_of n))
