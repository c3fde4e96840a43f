-- ===== src/Client/Window/Bounds.antt =====
-- The lists that the window keeps stay within their limits.
use cliprelay.Base.{
  if◌then◌else◌, Bool, ℕ, ◌≤◌, arith, true, false, List, [], ◌∷◌, length, Bool-cases, inl, inr, leb,
  length-append, length-take,
}
use cliprelay.Text.{Bytes, Text}
use cliprelay.Client.{
  room_key_ready, last_received, last_sent, peers, connection_status, runtime_error, incoming_file,
  incoming_clipboard, UiEvent, max_notifications, max_history_entries,
}
use cliprelay.Client.Window.{
  Effect, Window, Notification, ActivityEntry, Desktop, push_notification, push_history, with_entry,
  on_clipboard, on_file, on_ui_event, on_ui_events,
}

pub record IsBounded (w : Window) : Type 0 where
  pub notifications_le : length w.notifications ≤ max_notifications
  pub history_le : length w.history ≤ max_history_entries

push_notification-le :
    (ns : List Notification) (n : Notification)
    → length ns ≤ max_notifications
    → length (push_notification ns n).0 ≤ max_notifications
unfolding push_notification
push_notification-le [] n h = omega arith
push_notification-le (oldest ∷ ns) n h =
    elim (Bool-cases (leb max_notifications (length (oldest ∷ ns)))) [
      | inl full ↦ rw (full, push_notification) (omega (arith, length-append ns (n ∷ []), h))
      | inr room ↦ rw (room, push_notification) (ground (arith, length-append ns (n ∷ [])))
    ]

push_history-le :
    (history : List ActivityEntry) (entry : ActivityEntry)
    → length (push_history history entry) ≤ max_history_entries
unfolding push_history
push_history-le history entry = omega (arith, length-take max_history_entries (entry ∷ history))

either-IsBounded :
    (b : Bool) (x y : Window × List Effect)
    → IsBounded x.0
    → IsBounded y.0
    → IsBounded (if b then x else y).0
either-IsBounded true x y v w = v
either-IsBounded false x y v w = w

module _ (desktop : Desktop) where
  on_clipboard-IsBounded :
      (w : Window) (now : ℕ) (sender text : Text) (hash : Bytes)
      → IsBounded w
      → IsBounded (on_clipboard desktop w now sender text hash).0
  unfolding on_clipboard
  on_clipboard-IsBounded w now sender text hash v =
      either-IsBounded w.auto_apply _ _
        (either-IsBounded (desktop.applies text) _ _
          (record { notifications_le = v.notifications_le; history_le = v.history_le }) v)
        (record {
          notifications_le = push_notification-le w.notifications _ v.notifications_le;
          history_le = v.history_le;
        })

  on_file-IsBounded :
      (w : Window) (now : ℕ) (sender name path : Text) (size : ℕ)
      → IsBounded w
      → IsBounded (on_file desktop w now sender name path size).0
  unfolding on_file
  on_file-IsBounded w now sender name path size v = record {
    notifications_le = push_notification-le w.notifications _ v.notifications_le;
    history_le = v.history_le;
  }

  with_entry-IsBounded :
      (w : Window) (now : ℕ) (sender kind summary : Text)
      → IsBounded w
      → IsBounded (with_entry desktop w now sender kind summary)
  unfolding with_entry
  with_entry-IsBounded w now sender kind summary v = record {
    notifications_le = v.notifications_le;
    history_le = push_history-le w.history _;
  }

  on_ui_event-IsBounded :
      (w : Window) (now : ℕ) (event : UiEvent)
      → IsBounded w
      → IsBounded (on_ui_event desktop w now event).0
  unfolding on_ui_event
  on_ui_event-IsBounded w now (incoming_clipboard s t h) v =
      on_clipboard-IsBounded _ now s t h (with_entry-IsBounded w now s _ _ v)
  on_ui_event-IsBounded w now (incoming_file s f p n) v =
      on_file-IsBounded _ now s f p n (with_entry-IsBounded w now s _ _ v)
  on_ui_event-IsBounded w now (runtime_error e) v = record {
    notifications_le = v.notifications_le;
    history_le = v.history_le;
  }
  on_ui_event-IsBounded w now (connection_status e) v = record {
    notifications_le = v.notifications_le;
    history_le = v.history_le;
  }
  on_ui_event-IsBounded w now (peers e) v = record {
    notifications_le = v.notifications_le;
    history_le = v.history_le;
  }
  on_ui_event-IsBounded w now (last_sent e) v = record {
    notifications_le = v.notifications_le;
    history_le = v.history_le;
  }
  on_ui_event-IsBounded w now (last_received e) v = record {
    notifications_le = v.notifications_le;
    history_le = v.history_le;
  }
  on_ui_event-IsBounded w now (room_key_ready e) v = record {
    notifications_le = v.notifications_le;
    history_le = v.history_le;
  }

  -- From a window with at most 20 notifications and 200 entries of history: whatever events come, it
  -- has no more afterwards.
  pub on_ui_events-IsBounded :
      (w : Window) (now : ℕ) (events : List UiEvent)
      → IsBounded w
      → IsBounded (on_ui_events desktop w now events).0
  unfolding on_ui_events
  on_ui_events-IsBounded w now [] v = v
  on_ui_events-IsBounded w now (event ∷ events) v =
      on_ui_events-IsBounded (on_ui_event desktop w now event).0 now events
        (on_ui_event-IsBounded w now event v)
