-- ===== src/Client/Runtime/Ended.antt =====
-- What is left when a session has ended: the key is forgotten, and the window knows.
use cliprelay.Client.{connection_status, peers, ClientConfig, room_key_ready, UiEvent}
use cliprelay.Client.Outgoing.{persist, queue, tell}
use cliprelay.Client.Connection.{Happening, Live, told, ping, frame, effect, World, Out}
use cliprelay.Client.Runtime.{
  run_single_session, linger, reconnecting, Round, Runtime, forget_session, one_round,
}
use cliprelay.Base.{arith, some, Option, refl, none, ap, ◌∷◌, ◌++◌, false, [], ◌≡◌, ◌=?◌, List, ℕ}
use cliprelay.Client.Window.{
  Window, Desktop, amber, on_ui_event, on_ui_events, compute_tray_status, starts_with,
}

-- The events among what is done outside, in order.
abbrev pub events_of : List Out → List UiEvent
events_of [] = []
events_of (effect (tell e) ∷ outs) = e ∷ events_of outs
events_of (effect (queue m) ∷ outs) = events_of outs
events_of (effect (persist n) ∷ outs) = events_of outs
events_of (frame bytes ∷ outs) = events_of outs
events_of (ping ∷ outs) = events_of outs

events_of-append : (a b : List Out) → events_of (a ++ b) ≡ events_of a ++ events_of b
events_of-append [] b = refl
events_of-append (effect (tell e) ∷ a) b = ap (λ (l : List UiEvent). e ∷ l) (events_of-append a b)
events_of-append (effect (queue m) ∷ a) b = events_of-append a b
events_of-append (effect (persist n) ∷ a) b = events_of-append a b
events_of-append (frame bytes ∷ a) b = events_of-append a b
events_of-append (ping ∷ a) b = events_of-append a b

on_ui_events-append :
    (desktop : Desktop) (w : Window) (now : ℕ) (a b : List UiEvent)
    → (on_ui_events desktop w now (a ++ b)).0
      ≡ (on_ui_events desktop (on_ui_events desktop w now a).0 now b).0
unfolding on_ui_events
on_ui_events-append desktop w now [] b = refl
on_ui_events-append desktop w now (e ∷ a) b =
    on_ui_events-append desktop (on_ui_event desktop w now e).0 now a b

-- The window shows that nobody is there.
pub record IsAlone (w : Window) : Type 0 where
  nobody : w.peers ≡ []
  not_ready : w.room_key_ready ≡ false
  is_amber : compute_tray_status w.status w.room_key_ready ≡ amber

forgotten-IsAlone :
    (desktop : Desktop) (w : Window) (now : ℕ)
    → IsAlone
        (on_ui_events desktop w now
          (room_key_ready false ∷ peers [] ∷ connection_status reconnecting ∷ [])).0
unfolding on_ui_events on_ui_event compute_tray_status starts_with ◌=?◌
forgotten-IsAlone desktop w now = record { nobody = refl; not_ready = refl; is_amber = refl }

linger-nil :
    (world : World) (config : ClientConfig) (rt : Runtime) (left : Option Live)
    (hs : List Happening)
    → hs ≡ []
    → let (last, still, outs) = linger world config rt left hs in (last ≡ rt) × (outs ≡ [])
unfolding linger
linger-nil world config rt none hs e = (refl, refl)
linger-nil world config rt (some live) [] e = (refl, refl)
linger-nil world config rt (some live) (h ∷ hs) e = absurd (ground arith)

-- After anything that ends with the events of `forget_session`.
forgets-IsAlone :
    (desktop : Desktop) (w : Window) (now : ℕ) (a b c : List Out)
    → c ≡ []
    → IsAlone
        (on_ui_events desktop w now (
          events_of (
            a
            ++ (b
                ++ (told (room_key_ready false ∷ peers [] ∷ connection_status reconnecting ∷ [])
                    ++ c))))).0
forgets-IsAlone desktop w now a b c e =
    let last : List Out =
      told (room_key_ready false ∷ peers [] ∷ connection_status reconnecting ∷ []) in
    let w' =
      (on_ui_events desktop (on_ui_events desktop w now (events_of a)).0 now (events_of b)).0 in
    rw
      (
        e,
        events_of-append a (b ++ (last ++ [])),
        on_ui_events-append desktop w now (events_of a) (events_of (b ++ (last ++ []))),
        events_of-append b (last ++ []),
        on_ui_events-append desktop (on_ui_events desktop w now (events_of a)).0 now (events_of b)
            (events_of (last ++ [])),
      )
      (forgotten-IsAlone desktop w' now)

-- A round in which the tasks that are left over do nothing after the key was forgotten, however it
-- goes before that, connected or not: there is no room key then, and the window, which has handled
-- every event of the round, shows no peers, no key, and an amber icon.
pub one_round-IsAlone :
    (world : World) (config : ClientConfig) (rt : Runtime) (s : Round) (desktop : Desktop)
    (w : Window) (now : ℕ)
    → s.after_forgotten ≡ []
    → let (next, outs) = one_round world config rt s in
      (next.shared.room_key ≡ none) × IsAlone (on_ui_events desktop w now (events_of outs)).0
unfolding one_round forget_session
one_round-IsAlone world config rt s desktop w now idle =
    let one = run_single_session world config rt s.dial s.happenings in
    let late = linger world config one.0 one.1 s.before_forgotten in
    let next = forget_session late.0 in
    let after = linger-nil world config next.0 late.1 s.after_forgotten idle in
    let end = linger world config next.0 late.1 s.after_forgotten in
    (
      ap (λ (r : Runtime). r.shared.room_key) after.0,
      forgets-IsAlone desktop w now one.2 late.2 end.2 after.1,
    )
