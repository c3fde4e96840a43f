-- ===== src/Client/Phase/Configured.antt =====
-- Whatever way the client comes to run, its configuration was checked.
use cliprelay.Text.{Text}
use cliprelay.Client.Config.Valid.{validate_saved_config_iff, IsValid}
use cliprelay.Client.{ClientConfig, Text, SavedClientConfig}
use cliprelay.Client.Config.{
  save_saved_config, validate_saved_config, ConfigFailure, load_saved_config,
}
use cliprelay.Client.Phase.{
  reconnects, changes_room, works, sets_up, goes_on, chooses, begins, started, run, Step, Reachable,
  connect, cancel_choice, setup_new, cancel_setup, config_of, running, use_saved, setup,
  SetupAction, SavedClientConfig, ClientArgs, ChooseRoomAction, App, placeholder_running_phase,
  choose_room, Moment, start_running, resolve_initial_phase, reconnect, phase_of_saved,
  phase_of_args, on_setup, on_choose_room, load_saved_config, change_room, AppPhase, Machine,
}
use cliprelay.Base.{
  sym, false, subst, Sum-cases, panic, refl, err, true, arith, Bool, ok, ◌≡◌, Option-cases,
  Bool-cases, none, Result-cases, Result, some, inr, Option, inl, ◌⊎◌, ℕ,
}

module _ (m : Machine) where
  -- What the phase holds was checked: the configuration of a running client is made of one that is
  -- valid, and so is one that is offered.
  abbrev pub IsChecked : AppPhase → Type 0
  IsChecked (choose_room (some cfg)) = IsValid m.url_scheme cfg
  IsChecked (choose_room none) = Unit {0}
  IsChecked (setup r s d e) = Unit {0}
  IsChecked (running config w) =
      (saved : SavedClientConfig) × IsValid m.url_scheme saved
      × (background : Bool) × (config ≡ config_of m saved background)

  IsValid-of_loaded :
      (now : Moment) (file : Option Text) {cfg : SavedClientConfig}
      → load_saved_config m.url_scheme m.json now.metadata_error now.read_error file ≡ ok (some cfg)
      → IsValid m.url_scheme cfg
  unfolding load_saved_config
  IsValid-of_loaded now none e = absurd (ground arith)
  IsValid-of_loaded now (some contents) {cfg} e =
      let valid : validate_saved_config m.url_scheme cfg ≡ ok tt = ground arith in
      (validate_saved_config_iff m.url_scheme cfg).0 valid

  IsChecked-start_running :
      (now : Moment) (saved : SavedClientConfig) (app : App)
      → IsValid m.url_scheme saved
      → IsChecked app.phase
      → IsChecked (start_running m now saved app).phase
  unfolding start_running
  IsChecked-start_running now saved app v before = elim (Bool-cases now.runtime_starts) [
    | inl starts ↦ rw (starts, start_running) (saved, v, app.args.background, refl)
    | inr fails ↦ rw (fails, start_running) before
  ]

  IsChecked-on_choose_room :
      (now : Moment) (action : ChooseRoomAction) (saved : Option SavedClientConfig) (app : App)
      → IsChecked (choose_room saved)
      → IsChecked app.phase
      → IsChecked (on_choose_room m now saved action app).phase
  unfolding on_choose_room
  IsChecked-on_choose_room now use_saved (some cfg) app v before =
      IsChecked-start_running now cfg app v before
  IsChecked-on_choose_room now use_saved none app v before = before
  IsChecked-on_choose_room now setup_new (some cfg) app v before = tt
  IsChecked-on_choose_room now setup_new none app v before = tt
  IsChecked-on_choose_room now cancel_choice saved app v before = before

  IsChecked-on_setup :
      (now : Moment) (action : Option SetupAction) (r s d : Text) (message : Option ConfigFailure)
      (app : App)
      → IsChecked app.phase
      → IsChecked (on_setup m now r s d message action app).phase
  unfolding on_setup
  IsChecked-on_setup now none r s d message app before = tt
  IsChecked-on_setup now (some cancel_setup) r s d message app before = before
  IsChecked-on_setup now (some connect) r s d message app before =
      let cfg : SavedClientConfig = record {
        server_url = s;
        room_code = r;
        device_name = d;
        last_counter = 0;
      } in
      let saved = (save_saved_config m.url_scheme m.json cfg now.attempts app.file).0 in
      elim (Result-cases (validate_saved_config m.url_scheme cfg)) [
        | inl (u, valid) ↦
            rw (valid, on_setup)
              (IsChecked-start_running now cfg (record app { file = saved })
                ((validate_saved_config_iff m.url_scheme cfg).0 valid) before)
        | inr (inl (x, bad)) ↦ rw (bad, on_setup) tt
        | inr (inr bad) ↦ rw (bad, on_setup) before
      ]

  IsChecked-change_room : (now : Moment) (app : App) → IsChecked (change_room m now app).phase
  unfolding change_room
  IsChecked-change_room now app =
      elim (Result-cases
        (load_saved_config m.url_scheme m.json now.metadata_error now.read_error app.file)) [
          | inl (none, e) ↦ rw (e, change_room) tt
          | inl (some cfg, e) ↦ rw (e, change_room) (IsValid-of_loaded now app.file e)
          | inr (inl (x, e)) ↦ rw (e, change_room) tt
          | inr (inr e) ↦ rw (e, change_room) tt
        ]

  IsChecked-reconnect :
      (now : Moment) (app : App) → IsChecked app.phase → IsChecked (reconnect m now app).phase
  unfolding reconnect
  IsChecked-reconnect now app before =
      elim (Result-cases
        (load_saved_config m.url_scheme m.json now.metadata_error now.read_error app.file)) [
          | inl (none, e) ↦ rw (e, reconnect) before
          | inl (some cfg, e) ↦
              rw (e, reconnect)
                (IsChecked-start_running now cfg app (IsValid-of_loaded now app.file e) before)
          | inr (inl (x, e)) ↦ rw (e, reconnect) before
          | inr (inr e) ↦ rw (e, reconnect) before
        ]

  -- The first phase, if there is one.
  abbrev IsCheckedStart : ℕ ⊎ AppPhase → Type 0
  IsCheckedStart (inl code) = Unit {0}
  IsCheckedStart (inr phase) = IsChecked phase

  IsChecked-phase_of_args :
      (now : Moment) (args : ClientArgs) (room_code : Text) (file : Option Text)
      → IsCheckedStart (phase_of_args m now args room_code file).1
  unfolding phase_of_args placeholder_running_phase
  IsChecked-phase_of_args now args room_code file =
      let cfg : SavedClientConfig = record {
        server_url = args.server_url;
        room_code = room_code;
        device_name = args.client_name;
        last_counter = 0;
      } in
      elim (Result-cases (validate_saved_config m.url_scheme cfg)) [
        | inl (u, valid) ↦
            rw (valid, phase_of_args)
              (cfg, (validate_saved_config_iff m.url_scheme cfg).0 valid, args.background, refl)
        | inr (inl (x, bad)) ↦ rw (bad, phase_of_args) tt
        | inr (inr bad) ↦ rw (bad, phase_of_args) tt
      ]

  IsChecked-phase_of_saved :
      (args : ClientArgs) (saved : Result ConfigFailure (Option SavedClientConfig))
      → ((cfg : SavedClientConfig) → saved ≡ ok (some cfg) → IsValid m.url_scheme cfg)
      → IsCheckedStart (phase_of_saved m args saved)
  unfolding phase_of_saved placeholder_running_phase
  IsChecked-phase_of_saved args (ok (some cfg)) valid = elim (Bool-cases args.background) [
    | inl hidden ↦ rw (hidden, phase_of_saved) (cfg, valid cfg refl, true, refl)
    | inr shown ↦ rw (shown, phase_of_saved) (valid cfg refl)
  ]
  IsChecked-phase_of_saved args (ok none) valid = elim (Bool-cases args.background) [
    | inl hidden ↦ rw (hidden, phase_of_saved) tt
    | inr shown ↦ rw (shown, phase_of_saved) tt
  ]
  IsChecked-phase_of_saved args (err e) valid = elim (Bool-cases args.background) [
    | inl hidden ↦ rw (hidden, phase_of_saved) tt
    | inr shown ↦ rw (shown, phase_of_saved) tt
  ]
  IsChecked-phase_of_saved args panic valid = elim (Bool-cases args.background) [
    | inl hidden ↦ rw (hidden, phase_of_saved) tt
    | inr shown ↦ rw (shown, phase_of_saved) tt
  ]

  IsChecked-resolve_initial_phase :
      (now : Moment) (args : ClientArgs) (file : Option Text)
      → IsCheckedStart (resolve_initial_phase m now args file).1
  unfolding resolve_initial_phase
  IsChecked-resolve_initial_phase now args file = elim (Option-cases args.room_code) [
    | inr (room_code, given) ↦
        rw (given, resolve_initial_phase) (IsChecked-phase_of_args now args room_code file)
    | inl missing ↦
        rw (missing, resolve_initial_phase)
          (IsChecked-phase_of_saved args
            (load_saved_config m.url_scheme m.json now.metadata_error now.read_error file)
            (λ cfg e. IsValid-of_loaded now file e))
  ]

  IsChecked-started :
      (now : Moment) (app : App) (phase : AppPhase)
      → app.phase ≡ phase
      → IsChecked phase
      → IsChecked (started m now app phase).phase
  unfolding started config_of
  IsChecked-started now app (choose_room saved) e v = rw e v
  IsChecked-started now app (setup r s d x) e v = rw e v
  IsChecked-started now app (running config w) e (saved, v, background, made) =
      IsChecked-start_running now _ (record app { phase = choose_room none })
        (subst
          (λ (c : ClientConfig). IsValid m.url_scheme (record {
            server_url = c.server_url;
            room_code = c.room_code;
            device_name = c.device_name;
            last_counter = c.initial_counter;
          }))
          (sym made) v)
        tt

  IsChecked-run :
      (now : Moment) (args : ClientArgs) (file : Option Text) {app : App}
      → run m now args file ≡ some app
      → IsChecked app.phase
  unfolding run
  IsChecked-run now args file {app} e =
      let first = resolve_initial_phase m now args file in
      let v = IsChecked-resolve_initial_phase now args file in
      elim (Sum-cases first.1) [
        | inl (code, exits) ↦ absurd (ground arith)
        | inr (phase, begins_with) ↦
            let begun : App = record {
              phase = phase;
              args = args;
              file = first.0;
              wants_quit = false;
            } in
            let same : started m now begun phase ≡ app = ground arith in
            subst (λ (a : App). IsChecked a.phase) same
              (IsChecked-started now begun phase refl (subst IsCheckedStart begins_with v))
      ]

  IsChecked-Step : {app next : App} → Step m app next → IsChecked app.phase → IsChecked next.phase
  IsChecked-Step {app} (chooses now action {saved = saved} is) v =
      IsChecked-on_choose_room now action saved app (subst IsChecked is v) v
  IsChecked-Step {app} (sets_up now action r s d {message = message} is) v =
      IsChecked-on_setup now action r s d message app v
  IsChecked-Step (works now last_counter after is) v = subst IsChecked is v
  IsChecked-Step {app} (changes_room now is) v = IsChecked-change_room now app
  IsChecked-Step {app} (reconnects now is) v = IsChecked-reconnect now app v

  -- However the client is started, and whatever the user does then: a client that runs does so with a
  -- configuration that is made of a valid one, and a saved room that is offered is valid.
  pub Reachable-IsChecked : {app : App} → Reachable m app → IsChecked app.phase
  Reachable-IsChecked (begins now args file e) = IsChecked-run now args file e
  Reachable-IsChecked (goes_on before step) = IsChecked-Step step (Reachable-IsChecked before)
