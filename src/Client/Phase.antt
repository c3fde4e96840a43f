-- ===== src/Client/Phase.antt =====
-- The screens of cliprelay-client/src/main.rs: `resolve_initial_phase`, `placeholder_running_phase`,
-- `run`, `start_running`, what `render_choose_room` and `render_setup` do with their buttons, and what
-- `update` does when the user changes the room or reconnects. Drawing, the tray icon and the hotkey are
-- left out. What differs from one moment to another, such as which system calls fail, is an argument.
pub mod Configured
pub mod Entered
use cliprelay.Core.{Json, DeviceId}
use cliprelay.Client.Config.{
  persist_last_counter, save_saved_config, validate_saved_config, load_saved_config, UrlScheme,
  ConfigFailure, Attempt,
}
use cliprelay.Text.{trim, ascii, Text}
use cliprelay.Core.Cipher.{room_id_from_code, Primitives}
use cliprelay.Client.{ascii, ClientConfig, SavedClientConfig}
use cliprelay.Base.{
  inr, ◌⊎◌, ◌≡◌, inl, ◌++◌, panic, false, take, none, err, [], List, true, some, if◌then◌else◌, ok,
  Result, Option, Bool, ℕ,
}
use cliprelay.Client.Window.{send, Window, ActivityEntry}

pub record ClientArgs : Type 0 where
  pub server_url : Text
  pub room_code : Option Text
  pub client_name : Text
  pub background : Bool

-- What stays the same: the environment's variables, if they are set, and other crates.
pub record Machine : Type 0 where
  pub prim : Primitives
  pub url_scheme : UrlScheme
  pub json : Json SavedClientConfig
  pub computername : Option Text
  pub hostname : Option Text
  pub username : Option Text
  pub user : Option Text

-- What can be otherwise every time: what loading and saving the configuration fail with, if they do,
-- whether a tokio runtime starts, what registering the hotkey fails with, and the saved history.
pub record Moment : Type 0 where
  pub metadata_error : Option Text
  pub read_error : Option Text
  pub attempts : ℕ → Attempt
  pub runtime_starts : Bool
  pub hotkey_error : Option Text
  pub history : List ActivityEntry

pub data AppPhase : Type 0 where
  choose_room : Option SavedClientConfig → AppPhase
  setup : Text → Text → Text → Option ConfigFailure → AppPhase
  running : ClientConfig → Window → AppPhase

-- The app with the contents of the configuration file.
pub record App : Type 0 where
  pub phase : AppPhase
  pub args : ClientArgs
  pub file : Option Text
  pub wants_quit : Bool

pub data ChooseRoomAction : Type 0 where
  use_saved setup_new cancel_choice : ChooseRoomAction

pub data SetupAction : Type 0 where
  connect cancel_setup : SetupAction

abbrev or_text : Option Text → Text → Text
or_text none t = t
or_text (some s) t = s

abbrev or_else : Option Text → Option Text → Option Text
or_else none o = o
or_else (some s) o = some s

module _ (prim : Primitives) where
  unfoldable pub device_id_from : Text → Text → Text → DeviceId
  device_id_from host user device_name =
      prim.hex
        (take 16 (prim.sha256 (host ++ (ascii ":" ++ (user ++ (ascii ":" ++ trim device_name))))))

module _ (m : Machine) where
  unfoldable pub stable_device_id : Text → DeviceId
  stable_device_id device_name =
      device_id_from m.prim (or_text (or_else m.computername m.hostname) (ascii "unknown-host"))
        (or_text (or_else m.username m.user) (ascii "unknown-user")) device_name

  -- The configuration of a client that runs.
  unfoldable pub config_of : SavedClientConfig → Bool → ClientConfig
  config_of saved background = record {
    server_url = saved.server_url;
    room_code = saved.room_code;
    room_id = room_id_from_code m.prim saved.room_code;
    device_id = stable_device_id saved.device_name;
    device_name = saved.device_name;
    background = background;
    initial_counter = saved.last_counter;
  }

  unfoldable pub first_window : Moment → Window
  first_window now = record {
    active_tab = send;
    status = ascii "Starting";
    peers = [];
    notifications = [];
    auto_apply = false;
    room_key_ready = false;
    last_sent_time = none;
    last_received_time = none;
    last_error = now.hotkey_error;
    history = now.history;
    toast_message = none;
  }

  -- The phase stays as it is if no runtime starts.
  unfoldable pub start_running : Moment → SavedClientConfig → App → App
  start_running now saved app =
      if now.runtime_starts
      then record app { phase = running (config_of saved app.args.background) (first_window now) }
      else app

  abbrev loaded : Moment → Option Text → Result ConfigFailure (Option SavedClientConfig)
  loaded now file = load_saved_config m.url_scheme m.json now.metadata_error now.read_error file

  unfoldable pub on_choose_room : Moment → Option SavedClientConfig → ChooseRoomAction → App → App
  on_choose_room now (some cfg) use_saved app = start_running now cfg app
  on_choose_room now none use_saved app = app
  on_choose_room now (some cfg) setup_new app = record app {
    phase = setup cfg.room_code cfg.server_url cfg.device_name none;
  }
  on_choose_room now none setup_new app = record app {
    phase = setup [] app.args.server_url app.args.client_name none;
  }
  on_choose_room now saved cancel_choice app = record app { wants_quit = true }

  -- With the texts as they are in the fields now.
  unfoldable pub on_setup :
      Moment → Text → Text → Text → Option ConfigFailure → Option SetupAction → App → App
  on_setup now room_code server_url device_name message none app = record app {
    phase = setup room_code server_url device_name message;
  }
  on_setup now room_code server_url device_name message (some cancel_setup) app = record app {
    wants_quit = true;
  }
  on_setup now room_code server_url device_name message (some connect) app =
      let cfg : SavedClientConfig = record {
        server_url = server_url;
        room_code = room_code;
        device_name = device_name;
        last_counter = 0;
      } in
      elim (validate_saved_config m.url_scheme cfg) [
        | ok u ↦ start_running now cfg (record app {
          file = (save_saved_config m.url_scheme m.json cfg now.attempts app.file).0;
        })
        | err e ↦ record app { phase = setup room_code server_url device_name (some e) }
        | panic ↦ app
      ]

  -- `load_saved_config().ok().flatten()`.
  abbrev ok_flatten : Result ConfigFailure (Option SavedClientConfig) → Option SavedClientConfig
  ok_flatten (ok saved) = saved
  ok_flatten (err e) = none
  ok_flatten panic = none

  unfoldable pub change_room : Moment → App → App
  change_room now app = record app { phase = choose_room (ok_flatten (loaded now app.file)) }

  unfoldable pub reconnect : Moment → App → App
  reconnect now app = elim (loaded now app.file) [
    | ok (some cfg) ↦ start_running now cfg app
    | ok none ↦ app
    | err e ↦ app
    | panic ↦ app
  ]

  unfoldable pub placeholder_running_phase : SavedClientConfig → Bool → AppPhase
  placeholder_running_phase cfg background = running (config_of cfg background) (record {
    active_tab = send;
    status = ascii "Starting";
    peers = [];
    notifications = [];
    auto_apply = false;
    room_key_ready = false;
    last_sent_time = none;
    last_received_time = none;
    last_error = none;
    history = [];
    toast_message = none;
  })

  -- With the room code of the command line. `inl` is the code that the process exits with.
  unfoldable pub phase_of_args :
      Moment → ClientArgs → Text → Option Text → Option Text × (ℕ ⊎ AppPhase)
  phase_of_args now args room_code file =
      let cfg : SavedClientConfig = record {
        server_url = args.server_url;
        room_code = room_code;
        device_name = args.client_name;
        last_counter = 0;
      } in
      elim (validate_saved_config m.url_scheme cfg) [
        | ok u ↦ (
          (save_saved_config m.url_scheme m.json cfg now.attempts file).0,
          inr (placeholder_running_phase cfg args.background),
        )
        | err e ↦ (file, inl 2)
        | panic ↦ (file, inl 101)
      ]

  unfoldable pub phase_of_saved :
      ClientArgs → Result ConfigFailure (Option SavedClientConfig) → ℕ ⊎ AppPhase
  phase_of_saved args saved =
      if args.background
      then elim (ok_flatten saved) [
        | some cfg ↦ inr (placeholder_running_phase cfg true)
        | none ↦ inl 0
      ]
      else elim (ok_flatten saved) [
        | some cfg ↦ inr (choose_room (some cfg))
        | none ↦ inr (setup [] args.server_url args.client_name none)
      ]

  unfoldable pub resolve_initial_phase :
      Moment → ClientArgs → Option Text → Option Text × (ℕ ⊎ AppPhase)
  resolve_initial_phase now args file = elim args.room_code [
    | some room_code ↦ phase_of_args now args room_code file
    | none ↦ (file, phase_of_saved args (loaded now file))
  ]

  -- The app is created with its first phase; one that runs is started anew.
  unfoldable pub started : Moment → App → AppPhase → App
  started now app (running config w) =
      start_running now
        (record {
          server_url = config.server_url;
          room_code = config.room_code;
          device_name = config.device_name;
          last_counter = config.initial_counter;
        })
        (record app { phase = choose_room none })
  started now app (choose_room saved) = app
  started now app (setup r s d e) = app

  -- `run`: no app where the process exits.
  unfoldable pub run : Moment → ClientArgs → Option Text → Option App
  run now args file =
      let (file', answer) = resolve_initial_phase now args file in
      elim answer [
        | inl code ↦ none
        | inr phase ↦ some (
            started now (record { phase = phase; args = args; file = file'; wants_quit = false })
              phase)
      ]

  -- One thing that the user or the runtime does.
  pub data Step : App → App → Type 0 where
    chooses :
        (now : Moment) (action : ChooseRoomAction) {app : App} {saved : Option SavedClientConfig}
        → app.phase ≡ choose_room saved
        → Step app (on_choose_room now saved action app)
    sets_up :
        (now : Moment) (action : Option SetupAction) (room_code server_url device_name : Text)
        {app : App} {r s d : Text} {message : Option ConfigFailure}
        → app.phase ≡ setup r s d message
        → Step app (on_setup now room_code server_url device_name message action app)
    works :
        (now : Moment) (last_counter : ℕ) (after : Window) {app : App} {config : ClientConfig}
        {w : Window}
        → app.phase ≡ running config w
        → Step app (record app {
          phase = running config after;
          file = persist_last_counter m.url_scheme m.json config last_counter now.attempts app.file;
        })
    changes_room :
        (now : Moment) {app : App} {config : ClientConfig} {w : Window}
        → app.phase ≡ running config w
        → Step app (change_room now app)
    reconnects :
        (now : Moment) {app : App} {config : ClientConfig} {w : Window}
        → app.phase ≡ running config w
        → Step app (reconnect now app)

  pub data Reachable : App → Type 0 where
    begins :
        (now : Moment) (args : ClientArgs) (file : Option Text) {app : App}
        → run now args file ≡ some app
        → Reachable app
    goes_on : {app next : App} → Reachable app → Step app next → Reachable next
