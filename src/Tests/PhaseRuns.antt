-- ===== src/Tests/PhaseRuns.antt =====
-- cliprelay-client's screens at concrete inputs.
use cliprelay.Tests.WindowRuns.{config_json-RoundTrips, config_json, always_ws, one_failure}
use cliprelay.Tests.Samples.{sample_primitives}
use cliprelay.Client.Phase.Entered.{on_setup-reconnect, entered}
use cliprelay.Text.{ascii, Text, trim}
use cliprelay.Client.Phase.Configured.{Reachable-IsChecked, IsChecked}
use cliprelay.Client.{SavedClientConfig}
use cliprelay.Base.{arith, ◌≤◌, length, ok, inr, true, refl, false, [], ◌=?◌, some, ◌≡◌, none}
use cliprelay.Client.Phase.{
  sets_up, first_window, begins, goes_on, config_of, setup, running, Moment, Machine, ClientArgs,
  App, run, reconnect, on_setup, connect, resolve_initial_phase, phase_of_saved, started,
}
use cliprelay.Client.Config.{
  max_config_bytes, try_save, save_attempts, trimmed, save_saved_config, load_saved_config,
  validate_saved_config, config_errors, check_field, check_server_url, check_scheme,
}

abbrev sample_machine : Machine
sample_machine = record {
  prim = sample_primitives;
  url_scheme = always_ws;
  json = config_json;
  computername = none;
  hostname = some (ascii "host");
  username = some (ascii "user");
  user = none;
}

abbrev calm : Moment
calm = record {
  metadata_error = none;
  read_error = none;
  attempts = one_failure;
  runtime_starts = true;
  hotkey_error = none;
  history = [];
}

abbrev no_args : ClientArgs
no_args = record {
  server_url = ascii "ws://relay";
  room_code = none;
  client_name = ascii "Phone";
  background = false;
}

-- Nothing is saved: the setup screen.
abbrev fresh_app : App
fresh_app = record {
  phase = setup [] (ascii "ws://relay") (ascii "Phone") none;
  args = no_args;
  file = none;
  wants_quit = false;
}

fresh : run sample_machine calm no_args none ≡ some fresh_app
unfolding run resolve_initial_phase phase_of_saved load_saved_config started
fresh = refl

abbrev connected_app : App
connected_app =
    on_setup sample_machine calm (ascii " den ") (ascii "ws://relay") (ascii "Phone") none
      (some connect) fresh_app

Reachable-IsChecked_example : IsChecked sample_machine connected_app.phase
Reachable-IsChecked_example = Reachable-IsChecked sample_machine (
    goes_on (begins calm no_args none fresh)
      (sets_up calm (some connect) (ascii " den ") (ascii "ws://relay") (ascii "Phone") refl))

den_valid :
    validate_saved_config always_ws (entered (ascii " den ") (ascii "ws://relay") (ascii "Phone"))
    ≡ ok tt
unfolding validate_saved_config config_errors check_field check_server_url check_scheme trim ◌=?◌
den_valid = refl

abbrev entered_den : SavedClientConfig
entered_den = entered (ascii " den ") (ascii "ws://relay") (ascii "Phone")

entered_saved : (save_saved_config always_ws config_json entered_den one_failure none).1 ≡ ok tt
unfolding save_saved_config validate_saved_config config_errors check_field check_server_url
    check_scheme save_attempts try_save trimmed trim ◌=?◌
entered_saved = refl

entered_small :
    (payload : Text)
    → config_json.to_vec (trimmed entered_den) ≡ inr payload
    → length payload ≤ max_config_bytes
unfolding trimmed trim
entered_small payload e = ground arith

on_setup-reconnect_example :
    (connected_app.phase
      ≡ running (config_of sample_machine entered_den false) (first_window sample_machine calm))
    × ((reconnect sample_machine calm connected_app).phase
        ≡ running
            (config_of sample_machine (trimmed entered_den) false)
            (first_window sample_machine calm))
on_setup-reconnect_example =
    on_setup-reconnect sample_machine calm calm (ascii " den ") (ascii "ws://relay") (ascii "Phone")
      none fresh_app config_json-RoundTrips entered_small den_valid entered_saved refl refl refl
      refl
