-- ===== src/Client/Phase/Entered.antt =====
-- The texts of the setup screen, and what the client runs with.
use cliprelay.Core.{RoundTrips}
use cliprelay.Client.Config.{
  load_saved_config, save_saved_config, validate_saved_config, max_config_bytes, trimmed,
  ConfigFailure,
}
use cliprelay.Client.{SavedClientConfig}
use cliprelay.Text.{Text}
use cliprelay.Base.{arith, none, true, ok, ◌≤◌, length, inr, ◌≡◌, some, Option}
use cliprelay.Client.Phase.{
  first_window, config_of, running, connect, App, ConfigFailure, Moment, SavedClientConfig, Machine,
  start_running, Text, reconnect, on_setup,
}
use cliprelay.Client.Config.Saved.{load_saved_config-save_saved_config}

abbrev pub entered : Text → Text → Text → SavedClientConfig
entered room_code server_url device_name = record {
  server_url = server_url;
  room_code = room_code;
  device_name = device_name;
  last_counter = 0;
}

-- A valid configuration that is entered, saved with success, and loaded again when the user reconnects
-- at once, where its JSON reads back within the limit, no system call fails on loading, and a runtime
-- starts both times: first the client runs with the texts as they were entered, from counter 0, so in
-- the room of the untrimmed code; after reconnecting it runs with the blanks around the texts removed.
pub on_setup-reconnect :
    (m : Machine) (now later : Moment) (room_code server_url device_name : Text)
    (message : Option ConfigFailure) (app : App)
    → let cfg = entered room_code server_url device_name in
      let first = on_setup m now room_code server_url device_name message (some connect) app in
      RoundTrips m.json
      → ((payload : Text)
          → m.json.to_vec (trimmed cfg) ≡ inr payload
          → length payload ≤ max_config_bytes)
      → validate_saved_config m.url_scheme cfg ≡ ok tt
      → (save_saved_config m.url_scheme m.json cfg now.attempts app.file).1 ≡ ok tt
      → now.runtime_starts ≡ true
      → later.runtime_starts ≡ true
      → later.metadata_error ≡ none
      → later.read_error ≡ none
      → (first.phase ≡ running (config_of m cfg app.args.background) (first_window m now))
        × ((reconnect m later first).phase
            ≡ running (config_of m (trimmed cfg) app.args.background) (first_window m later))
unfolding on_setup reconnect start_running
on_setup-reconnect m now later room_code server_url device_name message app rt fits valid saved
      starts again no_metadata_error no_read_error =
    let cfg = entered room_code server_url device_name in
    let file = (save_saved_config m.url_scheme m.json cfg now.attempts app.file).0 in
    let loads : load_saved_config m.url_scheme m.json later.metadata_error later.read_error file
        ≡ ok (some (trimmed cfg)) =
      rw (no_metadata_error, no_read_error)
        (load_saved_config-save_saved_config m.url_scheme m.json cfg now.attempts app.file rt fits
          saved) in
    (ground (arith, valid, starts), ground (arith, valid, starts, again, loads))
