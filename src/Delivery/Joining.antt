-- ===== src/Delivery/Joining.antt =====
-- How a client joins its room: the first frame of a session, cliprelay-client/src/main.rs, and what the
-- relay makes of it, cliprelay-relay/src/lib.rs.
use cliprelay.Core.Frame.RoundTrip.{decode_frame-encode_frame}
use cliprelay.Relay.Session.{
  message, is_blank, first_message, check_hello, Session, open_session, hello_of,
  parse_hello_message,
}
use cliprelay.Relay.Bucket.{new, Floats}
use cliprelay.Client.Connection.Queue.{encoded-ok, encoded, effects_of, run_tasks-frames, frames}
use cliprelay.Text.{Bytes}
use cliprelay.Client.Transfer.{Transfers}
use cliprelay.Relay.Room.Membership.{
  register_client-ok, lookup_device-register_client, is_full, lookup_device,
}
use cliprelay.Core.{Codec, RoundTrips, PeerInfo}
use cliprelay.Client.{SharedRuntimeState, ClientConfig}
use cliprelay.Base.{=?_refl, ◌∙◌, refl, false, Result, arith, ok, some, List, ◌≡◌, ℕ, ◌∷◌}
use cliprelay.Relay.Room.{Connection, binary, Sends, SessionError, RelayState}
use cliprelay.Client.Connection.{queued, hello_of_config, Happening, World, run_tasks, new_live}
use cliprelay.Core.Frame.{decode_frame, encode_frame}

abbrev pub peer_of : ClientConfig → PeerInfo
peer_of config = record { device_id = config.device_id; device_name = config.device_name }

-- The relay knows the device in its room, on that channel.
abbrev pub IsJoined : ClientConfig → ℕ → RelayState → Type 0
IsJoined config tx state =
    lookup_device state config.room_id config.device_id
    ≡ some (record { peer = peer_of config; tx = tx })

first_frame :
    (world : World) (config : ClientConfig) (shared : SharedRuntimeState) (counter : ℕ)
    (transfers : Transfers) (hs : List Happening) {hello_bytes bytes : Bytes} {rest : List Bytes}
    → encode_frame world.codec (hello_of_config config) ≡ ok hello_bytes
    → frames (run_tasks world config (new_live config shared counter transfers) hs).1 ≡ bytes ∷ rest
    → bytes ≡ hello_bytes
unfolding new_live
first_frame world config shared counter transfers hs {hello_bytes} {bytes} {rest} encodes writes =
    let live = new_live config shared counter transfers in
    let (due, eq) = run_tasks-frames world config live hs in
    let more = queued (effects_of (run_tasks world config live hs).1) in
    let front : encoded world.codec (hello_of_config config ∷ more)
        ≡ hello_bytes ∷ encoded world.codec more =
      encoded-ok world.codec (hello_of_config config) more encodes in
    ground (arith, eq, front, writes)

parse_hello_message-ok :
    (codec : Codec) (config : ClientConfig) (bytes : Bytes)
    → decode_frame codec bytes ≡ ok (hello_of_config config)
    → is_blank config.room_id ≡ false
    → is_blank config.device_id ≡ false
    → is_blank config.device_name ≡ false
    → parse_hello_message codec (binary bytes)
      ≡ ok (record { room_id = config.room_id; peer = peer_of config })
unfolding parse_hello_message hello_of check_hello
parse_hello_message-ok codec config bytes e r d n = rw (e, hello_of, r, d, n) refl

-- What opening a session comes to: the device is in its room, on the channel of the session.
pub record IsOpened {F : Type 0} (config : ClientConfig) (tx : ℕ)
    (outcome : RelayState × Result SessionError (Session F × Sends)) : Type 0 where
  pub session : Session F
  pub sends : Sends
  pub opened : outcome.1 ≡ ok (session, sends)
  pub own_device : session.device_id ≡ config.device_id
  pub own_room : session.room_id ≡ config.room_id
  pub own_tx : session.tx ≡ tx
  pub joined : IsJoined config tx outcome.0

module _ {F : Type 0} (floats : Floats F) where
  registered-IsOpened :
      (codec : Codec) (config : ClientConfig) (state : RelayState) (tx now : ℕ) (bytes : Bytes)
      → parse_hello_message codec (binary bytes)
        ≡ ok (record { room_id = config.room_id; peer = peer_of config })
      → is_full state config.room_id ≡ false
      → IsOpened config tx (open_session floats codec state tx now (message (binary bytes)))
  unfolding open_session first_message
  registered-IsOpened codec config state tx now bytes parsed room =
      let c : Connection = record { peer = peer_of config; tx = tx } in
      let (sends, fine) = register_client-ok codec state config.room_id c room in
      rw (parsed, open_session, fine)
        (record {
          session = record {
            room_id = config.room_id;
            device_id = config.device_id;
            tx = tx;
            rate_limiter = new floats (floats.literal 400) (floats.literal 200) now;
          };
          sends = sends;
          opened = refl;
          own_device = refl;
          own_room = refl;
          own_tx = refl;
          joined =
              lookup_device-register_client codec state config.room_id config.room_id c
                config.device_id
              ∙ ground (arith, room, =?_refl config.room_id, =?_refl config.device_id);
        })

  -- The first frame that a session of a client writes, whatever happens in it, joins the client to its
  -- room: where the client's hello can be encoded, its ids and name are not blank, the JSON of messages
  -- reads back and the room is not full, a relay that receives that frame first opens a session for the
  -- client's device and room, and has the device in the room under the session's channel.
  pub run_tasks-IsOpened :
      (world : World) (config : ClientConfig) (shared : SharedRuntimeState) (counter : ℕ)
      (transfers : Transfers) (hs : List Happening) (state : RelayState) (tx now : ℕ)
      {hello_bytes bytes : Bytes} {rest : List Bytes}
      → RoundTrips world.codec.json
      → encode_frame world.codec (hello_of_config config) ≡ ok hello_bytes
      → frames (run_tasks world config (new_live config shared counter transfers) hs).1
        ≡ bytes ∷ rest
      → is_blank config.room_id ≡ false
      → is_blank config.device_id ≡ false
      → is_blank config.device_name ≡ false
      → is_full state config.room_id ≡ false
      → IsOpened config tx (open_session floats world.codec state tx now (message (binary bytes)))
  run_tasks-IsOpened world config shared counter transfers hs state tx now {hello_bytes} {bytes} rt
        encodes writes r d n room =
      let same : bytes ≡ hello_bytes =
        first_frame world config shared counter transfers hs encodes writes in
      let decodes : decode_frame world.codec hello_bytes ≡ ok (hello_of_config config) =
        decode_frame-encode_frame world.codec (hello_of_config config) rt tt encodes in
      rw same (
        registered-IsOpened world.codec config state tx now hello_bytes
          (parse_hello_message-ok world.codec config hello_bytes decodes r d n) room)
