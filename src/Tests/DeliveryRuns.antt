-- ===== src/Tests/DeliveryRuns.antt =====
-- A text on its way from the laptop over the relay to the phone.
use cliprelay.Relay.Server.{connects}
use cliprelay.Relay.Server.Reachable.{reconnected_device_lost}
use cliprelay.Relay.Bucket.{new}
use cliprelay.Relay.Server.{receives, connects, step, find_session, Server}
use cliprelay.Tests.ConnectionRuns.{sample_world}
use cliprelay.Client.Connection.Queue.{frames}
use cliprelay.Relay.Room.Membership.{lookup_device, is_full}
use cliprelay.Delivery.Joining.{run_tasks-IsOpened, IsOpened}
use cliprelay.Core.Replay.Order.{IsFresh}
use cliprelay.Tests.RelayRuns.{phone_there, has_token}
use cliprelay.Delivery.{on_send_text-shown, shows}
use cliprelay.Client.Incoming.{binary_message, on_incoming}
use cliprelay.Tests.CoreRuns.{sealed_payload}
use cliprelay.Core.{Hello, encrypted}
use cliprelay.Tests.ClientRuns.{
  not_applied, first_from_laptop, foreign, nothing_received, phone_shared, sample_outside,
  phone_config,
}
use cliprelay.Core.LittleEndian.{split_at, get_uint_le, from_le_bytes, to_le_bytes}
use cliprelay.Tests.Samples.{
  den, field, sample_primitives-Unseals, event_json-RoundTrips, sample_codec-RoundTrips,
  phone_connection, pad, sample_primitives, laptop_session, sample_plaintext, den_state,
  sample_codec, whole, laptop,
}
use cliprelay.Client.{ClientConfig}
use cliprelay.Base.{
  ◌>>=◌, ◌=?◌, none, some, false, ℕ, ok, [], refl, arith, here, true, ◌++◌, ◌≡◌, ◌∷◌, In,
}
use cliprelay.Client.Connection.{
  spawned, takes_message, new_live, run_tasks, hello_of_config, on_takes_message, happens,
}
use cliprelay.Base.Map.{get}
use cliprelay.Relay.Session.{
  check_hello, hello_of, ended, parse_hello_message, first_message, open_session, is_blank,
  on_received, message,
}
use cliprelay.Relay.Room.{RelayState, binary}
use cliprelay.Client.Connection.{send_message, frame}
use cliprelay.Client.Outgoing.{queue, Clock, on_send_text, text_event, saturating_suc}
use cliprelay.Core.Frame.{
  utf8_or_fail, decode_message, decode_frame, try_from, encode_frame, encode_payload,
  encode_encrypted_payload,
}
use cliprelay.Core.Cipher.{encrypt_clipboard_event, check_mime, check_text}
use cliprelay.Text.{IsUtf8, ascii, trim, Bytes, from_utf8}

abbrev pub laptop_config : ClientConfig
laptop_config = record phone_config { device_id = laptop; device_name = ascii "Laptop" }

abbrev pub this_morning : Clock
this_morning = record {
  start = 1735000000000;
  at_chunk = λ i. 1735000000000;
  finish = 1735000000001;
}

abbrev sealed_frame : Bytes
sealed_frame =
    57
    ∷ 0
    ∷ 0
    ∷ 0
    ∷ 1
    ∷ 6
    ∷ 0
    ∷ (laptop ++ (1 ∷ 0 ∷ 0 ∷ 0 ∷ 0 ∷ 0 ∷ 0 ∷ 0 ∷ 36 ∷ 0 ∷ 0 ∷ 0 ∷ sample_plaintext))

queued_it :
    In
      (queue (encrypted sealed_payload))
      (on_send_text sample_primitives sample_outside laptop_config phone_shared 0 this_morning
        (ascii "hello cliprelay")).1
unfolding on_send_text text_event saturating_suc encrypt_clipboard_event check_mime check_text trim
queued_it = here

written : In (frame sealed_frame) (send_message sample_codec (encrypted sealed_payload) true).1
unfolding send_message encode_frame encode_payload encode_encrypted_payload try_from to_le_bytes
written = here

laptop_text : IsUtf8 laptop
unfolding from_utf8
laptop_text = refl

IsFresh-saturating_suc : IsFresh [] laptop (saturating_suc 0)
unfolding saturating_suc
IsFresh-saturating_suc = first_from_laptop

on_send_text-shown_example :
    In
      (1, binary sealed_frame)
      (on_received whole sample_codec den_state laptop_session 5 (message (binary sealed_frame))).1
    × ((on_incoming sample_primitives sample_outside sample_codec phone_config phone_shared
          nothing_received 5
          (binary_message sealed_frame)).1
        ≡ shows 5 laptop (ascii "hello cliprelay") (pad 32 (ascii "hello cliprelay")))
on_send_text-shown_example =
    on_send_text-shown whole sample_primitives sample_outside sample_codec laptop_config
      phone_shared 0 this_morning (ascii "hello cliprelay") den_state laptop_session 5
      phone_connection phone_config phone_shared nothing_received 5 sample_codec-RoundTrips
      event_json-RoundTrips sample_primitives-Unseals laptop_text queued_it written (omega arith)
      refl has_token phone_there foreign refl IsFresh-saturating_suc not_applied

abbrev hello_frame : Bytes
hello_frame = 20 ∷ 0 ∷ 0 ∷ 0 ∷ 0 ∷ 1 ∷ field den (field laptop (field (ascii "Laptop") []))

hello_encoded : encode_frame sample_codec (hello_of_config laptop_config) ≡ ok hello_frame
unfolding encode_frame encode_payload try_from to_le_bytes
hello_encoded = refl

abbrev empty_state : RelayState
empty_state = record { rooms = [] }

hello_written :
    frames
      (run_tasks sample_world laptop_config
        (new_live laptop_config phone_shared 0 [])
        (takes_message true ∷ [])).1
    ≡ hello_frame ∷ []
unfolding run_tasks happens spawned on_takes_message send_message new_live encode_frame
    encode_payload try_from to_le_bytes
hello_written = refl

room_for_one : is_full empty_state den ≡ false
unfolding get
room_for_one = refl

not_blank : (is_blank den ≡ false) × (is_blank laptop ≡ false) × (is_blank (ascii "Laptop") ≡ false)
unfolding trim
not_blank = (refl, refl, refl)

run_tasks-IsOpened_example :
    IsOpened {F = ℕ} laptop_config 3
      (open_session whole sample_codec empty_state 3 5 (message (binary hello_frame)))
run_tasks-IsOpened_example =
    run_tasks-IsOpened whole sample_world laptop_config phone_shared 0 [] (takes_message true ∷ [])
      empty_state 3 5 sample_codec-RoundTrips hello_encoded hello_written not_blank.0 not_blank.1
      not_blank.2 room_for_one

-- The laptop's socket is the first of two to come.
abbrev one_laptop : Server ℕ
one_laptop = record { relay = den_state; sessions = laptop_session ∷ []; next_tx = 3 }

abbrev laptop_hello : Hello
laptop_hello = record {
  room_id = den;
  peer = record { device_id = laptop; device_name = ascii "Laptop" };
}

laptop_found : find_session 0 one_laptop.sessions ≡ some laptop_session
unfolding find_session
laptop_found = refl

hello_parsed :
    (first_message (message (binary hello_frame)) >>= parse_hello_message sample_codec)
    ≡ ok laptop_hello
unfolding first_message parse_hello_message decode_frame hello_of check_hello from_le_bytes
    get_uint_le trim decode_message split_at utf8_or_fail
hello_parsed = refl

room_for_more : is_full den_state den ≡ false
unfolding get ◌=?◌
room_for_more = refl

reconnected_device_lost_example :
    let connected =
      (step whole sample_codec one_laptop (connects 5 (message (binary hello_frame)))).0 in
    let after = (step whole sample_codec connected (receives 0 9 ended)).0 in
    (lookup_device connected.relay den laptop ≡ some (record { peer = laptop_hello.peer; tx = 3 }))
    × (find_session 3 after.sessions
        ≡ some (record laptop_session {
          tx = 3;
          rate_limiter = new whole (whole.literal 400) (whole.literal 200) 5;
        }))
    × (lookup_device after.relay den laptop ≡ none)
reconnected_device_lost_example =
    reconnected_device_lost whole sample_codec one_laptop laptop_session 5 9
      (message (binary hello_frame)) laptop_found (omega arith) hello_parsed refl refl room_for_more
