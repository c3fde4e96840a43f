-- ===== src/Tests/ClientRuns.antt =====
-- cliprelay-client's messages at concrete inputs: the phone receives what the laptop sends.
use cliprelay.Relay.Room.{peers_of}
use cliprelay.Base.{
  List, ℕ, ◌≡◌, refl, arith, ap, false, some, none, [], ◌∷◌, ◌++◌, ok, inr, inl, ◌=?◌, ◌≤◌, All,
  length,
}
use cliprelay.Base.Map.{get, insert}
use cliprelay.Text.{Bytes, Text, ascii, trim}
use cliprelay.Core.{peer_list, salt_exchange}
use cliprelay.Core.Cipher.{
  check_mime, check_text, same_identity, decrypt_clipboard_event, derive_room_key,
  compute_device_list_hash, sort, hash_input,
}
use cliprelay.Core.Replay.{validate_counter}
use cliprelay.Core.Replay.Order.{IsFresh}
use cliprelay.Client.{incoming_clipboard, last_received, ClientConfig, SharedRuntimeState}
use cliprelay.Client.FileName.{sanitize_file_name, max_file_name_bytes}
use cliprelay.Client.FileName.Safe.{sanitize_file_name-IsSafe, IsSafe}
use cliprelay.Client.Incoming.{
  to_window, Receiver, on_payload, on_fresh, on_event, is_last_applied, other_message,
  network_receive_task, on_incoming,
}
use cliprelay.Client.Incoming.Delivered.{
  on_payload-encrypt_clipboard_event, on_payload-IsGenuine, IsGenuine, shown,
}
use cliprelay.Client.Incoming.Replayed.{on_payload-replayed}
use cliprelay.Client.Outgoing.{Files, Clock}
use cliprelay.Client.Presence.{on_control}
use cliprelay.Client.Presence.Membership.{on_control-peer_list, on_control-salt_exchange, peer_or}
use cliprelay.Client.Transfer.{
  Outside, handle_file_chunk_event, store_chunk, chunk_at, chunk_count, replicate_none, joined,
}
use cliprelay.Client.Transfer.Table.{handle_file_chunk_event-IsSound, IsSound, IsTable}
use cliprelay.Client.Transfer.Chunks.{joined-store_all, store_all}
use cliprelay.Tests.CoreRuns.{sealed_payload, sample_key, encrypt_sample, two_devices}
use cliprelay.Tests.Samples.{
  sample_primitives, sample_primitives-Unseals, event_json-RoundTrips, sample_event, laptop, phone,
  den, den_room, den_room-IsRoom, sample_codec, pad,
}

-- Every text is read as the one chunk of a file of three bytes.
abbrev pub sample_outside : Outside
sample_outside = record {
  envelope_json = record {
    to_vec = λ env. inr [];
    from_slice = λ b. inr (record {
      transfer_id = ascii "t";
      file_name = ascii "a.txt";
      total_size = 3;
      chunk_index = 0;
      total_chunks = 1;
      chunk_b64 = 1 ∷ 2 ∷ 3 ∷ [];
    });
  };
  encode_base64 = λ b. b;
  decode_base64 = λ t. inr t;
  write_incoming_temp_file = λ name b. inr name;
}

abbrev pub phone_config : ClientConfig
phone_config = record {
  server_url = ascii "ws://relay";
  room_code = den;
  room_id = den;
  device_id = phone;
  device_name = ascii "Phone";
  background = false;
  initial_counter = 3;
}

abbrev pub phone_shared : SharedRuntimeState
phone_shared = record { room_key = some sample_key; last_applied_hash = none; auto_apply = false }

abbrev pub nothing_received : Receiver
nothing_received = record { replay_map = []; transfers = [] }

pub foreign : (laptop =? phone) ≡ false
unfolding ◌=?◌
foreign = refl

pub first_from_laptop : IsFresh [] laptop 1
unfolding get
first_from_laptop previous e = cc

pub not_applied :
    is_last_applied phone_shared (sample_primitives.sha256 sample_event.text_utf8) ≡ false
unfolding is_last_applied
not_applied = refl

delivered :
    (on_payload sample_primitives sample_outside phone_config phone_shared nothing_received 5
      sealed_payload).1
    ≡ to_window (last_received 5)
      ∷ to_window
          (incoming_clipboard laptop (ascii "hello cliprelay") (pad 32 (ascii "hello cliprelay")))
      ∷ []
delivered =
    on_payload-encrypt_clipboard_event sample_primitives sample_outside phone_config phone_shared
      nothing_received 5 sample_key sample_event sample_primitives-Unseals event_json-RoundTrips
      encrypt_sample refl refl foreign first_from_laptop not_applied

on_payload-encrypt_clipboard_event_example :
    (on_payload sample_primitives sample_outside phone_config phone_shared nothing_received 5
      sealed_payload).1
    ≡ to_window (last_received 5)
      ∷ to_window
          (incoming_clipboard laptop (ascii "hello cliprelay") (pad 32 (ascii "hello cliprelay")))
      ∷ []
on_payload-encrypt_clipboard_event_example =
    on_payload-encrypt_clipboard_event sample_primitives sample_outside phone_config phone_shared
      nothing_received 5 sample_key sample_event sample_primitives-Unseals event_json-RoundTrips
      encrypt_sample refl refl foreign first_from_laptop not_applied

on_payload-IsGenuine_example :
    (◌≡◌ {A = List (Text × Text × Bytes)} [] [])
    × IsGenuine sample_primitives sample_outside phone_config phone_shared nothing_received
        sealed_payload laptop
        (ascii "hello cliprelay")
        (pad 32 (ascii "hello cliprelay"))
on_payload-IsGenuine_example =
    on_payload-IsGenuine sample_primitives sample_outside phone_config phone_shared nothing_received
      5 sealed_payload (ap shown delivered)

abbrev once_received : Receiver
once_received = record { replay_map = (laptop, 1) ∷ []; transfers = [] }

received_once :
    (on_payload sample_primitives sample_outside phone_config phone_shared nothing_received 5
      sealed_payload).0
    ≡ some once_received
unfolding on_payload on_fresh on_event validate_counter get insert ◌=?◌ decrypt_clipboard_event
    same_identity check_mime check_text trim
received_once = refl

nothing_between :
    (network_receive_task sample_primitives sample_outside sample_codec phone_config once_received
      ((other_message, phone_shared, 6) ∷ [])).0
    ≡ some once_received
unfolding network_receive_task on_incoming
nothing_between = refl

on_payload-replayed_example :
    (on_payload sample_primitives sample_outside phone_config phone_shared once_received 7
      sealed_payload).1
    ≡ []
on_payload-replayed_example =
    on_payload-replayed sample_primitives sample_outside sample_codec phone_config phone_shared
      phone_shared nothing_received 5 7 sealed_payload sealed_payload
      ((other_message, phone_shared, 6) ∷ []) refl (omega arith) received_once nothing_between

abbrev pub no_files : Files
no_files = record { size = λ path. inl []; file_name = λ path. none; read = λ path. inl [] }

abbrev pub noon : Clock
noon = record { start = 12; at_chunk = λ i. 12; finish = 13 }

abbrev pub shown_number : ℕ → Text
shown_number n = n ∷ []

on_control-peer_list_example :
    get
      (on_control sample_primitives phone_config [] phone_shared
        (peer_list (record { room_id = den; peers = peers_of den_room.devices }))).0
      laptop
    ≡ peer_or none (get den_room.devices laptop)
on_control-peer_list_example =
    on_control-peer_list sample_primitives phone_config [] phone_shared den den_room laptop
      den_room-IsRoom

abbrev pub derived_key : Bytes
derived_key = pad 32 (pad 32 (hash_input (sort (laptop ∷ phone ∷ []))) ++ pad 32 den)

pub derives : derive_room_key sample_primitives den (laptop ∷ phone ∷ []) ≡ ok derived_key
unfolding derive_room_key compute_device_list_hash trim
derives = refl

on_control-salt_exchange_example :
    ((on_control sample_primitives phone_config [] phone_shared
        (salt_exchange (record { room_id = den; device_ids = laptop ∷ phone ∷ [] }))).1.room_key
      ≡ some derived_key)
    × ((on_control sample_primitives phone_config [] phone_shared
          (salt_exchange (record { room_id = den; device_ids = phone ∷ laptop ∷ [] }))).1.room_key
        ≡ some derived_key)
on_control-salt_exchange_example =
    on_control-salt_exchange sample_primitives phone_config phone_config [] [] phone_shared
      phone_shared den (laptop ∷ phone ∷ []) (phone ∷ laptop ∷ []) derived_key refl two_devices
      derives

empty-IsTable : IsTable []
empty-IsTable = record { bounded = omega arith; distinct = tt; transfers = tt }

handle_file_chunk_event-IsSound_example :
    IsSound (handle_file_chunk_event sample_outside [] 5 laptop (ascii "chunk"))
handle_file_chunk_event-IsSound_example =
    handle_file_chunk_event-IsSound sample_outside [] 5 laptop (ascii "chunk") empty-IsTable

stored_chunk :
    store_all (1 ∷ 2 ∷ 3 ∷ []) (0 ∷ 0 ∷ []) (replicate_none (chunk_count 3))
    ≡ ok (some (1 ∷ 2 ∷ 3 ∷ []) ∷ [])
unfolding store_chunk chunk_at chunk_count
stored_chunk = refl

joins : joined (some (1 ∷ 2 ∷ 3 ∷ []) ∷ []) ≡ some (1 ∷ 2 ∷ 3 ∷ [])
unfolding joined
joins = refl

joined-store_all_example : ◌≡◌ {A = Bytes} (1 ∷ 2 ∷ 3 ∷ []) (1 ∷ 2 ∷ 3 ∷ [])
joined-store_all_example = joined-store_all (1 ∷ 2 ∷ 3 ∷ []) (0 ∷ 0 ∷ []) stored_chunk joins

sanitize_file_name-IsSafe_example :
    (length (sanitize_file_name (ascii "a/b.txt")) ≤ max_file_name_bytes)
    × All IsSafe (sanitize_file_name (ascii "a/b.txt"))
sanitize_file_name-IsSafe_example = sanitize_file_name-IsSafe (ascii "a/b.txt")
