-- ===== src/Lib.antt =====
-- cliprelay: a verification library of the clipboard relay.
--
-- Devices that share a room code sync clipboard text and files through a relay. The relay forwards
-- encrypted payloads within a room and never holds a key; each client derives the room key from the
-- code and the list of devices that the relay announces. Three crates are modelled:
--
-- Core: cliprelay-core/src/lib.rs. The types and limits (Core), the frame format (Core/Frame:
-- encode_frame, decode_frame), keys and encryption (Core/Cipher: derive_room_key,
-- encrypt_clipboard_event, decrypt_clipboard_event, build_nonce) and the check of counters
-- (Core/Replay: validate_counter). Integers keep their width: a length is written modulo 2 ^ 32
-- where the source casts it, and a `try_from` that fails is an error.
--
-- Relay: cliprelay-relay/src/lib.rs. The rooms and the operations that hold the lock (Relay/Room:
-- register_client, unregister_client, forward_encrypted), one socket (Relay/Session:
-- handle_socket), the rate limit (Relay/Bucket) and many sockets, message by message
-- (Relay/Server). A channel is a number; an operation returns what it sends.
--
-- Client: cliprelay-client/src/main.rs. What the user sends (Client/Outgoing:
-- process_runtime_commands, send_file_v1), what arrives (Client/Incoming: network_receive_task),
-- files in chunks (Client/Transfer: handle_file_chunk_event), who is in the room and the room key
-- (Client/Presence: presence_task), connecting, the tasks of a session and the sessions one after
-- the other (Client/Dialling, Client/Connection, Client/Runtime: run_single_session,
-- network_send_task, run_client_runtime), received names and where files are saved
-- (Client/FileName, Client/Downloads), the saved configuration (Client/Config) and history
-- (Client/History), the screens (Client/Phase: run, resolve_initial_phase, start_running, update),
-- what the window makes of events (Client/Window: render_running) and of clicks (Client/Clicks).
-- From cliprelay-client/src/ui_state.rs, the saved window placements (Client/UiState); from
-- cliprelay-client/src/lib.rs, the registry entry for autostart (Client/Autostart).
--
-- Delivery puts a client, the relay and another client together: how a client joins its room
-- (Delivery/Joining), and how a text gets from one client to another (Delivery).
--
-- State is passed explicitly. A fallible function gives a Result with a third case for a panic. A
-- task's loop is a function on the list of what it receives, each with the shared state and the
-- clock as they are then. A session is the list of what happens in its tasks, from one point at
-- which they wait to the next, so a file goes out chunk by chunk (Client/Outgoing/Sending) and may
-- be dropped in between (Client/Outgoing/Uninterrupted has the case that it is not); that select!
-- sees the end of a task is one of the things that happen. A client is the list of its sessions.
-- The tasks that a session leaves running are followed up to the next session; what they do to the
-- shared state and the transfers after that, and what they tell the window, is given with each
-- later session (others_do), and what they still write to their old socket is left out. Such a loop
-- is a recursion on its list or on a number of attempts or chunks. The loop that connects is the
-- one on fuel: three rounds are enough.
--
-- Base holds the shared lists, maps, results and Boolean tests; Text holds UTF-8, UTF-16, trimming
-- and the like, written out from Rust's standard library. Tests holds concrete runs.
--
-- Parameters: serde_json (Json), SHA-256, HKDF, the AEAD and hex (Primitives), base64 and the file
-- system (Outside, Files, Attempt, Folder), the url crate (UrlScheme), floating-point numbers
-- (Floats), the desktop (Desktop), the calls of the Windows registry (Registry) and the clock. What
-- a theorem asks of one of them is a hypothesis with a name: RoundTrips, Unseals, Digests, Handles,
-- Keeps.
--
-- Not modelled: drawing, the tray icon, hotkeys and hiding the window; the paths of files; logging;
-- command lines. The copy of core and relay in .deploy-relay-src is older and is left out.
pub mod Base
pub mod Text
pub mod Core
pub mod Relay
pub mod Client
pub mod Tests
pub mod Delivery
