-- ===== src/Client/Incoming/Replayed.antt =====
-- A message that a client has received is of no effect when it comes again.
use cliprelay.Base.{
  le→leb, ap, true, max, leb, subst, false, ℕ, ◌≤◌, ◌≡◌, refl, sym, ◌∙◌, arith, Option, none, some,
  Option-cases, err, Result-cases, List, [], ◌∷◌, Bool-cases, inl, inr, =?→eq, ◌=?◌,
}
use cliprelay.Base.Map.{Map, get}
use cliprelay.Core.{
  replay_rejected, EncryptedPayload, DeviceId, Codec, ClipboardEventPlaintext, control, encrypted,
}
use cliprelay.Core.Frame.{decode_frame}
use cliprelay.Core.Cipher.{Primitives, decrypt_clipboard_event}
use cliprelay.Core.Replay.{validate_counter}
use cliprelay.Core.Replay.Order.{latest_le, recorded, latest, get-validate_counter}
use cliprelay.Client.{
  mime_file_chunk_json_b64, mime_text_plain, CoreError, ClientConfig, SharedRuntimeState,
}
use cliprelay.Client.Transfer.{Outside, handle_file_chunk_event}
use cliprelay.Client.Incoming.{
  Incoming, binary_message, other_message, read_error, Receiver, on_chunk, on_event, on_fresh,
  on_payload, on_incoming, network_receive_task,
}

-- The map holds a counter of the sender that is at least the given one.
abbrev SeenUpTo : Map ℕ → DeviceId → ℕ → Type 0
SeenUpTo m sender n = (previous : ℕ) × (get m sender ≡ some previous) × (n ≤ previous)

seen-kept :
    (m : Map ℕ) (s t : DeviceId) (n c : ℕ)
    → SeenUpTo m s n
    → SeenUpTo (validate_counter m t c).0 s n
seen-kept m s t n c (p, found, le) = elim (Bool-cases (t =? s)) [
  | inl same ↦ (max p c, ground (arith, get-validate_counter m t s c, =?→eq t s same), omega arith)
  | inr other ↦ (p, ground (arith, get-validate_counter m t s c), le)
]

seen-recorded : (m : Map ℕ) (s : DeviceId) (c : ℕ) → SeenUpTo (validate_counter m s c).0 s c
seen-recorded m s c = (latest (get m s) c, recorded m s c, latest_le (get m s) c)

seen-rejects :
    (m : Map ℕ) (s : DeviceId) (n c : ℕ)
    → SeenUpTo m s n
    → c ≤ n
    → (e : CoreError) × ((validate_counter m s c).1 ≡ err e)
unfolding validate_counter
seen-rejects m s n c (p, found, le) h =
    let low : leb c p ≡ true = le→leb c p (omega arith) in
    (replay_rejected s c p, rw (found, validate_counter, low) refl)

abbrev SeenAfter : DeviceId → ℕ → Option Receiver → Type 0
SeenAfter s n none = Unit {0}
SeenAfter s n (some r) = SeenUpTo r.replay_map s n

module _ (prim : Primitives) (outside : Outside) where
  on_chunk-seen :
      (r : Receiver) (now : ℕ) (event : ClipboardEventPlaintext) (s : DeviceId) (n : ℕ)
      → SeenUpTo r.replay_map s n
      → SeenAfter s n (on_chunk prim outside r now event).0
  unfolding on_chunk
  on_chunk-seen r now event s n seen =
      elim (Result-cases
        (handle_file_chunk_event outside r.transfers now event.sender_device_id
          event.text_utf8).1) [
            | inl (file, e) ↦ elim (Option-cases file) [
              | inl nothing ↦ rw (e, on_chunk, nothing, on_chunk) seen
              | inr (f, whole) ↦ rw (e, on_chunk, whole, on_chunk) seen
            ]
            | inr (inl (x, e)) ↦ rw (e, on_chunk) seen
            | inr (inr e) ↦ rw (e, on_chunk) tt
          ]

  on_event-seen :
      (shared : SharedRuntimeState) (r : Receiver) (now : ℕ) (event : ClipboardEventPlaintext)
      (s : DeviceId) (n : ℕ)
      → SeenUpTo r.replay_map s n
      → SeenAfter s n (on_event prim outside shared r now event).0
  unfolding on_event
  on_event-seen shared r now event s n seen = elim (Bool-cases (event.mime =? mime_text_plain)) [
    | inl text ↦ rw (text, on_event) seen
    | inr other ↦ elim (Bool-cases (event.mime =? mime_file_chunk_json_b64)) [
      | inl chunk ↦ rw (other, on_event, chunk, on_event) (on_chunk-seen r now event s n seen)
      | inr ignored ↦ rw (other, on_event, ignored, on_event) seen
    ]
  ]

  on_fresh-seen :
      (shared : SharedRuntimeState) (r : Receiver) (now : ℕ) (payload : EncryptedPayload)
      (s : DeviceId) (n : ℕ)
      → SeenUpTo r.replay_map s n
      → SeenAfter s n (on_fresh prim outside shared r now payload).0
  unfolding on_fresh
  on_fresh-seen shared r now payload s n seen = elim (Option-cases shared.room_key) [
    | inl no_key ↦ rw (no_key, on_fresh) seen
    | inr (key, has_key) ↦ elim (Result-cases (decrypt_clipboard_event prim key payload)) [
      | inl (event, e) ↦
          rw (has_key, on_fresh, e, on_fresh) (on_event-seen shared r now event s n seen)
      | inr (inl (x, e)) ↦ rw (has_key, on_fresh, e, on_fresh) seen
      | inr (inr e) ↦ rw (has_key, on_fresh, e, on_fresh) tt
    ]
  ]

  -- A payload keeps what is seen, and adds itself unless it is the client's own.
  checked-seen :
      (config : ClientConfig) (shared : SharedRuntimeState) (r : Receiver) (now : ℕ)
      (payload : EncryptedPayload) (s : DeviceId) (n : ℕ)
      → (payload.sender_device_id =? config.device_id) ≡ false
      → SeenUpTo (validate_counter r.replay_map payload.sender_device_id payload.counter).0 s n
      → SeenAfter s n (on_payload prim outside config shared r now payload).0
  unfolding on_payload
  checked-seen config shared r now payload s n other seen =
      let checked = validate_counter r.replay_map payload.sender_device_id payload.counter in
      let r' : Receiver = record { replay_map = checked.0; transfers = r.transfers } in
      elim (Result-cases checked.1) [
        | inl (u, e) ↦
            rw (other, on_payload, e, on_payload) (on_fresh-seen shared r' now payload s n seen)
        | inr (inl (x, e)) ↦ rw (other, on_payload, e, on_payload) seen
        | inr (inr e) ↦ rw (other, on_payload, e, on_payload) tt
      ]

  on_payload-seen :
      (config : ClientConfig) (shared : SharedRuntimeState) (r : Receiver) (now : ℕ)
      (payload : EncryptedPayload) (s : DeviceId) (n : ℕ)
      → SeenUpTo r.replay_map s n
      → SeenAfter s n (on_payload prim outside config shared r now payload).0
  unfolding on_payload
  on_payload-seen config shared r now payload s n seen =
      elim (Bool-cases (payload.sender_device_id =? config.device_id)) [
        | inl own ↦ rw (own, on_payload) seen
        | inr other ↦
            checked-seen config shared r now payload s n other
              (seen-kept r.replay_map s payload.sender_device_id n payload.counter seen)
      ]

  rejected :
      (config : ClientConfig) (shared : SharedRuntimeState) (r : Receiver) (now : ℕ)
      (payload : EncryptedPayload) (n : ℕ)
      → SeenUpTo r.replay_map payload.sender_device_id n
      → payload.counter ≤ n
      → (on_payload prim outside config shared r now payload).1 ≡ []
  unfolding on_payload
  rejected config shared r now payload n seen h =
      elim (Bool-cases (payload.sender_device_id =? config.device_id)) [
        | inl own ↦ rw (own, on_payload) refl
        | inr other ↦
            let (e, refused) =
              seen-rejects r.replay_map payload.sender_device_id n payload.counter seen h in
            rw (other, on_payload, refused, on_payload) refl
      ]

  ignored :
      (config : ClientConfig) (shared : SharedRuntimeState) (r : Receiver) (now : ℕ)
      (payload : EncryptedPayload)
      → (payload.sender_device_id =? config.device_id) ≡ true
      → (on_payload prim outside config shared r now payload).1 ≡ []
  unfolding on_payload
  ignored config shared r now payload own = rw own refl

  module _ (codec : Codec) where
    on_incoming-seen :
        (config : ClientConfig) (shared : SharedRuntimeState) (r : Receiver) (now : ℕ)
        (incoming : Incoming) (s : DeviceId) (n : ℕ)
        → SeenUpTo r.replay_map s n
        → SeenAfter s n (on_incoming prim outside codec config shared r now incoming).0
    unfolding on_incoming
    on_incoming-seen config shared r now other_message s n seen = seen
    on_incoming-seen config shared r now (read_error e) s n seen = tt
    on_incoming-seen config shared r now (binary_message bytes) s n seen =
        elim (Result-cases (decode_frame codec bytes)) [
          | inl (control m, e) ↦ rw (e, on_incoming) seen
          | inl (encrypted p, e) ↦
              rw (e, on_incoming) (on_payload-seen config shared r now p s n seen)
          | inr (inl (x, e)) ↦ rw (e, on_incoming) seen
          | inr (inr e) ↦ rw (e, on_incoming) tt
        ]

    task-seen :
        (config : ClientConfig) (r : Receiver) (rest : List (Incoming × SharedRuntimeState × ℕ))
        (s : DeviceId) (n : ℕ)
        → SeenUpTo r.replay_map s n
        → SeenAfter s n (network_receive_task prim outside codec config r rest).0
    unfolding network_receive_task
    task-seen config r [] s n seen = seen
    task-seen config r ((incoming, shared, now) ∷ rest) s n seen =
        let after = on_incoming-seen config shared r now incoming s n seen in
        elim (Option-cases (on_incoming prim outside codec config shared r now incoming).0) [
          | inl left ↦ rw (left, network_receive_task) tt
          | inr (r', goes_on) ↦
              rw (goes_on, network_receive_task)
                (task-seen config r' rest s n (subst (SeenAfter s n) goes_on after))
        ]

    -- After a payload was received, and any messages after it: a payload of the same sender whose
    -- counter is not greater passes nothing on to the window, whatever it holds.
    pub on_payload-replayed :
        (config : ClientConfig) (shared shared' : SharedRuntimeState) (r : Receiver) (now now' : ℕ)
        (payload again : EncryptedPayload) (between : List (Incoming × SharedRuntimeState × ℕ))
        {mid final : Receiver}
        → again.sender_device_id ≡ payload.sender_device_id
        → again.counter ≤ payload.counter
        → (on_payload prim outside config shared r now payload).0 ≡ some mid
        → (network_receive_task prim outside codec config mid between).0 ≡ some final
        → (on_payload prim outside config shared' final now' again).1 ≡ []
    on_payload-replayed config shared shared' r now now' payload again between {mid} {final} same h
          first later =
        elim (Bool-cases (payload.sender_device_id =? config.device_id)) [
          | inl own ↦
              let own' : (again.sender_device_id =? config.device_id) ≡ true =
                ap (λ (t : DeviceId). t =? config.device_id) same ∙ own in
              ignored config shared' final now' again own'
          | inr other ↦
              let s = payload.sender_device_id in
              let c = payload.counter in
              let once : SeenUpTo mid.replay_map s c = subst (SeenAfter s c) first (
                checked-seen config shared r now payload s c other
                  (seen-recorded r.replay_map s c)) in
              let still : SeenUpTo final.replay_map s c =
                subst (SeenAfter s c) later (task-seen config mid between s c once) in
              rejected config shared' final now' again c
                (subst (λ (t : DeviceId). SeenUpTo final.replay_map t c) (sym same) still) h
        ]
