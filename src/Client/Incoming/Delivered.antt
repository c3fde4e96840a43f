-- ===== src/Client/Incoming/Delivered.antt =====
-- Which texts a client shows.
use cliprelay.Base.{
  ◌≢◌, true, ap, false, ℕ, ◌≡◌, refl, sym, ◌∙◌, arith, Option, some, Option-cases, ok, Result-cases,
  List, [], ◌∷◌, Bool-cases, inl, inr, ◌=?◌, =?→eq, =?_refl,
}
use cliprelay.Text.{Bytes, Text}
use cliprelay.Core.{EncryptedPayload, ClipboardEventPlaintext, RoundTrips}
use cliprelay.Core.Cipher.{Primitives, Unseals, encrypt_clipboard_event, decrypt_clipboard_event}
use cliprelay.Core.Cipher.RoundTrip.{
  encrypt-ok, decrypt-encrypt_clipboard_event, decrypt_clipboard_event-ok,
}
use cliprelay.Core.Replay.{validate_counter}
use cliprelay.Core.Replay.Order.{IsFresh, validate_counter-accepts}
use cliprelay.Client.{
  mime_file_chunk_json_b64, ClientConfig, SharedRuntimeState, mime_text_plain, last_received,
  incoming_clipboard,
}
use cliprelay.Client.Transfer.{Outside, handle_file_chunk_event}
use cliprelay.Client.Incoming.{
  Receiver, Passed, to_window, is_last_applied, on_text, on_chunk, on_event, on_fresh, on_payload,
}

-- The sender, text and hash of every clipboard event that is passed to the window.
abbrev pub shown : List Passed → List (Text × Text × Bytes)
shown [] = []
shown (to_window (incoming_clipboard s t h) ∷ ps) = (s, t, h) ∷ shown ps
shown (p ∷ ps) = shown ps

abbrev checked_receiver : Receiver → EncryptedPayload → Receiver
checked_receiver r payload = record {
  replay_map = (validate_counter r.replay_map payload.sender_device_id payload.counter).0;
  transfers = r.transfers;
}

module _ (prim : Primitives) (outside : Outside) where
  on_event-text :
      (shared : SharedRuntimeState) (r : Receiver) (now : ℕ) (event : ClipboardEventPlaintext)
      → event.mime ≡ mime_text_plain
      → is_last_applied shared (prim.sha256 event.text_utf8) ≡ false
      → on_event prim outside shared r now event ≡ (
          (
            some r,
            to_window (last_received now)
                ∷ to_window (
                    incoming_clipboard event.sender_device_id event.text_utf8
                      (prim.sha256 event.text_utf8))
                ∷ [],
          ))
  unfolding on_event on_text
  on_event-text shared r now event m new =
      let text : (event.mime =? mime_text_plain) ≡ true = rw m (=?_refl mime_text_plain) in
      rw (text, new) refl

  on_fresh-opened :
      (shared : SharedRuntimeState) (r : Receiver) (now : ℕ) (payload : EncryptedPayload)
      (key : Bytes) (event : ClipboardEventPlaintext)
      → shared.room_key ≡ some key
      → decrypt_clipboard_event prim key payload ≡ ok event
      → on_fresh prim outside shared r now payload ≡ on_event prim outside shared r now event
  unfolding on_fresh on_event on_text is_last_applied
  on_fresh-opened shared r now payload key event k opened = rw (k, on_fresh, opened, on_fresh) refl

  on_payload-fresh :
      (config : ClientConfig) (shared : SharedRuntimeState) (r : Receiver) (now : ℕ)
      (payload : EncryptedPayload)
      → (payload.sender_device_id =? config.device_id) ≡ false
      → (validate_counter r.replay_map payload.sender_device_id payload.counter).1 ≡ ok tt
      → on_payload prim outside config shared r now payload
        ≡ on_fresh prim outside shared (checked_receiver r payload) now payload
  unfolding on_payload
  on_payload-fresh config shared r now payload foreign accepted =
      rw (foreign, on_payload, accepted, on_payload) refl

  on_chunk-shown :
      (r : Receiver) (now : ℕ) (event : ClipboardEventPlaintext)
      → shown (on_chunk prim outside r now event).1 ≡ []
  unfolding on_chunk
  on_chunk-shown r now event =
      elim (Result-cases
        (handle_file_chunk_event outside r.transfers now event.sender_device_id
          event.text_utf8).1) [
            | inl (file, e) ↦ elim (Option-cases file) [
              | inl nothing ↦ rw (e, on_chunk, nothing, on_chunk) refl
              | inr (f, whole) ↦ rw (e, on_chunk, whole, on_chunk) refl
            ]
            | inr (inl (x, e)) ↦ rw (e, on_chunk) refl
            | inr (inr e) ↦ rw (e, on_chunk) refl
          ]

  -- A text that another device encrypts under the key that this client holds is passed to the window,
  -- with its sender and hash, where its counter is fresh and it is not the text that was applied last;
  -- given that the cipher opens what it sealed and the JSON of an event reads back.
  pub on_payload-encrypt_clipboard_event :
      (config : ClientConfig) (shared : SharedRuntimeState) (r : Receiver) (now : ℕ) (key : Bytes)
      (event : ClipboardEventPlaintext) {payload : EncryptedPayload}
      → Unseals prim
      → RoundTrips prim.event_json
      → encrypt_clipboard_event prim key event ≡ ok payload
      → shared.room_key ≡ some key
      → event.mime ≡ mime_text_plain
      → (event.sender_device_id =? config.device_id) ≡ false
      → IsFresh r.replay_map event.sender_device_id event.counter
      → is_last_applied shared (prim.sha256 event.text_utf8) ≡ false
      → (on_payload prim outside config shared r now payload).1
        ≡ to_window (last_received now)
          ∷ to_window (
              incoming_clipboard event.sender_device_id event.text_utf8
                (prim.sha256 event.text_utf8))
          ∷ []
  on_payload-encrypt_clipboard_event config shared r now key event {payload} u rt e k m other fresh
        new =
      let (fine, plain, written, sealed, s_eq, c_eq) = encrypt-ok prim key event e in
      let opened : decrypt_clipboard_event prim key payload ≡ ok event =
        decrypt-encrypt_clipboard_event prim key event u rt e in
      let accepted : (validate_counter r.replay_map payload.sender_device_id payload.counter).1
          ≡ ok tt =
        rw (s_eq, c_eq)
          ((validate_counter-accepts r.replay_map event.sender_device_id event.counter).1 fresh) in
      let foreign : (payload.sender_device_id =? config.device_id) ≡ false = rw s_eq other in
      let r' = checked_receiver r payload in
      ap (λ (x : Option Receiver × List Passed). x.1)
        (on_payload-fresh config shared r now payload foreign accepted
          ∙ on_fresh-opened shared r' now payload key event k opened
          ∙ on_event-text shared r' now event m new)

  -- What a text that is shown comes from.
  pub record IsGenuine (config : ClientConfig) (shared : SharedRuntimeState) (r : Receiver)
      (payload : EncryptedPayload) (sender text : Text) (hash : Bytes) : Type 0 where
    pub sender_eq : sender ≡ payload.sender_device_id
    pub other : (sender =? config.device_id) ≡ false
    pub fresh : IsFresh r.replay_map sender payload.counter
    pub key : Bytes
    pub has_key : shared.room_key ≡ some key
    pub event : ClipboardEventPlaintext
    pub opened : decrypt_clipboard_event prim key payload ≡ ok event
    pub is_text : event.mime ≡ mime_text_plain
    pub text_eq : text ≡ event.text_utf8
    pub hash_eq : hash ≡ prim.sha256 text
    pub not_last : shared.last_applied_hash ≢ some hash

  not_applied :
      (shared : SharedRuntimeState) (hash : Bytes)
      → is_last_applied shared hash ≡ false
      → shared.last_applied_hash ≢ some hash
  unfolding is_last_applied
  not_applied shared hash e same = absurd (ground (arith, =?_refl hash))

  on_event-shown :
      (shared : SharedRuntimeState) (r : Receiver) (now : ℕ) (event : ClipboardEventPlaintext)
      {s t h : Text} {more : List (Text × Text × Bytes)}
      → shown (on_event prim outside shared r now event).1 ≡ (s, t, h) ∷ more
      → (event.mime ≡ mime_text_plain)
        × (s ≡ event.sender_device_id)
        × (t ≡ event.text_utf8)
        × (h ≡ prim.sha256 event.text_utf8)
        × (is_last_applied shared (prim.sha256 event.text_utf8) ≡ false)
        × (more ≡ [])
  unfolding on_event on_text
  on_event-shown shared r now event {s} {t} {h} {more} e =
      elim (Bool-cases (event.mime =? mime_text_plain)) [
        | inl text ↦ elim (Bool-cases (is_last_applied shared (prim.sha256 event.text_utf8))) [
          | inl last ↦ absurd (ground arith)
          | inr new ↦ (
            =?→eq event.mime mime_text_plain text,
            ground arith,
            ground arith,
            ground arith,
            new,
            ground arith,
          )
        ]
        | inr other ↦ elim (Bool-cases (event.mime =? mime_file_chunk_json_b64)) [
          | inl chunk ↦ absurd (ground (arith, on_chunk-shown r now event))
          | inr ignored ↦ absurd (ground arith)
        ]
      ]

  on_fresh-shown :
      (shared : SharedRuntimeState) (r : Receiver) (now : ℕ) (payload : EncryptedPayload)
      {s t h : Text} {more : List (Text × Text × Bytes)}
      → shown (on_fresh prim outside shared r now payload).1 ≡ (s, t, h) ∷ more
      → (key : Bytes) × (event : ClipboardEventPlaintext) × (shared.room_key ≡ some key)
        × (decrypt_clipboard_event prim key payload ≡ ok event)
        × (shown (on_event prim outside shared r now event).1 ≡ (s, t, h) ∷ more)
  unfolding on_fresh
  on_fresh-shown shared r now payload e = elim (Option-cases shared.room_key) [
    | inl no_key ↦ absurd (ground arith)
    | inr (key, has_key) ↦ elim (Result-cases (decrypt_clipboard_event prim key payload)) [
      | inl (event, opened) ↦ (key, event, has_key, opened, ground arith)
      | inr (inl (x, failed)) ↦ absurd (ground arith)
      | inr (inr failed) ↦ absurd (ground arith)
    ]
  ]

  on_payload-checked :
      (config : ClientConfig) (shared : SharedRuntimeState) (r : Receiver) (now : ℕ)
      (payload : EncryptedPayload) {s t h : Text} {more : List (Text × Text × Bytes)}
      → shown (on_payload prim outside config shared r now payload).1 ≡ (s, t, h) ∷ more
      → ((payload.sender_device_id =? config.device_id) ≡ false)
        × ((validate_counter r.replay_map payload.sender_device_id payload.counter).1 ≡ ok tt)
        × (shown (on_fresh prim outside shared (checked_receiver r payload) now payload).1
            ≡ (s, t, h) ∷ more)
  unfolding on_payload
  on_payload-checked config shared r now payload e =
      elim (Bool-cases (payload.sender_device_id =? config.device_id)) [
        | inl own ↦ absurd (ground arith)
        | inr other ↦
            elim (Result-cases
              (validate_counter r.replay_map payload.sender_device_id payload.counter).1) [
                | inl (u, accepted) ↦ (other, ground arith, ground arith)
                | inr (inl (x, refused)) ↦ absurd (ground arith)
                | inr (inr refused) ↦ absurd (ground arith)
              ]
      ]

  -- Where a payload makes the client pass clipboard events to the window, there is one of them only, and
  -- it is genuine: it opened under the room key, it is from another device, the sender that the payload
  -- names, its counter was fresh, and its hash, that of its text, is not the one applied last.
  pub on_payload-IsGenuine :
      (config : ClientConfig) (shared : SharedRuntimeState) (r : Receiver) (now : ℕ)
      (payload : EncryptedPayload) {s t h : Text} {more : List (Text × Text × Bytes)}
      → shown (on_payload prim outside config shared r now payload).1 ≡ (s, t, h) ∷ more
      → (more ≡ []) × IsGenuine config shared r payload s t h
  on_payload-IsGenuine config shared r now payload {s} {t} {h} {more} e =
      let (other, accepted, e1) = on_payload-checked config shared r now payload e in
      let (key, event, has_key, opened, e2) =
        on_fresh-shown shared (checked_receiver r payload) now payload e1 in
      let (mime, s_eq, t_eq, h_eq, new, single) =
        on_event-shown shared (checked_receiver r payload) now event e2 in
      let (same_sender, same_counter, sendable) =
        decrypt_clipboard_event-ok prim key payload opened in
      let sender_eq : s ≡ payload.sender_device_id = s_eq ∙ same_sender in
      let hash_eq : h ≡ prim.sha256 t = h_eq ∙ ap prim.sha256 (sym t_eq) in
      (
        single,
        record {
          sender_eq = sender_eq;
          other = rw sender_eq other;
          fresh = rw sender_eq (
              (validate_counter-accepts r.replay_map payload.sender_device_id payload.counter).0
                accepted);
          key = key;
          has_key = has_key;
          event = event;
          opened = opened;
          is_text = mime;
          text_eq = t_eq;
          hash_eq = hash_eq;
          not_last = not_applied shared h (rw h_eq new);
        },
      )
