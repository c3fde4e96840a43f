-- ===== src/Client/Outgoing/Counters.antt =====
-- The counters under which a client's messages go out.
use cliprelay.Base.{
  ◌+◌, length, ltb, ℕ, zero, suc, ◌<◌, ◌≡◌, refl, arith, Result, ok, List, [], ◌∷◌, Result-cases,
  Option-cases, Bool-cases, inl, inr,
}
use cliprelay.Text.{Bytes, Text, trim, is_empty}
use cliprelay.Core.{EncryptedPayload, max_clipboard_text_bytes}
use cliprelay.Core.Cipher.{Primitives, encrypt_clipboard_event}
use cliprelay.Client.{
  send_file_failed, runtime_error, send_file, mark_applied, last_sent, set_auto_apply, send_text,
  ClientConfig, SharedRuntimeState, RuntimeCommand, FileError,
}
use cliprelay.Client.Transfer.{Outside}
use cliprelay.Client.Outgoing.{
  transfer_id_of, envelope_text, chunk_event, text_event, tell, persist, saturating_suc,
  send_chunks, send_file_v1, on_send_text, on_command, process_runtime_commands, Files, Clock,
  prepare,
}
use cliprelay.Client.Outgoing.Sending.{Sending, send_chunk, start_file, start_command}
use cliprelay.Client.Outgoing.Runs.{
  max_u64, counters, Ascends, Runs, encrypt-counter, saturating_suc-Runs, Runs-append, tell-Runs,
  queue-Runs, idle-Runs, told-Runs,
}

module _ (prim : Primitives) (outside : Outside) where
  chunk_event-counter :
      (key : Bytes) (config : ClientConfig) (clock : Clock) (c i : ℕ) (text : Text)
      {payload : EncryptedPayload}
      → encrypt_clipboard_event prim key (chunk_event config clock c i text) ≡ ok payload
      → payload.counter ≡ c
  unfolding chunk_event
  chunk_event-counter key config clock c i text e =
      encrypt-counter prim key (chunk_event config clock c i text) e

  text_event-counter :
      (key : Bytes) (config : ClientConfig) (clock : Clock) (c : ℕ) (text : Text)
      {payload : EncryptedPayload}
      → encrypt_clipboard_event prim key (text_event config clock c text) ≡ ok payload
      → payload.counter ≡ c
  unfolding text_event
  text_event-counter key config clock c text e =
      encrypt-counter prim key (text_event config clock c text) e

  send_chunks-Runs :
      (key : Bytes) (config : ClientConfig) (clock : Clock) (text_of : ℕ → Result FileError Text)
      (counter i left : ℕ)
      → let (last, effects, answer) =
          send_chunks prim outside key config clock text_of counter i left in
        Runs counter effects last
  unfolding send_chunks
  send_chunks-Runs key config clock text_of counter i zero = (omega arith, λ h. omega arith)
  send_chunks-Runs key config clock text_of counter i (suc left) =
      let c' : ℕ = saturating_suc counter in
      let once = saturating_suc-Runs counter in
      let rest = send_chunks-Runs key config clock text_of c' (suc i) left in
      let later = send_chunks prim outside key config clock text_of c' (suc i) left in
      elim (Result-cases (text_of i)) [
        | inr (inl (x, e)) ↦ rw (e, send_chunks) (omega arith, λ h. omega arith)
        | inr (inr e) ↦ rw (e, send_chunks) (omega arith, λ h. omega arith)
        | inl (text, e) ↦
            elim (Result-cases
              (encrypt_clipboard_event prim key (chunk_event config clock c' i text))) [
                | inl (payload, sent) ↦
                    rw (e, send_chunks, sent, send_chunks)
                      (queue-Runs counter c' later.0 payload later.1
                        (chunk_event-counter key config clock c' i text sent) once rest)
                | inr (inl (x, failed)) ↦
                    rw (e, send_chunks, failed, send_chunks) (tell-Runs counter c' once)
                | inr (inr failed) ↦
                    rw (e, send_chunks, failed, send_chunks) (tell-Runs counter c' once)
              ]
      ]

  send_file_v1-Runs :
      (files : Files) (show : ℕ → Text) (path : Text) (config : ClientConfig)
      (shared : SharedRuntimeState) (counter : ℕ) (clock : Clock)
      → let (last, effects, answer) =
          send_file_v1 prim outside files show path config shared counter clock in
        Runs counter effects last
  unfolding send_file_v1
  send_file_v1-Runs files show path config shared counter clock =
      elim (Result-cases (prepare files shared path)) [
        | inr (inl (x, e)) ↦ rw (e, send_file_v1) (idle-Runs counter)
        | inr (inr e) ↦ rw (e, send_file_v1) (idle-Runs counter)
        | inl (p, e) ↦
            let text_of =
              envelope_text prim outside
                (transfer_id_of prim outside show config clock.start p.name) p.name p.contents
                p.count in
            let sent = send_chunks prim outside p.key config clock text_of counter 0 p.count in
            let runs = send_chunks-Runs p.key config clock text_of counter 0 p.count in
            elim (Result-cases sent.2) [
              | inl (u, a) ↦
                  rw (e, send_file_v1, a, send_file_v1)
                    (told-Runs counter sent.0 sent.1 (tell (last_sent clock.finish)) refl runs)
              | inr (inl (x, a)) ↦ rw (e, send_file_v1, a, send_file_v1) runs
              | inr (inr a) ↦ rw (e, send_file_v1, a, send_file_v1) runs
            ]
      ]

  on_send_text-Runs :
      (config : ClientConfig) (shared : SharedRuntimeState) (counter : ℕ) (clock : Clock)
      (text : Text)
      → let (last, effects) = on_send_text prim outside config shared counter clock text in
        Runs counter effects last
  unfolding on_send_text
  on_send_text-Runs config shared counter clock text =
      let c' : ℕ = saturating_suc counter in
      let once = saturating_suc-Runs counter in
      elim (Bool-cases (is_empty (trim text))) [
        | inl blank ↦ rw (blank, on_send_text) (idle-Runs counter)
        | inr blank ↦ elim (Bool-cases (ltb max_clipboard_text_bytes (length text))) [
          | inl long ↦ rw (blank, on_send_text, long, on_send_text) (idle-Runs counter)
          | inr long ↦ elim (Option-cases shared.room_key) [
            | inl no_key ↦
                rw (blank, on_send_text, long, on_send_text, no_key, on_send_text)
                  (idle-Runs counter)
            | inr (key, has_key) ↦
                elim (Result-cases
                  (encrypt_clipboard_event prim key (text_event config clock c' text))) [
                    | inl (payload, sent) ↦
                        rw
                          (
                            blank, on_send_text, long, on_send_text, has_key, on_send_text, sent,
                            on_send_text,
                          )
                          (queue-Runs counter c' c' payload
                            (tell (last_sent clock.finish) ∷ persist c' ∷ [])
                            (text_event-counter key config clock c' text sent) once (idle-Runs c'))
                    | inr (inl (x, failed)) ↦
                        rw
                          (
                            blank, on_send_text, long, on_send_text, has_key, on_send_text, failed,
                            on_send_text,
                          )
                          (tell-Runs counter c' once)
                    | inr (inr failed) ↦
                        rw
                          (
                            blank, on_send_text, long, on_send_text, has_key, on_send_text, failed,
                            on_send_text,
                          )
                          (tell-Runs counter c' once)
                  ]
          ]
        ]
      ]

  pub on_command-Runs :
      (files : Files) (show : ℕ → Text) (config : ClientConfig) (shared : SharedRuntimeState)
      (counter : ℕ) (clock : Clock) (command : RuntimeCommand)
      → let (after, last, effects) =
          on_command prim outside files show config shared counter clock command in
        Runs counter effects last
  unfolding on_command
  on_command-Runs files show config shared counter clock (send_text t) =
      on_send_text-Runs config shared counter clock t
  on_command-Runs files show config shared counter clock (set_auto_apply b) = idle-Runs counter
  on_command-Runs files show config shared counter clock (mark_applied h) = idle-Runs counter
  on_command-Runs files show config shared counter clock (send_file path) =
      let sent = send_file_v1 prim outside files show path config shared counter clock in
      let runs = send_file_v1-Runs files show path config shared counter clock in
      elim (Result-cases sent.2) [
        | inl (u, a) ↦
            rw (a, on_command) (told-Runs counter sent.0 sent.1 (persist sent.0) refl runs)
        | inr (inl (x, a)) ↦
            rw (a, on_command)
              (told-Runs counter sent.0 sent.1 (tell (runtime_error (send_file_failed x))) refl
                runs)
        | inr (inr a) ↦ rw (a, on_command) runs
      ]

  pub send_chunk-Runs :
      (config : ClientConfig) (counter : ℕ) (s : Sending)
      → let (last, left, effects) = send_chunk prim outside config counter s in
        Runs counter effects last
  unfolding send_chunk
  send_chunk-Runs config counter s =
      let p = s.prepared in
      let text_of = envelope_text prim outside s.id p.name p.contents p.count in
      let one = send_chunks prim outside p.key config s.clock text_of counter s.chunk_index 1 in
      let n : ℕ = one.0 in
      let runs = send_chunks-Runs p.key config s.clock text_of counter s.chunk_index 1 in
      elim (Result-cases one.2) [
        | inl (u, e) ↦ elim (Bool-cases (ltb (s.chunk_index + 1) p.count)) [
          | inl more ↦ rw (e, send_chunk, more, send_chunk) runs
          | inr last ↦
              rw (e, send_chunk, last, send_chunk)
                (Runs-append counter n n one.1 (tell (last_sent s.clock.finish) ∷ persist n ∷ [])
                  runs (idle-Runs n))
        ]
        | inr (inl (x, e)) ↦
            rw (e, send_chunk)
              (told-Runs counter n one.1 (tell (runtime_error (send_file_failed x))) refl runs)
        | inr (inr e) ↦ rw (e, send_chunk) runs
      ]

  start_file-Runs :
      (files : Files) (show : ℕ → Text) (config : ClientConfig) (shared : SharedRuntimeState)
      (counter : ℕ) (clock : Clock) (path : Text)
      → let (last, left, effects) =
          start_file prim outside files show config shared counter clock path in
        Runs counter effects last
  unfolding start_file
  start_file-Runs files show config shared counter clock path =
      elim (Result-cases (prepare files shared path)) [
        | inr (inl (x, e)) ↦ rw (e, start_file) (idle-Runs counter)
        | inr (inr e) ↦ rw (e, start_file) (idle-Runs counter)
        | inl (p, e) ↦
            rw (e, start_file)
              (send_chunk-Runs config counter (record {
                id = transfer_id_of prim outside show config clock.start p.name;
                prepared = p;
                clock = clock;
                chunk_index = 0;
              }))
      ]

  pub start_command-Runs :
      (files : Files) (show : ℕ → Text) (config : ClientConfig) (shared : SharedRuntimeState)
      (counter : ℕ) (clock : Clock) (command : RuntimeCommand)
      → let (after, last, left, effects) =
          start_command prim outside files show config shared counter clock command in
        Runs counter effects last
  unfolding start_command
  start_command-Runs files show config shared counter clock (send_file path) =
      start_file-Runs files show config shared counter clock path
  start_command-Runs files show config shared counter clock (send_text t) =
      on_command-Runs files show config shared counter clock (send_text t)
  start_command-Runs files show config shared counter clock (set_auto_apply b) =
      on_command-Runs files show config shared counter clock (set_auto_apply b)
  start_command-Runs files show config shared counter clock (mark_applied h) =
      on_command-Runs files show config shared counter clock (mark_applied h)

  process-Runs :
      (files : Files) (show : ℕ → Text) (config : ClientConfig) (shared : SharedRuntimeState)
      (counter : ℕ)
      (commands : List (RuntimeCommand × (SharedRuntimeState → SharedRuntimeState) × Clock))
      → let (after, last, effects) =
          process_runtime_commands prim outside files show config shared counter commands in
        Runs counter effects last
  unfolding process_runtime_commands
  process-Runs files show config shared counter [] = idle-Runs counter
  process-Runs files show config shared counter ((command, others, clock) ∷ rest) =
      let one = on_command prim outside files show config (others shared) counter clock command in
      let more = process_runtime_commands prim outside files show config one.0 one.1 rest in
      Runs-append counter one.1 more.1 one.2 more.2
        (on_command-Runs files show config (others shared) counter clock command)
        (process-Runs files show config one.0 one.1 rest)

  -- While the 64-bit counter is not used up, whatever texts and files the user sends, successfully or
  -- not: the encrypted messages that are queued carry strictly increasing counters, all above the
  -- counter at the start and none above the counter at the end.
  process_runtime_commands-Ascends :
      (files : Files) (show : ℕ → Text) (config : ClientConfig) (shared : SharedRuntimeState)
      (counter : ℕ)
      (commands : List (RuntimeCommand × (SharedRuntimeState → SharedRuntimeState) × Clock))
      → (process_runtime_commands prim outside files show config shared counter commands).1
        < max_u64
      → let (after, last, effects) =
          process_runtime_commands prim outside files show config shared counter commands in
        Ascends counter (counters effects) last
  process_runtime_commands-Ascends files show config shared counter commands h =
      (process-Runs files show config shared counter commands).1 h
