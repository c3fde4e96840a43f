-- ===== src/Client/Outgoing/Sending.antt =====
-- A file that is being sent, `send_file_v1` of cliprelay-client/src/main.rs, from one chunk to the next:
-- in the pause after a chunk the other tasks go on, and the session may end.
use cliprelay.Base.{
  ℕ, ◌+◌, Option, none, some, ok, err, panic, List, [], ◌∷◌, ◌++◌, ltb, if◌then◌else◌,
}
use cliprelay.Text.{Text}
use cliprelay.Core.Cipher.{Primitives}
use cliprelay.Client.{
  ClientConfig, SharedRuntimeState, RuntimeCommand, send_file, last_sent, runtime_error,
  send_file_failed,
}
use cliprelay.Client.Transfer.{Outside}
use cliprelay.Client.Outgoing.{
  Effect, tell, persist, Files, Clock, Prepared, prepare, envelope_text, send_chunks,
  transfer_id_of, on_command,
}

-- What the loop has at hand, and the chunk that is next.
pub record Sending : Type 0 where
  pub id : Text
  pub prepared : Prepared
  pub clock : Clock
  pub chunk_index : ℕ

module _ (prim : Primitives) (outside : Outside) where
  -- One chunk, and what follows it: the pause, or the end of the command. The counter, what is left to
  -- send, and what is done outside.
  unfoldable pub send_chunk : ClientConfig → ℕ → Sending → ℕ × Option Sending × List Effect
  send_chunk config counter s =
      let p = s.prepared in
      let (last, effects, answer) =
        send_chunks prim outside p.key config s.clock
          (envelope_text prim outside s.id p.name p.contents p.count) counter s.chunk_index 1 in
      elim answer [
        | ok u ↦
            if ltb (s.chunk_index + 1) p.count
            then (last, some (record s { chunk_index = s.chunk_index + 1 }), effects)
            else (last, none, effects ++ (tell (last_sent s.clock.finish) ∷ persist last ∷ []))
        | err e ↦ (last, none, effects ++ (tell (runtime_error (send_file_failed e)) ∷ []))
        | panic ↦ (last, none, effects)
      ]

  -- Up to the first pause. The key is the one when the file has been read.
  unfoldable pub start_file :
      Files
      → (ℕ → Text)
      → ClientConfig
      → SharedRuntimeState
      → ℕ
      → Clock
      → Text
      → ℕ × Option Sending × List Effect
  start_file files show config shared counter clock path = elim (prepare files shared path) [
    | err e ↦ (counter, none, tell (runtime_error (send_file_failed e)) ∷ [])
    | panic ↦ (counter, none, [])
    | ok p ↦ send_chunk config counter (record {
      id = transfer_id_of prim outside show config clock.start p.name;
      prepared = p;
      clock = clock;
      chunk_index = 0;
    })
  ]

  -- A command up to its first pause: only a file has one.
  unfoldable pub start_command :
      Files
      → (ℕ → Text)
      → ClientConfig
      → SharedRuntimeState
      → ℕ
      → Clock
      → RuntimeCommand
      → SharedRuntimeState × ℕ × Option Sending × List Effect
  start_command files show config shared counter clock (send_file path) =
      let (last, left, effects) = start_file files show config shared counter clock path in
      (shared, last, left, effects)
  start_command files show config shared counter clock command =
      let (after, last, effects) =
        on_command prim outside files show config shared counter clock command in
      (after, last, none, effects)
