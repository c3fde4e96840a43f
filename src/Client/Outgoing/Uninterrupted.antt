-- ===== src/Client/Outgoing/Uninterrupted.antt =====
-- A command that is not interrupted: chunk by chunk it does what `process_runtime_commands` of
-- cliprelay-client/src/main.rs does in one go.
use cliprelay.Client.Outgoing.Chunkwise.{whole, go_on}
use cliprelay.Text.{Bytes, Text}
use cliprelay.Client.{
  max_total_chunks, Bytes, SharedRuntimeState, send_file_failed, runtime_error, last_sent, Text,
  FileError, ClientConfig,
}
use cliprelay.Client.Transfer.{chunk_count, Outside}
use cliprelay.Core.Cipher.{Primitives}
use cliprelay.Base.{refl, panic, err, ◌≡◌, [], ◌∷◌, ◌++◌, ok, Option, Result, List, ℕ}
use cliprelay.Client.Outgoing.Sending.{Sending, send_chunk, start_file}
use cliprelay.Client.Outgoing.{
  transfer_id_of, chunk_count, send_file_v1, Prepared, Clock, prepare, Files, FileError,
  ClientConfig, Outside, ℕ, Primitives, Effect, tell, persist,
}

module _ (prim : Primitives) (outside : Outside) (config : ClientConfig) where
  -- What a file comes to in one go.
  abbrev in_one_go :
      SharedRuntimeState
      → ℕ
      → ℕ × List Effect × Result FileError (Unit {0})
      → SharedRuntimeState × ℕ × List Effect
  in_one_go shared now r = let (last, effects) = whole now [] r in (shared, last, effects)

  -- What `send_file_v1` makes of its chunks, and what the command's task makes of that.
  abbrev concluded :
      ℕ
      → ℕ × List Effect × Result FileError (Unit {0})
      → ℕ × List Effect × Result FileError (Unit {0})
  concluded now (last, effects, ok u) = (last, effects ++ (tell (last_sent now) ∷ []), ok tt)
  concluded now (last, effects, err e) = (last, effects, err e)
  concluded now (last, effects, panic) = (last, effects, panic)

  abbrev reported :
      SharedRuntimeState
      → ℕ × List Effect × Result FileError (Unit {0})
      → SharedRuntimeState × ℕ × List Effect
  reported shared (last, effects, ok u) = (shared, last, effects ++ (persist last ∷ []))
  reported shared (last, effects, err e) =
      (shared, last, effects ++ (tell (runtime_error (send_file_failed e)) ∷ []))
  reported shared (last, effects, panic) = (shared, last, effects)

  module _ (files : Files) (show : ℕ → Text) (shared : SharedRuntimeState) (counter : ℕ)
      (clock : Clock) (path : Text) where
    abbrev file : ℕ × List Effect × Result FileError (Unit {0})
    file = send_file_v1 prim outside files show path config shared counter clock

    abbrev at_first : Prepared → Sending
    at_first p = record {
      id = transfer_id_of prim outside show config clock.start p.name;
      prepared = p;
      clock = clock;
      chunk_index = 0;
    }

    -- The same for `start_file`.
    started :
        {p : Prepared}
        → prepare files shared path ≡ ok p
        → start_file prim outside files show config shared counter clock path
          ≡ send_chunk prim outside config counter (at_first p)
    unfolding start_file
    started e = rw (e, start_file) refl

    abbrev run_out : ℕ × Option Sending × List Effect → SharedRuntimeState × ℕ × List Effect
    run_out one =
        let (end, all) = go_on prim outside config max_total_chunks [] one in (shared, end, all)
