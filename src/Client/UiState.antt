-- ===== src/Client/UiState.antt =====
-- cliprelay-client/src/ui_state.rs: loading and saving the window placements. A file is its contents,
-- if it exists; which system calls fail is an argument, and serde_json a parameter.
pub mod Saved
pub mod Clamp
use cliprelay.Base.{
  ℕ, zero, suc, ◌*◌, Option, none, some, Result, ok, err, panic, ltb, length, if◌then◌else◌, inl,
  inr,
}
use cliprelay.Base.Int.{ℤ}
use cliprelay.Text.{Text}
use cliprelay.Core.{Json}

abbrev pub max_ui_state_bytes : ℕ
max_ui_state_bytes = 64 * 1024

pub record WindowPlacement : Type 0 where
  pub x : ℤ
  pub y : ℤ
  pub w : ℕ
  pub h : ℕ

pub record SavedUiState : Type 0 where
  pub send : Option WindowPlacement
  pub options : Option WindowPlacement
  pub popup : Option WindowPlacement
  pub hotkey : Option Text

pub data UiStateLoadError : Type 0 where
  metadata read parse : Text → UiStateLoadError
  too_large : ℕ → ℕ → UiStateLoadError

pub data UiStateSaveError : Type 0 where
  serialize write_tmp rename : Text → UiStateSaveError

-- What goes wrong in one attempt: the write of the temporary file, or the rename.
pub record IoFaults : Type 0 where
  pub write_fault : Option Text
  pub rename_fault : Option Text

module _ (json : Json SavedUiState) where
  unfoldable pub parse_ui_state_json : Text → Result UiStateLoadError SavedUiState
  parse_ui_state_json contents = elim (json.from_slice contents) [
    | inl e ↦ err (parse e)
    | inr state ↦ ok state
  ]

  -- The faults are those of `metadata`, which fails also where there is no file, and of reading.
  unfoldable pub load_ui_state_from_path :
      Text → Option Text → Option Text → Option Text → Result UiStateLoadError SavedUiState
  load_ui_state_from_path not_found metadata_fault read_fault none = err (metadata not_found)
  load_ui_state_from_path not_found (some e) read_fault (some contents) = err (metadata e)
  load_ui_state_from_path not_found none read_fault (some contents) =
      if ltb max_ui_state_bytes (length contents)
      then err (too_large (length contents) max_ui_state_bytes)
      else elim read_fault [ some e ↦ err (read e) | none ↦ parse_ui_state_json contents ]

  unfoldable pub save_ui_state_to_path :
      SavedUiState → IoFaults → Option Text → Option Text × Result UiStateSaveError (Unit {0})
  save_ui_state_to_path state faults file = elim (json.to_vec state) [
    | inl e ↦ (file, err (serialize e))
    | inr payload ↦ elim faults.write_fault [
      | some e ↦ (file, err (write_tmp e))
      | none ↦ elim faults.rename_fault [
        | some e ↦ (file, err (rename e))
        | none ↦ (some payload, ok tt)
      ]
    ]
  ]

  -- The loop with its `last_err`; at the end, `expect` panics where there is none.
  unfoldable pub save_loop :
      SavedUiState
      → (ℕ → IoFaults)
      → ℕ
      → Option UiStateSaveError
      → Option Text
      → Option Text × Result UiStateSaveError (Unit {0})
  save_loop state faults zero last_err file =
      (file, elim last_err [ none ↦ panic | some e ↦ err e ])
  save_loop state faults (suc left) last_err file =
      let (file', answer) = save_ui_state_to_path state (faults left) file in
      elim answer [
        | ok u ↦ (file', ok u)
        | err e ↦ save_loop state faults left (some e) file'
        | panic ↦ (file', panic)
      ]

  unfoldable pub save_ui_state_with_retry :
      SavedUiState → (ℕ → IoFaults) → Option Text → Option Text × Result UiStateSaveError (Unit {0})
  save_ui_state_with_retry state faults file = save_loop state faults 3 none file
