-- ===== src/Client/UiState/Saved.antt =====
-- What saving the placements leaves, and that it never panics.
use cliprelay.Base.{
  ℕ, zero, suc, ◌≡◌, ◌⊎◌, refl, arith, Option, none, some, Option-cases, Sum-cases, Result, ok, err,
  inl, inr,
}
use cliprelay.Text.{Text}
use cliprelay.Core.{Json}
use cliprelay.Client.UiState.{
  rename, write_tmp, serialize, SavedUiState, UiStateSaveError, IoFaults, save_ui_state_to_path,
  save_loop, save_ui_state_with_retry,
}

-- The state is written whole, or there is an error and the file is as it was.
abbrev pub IsAtomic :
    Json SavedUiState
    → SavedUiState
    → Option Text
    → Option Text × Result UiStateSaveError (Unit {0})
    → Type 0
IsAtomic json state file outcome =
    ((outcome.1 ≡ ok tt)
      × (payload : Text) × (json.to_vec state ≡ inr payload)
      × (outcome.0 ≡ some payload))
    ⊎ ((e : UiStateSaveError) × (outcome.1 ≡ err e) × (outcome.0 ≡ file))

module _ (json : Json SavedUiState) (state : SavedUiState) where
  once-IsAtomic :
      (faults : IoFaults) (file : Option Text)
      → IsAtomic json state file (save_ui_state_to_path json state faults file)
  unfolding save_ui_state_to_path
  once-IsAtomic faults file = elim (Sum-cases (json.to_vec state)) [
    | inl (e, bad) ↦ inr (serialize e, ground arith, ground arith)
    | inr (payload, written) ↦ elim (Option-cases faults.write_fault) [
      | inr (e, fails) ↦ inr (write_tmp e, ground arith, ground arith)
      | inl fine ↦ elim (Option-cases faults.rename_fault) [
        | inr (e, fails) ↦ inr (rename e, ground arith, ground arith)
        | inl done ↦ inl (ground arith, payload, written, ground arith)
      ]
    ]
  ]

  loop-IsAtomic :
      (faults : ℕ → IoFaults) (left : ℕ) (e : UiStateSaveError) (file : Option Text)
      → IsAtomic json state file (save_loop json state faults left (some e) file)
  unfolding save_loop
  loop-IsAtomic faults zero e file = inr (e, refl, refl)
  loop-IsAtomic faults (suc left) e file = elim (once-IsAtomic (faults left) file) [
    | inl (done, payload, written, whole) ↦
        rw (done, save_loop) (inl (refl, payload, written, whole))
    | inr (x, failed, same) ↦ rw (failed, save_loop, same) (loop-IsAtomic faults left x file)
  ]

  first-IsAtomic :
      (faults : ℕ → IoFaults) (left : ℕ) (last_err : Option UiStateSaveError) (file : Option Text)
      → IsAtomic json state file (save_loop json state faults (suc left) last_err file)
  unfolding save_loop
  first-IsAtomic faults left last_err file = elim (once-IsAtomic (faults left) file) [
    | inl (done, payload, written, whole) ↦
        rw (done, save_loop) (inl (refl, payload, written, whole))
    | inr (x, failed, same) ↦ rw (failed, save_loop, same) (loop-IsAtomic faults left x file)
  ]

  -- Whichever system calls fail: saving the placements ends without a panic, after it has written the
  -- state whole, or with an error and the file as it was.
  pub save_ui_state_with_retry-IsAtomic :
      (faults : ℕ → IoFaults) (file : Option Text)
      → IsAtomic json state file (save_ui_state_with_retry json state faults file)
  unfolding save_ui_state_with_retry
  save_ui_state_with_retry-IsAtomic faults file = first-IsAtomic faults 2 none file
