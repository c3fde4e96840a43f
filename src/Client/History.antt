-- ===== src/Client/History.antt =====
-- The history file: `load_history` and `save_history` of cliprelay-client/src/main.rs. A file is its
-- contents, if it exists; which system calls fail is an argument, and serde_json a parameter.
pub mod Kept
use cliprelay.Client.{max_history_entries}
use cliprelay.Client.Config.{try_save, Attempt}
use cliprelay.Text.{Text}
use cliprelay.Core.{Json}
use cliprelay.Base.{
  false, true, panic, zero, none, inr, err, ok, inl, suc, some, take, leb, [], if◌then◌else◌,
  Option, ◌∷◌, Bool, List, ℕ,
}
use cliprelay.Client.Window.{ActivityEntry}

-- The newest first; entries of one time keep their order, as with `sort_by`.
unfoldable pub insert_newest : ActivityEntry → List ActivityEntry → List ActivityEntry
insert_newest e [] = e ∷ []
insert_newest e (x ∷ xs) =
    let rest = insert_newest e xs in if leb x.ts_unix_ms e.ts_unix_ms then e ∷ x ∷ xs else x ∷ rest

unfoldable pub sort_newest : List ActivityEntry → List ActivityEntry
sort_newest [] = []
sort_newest (e ∷ es) = insert_newest e (sort_newest es)

-- One attempt, and up to `left` more where it fails. The pauses between them change no state.
unfoldable pub write_history : Text → (ℕ → Attempt) → ℕ → Option Text → Option Text
write_history payload attempts zero file = (try_save payload (attempts 0) file).0
write_history payload attempts (suc left) file =
    let (file', answer) = try_save payload (attempts (suc left)) file in
    let later = write_history payload attempts left file' in
    elim answer [ ok u ↦ file' | err e ↦ later | panic ↦ file' ]

module _ (json : Json (List ActivityEntry)) where
  -- `read_fails`: the file is there, but cannot be read as text.
  unfoldable pub load_history : Bool → Option Text → List ActivityEntry
  load_history read_fails none = []
  load_history true (some contents) = []
  load_history false (some contents) = elim (json.from_slice contents) [
    | inl e ↦ []
    | inr entries ↦ take max_history_entries (sort_newest entries)
  ]

  unfoldable pub save_history : List ActivityEntry → (ℕ → Attempt) → Option Text → Option Text
  save_history history attempts file = elim (json.to_vec (take max_history_entries history)) [
    | inl e ↦ file
    | inr payload ↦ write_history payload attempts 2 file
  ]
