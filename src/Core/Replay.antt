-- ===== src/Core/Replay.antt =====
-- `validate_counter` of cliprelay-core/src/lib.rs: the check against replayed messages. The map is
-- the argument that the function changes, so it is a part of the result.
pub mod Order
use cliprelay.Base.{ℕ, Option, none, some, Result, ok, err, leb, if◌then◌else◌, List, [], ◌∷◌}
use cliprelay.Base.Map.{Map, get, insert}
use cliprelay.Text.{Text}
use cliprelay.Core.{CoreResult, DeviceId, replay_rejected}

unfoldable pub validate_counter : Map ℕ → DeviceId → ℕ → Map ℕ × CoreResult (Unit {0})
validate_counter last_seen_by_sender sender_device_id counter =
    let accepted : Map ℕ × CoreResult (Unit {0}) =
      (insert last_seen_by_sender sender_device_id counter, ok tt) in
    elim (get last_seen_by_sender sender_device_id) [
      | some previous ↦
          if leb counter previous
          then (last_seen_by_sender, err (replay_rejected sender_device_id counter previous))
          else accepted
      | none ↦ accepted
    ]

-- The messages, as sender and counter, that pass the check one after the other.
unfoldable pub accepted_messages : Map ℕ → List (DeviceId × ℕ) → List (DeviceId × ℕ)
accepted_messages m [] = []
accepted_messages m ((sender, counter) ∷ rest) =
    let (m', answer) = validate_counter m sender counter in
    let later = accepted_messages m' rest in
    elim answer [ ok u ↦ (sender, counter) ∷ later | _ ↦ later ]
