-- ===== src/Client/Transfer.antt =====
-- Files in chunks: `handle_file_chunk_event` of cliprelay-client/src/main.rs, and the chunks that
-- `send_file_v1` cuts. serde_json, base64 and the file system are parameters.
pub mod Table
pub mod Chunks
use cliprelay.Base.{
  min, ℕ, zero, suc, ◌+◌, ◌-◌, ◌*◌, ◌/◌, Bool, true, false, ◌||◌, ◌&&◌, not, Option, none, some,
  Result, ok, err, panic, ◌>>=◌, List, [], ◌∷◌, ◌++◌, length, take, drop, ltb, leb, ◌==◌,
  if◌then◌else◌, ◌⊎◌, inl, inr,
}
use cliprelay.Base.Map.{Map, get, insert, remove, contains_key}
use cliprelay.Text.{Bytes, Text, trim, is_empty, ascii}
use cliprelay.Core.{Json, DeviceId}
use cliprelay.Client.{
  default_max_file_bytes, max_inflight_transfers, transfer_timeout_ms, max_total_chunks,
  file_chunk_raw_bytes,
}
use cliprelay.Client.FileName.{sanitize_file_name}

pub record FileChunkEnvelope : Type 0 where
  pub transfer_id : Text
  pub file_name : Text
  pub total_size : ℕ
  pub chunk_index : ℕ
  pub total_chunks : ℕ
  pub chunk_b64 : Text

pub record CompletedFile : Type 0 where
  pub sender_device_id : Text
  pub file_name : Text
  pub temp_path : Text
  pub size_bytes : ℕ

pub record InflightTransfer : Type 0 where
  pub sender_device_id : Text
  pub file_name : Text
  pub total_size : ℕ
  pub total_chunks : ℕ
  pub received : List (Option Bytes)
  pub last_update_ms : ℕ

-- What other crates and the operating system do. `write_incoming_temp_file` makes a file of a name
-- and contents and gives its path.
pub record Outside : Type 0 where
  pub envelope_json : Json FileChunkEnvelope
  pub encode_base64 : Bytes → Text
  pub decode_base64 : Text → Text ⊎ Bytes
  pub write_incoming_temp_file : Text → Bytes → Text ⊎ Text

unfoldable pub is_acceptable : FileChunkEnvelope → Bool
is_acceptable env = not (
    is_empty (trim env.transfer_id)
    || env.total_chunks == 0
    || ltb max_total_chunks env.total_chunks
    || leb env.total_chunks env.chunk_index
    || env.total_size == 0
    || ltb default_max_file_bytes env.total_size)

-- `guard.retain(…)`; the subtraction saturates at 0.
unfoldable pub retain_recent : ℕ → Map InflightTransfer → Map InflightTransfer
retain_recent now [] = []
retain_recent now ((k, t) ∷ m) =
    let rest = retain_recent now m in
    if leb (now - t.last_update_ms) transfer_timeout_ms then (k, t) ∷ rest else rest

abbrev pub replicate_none : ℕ → List (Option Bytes)
replicate_none zero = []
replicate_none (suc n) = none ∷ replicate_none n

unfoldable pub new_transfer : DeviceId → FileChunkEnvelope → ℕ → InflightTransfer
new_transfer sender env now = record {
  sender_device_id = sender;
  file_name = sanitize_file_name env.file_name;
  total_size = env.total_size;
  total_chunks = env.total_chunks;
  received = replicate_none env.total_chunks;
  last_update_ms = now;
}

-- `guard.entry(key).or_insert_with(…)`: what the entry is then.
unfoldable pub entry_for :
    Map InflightTransfer → Text → DeviceId → FileChunkEnvelope → ℕ → InflightTransfer
entry_for recent key sender env now = elim (get recent key) [
  | none ↦ new_transfer sender env now
  | some t ↦ t
]

-- `if received[i].is_none() { received[i] = Some(chunk) }`: a panic past the end.
unfoldable pub store_chunk : List (Option Bytes) → ℕ → Bytes → Result Text (List (Option Bytes))
store_chunk [] i chunk = panic
store_chunk (none ∷ cs) zero chunk = ok (some chunk ∷ cs)
store_chunk (some c ∷ cs) zero chunk = ok (some c ∷ cs)
store_chunk (c ∷ cs) (suc i) chunk = do rest ← store_chunk cs i chunk; ok (c ∷ rest)

-- All chunks joined, or `none` while one is missing.
unfoldable pub joined : List (Option Bytes) → Option Bytes
joined [] = some []
joined (none ∷ cs) = none
joined (some c ∷ cs) = elim (joined cs) [ none ↦ none | some rest ↦ some (c ++ rest) ]

unfoldable pub transfer_key : DeviceId → Text → Text
transfer_key sender transfer_id = sender ++ (b':' ∷ transfer_id)

abbrev pub Transfers : Type 0
Transfers = Map InflightTransfer

module _ (outside : Outside) where
  -- From a transfer of which a chunk was just stored: the file, once all is there.
  unfoldable pub complete :
      Transfers → Text → InflightTransfer → Transfers × Result Text (Option CompletedFile)
  complete transfers key entry = elim (joined entry.received) [
    | none ↦ (insert transfers key entry, ok none)
    | some out ↦
        if length out == entry.total_size
        then (
          remove (insert transfers key entry) key,
          elim (outside.write_incoming_temp_file entry.file_name out) [
            | inl e ↦ err e
            | inr path ↦ ok (
                some (record {
                  sender_device_id = entry.sender_device_id;
                  file_name = entry.file_name;
                  temp_path = path;
                  size_bytes = entry.total_size;
                }))
          ],
        )
        else (insert transfers key entry, ok none)
  ]

  -- With the entry at hand: the chunk is stored, unless it disagrees with the entry on the sizes.
  unfoldable pub extend_transfer :
      Transfers
      → ℕ
      → Text
      → InflightTransfer
      → FileChunkEnvelope
      → Bytes
      → Transfers × Result Text (Option CompletedFile)
  extend_transfer recent now key entry env chunk =
      if not (entry.total_chunks == env.total_chunks) || not (entry.total_size == env.total_size)
      then (insert recent key entry, ok none)
      else elim (store_chunk entry.received env.chunk_index chunk) [
        | err e ↦ (insert recent key entry, err e)
        | panic ↦ (insert recent key entry, panic)
        | ok received ↦
            complete recent key (record entry { received = received; last_update_ms = now })
      ]

  -- With the lock held, for a chunk that was decoded. A transfer that is new stands in the map also
  -- where the rest does nothing.
  unfoldable pub add_chunk :
      Transfers
      → ℕ
      → DeviceId
      → FileChunkEnvelope
      → Bytes
      → Transfers × Result Text (Option CompletedFile)
  add_chunk transfers now sender env chunk =
      let key = transfer_key sender env.transfer_id in
      let recent = retain_recent now transfers in
      if not (contains_key recent key) && leb max_inflight_transfers (length recent)
      then (recent, ok none)
      else extend_transfer recent now key (entry_for recent key sender env now) env chunk

  unfoldable pub handle_file_chunk_event :
      Transfers → ℕ → DeviceId → Text → Transfers × Result Text (Option CompletedFile)
  handle_file_chunk_event transfers now sender text = elim (outside.envelope_json.from_slice text) [
    | inl e ↦ (transfers, err e)
    | inr env ↦
        if not (is_acceptable env)
        then (transfers, ok none)
        else elim (outside.decode_base64 env.chunk_b64) [
          | inl e ↦ (transfers, err e)
          | inr chunk ↦
              if is_empty chunk
              then (transfers, ok none)
              else add_chunk transfers now sender env chunk
        ]
  ]

-- `data.chunks(FILE_CHUNK_RAW_BYTES)`, as the loop of `send_file_v1` cuts them: chunk `i` begins at
-- `i` times the chunk size and ends there or at the end of the data.
unfoldable pub chunk_at : Bytes → ℕ → Bytes
chunk_at data_bytes chunk_index =
    let start = chunk_index * file_chunk_raw_bytes in
    let end_at = min ((chunk_index + 1) * file_chunk_raw_bytes) (length data_bytes) in
    take (end_at - start) (drop start data_bytes)

-- `data.len().div_ceil(FILE_CHUNK_RAW_BYTES)`.
unfoldable pub chunk_count : ℕ → ℕ
chunk_count n = (n + (file_chunk_raw_bytes - 1)) / file_chunk_raw_bytes
