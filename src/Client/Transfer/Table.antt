-- ===== src/Client/Transfer/Table.antt =====
-- The table of transfers of `handle_file_chunk_event`: its bounds, and that no index is out of range.
use cliprelay.Base.{
  ◌∙◌, Sum-cases, ◌-◌, ap, ℕ, zero, suc, ◌≤◌, ◌<◌, ◌≡◌, ◌≢◌, refl, arith, false, Bool-cases, not,
  ◌&&◌, ◌||◌, Option, Option-cases, none, some, Result, ok, panic, List, [], ◌∷◌, length, inl, inr,
  leb, ◌==◌,
}
use cliprelay.Base.Map.{
  get, insert, remove, Distinct, Each, get-Each, insert-Each, remove-Each, insert-Distinct,
  remove-Distinct, length-insert, length-remove-le, contains_key,
}
use cliprelay.Text.{Bytes, Text, is_empty}
use cliprelay.Core.{DeviceId}
use cliprelay.Client.{
  default_max_file_bytes, max_inflight_transfers, max_total_chunks, transfer_timeout_ms,
}
use cliprelay.Client.Transfer.{
  FileChunkEnvelope, InflightTransfer, Transfers, CompletedFile, Outside, is_acceptable,
  retain_recent, replicate_none, new_transfer, store_chunk, joined, transfer_key, complete,
  add_chunk, handle_file_chunk_event, extend_transfer, entry_for,
}

-- A slot for every chunk, no more chunks than allowed, and a declared size within the limit.
pub record IsTransfer (t : InflightTransfer) : Type 0 where
  pub slots : length t.received ≡ t.total_chunks
  pub chunks_le : t.total_chunks ≤ max_total_chunks
  pub size_le : t.total_size ≤ default_max_file_bytes

pub record IsTable (m : Transfers) : Type 0 where
  pub bounded : length m ≤ max_inflight_transfers
  pub distinct : Distinct m
  pub transfers : Each (λ k t. IsTransfer t) m

retain-length : (now : ℕ) (m : Transfers) → length (retain_recent now m) ≤ length m
unfolding retain_recent
retain-length now [] = omega arith
retain-length now ((k, t) ∷ m) = ground (arith, retain-length now m)

retain-get-none :
    (now : ℕ) (m : Transfers) (k : Text) → get m k ≡ none → get (retain_recent now m) k ≡ none
unfolding retain_recent get
retain-get-none now [] k h = refl
retain-get-none now ((j, t) ∷ m) k h = ground (arith, retain-get-none now m k)

retain-Distinct : (now : ℕ) (m : Transfers) → Distinct m → Distinct (retain_recent now m)
unfolding retain_recent
retain-Distinct now [] h = tt
retain-Distinct now ((k, t) ∷ m) h =
    ground (arith, retain-Distinct now m h.1, retain-get-none now m k h.0)

retain-Each :
    (P : Text → InflightTransfer → Type 0) (now : ℕ) (m : Transfers)
    → Each P m
    → Each P (retain_recent now m)
unfolding retain_recent
retain-Each P now [] h = tt
retain-Each P now ((k, t) ∷ m) h =
    elim (Bool-cases (leb (now - t.last_update_ms) transfer_timeout_ms)) [
      | inl keep ↦ rw (keep, retain_recent) (h.0, retain-Each P now m h.1)
      | inr drop_it ↦ rw (drop_it, retain_recent) (retain-Each P now m h.1)
    ]

retain-IsTable : (now : ℕ) (m : Transfers) → IsTable m → IsTable (retain_recent now m)
retain-IsTable now m v = record {
  bounded = omega (arith, v.bounded, retain-length now m);
  distinct = retain-Distinct now m v.distinct;
  transfers = retain-Each (λ k t. IsTransfer t) now m v.transfers;
}

put-IsTable :
    (m : Transfers) (k : Text) (t : InflightTransfer)
    → IsTable m
    → IsTransfer t
    → (not (contains_key m k) && leb max_inflight_transfers (length m)) ≡ false
    → IsTable (insert m k t)
put-IsTable m k t v w room = record {
  bounded = ground (arith, v.bounded, length-insert m k t);
  distinct = insert-Distinct m k t v.distinct;
  transfers = insert-Each (λ k t. IsTransfer t) m k t w v.transfers;
}

remove-IsTable : (m : Transfers) (k : Text) → IsTable m → IsTable (remove m k)
remove-IsTable m k v = record {
  bounded = omega (arith, v.bounded, length-remove-le m k);
  distinct = remove-Distinct m k v.distinct;
  transfers = remove-Each (λ k t. IsTransfer t) m k v.transfers;
}

length-replicate_none : (n : ℕ) → length (replicate_none n) ≡ n
length-replicate_none zero = refl
length-replicate_none (suc n) = ap suc (length-replicate_none n)

-- Within range a chunk is stored, and the number of slots stays.
pub store_chunk-ok :
    (cs : List (Option Bytes)) (i : ℕ) (chunk : Bytes)
    → i < length cs
    → (cs' : List (Option Bytes)) × (store_chunk cs i chunk ≡ ok cs') × (length cs' ≡ length cs)
unfolding store_chunk
store_chunk-ok [] i chunk h = elim h [ ]
store_chunk-ok (none ∷ cs) zero chunk h = (some chunk ∷ cs, refl, refl)
store_chunk-ok (some c ∷ cs) zero chunk h = (some c ∷ cs, refl, refl)
store_chunk-ok (none ∷ cs) (suc i) chunk h =
    let (cs', e, n) = store_chunk-ok cs i chunk (omega arith) in (none ∷ cs', rw e refl, ap suc n)
store_chunk-ok (some c ∷ cs) (suc i) chunk h =
    let (cs', e, n) = store_chunk-ok cs i chunk (omega arith) in (some c ∷ cs', rw e refl, ap suc n)

record IsAcceptable (env : FileChunkEnvelope) : Type 0 where
  index_lt : env.chunk_index < env.total_chunks
  chunks_le : env.total_chunks ≤ max_total_chunks
  size_le : env.total_size ≤ default_max_file_bytes

is_acceptable-IsAcceptable :
    (env : FileChunkEnvelope) → not (is_acceptable env) ≡ false → IsAcceptable env
unfolding is_acceptable
is_acceptable-IsAcceptable env h = ground arith

-- The table is sound, and the call returned.
abbrev pub IsSound : Transfers × Result Text (Option CompletedFile) → Type 0
IsSound r = IsTable r.0 × (r.1 ≢ panic)

entry_for-IsTransfer :
    (m : Transfers) (k : Text) (sender : DeviceId) (env : FileChunkEnvelope) (now : ℕ)
    → IsTable m
    → IsAcceptable env
    → IsTransfer (entry_for m k sender env now)
unfolding entry_for new_transfer
entry_for-IsTransfer m k sender env now v a = elim (Option-cases (get m k)) [
  | inl e ↦
      rw (e, entry_for)
        (record {
          slots = length-replicate_none env.total_chunks;
          chunks_le = a.chunks_le;
          size_le = a.size_le;
        })
  | inr (t, e) ↦ rw (e, entry_for) (get-Each (λ k t. IsTransfer t) m k v.transfers e)
]

module _ (outside : Outside) where
  complete-IsSound :
      (m : Transfers) (k : Text) (t : InflightTransfer)
      → IsTable (insert m k t)
      → IsSound (complete outside m k t)
  unfolding complete
  complete-IsSound m k t v = elim (Option-cases (joined t.received)) [
    | inl e ↦ rw (e, complete) (v, λ p. cc)
    | inr (out, e) ↦ elim (Bool-cases (length out == t.total_size)) [
      | inr differ ↦ rw (e, complete, differ) (v, λ p. cc)
      | inl same ↦
          rw (e, complete, same) (remove-IsTable (insert m k t) k v, λ p. ground (arith, p))
    ]
  ]

  extend_transfer-IsSound :
      (m : Transfers) (now : ℕ) (k : Text) (t : InflightTransfer) (env : FileChunkEnvelope)
      (chunk : Bytes)
      → IsTable m
      → IsTransfer t
      → IsAcceptable env
      → (not (contains_key m k) && leb max_inflight_transfers (length m)) ≡ false
      → IsSound (extend_transfer outside m now k t env chunk)
  unfolding extend_transfer
  extend_transfer-IsSound m now k t env chunk v w a room =
      elim (Bool-cases
        (not (t.total_chunks == env.total_chunks) || not (t.total_size == env.total_size))) [
          | inl differ ↦ rw (differ, extend_transfer) (put-IsTable m k t v w room, λ p. cc)
          | inr same ↦
              let in_range : env.chunk_index < length t.received =
                ground (arith, w.slots, a.index_lt) in
              let (cs, stored, slots) = store_chunk-ok t.received env.chunk_index chunk in_range in
              let t' : InflightTransfer = record t { received = cs; last_update_ms = now } in
              let w' : IsTransfer t' = record {
                slots = slots ∙ w.slots;
                chunks_le = w.chunks_le;
                size_le = w.size_le;
              } in
              rw (same, extend_transfer, stored)
                (complete-IsSound m k t' (put-IsTable m k t' v w' room))
        ]

  add_chunk-IsSound :
      (m : Transfers) (now : ℕ) (sender : DeviceId) (env : FileChunkEnvelope) (chunk : Bytes)
      → IsTable m
      → IsAcceptable env
      → IsSound (add_chunk outside m now sender env chunk)
  unfolding add_chunk
  add_chunk-IsSound m now sender env chunk v a =
      let key = transfer_key sender env.transfer_id in
      let recent = retain_recent now m in
      let r : IsTable recent = retain-IsTable now m v in
      elim (Bool-cases
        (not (contains_key recent key) && leb max_inflight_transfers (length recent))) [
          | inl full ↦ rw (full, add_chunk) (r, λ p. cc)
          | inr room ↦
              rw (room, add_chunk)
                (extend_transfer-IsSound recent now key (entry_for recent key sender env now) env
                  chunk r (entry_for-IsTransfer recent key sender env now r a) a room)
        ]

  -- From a table within its bounds (at most 8 transfers, each under its own key, with a slot for each of
  -- at most 4096 chunks, and a declared size of at most 200 MiB): whatever text arrives at whatever time, the table is within them afterwards,
  -- and nothing panics, so the index of a chunk is within the slots.
  pub handle_file_chunk_event-IsSound :
      (m : Transfers) (now : ℕ) (sender : DeviceId) (text : Text)
      → IsTable m
      → IsSound (handle_file_chunk_event outside m now sender text)
  unfolding handle_file_chunk_event
  handle_file_chunk_event-IsSound m now sender text v =
      elim (Sum-cases (outside.envelope_json.from_slice text)) [
        | inl (e, bad) ↦ rw (bad, handle_file_chunk_event) (v, λ p. cc)
        | inr (env, parsed) ↦ elim (Bool-cases (not (is_acceptable env))) [
          | inl refused ↦ rw (parsed, handle_file_chunk_event, refused) (v, λ p. cc)
          | inr fine ↦ elim (Sum-cases (outside.decode_base64 env.chunk_b64)) [
            | inl (e, bad) ↦ rw (parsed, handle_file_chunk_event, fine, bad) (v, λ p. cc)
            | inr (chunk, decoded) ↦ elim (Bool-cases (is_empty chunk)) [
              | inl nothing ↦
                  rw (parsed, handle_file_chunk_event, fine, decoded, nothing) (v, λ p. cc)
              | inr something ↦
                  rw (parsed, handle_file_chunk_event, fine, decoded, something)
                    (add_chunk-IsSound m now sender env chunk v
                      (is_acceptable-IsAcceptable env fine))
            ]
          ]
        ]
      ]
