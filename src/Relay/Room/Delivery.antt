-- ===== src/Relay/Room/Delivery.antt =====
-- Who gets what is forwarded.
use cliprelay.Base.{
  All-map, Result-cases, =?_refl, ap, All-mono, ℕ, ◌≡◌, refl, arith, false, Bool-cases,
  Option-cases, none, some, All, In, here, there, In-map, ok, [], ◌∷◌, inl, inr, ◌=?◌, =?_iff,
  =?→eq, ◌≢◌,
}
use cliprelay.Base.Map.{Map, get, Distinct, get-Each}
use cliprelay.Text.{Bytes}
use cliprelay.Core.{RoomId, DeviceId, Codec, encrypted, EncryptedPayload}
use cliprelay.Core.Frame.{encode_frame}
use cliprelay.Relay.Room.{Connection, RelayState, Message, binary, other_txs, forward_encrypted}
use cliprelay.Relay.Room.Invariant.{IsRelay, IsRoom}
use cliprelay.Relay.Room.Membership.{devices_of, lookup_device}

-- A connection, other than the sender's, that the room has under some id.
abbrev pub IsRecipient : Map Connection → DeviceId → ℕ → Type 0
IsRecipient devices sender tx =
    (id : DeviceId) × (conn : Connection) × (get devices id ≡ some conn)
    × (id ≢ sender)
    × (tx ≡ conn.tx)

other_txs-reaches :
    (sender id : DeviceId) (devices : Map Connection) (conn : Connection)
    → get devices id ≡ some conn
    → id ≢ sender
    → In conn.tx (other_txs sender devices)
unfolding other_txs get
other_txs-reaches sender id [] conn e ne = cc
other_txs-reaches sender id ((j, c) ∷ devices) conn e ne = elim (Bool-cases (j =? id)) [
  | inl same ↦
      let found : c ≡ conn = ground arith in
      let keep : (j =? sender) ≡ false = ground (arith, =?→eq j id same, =?_iff j sender) in
      rw (keep, other_txs) (rw found here)
  | inr differ ↦
      let later = other_txs-reaches sender id devices conn (ground arith) ne in
      elim (Bool-cases (j =? sender)) [
        | inl own ↦ rw (own, other_txs) later
        | inr other ↦ rw (other, other_txs) (there later)
      ]
]

-- A recipient among the later entries is one among all, since no id stands twice.
IsRecipient-cons :
    (sender j : DeviceId) (c : Connection) (devices : Map Connection) (tx : ℕ)
    → get devices j ≡ none
    → IsRecipient devices sender tx
    → IsRecipient ((j, c) ∷ devices) sender tx
unfolding get
IsRecipient-cons sender j c devices tx h (id, conn, e, ne, is_tx) =
    let differ : (j =? id) ≡ false =
      ground (arith, =?_iff j id, λ (p : j ≡ id). ap (get devices) p) in
    (id, conn, rw (differ, get) e, ne, is_tx)

other_txs-only :
    (sender : DeviceId) (devices : Map Connection)
    → Distinct devices
    → All (IsRecipient devices sender) (other_txs sender devices)
unfolding other_txs get
other_txs-only sender [] h = tt
other_txs-only sender ((j, c) ∷ devices) h =
    let later =
      All-mono (IsRecipient devices sender) (IsRecipient ((j, c) ∷ devices) sender)
        (other_txs sender devices) (λ tx. IsRecipient-cons sender j c devices tx h.0)
        (other_txs-only sender devices h.1) in
    elim (Bool-cases (j =? sender)) [
      | inl own ↦ rw (own, other_txs) later
      | inr other ↦
          rw (other, other_txs)
            ((j, c, rw (=?_refl j, get) refl, λ e. ground (arith, =?_iff j sender), refl), later)
    ]

-- An encrypted payload reaches every device of the room but its sender.
pub forward_encrypted-reaches :
    (codec : Codec) (state : RelayState) (room_id : RoomId) (sender id : DeviceId)
    (payload : EncryptedPayload) (conn : Connection) (frame : Bytes)
    → lookup_device state room_id id ≡ some conn
    → id ≢ sender
    → encode_frame codec (encrypted payload) ≡ ok frame
    → In (conn.tx, binary frame) (forward_encrypted codec state room_id sender payload)
unfolding forward_encrypted get
forward_encrypted-reaches codec state room_id sender id payload conn frame e ne written =
    elim (Option-cases (get state.rooms room_id)) [
      | inl missing ↦ absurd (ground (arith, missing))
      | inr (room, found) ↦
          rw (written, forward_encrypted, found)
            (In-map (λ tx. (tx, binary frame))
              (other_txs-reaches sender id room.devices conn (rw found at e) ne))
    ]

-- A send that carries a payload to a device of the room other than the sender, in one frame for all.
abbrev pub IsDelivery :
    Codec → RelayState → RoomId → DeviceId → EncryptedPayload → ℕ × Message → Type 0
IsDelivery codec state room_id sender payload send =
    IsRecipient (devices_of (get state.rooms room_id)) sender send.0
    × (frame : Bytes) × (encode_frame codec (encrypted payload) ≡ ok frame)
    × (send.1 ≡ binary frame)

-- In a sound state, whatever is sent for an encrypted payload is its frame, and goes to a device of
-- the room other than the sender.
pub forward_encrypted-only :
    (codec : Codec) (state : RelayState) (room_id : RoomId) (sender : DeviceId)
    (payload : EncryptedPayload)
    → IsRelay state
    → All
        (IsDelivery codec state room_id sender payload)
        (forward_encrypted codec state room_id sender payload)
unfolding forward_encrypted
forward_encrypted-only codec state room_id sender payload v =
    elim (Result-cases (encode_frame codec (encrypted payload))) [
      | inr (inl (e, failed)) ↦ rw (failed, forward_encrypted) tt
      | inr (inr failed) ↦ rw (failed, forward_encrypted) tt
      | inl (frame, written) ↦ elim (Option-cases (get state.rooms room_id)) [
        | inl missing ↦ rw (written, forward_encrypted, missing) tt
        | inr (room, found) ↦
            let r : IsRoom room = get-Each (λ id r. IsRoom r) state.rooms room_id v.rooms found in
            rw (written, forward_encrypted, found)
              (All-map _ (λ tx. (tx, binary frame)) (other_txs sender room.devices)
                (All-mono (IsRecipient room.devices sender) _ (other_txs sender room.devices)
                  (λ tx h. (rw found h, frame, written, refl))
                  (other_txs-only sender room.devices r.distinct)))
      ]
    ]
