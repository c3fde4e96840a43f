-- ===== src/Tests/Samples.antt =====
-- Stand-ins for what other crates do, each with the law that the theorems ask of it, and sample data.
use cliprelay.Base.{
  ◌=?◌, zero, suc, ℕ, ◌≡◌, refl, arith, some, [], ◌∷◌, ◌++◌, length, take, drop, inl, inr, ◌⊎◌,
  take-append, drop-append, ◌+◌, ◌-◌, ◌*◌, ◌/◌, leb, min, ap,
}
use cliprelay.Text.{Bytes, Text, ascii}
use cliprelay.Core.{
  ControlMessage, hello, error, peer_list, ClipboardEventPlaintext, EncryptedPayload, Json,
  RoundTrips, Codec,
}
use cliprelay.Core.Cipher.{Primitives, Unseals}
use cliprelay.Core.Cipher.Keys.{Digests}
use cliprelay.Relay.Bucket.{Floats}
use cliprelay.Base.Map.{get}
use cliprelay.Relay.Room.{Connection, Room, RelayState}
use cliprelay.Relay.Room.Invariant.{IsRoom, IsRelay}
use cliprelay.Relay.Session.{Session}

-- A field of known length and what follows it.
abbrev pub field : Text → Bytes → Bytes
field s rest = length s ∷ (s ++ rest)

abbrev pub field_of : Bytes → Text
field_of [] = []
field_of (n ∷ b) = take n b

abbrev pub rest_of : Bytes → Bytes
rest_of [] = []
rest_of (n ∷ b) = drop n b

-- `hello` and `error` messages by their fields; the other messages are not written.
abbrev write_control : ControlMessage → Text ⊎ Bytes
write_control (hello h) =
    inr (1 ∷ field h.room_id (field h.peer.device_id (field h.peer.device_name [])))
write_control (error t) = inr (0 ∷ t)
write_control m = inl []

abbrev read_hello : Bytes → ControlMessage
read_hello b = hello (record {
  room_id = field_of b;
  peer = record { device_id = field_of (rest_of b); device_name = field_of (rest_of (rest_of b)) };
})

abbrev read_control : Bytes → Text ⊎ ControlMessage
read_control [] = inl []
read_control (zero ∷ t) = inr (error t)
read_control (suc n ∷ b) = inr (read_hello b)

abbrev pub sample_codec : Codec
sample_codec = record {
  json = record { to_vec = write_control; from_slice = read_control };
  utf8_error = λ b. [];
}

hello_fields :
    (r d n : Text)
    → read_hello (field r (field d (field n [])))
      ≡ hello (record { room_id = r; peer = record { device_id = d; device_name = n } })
hello_fields r d n = rw (
  take-append r (field d (field n [])),
  drop-append r (field d (field n [])),
  take-append d (field n []),
  drop-append d (field n []),
  take-append n [],
)

pub sample_codec-RoundTrips : RoundTrips sample_codec.json
sample_codec-RoundTrips (hello h) b e =
    ground (arith, hello_fields h.room_id h.peer.device_id h.peer.device_name)
sample_codec-RoundTrips (error t) b e = ground arith
sample_codec-RoundTrips (peer_list m) b e = cc
sample_codec-RoundTrips m b e = cc

abbrev write_event : ClipboardEventPlaintext → Text ⊎ Bytes
write_event event = inr (
    event.counter
    ∷ event.timestamp_unix_ms
    ∷ field event.sender_device_id (field event.mime (field event.text_utf8 [])))

abbrev read_event : Bytes → Text ⊎ ClipboardEventPlaintext
read_event [] = inl []
read_event (c ∷ []) = inl []
read_event (c ∷ t ∷ b) = inr (record {
  sender_device_id = field_of b;
  counter = c;
  timestamp_unix_ms = t;
  mime = field_of (rest_of b);
  text_utf8 = field_of (rest_of (rest_of b));
})

abbrev event_json : Json ClipboardEventPlaintext
event_json = record { to_vec = write_event; from_slice = read_event }

event_fields :
    (c t : ℕ) (s m u : Text)
    → read_event (c ∷ t ∷ field s (field m (field u [])))
      ≡ inr (record {
        sender_device_id = s;
        counter = c;
        timestamp_unix_ms = t;
        mime = m;
        text_utf8 = u;
      })
event_fields c t s m u = rw (
  take-append s (field m (field u [])),
  drop-append s (field m (field u [])),
  take-append m (field u []),
  drop-append m (field u []),
  take-append u [],
)

pub event_json-RoundTrips : RoundTrips event_json
event_json-RoundTrips event b e = ground (
  arith,
  event_fields event.counter event.timestamp_unix_ms event.sender_device_id event.mime
      event.text_utf8,
)

-- The first 32 bytes of the input, filled up with zeros.
abbrev pub pad : ℕ → Bytes → Bytes
pad zero b = []
pad (suc n) [] = 0 ∷ pad n []
pad (suc n) (x ∷ b) = x ∷ pad n b

length-pad : (n : ℕ) (b : Bytes) → length (pad n b) ≡ n
length-pad zero b = refl
length-pad (suc n) [] = ap suc (length-pad n [])
length-pad (suc n) (x ∷ b) = ap suc (length-pad n b)

abbrev pub sample_primitives : Primitives
sample_primitives = record {
  sha256 = pad 32;
  hkdf = λ salt ikm info. some (pad 32 (salt ++ ikm));
  seal = λ key nonce aad msg. some msg;
  unseal = λ key nonce aad ciphertext. some ciphertext;
  event_json = event_json;
  hex = λ b. b;
}

pub sample_primitives-Unseals : Unseals sample_primitives
sample_primitives-Unseals key nonce aad msg c e = ground arith

pub sample_primitives-Digests : Digests sample_primitives
sample_primitives-Digests b = length-pad 32 b

-- Whole tokens and whole seconds.
abbrev pub whole : Floats ℕ
whole = record {
  add = ◌+◌;
  sub = ◌-◌;
  mul = ◌*◌;
  min = min;
  le = leb;
  as_secs = λ n. n / 1000000000;
  literal = λ n. n;
}

abbrev pub laptop : Text
laptop = ascii "laptop"

abbrev pub phone : Text
phone = ascii "phone"

abbrev pub den : Text
den = ascii "den"

abbrev pub sample_event : ClipboardEventPlaintext
sample_event = record {
  sender_device_id = laptop;
  counter = 1;
  timestamp_unix_ms = 1735000000000;
  mime = ascii "text/plain";
  text_utf8 = ascii "hello cliprelay";
}

abbrev pub sample_plaintext : Bytes
sample_plaintext =
    1
    ∷ 1735000000000
    ∷ field laptop (field (ascii "text/plain") (field (ascii "hello cliprelay") []))

abbrev pub sample_payload : EncryptedPayload
sample_payload = record { sender_device_id = laptop; counter = 7; ciphertext = 1 ∷ 2 ∷ 255 ∷ [] }

abbrev pub laptop_connection : Connection
laptop_connection = record {
  peer = record { device_id = laptop; device_name = ascii "Laptop" };
  tx = 0;
}

abbrev pub phone_connection : Connection
phone_connection = record {
  peer = record { device_id = phone; device_name = ascii "Phone" };
  tx = 1;
}

abbrev pub den_room : Room
den_room = record { devices = (laptop, laptop_connection) ∷ (phone, phone_connection) ∷ [] }

-- Two devices in one room.
abbrev pub den_state : RelayState
den_state = record { rooms = (den, den_room) ∷ [] }

pub den_room-IsRoom : IsRoom den_room
unfolding get ◌=?◌
den_room-IsRoom = record {
  occupied = omega arith;
  bounded = omega arith;
  distinct = (refl, (refl, tt));
  keyed = (refl, (refl, tt));
}

pub den_state-IsRelay : IsRelay den_state
unfolding get
den_state-IsRelay = record { distinct = (refl, tt); rooms = (den_room-IsRoom, tt) }

abbrev pub laptop_session : Session ℕ
laptop_session = record {
  room_id = den;
  device_id = laptop;
  tx = 0;
  rate_limiter = record { capacity = 400; refill_per_second = 200; tokens = 400; last_refill = 0 };
}
