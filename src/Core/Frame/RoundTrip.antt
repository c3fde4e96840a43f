-- ===== src/Core/Frame/RoundTrip.antt =====
-- What was encoded is decoded: the compact payload, and whole frames.
use cliprelay.Base.{
  ℕ, ◌+◌, ◌^◌, ◌<◌, ◌≡◌, arith, ◌++◌, ◌∷◌, ok, >>=-eq-ok, length, length-append, le→ltb_false,
  ==_refl,
}
use cliprelay.Text.{Bytes, IsUtf8}
use cliprelay.Core.{EncryptedPayload, WireMessage, control, encrypted, Codec, RoundTrips}
use cliprelay.Core.LittleEndian.{
  to_le_bytes, get_uint_le, length-to_le_bytes, get_uint_le-to_le_bytes, split_at-append,
}
use cliprelay.Core.Frame.{
  try_from, encode_encrypted_payload, decode_encrypted_payload, encode_payload, encode_frame,
  decode_message, decode_frame, utf8_or_fail,
}

-- A payload as the program can hold it: a text for an id, and a counter that is a `u64`.
pub record IsPayload (p : EncryptedPayload) : Type 0 where
  pub utf8 : IsUtf8 p.sender_device_id
  pub counter_lt : p.counter < 2 ^ 64

pub record Fits (p : EncryptedPayload) : Type 0 where
  pub id_lt : length p.sender_device_id < 2 ^ 16
  pub ciphertext_lt : length p.ciphertext < 2 ^ 32

try_from-ok : (bits n : ℕ) {m : ℕ} → try_from bits n ≡ ok m → (n < 2 ^ bits) × (m ≡ n)
unfolding try_from
try_from-ok bits n e = ground arith

-- The bytes of a payload that fits, from the ciphertext back to the front.
abbrev sized_ciphertext : EncryptedPayload → Bytes
sized_ciphertext p = to_le_bytes 4 (length p.ciphertext) ++ p.ciphertext

abbrev counted : EncryptedPayload → Bytes
counted p = to_le_bytes 8 p.counter ++ sized_ciphertext p

abbrev pub layout : EncryptedPayload → Bytes
layout p = to_le_bytes 2 (length p.sender_device_id) ++ (p.sender_device_id ++ counted p)

length-counted : (p : EncryptedPayload) → length (counted p) ≡ 12 + length p.ciphertext
length-counted p = omega (
  arith,
  length-append (to_le_bytes 8 p.counter) (sized_ciphertext p),
  length-append (to_le_bytes 4 (length p.ciphertext)) p.ciphertext,
  length-to_le_bytes,
)

pub length-layout :
    (p : EncryptedPayload)
    → length (layout p) ≡ 14 + length p.sender_device_id + length p.ciphertext
length-layout p = omega (
  arith,
  length-append (to_le_bytes 2 (length p.sender_device_id)) (p.sender_device_id ++ counted p),
  length-append p.sender_device_id (counted p),
  length-counted p,
  length-to_le_bytes,
)

pub encode_encrypted_payload-ok :
    (p : EncryptedPayload) {b : Bytes} → encode_encrypted_payload p ≡ ok b → Fits p × (b ≡ layout p)
unfolding encode_encrypted_payload try_from
encode_encrypted_payload-ok p e = ground arith

pub encode_encrypted_payload-layout :
    (p : EncryptedPayload) → Fits p → encode_encrypted_payload p ≡ ok (layout p)
unfolding encode_encrypted_payload try_from
encode_encrypted_payload-layout p f = ground arith

decode_encrypted_payload-layout :
    (codec : Codec) (p : EncryptedPayload)
    → IsPayload p
    → Fits p
    → decode_encrypted_payload codec (layout p) ≡ ok p
unfolding decode_encrypted_payload utf8_or_fail
decode_encrypted_payload-layout codec p w f = rw (
  le→ltb_false (length (layout p)) 14 (omega (arith, length-layout p)),
  get_uint_le-to_le_bytes 2 (length p.sender_device_id) (p.sender_device_id ++ counted p) f.id_lt,
  le→ltb_false (length (p.sender_device_id ++ counted p)) (length p.sender_device_id + 8 + 4)
      (omega (arith, length-append p.sender_device_id (counted p), length-counted p)),
  split_at-append p.sender_device_id (counted p),
  w.utf8,
  get_uint_le-to_le_bytes 8 p.counter (sized_ciphertext p) w.counter_lt,
  get_uint_le-to_le_bytes 4 (length p.ciphertext) p.ciphertext f.ciphertext_lt,
  ==_refl (length p.ciphertext),
)

-- A payload that is encoded decodes to itself.
pub decode-encode_encrypted_payload :
    (codec : Codec) (p : EncryptedPayload) {b : Bytes}
    → IsPayload p
    → encode_encrypted_payload p ≡ ok b
    → decode_encrypted_payload codec b ≡ ok p
decode-encode_encrypted_payload codec p w e =
    let (f, is_layout) = encode_encrypted_payload-ok p e in
    rw is_layout (decode_encrypted_payload-layout codec p w f)

abbrev IsMessage : WireMessage → Type 0
IsMessage (control m) = Unit {0}
IsMessage (encrypted p) = IsPayload p

decode_message-encode_payload :
    (codec : Codec) (m : WireMessage) {t : ℕ} {payload : Bytes}
    → RoundTrips codec.json
    → IsMessage m
    → encode_payload codec m ≡ ok (t, payload)
    → (decode_message codec t payload ≡ ok m) × (t < 256)
unfolding encode_payload decode_message
decode_message-encode_payload codec (control m) {t} {payload} rt w e = ground (arith, rt m payload)
decode_message-encode_payload codec (encrypted p) {t} {payload} rt w e =
    ground (arith, decode-encode_encrypted_payload codec p {b = payload} w)

abbrev pub framed : ℕ → Bytes → Bytes
framed t payload = to_le_bytes 4 (1 + length payload) ++ (t ∷ payload)

pub encode_frame-ok :
    (codec : Codec) (m : WireMessage) {frame : Bytes}
    → encode_frame codec m ≡ ok frame
    → (t : ℕ) × (payload : Bytes) × (encode_payload codec m ≡ ok (t, payload))
      × (1 + length payload < 2 ^ 32)
      × (frame ≡ framed t payload)
unfolding encode_frame
encode_frame-ok codec m e =
    let ((t, payload), ep, rest) = >>=-eq-ok (encode_payload codec m) _ e in
    let (n, en, out) = >>=-eq-ok (try_from 32 (1 + length payload)) _ rest in
    let (small, is_len) = try_from-ok 32 (1 + length payload) en in
    (t, payload, ep, small, ground arith)

length-framed : (t : ℕ) (payload : Bytes) → length (framed t payload) ≡ 1 + length payload + 4
length-framed t payload =
    omega
      (arith, length-append (to_le_bytes 4 (1 + length payload)) (t ∷ payload), length-to_le_bytes)

get_uint_le-byte : (t : ℕ) (rest : Bytes) → t < 256 → get_uint_le 1 (t ∷ rest) ≡ ok (t, rest)
unfolding get_uint_le
get_uint_le-byte t rest h = ground arith

decode_frame-framed :
    (codec : Codec) (t : ℕ) (payload : Bytes)
    → t < 256
    → 1 + length payload < 2 ^ 32
    → decode_frame codec (framed t payload) ≡ decode_message codec t payload
unfolding decode_frame
decode_frame-framed codec t payload ht h =
    let total = length-framed t payload in
    rw (
      le→ltb_false (length (framed t payload)) 5 (omega (arith, total)),
      get_uint_le-to_le_bytes 4 (1 + length payload) (t ∷ payload) h,
      total,
      ==_refl (1 + length payload + 4),
      get_uint_le-byte t payload ht,
    )

-- A frame that `encode_frame` wrote decodes to the message it was written from, where the JSON of a
-- control message reads back and a payload has a UTF-8 sender and a 64-bit counter.
pub decode_frame-encode_frame :
    (codec : Codec) (m : WireMessage) {frame : Bytes}
    → RoundTrips codec.json
    → IsMessage m
    → encode_frame codec m ≡ ok frame
    → decode_frame codec frame ≡ ok m
decode_frame-encode_frame codec m rt w e =
    let (t, payload, ep, small, shape) = encode_frame-ok codec m e in
    let (back, ht) = decode_message-encode_payload codec m rt w ep in
    rw (shape, decode_frame-framed codec t payload ht small) back
