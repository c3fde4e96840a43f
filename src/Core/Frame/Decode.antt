-- ===== src/Core/Frame/Decode.antt =====
-- Decoding on arbitrary input: it never panics, and it accepts only what encoding writes.
use cliprelay.Base.{
  ◌∷◌, ◌∙◌, lt→ltb, length-append, ◌==◌, some, ok_or, false, sym, not, ltb, Option, Bool, ℕ, ◌+◌,
  ◌^◌, ◌<◌, ◌≡◌, ◌≢◌, ap, arith, ◌++◌, ok, panic, fail_if, >>=-eq-ok, length, length-drop, take,
  drop, All,
}
use cliprelay.Text.{from_utf8-some, Bytes, from_utf8, IsUtf8, IsByte}
use cliprelay.Core.{
  WireMessage, encrypted_clipboard_type, encrypted, CoreResult, invalid_frame_length, CoreError,
  EncryptedPayload, Codec,
}
use cliprelay.Core.LittleEndian.{
  length-to_le_bytes, split_at-ok, get_uint_le-ok, to_le_bytes, from_le_bytes, get_uint_le,
  split_at,
}
use cliprelay.Core.Frame.RoundTrip.{
  framed, layout, Fits, IsPayload, encode_encrypted_payload-layout,
}
use cliprelay.Core.Frame.{
  try_from, encode_frame, encode_payload, encode_encrypted_payload, decode_encrypted_payload,
  decode_message, decode_frame, utf8_or_fail,
}

decode_encrypted_payload-ne-panic :
    (codec : Codec) (bytes : Bytes) → decode_encrypted_payload codec bytes ≢ panic
unfolding decode_encrypted_payload utf8_or_fail get_uint_le split_at
decode_encrypted_payload-ne-panic codec bytes =
    let id_len = from_le_bytes (take 2 bytes) in
    let after = drop id_len (drop 2 bytes) in
    ground (arith, length-drop 2 bytes, length-drop id_len (drop 2 bytes), length-drop 8 after)

decode_message-ne-panic :
    (codec : Codec) (t : ℕ) (payload : Bytes) → decode_message codec t payload ≢ panic
unfolding decode_message
decode_message-ne-panic codec t payload =
    ground (arith, decode_encrypted_payload-ne-panic codec payload)

-- Whatever bytes arrive, `decode_frame` answers with a message or an error: no read and no slice in
-- it is out of range.
pub decode_frame-ne-panic : (codec : Codec) (frame : Bytes) → decode_frame codec frame ≢ panic
unfolding decode_frame get_uint_le
decode_frame-ne-panic codec frame = ground (
  arith,
  length-drop 4 frame,
  decode_message-ne-panic codec (from_le_bytes (take 1 (drop 4 frame))) (drop 1 (drop 4 frame)),
)

ok_or-ok : {A : Type 0} (o : Option A) (e : CoreError) {a : A} → ok_or o e ≡ ok a → o ≡ some a
ok_or-ok o e h = ground arith

fail_if-ok : (b : Bool) (e : CoreError) {u : Unit {0}} → fail_if b e ≡ ok u → b ≡ false
fail_if-ok b e h = ground arith

eq_of_test : (a b : ℕ) → not (a == b) ≡ false → a ≡ b
eq_of_test a b h = ground arith

-- The parts that were read, put together.
assemble :
    (bytes : Bytes) (n c m : ℕ) (b1 id b2 b3 b4 s : Bytes) (p : EncryptedPayload)
    → bytes ≡ to_le_bytes 2 n ++ b1
    → b1 ≡ id ++ b2
    → n ≡ length id
    → b2 ≡ to_le_bytes 8 c ++ b3
    → b3 ≡ to_le_bytes 4 m ++ b4
    → length b4 ≡ m
    → s ≡ id
    → ◌≡◌ {A = CoreResult EncryptedPayload}
        (ok (record { sender_device_id = s; counter = c; ciphertext = b4 }))
        (ok p)
    → n < 256 ^ 2
    → c < 256 ^ 8
    → m < 256 ^ 4
    → IsUtf8 s
    → (bytes ≡ layout p) × Fits p × IsPayload p
assemble bytes n c m b1 id b2 b3 b4 s p d1 d2 is_n d3 d4 is_m is_id e n_lt c_lt m_lt u =
    (cc, ground arith, ground arith)

-- Bytes that decode are the layout of what they decode to.
decode_encrypted_payload-ok :
    (codec : Codec) (bytes : Bytes) {p : EncryptedPayload}
    → All IsByte bytes
    → decode_encrypted_payload codec bytes ≡ ok p
    → (bytes ≡ layout p) × Fits p × IsPayload p
unfolding decode_encrypted_payload utf8_or_fail
decode_encrypted_payload-ok codec bytes {p} h e =
    let (_, _, e1) = >>=-eq-ok (fail_if (ltb (length bytes) 14) invalid_frame_length) _ e in
    let ((n, b1), r1, e2) = >>=-eq-ok (get_uint_le 2 bytes) _ e1 in
    let (_, _, e3) = >>=-eq-ok (fail_if (ltb (length b1) (n + 8 + 4)) invalid_frame_length) _ e2 in
    let ((id, b2), r2, e4) = >>=-eq-ok (split_at n b1) _ e3 in
    let (s, r3, e5) = >>=-eq-ok (utf8_or_fail codec id) _ e4 in
    let ((c, b3), r4, e6) = >>=-eq-ok (get_uint_le 8 b2) _ e5 in
    let ((m, b4), r5, e7) = >>=-eq-ok (get_uint_le 4 b3) _ e6 in
    let (_, r6, e8) = >>=-eq-ok (fail_if (not (length b4 == m)) invalid_frame_length) _ e7 in
    let (d1, n_lt, h1) = get_uint_le-ok 2 bytes h r1 in
    let (d2, is_n, h2) = split_at-ok n b1 h1 r2 in
    let (is_id, u) = from_utf8-some id (ok_or-ok (from_utf8 id) _ r3) in
    let (d3, c_lt, h3) = get_uint_le-ok 8 b2 h2 r4 in
    let (d4, m_lt, h4) = get_uint_le-ok 4 b3 h3 r5 in
    let is_m = eq_of_test (length b4) m (fail_if-ok _ invalid_frame_length r6) in
    assemble bytes n c m b1 id b2 b3 b4 s p d1 d2 is_n d3 d4 is_m is_id e8 n_lt c_lt m_lt u

-- The compact form is canonical: re-encoding what was decoded gives the same bytes back.
pub encode-decode_encrypted_payload :
    (codec : Codec) (bytes : Bytes) {p : EncryptedPayload}
    → All IsByte bytes
    → decode_encrypted_payload codec bytes ≡ ok p
    → encode_encrypted_payload p ≡ ok bytes
encode-decode_encrypted_payload codec bytes {p} h e =
    let (shape, f, _) = decode_encrypted_payload-ok codec bytes h e in
    encode_encrypted_payload-layout p f ∙ ap ok (sym shape)

-- A frame of which the parts were read.
assemble_frame :
    (frame cursor payload : Bytes) (n t : ℕ)
    → frame ≡ to_le_bytes 4 n ++ cursor
    → n + 4 ≡ length frame
    → cursor ≡ to_le_bytes 1 t ++ payload
    → t < 256
    → n < 2 ^ 32
    → (frame ≡ framed t payload) × (1 + length payload < 2 ^ 32)
assemble_frame frame cursor payload n t d1 is_n d2 ht hn =
    let one : cursor ≡ t ∷ payload =
      unfold to_le_bytes in rw d2 (ap (λ (b : ℕ). b ∷ payload) (omega arith)) in
    let count : n ≡ 1 + length payload = omega (
      arith,
      is_n,
      ap length d1,
      length-append (to_le_bytes 4 n) cursor,
      ap length one,
      length-to_le_bytes,
    ) in
    (rw (d1, one, count), omega arith)

decode_frame-ok :
    (codec : Codec) (frame : Bytes) {m : WireMessage}
    → All IsByte frame
    → decode_frame codec frame ≡ ok m
    → (t : ℕ) × (payload : Bytes) × (frame ≡ framed t payload)
      × (1 + length payload < 2 ^ 32)
      × (decode_message codec t payload ≡ ok m)
      × All IsByte payload
unfolding decode_frame
decode_frame-ok codec frame {m} h e =
    let (_, _, e1) = >>=-eq-ok (fail_if (ltb (length frame) 5) invalid_frame_length) _ e in
    let ((n, cursor), r1, e2) = >>=-eq-ok (get_uint_le 4 frame) _ e1 in
    let (_, r2, e3) = >>=-eq-ok (fail_if (not (n + 4 == length frame)) invalid_frame_length) _ e2 in
    let ((t, payload), r3, e4) = >>=-eq-ok (get_uint_le 1 cursor) _ e3 in
    let (d1, n_lt, h1) = get_uint_le-ok 4 frame h r1 in
    let (d2, t_lt, h2) = get_uint_le-ok 1 cursor h1 r3 in
    let is_n = eq_of_test (n + 4) (length frame) (fail_if-ok _ invalid_frame_length r2) in
    let (shape, small) = assemble_frame frame cursor payload n t d1 is_n d2 t_lt n_lt in
    (t, payload, shape, small, e4, h2)

decode_message-encrypted :
    (codec : Codec) (t : ℕ) (payload : Bytes) {p : EncryptedPayload}
    → decode_message codec t payload ≡ ok (encrypted p)
    → (t ≡ encrypted_clipboard_type) × (decode_encrypted_payload codec payload ≡ ok p)
unfolding decode_message
decode_message-encrypted codec t payload e = ground arith

-- A frame of bytes that decodes to an encrypted payload is the very frame that the payload encodes to.
pub encode-decode_frame :
    (codec : Codec) (frame : Bytes) {p : EncryptedPayload}
    → All IsByte frame
    → decode_frame codec frame ≡ ok (encrypted p)
    → encode_frame codec (encrypted p) ≡ ok frame
unfolding encode_frame encode_payload try_from
encode-decode_frame codec frame {p} h e =
    let (t, payload, shape, small, e', h') = decode_frame-ok codec frame h e in
    let (is_t, decoded) = decode_message-encrypted codec t payload e' in
    let again = encode-decode_encrypted_payload codec payload h' decoded in
    rw (again, lt→ltb (1 + length payload) (2 ^ 32) small)
      (ap ok (ap (λ (u : ℕ). framed u payload) (sym is_t) ∙ sym shape))
