-- ===== src/Tests/CoreRuns.antt =====
-- cliprelay-core at concrete inputs.
use cliprelay.Core.Frame.Decode.{decode_frame-ne-panic, encode-decode_frame}
use cliprelay.Core.Cipher.{
  encrypt_clipboard_event, decrypt_clipboard_event, check_mime, check_text, derive_room_key,
  build_nonce,
}
use cliprelay.Core.Cipher.RoundTrip.{decrypt-encrypt_clipboard_event}
use cliprelay.Core.Cipher.Keys.{derive_room_key-perm, build_nonce-injective}
use cliprelay.Core.Replay.{validate_counter, accepted_messages}
use cliprelay.Core.Replay.Order.{
  validate_counter-seen, IsAbove, seen, Increasing, accepted_messages-Increasing,
}
use mathlib.Core.List.{Perm}
use mathlib.Core.List.Perm
use cliprelay.Base.{take, ◌↔◌, panic, ◌≢◌, length, All, ℕ, ◌≡◌, refl, arith, List, [], ◌∷◌, ok}
use cliprelay.Text.{IsByte, Bytes, from_utf8, trim}
use cliprelay.Core.{DeviceId, EncryptedPayload, encrypted}
use cliprelay.Core.LittleEndian.{to_le_bytes}
use cliprelay.Core.Frame.{
  encode_frame, decode_frame, encode_payload, encode_encrypted_payload, try_from,
}
use cliprelay.Core.Frame.RoundTrip.{decode_frame-encode_frame, IsPayload}
use cliprelay.Tests.Samples.{
  event_json-RoundTrips, sample_primitives-Unseals, sample_primitives-Digests, sample_event, den,
  sample_primitives, phone, sample_plaintext, pad, laptop, sample_codec, sample_codec-RoundTrips,
  sample_payload,
}

abbrev pub sample_frame : List ℕ
sample_frame =
    24 ∷ 0 ∷ 0 ∷ 0 ∷ 1 ∷ 6 ∷ 0 ∷ 108 ∷ 97 ∷ 112 ∷ 116 ∷ 111 ∷ 112 ∷ 7 ∷ 0 ∷ 0 ∷ 0 ∷ 0 ∷ 0 ∷ 0 ∷ 0
    ∷ 3 ∷ 0 ∷ 0 ∷ 0 ∷ 1 ∷ 2 ∷ 255 ∷ []

pub encode_sample : encode_frame sample_codec (encrypted sample_payload) ≡ ok sample_frame
unfolding encode_frame encode_payload encode_encrypted_payload try_from to_le_bytes
encode_sample = refl

trim_blanks : trim (32 ∷ 0xe3 ∷ 0x80 ∷ 0x80 ∷ 97 ∷ 32 ∷ 98 ∷ 10 ∷ []) ≡ 97 ∷ 32 ∷ 98 ∷ []
unfolding trim
trim_blanks = refl

sample_payload-IsPayload : IsPayload sample_payload
unfolding from_utf8
sample_payload-IsPayload = record { utf8 = refl; counter_lt = omega arith }

pub decoded_sample : decode_frame sample_codec sample_frame ≡ ok (encrypted sample_payload)
decoded_sample =
    decode_frame-encode_frame sample_codec (encrypted sample_payload) sample_codec-RoundTrips
      sample_payload-IsPayload encode_sample

decode_frame-encode_frame_example :
    decode_frame sample_codec sample_frame ≡ ok (encrypted sample_payload)
decode_frame-encode_frame_example =
    decode_frame-encode_frame sample_codec (encrypted sample_payload) sample_codec-RoundTrips
      sample_payload-IsPayload encode_sample

pub sample_frame-IsByte : All IsByte sample_frame
sample_frame-IsByte = (
  omega arith,
  (
    omega arith,
    (
      omega arith,
      (
        omega arith,
        (
          omega arith,
          (
            omega arith,
            (
              omega arith,
              (
                omega arith,
                (
                  omega arith,
                  (
                    omega arith,
                    (
                      omega arith,
                      (
                        omega arith,
                        (
                          omega arith,
                          (
                            omega arith,
                            (
                              omega arith,
                              (
                                omega arith,
                                (
                                  omega arith,
                                  (
                                    omega arith,
                                    (
                                      omega arith,
                                      (
                                        omega arith,
                                        (
                                          omega arith,
                                          (
                                            omega arith,
                                            (
                                              omega arith,
                                              (
                                                omega arith,
                                                (
                                                  omega arith,
                                                  (omega arith, (omega arith, (omega arith, tt))),
                                                ),
                                              ),
                                            ),
                                          ),
                                        ),
                                      ),
                                    ),
                                  ),
                                ),
                              ),
                            ),
                          ),
                        ),
                      ),
                    ),
                  ),
                ),
              ),
            ),
          ),
        ),
      ),
    ),
  ),
)

decode_frame-ne-panic_example : decode_frame sample_codec sample_frame ≢ panic
decode_frame-ne-panic_example = decode_frame-ne-panic sample_codec sample_frame

encode-decode_frame_example : encode_frame sample_codec (encrypted sample_payload) ≡ ok sample_frame
encode-decode_frame_example =
    encode-decode_frame sample_codec sample_frame sample_frame-IsByte decoded_sample

-- What the laptop's event is encrypted to: the stand-in cipher leaves the text as it is.
abbrev pub sealed_payload : EncryptedPayload
sealed_payload = record { sender_device_id = laptop; counter = 1; ciphertext = sample_plaintext }

abbrev pub sample_key : Bytes
sample_key = pad 32 []

pub encrypt_sample :
    encrypt_clipboard_event sample_primitives sample_key sample_event ≡ ok sealed_payload
unfolding encrypt_clipboard_event check_mime check_text trim
encrypt_sample = refl

decrypt-encrypt_clipboard_event_example :
    decrypt_clipboard_event sample_primitives sample_key sealed_payload ≡ ok sample_event
decrypt-encrypt_clipboard_event_example =
    decrypt-encrypt_clipboard_event sample_primitives sample_key sample_event
      sample_primitives-Unseals event_json-RoundTrips encrypt_sample

pub two_devices : Perm (laptop ∷ phone ∷ []) (phone ∷ laptop ∷ [])
two_devices = Perm.swap phone laptop []

derive_room_key-perm_example :
    derive_room_key sample_primitives den (laptop ∷ phone ∷ [])
    ≡ derive_room_key sample_primitives den (phone ∷ laptop ∷ [])
derive_room_key-perm_example = derive_room_key-perm sample_primitives den two_devices

build_nonce-injective_example :
    (length (build_nonce sample_primitives laptop 7) ≡ 24)
    × (take 16 (sample_primitives.sha256 laptop) ≡ take 16 (sample_primitives.sha256 laptop))
    × (◌≡◌ {A = ℕ} 7 7)
build_nonce-injective_example =
    build_nonce-injective sample_primitives laptop laptop 7 7 sample_primitives-Digests
      (omega arith) (omega arith) refl

abbrev some_messages : List (DeviceId × ℕ)
some_messages = (laptop, 5) ∷ (phone, 9) ∷ (laptop, 3) ∷ []

validate_counter-seen_example :
    ((validate_counter (seen [] some_messages) laptop 7).1 ≡ ok tt) ↔ IsAbove some_messages laptop 7
validate_counter-seen_example = validate_counter-seen some_messages laptop 7

accepted_messages-Increasing_example :
    Increasing (accepted_messages [] ((laptop, 2) ∷ (laptop, 1) ∷ (phone, 1) ∷ (laptop, 3) ∷ []))
accepted_messages-Increasing_example =
    accepted_messages-Increasing [] ((laptop, 2) ∷ (laptop, 1) ∷ (phone, 1) ∷ (laptop, 3) ∷ [])
