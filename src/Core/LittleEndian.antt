-- ===== src/Core/LittleEndian.antt =====
-- Little-endian integers of `bytes::Buf` and `BufMut`, and slices, as cliprelay-core uses them.
use cliprelay.Base.{
  take-append-drop, ◌≤◌, length-take, ℕ, zero, suc, ◌+◌, ◌*◌, ◌/◌, ◌%◌, ◌^◌, ◌<◌, ◌≡◌, refl, ap,
  ◌∙◌, subst, arith, [], ◌∷◌, ◌++◌, ok, panic, length, take, drop, All, length-append, take-append,
  drop-append, ltb, if◌then◌else◌, le→ltb_false,
}
use cliprelay.Core.{CoreResult}
use cliprelay.Text.{Bytes, IsByte}
use native.Mathlib.Nat.{pow-suc}

-- `to_le_bytes` of an integer of `k` bytes: `put_u16_le`, `put_u32_le` and `put_u64_le` append it.
unfoldable pub to_le_bytes : ℕ → ℕ → Bytes
to_le_bytes zero v = []
to_le_bytes (suc k) v = (v % 256) ∷ to_le_bytes k (v / 256)

unfoldable pub from_le_bytes : Bytes → ℕ
from_le_bytes [] = 0
from_le_bytes (b ∷ bs) = b + 256 * from_le_bytes bs

-- `get_u8`, `get_u16_le`, `get_u32_le`, `get_u64_le`: the number and what follows it. They panic if
-- too few bytes remain.
unfoldable pub get_uint_le : ℕ → Bytes → CoreResult (ℕ × Bytes)
unfolding from_le_bytes
get_uint_le k bytes =
    if ltb (length bytes) k then panic else ok (from_le_bytes (take k bytes), drop k bytes)

-- `&bytes[..n]` with `&bytes[n..]`: a panic if `n` is past the end.
unfoldable pub split_at : ℕ → Bytes → CoreResult (Bytes × Bytes)
split_at n bytes = if ltb (length bytes) n then panic else ok (take n bytes, drop n bytes)

pub length-to_le_bytes : (k v : ℕ) → length (to_le_bytes k v) ≡ k
unfolding to_le_bytes
length-to_le_bytes zero v = refl
length-to_le_bytes (suc k) v = ap suc (length-to_le_bytes k (v / 256))

pub to_le_bytes-IsByte : (k v : ℕ) → All IsByte (to_le_bytes k v)
unfolding to_le_bytes
to_le_bytes-IsByte zero v = tt
to_le_bytes-IsByte (suc k) v = (omega arith, to_le_bytes-IsByte k (v / 256))

pub from_le_bytes-to_le_bytes : (k v : ℕ) → v < 256 ^ k → from_le_bytes (to_le_bytes k v) ≡ v
unfolding to_le_bytes from_le_bytes
from_le_bytes-to_le_bytes zero v h = omega arith
from_le_bytes-to_le_bytes (suc k) v h =
    omega (arith, from_le_bytes-to_le_bytes k (v / 256) (omega (arith, pow-suc 256 k)))

pub to_le_bytes-from_le_bytes :
    (bs : Bytes) → All IsByte bs → to_le_bytes (length bs) (from_le_bytes bs) ≡ bs
unfolding to_le_bytes from_le_bytes
to_le_bytes-from_le_bytes [] h = refl
to_le_bytes-from_le_bytes (b ∷ bs) h =
    let n = from_le_bytes bs in
    let low : (b + 256 * n) % 256 ≡ b = omega (arith, h.0) in
    let high : (b + 256 * n) / 256 ≡ n = omega (arith, h.0) in
    rw (low, high, to_le_bytes-from_le_bytes bs h.1)

get_uint_le-append :
    (xs rest : Bytes) → get_uint_le (length xs) (xs ++ rest) ≡ ok (from_le_bytes xs, rest)
unfolding get_uint_le
get_uint_le-append xs rest = rw (
  le→ltb_false (length (xs ++ rest)) (length xs) (omega (arith, length-append xs rest)),
  take-append xs rest,
  drop-append xs rest,
)

-- An integer that was put can be got back, and what follows it is left.
pub get_uint_le-to_le_bytes :
    (k v : ℕ) (rest : Bytes) → v < 256 ^ k → get_uint_le k (to_le_bytes k v ++ rest) ≡ ok (v, rest)
get_uint_le-to_le_bytes k v rest h =
    subst (λ n. get_uint_le n (to_le_bytes k v ++ rest) ≡ ok (v, rest)) (length-to_le_bytes k v)
      (get_uint_le-append (to_le_bytes k v) rest
        ∙ ap (λ (n : ℕ). ok (n, rest)) (from_le_bytes-to_le_bytes k v h))

pub split_at-append : (xs ys : Bytes) → split_at (length xs) (xs ++ ys) ≡ ok (xs, ys)
unfolding split_at
split_at-append xs ys = rw (
  le→ltb_false (length (xs ++ ys)) (length xs) (omega (arith, length-append xs ys)),
  take-append xs ys,
  drop-append xs ys,
)

take-IsByte : (k : ℕ) (bs : Bytes) → All IsByte bs → All IsByte (take k bs)
take-IsByte zero bs h = tt
take-IsByte (suc k) [] h = tt
take-IsByte (suc k) (b ∷ bs) h = (h.0, take-IsByte k bs h.1)

drop-IsByte : (k : ℕ) (bs : Bytes) → All IsByte bs → All IsByte (drop k bs)
drop-IsByte zero bs h = h
drop-IsByte (suc k) [] h = tt
drop-IsByte (suc k) (b ∷ bs) h = drop-IsByte k bs h.1

from_le_bytes-lt : (bs : Bytes) → All IsByte bs → from_le_bytes bs < 256 ^ length bs
unfolding from_le_bytes
from_le_bytes-lt [] h = omega arith
from_le_bytes-lt (b ∷ bs) h = omega (arith, h.0, from_le_bytes-lt bs h.1, pow-suc 256 (length bs))

-- Where enough bytes remain, reading succeeds.
pub get_uint_le-enough :
    (k : ℕ) (bs : Bytes)
    → k ≤ length bs
    → get_uint_le k bs ≡ ok (from_le_bytes (take k bs), drop k bs)
unfolding get_uint_le
get_uint_le-enough k bs h = ground arith

pub split_at-enough :
    (n : ℕ) (bs : Bytes) → n ≤ length bs → split_at n bs ≡ ok (take n bs, drop n bs)
unfolding split_at
split_at-enough n bs h = ground arith

-- What a successful read says of the bytes.
pub get_uint_le-ok :
    (k : ℕ) (bs : Bytes) {v : ℕ} {rest : Bytes}
    → All IsByte bs
    → get_uint_le k bs ≡ ok (v, rest)
    → (bs ≡ to_le_bytes k v ++ rest) × (v < 256 ^ k) × All IsByte rest
unfolding get_uint_le
get_uint_le-ok k bs {v} {rest} h e = ground (
  arith,
  length-take k bs,
  take-append-drop k bs,
  to_le_bytes-from_le_bytes (take k bs) (take-IsByte k bs h),
  from_le_bytes-lt (take k bs) (take-IsByte k bs h),
  drop-IsByte k bs h,
)

pub split_at-ok :
    (n : ℕ) (bs : Bytes) {xs ys : Bytes}
    → All IsByte bs
    → split_at n bs ≡ ok (xs, ys)
    → (bs ≡ xs ++ ys) × (n ≡ length xs) × All IsByte ys
unfolding split_at
split_at-ok n bs {xs} {ys} h e =
    ground (arith, length-take n bs, take-append-drop n bs, drop-IsByte n bs h)
