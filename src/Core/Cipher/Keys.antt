-- ===== src/Core/Cipher/Keys.antt =====
-- Key derivation and nonces: what they depend on, and what they keep apart.
use cliprelay.Base.{
  ◌≢◌, subst, ℕ, ◌%◌, ◌^◌, ◌<◌, ◌≡◌, ◌↔◌, refl, sym, ap, ◌∙◌, arith, List, [], ◌∷◌, ◌++◌, length,
  take, All, length-append, length-take, subst,
}
use cliprelay.Text.{Bytes, Text}
use cliprelay.Core.{DeviceId}
use cliprelay.Core.LittleEndian.{
  from_le_bytes, from_le_bytes-to_le_bytes, to_le_bytes, get_uint_le, split_at,
  get_uint_le-to_le_bytes, split_at-append, length-to_le_bytes,
}
use cliprelay.Core.Cipher.{
  Primitives, sort, hash_input, compute_device_list_hash, derive_room_key, build_nonce,
}
use cliprelay.Core.Cipher.Sorting.{sort-eq_of_perm, sort-perm, sort-All}
use mathlib.Core.List.{Perm}
use mathlib.Core.List.Perm

compute_device_list_hash-perm :
    (prim : Primitives) {xs ys : List DeviceId}
    → Perm xs ys
    → compute_device_list_hash prim xs ≡ compute_device_list_hash prim ys
unfolding compute_device_list_hash
compute_device_list_hash-perm prim p =
    ap (λ (l : List DeviceId). prim.sha256 (hash_input l)) (sort-eq_of_perm p)

-- Every device of a room derives the same key, in whatever order the relay lists the devices.
pub derive_room_key-perm :
    (prim : Primitives) (room_code : Text) {xs ys : List DeviceId}
    → Perm xs ys
    → derive_room_key prim room_code xs ≡ derive_room_key prim room_code ys
unfolding derive_room_key
derive_room_key-perm prim room_code {xs} {ys} p =
    ground (arith, compute_device_list_hash-perm prim {xs = xs} {ys = ys} p)

-- The length of a device id fits the four bytes that it is hashed with.
abbrev pub IsShort : Text → Type 0
IsShort id = length id < 2 ^ 32

append_parts : (x y a b : Bytes) → length x ≡ length y → x ++ a ≡ y ++ b → (x ≡ y) × (a ≡ b)
append_parts x y a b n e =
    let read : split_at (length x) (x ++ a) ≡ split_at (length y) (y ++ b) = rw (n, e) in
    ground (arith, read, split_at-append x a, split_at-append y b)

sized_parts :
    (x y : Text) {a b : Bytes}
    → length x < 2 ^ 32
    → length y < 2 ^ 32
    → to_le_bytes 4 (length x % 2 ^ 32) ++ a ≡ to_le_bytes 4 (length y % 2 ^ 32) ++ b
    → (length x ≡ length y) × (a ≡ b)
sized_parts x y {a} {b} hx hy e = ground (
  arith,
  ap (get_uint_le 4) e,
  get_uint_le-to_le_bytes 4 (length x % 2 ^ 32) a,
  get_uint_le-to_le_bytes 4 (length y % 2 ^ 32) b,
)

cons_parts :
    (x y : Text) {a b : Bytes}
    → length x < 2 ^ 32
    → length y < 2 ^ 32
    → to_le_bytes 4 (length x % 2 ^ 32) ++ (x ++ a) ≡ to_le_bytes 4 (length y % 2 ^ 32) ++ (y ++ b)
    → (x ≡ y) × (a ≡ b)
cons_parts x y {a} {b} hx hy e =
    let (same_length, same_rest) = sized_parts x y hx hy e in
    append_parts x y a b same_length same_rest

no_input : (x : Text) (rest : Bytes) → to_le_bytes 4 (length x % 2 ^ 32) ++ rest ≢ []
no_input x rest e =
    omega (
      arith,
      ap length e,
      length-append (to_le_bytes 4 (length x % 2 ^ 32)) rest,
      length-to_le_bytes,
    )

hash_input-injective :
    (xs ys : List DeviceId)
    → All IsShort xs
    → All IsShort ys
    → hash_input xs ≡ hash_input ys
    → xs ≡ ys
unfolding hash_input
hash_input-injective [] [] hx hy e = refl
hash_input-injective [] (y ∷ ys) hx hy e = absurd (no_input y _ (sym e))
hash_input-injective (x ∷ xs) [] hx hy e = absurd (no_input x _ e)
hash_input-injective (x ∷ xs) (y ∷ ys) hx hy e =
    let (same, rest) = cons_parts x y hx.0 hy.0 e in
    rw (same, hash_input-injective xs ys hx.1 hy.1 rest)

-- For ids shorter than 2 ^ 32 bytes: two lists of devices give the hasher the same input exactly when
-- one is a permutation of the other.
pub hash_input-iff_perm :
    (xs ys : List DeviceId)
    → All IsShort xs
    → All IsShort ys
    → (hash_input (sort xs) ≡ hash_input (sort ys)) ↔ Perm xs ys
hash_input-iff_perm xs ys hx hy = (
  λ e. Perm.trans (Perm.symm (sort-perm xs)) (
      subst (λ (l : List Text). Perm l ys)
        (sym (
          hash_input-injective (sort xs) (sort ys) (sort-All IsShort xs hx) (sort-All IsShort ys hy)
            e))
        (sort-perm ys)),
  λ p. ap hash_input (sort-eq_of_perm p),
)

-- SHA-256 gives 32 bytes.
abbrev pub Digests : Primitives → Type 0
Digests prim = (b : Bytes) → length (prim.sha256 b) ≡ 32

length-head : (prim : Primitives) (s : Text) → Digests prim → length (take 16 (prim.sha256 s)) ≡ 16
length-head prim s digests = omega (arith, length-take 16 (prim.sha256 s), digests s)

to_le_bytes-injective :
    (k c d : ℕ) → c < 256 ^ k → d < 256 ^ k → to_le_bytes k c ≡ to_le_bytes k d → c ≡ d
to_le_bytes-injective k c d hc hd e =
    sym (from_le_bytes-to_le_bytes k c hc) ∙ ap from_le_bytes e ∙ from_le_bytes-to_le_bytes k d hd

-- With a hash of 32 bytes and 64-bit counters: where two nonces are equal, the counters are equal and
-- so are the first 16 bytes of the senders' hashes; and a nonce has 24 bytes, as XChaCha20 wants.
pub build_nonce-injective :
    (prim : Primitives) (s t : Text) (c d : ℕ)
    → Digests prim
    → c < 2 ^ 64
    → d < 2 ^ 64
    → build_nonce prim s c ≡ build_nonce prim t d
    → (length (build_nonce prim s c) ≡ 24)
      × (take 16 (prim.sha256 s) ≡ take 16 (prim.sha256 t))
      × (c ≡ d)
unfolding build_nonce
build_nonce-injective prim s t c d digests hc hd e =
    let head = λ (u : Text). take 16 (prim.sha256 u) in
    let size = λ (u : Text). length-head prim u digests in
    let (same, rest) =
      append_parts (head s) (head t) (to_le_bytes 8 c) (to_le_bytes 8 d) (size s ∙ sym (size t))
        e in
    (
      omega (arith, length-append (head s) (to_le_bytes 8 c), size s, length-to_le_bytes),
      same,
      to_le_bytes-injective 8 c d hc hd rest,
    )
