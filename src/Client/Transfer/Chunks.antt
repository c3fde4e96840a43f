-- ===== src/Client/Transfer/Chunks.antt =====
-- The chunks that `send_file_v1` cuts, joined again.
use cliprelay.Base.{
  inr, ◌>>=◌, inl, >>=-eq-ok, subst, Result, Option-cases, ok, ℕ, zero, suc, ◌+◌, ◌-◌, ◌*◌, ◌≤◌,
  ◌≡◌, refl, sym, ap, ◌∙◌, arith, Option, none, some, List, [], ◌∷◌, ◌++◌, length, take, drop,
  take-append-drop, length-take, length-drop, min,
}
use cliprelay.Text.{Bytes}
use cliprelay.Client.{Text, file_chunk_raw_bytes, default_max_file_bytes, max_total_chunks}
use cliprelay.Client.Transfer.{joined, chunk_at, chunk_count, store_chunk, replicate_none}

abbrev no_bytes : Bytes
no_bytes = []

drop_nil : (i : ℕ) → drop i no_bytes ≡ no_bytes
drop_nil zero = refl
drop_nil (suc i) = refl

take_nil : (i : ℕ) → take i no_bytes ≡ no_bytes
take_nil zero = refl
take_nil (suc i) = refl

drop-drop : (i j k : ℕ) (b : Bytes) → k ≡ j + i → drop i (drop j b) ≡ drop k b
drop-drop i zero k b h = let same : i ≡ k = omega arith in ap (λ (n : ℕ). drop n b) same
drop-drop i (suc j) zero b h = absurd (omega arith)
drop-drop i (suc j) (suc k) [] h = drop_nil i
drop-drop i (suc j) (suc k) (x ∷ b) h = drop-drop i j k b (omega arith)

take_min : (k : ℕ) (b : Bytes) → take (min k (length b)) b ≡ take k b
take_min zero b =
    let none_of : min 0 (length b) ≡ 0 = omega arith in ap (λ (n : ℕ). take n b) none_of
take_min (suc k) [] = take_nil (min (suc k) 0)
take_min (suc k) (x ∷ b) =
    let below : min (suc k) (suc (length b)) ≡ suc (min k (length b)) = omega arith in
    ap (λ (n : ℕ). take n (x ∷ b)) below ∙ ap (λ (c : Bytes). x ∷ c) (take_min k b)

-- A slice that ends at the end of the data or a length after its start.
slice :
    (s e c : ℕ) (b : Bytes) → e ≡ s + c → take (min e (length b) - s) (drop s b) ≡ take c (drop s b)
slice s e c b h =
    let same : min e (length b) - s ≡ min c (length (drop s b)) = omega (arith, length-drop s b) in
    ap (λ (n : ℕ). take n (drop s b)) same ∙ take_min c (drop s b)

take_of_length : (n : ℕ) (b : Bytes) → length b ≤ n → take n b ≡ b
take_of_length zero [] h = refl
take_of_length zero (x ∷ b) h = absurd (omega arith)
take_of_length (suc n) [] h = refl
take_of_length (suc n) (x ∷ b) h = ap (λ (c : Bytes). x ∷ c) (take_of_length n b (omega arith))

drop_of_length : (n : ℕ) (b : Bytes) → length b ≤ n → drop n b ≡ []
drop_of_length zero [] h = refl
drop_of_length zero (x ∷ b) h = absurd (omega arith)
drop_of_length (suc n) [] h = refl
drop_of_length (suc n) (x ∷ b) h = drop_of_length n b (omega arith)

abbrev stored_as : List (Option Bytes) → Result Text (List (Option Bytes))
stored_as cs = ok cs

ok-injective : {x y : List (Option Bytes)} → stored_as x ≡ stored_as y → x ≡ y
ok-injective e = cc

-- A slot is empty or holds the chunk of its position.
abbrev pub Agrees : Bytes → ℕ → List (Option Bytes) → Type 0
Agrees file i [] = Unit {0}
Agrees file i (none ∷ cs) = Agrees file (suc i) cs
Agrees file i (some c ∷ cs) = (c ≡ chunk_at file i) × Agrees file (suc i) cs

-- A chunk that is cut is what is left of the data, up to the chunk's size.
pub chunk_at-take :
    (file : Bytes) (i : ℕ)
    → chunk_at file i ≡ take file_chunk_raw_bytes (drop (i * file_chunk_raw_bytes) file)
unfolding chunk_at
chunk_at-take file i =
    slice (i * file_chunk_raw_bytes) ((i + 1) * file_chunk_raw_bytes) file_chunk_raw_bytes file
      (omega arith)

pub length-chunk_at :
    (file : Bytes) (i : ℕ)
    → length (chunk_at file i) ≡ min file_chunk_raw_bytes (length file - i * file_chunk_raw_bytes)
length-chunk_at file i = rw (chunk_at-take file i) (
    omega (
      arith,
      length-take file_chunk_raw_bytes (drop (i * file_chunk_raw_bytes) file),
      length-drop (i * file_chunk_raw_bytes) file,
    ))

joined-suffix :
    (file : Bytes) (i : ℕ) (cs : List (Option Bytes)) {out : Bytes}
    → Agrees file i cs
    → joined cs ≡ some out
    → length file ≤ (i + length cs) * file_chunk_raw_bytes
    → out ≡ drop (i * file_chunk_raw_bytes) file
unfolding joined
joined-suffix file i [] {out} a e h =
    let nothing : out ≡ [] = cc in
    nothing ∙ sym (drop_of_length (i * file_chunk_raw_bytes) file (omega arith))
joined-suffix file i (none ∷ cs) a e h = cc
joined-suffix file i (some c ∷ cs) {out} a e h = elim (Option-cases (joined cs)) [
  | inl missing ↦ absurd (ground arith)
  | inr (rest, joins) ↦
      let size : ℕ = file_chunk_raw_bytes in
      let tail : rest ≡ drop (suc i * file_chunk_raw_bytes) file =
        joined-suffix file (suc i) cs a.1 joins (omega arith) in
      let whole : out ≡ c ++ rest = ground arith in
      let head : c ≡ take file_chunk_raw_bytes (drop (i * file_chunk_raw_bytes) file) =
        a.0 ∙ chunk_at-take file i in
      let next : drop file_chunk_raw_bytes (drop (i * file_chunk_raw_bytes) file)
          ≡ drop (suc i * file_chunk_raw_bytes) file =
        drop-drop file_chunk_raw_bytes (i * file_chunk_raw_bytes) (suc i * file_chunk_raw_bytes)
          file (omega arith) in
      whole
      ∙ ap (λ (x : Bytes). x ++ rest) head
      ∙ ap (λ (y : Bytes). take file_chunk_raw_bytes (drop (i * file_chunk_raw_bytes) file) ++ y)
          (tail ∙ sym next)
      ∙ take-append-drop file_chunk_raw_bytes (drop (i * file_chunk_raw_bytes) file)
]

-- Slots that agree with a file and are all filled join to the file.
pub joined-Agrees :
    (file : Bytes) (cs : List (Option Bytes)) {out : Bytes}
    → Agrees file 0 cs
    → length cs ≡ chunk_count (length file)
    → joined cs ≡ some out
    → out ≡ file
unfolding chunk_count
joined-Agrees file cs a n e = joined-suffix file 0 cs a e (omega (arith, n))

-- A file within the limit has at most as many chunks as receivers accept.
pub chunk_count-le : (n : ℕ) → n ≤ default_max_file_bytes → chunk_count n ≤ max_total_chunks
unfolding chunk_count
chunk_count-le n h = omega arith

length-store_chunk :
    (cs : List (Option Bytes)) (j : ℕ) (chunk : Bytes) {cs' : List (Option Bytes)}
    → store_chunk cs j chunk ≡ ok cs'
    → length cs' ≡ length cs
unfolding store_chunk
length-store_chunk [] j chunk e = cc
length-store_chunk (none ∷ cs) zero chunk e = ap length (sym (ok-injective e))
length-store_chunk (some c ∷ cs) zero chunk e = ap length (sym (ok-injective e))
length-store_chunk (none ∷ cs) (suc j) chunk e =
    let (rest, stored, whole) = >>=-eq-ok (store_chunk cs j chunk) (λ rest. ok (none ∷ rest)) e in
    ap length (sym (ok-injective whole)) ∙ ap suc (length-store_chunk cs j chunk stored)
length-store_chunk (some c ∷ cs) (suc j) chunk e =
    let (rest, stored, whole) = >>=-eq-ok (store_chunk cs j chunk) (λ rest. ok (some c ∷ rest)) e in
    ap length (sym (ok-injective whole)) ∙ ap suc (length-store_chunk cs j chunk stored)

store-Agrees :
    (file : Bytes) (i j k : ℕ) (cs : List (Option Bytes)) {cs' : List (Option Bytes)}
    → k ≡ i + j
    → Agrees file i cs
    → store_chunk cs j (chunk_at file k) ≡ ok cs'
    → Agrees file i cs'
unfolding store_chunk
store-Agrees file i j k [] s a e = cc
store-Agrees file i zero k (none ∷ cs) s a e =
    let same : k ≡ i = omega arith in
    subst (Agrees file i) (ok-injective e) (ap (chunk_at file) same, a)
store-Agrees file i zero k (some c ∷ cs) s a e = subst (Agrees file i) (ok-injective e) a
store-Agrees file i (suc j) k (none ∷ cs) s a e =
    let (rest, stored, whole) =
      >>=-eq-ok (store_chunk cs j (chunk_at file k)) (λ rest. ok (none ∷ rest)) e in
    subst (Agrees file i) (ok-injective whole)
      (store-Agrees file (suc i) j k cs (omega arith) a stored)
store-Agrees file i (suc j) k (some c ∷ cs) s a e =
    let (rest, stored, whole) =
      >>=-eq-ok (store_chunk cs j (chunk_at file k)) (λ rest. ok (some c ∷ rest)) e in
    subst (Agrees file i) (ok-injective whole)
      (a.0, store-Agrees file (suc i) j k cs (omega arith) a.1 stored)

replicate-Agrees : (file : Bytes) (i n : ℕ) → Agrees file i (replicate_none n)
replicate-Agrees file i zero = tt
replicate-Agrees file i (suc n) = replicate-Agrees file (suc i) n

length-replicate_none : (n : ℕ) → length (replicate_none n) ≡ n
length-replicate_none zero = refl
length-replicate_none (suc n) = ap suc (length-replicate_none n)

-- The slots after the chunks of some positions of a file have come, one after the other.
abbrev pub store_all : Bytes → List ℕ → List (Option Bytes) → Result Text (List (Option Bytes))
store_all file [] cs = ok cs
store_all file (j ∷ js) cs = store_chunk cs j (chunk_at file j) >>= store_all file js

store_all-Agrees :
    (file : Bytes) (js : List ℕ) (cs : List (Option Bytes)) {cs' : List (Option Bytes)}
    → Agrees file 0 cs
    → store_all file js cs ≡ ok cs'
    → Agrees file 0 cs' × (length cs' ≡ length cs)
store_all-Agrees file [] cs a e =
    subst (λ (x : List (Option Bytes)). Agrees file 0 x × (length x ≡ length cs)) (ok-injective e)
      (a, refl)
store_all-Agrees file (j ∷ js) cs a e =
    let (mid, stored, later) =
      >>=-eq-ok (store_chunk cs j (chunk_at file j)) (store_all file js) e in
    let b : Agrees file 0 mid = store-Agrees file 0 j j cs (omega arith) a stored in
    let (c, n) = store_all-Agrees file js mid b later in
    (c, n ∙ length-store_chunk cs j (chunk_at file j) stored)

-- Whatever the order in which the chunks of a file of any size arrive, and however often each does:
-- where slots for as many chunks as the sender counts have taken them and are all filled, they join
-- to the file.
pub joined-store_all :
    (file : Bytes) (js : List ℕ) {cs : List (Option Bytes)} {out : Bytes}
    → store_all file js (replicate_none (chunk_count (length file))) ≡ ok cs
    → joined cs ≡ some out
    → out ≡ file
joined-store_all file js {cs} {out} stored joins =
    let (a, n) =
      store_all-Agrees file js (replicate_none (chunk_count (length file)))
        (replicate-Agrees file 0 (chunk_count (length file))) stored in
    joined-Agrees file cs a (n ∙ length-replicate_none (chunk_count (length file))) joins
