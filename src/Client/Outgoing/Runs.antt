-- ===== src/Client/Outgoing/Runs.antt =====
-- Lists of effects whose queued messages have ascending counters.
use cliprelay.Base.{
  subst, ℕ, suc, ◌-◌, ◌^◌, ◌≤◌, ◌<◌, ◌≡◌, refl, sym, arith, ok, List, [], ◌∷◌, ◌++◌, min,
}
use cliprelay.Text.{Bytes}
use cliprelay.Core.{encrypted, control, ClipboardEventPlaintext, EncryptedPayload}
use cliprelay.Core.Cipher.{Primitives, encrypt_clipboard_event}
use cliprelay.Core.Cipher.RoundTrip.{encrypt-ok}
use cliprelay.Client.Outgoing.{Effect, queue, tell, persist, saturating_suc}

abbrev pub max_u64 : ℕ
max_u64 = 2 ^ 64 - 1

-- The counters of the encrypted messages that are queued, in order.
abbrev pub counters : List Effect → List ℕ
counters [] = []
counters (queue (encrypted payload) ∷ es) = payload.counter ∷ counters es
counters (queue (control m) ∷ es) = counters es
counters (tell event ∷ es) = counters es
counters (persist n ∷ es) = counters es

-- Strictly increasing, above one bound and up to another.
abbrev pub Ascends : ℕ → List ℕ → ℕ → Type 0
Ascends lo [] hi = lo ≤ hi
Ascends lo (c ∷ cs) hi = (lo < c) × Ascends c cs hi

pub counters-append : (a b : List Effect) → counters (a ++ b) ≡ counters a ++ counters b
counters-append [] b = refl
counters-append (queue (encrypted p) ∷ a) b = rw (counters-append a b) refl
counters-append (queue (control m) ∷ a) b = counters-append a b
counters-append (tell e ∷ a) b = counters-append a b
counters-append (persist n ∷ a) b = counters-append a b

pub Ascends-le : (lo : ℕ) (cs : List ℕ) (hi : ℕ) → Ascends lo cs hi → lo ≤ hi
Ascends-le lo [] hi h = h
Ascends-le lo (c ∷ cs) hi h = omega (arith, Ascends-le c cs hi h.1, h.0)

pub Ascends-append :
    (lo mid hi : ℕ) (cs ds : List ℕ)
    → Ascends lo cs mid
    → Ascends mid ds hi
    → Ascends lo (cs ++ ds) hi
Ascends-append lo mid hi [] [] a b = omega arith
Ascends-append lo mid hi [] (d ∷ ds) a b = (omega (arith, b.0), b.1)
Ascends-append lo mid hi (c ∷ cs) ds a b = (a.0, Ascends-append c mid hi cs ds a.1 b)

-- What is below the largest counter at its end ascends.
abbrev pub Runs : ℕ → List Effect → ℕ → Type 0
Runs counter effects last =
    (min counter max_u64 ≤ last) × (last < max_u64 → Ascends counter (counters effects) last)

pub encrypt-counter :
    (prim : Primitives) (key : Bytes) (event : ClipboardEventPlaintext) {payload : EncryptedPayload}
    → encrypt_clipboard_event prim key event ≡ ok payload
    → payload.counter ≡ event.counter
encrypt-counter prim key event e =
    let (fine, plain, written, sealed, is_sender, is_counter) = encrypt-ok prim key event e in
    is_counter

pub saturating_suc-Runs :
    (n : ℕ)
    → (min n max_u64 ≤ saturating_suc n) × (saturating_suc n < max_u64 → saturating_suc n ≡ suc n)
unfolding saturating_suc
saturating_suc-Runs n = (omega arith, λ h. omega arith)

pub Runs-append :
    (a b c : ℕ) (es fs : List Effect) → Runs a es b → Runs b fs c → Runs a (es ++ fs) c
Runs-append a b c es fs r s = (
  omega (arith, r.0, s.0),
  λ h.
      let before : b < max_u64 = omega (arith, s.0, h) in
      rw (counters-append es fs)
        (Ascends-append a b c (counters es) (counters fs) (r.1 before) (s.1 h)),
)

-- The counter steps from one value to the next.
abbrev pub Steps : ℕ → ℕ → Type 0
Steps c c' = (min c max_u64 ≤ c') × (c' < max_u64 → c' ≡ suc c)

pub tell-Runs : (c c' : ℕ) → Steps c c' → Runs c [] c'
tell-Runs c c' s = (s.0, λ h. omega (arith, s.1 h))

pub queue-Runs :
    (c c' last : ℕ) (payload : EncryptedPayload) (es : List Effect)
    → payload.counter ≡ c'
    → Steps c c'
    → Runs c' es last
    → Runs c (queue (encrypted payload) ∷ es) last
queue-Runs c c' last payload es counted s r = (
  omega (arith, s.0, r.0),
  λ h.
      let below : c' < max_u64 = omega (arith, r.0, h) in
      let up : c < payload.counter = omega (arith, s.1 below) in
      (up, subst (λ (n : ℕ). Ascends n (counters es) last) (sym counted) (r.1 h)),
)

pub idle-Runs : (c : ℕ) → Runs c [] c
idle-Runs c = (omega arith, λ h. omega arith)

-- An effect that queues nothing.
abbrev pub IsQuiet : Effect → Type 0
IsQuiet e = counters (e ∷ []) ≡ []

pub told-Runs :
    (a b : ℕ) (es : List Effect) (e : Effect) → IsQuiet e → Runs a es b → Runs a (es ++ (e ∷ [])) b
told-Runs a b es e quiet r = (
  r.0,
  λ h.
      rw (counters-append es (e ∷ []), quiet)
        (Ascends-append a b b (counters es) [] (r.1 h) (omega arith)),
)
