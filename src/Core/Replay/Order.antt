-- ===== src/Core/Replay/Order.antt =====
-- No counter of a sender is accepted twice, nor after a greater one.
use cliprelay.Base.{
  =?→eq, ◌∙◌, refl, Bool-cases, Result-cases, ℕ, max, ◌↔◌, ◌<◌, ◌≤◌, ◌≡◌, arith, Option, none, some,
  Option-cases, ok, List, [], ◌∷◌, All, ◌=?◌, =?_iff, =?_refl, if◌then◌else◌, inl, inr,
}
use cliprelay.Base.Map.{Map, get, get-insert}
use native.Mathlib.Nat.{le_trans}
use cliprelay.Core.{DeviceId}
use cliprelay.Core.Replay.{validate_counter, accepted_messages}

-- The greatest counter that a sender has used is below this one, or it has used none.
abbrev pub IsFresh : Map ℕ → DeviceId → ℕ → Type 0
IsFresh m sender counter = (previous : ℕ) → get m sender ≡ some previous → previous < counter

-- The greater of the counter last seen, if there is one, and a new one.
abbrev pub latest : Option ℕ → ℕ → ℕ
latest none counter = counter
latest (some previous) counter = max previous counter

pub validate_counter-accepts :
    (m : Map ℕ) (sender : DeviceId) (counter : ℕ)
    → ((validate_counter m sender counter).1 ≡ ok tt) ↔ IsFresh m sender counter
unfolding validate_counter
validate_counter-accepts m sender counter = (
  λ e previous h. ground arith,
  λ fresh. elim (Option-cases (get m sender)) [
    | inl e ↦ rw (e, validate_counter)
    | inr (previous, e) ↦ ground (arith, fresh previous e)
  ],
)

-- Afterwards the map holds the greatest counter of the sender, whether or not it was accepted, and
-- what it held for every other.
pub get-validate_counter :
    (m : Map ℕ) (sender other : DeviceId) (counter : ℕ)
    → get (validate_counter m sender counter).0 other
      ≡ (if sender =? other then some (latest (get m sender) counter) else get m other)
unfolding validate_counter
get-validate_counter m sender other counter =
    ground (arith, get-insert m sender other counter, =?_iff sender other)

pub recorded :
    (m : Map ℕ) (s : DeviceId) (c : ℕ)
    → get (validate_counter m s c).0 s ≡ some (latest (get m s) c)
recorded m s c = ground (arith, get-validate_counter m s s c, =?_refl s)

pub latest_le : (o : Option ℕ) (c : ℕ) → c ≤ latest o c
latest_le none c = omega arith
latest_le (some p) c = omega arith

-- Later messages of a sender have greater counters.
abbrev pub Increasing : List (DeviceId × ℕ) → Type 0
Increasing [] = Unit {0}
Increasing ((sender, counter) ∷ rest) =
    All (λ later. later.0 ≡ sender → counter < later.1) rest × Increasing rest

-- What the map is after the messages, whether or not they pass the check.
abbrev pub seen : Map ℕ → List (DeviceId × ℕ) → Map ℕ
seen m [] = m
seen m ((sender, counter) ∷ rest) = seen (validate_counter m sender counter).0 rest

-- Every counter that a sender has used among the messages is below this one.
abbrev pub IsAbove : List (DeviceId × ℕ) → DeviceId → ℕ → Type 0
IsAbove msgs sender counter = All (λ used. used.0 ≡ sender → used.1 < counter) msgs

latest-lt :
    (o : Option ℕ) (c counter : ℕ)
    → latest o c < counter
    → (c < counter) × ((p : ℕ) → o ≡ some p → p < counter)
latest-lt none c counter h = (h, λ p e. absurd (ground arith))
latest-lt (some q) c counter h = (omega (arith, h), λ p e. ground (arith, h))

lt-latest :
    (o : Option ℕ) (c counter : ℕ)
    → c < counter
    → ((p : ℕ) → o ≡ some p → p < counter)
    → latest o c < counter
lt-latest none c counter h below = h
lt-latest (some q) c counter h below = omega (arith, h, below q refl)

IsFresh-step :
    (m : Map ℕ) (s : DeviceId) (c : ℕ) (sender : DeviceId) (counter : ℕ)
    → IsFresh (validate_counter m s c).0 sender counter
      ↔ (IsFresh m sender counter × (s ≡ sender → c < counter))
IsFresh-step m s c sender counter =
    let now = get-validate_counter m s sender c in
    let old = get m s in
    elim (Bool-cases (s =? sender)) [
      | inr other ↦ (
        λ fresh. (
          λ previous h. fresh previous (now ∙ rw other h),
          λ same. absurd (ground (arith, other, same, =?_refl s)),
        ),
        λ both previous h. both.0 previous (ground (arith, now, other)),
      )
      | inl this ↦
          let same = =?→eq s sender this in
          (
            λ fresh.
                let below = latest-lt old c counter (fresh (latest old c) (now ∙ rw this refl)) in
                (λ previous h. below.1 previous (rw same h), λ e. below.0),
            λ both previous h.
                let below = lt-latest old c counter (both.1 same) (rw same both.0) in
                ground (arith, now, this, below, h),
          )
    ]

IsFresh-seen :
    (m : Map ℕ) (msgs : List (DeviceId × ℕ)) (sender : DeviceId) (counter : ℕ)
    → IsFresh (seen m msgs) sender counter
      ↔ (IsFresh m sender counter × IsAbove msgs sender counter)
IsFresh-seen m [] sender counter = (λ h. (h, tt), λ h. h.0)
IsFresh-seen m ((s, c) ∷ msgs) sender counter =
    let once = IsFresh-step m s c sender counter in
    let rest = IsFresh-seen (validate_counter m s c).0 msgs sender counter in
    (
      λ h.
          let (fresh, more) = rest.0 h in
          let (before, this) = once.0 fresh in (before, (this, more)),
      λ h. rest.1 (once.1 (h.0, h.1.0), h.1.1),
    )

get-empty : (sender : DeviceId) → get {V = ℕ} [] sender ≡ none
unfolding get
get-empty sender = refl

-- After any messages from any senders, accepted or not, that came to an empty map: one more message is
-- accepted exactly when its counter is greater than every counter that its sender has used among them.
pub validate_counter-seen :
    (msgs : List (DeviceId × ℕ)) (sender : DeviceId) (counter : ℕ)
    → ((validate_counter (seen [] msgs) sender counter).1 ≡ ok tt) ↔ IsAbove msgs sender counter
validate_counter-seen msgs sender counter =
    let check = validate_counter-accepts (seen [] msgs) sender counter in
    let past = IsFresh-seen [] msgs sender counter in
    (
      λ e. (past.0 (check.0 e)).1,
      λ above_all.
          check.1 (past.1 (λ previous h. absurd (ground (arith, get-empty sender, h)), above_all)),
    )

-- What the map holds for a sender after one more message.
after_step :
    (m : Map ℕ) (sender s : DeviceId) (bound c : ℕ)
    → get m sender ≡ some bound
    → get (validate_counter m s c).0 sender ≡ some (if s =? sender then max bound c else bound)
after_step m sender s bound c e = ground (arith, get-validate_counter m s sender c, =?_iff s sender)

above :
    (m : Map ℕ) (sender : DeviceId) (bound low : ℕ) (msgs : List (DeviceId × ℕ))
    → get m sender ≡ some bound
    → low ≤ bound
    → All (λ later. later.0 ≡ sender → low < later.1) (accepted_messages m msgs)
unfolding accepted_messages
above m sender bound low [] e h = tt
above m sender bound low ((s, c) ∷ msgs) e h =
    let later =
      above (validate_counter m s c).0 sender (if s =? sender then max bound c else bound) low msgs
        (after_step m sender s bound c e) (ground arith) in
    elim (Result-cases (validate_counter m s c).1) [
      | inl (u, r) ↦
          rw (r, accepted_messages)
            (
              λ same.
                  le_trans (omega (arith, h))
                    ((validate_counter-accepts m s c).0 r bound (rw same e)),
              later,
            )
      | inr (inl (x, r)) ↦ rw (r, accepted_messages) later
      | inr (inr r) ↦ rw (r, accepted_messages) later
    ]

-- Of the messages that pass the check, one after the other, those of one sender have strictly
-- increasing counters: none is accepted twice, and none out of order.
pub accepted_messages-Increasing :
    (m : Map ℕ) (msgs : List (DeviceId × ℕ)) → Increasing (accepted_messages m msgs)
unfolding accepted_messages
accepted_messages-Increasing m [] = tt
accepted_messages-Increasing m ((s, c) ∷ msgs) =
    let m' = (validate_counter m s c).0 in
    let rest = accepted_messages-Increasing m' msgs in
    elim (Result-cases (validate_counter m s c).1) [
      | inl (u, r) ↦
          rw (r, accepted_messages)
            (above m' s (latest (get m s) c) c msgs (recorded m s c) (latest_le (get m s) c), rest)
      | inr (inl (x, r)) ↦ rw (r, accepted_messages) rest
      | inr (inr r) ↦ rw (r, accepted_messages) rest
    ]
