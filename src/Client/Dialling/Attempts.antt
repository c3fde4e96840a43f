-- ===== src/Client/Dialling/Attempts.antt =====
-- The loop that connects ends, after three attempts at most.
use cliprelay.Base.{ℕ, suc, zero, ◌≤◌, ◌≡◌, arith, none, some, Option-cases, [], ◌∷◌, inl, inr}
use cliprelay.Client.Dialling.{Dial, Dialled, dial_error, dial_loop}

-- The first of three attempts that connects, with pauses of 200 and 400 milliseconds between them; the
-- error is that of the third.
abbrev pub three_attempts : (ℕ → Dial) → Dialled
three_attempts dial = elim (dial_error (dial 1)) [
  | none ↦ record { pauses = []; gives_up = none }
  | some e ↦ elim (dial_error (dial 2)) [
    | none ↦ record { pauses = 200 ∷ []; gives_up = none }
    | some e ↦ record { pauses = 200 ∷ 400 ∷ []; gives_up = dial_error (dial 3) }
  ]
]

-- Whatever the attempts come to, the loop ends with the fuel of three rounds, or any more: with the
-- first attempt of three that connects, or with the error of the third, after pauses of 200 and 400
-- milliseconds in between.
pub dial_loop-three_attempts :
    (fuel : ℕ) (dial : ℕ → Dial) → 3 ≤ fuel → dial_loop fuel dial 1 ≡ some (three_attempts dial)
unfolding dial_loop
dial_loop-three_attempts zero dial h = absurd (omega arith)
dial_loop-three_attempts (suc zero) dial h = absurd (omega arith)
dial_loop-three_attempts (suc (suc zero)) dial h = absurd (omega arith)
dial_loop-three_attempts (suc (suc (suc fuel))) dial h = elim (Option-cases (dial_error (dial 1))) [
  | inl e1 ↦ ground arith
  | inr (x, e1) ↦ elim (Option-cases (dial_error (dial 2))) [
    | inl e2 ↦ ground arith
    | inr (y, e2) ↦ elim (Option-cases (dial_error (dial 3))) [
      | inl e3 ↦ ground arith
      | inr (z, e3) ↦ ground arith
    ]
  ]
]
