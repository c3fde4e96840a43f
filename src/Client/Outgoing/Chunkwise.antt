-- ===== src/Client/Outgoing/Chunkwise.antt =====
-- A file that is sent chunk by chunk without an interruption, `send_file_v1` of
-- cliprelay-client/src/main.rs: its chunks come to what the loop does in one go.
use cliprelay.Core.{encrypted}
use cliprelay.Text.{Text}
use cliprelay.Client.{
  chunk_encryption, send_file_failed, runtime_error, last_sent, Text, FileError, ClientConfig,
}
use cliprelay.Client.Transfer.{Outside}
use cliprelay.Core.Cipher.{encrypt_clipboard_event, Primitives}
use cliprelay.Base.{
  true, ◌<◌, false, arith, if◌then◌else◌, ltb, sym, ◌∙◌, append_assoc, ap, ◌⊎◌, refl, panic, inl,
  inr, Result-cases, zero, err, ◌≡◌, none, [], ◌∷◌, ◌+◌, suc, ◌≤◌, some, ◌++◌, ok, Option, Result,
  List, ℕ,
}
use cliprelay.Client.Outgoing.Sending.{Sending, send_chunk}
use cliprelay.Client.Outgoing.{
  encrypted, queue, chunk_event, encrypt_clipboard_event, saturating_suc, envelope_text,
  send_chunks, FileError, ClientConfig, Outside, ℕ, Primitives, Effect, tell, persist,
}

-- The chunks that are left, one after the other, at most so many.
abbrev pub finish :
    Primitives → Outside → ClientConfig → ℕ → ℕ → Option Sending → List Effect → ℕ × List Effect
finish prim outside config steps counter none effects = (counter, effects)
finish prim outside config zero counter (some s) effects = (counter, effects)
finish prim outside config (suc steps) counter (some s) effects =
    let (last, left, later) = send_chunk prim outside config counter s in
    finish prim outside config steps last left (effects ++ later)

-- What follows the chunks.
abbrev pub ending : ℕ → ℕ → Result FileError (Unit {0}) → List Effect
ending now last (ok u) = tell (last_sent now) ∷ persist last ∷ []
ending now last (err e) = tell (runtime_error (send_file_failed e)) ∷ []
ending now last panic = []

-- All of it.
abbrev pub whole : ℕ → List Effect → ℕ × List Effect × Result FileError (Unit {0}) → ℕ × List Effect
whole now before (last, effects, answer) = (last, before ++ (effects ++ ending now last answer))

module _ (prim : Primitives) (outside : Outside) (config : ClientConfig) where
  abbrev pub text_of : Sending → ℕ → Result FileError Text
  text_of s = envelope_text prim outside s.id s.prepared.name s.prepared.contents s.prepared.count

  abbrev pub chunks : Sending → ℕ → ℕ → ℕ → ℕ × List Effect × Result FileError (Unit {0})
  chunks s counter i left =
      send_chunks prim outside s.prepared.key config s.clock (text_of s) counter i left

  abbrev after_one :
      Effect
      → ℕ × List Effect × Result FileError (Unit {0})
      → ℕ × List Effect × Result FileError (Unit {0})
  after_one q (last, effects, answer) = (last, q ∷ effects, answer)

  -- The first of the chunks that are left stops the loop, or it is queued and the loop goes on.
  first_chunk :
      (s : Sending) (counter i : ℕ)
      → ((n : ℕ) × (x : FileError) × ((left : ℕ) → chunks s counter i (suc left) ≡ (n, [], err x)))
        ⊎ (((n : ℕ) × ((left : ℕ) → chunks s counter i (suc left) ≡ (n, [], panic)))
            ⊎ ((q : Effect) × ((left : ℕ)
                  → chunks s counter i (suc left)
                    ≡ after_one q (chunks s (saturating_suc counter) (suc i) left))))
  unfolding send_chunks
  first_chunk s counter i =
      let c' : ℕ = saturating_suc counter in
      elim (Result-cases (text_of s i)) [
        | inr (inl (x, e)) ↦ inl (counter, x, λ left. rw (e, send_chunks) refl)
        | inr (inr e) ↦ inr (inl (counter, λ left. rw (e, send_chunks) refl))
        | inl (text, e) ↦
            elim (Result-cases (
              encrypt_clipboard_event prim s.prepared.key (chunk_event config s.clock c' i text))) [
                | inl (payload, sent) ↦ inr (
                    inr (
                      queue (encrypted payload),
                      λ left. rw (e, send_chunks, sent, send_chunks) refl,
                    ))
                | inr (inl (x, failed)) ↦
                    inl (
                      c',
                      chunk_encryption x,
                      λ left. rw (e, send_chunks, failed, send_chunks) refl,
                    )
                | inr (inr failed) ↦
                    inr (inl (c', λ left. rw (e, send_chunks, failed, send_chunks) refl))
              ]
      ]

  -- What `send_chunk` makes of its chunk.
  abbrev pub settled :
      Sending → ℕ × List Effect × Result FileError (Unit {0}) → ℕ × Option Sending × List Effect
  settled s (last, effects, ok u) =
      if ltb (s.chunk_index + 1) s.prepared.count
      then (last, some (record s { chunk_index = s.chunk_index + 1 }), effects)
      else (last, none, effects ++ (tell (last_sent s.clock.finish) ∷ persist last ∷ []))
  settled s (last, effects, err e) =
      (last, none, effects ++ (tell (runtime_error (send_file_failed e)) ∷ []))
  settled s (last, effects, panic) = (last, none, effects)

  send_chunk-settled :
      (s : Sending) (counter : ℕ)
      → send_chunk prim outside config counter s ≡ settled s (chunks s counter s.chunk_index 1)
  unfolding send_chunk
  send_chunk-settled s counter = elim (Result-cases (chunks s counter s.chunk_index 1).2) [
    | inl (u, e) ↦ rw (e, send_chunk, settled) refl
    | inr (inl (x, e)) ↦ rw (e, send_chunk, settled) refl
    | inr (inr e) ↦ rw (e, send_chunk, settled) refl
  ]

  abbrev pub go_on : ℕ → List Effect → ℕ × Option Sending × List Effect → ℕ × List Effect
  go_on steps before (last, left, effects) =
      finish prim outside config steps last left (before ++ effects)

  whole-after_one :
      (now : ℕ) (before : List Effect) (q : Effect)
      (r : ℕ × List Effect × Result FileError (Unit {0}))
      → whole now (before ++ (q ∷ [])) r ≡ whole now before (after_one q r)
  whole-after_one now before q r =
      ap (λ (l : List Effect). (r.0, l)) (append_assoc before (q ∷ []) (r.1 ++ ending now r.0 r.2))

  go_on-settled :
      (steps counter : ℕ) (s : Sending) (before : List Effect)
      {r : ℕ × List Effect × Result FileError (Unit {0})}
      → chunks s counter s.chunk_index 1 ≡ r
      → go_on steps before (send_chunk prim outside config counter s)
        ≡ go_on steps before (settled s r)
  go_on-settled steps counter s before e =
      ap (go_on steps before) (send_chunk-settled s counter ∙ ap (settled s) e)

  -- The last chunk, and one before others.
  last-settled :
      (steps n : ℕ) (s : Sending) (before : List Effect) (q : Effect)
      → s.chunk_index + 1 ≡ s.prepared.count
      → go_on steps before (settled s (n, q ∷ [], ok tt))
        ≡ whole s.clock.finish before (n, q ∷ [], ok tt)
  last-settled steps n s before q counted =
      let no_more : ltb (s.chunk_index + 1) s.prepared.count ≡ false = ground (arith, counted) in
      rw (no_more, settled) refl

  more-settled :
      (steps n : ℕ) (s : Sending) (before : List Effect) (q : Effect)
      → s.chunk_index + 1 < s.prepared.count
      → go_on (suc steps) before (settled s (n, q ∷ [], ok tt))
        ≡ go_on steps
            (before ++ (q ∷ []))
            (send_chunk prim outside config n (record s { chunk_index = s.chunk_index + 1 }))
  more-settled steps n s before q below =
      let more : ltb (s.chunk_index + 1) s.prepared.count ≡ true = ground (arith, below) in
      rw (more, settled) refl

  -- From the first chunk on, given how it goes on when that is queued.
  from_first :
      (left steps counter : ℕ) (s : Sending) (before : List Effect)
      → ((q : Effect)
          → go_on steps before (settled s (saturating_suc counter, q ∷ [], ok tt))
            ≡ whole s.clock.finish before
                (after_one q (chunks s (saturating_suc counter) (suc s.chunk_index) left)))
      → go_on steps before (send_chunk prim outside config counter s)
        ≡ whole s.clock.finish before (chunks s counter s.chunk_index (suc left))
  unfolding send_chunks
  from_first left steps counter s before goes_on =
      let all_of = whole s.clock.finish before in
      elim (first_chunk s counter s.chunk_index) [
        | inl (n, x, stops) ↦
            go_on-settled steps counter s before (stops 0) ∙ sym (ap all_of (stops left))
        | inr (inl (n, stops)) ↦
            go_on-settled steps counter s before (stops 0) ∙ sym (ap all_of (stops left))
        | inr (inr (q, goes)) ↦
            go_on-settled steps counter s before (goes 0) ∙ goes_on q ∙ sym (ap all_of (goes left))
      ]

  pub finish-send_chunk :
      (left steps counter : ℕ) (s : Sending) (before : List Effect)
      → left ≤ steps
      → s.chunk_index + suc left ≡ s.prepared.count
      → go_on steps before (send_chunk prim outside config counter s)
        ≡ whole s.clock.finish before (chunks s counter s.chunk_index (suc left))
  unfolding send_chunks
  finish-send_chunk zero steps counter s before enough counted =
      from_first zero steps counter s before
        (λ q. last-settled steps (saturating_suc counter) s before q (omega (arith, counted)))
  finish-send_chunk (suc left) zero counter s before enough counted = absurd (omega (arith, enough))
  finish-send_chunk (suc left) (suc steps) counter s before enough counted =
      let c' : ℕ = saturating_suc counter in
      let i : ℕ = s.chunk_index + 1 in
      let s' : Sending = record s { chunk_index = i } in
      let now : ℕ = s.clock.finish in
      let same : i ≡ suc s.chunk_index = omega arith in
      from_first (suc left) (suc steps) counter s before (λ q.
        more-settled steps c' s before q (omega (arith, counted))
        ∙ finish-send_chunk left steps c' s' (before ++ (q ∷ [])) (omega (arith, enough))
            (omega (arith, counted))
        ∙ whole-after_one now before q (chunks s c' i (suc left))
        ∙ ap (λ (j : ℕ). whole now before (after_one q (chunks s c' j (suc left)))) same)
