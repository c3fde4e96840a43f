-- ===== src/Client/History/Kept.antt =====
-- What is loaded, and what is kept from one start to the next.
use cliprelay.Client.{max_history_entries}
use cliprelay.Text.{Text}
use cliprelay.Core.{RoundTrips, Json}
use cliprelay.Client.Window.{ActivityEntry}
use cliprelay.Client.Config.{try_save, Attempt}
use cliprelay.Base.{
  refl, [], zero, Option-cases, false, ap, suc, inl, some, inr, arith, ◌⊎◌, take, ◌≤◌, none, le→leb,
  Option, ◌≡◌, ◌∷◌, length, List, ℕ,
}
use cliprelay.Client.History.{
  max_history_entries, Text, Json, write_history, sort_newest, load_history, insert_newest, Attempt,
  ActivityEntry, save_history,
}

-- No entry is older than one after it.
abbrev pub IsNewestFirst : List ActivityEntry → Type 0
IsNewestFirst [] = Unit {0}
IsNewestFirst (e ∷ []) = Unit {0}
IsNewestFirst (e ∷ x ∷ xs) = (x.ts_unix_ms ≤ e.ts_unix_ms) × IsNewestFirst (x ∷ xs)

insert_newest-front :
    (e : ActivityEntry) (es : List ActivityEntry)
    → IsNewestFirst (e ∷ es)
    → insert_newest e es ≡ e ∷ es
unfolding insert_newest
insert_newest-front e [] h = refl
insert_newest-front e (x ∷ xs) h = rw (le→leb x.ts_unix_ms e.ts_unix_ms h.0) refl

IsNewestFirst-tail :
    (e : ActivityEntry) (es : List ActivityEntry) → IsNewestFirst (e ∷ es) → IsNewestFirst es
IsNewestFirst-tail e [] h = tt
IsNewestFirst-tail e (x ∷ xs) h = h.1

sort_newest-sorted : (es : List ActivityEntry) → IsNewestFirst es → sort_newest es ≡ es
unfolding sort_newest
sort_newest-sorted [] h = refl
sort_newest-sorted (e ∷ es) h =
    rw (sort_newest-sorted es (IsNewestFirst-tail e es h)) (insert_newest-front e es h)

-- An attempt that succeeds.
abbrev pub Succeeds : Attempt → Type 0
Succeeds a = (a.write_error ≡ none) × (a.rename_error ≡ none)

-- One more attempt before the others: it succeeds, or the others write the file.
write_history-suc :
    (payload : Text) (attempts : ℕ → Attempt) (left : ℕ) (file : Option Text)
    → Succeeds (attempts (suc left)) ⊎ (write_history payload attempts left file ≡ some payload)
    → write_history payload attempts (suc left) file ≡ some payload
unfolding write_history try_save
write_history-suc payload attempts left file (inl s) = ground (arith, s.0, s.1)
write_history-suc payload attempts left file (inr later) =
    let a = attempts (suc left) in
    elim (Option-cases a.write_error) [
      | inr (e, fails) ↦ ground (arith, later)
      | inl fine ↦ elim (Option-cases a.rename_error) [
        | inr (e, fails) ↦ ground (arith, later)
        | inl done ↦ ground arith
      ]
    ]

write_history-zero :
    (payload : Text) (attempts : ℕ → Attempt) (file : Option Text)
    → Succeeds (attempts 0)
    → write_history payload attempts 0 file ≡ some payload
unfolding write_history try_save
write_history-zero payload attempts file s = ground (arith, s.0, s.1)

write_history-written :
    (payload : Text) (attempts : ℕ → Attempt) (file : Option Text)
    → Succeeds (attempts 2) ⊎ (Succeeds (attempts 1) ⊎ Succeeds (attempts 0))
    → write_history payload attempts 2 file ≡ some payload
write_history-written payload attempts file (inl s) =
    write_history-suc payload attempts 1 file (inl s)
write_history-written payload attempts file (inr (inl s)) =
    write_history-suc payload attempts 1 file
      (inr (write_history-suc payload attempts 0 file (inl s)))
write_history-written payload attempts file (inr (inr s)) =
    write_history-suc payload attempts 1 file (
      inr (
        write_history-suc payload attempts 0 file
          (inr (write_history-zero payload attempts file s))))

take-short : {A : Type 0} (n : ℕ) (xs : List A) → length xs ≤ n → take n xs ≡ xs
take-short zero [] h = refl
take-short (suc n) [] h = refl
take-short zero (x ∷ xs) h = absurd (omega arith)
take-short {A} (suc n) (x ∷ xs) h = ap (λ (l : List A). x ∷ l) (take-short n xs (omega arith))

-- A history of at most 200 entries, the newest first, that is saved with one of the three attempts
-- succeeding, is what is loaded the next time, where its JSON reads back.
pub load_history-save_history :
    (json : Json (List ActivityEntry)) (history : List ActivityEntry) (attempts : ℕ → Attempt)
    (file : Option Text) (payload : Text)
    → RoundTrips json
    → json.to_vec history ≡ inr payload
    → length history ≤ max_history_entries
    → IsNewestFirst history
    → Succeeds (attempts 2) ⊎ (Succeeds (attempts 1) ⊎ Succeeds (attempts 0))
    → load_history json false (save_history json history attempts file) ≡ history
unfolding load_history save_history
load_history-save_history json history attempts file payload rt written short newest succeeds =
    let short_enough = take-short max_history_entries history short in
    let saves : save_history json history attempts file ≡ some payload =
      rw (short_enough, save_history, written)
        (write_history-written payload attempts file succeeds) in
    let reads = rt history payload written in
    rw (saves, reads, load_history, sort_newest-sorted history newest) short_enough
