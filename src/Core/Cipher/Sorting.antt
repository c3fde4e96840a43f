-- ===== src/Core/Cipher/Sorting.antt =====
-- `sort` of Core/Cipher: it permutes, and it forgets the order of its input.
use cliprelay.Base.{◌≡◌, refl, ◌∙◌, arith, true, false, List, [], ◌∷◌, All, Bool-cases, inl, inr}
use cliprelay.Text.{Text}
use cliprelay.Core.Cipher.{le_text, insert_sorted, sort}
use mathlib.Core.List.{Perm, Permᴰ}
use mathlib.Core.List.Perm
use mathlib.Core.Logic.{∥∥₁_elim}

le_text_total : (s t : Text) → le_text s t ≡ false → le_text t s ≡ true
unfolding le_text
le_text_total [] t h = cc
le_text_total (x ∷ s) [] h = refl
le_text_total (x ∷ s) (y ∷ t) h = ground (arith, le_text_total s t)

le_text_antisymm : (s t : Text) → le_text s t ≡ true → le_text t s ≡ true → s ≡ t
unfolding le_text
le_text_antisymm [] [] h k = refl
le_text_antisymm [] (y ∷ t) h k = cc
le_text_antisymm (x ∷ s) [] h k = cc
le_text_antisymm (x ∷ s) (y ∷ t) h k = ground (arith, le_text_antisymm s t)

le_text_trans : (s t u : Text) → le_text s t ≡ true → le_text t u ≡ true → le_text s u ≡ true
unfolding le_text
le_text_trans [] t u h k = refl
le_text_trans (x ∷ s) [] u h k = cc
le_text_trans (x ∷ s) (y ∷ t) [] h k = cc
le_text_trans (x ∷ s) (y ∷ t) (z ∷ u) h k = ground (arith, le_text_trans s t u)

insert_comm :
    (a b : Text) (ts : List Text)
    → insert_sorted a (insert_sorted b ts) ≡ insert_sorted b (insert_sorted a ts)
unfolding insert_sorted
insert_comm a b [] = ground (arith, le_text_total a b, le_text_total b a, le_text_antisymm a b)
insert_comm a b (t ∷ ts) = ground (
  arith,
  le_text_total a b,
  le_text_total b a,
  le_text_antisymm a b,
  le_text_trans a b t,
  le_text_trans b a t,
  insert_comm a b ts,
)

sort-eq_of_permᴰ : {xs ys : List Text} → Permᴰ xs ys → sort xs ≡ sort ys
unfolding sort
sort-eq_of_permᴰ Permᴰ.nil = refl
sort-eq_of_permᴰ (Permᴰ.cons {a = a} e d) = rw (e, sort-eq_of_permᴰ d)
sort-eq_of_permᴰ (Permᴰ.swap {a = a} {b = b} {l = l} e f) = rw (← e, ← f) (insert_comm a b (sort l))
sort-eq_of_permᴰ (Permᴰ.trans p q) = sort-eq_of_permᴰ p ∙ sort-eq_of_permᴰ q

List-Text-set : IsSet (List Text)
List-Text-set = hlevel

-- Two orders of the same devices sort to one list.
pub sort-eq_of_perm : {xs ys : List Text} → Perm xs ys → sort xs ≡ sort ys
sort-eq_of_perm {xs} {ys} p = ∥∥₁_elim p (List-Text-set _ _) sort-eq_of_permᴰ

insert-perm : (a : Text) (ts : List Text) → Perm (insert_sorted a ts) (a ∷ ts)
unfolding insert_sorted
insert-perm a [] = Perm.refl _
insert-perm a (t ∷ ts) = elim (Bool-cases (le_text a t)) [
  | inl h ↦ rw h (Perm.refl _)
  | inr h ↦ rw h (Perm.trans (Perm.cons t (insert-perm a ts)) (Perm.swap a t ts))
]

pub sort-perm : (ts : List Text) → Perm (sort ts) ts
unfolding sort
sort-perm [] = Perm.refl []
sort-perm (t ∷ ts) = Perm.trans (insert-perm t (sort ts)) (Perm.cons t (sort-perm ts))

module _ (P : Text → Type 0) where
  insert-All : (a : Text) (ts : List Text) → P a → All P ts → All P (insert_sorted a ts)
  unfolding insert_sorted
  insert-All a [] h k = (h, tt)
  insert-All a (t ∷ ts) h k = ground (arith, insert-All a ts)

  pub sort-All : (ts : List Text) → All P ts → All P (sort ts)
  unfolding sort
  sort-All [] h = h
  sort-All (t ∷ ts) h = insert-All t (sort ts) h.0 (sort-All ts h.1)
