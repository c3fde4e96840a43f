-- ===== src/Client/UiState/Clamp/Inside.antt =====
-- A clamped window lies within the rectangle.
use cliprelay.Client.UiState.{WindowPlacement}
use cliprelay.Base.{
  ap, ◌∙◌, ltb, some, ltb_false→le, inr, inl, Bool-cases, ℕ, ◌≡◌, ◌≤◌, ◌<◌, ◌+◌, ◌-◌, ◌*◌, ◌^◌,
  arith, refl, lt→ltb,
}
use cliprelay.Base.Int.{
  ltb_ℤ, IsI32, ℤ, pos, negsuc, ◌+ℤ◌, ◌-ℤ◌, ◌≤ℤ◌, wrap_i32, as_u32, as_i32, pos_part, neg_part,
  -ℤ_parts, +ℤ_parts, wrap_i32-IsI32,
}
use cliprelay.Client.UiState.Clamp.{
  clamp_u32, clamp_placement_in_rect, WindowPlacement, clamp_i32, position, max_size, max_i32,
}

-- A coordinate of a screen.
abbrev pub IsCoordinate : ℤ → Type 0
IsCoordinate z = (pos_part z ≤ 2 ^ 20) × (neg_part z ≤ 2 ^ 20)

-- One edge is `d` after the other.
abbrev pub IsApart : ℤ → ℤ → ℕ → Type 0
IsApart left right d = pos_part right + neg_part left ≡ d + (pos_part left + neg_part right)

pos_of_parts : (z : ℤ) (n : ℕ) → pos_part z ≡ neg_part z + n → z ≡ pos n
pos_of_parts (pos m) n h = ground arith
pos_of_parts (negsuc m) n h = absurd (omega arith)

difference : (left right : ℤ) (d : ℕ) → IsApart left right d → right -ℤ left ≡ pos d
difference left right d h = pos_of_parts (right -ℤ left) d (omega (arith, -ℤ_parts right left, h))

wrap_small : (n : ℕ) → n < 2 ^ 31 → wrap_i32 (pos n) ≡ pos n
wrap_small n h = wrap_i32-IsI32 (pos n) (h, omega arith)

max_i32-pos : (a b : ℕ) → b ≤ a → max_i32 (pos a) (pos b) ≡ pos a
unfolding max_i32
max_i32-pos a b h = ground arith

as_u32-pos : (n : ℕ) → n < 2 ^ 32 → as_u32 (pos n) ≡ n
unfolding as_u32
as_u32-pos n h = omega arith

max_size-room :
    (left right : ℤ) (d g : ℕ)
    → IsApart left right d
    → d ≤ 2 ^ 22
    → 200 + 2 * g ≤ d
    → max_size left right (pos g) ≡ d - 2 * g
unfolding max_size
max_size-room left right d g apart small room =
    let twice : pos g +ℤ pos g ≡ pos (2 * g) =
      pos_of_parts (pos g +ℤ pos g) (2 * g) (omega (arith, +ℤ_parts (pos g) (pos g))) in
    let left_over : pos d -ℤ pos (2 * g) ≡ pos (d - 2 * g) =
      pos_of_parts (pos d -ℤ pos (2 * g)) (d - 2 * g)
        (omega (arith, -ℤ_parts (pos d) (pos (2 * g)))) in
    rw
      (
        difference left right d apart,
        wrap_small d (omega arith),
        max_i32-pos d 200 (omega arith),
        twice,
        wrap_small (2 * g) (omega arith),
        left_over,
        wrap_small (d - 2 * g) (omega arith),
        max_i32-pos (d - 2 * g) 200 (omega arith),
      )
      (as_u32-pos (d - 2 * g) (omega arith))

as_i32-small : (w : ℕ) → w < 2 ^ 31 → as_i32 w ≡ pos w
unfolding as_i32
as_i32-small w h = rw (lt→ltb w (2 ^ 31) h) refl

-- A length from a place on lies between two edges.
pub record IsWithin (left right x : ℤ) (w : ℕ) : Type 0 where
  pub starts : left ≤ℤ x
  pub ends : (x +ℤ pos w) ≤ℤ right

IsI32-of_parts :
    (z : ℤ) (a b : ℕ) → pos_part z + b ≡ neg_part z + a → a < 2 ^ 31 → b ≤ 2 ^ 31 → IsI32 z
IsI32-of_parts (pos n) a b e small low = (omega arith, omega arith)
IsI32-of_parts (negsuc n) a b e small low = (omega arith, omega arith)

clamp_i32-between : (x lo hi : ℤ) → lo ≤ℤ hi → (lo ≤ℤ clamp_i32 x lo hi) × (clamp_i32 x lo hi ≤ℤ hi)
unfolding clamp_i32
clamp_i32-between x lo hi h = elim (Bool-cases (ltb_ℤ x lo)) [
  | inl low ↦ rw (low, clamp_i32) (omega arith, h)
  | inr enough ↦ elim (Bool-cases (ltb_ℤ hi x)) [
    | inl high ↦ rw (enough, clamp_i32, high) (h, omega arith)
    | inr fine ↦ rw (enough, clamp_i32, fine) (ltb_false→le _ _ enough, ltb_false→le _ _ fine)
  ]
]

max_i32-first : (a b : ℤ) → b ≤ℤ a → max_i32 a b ≡ a
unfolding max_i32
max_i32-first a b h = ground arith

position-IsWithin :
    (x left right : ℤ) (w d : ℕ)
    → IsCoordinate left
    → IsCoordinate right
    → IsApart left right d
    → w ≤ d
    → IsWithin left right (position x left right w) w
unfolding position
position-IsWithin x left right w d l r apart fits =
    let last = right -ℤ pos w in
    let parts = -ℤ_parts right (pos w) in
    let small : w < 2 ^ 31 = omega (arith, l.0, l.1, r.0, r.1, apart, fits) in
    let in_range : IsI32 last =
      IsI32-of_parts last (pos_part right) (neg_part right + w) (omega (arith, parts))
        (omega (arith, r.0)) (omega (arith, l.0, l.1, r.0, r.1, apart, fits)) in
    let after : left ≤ℤ last = omega (arith, parts, apart, fits) in
    let at = clamp_i32 x left last in
    let (low, high) = clamp_i32-between x left last after in
    rw (as_i32-small w small, wrap_i32-IsI32 last in_range, max_i32-first last left after)
      (record { starts = low; ends = omega (arith, high, parts, +ℤ_parts at (pos w)) })

clamp_u32-between :
    (x lo hi : ℕ) → lo ≤ hi → (w : ℕ) × (clamp_u32 x lo hi ≡ some w) × (lo ≤ w) × (w ≤ hi)
unfolding clamp_u32
clamp_u32-between x lo hi h = elim (Bool-cases (ltb x lo)) [
  | inl low ↦ (lo, ground (arith, low, h), omega arith, h)
  | inr enough ↦ elim (Bool-cases (ltb hi x)) [
    | inl high ↦ (hi, ground (arith, enough, high, h), h, omega arith)
    | inr fine ↦
        (x, ground (arith, enough, fine, h), ltb_false→le x lo enough, ltb_false→le hi x fine)
  ]
]

-- The window has at least the sizes that are asked for, and lies within the rectangle.
pub record IsInside (p : WindowPlacement) (min_w min_h : ℕ) (left top right bottom : ℤ)
    : Type 0 where
  pub w_ge : min_w ≤ p.w
  pub h_ge : min_h ≤ p.h
  pub horizontal : IsWithin left right p.x p.w
  pub vertical : IsWithin top bottom p.y p.h

clamped :
    (placement : WindowPlacement) (min_w min_h : ℕ) (margin left top right bottom : ℤ) (w h : ℕ)
    → clamp_u32 placement.w min_w (max_size left right margin) ≡ some w
    → clamp_u32 placement.h min_h (max_size top bottom margin) ≡ some h
    → clamp_placement_in_rect placement min_w min_h margin (left, top, right, bottom)
      ≡ some (record {
        x = position placement.x left right w;
        y = position placement.y top bottom h;
        w = w;
        h = h;
      })
unfolding clamp_placement_in_rect
clamped placement min_w min_h margin left top right bottom w h is_w is_h =
    rw (is_w, clamp_placement_in_rect, is_h) refl

-- For a rectangle whose edges are at most 2 ^ 20 away from the origin, and which has room for 200
-- pixels and for the sizes that are asked for between its margins: whatever the placement was, clamping
-- does not panic, and the window that it gives has at least these sizes and lies within the rectangle.
pub clamp_placement_in_rect-IsInside :
    (placement : WindowPlacement) (min_w min_h margin dw dh : ℕ) (left top right bottom : ℤ)
    → IsCoordinate left
    → IsCoordinate top
    → IsCoordinate right
    → IsCoordinate bottom
    → IsApart left right dw
    → IsApart top bottom dh
    → 200 + 2 * margin ≤ dw
    → 200 + 2 * margin ≤ dh
    → min_w + 2 * margin ≤ dw
    → min_h + 2 * margin ≤ dh
    → (p : WindowPlacement) × (clamp_placement_in_rect placement min_w min_h
          (pos margin)
          (left, top, right, bottom)
        ≡ some p)
      × IsInside p min_w min_h left top right bottom
clamp_placement_in_rect-IsInside placement min_w min_h margin dw dh left top right bottom l t r b
      across down room_w room_h fits_w fits_h =
    let size_w =
      max_size-room left right dw margin across (omega (arith, l.0, l.1, r.0, r.1, across))
        room_w in
    let size_h =
      max_size-room top bottom dh margin down (omega (arith, t.0, t.1, b.0, b.1, down)) room_h in
    let (w, is_w, w_ge, w_le) =
      clamp_u32-between placement.w min_w (dw - 2 * margin) (omega arith) in
    let (h, is_h, h_ge, h_le) =
      clamp_u32-between placement.h min_h (dh - 2 * margin) (omega arith) in
    let p : WindowPlacement = record {
      x = position placement.x left right w;
      y = position placement.y top bottom h;
      w = w;
      h = h;
    } in
    (
      p,
      clamped placement min_w min_h (pos margin) left top right bottom w h
          (ap (clamp_u32 placement.w min_w) size_w ∙ is_w)
          (ap (clamp_u32 placement.h min_h) size_h ∙ is_h),
      record {
        w_ge = w_ge;
        h_ge = h_ge;
        horizontal = position-IsWithin placement.x left right w dw l r across (omega arith);
        vertical = position-IsWithin placement.y top bottom h dh t b down (omega arith);
      },
    )
