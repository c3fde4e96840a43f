-- ===== src/Client/UiState/Clamp.antt =====
-- `clamp_placement_in_rect` of cliprelay-client/src/ui_state.rs. An operation on 32-bit integers wraps
-- around, as in a release build.
pub mod Inside
use cliprelay.Base.{ℕ, Option, none, some, ltb, if◌then◌else◌}
use cliprelay.Base.Int.{ℤ, pos, ltb_ℤ, ◌+ℤ◌, ◌-ℤ◌, wrap_i32, as_u32, as_i32}
use cliprelay.Client.UiState.{WindowPlacement}

unfoldable pub max_i32 : ℤ → ℤ → ℤ
max_i32 a b = if ltb_ℤ a b then b else a

-- `i32::clamp`, with bounds that are in order.
unfoldable pub clamp_i32 : ℤ → ℤ → ℤ → ℤ
clamp_i32 x lo hi = if ltb_ℤ x lo then lo else if ltb_ℤ hi x then hi else x

-- `u32::clamp`: `none` is the panic for bounds that are not in order.
unfoldable pub clamp_u32 : ℕ → ℕ → ℕ → Option ℕ
clamp_u32 x lo hi =
    if ltb hi lo then none else some (if ltb x lo then lo else if ltb hi x then hi else x)

-- The same for both directions: from the edges, `max_w` and `max_h`.
unfoldable pub max_size : ℤ → ℤ → ℤ → ℕ
max_size left right margin_px =
    let monitor = max_i32 (wrap_i32 (right -ℤ left)) (pos 200) in
    as_u32 (max_i32 (wrap_i32 (monitor -ℤ wrap_i32 (margin_px +ℤ margin_px))) (pos 200))

-- The same for both directions: `x` and `y`, for the size.
unfoldable pub position : ℤ → ℤ → ℤ → ℕ → ℤ
position x left right w = clamp_i32 x left (max_i32 (wrap_i32 (right -ℤ as_i32 w)) left)

-- The edges are left, top, right and bottom.
unfoldable pub clamp_placement_in_rect :
    WindowPlacement → ℕ → ℕ → ℤ → ℤ × ℤ × ℤ × ℤ → Option WindowPlacement
clamp_placement_in_rect placement min_w min_h margin_px (left, top, right, bottom) =
    elim (clamp_u32 placement.w min_w (max_size left right margin_px)) [
      | none ↦ none
      | some w ↦ elim (clamp_u32 placement.h min_h (max_size top bottom margin_px)) [
        | none ↦ none
        | some h ↦ some (record {
          x = position placement.x left right w;
          y = position placement.y top bottom h;
          w = w;
          h = h;
        })
      ]
    ]
