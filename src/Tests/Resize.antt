-- ===== src/Tests/Resize.antt =====
-- An image of 40 by 20 pixels that must fit in 10.
use headroom_go.Common.{◌*◌, ◌/◌, ◌≤◌, ◌≡◌, refl, arith}
use headroom_go.LiveZone.Resize.{
  Rounding, count_image_tokens, size_at, search_edge, resized_size, fits, resized_size_lem,
}

abbrev truncating : Rounding
truncating = record { height_for = λ w h tw. tw * h / w; width_for = λ w h th. th * w / h }

resized_size_lem_example :
    let size = resized_size 10 4 truncating 40 20 in
    (size.0 ≤ 10)
    × (size.1 ≤ 10)
    × (count_image_tokens size.0 size.1 ≤ 4)
    × (resized_size 10 4 truncating size.0 size.1 ≡ size)
    × (search_edge 10 4 (size_at 10 4 truncating 40 20) 12 1 10 (0, 0)
        ≡ search_edge 10 4 (size_at 10 4 truncating 40 20) 10 1 10 (0, 0))
resized_size_lem_example = resized_size_lem 10 4 truncating 40 20 12 (omega arith)

shrinks : resized_size 10 4 truncating 40 20 ≡ (10, 5)
unfolding resized_size search_edge size_at fits count_image_tokens
shrinks = refl
