-- ===== src/LiveZone/Resize.antt =====
-- internal/livezone/image.go: countImageTokens and resizedSize. The float64 roundings of resizedSize are a
-- parameter; the quotient by 28 in countImageTokens is exact to its ceiling at every size below 2 ^ 47.
use headroom_go.Common.{
  ℕ, zero, suc, ◌+◌, ◌-◌, ◌*◌, ◌/◌, ◌≤◌, ◌≡◌, inl, inr, refl, Bool, Bool-cases, true, ◌&&◌, ltb,
  leb, if◌then◌else◌, arith,
}

unfoldable pub count_image_tokens : ℕ → ℕ → ℕ
count_image_tokens width height = ((width + 27) / 28) * ((height + 27) / 28)

-- The short edge that belongs to a long edge, at the aspect ratio of a width and a height.
pub record Rounding : Type 0 where
  pub height_for : ℕ → ℕ → ℕ → ℕ
  pub width_for : ℕ → ℕ → ℕ → ℕ

module _ (max_edge max_tokens : ℕ) where
  unfoldable pub fits : ℕ × ℕ → Bool
  fits (w, h) = leb w max_edge && leb h max_edge && leb (count_image_tokens w h) max_tokens

  -- The binary search on the long edge, on fuel.
  unfoldable pub search_edge : (ℕ → ℕ × ℕ) → ℕ → ℕ → ℕ → ℕ × ℕ → ℕ × ℕ
  search_edge size zero low high target = target
  search_edge size (suc fuel) low high target =
      let mid = (low + high) / 2 in
      let larger = search_edge size fuel (mid + 1) high (size mid) in
      let smaller = search_edge size fuel low (mid - 1) target in
      if ltb high low then target else if fits (size mid) then larger else smaller

  unfoldable pub size_at : Rounding → ℕ → ℕ → ℕ → ℕ × ℕ
  size_at r width height mid =
      if ltb height width
      then (mid, r.height_for width height mid)
      else (r.width_for width height mid, mid)

  unfoldable pub resized_size : Rounding → ℕ → ℕ → ℕ × ℕ
  resized_size r width height =
      if fits (width, height)
      then (width, height)
      else search_edge (size_at r width height) max_edge 1 max_edge (0, 0)

  fits-search_edge :
      (size : ℕ → ℕ × ℕ) (fuel low high : ℕ) (target : ℕ × ℕ)
      → fits target ≡ true
      → fits (search_edge size fuel low high target) ≡ true
  unfolding search_edge
  fits-search_edge size zero low high target ok = ok
  fits-search_edge size (suc fuel) low high target ok =
      let mid = (low + high) / 2 in
      elim (Bool-cases (ltb high low)) [
        | inl over ↦ rw over ok
        | inr more ↦ elim (Bool-cases (fits (size mid))) [
          | inl good ↦ rw (more, good) (fits-search_edge size fuel (mid + 1) high (size mid) good)
          | inr bad ↦ rw (more, bad) (fits-search_edge size fuel low (mid - 1) target ok)
        ]
      ]

  nothing_fits : fits (0, 0) ≡ true
  unfolding fits count_image_tokens
  nothing_fits = ground arith

  fits_bounds :
      (w h : ℕ)
      → fits (w, h) ≡ true
      → (w ≤ max_edge) × (h ≤ max_edge) × (count_image_tokens w h ≤ max_tokens)
  unfolding fits
  fits_bounds w h ok = ground arith

  fits-resized_size : (r : Rounding) (width height : ℕ) → fits (resized_size r width height) ≡ true
  unfolding resized_size
  fits-resized_size r width height = elim (Bool-cases (fits (width, height))) [
    | inl good ↦ rw good good
    | inr bad ↦
        rw bad (fits-search_edge (size_at r width height) max_edge 1 max_edge (0, 0) nothing_fits)
  ]

  search_edge_fuel :
      (size : ℕ → ℕ × ℕ) (f g low high : ℕ) (target : ℕ × ℕ)
      → 1 ≤ low
      → high + 1 - low ≤ f
      → high + 1 - low ≤ g
      → search_edge size f low high target ≡ search_edge size g low high target
  unfolding search_edge
  search_edge_fuel size zero zero low high target pos a b = refl
  search_edge_fuel size zero (suc g) low high target pos a b =
      let over : ltb high low ≡ true = ground arith in rw over refl
  search_edge_fuel size (suc f) zero low high target pos a b =
      let over : ltb high low ≡ true = ground arith in rw over refl
  search_edge_fuel size (suc f) (suc g) low high target pos a b =
      let mid = (low + high) / 2 in
      elim (Bool-cases (ltb high low)) [
        | inl over ↦ rw over refl
        | inr going ↦ elim (Bool-cases (fits (size mid))) [
          | inl good ↦
              rw (going, good)
                (search_edge_fuel size f g (mid + 1) high (size mid) (omega arith) (ground arith)
                  (ground arith))
          | inr bad ↦
              rw (going, bad)
                (search_edge_fuel size f g low (mid - 1) target pos (ground arith) (ground arith))
        ]
      ]

  -- The result is within the bound on its edges and on its tokens, resizing it again gives it back, and
  -- the search had enough fuel: any larger amount gives the same size.
  pub resized_size_lem :
      (r : Rounding) (width height fuel : ℕ)
      → max_edge ≤ fuel
      → let size = resized_size r width height in
        (size.0 ≤ max_edge)
        × (size.1 ≤ max_edge)
        × (count_image_tokens size.0 size.1 ≤ max_tokens)
        × (resized_size r size.0 size.1 ≡ size)
        × (search_edge (size_at r width height) fuel 1 max_edge (0, 0)
            ≡ search_edge (size_at r width height) max_edge 1 max_edge (0, 0))
  unfolding resized_size
  resized_size_lem r width height fuel enough =
      let size = resized_size r width height in
      let fit = fits-resized_size r width height in
      let (wide, high, tokens) = fits_bounds size.0 size.1 fit in
      (
        wide,
        high,
        tokens,
        rw fit refl,
        search_edge_fuel (size_at r width height) fuel max_edge 1 max_edge (0, 0) (omega arith)
            (omega arith) (omega arith),
      )
