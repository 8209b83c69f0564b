-- ===== src/Pipeline/Saturation.antt =====
-- The sum of the bytes saved.
use headroom_go.Common.{ℕ, ◌+◌, ◌≤◌, ◌≡◌, leb, arith, if◌then◌else◌}
use headroom_go.Pipeline.{max_int, saturating_add}

-- For two numbers of type int that are not negative, the result is their sum if that is an int, and
-- the largest int otherwise.
pub saturating_add_lem :
    (a b : ℕ)
    → a ≤ max_int
    → b ≤ max_int
    → saturating_add a b ≡ (if leb (a + b) max_int then a + b else max_int)
unfolding saturating_add
saturating_add_lem a b h k = ground arith
