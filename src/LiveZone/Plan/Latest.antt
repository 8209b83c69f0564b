-- ===== src/LiveZone/Plan/Latest.antt =====
-- The live message: the last user message at or above the floor.
use headroom_go.Common.{
  ℕ, zero, suc, ◌≤◌, ◌<◌, ◌≡◌, Bool-cases, inl, inr, true, false, leb, leb→le, ◌==◌, ==_iff, List,
  Option, none, some, arith, codes, get_elem?, length,
}
use headroom_go.Json.{Json, member, elements}
use headroom_go.LiveZone.Plan.{is_user, latest_user, find_in, find_latest_user_message}

-- A user message at or above the floor, and behind it no other.
abbrev pub IsLatest : List Json → ℕ → ℕ → Option ℕ → Type 0
IsLatest msgs floor n (some i) =
    (floor ≤ i)
    × (i < n)
    × (is_user (get_elem? msgs i) ≡ true)
    × ((j : ℕ) → i < j → j < n → is_user (get_elem? msgs j) ≡ false)
IsLatest msgs floor n none = (j : ℕ) → floor ≤ j → j < n → is_user (get_elem? msgs j) ≡ false

lower :
    (msgs : List Json) (floor i : ℕ) (o : Option ℕ)
    → is_user (get_elem? msgs i) ≡ false
    → IsLatest msgs floor i o
    → IsLatest msgs floor (suc i) o
lower msgs floor i none other h = λ j a b. elim (Bool-cases (j == i)) [
  | inl same ↦ rw ((==_iff j i).0 same) other
  | inr ne ↦ h j a (ground arith)
]
lower msgs floor i (some k) other (a, b, c, h) = (
  a,
  omega arith,
  c,
  λ j p q. elim (Bool-cases (j == i)) [
    | inl same ↦ rw ((==_iff j i).0 same) other
    | inr ne ↦ h j p (ground arith)
  ],
)

latest_user-IsLatest :
    (msgs : List Json) (floor n : ℕ) → IsLatest msgs floor n (latest_user msgs floor n)
unfolding latest_user
latest_user-IsLatest msgs floor zero = λ j a b. absurd (omega arith)
latest_user-IsLatest msgs floor (suc i) = elim (Bool-cases (leb floor i)) [
  | inr low ↦ rw low (λ j a b. absurd (ground arith))
  | inl high ↦ elim (Bool-cases (is_user (get_elem? msgs i))) [
    | inl user ↦
        let le : floor ≤ i = leb→le floor i high in
        rw (high, user) (le, omega arith, user, λ j p q. absurd (omega arith))
    | inr other ↦
        rw (high, other)
          (lower msgs floor i (latest_user msgs floor i) other (latest_user-IsLatest msgs floor i))
  ]
]

-- The live message is at or above the floor and is the last user message: every later message has
-- another role. Without one, no message at or above the floor is a user message.
pub find_latest_user_message-IsLatest :
    (root : Option Json) (floor : ℕ) (msgs : List Json)
    → elements (member (codes "messages") root) ≡ some msgs
    → IsLatest msgs floor (length msgs) (find_latest_user_message root floor)
unfolding find_latest_user_message find_in
find_latest_user_message-IsLatest root floor msgs e =
    rw (e, find_in) (latest_user-IsLatest msgs floor (length msgs))
