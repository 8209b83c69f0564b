-- ===== src/Ccr/InMemory/Spec.antt =====
-- The store as its clients may think of it: a list of entries, oldest first, with no hash twice.
use headroom_go.Common.{
  ℕ, ◌+◌, ◌-◌, not, List, [], ◌∷◌, ◌++◌, map, Option, none, some, Bytes, if◌then◌else◌, length,
  drop, keep, text_eq, is_some,
}
use headroom_go.Ccr.InMemory.{Entry, expired}

unfoldable pub find : Bytes → List Entry → Option Entry
find h [] = none
find h (e ∷ l) = if text_eq e.hash h then some e else find h l

-- The same place in the line, a new payload and a new deadline.
unfoldable pub refresh : Bytes → Bytes → Option ℕ → Entry → Entry
refresh h p d e = if text_eq e.hash h then record e { payload = p; expires = d } else e

unfoldable pub forget : Bytes → List Entry → List Entry
forget h = keep (λ e. not (text_eq e.hash h))

-- An insertion drops the oldest entries that do not fit.
unfoldable pub insert : ℕ → Bytes → Bytes → Option ℕ → List Entry → List Entry
insert capacity h p d l =
    if is_some (find h l)
    then map (refresh h p d) l
    else drop (length l + 1 - capacity) (l ++ (record { hash = h; payload = p; expires = d } ∷ []))

unfoldable pub read : ℕ → Bytes → List Entry → Option Bytes × List Entry
read now h l = elim (find h l) [
  | none ↦ (none, l)
  | some e ↦ if expired now e then (none, forget h l) else (some e.payload, l)
]
