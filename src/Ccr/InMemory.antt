-- ===== src/Ccr/InMemory.antt =====
-- internal/ccr/backends/inmemory.go: the in-memory store, a map into a linked list.
-- A list element is a number that stands for its address; `heap` holds the entry of each. Time is a
-- number of nanoseconds, `now` is what timeNow returns, and the zero Time is `none`. The mutex makes
-- each method one step.
pub mod Spec
pub mod Links
pub mod Refine
use headroom_go.Common.{
  ℕ, zero, suc, ◌+◌, ◌==◌, ltb, Bool, true, false, List, [], ◌∷◌, ◌++◌, Option, none, some, Bytes,
  if◌then◌else◌, length,
}
use headroom_go.Common.Int.{ℤ, pos, pos_part}
use headroom_go.Common.Maps
use headroom_go.Common.Maps.{Map}
use headroom_go.Ccr.Store.{StoreOps}

pub record Entry : Type 0 where
  pub hash : Bytes
  pub payload : Bytes
  pub expires : Option ℕ

pub record InMemory : Type 0 where
  pub capacity : ℕ
  pub ttl : ℤ
  pub heap : ℕ → Entry
  -- the next address that no element has had
  pub fresh : ℕ
  pub items : Map ℕ
  pub order : List ℕ

abbrev pub no_entry : Entry
no_entry = record { hash = []; payload = []; expires = none }

unfoldable pub new_in_memory : ℕ → ℤ → InMemory
new_in_memory capacity ttl = record {
  capacity = capacity;
  ttl = ttl;
  heap = λ _. no_entry;
  fresh = 0;
  items = [];
  order = [];
}

-- A write through a pointer.
abbrev pub write : (ℕ → Entry) → ℕ → Entry → ℕ → Entry
write heap el e el' = if el == el' then e else heap el'

-- list.Remove(el).
unfoldable pub unlink : ℕ → List ℕ → List ℕ
unlink el [] = []
unlink el (e ∷ order) = if e == el then order else e ∷ unlink el order

unfoldable pub deadline : ℕ → InMemory → Option ℕ
deadline now m = if pos_part m.ttl == 0 then none else some (now + pos_part m.ttl)

unfoldable pub expired : ℕ → Entry → Bool
expired now e = elim e.expires [ none ↦ false | some t ↦ ltb t now ]

-- The loop that drops the oldest elements while there are too many.
unfoldable pub evict : ℕ → (ℕ → Entry) → Map ℕ → List ℕ → Map ℕ × List ℕ
evict capacity heap items [] = (items, [])
evict capacity heap items (e ∷ order) =
    let rest = evict capacity heap (Maps.remove items (heap e).hash) order in
    if ltb capacity (length (e ∷ order)) then rest else (items, e ∷ order)

unfoldable pub put : ℕ → InMemory → Bytes → Bytes → InMemory
put now m hash payload = elim (Maps.get m.items hash) [
  | some el ↦ record m {
    heap = write m.heap el (record (m.heap el) { payload = payload; expires = deadline now m });
  }
  | none ↦
      let heap' =
        write m.heap m.fresh
          (record { hash = hash; payload = payload; expires = deadline now m }) in
      let (items', order') =
        evict m.capacity heap' (Maps.put m.items hash m.fresh) (m.order ++ (m.fresh ∷ [])) in
      record m { heap = heap'; fresh = m.fresh + 1; items = items'; order = order' }
]

unfoldable pub get : ℕ → InMemory → Bytes → Option Bytes × InMemory
get now m hash = elim (Maps.get m.items hash) [
  | none ↦ (none, m)
  | some el ↦
      if expired now (m.heap el)
      then (none, record m { order = unlink el m.order; items = Maps.remove m.items hash })
      else (some (m.heap el).payload, m)
]

-- Expired entries count until a Get drops them.
unfoldable pub len : InMemory → ℕ
len m = length m.order

-- The store at one instant.
abbrev pub at : ℕ → StoreOps InMemory
at now = record { put = put now; get = get now; len = len }
