-- ===== src/Tests/Ccr.antt =====
-- Markers and the in-memory store on concrete inputs.
use headroom_go.Common.{
  arith, ℕ, ◌*◌, ◌<◌, ltb, if◌then◌else◌, ◌≡◌, ◌↔◌, refl, true, [], ◌∷◌, none, some, Bytes, codes,
  is_in, Distinct, text_eq, strip_prefix,
}
use headroom_go.Common.Int.{pos}
use headroom_go.Common.Maps
use headroom_go.Ccr.Marker.{
  marker_for, marker_for_cell, marker_for_lossy, is_hex, take_hex, hash_after, whole, parse_marker,
  match_at, find_all, dedupe, hashes_in, decimal,
}
use headroom_go.Ccr.Marker.Parse.{IsHash, parse_marker_iff, parse_marker_rejects}
use headroom_go.Ccr.Marker.Hashes.{Names, hashes_in_lem}
use headroom_go.Ccr.Store.Build.{BackendConfig, in_memory, ok, second, default_ttl, from_config}
use headroom_go.Ccr.Store.Build.Limits.{from_config-in_memory}
use headroom_go.Ccr.InMemory
use headroom_go.Ccr.InMemory.{InMemory, Entry}
use headroom_go.Ccr.InMemory.Refine.{IsValid, new_in_memory-IsValid, refines, view}
use headroom_go.Ccr.InMemory.Spec

markers : Unit {0}
unfolding is_hex take_hex hash_after whole parse_marker match_at find_all dedupe hashes_in
    marker_for marker_for_cell marker_for_lossy decimal text_eq strip_prefix is_in Maps.get Maps.put
markers = tt

stores : Unit {0}
unfolding InMemory.new_in_memory InMemory.put InMemory.get InMemory.evict InMemory.unlink
    InMemory.deadline InMemory.expired InMemory.len Maps.get Maps.put Maps.remove text_eq
stores = tt

abbrev hash : Bytes
hash = codes "0123456789abcdef01234567"

canonical : parse_marker (codes "<<ccr:0123456789abcdef01234567>>") ≡ some hash
unfolding markers
canonical = refl

cell : marker_for_cell hash (codes "json") 42 ≡ codes "<<ccr:0123456789abcdef01234567,json,42>>"
unfolding markers
cell = refl

lossy : marker_for_lossy hash 7 ≡ codes "<<ccr:0123456789abcdef01234567 7_rows_offloaded>>"
unfolding markers
lossy = refl

abbrev both_surfaces : Bytes
both_surfaces =
    codes
      "x <<ccr:0123456789abcdef01234567>> [hash=0123456789abcdef01234567] hash=ffffffffffffffffffffffff."

two_hashes : hashes_in both_surfaces ≡ hash ∷ codes "ffffffffffffffffffffffff" ∷ []
unfolding markers
two_hashes = refl

hash-IsHash : IsHash hash
hash-IsHash = ((parse_marker_iff (codes "<<ccr:0123456789abcdef01234567>>") hash).0 canonical).1

parse_marker_iff_example :
    (parse_marker (marker_for hash) ≡ some hash)
    ↔ ((marker_for hash ≡ marker_for hash) × IsHash hash)
parse_marker_iff_example = parse_marker_iff (marker_for hash) hash

parse_marker_rejects_example :
    (parse_marker (marker_for_cell hash (codes "json") 42) ≡ none)
    × (parse_marker (marker_for_lossy hash 42) ≡ none)
parse_marker_rejects_example = parse_marker_rejects hash (codes "json") 42 hash-IsHash

hashes_in_lem_example :
    Distinct (hashes_in both_surfaces)
    × ((h : Bytes) → (is_in h (hashes_in both_surfaces) ≡ true) ↔ Names both_surfaces h)
hashes_in_lem_example = hashes_in_lem both_surfaces

abbrev small : InMemory
small = InMemory.new_in_memory 2 (pos 10)

abbrev three_puts : InMemory
three_puts =
    InMemory.put 2
      (InMemory.put 1 (InMemory.put 0 small (codes "a") (codes "1")) (codes "b") (codes "2"))
      (codes "c") (codes "3")

-- The oldest entry is gone, the others stay until their deadline has passed.
fifo :
    ((InMemory.get 5 three_puts (codes "a")).0 ≡ none)
    × ((InMemory.get 11 three_puts (codes "b")).0 ≡ some (codes "2"))
    × ((InMemory.get 12 three_puts (codes "b")).0 ≡ none)
    × (InMemory.len (InMemory.get 12 three_puts (codes "b")).1 ≡ 1)
unfolding stores
fifo = (refl, refl, refl, refl)

refines_example :
    IsValid (InMemory.put 3 small (codes "a") (codes "1"))
    × IsValid (InMemory.get 3 small (codes "a")).1
    × (view (InMemory.put 3 small (codes "a") (codes "1"))
        ≡ Spec.insert 2 (codes "a") (codes "1") (InMemory.deadline 3 small) (view small))
    × ((InMemory.get 3 small (codes "a")).0 ≡ (Spec.read 3 (codes "a") (view small)).0)
    × (view (InMemory.get 3 small (codes "a")).1 ≡ (Spec.read 3 (codes "a") (view small)).1)
unfolding InMemory.new_in_memory
refines_example = refines 3 small (codes "a") (codes "1") (new_in_memory-IsValid 2 (pos 10))

abbrev one_minute : BackendConfig
one_minute = record { kind = in_memory; capacity = pos 2; ttl_seconds = 60; path = [] }

from_config-in_memory_example :
    (capacity : ℕ) × (0 < capacity)
    × (0 < 2 → capacity ≡ 2)
    × (from_config (some InMemory.new_in_memory) none one_minute
        ≡ ok
            (InMemory.new_in_memory capacity (pos (if ltb 0 60 then 60 * second else default_ttl))))
from_config-in_memory_example =
    from_config-in_memory InMemory.new_in_memory none one_minute refl (omega arith)
