-- ===== src/Ccr/InMemory/Refine.antt =====
-- The map into a linked list implements the list of entries.
use headroom_go.Common.{
  ℕ, suc, ◌+◌, ◌-◌, ◌<◌, ◌≤◌, ◌≡◌, refl, ap, sym, ◌∙◌, Bool-cases, Option-cases, inl, inr, List, [],
  ◌∷◌, ◌++◌, map, none, some, arith, Bytes, length, drop, length-drop, length-append, All,
  All-append, All-map, text_eq_iff,
}
use headroom_go.Common.Int.{ℤ}
use headroom_go.Common.Maps
use headroom_go.Common.Maps.{get-put, get-remove}
use headroom_go.Ccr.InMemory.{
  Entry, InMemory, new_in_memory, write, deadline, expired, evict, put, get,
}
use headroom_go.Ccr.InMemory.Links
use headroom_go.Ccr.InMemory.Links.{find_id, Unique, Agrees}
use headroom_go.Ccr.InMemory.Spec.{insert, read}

-- The map and the list hold the same elements, each hash once and within the capacity.
pub record IsValid (m : InMemory) : Type 0 where
  pub agrees : Agrees m.heap m.items m.order
  pub unique : Unique m.heap m.order
  pub allocated : All (λ el. el < m.fresh) m.order
  pub bounded : length m.order ≤ m.capacity

-- The entries, oldest first.
unfoldable pub view : InMemory → List Entry
view m = map m.heap m.order

pub new_in_memory-IsValid : (capacity : ℕ) (ttl : ℤ) → IsValid (new_in_memory capacity ttl)
unfolding new_in_memory Maps.get
new_in_memory-IsValid capacity ttl = record {
  agrees = λ h. refl;
  unique = tt;
  allocated = tt;
  bounded = omega arith;
}

length-map : (heap : ℕ → Entry) (order : List ℕ) → length (map heap order) ≡ length order
length-map heap [] = refl
length-map heap (x ∷ order) = ap suc (length-map heap order)

map-append : (heap : ℕ → Entry) (xs ys : List ℕ) → map heap (xs ++ ys) ≡ map heap xs ++ map heap ys
map-append heap [] ys = refl
map-append heap (x ∷ xs) ys = ap (◌∷◌ (heap x)) (map-append heap xs ys)

module _ (now : ℕ) (m : InMemory) (h : Bytes) (valid : IsValid m) where
  found : {el : ℕ} → Maps.get m.items h ≡ some el → find_id m.heap m.order h ≡ some el
  found e = ground (arith, valid.agrees h, e)

  absent : Maps.get m.items h ≡ none → find_id m.heap m.order h ≡ none
  absent e = ground (arith, valid.agrees h, e)

  -- Get returns what the list of entries holds, and drops an entry that has expired.
  pub get-read :
      ((get now m h).0 ≡ (read now h (view m)).0) × (view (get now m h).1 ≡ (read now h (view m)).1)
  unfolding get read view
  get-read = elim (Option-cases (Maps.get m.items h)) [
    | inl miss ↦
        let f = Links.find-view m.heap m.order h in
        (ground (arith, miss, absent miss, f), ground (arith, miss, absent miss, f))
    | inr (el, hit) ↦
        let f = Links.find-view m.heap m.order h in
        let u = Links.view_unlink m.heap h m.order el valid.unique (found hit) in
        (ground (arith, hit, found hit, f), ground (arith, hit, found hit, f, u))
  ]

  pub get-IsValid : IsValid (get now m h).1
  unfolding get
  get-IsValid = elim (Option-cases (Maps.get m.items h)) [
    | inl miss ↦ rw (miss, get) valid
    | inr (el, hit) ↦ elim (Bool-cases (expired now (m.heap el))) [
      | inr live ↦ rw (hit, get, live) valid
      | inl dead ↦
          rw (hit, get, dead)
            (record {
              agrees = λ j. ground (
                arith,
                get-remove m.items h j,
                Links.find_id-unlink m.heap h m.order el j valid.unique (found hit),
                valid.agrees j,
              );
              unique = Links.Unique-unlink m.heap h m.order el valid.unique (found hit);
              allocated = Links.All-unlink (λ el. el < m.fresh) el m.order valid.allocated;
              bounded = omega (arith, valid.bounded, Links.length-unlink-le el m.order);
            })
    ]
  ]

  put_old_view :
      (p : Bytes) (el : ℕ)
      → Maps.get m.items h ≡ some el
      → view (put now m h p) ≡ insert m.capacity h p (deadline now m) (view m)
  unfolding put view insert
  put_old_view p el hit = ground (
    arith,
    hit,
    found hit,
    Links.find-view m.heap m.order h,
    Links.view_refresh m.heap h p (deadline now m) m.order el valid.unique (found hit),
  )

  put_old-IsValid : (p : Bytes) (el : ℕ) → Maps.get m.items h ≡ some el → IsValid (put now m h p)
  unfolding put
  put_old-IsValid p el hit =
      let e = record (m.heap el) { payload = p; expires = deadline now m } in
      rw (hit, put)
        (record {
          agrees = λ j. valid.agrees j ∙ sym (Links.find_id_same m.heap el e m.order j refl);
          unique = Links.Unique-same m.heap el e m.order refl valid.unique;
          allocated = valid.allocated;
          bounded = valid.bounded;
        })

  module _ (e : Entry) (same : e.hash ≡ h) (new : Maps.get m.items h ≡ none) where
    abbrev heap' : ℕ → Entry
    heap' = write m.heap m.fresh e

    abbrev order' : List ℕ
    order' = m.order ++ (m.fresh ∷ [])

    Agrees-new : Agrees heap' (Maps.put m.items h m.fresh) order'
    Agrees-new j = ground (
      arith,
      same,
      get-put m.items h j m.fresh,
      valid.agrees j,
      absent new,
      Links.find_id-append heap' m.fresh e m.order j,
      Links.find_id_fresh m.heap m.fresh e m.order j valid.allocated,
      text_eq_iff h j,
    )

    Unique-new : Unique heap' order'
    Unique-new =
        Links.Unique-append heap' m.order m.fresh
          (Links.Unique-fresh m.heap m.fresh e m.order valid.allocated valid.unique)
          (ground (
            arith,
            same,
            absent new,
            Links.find_id_fresh m.heap m.fresh e m.order h valid.allocated,
          ))

    allocated_new : All (λ el. el < m.fresh + 1) order'
    allocated_new =
        All-append _ m.order (m.fresh ∷ []) (All-map m.order (λ el lt. omega arith) valid.allocated)
          (omega arith, tt)

    abbrev evicted : Maps.Map ℕ × List ℕ
    evicted = evict m.capacity heap' (Maps.put m.items h m.fresh) order'

    put_new-IsValid :
        IsValid
          (record m { heap = heap'; fresh = m.fresh + 1; items = evicted.0; order = evicted.1 })
    put_new-IsValid =
        let kept = Links.evict-drop m.capacity heap' (Maps.put m.items h m.fresh) order' in
        record {
          agrees =
              Links.evict-Agrees m.capacity heap' (Maps.put m.items h m.fresh) order' Unique-new
                Agrees-new;
          unique = rw kept (Links.Unique-drop heap' _ order' Unique-new);
          allocated = rw kept (Links.All-drop _ _ order' allocated_new);
          bounded = rw kept (omega (arith, length-drop {0} (length order' - m.capacity) order'));
        }

    put_new_view :
        map heap' evicted.1 ≡ drop (length (view m) + 1 - m.capacity) (view m ++ (e ∷ []))
    unfolding view
    put_new_view =
        let kept = Links.evict-drop m.capacity heap' (Maps.put m.items h m.fresh) order' in
        rw (kept, Links.map-drop, length-map m.heap m.order)
          (ground (
            arith,
            length-append m.order (m.fresh ∷ []),
            map-append heap' m.order (m.fresh ∷ []),
            Links.view_fresh m.heap m.fresh e m.order valid.allocated,
          ))

  pub put-IsValid : (p : Bytes) → IsValid (put now m h p)
  unfolding put
  put-IsValid p = elim (Option-cases (Maps.get m.items h)) [
    | inl new ↦
        rw (new, put)
          (put_new-IsValid (record { hash = h; payload = p; expires = deadline now m }) refl new)
    | inr (el, old) ↦ put_old-IsValid p el old
  ]

  -- Put is the insertion into the list of entries.
  pub put-insert :
      (p : Bytes) → view (put now m h p) ≡ insert m.capacity h p (deadline now m) (view m)
  unfolding put view insert
  put-insert p = elim (Option-cases (Maps.get m.items h)) [
    | inr (el, old) ↦ put_old_view p el old
    | inl new ↦ ground (
      arith,
      new,
      absent new,
      Links.find-view m.heap m.order h,
      put_new_view (record { hash = h; payload = p; expires = deadline now m }) refl new,
    )
  ]

-- One Put or Get of the store at one instant keeps the map and the list in agreement and is, on the
-- list of entries, the insertion (which drops the oldest entries that do not fit) or the read (which
-- drops the entry that it finds expired).
pub refines :
    (now : ℕ) (m : InMemory) (h p : Bytes)
    → IsValid m
    → IsValid (put now m h p)
      × IsValid (get now m h).1
      × (view (put now m h p) ≡ insert m.capacity h p (deadline now m) (view m))
      × ((get now m h).0 ≡ (read now h (view m)).0)
      × (view (get now m h).1 ≡ (read now h (view m)).1)
refines now m h p valid =
    let (value, after) = get-read now m h valid in
    (
      put-IsValid now m h valid p,
      get-IsValid now m h valid,
      put-insert now m h valid p,
      value,
      after,
    )
