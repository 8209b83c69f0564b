-- ===== src/Ccr/InMemory/Links.antt =====
-- The linked list and its heap: lookups, writes, evictions and removals.
use headroom_go.Common.{
  ℕ, zero, suc, ◌-◌, ◌<◌, ◌≤◌, ◌==◌, ltb, ◌≡◌, refl, Bool-cases, inl, inr, true, false, List, [],
  ◌∷◌, ◌++◌, map, Option, none, some, arith, Bytes, if◌then◌else◌, length, drop, All, text_eq,
  text_eq_iff, is_some,
}
use headroom_go.Common.Maps
use headroom_go.Common.Maps.{Map, get-remove}
use headroom_go.Ccr.InMemory.{Entry, write, unlink, evict}
use headroom_go.Ccr.InMemory.Spec.{find, refresh, forget}

-- The element whose entry has a hash.
abbrev pub find_id : (ℕ → Entry) → List ℕ → Bytes → Option ℕ
find_id heap [] h = none
find_id heap (e ∷ order) h = if text_eq (heap e).hash h then some e else find_id heap order h

-- No hash twice.
abbrev pub Unique : (ℕ → Entry) → List ℕ → Type 0
Unique heap [] = Unit
Unique heap (e ∷ order) = (find_id heap order (heap e).hash ≡ none) × Unique heap order

abbrev pub Agrees : (ℕ → Entry) → Map ℕ → List ℕ → Type 0
Agrees heap items order = (h : Bytes) → Maps.get items h ≡ find_id heap order h

pub find-view :
    (heap : ℕ → Entry) (order : List ℕ) (h : Bytes)
    → find h (map heap order) ≡ elim (find_id heap order h) [ none ↦ none | some e ↦ some (heap e) ]
unfolding find
find-view heap [] h = refl
find-view heap (e ∷ order) h = ground (arith, find-view heap order h)

pub find_id_hash :
    (heap : ℕ → Entry) (order : List ℕ) (h : Bytes) (el : ℕ)
    → find_id heap order h ≡ some el
    → (heap el).hash ≡ h
find_id_hash heap [] h el e = cc
find_id_hash heap (x ∷ order) h el e =
    ground (arith, find_id_hash heap order h el, text_eq_iff (heap x).hash h)

module _ (heap : ℕ → Entry) (n : ℕ) (new : Entry) where
  pub find_id_fresh :
      (order : List ℕ) (h : Bytes)
      → All (λ e. e < n) order
      → find_id (write heap n new) order h ≡ find_id heap order h
  find_id_fresh [] h a = refl
  find_id_fresh (x ∷ order) h a = ground (arith, a.0, find_id_fresh order h a.1)

  pub view_fresh :
      (order : List ℕ) → All (λ e. e < n) order → map (write heap n new) order ≡ map heap order
  view_fresh [] a = refl
  view_fresh (x ∷ order) a = ground (arith, a.0, view_fresh order a.1)

  pub Unique-fresh :
      (order : List ℕ)
      → All (λ e. e < n) order
      → Unique heap order
      → Unique (write heap n new) order
  Unique-fresh [] a u = tt
  Unique-fresh (x ∷ order) a u =
      (ground (arith, a.0, u.0, find_id_fresh order (heap x).hash a.1), Unique-fresh order a.1 u.1)

  pub find_id_same :
      (order : List ℕ) (h : Bytes)
      → new.hash ≡ (heap n).hash
      → find_id (write heap n new) order h ≡ find_id heap order h
  find_id_same [] h s = refl
  find_id_same (x ∷ order) h s = ground (arith, s, find_id_same order h s)

  pub Unique-same :
      (order : List ℕ)
      → new.hash ≡ (heap n).hash
      → Unique heap order
      → Unique (write heap n new) order
  Unique-same [] s u = tt
  Unique-same (x ∷ order) s u =
      (ground (arith, s, u.0, find_id_same order (heap x).hash s), Unique-same order s u.1)

  pub find_id-append :
      (order : List ℕ) (h : Bytes)
      → find_id heap (order ++ (n ∷ [])) h
        ≡ (if is_some (find_id heap order h) then find_id heap order h else find_id heap (n ∷ []) h)
  find_id-append [] h = refl
  find_id-append (x ∷ order) h = ground (arith, find_id-append order h)

pub Unique-append :
    (heap : ℕ → Entry) (order : List ℕ) (n : ℕ)
    → Unique heap order
    → find_id heap order (heap n).hash ≡ none
    → Unique heap (order ++ (n ∷ []))
Unique-append heap [] n u f = (refl, tt)
Unique-append heap (x ∷ order) n u f = (
  ground (
    arith,
    u.0,
    f,
    find_id-append heap n (heap n) order (heap x).hash,
    text_eq_iff (heap x).hash (heap n).hash,
    text_eq_iff (heap n).hash (heap x).hash,
  ),
  Unique-append heap order n u.1 (ground (arith, f)),
)

-- A write to the one element with a hash is a refresh of that entry in the view.
module _ (heap : ℕ → Entry) (h p : Bytes) (d : Option ℕ) where
  view_absent :
      (order : List ℕ) (el : ℕ)
      → (heap el).hash ≡ h
      → find_id heap order h ≡ none
      → map (write heap el (record (heap el) { payload = p; expires = d })) order
        ≡ map (refresh h p d) (map heap order)
  unfolding refresh
  view_absent [] el s f = refl
  view_absent (x ∷ order) el s f =
      ground (arith, s, f, view_absent order el s (ground (arith, f)), text_eq_iff (heap x).hash h)

  pub view_refresh :
      (order : List ℕ) (el : ℕ)
      → Unique heap order
      → find_id heap order h ≡ some el
      → map (write heap el (record (heap el) { payload = p; expires = d })) order
        ≡ map (refresh h p d) (map heap order)
  unfolding refresh
  view_refresh [] el u f = cc
  view_refresh (x ∷ order) el u f = ground (
    arith,
    u.0,
    f,
    view_refresh order el u.1,
    view_absent order el,
    find_id_hash heap order h el,
    text_eq_iff (heap x).hash h,
  )

module _ (capacity : ℕ) (heap : ℕ → Entry) where
  pub evict-drop :
      (items : Map ℕ) (order : List ℕ)
      → (evict capacity heap items order).1 ≡ drop (length order - capacity) order
  unfolding evict
  evict-drop items [] = ground arith
  evict-drop items (e ∷ order) =
      ground (arith, evict-drop (Maps.remove items (heap e).hash) order, dropped)
    where
      dropped :
          ltb capacity (length (e ∷ order)) ≡ true
          → suc (length order) - capacity ≡ suc (length order - capacity)
      dropped h = ground arith

  pub evict-Agrees :
      (items : Map ℕ) (order : List ℕ)
      → Unique heap order
      → Agrees heap items order
      → Agrees heap (evict capacity heap items order).0 (evict capacity heap items order).1
  unfolding evict
  evict-Agrees items [] u a = a
  evict-Agrees items (e ∷ order) u a = elim (Bool-cases (ltb capacity (length (e ∷ order)))) [
    | inl more ↦
        rw (more, evict)
          (evict-Agrees (Maps.remove items (heap e).hash) order u.1 (λ h.
            ground
              (arith, get-remove items (heap e).hash h, a h, u.0, text_eq_iff (heap e).hash h)))
    | inr fits ↦ rw (fits, evict) a
  ]

module _ {ℓ κ} {A : Type ℓ} (P : A → Type κ) where
  pub All-drop : (n : ℕ) (xs : List A) → All P xs → All P (drop n xs)
  All-drop zero xs h = h
  All-drop (suc n) [] h = tt
  All-drop (suc n) (x ∷ xs) h = All-drop n xs h.1

pub Unique-drop :
    (heap : ℕ → Entry) (n : ℕ) (order : List ℕ) → Unique heap order → Unique heap (drop n order)
Unique-drop heap zero order u = u
Unique-drop heap (suc n) [] u = tt
Unique-drop heap (suc n) (x ∷ order) u = Unique-drop heap n order u.1

pub map-drop :
    (heap : ℕ → Entry) (n : ℕ) (order : List ℕ) → map heap (drop n order) ≡ drop n (map heap order)
map-drop heap zero order = refl
map-drop heap (suc n) [] = refl
map-drop heap (suc n) (x ∷ order) = map-drop heap n order

module _ (heap : ℕ → Entry) (h : Bytes) where
  forget_absent :
      (order : List ℕ) → find_id heap order h ≡ none → forget h (map heap order) ≡ map heap order
  unfolding forget
  forget_absent [] f = refl
  forget_absent (x ∷ order) f = ground (arith, f, forget_absent order)

  pub view_unlink :
      (order : List ℕ) (el : ℕ)
      → Unique heap order
      → find_id heap order h ≡ some el
      → map heap (unlink el order) ≡ forget h (map heap order)
  unfolding forget unlink
  view_unlink [] el u f = cc
  view_unlink (x ∷ order) el u f = ground (
    arith,
    u.0,
    view_unlink order el u.1,
    forget_absent order,
    find_id_hash heap order h el,
    text_eq_iff (heap x).hash h,
  )

  pub find_id-unlink :
      (order : List ℕ) (el : ℕ) (j : Bytes)
      → Unique heap order
      → find_id heap order h ≡ some el
      → find_id heap (unlink el order) j ≡ (if text_eq h j then none else find_id heap order j)
  unfolding unlink
  find_id-unlink [] el j u f = cc
  find_id-unlink (x ∷ order) el j u f = ground (
    arith,
    u.0,
    find_id-unlink order el j u.1,
    find_id_hash heap order h el,
    text_eq_iff (heap x).hash h,
    text_eq_iff h j,
    text_eq_iff (heap x).hash j,
  )

  pub Unique-unlink :
      (order : List ℕ) (el : ℕ)
      → Unique heap order
      → find_id heap order h ≡ some el
      → Unique heap (unlink el order)
  unfolding unlink
  Unique-unlink [] el u f = cc
  Unique-unlink (x ∷ order) el u f = elim (Bool-cases (text_eq (heap x).hash h)) [
    | inl same ↦ let here : (x == el) ≡ true = ground (arith, f) in rw here u.1
    | inr other ↦
        let found : find_id heap order h ≡ some el = ground (arith, f) in
        let away : (x == el) ≡ false =
          ground (arith, find_id_hash heap order h el found, text_eq_iff (heap x).hash h) in
        rw away (
          ground (arith, u.0, find_id-unlink order el (heap x).hash u.1 found),
          Unique-unlink order el u.1 found,
        )
  ]

pub All-unlink : (P : ℕ → Type 0) (el : ℕ) (order : List ℕ) → All P order → All P (unlink el order)
unfolding unlink
All-unlink P el [] a = tt
All-unlink P el (x ∷ order) a = elim (Bool-cases (x == el)) [
  | inl same ↦ rw same a.1
  | inr other ↦ rw other (a.0, All-unlink P el order a.1)
]

pub length-unlink-le : (el : ℕ) (order : List ℕ) → length (unlink el order) ≤ length order
unfolding unlink
length-unlink-le el [] = omega arith
length-unlink-le el (x ∷ order) = ground (arith, length-unlink-le el order)
