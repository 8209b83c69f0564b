-- ===== src/CacheStab/Replay/Sessions.antt =====
-- The bounded table of sessions.
use headroom_go.Common.{
  ℕ, ◌==◌, true, drop, if◌then◌else◌, ◌+◌, ◌≤◌, ◌<◌, ◌≡◌, ◌≢◌, refl, ap, ◌∙◌, leb, Bool-cases,
  Option-cases, inl, inr, false, ◌||◌, List, [], ◌∷◌, ◌++◌, Option, none, some, arith, Bytes,
  length, length-append, text_eq, text_eq_iff, text_eq_refl, is_in, is_some, Distinct,
}
use headroom_go.Common.Maps
use headroom_go.Common.Maps.{Map, get-put, get-put_self, get-remove, length-put, length-remove-lt}
use headroom_go.Common.Int.{ℤ}
use headroom_go.Json.{Json}
use headroom_go.CacheStab.Replay.{
  ReplaySession, ReplayState, new_replay_state, next_turn, sweep, evict, admit, begin, len,
  message_count,
}

-- The map holds exactly the sessions in the order, each at an address of its own, and not too many.
pub record IsValid (st : ReplayState) : Type 0 where
  pub positive : 0 < st.capacity
  pub bounded : length st.order ≤ st.capacity
  pub counted : length st.sessions ≤ length st.order
  pub distinct : Distinct st.order
  pub agrees : (k : Bytes) → is_some (Maps.get st.sessions k) ≡ is_in k st.order
  pub allocated : (k : Bytes) (el : ℕ) → Maps.get st.sessions k ≡ some el → el < st.fresh
  pub injective :
      (k j : Bytes) (el : ℕ)
      → Maps.get st.sessions k ≡ some el
      → Maps.get st.sessions j ≡ some el
      → k ≡ j

is_in-append :
    (k : Bytes) (xs : List Bytes) (x : Bytes) → is_in k (xs ++ (x ∷ [])) ≡ is_in k xs || text_eq x k
unfolding is_in
is_in-append k [] x = ground arith
is_in-append k (y ∷ xs) x = ground (arith, is_in-append k xs x)

Distinct-append :
    (xs : List Bytes) (x : Bytes) → Distinct xs → is_in x xs ≡ false → Distinct (xs ++ (x ∷ []))
unfolding is_in
Distinct-append [] x d n = (refl, tt)
Distinct-append (y ∷ xs) x d n = (
  ground (arith, d.0, n, is_in-append y xs x, text_eq_iff x y, text_eq_iff y x),
  Distinct-append xs x d.1 (ground (arith, n)),
)

-- What makes room: a table with one place free.
record HasRoom (capacity : ℕ) (old : Map ℕ) (sessions : Map ℕ) (order : List Bytes) : Type 0 where
  room : length order < capacity
  counted : length sessions ≤ length order
  distinct : Distinct order
  agrees : (k : Bytes) → is_some (Maps.get sessions k) ≡ is_in k order
  kept : (k : Bytes) (el : ℕ) → Maps.get sessions k ≡ some el → Maps.get old k ≡ some el

evict-HasRoom :
    (capacity : ℕ) (sessions : Map ℕ) (order : List Bytes)
    → 0 < capacity
    → length order ≤ capacity
    → length sessions ≤ length order
    → Distinct order
    → ((k : Bytes) → is_some (Maps.get sessions k) ≡ is_in k order)
    → HasRoom capacity sessions (evict capacity sessions order).0 (evict capacity sessions order).1
unfolding evict
evict-HasRoom capacity sessions [] p b c d a = record {
  room = p;
  counted = c;
  distinct = d;
  agrees = a;
  kept = λ k el h. h;
}
evict-HasRoom capacity sessions (o ∷ order) p b c d a =
    elim (Bool-cases (leb capacity (length (o ∷ order)))) [
      | inr free ↦ rw free (record {
        room = ground arith;
        counted = c;
        distinct = d;
        agrees = a;
        kept = λ k el h. h;
      })
      | inl full ↦ rw full (record {
        room = omega arith;
        counted =
            unfold is_in in ground (arith, c, a o, length-remove-lt sessions o, text_eq_refl o);
        distinct = d.1;
        agrees =
            λ k. unfold is_in in ground (arith, d.0, a k, get-remove sessions o k, text_eq_iff o k);
        kept = λ k el h. ground (arith, h, get-remove sessions o k);
      })
    ]

module _ (st : ReplayState) (key : Bytes) (valid : IsValid st) where
  room :
      HasRoom st.capacity st.sessions
        (evict st.capacity st.sessions st.order).0
        (evict st.capacity st.sessions st.order).1
  room =
      evict-HasRoom st.capacity st.sessions st.order valid.positive valid.bounded valid.counted
        valid.distinct valid.agrees

  admit-IsValid : IsValid (admit st key).0
  unfolding admit
  admit-IsValid = elim (Option-cases (Maps.get st.sessions key)) [
    | inr (el, old) ↦ rw (old, admit) valid
    | inl new ↦
        let sessions = (evict st.capacity st.sessions st.order).0 in
        let order = (evict st.capacity st.sessions st.order).1 in
        let r = room in
        let absent : Maps.get sessions key ≡ none = lost (Maps.get sessions key) refl new in
        rw (new, admit)
          (record {
            positive = valid.positive;
            bounded = omega (arith, r.room, length-append order (key ∷ []));
            counted = ground (
              arith,
              r.counted,
              length-append order (key ∷ []),
              length-put sessions key st.fresh,
            );
            distinct = Distinct-append order key r.distinct (ground (arith, r.agrees key, absent));
            agrees = λ k.
                ground
                  (arith, r.agrees k, get-put sessions key k st.fresh, is_in-append k order key);
            allocated = λ k el h.
                ground
                  (arith, h, get-put sessions key k st.fresh, r.kept k el, valid.allocated k el);
            injective = λ k j el h g. ground (
              arith,
              h,
              g,
              get-put sessions key k st.fresh,
              get-put sessions key j st.fresh,
              r.kept k el,
              r.kept j el,
              valid.allocated k el,
              valid.allocated j el,
              valid.injective k j el,
              text_eq_iff key k,
              text_eq_iff key j,
            );
          })
  ]
    where
      lost :
          (o : Option ℕ)
          → Maps.get (evict st.capacity st.sessions st.order).0 key ≡ o
          → Maps.get st.sessions key ≡ none
          → Maps.get (evict st.capacity st.sessions st.order).0 key ≡ none
      lost none e new = e
      lost (some el) e new = absurd (ground (arith, room.kept key el e, new))

sent_count-next_turn : (s : ReplaySession) → (next_turn s).sent_count ≡ s.sent_count
unfolding next_turn sweep
sent_count-next_turn s = ground arith

turn-next_turn : (s : ReplaySession) → (next_turn s).turn ≡ s.turn + 1
unfolding next_turn sweep
turn-next_turn s = ground arith

begin_known :
    (st : ReplayState) (key : Bytes) (root : Option Json) (el : ℕ)
    → Maps.get st.sessions key ≡ some el
    → ((begin st key root).0.first ≡ false)
      × ((begin st key root).0.floor ≡ (st.heap el).sent_count)
      × ((begin st key root).0.turn ≡ (st.heap el).turn + 1)
unfolding begin admit
begin_known st key root el h =
    rw (h, admit) (refl, sent_count-next_turn (st.heap el), turn-next_turn (st.heap el))

module _ (st : ReplayState) (key : Bytes) where
  get-admit : Maps.get (admit st key).0.sessions key ≡ some (admit st key).1
  unfolding admit
  get-admit = elim (Option-cases (Maps.get st.sessions key)) [
    | inr (el, old) ↦ rw (old, admit) old
    | inl new ↦
        rw (new, admit) (get-put_self (evict st.capacity st.sessions st.order).0 key st.fresh)
  ]

  -- Admission leaves the sessions of other keys as they were.
  heap-admit :
      (j : Bytes) (el : ℕ)
      → IsValid st
      → j ≢ key
      → Maps.get (admit st key).0.sessions j ≡ some el
      → (admit st key).0.heap el ≡ st.heap el
  unfolding admit
  heap-admit j el valid ne h = elim (Option-cases (Maps.get st.sessions key)) [
    | inr (el', old) ↦ rw (old, admit)
    | inl new ↦
        let sessions = (evict st.capacity st.sessions st.order).0 in
        ground (
          arith,
          new,
          h,
          get-put sessions key j st.fresh,
          text_eq_iff key j,
          (room st key valid).kept j el,
          valid.allocated j el,
        )
  ]

  -- A session that was begun is known to the next Begin.
  begin_again :
      (root root' : Option Json)
      → ((begin (begin st key root).1 key root').0.first ≡ false)
        × ((begin (begin st key root).1 key root').0.floor ≡ message_count root)
        × ((begin (begin st key root).1 key root').0.turn ≡ (begin st key root).0.turn + 1)
  unfolding begin
  begin_again root root' =
      let el = (admit st key).1 in
      let s = next_turn ((admit st key).0.heap el) in
      let (a, b, c) = begin_known (begin st key root).1 key root' el get-admit in
      let here : (begin st key root).1.heap el ≡ record s { sent_count = message_count root } =
        ground arith in
      (
        a,
        b ∙ ap (λ (x : ReplaySession). x.sent_count) here,
        c ∙ ap (λ (x : ReplaySession). x.turn + 1) here,
      )

  capacity-admit : (admit st key).0.capacity ≡ st.capacity
  unfolding admit
  capacity-admit = elim (Option-cases (Maps.get st.sessions key)) [
    | inr (el, old) ↦ rw (old, admit)
    | inl new ↦ rw (new, admit)
  ]

pub new_replay_state-IsValid : (capacity : ℤ) → IsValid (new_replay_state capacity)
unfolding new_replay_state is_in Maps.get
new_replay_state-IsValid capacity = record {
  positive = ground arith;
  bounded = omega arith;
  counted = omega arith;
  distinct = tt;
  agrees = λ k. refl;
  allocated = λ k el h. cc;
  injective = λ k j el h h'. cc;
}

-- What the order of the sessions becomes: a new key comes last, and of a full table the first key goes.
abbrev pub order_after : ℕ → Bytes → List Bytes → List Bytes
order_after capacity key order =
    if is_in key order
    then order
    else (if length order == capacity then drop 1 order else order) ++ (key ∷ [])

evict_order :
    (capacity : ℕ) (sessions : Map ℕ) (order : List Bytes)
    → 0 < capacity
    → length order ≤ capacity
    → (evict capacity sessions order).1 ≡ (if length order == capacity then drop 1 order else order)
unfolding evict
evict_order capacity sessions [] p b = ground (arith, p)
evict_order capacity sessions (o ∷ order) p b = ground (arith, b)

-- The sessions of the keys that stay in the order are the same.
evict_kept :
    (capacity : ℕ) (sessions : Map ℕ) (order : List Bytes) (k : Bytes)
    → Distinct order
    → is_in k (evict capacity sessions order).1 ≡ true
    → Maps.get (evict capacity sessions order).0 k ≡ Maps.get sessions k
unfolding evict
evict_kept capacity sessions [] k d h = refl
evict_kept capacity sessions (o ∷ order) k d h =
    elim (Bool-cases (leb capacity (length (o ∷ order)))) [
      | inr free ↦ rw free refl
      | inl full ↦
          let stays : is_in k order ≡ true = ground (arith, h, full) in
          rw full (ground (arith, d.0, stays, get-remove sessions o k, text_eq_iff o k))
    ]

module _ (st : ReplayState) (key : Bytes) (valid : IsValid st) where
  order-admit : (admit st key).0.order ≡ order_after st.capacity key st.order
  unfolding admit
  order-admit = elim (Option-cases (Maps.get st.sessions key)) [
    | inr (el, old) ↦
        let known : is_in key st.order ≡ true = ground (arith, valid.agrees key, old) in
        rw (old, admit, known) refl
    | inl new ↦
        let absent : is_in key st.order ≡ false = ground (arith, valid.agrees key, new) in
        rw (new, admit, absent)
          (ap (λ (ks : List Bytes). ks ++ (key ∷ []))
            (evict_order st.capacity st.sessions st.order valid.positive valid.bounded))
  ]

  sessions-admit :
      (j : Bytes)
      → j ≢ key
      → is_in j (admit st key).0.order ≡ true
      → Maps.get (admit st key).0.sessions j ≡ Maps.get st.sessions j
  unfolding admit
  sessions-admit j ne h = elim (Option-cases (Maps.get st.sessions key)) [
    | inr (el, old) ↦ rw (old, admit) refl
    | inl new ↦
        let (sessions, order) = evict st.capacity st.sessions st.order in
        let stays : is_in j order ≡ true =
          ground (arith, h, new, ne, is_in-append j order key, text_eq_iff key j) in
        rw (new, admit)
          (ground (
            arith,
            ne,
            text_eq_iff key j,
            get-put sessions key j st.fresh,
            evict_kept st.capacity st.sessions st.order j valid.distinct stays,
          ))
  ]

-- Begin leaves the sessions of a known key in their order; for a new key it adds a session at the end
-- and, of a full table, takes out the first, the oldest, and no other. The table stays valid and
-- within its capacity. Every other key that stays keeps its session, which Begin does not touch. And
-- the next Begin of the key has the number of messages of this request as its floor, in the turn after
-- this one.
pub begin_lem :
    (st : ReplayState) (key : Bytes) (root root' : Option Json)
    → IsValid st
    → IsValid (begin st key root).1
      × (len (begin st key root).1 ≤ st.capacity)
      × ((begin st key root).1.order ≡ order_after st.capacity key st.order)
      × ((j : Bytes)
          → j ≢ key
          → is_in j (begin st key root).1.order ≡ true
          → Maps.get (begin st key root).1.sessions j ≡ Maps.get st.sessions j)
      × ((j : Bytes) (el : ℕ)
          → j ≢ key
          → Maps.get (begin st key root).1.sessions j ≡ some el
          → (begin st key root).1.heap el ≡ st.heap el)
      × ((begin (begin st key root).1 key root').0.first ≡ false)
      × ((begin (begin st key root).1 key root').0.floor ≡ message_count root)
      × ((begin (begin st key root).1 key root').0.turn ≡ (begin st key root).0.turn + 1)
unfolding begin len
begin_lem st key root root' valid =
    let v = admit-IsValid st key valid in
    let (a, b, c) = begin_again st key root root' in
    (
      record {
        positive = v.positive;
        bounded = v.bounded;
        counted = v.counted;
        distinct = v.distinct;
        agrees = v.agrees;
        allocated = v.allocated;
        injective = v.injective;
      },
      omega (arith, v.counted, v.bounded, capacity-admit st key),
      order-admit st key valid,
      (λ j ne h. sessions-admit st key valid j ne h),
      (λ j el ne h. ground (
        arith,
        ne,
        h,
        v.injective j key el,
        get-admit st key,
        heap-admit st key j el valid ne h,
      )),
      a,
      b,
      c,
    )
