-- ===== src/CacheControl/Ttl/Warns.antt =====
-- No warning is given exactly if every field has its 1h markers first.
use headroom_go.Common.{
  ◌≡◌, ◌≢◌, ◌↔◌, refl, subst, Bool-cases, inl, inr, true, false, ◌&&◌, List, [], ◌∷◌, ◌++◌, Option,
  arith, Bytes, codes, text_eq, text_eq_iff, All,
}
use headroom_go.Json.{Json, member, elements, is_object}
use headroom_go.CacheControl.{
  system, tools, Warning, ttl_1h, ttl_5m, walk_list, all_messages, compute_frozen_count,
}
use headroom_go.CacheControl.Ttl.{
  InOrder, ttls_of, all_ttls, quiet, is_nil, is_nil-append, walk_list-quiet, all_messages-quiet,
}

not_1h : (t : Bytes) → text_eq t ttl_5m ≡ true → t ≢ ttl_1h
unfolding text_eq
not_1h t h e =
    let k : text_eq ttl_1h ttl_5m ≡ true = subst (λ x. text_eq x ttl_5m ≡ true) e h in
    ground (arith, k)

other_1h : (t : Bytes) → text_eq t ttl_1h ≡ false → t ≢ ttl_1h
other_1h t h e = ground (arith, h, (text_eq_iff t ttl_1h).1 e)

-- Behind a 5m.
quiet-true_sound : (ts : List Bytes) → quiet true ts ≡ true → All (λ u. u ≢ ttl_1h) ts
quiet-true_sound [] h = tt
quiet-true_sound (t ∷ ts) h = elim (Bool-cases (text_eq t ttl_5m)) [
  | inl five ↦ (not_1h t five, quiet-true_sound ts (ground (arith, h, five)))
  | inr other ↦ elim (Bool-cases (text_eq t ttl_1h)) [
    | inl hour ↦ absurd (ground (arith, h, other, hour))
    | inr neither ↦ (other_1h t neither, quiet-true_sound ts (ground (arith, h, other, neither)))
  ]
]

quiet-true_complete : (ts : List Bytes) → All (λ u. u ≢ ttl_1h) ts → quiet true ts ≡ true
quiet-true_complete [] h = refl
quiet-true_complete (t ∷ ts) h = elim (Bool-cases (text_eq t ttl_1h)) [
  | inl hour ↦ absurd (h.0 ((text_eq_iff t ttl_1h).0 hour))
  | inr other ↦ ground (arith, other, quiet-true_complete ts h.1)
]

All-InOrder : (ts : List Bytes) → All (λ u. u ≢ ttl_1h) ts → InOrder ts
All-InOrder [] h = tt
All-InOrder (t ∷ ts) h = ((λ e. h.1), All-InOrder ts h.1)

quiet_sound : (ts : List Bytes) → quiet false ts ≡ true → InOrder ts
quiet_sound [] h = tt
quiet_sound (t ∷ ts) h = elim (Bool-cases (text_eq t ttl_5m)) [
  | inl five ↦
      let behind = quiet-true_sound ts (ground (arith, h, five)) in
      ((λ e. behind), All-InOrder ts behind)
  | inr other ↦ (
    (λ e. absurd (ground (arith, other, (text_eq_iff t ttl_5m).1 e))),
    quiet_sound ts (ground (arith, h, other)),
  )
]

quiet_complete : (ts : List Bytes) → InOrder ts → quiet false ts ≡ true
quiet_complete [] h = refl
quiet_complete (t ∷ ts) h = elim (Bool-cases (text_eq t ttl_5m)) [
  | inl five ↦ ground (arith, five, quiet-true_complete ts (h.0 ((text_eq_iff t ttl_5m).0 five)))
  | inr other ↦ ground (arith, other, quiet_complete ts h.1)
]

nil_iff : (ws : List Warning) → (is_nil ws ≡ true) ↔ (ws ≡ [])
nil_iff [] = ((λ h. refl), (λ h. refl))
nil_iff (w ∷ ws) = ((λ h. cc), (λ h. cc))

-- Of a body that is an object, no warning is given exactly if in each of the three fields, read in
-- the order of the body, no 1h marker stands behind a 5m marker. In the messages the markers of a
-- tool_result without a marker of its own are those of the elements of its content; of a tool_result
-- that has one, only that one is read, so that a 1h marker in its content is never warned of.
pub compute_frozen_count-warns :
    (root : Option Json)
    → is_object root ≡ true
    → ((compute_frozen_count root).1 ≡ []) ↔ (
        InOrder (all_ttls (elements (member (codes "messages") root)))
        × InOrder (ttls_of (elements (member (codes "system") root)))
        × InOrder (ttls_of (elements (member (codes "tools") root))))
unfolding compute_frozen_count
compute_frozen_count-warns root obj = (
  (λ h.
      let quiet_all = (nil_iff (compute_frozen_count root).1).1 h in
      (
        quiet_sound ms (ground (arith, quiet_all, exact)),
        quiet_sound sys (ground (arith, quiet_all, exact)),
        quiet_sound tls (ground (arith, quiet_all, exact)),
      )),
  (λ h.
      let (a, b, c) = h in
      (nil_iff (compute_frozen_count root).1).0
        (ground (arith, exact, quiet_complete ms a, quiet_complete sys b, quiet_complete tls c))),
)
  where
    ms : List Bytes
    ms = all_ttls (elements (member (codes "messages") root))

    sys : List Bytes
    sys = ttls_of (elements (member (codes "system") root))

    tls : List Bytes
    tls = ttls_of (elements (member (codes "tools") root))

    warns_of : List Warning
    warns_of = (all_messages (elements (member (codes "messages") root))).warns

    system_of : List Warning
    system_of = walk_list (elements (member (codes "system") root)) system

    exact :
        is_nil (compute_frozen_count root).1
        ≡ (quiet false ms && quiet false sys) && quiet false tls
    exact = ground (
      arith,
      obj,
      is_nil-append (warns_of ++ system_of)
          (walk_list (elements (member (codes "tools") root)) tools),
      is_nil-append warns_of system_of,
      all_messages-quiet (elements (member (codes "messages") root)),
      walk_list-quiet (elements (member (codes "system") root)) system,
      walk_list-quiet (elements (member (codes "tools") root)) tools,
    )
