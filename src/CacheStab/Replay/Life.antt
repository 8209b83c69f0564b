-- ===== src/CacheStab/Replay/Life.antt =====
-- How long an entry lives.
use headroom_go.Common.{
  ℕ, zero, suc, ◌+◌, ◌-◌, ◌≤◌, ◌≡◌, ◌==◌, ltb, leb, Bool-cases, inl, inr, not, ◌&&◌, text_eq,
  text_eq_iff, Option-cases, none, some, arith, Bytes, if◌then◌else◌,
}
use headroom_go.Common.Maps
use headroom_go.Common.Maps.{passing, get-filter, get-put, get-remove}
use headroom_go.CacheStab.Replay.{
  ReplayEntry, ReplaySession, ReplayState, SessionReplay, sweep, next_turn, lookup, remember,
  forget,
}

-- A number of requests of the session, in which nothing asks for the entry.
abbrev pub idle_turns : ℕ → ReplaySession → ReplaySession
idle_turns zero s = s
idle_turns (suc n) s = idle_turns n (next_turn s)

turn-next_turn : (s : ReplaySession) → (next_turn s).turn ≡ s.turn + 1
unfolding next_turn sweep
turn-next_turn s = ground arith

get-next_turn :
    (s : ReplaySession) (k : Bytes)
    → Maps.get (next_turn s).blocks k
      ≡ passing (λ e. leb (s.turn + 1) (e.seen + 3)) (Maps.get s.blocks k)
unfolding next_turn sweep
get-next_turn s k = elim (Option-cases (Maps.get s.blocks k)) [
  | inl miss ↦
      ground (
        arith,
        miss,
        get-filter (λ (e : ReplayEntry). not (ltb e.seen (s.turn + 1 - 3))) s.blocks k,
      )
  | inr (e, hit) ↦
      ground
        (arith, hit, get-filter (λ (e : ReplayEntry). not (ltb e.seen (s.turn + 1 - 3))) s.blocks k)
]

gone :
    (n : ℕ) (s : ReplaySession) (k : Bytes)
    → Maps.get s.blocks k ≡ none
    → Maps.get (idle_turns n s).blocks k ≡ none
gone zero s k h = h
gone (suc n) s k h = gone n (next_turn s) k (ground (arith, get-next_turn s k))

-- An entry that was last seen at most three turns ago is still there, with its text, after a number
-- of further turns without a lookup exactly as long as the turn is at most three past the turn in
-- which it was seen.
pub idle_turns_lem :
    (n : ℕ) (s : ReplaySession) (k : Bytes) (e : ReplayEntry)
    → Maps.get s.blocks k ≡ some e
    → s.turn ≤ e.seen + 3
    → Maps.get (idle_turns n s).blocks k ≡ (if leb (s.turn + n) (e.seen + 3) then some e else none)
idle_turns_lem zero s k e h le = ground arith
idle_turns_lem (suc n) s k e h le = elim (Bool-cases (leb (s.turn + 1) (e.seen + 3))) [
  | inl young ↦
      let kept : Maps.get (next_turn s).blocks k ≡ some e = ground (arith, get-next_turn s k) in
      ground (arith, turn-next_turn s, idle_turns_lem n (next_turn s) k e kept)
  | inr old ↦
      let lost : Maps.get (next_turn s).blocks k ≡ none = ground (arith, get-next_turn s k) in
      ground (arith, gone n (next_turn s) k lost)
]

module _ (h g : SessionReplay) (k j c : Bytes) (st : ReplayState) where
  lookup-remember :
      (lookup g j (remember h k c st)).0
      ≡ (if h.sess == g.sess && text_eq k j then some c else (lookup g j st).0)
  unfolding lookup remember
  lookup-remember =
      ground (arith, get-put (st.heap h.sess).blocks k j (record { text = c; seen = h.turn }))

  lookup-forget :
      (lookup g j (forget h k st)).0
      ≡ (if h.sess == g.sess && text_eq k j then none else (lookup g j st).0)
  unfolding lookup forget
  lookup-forget = ground (arith, get-remove (st.heap h.sess).blocks k j)

  lookup-lookup : (lookup g j (lookup h k st).1).0 ≡ (lookup g j st).0
  unfolding lookup
  lookup-lookup = elim (Option-cases (Maps.get (st.heap h.sess).blocks k)) [
    | inl miss ↦ ground (arith, miss)
    | inr (e, hit) ↦ ground (
      arith,
      hit,
      get-put (st.heap h.sess).blocks k j (record e { seen = h.turn }),
      text_eq_iff k j,
    )
  ]

  -- What a handle finds after an operation through the same or another handle: the recorded text
  -- or, after a Forget, nothing, at that block of that session; any other block or session as
  -- before. A Lookup changes no text.
  pub lookup_after :
      ((lookup g j (remember h k c st)).0
        ≡ (if h.sess == g.sess && text_eq k j then some c else (lookup g j st).0))
      × ((lookup g j (forget h k st)).0
          ≡ (if h.sess == g.sess && text_eq k j then none else (lookup g j st).0))
      × ((lookup g j (lookup h k st).1).0 ≡ (lookup g j st).0)
  lookup_after = (lookup-remember, lookup-forget, lookup-lookup)
