-- ===== src/Tests/CacheStab.antt =====
-- Sessions of a replay table and observations of drift.
use headroom_go.Common.{
  is_in, ℕ, ◌+◌, ◌≤◌, ◌≡◌, ◌≢◌, ◌↔◌, refl, true, false, ◌&&◌, ◌==◌, leb, [], ◌∷◌, none, some, Bytes,
  codes, text_eq, if◌then◌else◌, arith,
}
use headroom_go.Common.Int.{pos}
use headroom_go.Common.Maps
use headroom_go.CacheStab.Replay.{
  ReplayEntry, ReplaySession, ReplayState, SessionReplay, new_replay_state, lookup, remember,
  forget, admit, begin, len, message_count,
}
use headroom_go.CacheStab.Replay.Life.{idle_turns, idle_turns_lem, lookup_after}
use headroom_go.CacheStab.Replay.Sessions.{
  order_after, IsValid, begin_lem, new_replay_state-IsValid,
}
use headroom_go.CacheStab.Drift.{StructuralHash, new_drift_state, observe, has_drifted}
use headroom_go.CacheStab.Drift.Observe.{PrefixHeld, observe_again}
use headroom_go.Tests.Fixtures.{three_messages}

abbrev entry : ReplayEntry
entry = record { text = codes "short"; seen = 2 }

abbrev session : ReplaySession
session = record { turn = 4; sent_count = 1; blocks = (codes "k", entry) ∷ [] }

in_session : Maps.get session.blocks (codes "k") ≡ some entry
unfolding Maps.get text_eq
in_session = refl

idle_turns_lem_example :
    Maps.get (idle_turns 3 session).blocks (codes "k") ≡ (if leb 7 5 then some entry else none)
idle_turns_lem_example = idle_turns_lem 3 session (codes "k") entry in_session (omega arith)

abbrev handle : SessionReplay
handle = record { sess = 0; floor = 0; first = true; turn = 1 }

abbrev table : ReplayState
table = new_replay_state (pos 2)

lookup_after_example :
    ((lookup handle (codes "j") (remember handle (codes "k") (codes "c") table)).0 ≡ (
      if handle.sess == handle.sess && text_eq (codes "k") (codes "j")
      then some (codes "c")
      else (lookup handle (codes "j") table).0))
    × ((lookup handle (codes "j") (forget handle (codes "k") table)).0 ≡ (
        if handle.sess == handle.sess && text_eq (codes "k") (codes "j")
        then none
        else (lookup handle (codes "j") table).0))
    × ((lookup handle (codes "j") (lookup handle (codes "k") table).1).0
        ≡ (lookup handle (codes "j") table).0)
lookup_after_example = lookup_after handle handle (codes "k") (codes "j") (codes "c") table

-- A table of two sessions that holds two.
abbrev full_table : ReplayState
full_table = (begin (begin table (codes "a") three_messages).1 (codes "b") three_messages).1

full_table-IsValid : IsValid full_table
full_table-IsValid =
    (begin_lem (begin table (codes "a") three_messages).1 (codes "b") three_messages none
      (begin_lem table (codes "a") three_messages none (new_replay_state-IsValid (pos 2))).0).0

oldest_goes : (begin full_table (codes "s") three_messages).1.order ≡ codes "b" ∷ codes "s" ∷ []
unfolding begin admit Maps.get text_eq is_in new_replay_state Maps.put
oldest_goes = refl

begin_lem_example :
    IsValid (begin full_table (codes "s") three_messages).1
    × (len (begin full_table (codes "s") three_messages).1 ≤ full_table.capacity)
    × ((begin full_table (codes "s") three_messages).1.order
        ≡ order_after full_table.capacity (codes "s") full_table.order)
    × ((j : Bytes)
        → j ≢ codes "s"
        → is_in j (begin full_table (codes "s") three_messages).1.order ≡ true
        → Maps.get (begin full_table (codes "s") three_messages).1.sessions j
          ≡ Maps.get full_table.sessions j)
    × ((j : Bytes) (el : ℕ)
        → j ≢ codes "s"
        → Maps.get (begin full_table (codes "s") three_messages).1.sessions j ≡ some el
        → (begin full_table (codes "s") three_messages).1.heap el ≡ full_table.heap el)
    × ((begin (begin full_table (codes "s") three_messages).1 (codes "s") none).0.first ≡ false)
    × ((begin (begin full_table (codes "s") three_messages).1 (codes "s") none).0.floor
        ≡ message_count three_messages)
    × ((begin (begin full_table (codes "s") three_messages).1 (codes "s") none).0.turn
        ≡ (begin full_table (codes "s") three_messages).0.turn + 1)
begin_lem_example = begin_lem full_table (codes "s") three_messages none full_table-IsValid

abbrev hash_of : ℕ → StructuralHash
hash_of n = record { system = 1; tools = 2; early_messages = some 3 ∷ (some n ∷ []) }

observe_again_example :
    ((observe
        (observe (new_drift_state (pos 8)) (codes "s") (hash_of 4)).1
        (codes "s")
        (hash_of 5)).0.first_request
      ≡ false)
    × ((has_drifted
            (observe
              (observe (new_drift_state (pos 8)) (codes "s") (hash_of 4)).1
              (codes "s")
              (hash_of 5)).0
          ≡ false)
        ↔ PrefixHeld (hash_of 4) (hash_of 5))
observe_again_example = observe_again (new_drift_state (pos 8)) (codes "s") (hash_of 4) (hash_of 5)
