-- ===== src/LiveZone/Replay/Keeps.antt =====
-- The replay pass replaces only what may be replaced.
use headroom_go.Common.{
  ℕ, ◌+◌, ◌≡◌, inl, inr, refl, Bool, Bool-cases, true, false, not, ◌&&◌, List, [], ◌∷◌, Option,
  none, some, Bytes, is_some, if◌then◌else◌, All,
}
use headroom_go.Ccr.Store.{Prog}
use headroom_go.Ccr.Store.Outcome.{Log, Outcome, Outcome-bind, Outcome-then}
use headroom_go.CacheStab.Replay.{ReplayState, SessionReplay}
use headroom_go.Json.{Json}
use headroom_go.LiveZone.Plan.{PlanSlot, writes, plan_blocks}
use headroom_go.LiveZone.Pass.{Host, Options, Pass, note}
use headroom_go.LiveZone.Planned.{Among, All-Among, Inv, replace-Inv}
use headroom_go.LiveZone.Replay.{
  is_image, set_replays, replayed, declined, refresh, replay_hit, after_lookup, replay_slot,
  replay_slots, replay_messages, replay_for, replay_all,
}

module _ (host : Host) (opts : Options host.fl) (root : Option Json) (Reached : ℕ → Type 0) where
  abbrev Keeps : Prog Pass → Log → Type 0
  Keeps m log = Outcome (λ log' q. Inv root Reached q) log m

  replay_hit-Inv :
      (h : SessionReplay) (k : ℕ) (s : PlanSlot) (hash compressed : Bytes) (p : Pass) (log : Log)
      → Reached k
      → Among s (plan_blocks root k)
      → writes s ≡ true
      → Inv root Reached p
      → Keeps (replay_hit host opts root h k s hash compressed p) log
  unfolding replay_hit
  replay_hit-Inv h k s hash compressed p log reached among may inv =
      elim (Bool-cases (not (is_image s.kind) && opts.has_store)) [
        | inl stored ↦ rw stored (
            Outcome-then _ (refresh host opts root s hash compressed) _ log
              (λ log' fine. by_store fine))
        | inr kept ↦ rw kept by_replay
      ]
    where
      by_replay : Inv root Reached (replayed host opts root k s hash compressed p)
      by_replay =
          unfold replayed note in
          replace-Inv root Reached k s compressed _ _ p reached among may inv

      by_store :
          (fine : Bool)
          → Inv root Reached (
              if fine
              then replayed host opts root k s hash compressed p
              else declined host opts root h k s hash p)
      by_store true = by_replay
      by_store false = unfold declined note set_replays in inv

  after_lookup-Inv :
      (h : SessionReplay) (k : ℕ) (s : PlanSlot) (hash : Bytes) (p : Pass) (log : Log)
      (found : Option Bytes × ReplayState)
      → Reached k
      → Among s (plan_blocks root k)
      → writes s ≡ true
      → Inv root Reached p
      → Keeps (after_lookup host opts root h k s hash p found) log
  unfolding after_lookup set_replays
  after_lookup-Inv h k s hash p log (none, st) reached among may inv = inv
  after_lookup-Inv h k s hash p log (some compressed, st) reached among may inv =
      replay_hit-Inv h k s hash compressed _ log reached among may inv

  replay_slots-Inv :
      (h : SessionReplay) (k : ℕ) (ss : List PlanSlot) (p : Pass) (log : Log)
      → Reached k
      → All (λ s. Among s (plan_blocks root k)) ss
      → Inv root Reached p
      → Keeps (replay_slots host opts root h k ss p) log
  unfolding replay_slots replay_slot
  replay_slots-Inv h k [] p log reached among inv = inv
  replay_slots-Inv h k (s ∷ ss) p log reached among inv =
      Outcome-bind (λ log' q. Inv root Reached q) (λ log' q. Inv root Reached q)
        (replay_slot host opts root h k s p) _ log one
        (λ log' q kept. replay_slots-Inv h k ss q log' reached among.1 kept)
    where
      one : Keeps (replay_slot host opts root h k s p) log
      one = elim (Bool-cases (writes s)) [
        | inl may ↦ rw (may, replay_slot) (after_lookup-Inv h k s _ p log _ reached among.0 may inv)
        | inr other ↦ rw (other, replay_slot) inv
      ]

  replay_messages-Inv :
      (h : SessionReplay) (k : ℕ) (msgs : List Json) (p : Pass) (log : Log)
      → ((k : ℕ) → Reached k)
      → Inv root Reached p
      → Keeps (replay_messages host opts root h k msgs p) log
  unfolding replay_messages
  replay_messages-Inv h k [] p log has inv = inv
  replay_messages-Inv h k (msg ∷ msgs) p log has inv =
      Outcome-bind (λ log' q. Inv root Reached q) (λ log' q. Inv root Reached q)
        (replay_slots host opts root h k (plan_blocks root k) p) _ log
        (replay_slots-Inv h k (plan_blocks root k) p log (has k) (All-Among (plan_blocks root k))
          inv)
        (λ log' q kept. replay_messages-Inv h (k + 1) msgs q log' has kept)

  replay_for-Inv :
      (o : Option SessionReplay) (msgs : List Json) (p : Pass) (log : Log)
      → (is_some o ≡ true → (k : ℕ) → Reached k)
      → Inv root Reached p
      → Keeps (replay_for host opts root o msgs p) log
  unfolding replay_for
  replay_for-Inv none msgs p log has inv = inv
  replay_for-Inv (some h) msgs p log has inv = replay_messages-Inv h 0 msgs p log (has refl) inv

  pub replay_all-Inv :
      (msgs : List Json) (p : Pass) (log : Log)
      → (is_some opts.replay ≡ true → (k : ℕ) → Reached k)
      → Inv root Reached p
      → Keeps (replay_all host opts root msgs p) log
  unfolding replay_all
  replay_all-Inv msgs p log has inv = replay_for-Inv opts.replay msgs p log has inv
