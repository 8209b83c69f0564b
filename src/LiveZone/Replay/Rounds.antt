-- ===== src/LiveZone/Replay/Rounds.antt =====
-- What the replay pass adds.
use headroom_go.Common.{
  ℕ, ◌+◌, refl, Bool, Bool-cases, inl, inr, true, false, not, ◌&&◌, List, [], ◌∷◌, ◌++◌, Option,
  none, some, Bytes, text_eq, if◌then◌else◌,
}
use headroom_go.Ccr.Store.{Prog, ◌>>=◌}
use headroom_go.Ccr.Store.Outcome.{Log, Outcome, Outcome-bind, Outcome-then, Outcome-weaken}
use headroom_go.CacheStab.Replay.{ReplayState, SessionReplay, lookup}
use headroom_go.Json.{Json}
use headroom_go.LiveZone.Plan.{PlanSlot, writes, plan_blocks}
use headroom_go.LiveZone.Plan.Spans.{writable, writable-append}
use headroom_go.LiveZone.Pass.{Host, Options, Pass, note, replace, outcome_of}
use headroom_go.LiveZone.Steps.{Steps, Steps-append, still-Steps, quiet-Steps, take-Steps}
use headroom_go.LiveZone.Replay.{
  is_image, set_replays, replayed, declined, refresh, replay_hit, replay_key, after_lookup,
  replay_slot, replay_slots, replay_messages, replay_for, replay_all,
}

-- The slots of the messages from `k` on that may be written.
abbrev pub slots_from : Option Json → ℕ → List Json → List PlanSlot
slots_from root k [] = []
slots_from root k (msg ∷ msgs) = writable (plan_blocks root k) ++ slots_from root (k + 1) msgs

module _ (host : Host) (opts : Options host.fl) (root : Option Json) where
  abbrev pub Adds : List PlanSlot → Pass → Prog Pass → Log → Type 0
  Adds ss p m log = Outcome (λ log' q. Steps ss p q) log m

  replay_hit-Steps :
      (h : SessionReplay) (k : ℕ) (s : PlanSlot) (hash compressed : Bytes) (p : Pass) (log : Log)
      → Adds (s ∷ []) p (replay_hit host opts root h k s hash compressed p) log
  unfolding replay_hit
  replay_hit-Steps h k s hash compressed p log =
      elim (Bool-cases (not (is_image s.kind) && opts.has_store)) [
        | inl stored ↦ rw stored (
            Outcome-then _ (refresh host opts root s hash compressed) _ log
              (λ log' fine. by_store fine))
        | inr kept ↦ rw kept by_replay
      ]
    where
      by_replay : Steps (s ∷ []) p (replayed host opts root k s hash compressed p)
      by_replay =
          unfold replayed note replace outcome_of text_eq in
          take-Steps s p _ (record { start = s.start; end = s.end; repl = _ }) _ (refl, refl) refl
            refl refl

      by_store :
          (fine : Bool)
          → Steps (s ∷ []) p (
              if fine
              then replayed host opts root k s hash compressed p
              else declined host opts root h k s hash p)
      by_store true = by_replay
      by_store false =
          unfold declined note set_replays outcome_of text_eq in
          quiet-Steps (s ∷ []) p _ _ refl refl refl

  after_lookup-Steps :
      (h : SessionReplay) (k : ℕ) (s : PlanSlot) (hash : Bytes) (p : Pass) (log : Log)
      (found : Option Bytes × ReplayState)
      → Adds (s ∷ []) p (after_lookup host opts root h k s hash p found) log
  unfolding after_lookup set_replays
  after_lookup-Steps h k s hash p log (none, st) = still-Steps (s ∷ []) p _ refl refl
  after_lookup-Steps h k s hash p log (some compressed, st) =
      Outcome-weaken (λ log' q. Steps (s ∷ []) (set_replays st p) q) (λ log' q. Steps (s ∷ []) p q)
        (replay_hit host opts root h k s hash compressed (set_replays st p)) log
        (λ log' q x. record {
          new = x.new;
          added = x.added;
          picked = x.picked;
          counted = x.counted;
        })
        (replay_hit-Steps h k s hash compressed (set_replays st p) log)

  replay_slot-Steps :
      (h : SessionReplay) (k : ℕ) (s : PlanSlot) (p : Pass) (log : Log)
      → Adds (writable (s ∷ [])) p (replay_slot host opts root h k s p) log
  unfolding replay_slot
  replay_slot-Steps h k s p log = elim (Bool-cases (writes s)) [
    | inl may ↦
        rw (may, replay_slot)
          (after_lookup-Steps h k s (replay_key host opts root k s) p log
            (lookup h (replay_key host opts root k s) p.replays))
    | inr other ↦ rw (other, replay_slot) (still-Steps [] p p refl refl)
  ]

  -- One part of a pass after another.
  pub in_turn :
      (xs ys : List PlanSlot) (p : Pass) (m : Prog Pass) (f : Pass → Prog Pass) (log : Log)
      → Adds xs p m log
      → ((log' : Log) (q : Pass) → Adds ys q (f q) log')
      → Adds (xs ++ ys) p (m >>= f) log
  in_turn xs ys p m f log h k =
      Outcome-bind (λ log' q. Steps xs p q) (λ log' r. Steps (xs ++ ys) p r) m f log h
        (λ log' q x.
          Outcome-weaken (λ log' r. Steps ys q r) (λ log' r. Steps (xs ++ ys) p r) (f q) log'
            (λ log'' r y. Steps-append xs ys p q r x y) (k log' q))

  replay_slots-Steps :
      (h : SessionReplay) (k : ℕ) (ss : List PlanSlot) (p : Pass) (log : Log)
      → Adds (writable ss) p (replay_slots host opts root h k ss p) log
  unfolding replay_slots
  replay_slots-Steps h k [] p log = still-Steps [] p p refl refl
  replay_slots-Steps h k (s ∷ ss) p log = rw (writable-append (s ∷ []) ss) (
      in_turn (writable (s ∷ [])) (writable ss) p (replay_slot host opts root h k s p)
        (replay_slots host opts root h k ss) log (replay_slot-Steps h k s p log)
        (λ log' q. replay_slots-Steps h k ss q log'))

  replay_messages-Steps :
      (h : SessionReplay) (k : ℕ) (msgs : List Json) (p : Pass) (log : Log)
      → Adds (slots_from root k msgs) p (replay_messages host opts root h k msgs p) log
  unfolding replay_messages
  replay_messages-Steps h k [] p log = still-Steps [] p p refl refl
  replay_messages-Steps h k (msg ∷ msgs) p log =
      in_turn (writable (plan_blocks root k)) (slots_from root (k + 1) msgs) p
        (replay_slots host opts root h k (plan_blocks root k) p)
        (replay_messages host opts root h (k + 1) msgs) log
        (replay_slots-Steps h k (plan_blocks root k) p log)
        (λ log' q. replay_messages-Steps h (k + 1) msgs q log')

  replay_for-Steps :
      (o : Option SessionReplay) (msgs : List Json) (p : Pass) (log : Log)
      → Adds (slots_from root 0 msgs) p (replay_for host opts root o msgs p) log
  unfolding replay_for
  replay_for-Steps none msgs p log = still-Steps (slots_from root 0 msgs) p p refl refl
  replay_for-Steps (some h) msgs p log = replay_messages-Steps h 0 msgs p log

  pub replay_all-Steps :
      (msgs : List Json) (p : Pass) (log : Log)
      → Adds (slots_from root 0 msgs) p (replay_all host opts root msgs p) log
  unfolding replay_all
  replay_all-Steps msgs p log = replay_for-Steps opts.replay msgs p log
