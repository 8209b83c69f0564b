-- ===== src/LiveZone/Replay.antt =====
-- internal/livezone/replay.go: what this session compressed before is reproduced everywhere in the body.
pub mod Keeps
pub mod Rounds
use headroom_go.Common.{
  ℕ, zero, suc, ◌+◌, ◌==◌, Bool, true, false, not, ◌&&◌, ◌||◌, List, [], ◌∷◌, ◌++◌, Option, none,
  some, Bytes, codes, text_eq, contains, if◌then◌else◌,
}
use headroom_go.Ccr.Key.{HashSums, compute_key, compute_key_md5}
use headroom_go.Ccr.Store.{Prog, done, ◌>>=◌, ◌>>◌, store_put}
use headroom_go.CacheStab.Replay.{ReplayState, SessionReplay, lookup, forget}
use headroom_go.Json.{Json, member, elements}
use headroom_go.LiveZone.Plan.{
  SlotKind, compressible, string_content, hot_zone, below_threshold, image, unreachable, PlanSlot,
  writes, plan_blocks,
}
use headroom_go.LiveZone.Pass.{
  BlockOutcome, Host, Options, Pass, store_resolves, media_type, outcome_of, note, replace,
  image_replay_key,
}

is_image : SlotKind → Bool
is_image image = true
is_image _ = false

set_replays : ReplayState → Pass → Pass
set_replays st p = record p { replays = st }

module _ (host : Host) (opts : Options host.fl) (root : Option Json) where
  -- The end of a round that replays.
  replayed : ℕ → PlanSlot → Bytes → Bytes → Pass → Pass
  replayed msg_idx s hash compressed p =
      let count = if is_image s.kind then host.visual_tokens else opts.count_text in
      note
        (record (outcome_of msg_idx s (codes "replayed")) {
          tokens_before = count s.text;
          tokens_after = count compressed;
          cache_key = hash;
        })
        (replace s compressed (count s.text) (count compressed) p)

  -- The end of a round whose marker the store does not resolve.
  declined : SessionReplay → ℕ → PlanSlot → Bytes → Pass → Pass
  declined h msg_idx s hash p =
      note (record (outcome_of msg_idx s (codes "store_unresolvable")) { cache_key = hash })
        (set_replays (forget h hash p.replays) p)

  -- The originals are put again under the keys that the compressed text names.
  refresh : PlanSlot → Bytes → Bytes → Prog Bool
  refresh s hash compressed =
      let md5 = compute_key_md5 host.sums s.text in
      store_put hash s.text
      >> (if contains compressed md5 then store_put md5 s.text else done tt)
      >> store_resolves hash s.text compressed

  replay_hit : SessionReplay → ℕ → PlanSlot → Bytes → Bytes → Pass → Prog Pass
  replay_hit h msg_idx s hash compressed p =
      if not (is_image s.kind) && opts.has_store
      then (refresh s hash compressed >>= λ fine.
          done (if fine then replayed msg_idx s hash compressed p else declined h msg_idx s hash p))
      else done (replayed msg_idx s hash compressed p)

  replay_key : ℕ → PlanSlot → Bytes
  replay_key msg_idx s =
      if is_image s.kind
      then image_replay_key host.sums (media_type root msg_idx s.block_index s.content_index) s.text
      else compute_key host.sums s.text

  after_lookup :
      SessionReplay → ℕ → PlanSlot → Bytes → Pass → Option Bytes × ReplayState → Prog Pass
  after_lookup h msg_idx s hash p (none, st) = done (set_replays st p)
  after_lookup h msg_idx s hash p (some compressed, st) =
      replay_hit h msg_idx s hash compressed (set_replays st p)

  unfoldable pub replay_slot : SessionReplay → ℕ → PlanSlot → Pass → Prog Pass
  unfolding after_lookup replay_hit replayed declined refresh replay_key is_image set_replays
  replay_slot h msg_idx s p =
      let hash = replay_key msg_idx s in
      if writes s then after_lookup h msg_idx s hash p (lookup h hash p.replays) else done p

  unfoldable pub replay_slots : SessionReplay → ℕ → List PlanSlot → Pass → Prog Pass
  replay_slots h msg_idx [] p = done p
  replay_slots h msg_idx (s ∷ ss) p = replay_slot h msg_idx s p >>= replay_slots h msg_idx ss

  unfoldable pub replay_messages : SessionReplay → ℕ → List Json → Pass → Prog Pass
  replay_messages h msg_idx [] p = done p
  replay_messages h msg_idx (msg ∷ msgs) p =
      replay_slots h msg_idx (plan_blocks root msg_idx) p >>= replay_messages h (msg_idx + 1) msgs

  -- A nil Replay replays nothing.
  replay_for : Option SessionReplay → List Json → Pass → Prog Pass
  replay_for none msgs p = done p
  replay_for (some h) msgs p = replay_messages h 0 msgs p

  unfoldable pub replay_all : List Json → Pass → Prog Pass
  unfolding replay_for
  replay_all msgs p = replay_for opts.replay msgs p
