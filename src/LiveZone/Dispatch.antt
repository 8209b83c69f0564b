-- ===== src/LiveZone/Dispatch.antt =====
-- internal/livezone/livezone.go: Dispatch, one request through the replay pass, the fresh pass over the
-- latest user message, and the splice.
pub mod Safe
pub mod Rounds
use headroom_go.Common.{
  ℕ, zero, suc, ◌+◌, ◌==◌, Bool, true, false, not, ◌&&◌, ◌||◌, List, [], ◌∷◌, ◌++◌, Option, none,
  some, Bytes, codes, text_eq, if◌then◌else◌,
}
use headroom_go.Common.Maps.{Map}
use headroom_go.Ccr.Store.{Prog, done, ◌>>=◌, ◌>>◌, store_put}
use headroom_go.CacheControl.{compute_frozen_count}
use headroom_go.CacheStab.Replay.{ReplayState, SessionReplay, remember}
use headroom_go.Json.{Json, member, elements, is_object}
use headroom_go.ToolPairs.Index.{ToolUse, index}
use headroom_go.LiveZone.Splice.{Replacement, Range, apply_replacements}
use headroom_go.LiveZone.Plan.{
  SlotKind, compressible, string_content, hot_zone, below_threshold, image, unreachable, PlanSlot,
  find_latest_user_message, plan_blocks,
}
use headroom_go.LiveZone.Compress.{BlockResult, compress_block}
use headroom_go.LiveZone.Context.{block_context}
use headroom_go.LiveZone.Pass.{
  Reason, ok, not_json, no_messages, no_live_zone, no_candidates, all_rejected, BlockOutcome,
  Result, Host, Options, Pass, store_resolves, media_type, outcome_of, note, replace, claimed,
  record_for, image_replay_key,
}
use headroom_go.LiveZone.Replay.{replay_all}

passthrough : Bytes → Reason → ℕ → Result
passthrough body reason frozen = record {
  body = body;
  applied = false;
  reason = reason;
  frozen_count = frozen;
  rewritten = [];
  blocks = [];
  tokens_before = 0;
  tokens_after = 0;
}

module _ (host : Host) (opts : Options host.fl) (root : Option Json) where
  -- The end of a round over a text block that was accepted: it is replaced.
  rewritten_text : PlanSlot → BlockResult → Pass → Pass
  rewritten_text s br p = replace s br.replacement br.tokens_before br.tokens_after p

  -- What is noted of a text block.
  text_outcome : ℕ → PlanSlot → BlockResult → BlockOutcome
  text_outcome msg_idx s br = record {
    message_index = msg_idx;
    index = s.block_index;
    block_type = s.block_type;
    action = br.action;
    strategy = br.strategy;
    tokens_before = br.tokens_before;
    tokens_after = br.tokens_after;
    cache_key = br.cache_key;
    content_index = s.content_index;
  }

  -- The round over a text block, after compressBlock.
  fresh_text : ℕ → PlanSlot → Pass → BlockResult → Prog Pass
  fresh_text msg_idx s p br =
      let o = text_outcome msg_idx s br in
      let unresolvable : BlockOutcome = record o { action = codes "store_unresolvable" } in
      let p' : Pass = record p {
        candidate = p.candidate || text_eq br.action (codes "rejected_tokens");
      } in
      if not br.accepted
      then done (note o p')
      else if opts.has_store && not (text_eq br.cache_key [])
      then (store_put br.cache_key s.text
          >> store_resolves br.cache_key s.text br.replacement
          >>= λ fine. done (
              if fine
              then rewritten_text s br
                  (record_for opts.replay br.cache_key br.replacement (note o p'))
              else note unresolvable p'))
      else done (rewritten_text s br (note o p'))

  -- The round over an image.
  fresh_image : ℕ → PlanSlot → Pass → Pass
  fresh_image msg_idx s p =
      let media = media_type root msg_idx s.block_index s.content_index in
      let refused = note (outcome_of msg_idx s (codes "image_declined")) p in
      if not opts.image_fit then refused else elim (host.fit_image s.text media) [
        | none ↦ refused
        | some (new_b64, b, a) ↦ replace s new_b64 b a (
            record_for opts.replay (image_replay_key host.sums media s.text) new_b64 (
              note
                (record (outcome_of msg_idx s (codes "image_resized")) {
                  tokens_before = b;
                  tokens_after = a;
                })
                p))
      ]

  text_block : Map ToolUse → ℕ → PlanSlot → Pass → Prog Pass
  text_block tools msg_idx s p =
      compress_block host.sums host.fl opts.count_text opts.router opts.has_store s.text
        (block_context host.parse opts.query tools s.tool_use_id)
      >>= fresh_text msg_idx s p

  -- The round over a slot that no replay claimed, by its kind.
  fresh_kind : Map ToolUse → ℕ → PlanSlot → Pass → SlotKind → Prog Pass
  fresh_kind tools msg_idx s p hot_zone = done (note (outcome_of msg_idx s (codes "hot_zone")) p)
  fresh_kind tools msg_idx s p below_threshold =
      done (note (outcome_of msg_idx s (codes "below_threshold")) p)
  fresh_kind tools msg_idx s p unreachable =
      done (note (outcome_of msg_idx s (codes "unreachable")) p)
  fresh_kind tools msg_idx s p image = done (fresh_image msg_idx s p)
  fresh_kind tools msg_idx s p compressible = text_block tools msg_idx s p
  fresh_kind tools msg_idx s p string_content = text_block tools msg_idx s p

  unfoldable pub fresh_slot : List Replacement → Map ToolUse → ℕ → PlanSlot → Pass → Prog Pass
  unfolding fresh_kind text_block fresh_text fresh_image rewritten_text text_outcome
  fresh_slot replays tools msg_idx s p =
      if claimed replays s.start then done p else fresh_kind tools msg_idx s p s.kind

  unfoldable pub fresh_slots : List Replacement → Map ToolUse → ℕ → List PlanSlot → Pass → Prog Pass
  fresh_slots replays tools msg_idx [] p = done p
  fresh_slots replays tools msg_idx (s ∷ ss) p =
      fresh_slot replays tools msg_idx s p >>= fresh_slots replays tools msg_idx ss

  fresh_pass : Option ℕ → Pass → Prog Pass
  fresh_pass none p = done p
  fresh_pass (some msg_idx) p = fresh_slots p.reps (index root) msg_idx (plan_blocks root msg_idx) p

  -- The end of a request with nothing to replace, by the slots of the live zone.
  unchanged_slots : Bytes → ℕ → Pass → List PlanSlot → Result
  unchanged_slots body frozen p [] = passthrough body no_candidates frozen
  unchanged_slots body frozen p (s ∷ ss) =
      record (passthrough body (if p.candidate then all_rejected else no_candidates) frozen) {
        blocks = p.outcomes;
      }

  unchanged : Bytes → ℕ → Option ℕ → Pass → Result
  unchanged body frozen none p = passthrough body no_live_zone frozen
  unchanged body frozen (some msg_idx) p = unchanged_slots body frozen p (plan_blocks root msg_idx)

  finish : Bytes → ℕ → Option ℕ → Pass → List Replacement → Result
  finish body frozen live p [] = unchanged body frozen live p
  finish body frozen live p (r ∷ reps) =
      let (out, ranges) = apply_replacements body (r ∷ reps) in
      record {
        body = out;
        applied = true;
        reason = ok;
        frozen_count = frozen;
        rewritten = ranges;
        blocks = p.outcomes;
        tokens_before = p.before;
        tokens_after = p.after;
      }

  abbrev pub floor : ℕ
  floor = elim opts.frozen_count [ some n ↦ n | none ↦ (compute_frozen_count root).0 ]

  passes : Bytes → List Json → ReplayState → Prog (Result × ReplayState)
  passes body msgs st =
      let live = find_latest_user_message root floor in
      replay_all host opts root msgs (record {
        reps = [];
        outcomes = [];
        before = 0;
        after = 0;
        candidate = false;
        replays = st;
      })
      >>= (λ p. fresh_pass live p)
      >>= (λ p. done (finish body floor live p p.reps, p.replays))

module _ (host : Host) where
  unfoldable pub dispatch : Options host.fl → Bytes → ReplayState → Prog (Result × ReplayState)
  unfolding passes finish unchanged unchanged_slots fresh_pass passthrough
  dispatch opts body st =
      let root = host.parse body in
      if not (is_object root)
      then done (passthrough body not_json 0, st)
      else elim (elements (member (codes "messages") root)) [
        | none ↦ done (passthrough body no_messages 0, st)
        | some msgs ↦ passes host opts root body msgs st
      ]
