-- ===== src/LiveZone/Dispatch/Safe.antt =====
-- What a request keeps of its body.
use headroom_go.Common.{
  ℕ, ◌≡◌, ◌⊎◌, inl, inr, refl, Bool, Bool-cases, Option-cases, true, false, not, ◌&&◌, List, [],
  ◌∷◌, Option, none, some, Bytes, codes, is_some, arith, text_eq, if◌then◌else◌, All,
}
use headroom_go.Common.Maps.{Map}
use headroom_go.Ccr.Store.{Prog, ◌>>=◌, ◌>>◌, store_put}
use headroom_go.Ccr.Store.Outcome.{Log, Outcome, Outcome-bind, Outcome-then}
use headroom_go.CacheStab.Replay.{ReplayState, SessionReplay}
use headroom_go.Json.{Json, member, elements, is_object}
use headroom_go.ToolPairs.Index.{ToolUse, index}
use headroom_go.LiveZone.Splice.{Replacement, apply_replacements}
use headroom_go.LiveZone.Splice.Lockstep.{IsSplice, apply_replacements-IsSplice}
use headroom_go.LiveZone.Plan.{
  SlotKind, compressible, string_content, hot_zone, below_threshold, image, unreachable, PlanSlot,
  writes, find_latest_user_message, plan_blocks,
}
use headroom_go.LiveZone.Compress.{BlockResult, compress_block}
use headroom_go.LiveZone.Pass.{
  Result, Host, Options, Pass, store_resolves, media_type, note, claimed, record_for,
}
use headroom_go.LiveZone.Planned.{Among, All-Among, IsPlanned, Inv, replace-Inv}
use headroom_go.LiveZone.Replay.{replay_all}
use headroom_go.LiveZone.Replay.Keeps.{replay_all-Inv}
use headroom_go.LiveZone.Dispatch.{
  passthrough, rewritten_text, fresh_text, fresh_image, text_block, fresh_kind, fresh_slot,
  fresh_slots, fresh_pass, unchanged_slots, unchanged, finish, floor, passes, dispatch,
}

record_for-Inv :
    (root : Option Json) (Reached : ℕ → Type 0) (o : Option SessionReplay) (hash compressed : Bytes)
    (p : Pass)
    → Inv root Reached p
    → Inv root Reached (record_for o hash compressed p)
unfolding record_for
record_for-Inv root Reached none hash compressed p inv = inv
record_for-Inv root Reached (some h) hash compressed p inv = inv

module _ (host : Host) (opts : Options host.fl) (root : Option Json) (Reached : ℕ → Type 0) where
  abbrev Keeps : Prog Pass → Log → Type 0
  Keeps m log = Outcome (λ log' q. Inv root Reached q) log m

  if_Inv :
      (c : Bool) (x y : Pass)
      → Inv root Reached x
      → Inv root Reached y
      → Inv root Reached (if c then x else y)
  if_Inv true x y a b = a
  if_Inv false x y a b = b

  -- The result of a round over a text block.
  fresh_text-Inv :
      (k : ℕ) (s : PlanSlot) (p : Pass) (br : BlockResult) (log : Log)
      → Reached k
      → Among s (plan_blocks root k)
      → writes s ≡ true
      → Inv root Reached p
      → Keeps (fresh_text host opts root k s p br) log
  unfolding fresh_text rewritten_text note
  fresh_text-Inv k s p br log reached among may inv = elim (Bool-cases (not br.accepted)) [
    | inl refused ↦ rw refused inv
    | inr accepted ↦ elim (Bool-cases (opts.has_store && not (text_eq br.cache_key []))) [
      | inr no_store ↦
          rw (accepted, no_store) (replace-Inv root Reached k s _ _ _ _ reached among may inv)
      | inl stored ↦
          rw (accepted, stored)
            (Outcome-then _
              (store_put br.cache_key s.text >> store_resolves br.cache_key s.text br.replacement) _
              log
              (λ log' fine.
                if_Inv fine _ _
                  (replace-Inv root Reached k s br.replacement br.tokens_before br.tokens_after _
                    reached among may
                    (record_for-Inv root Reached opts.replay br.cache_key br.replacement _ inv))
                  inv))
    ]
  ]

  fresh_image-Inv :
      (k : ℕ) (s : PlanSlot) (p : Pass)
      → Reached k
      → Among s (plan_blocks root k)
      → writes s ≡ true
      → Inv root Reached p
      → Inv root Reached (fresh_image host opts root k s p)
  unfolding fresh_image note
  fresh_image-Inv k s p reached among may inv = elim (Bool-cases opts.image_fit) [
    | inr off ↦ rw off inv
    | inl on ↦
        elim (Option-cases
          (host.fit_image s.text (media_type root k s.block_index s.content_index))) [
            | inl unfit ↦ rw (on, unfit) inv
            | inr ((new_b64, b, a), fit) ↦
                rw (on, fit)
                  (replace-Inv root Reached k s new_b64 b a _ reached among may
                    (record_for-Inv root Reached opts.replay _ new_b64 _ inv))
          ]
  ]

  text_block-Inv :
      (tools : Map ToolUse) (k : ℕ) (s : PlanSlot) (p : Pass) (log : Log)
      → Reached k
      → Among s (plan_blocks root k)
      → writes s ≡ true
      → Inv root Reached p
      → Keeps (text_block host opts root tools k s p) log
  unfolding text_block
  text_block-Inv tools k s p log reached among may inv =
      Outcome-then _
        (compress_block host.sums host.fl opts.count_text opts.router opts.has_store s.text _) _ log
        (λ log' br. fresh_text-Inv k s p br log' reached among may inv)

  fresh_kind-Inv :
      (tools : Map ToolUse) (k : ℕ) (s : PlanSlot) (p : Pass) (kind : SlotKind) (log : Log)
      → s.kind ≡ kind
      → Reached k
      → Among s (plan_blocks root k)
      → Inv root Reached p
      → Keeps (fresh_kind host opts root tools k s p kind) log
  unfolding fresh_kind note
  fresh_kind-Inv tools k s p hot_zone log e reached among inv = inv
  fresh_kind-Inv tools k s p below_threshold log e reached among inv = inv
  fresh_kind-Inv tools k s p unreachable log e reached among inv = inv
  fresh_kind-Inv tools k s p image log e reached among inv =
      fresh_image-Inv k s p reached among (rw e refl) inv
  fresh_kind-Inv tools k s p compressible log e reached among inv =
      text_block-Inv tools k s p log reached among (rw e refl) inv
  fresh_kind-Inv tools k s p string_content log e reached among inv =
      text_block-Inv tools k s p log reached among (rw e refl) inv

  fresh_slot-Inv :
      (replays : List Replacement) (tools : Map ToolUse) (k : ℕ) (s : PlanSlot) (p : Pass)
      (log : Log)
      → Reached k
      → Among s (plan_blocks root k)
      → Inv root Reached p
      → Keeps (fresh_slot host opts root replays tools k s p) log
  unfolding fresh_slot
  fresh_slot-Inv replays tools k s p log reached among inv =
      elim (Bool-cases (claimed replays s.start)) [
        | inl done_before ↦ rw (done_before, fresh_slot) inv
        | inr open_slot ↦
            rw (open_slot, fresh_slot)
              (fresh_kind-Inv tools k s p s.kind log refl reached among inv)
      ]

  fresh_slots-Inv :
      (replays : List Replacement) (tools : Map ToolUse) (k : ℕ) (ss : List PlanSlot) (p : Pass)
      (log : Log)
      → Reached k
      → All (λ s. Among s (plan_blocks root k)) ss
      → Inv root Reached p
      → Keeps (fresh_slots host opts root replays tools k ss p) log
  unfolding fresh_slots
  fresh_slots-Inv replays tools k [] p log reached among inv = inv
  fresh_slots-Inv replays tools k (s ∷ ss) p log reached among inv =
      Outcome-bind (λ log' q. Inv root Reached q) (λ log' q. Inv root Reached q)
        (fresh_slot host opts root replays tools k s p) _ log
        (fresh_slot-Inv replays tools k s p log reached among.0 inv)
        (λ log' q kept. fresh_slots-Inv replays tools k ss q log' reached among.1 kept)

  fresh_pass-Inv :
      (live : Option ℕ) (p : Pass) (log : Log)
      → ((k : ℕ) → live ≡ some k → Reached k)
      → Inv root Reached p
      → Keeps (fresh_pass host opts root live p) log
  unfolding fresh_pass
  fresh_pass-Inv none p log reached inv = inv
  fresh_pass-Inv (some k) p log reached inv =
      fresh_slots-Inv p.reps (index root) k (plan_blocks root k) p log (reached k refl)
        (All-Among (plan_blocks root k)) inv

-- The messages that a request may rewrite: the latest user message at or above the floor, and with a
-- replay every message.
abbrev pub Reachable : (host : Host) → Options host.fl → Option Json → ℕ → Type 0
Reachable host opts root k =
    (is_some opts.replay ≡ true) ⊎ (find_latest_user_message root (floor host opts root) ≡ some k)

-- The output is the input with planned replacements spliced in, and is the input itself if the result
-- says that nothing was applied.
pub record IsDispatched (host : Host) (opts : Options host.fl) (body : Bytes) (r : Result)
    : Type 0 where
  pub reps : List Replacement
  pub planned : All (IsPlanned (host.parse body) (Reachable host opts (host.parse body))) reps
  pub splice : IsSplice body reps (r.body, r.rewritten)
  pub same : r.applied ≡ false → (r.body ≡ body) × (r.rewritten ≡ [])

module _ (host : Host) (opts : Options host.fl) (body : Bytes) where
  passthrough-IsDispatched :
      (r : Result) → r.body ≡ body → r.rewritten ≡ [] → IsDispatched host opts body r
  unfolding apply_replacements
  passthrough-IsDispatched r e f = record {
    reps = [];
    planned = tt;
    splice = rw (e, f) (apply_replacements-IsSplice body []);
    same = λ x. (e, f);
  }

  unchanged-IsDispatched :
      (frozen : ℕ) (live : Option ℕ) (p : Pass)
      → IsDispatched host opts body (unchanged host opts (host.parse body) body frozen live p)
  unfolding unchanged passthrough
  unchanged-IsDispatched frozen none p = passthrough-IsDispatched _ refl refl
  unchanged-IsDispatched frozen (some k) p =
      let ends = by_slots (plan_blocks (host.parse body) k) in
      passthrough-IsDispatched _ ends.0 ends.1
    where
      by_slots :
          (ss : List PlanSlot)
          → ((unchanged_slots host opts (host.parse body) body frozen p ss).body ≡ body)
            × ((unchanged_slots host opts (host.parse body) body frozen p ss).rewritten ≡ [])
      by_slots [] = unfold unchanged_slots in (refl, refl)
      by_slots (s ∷ ss) = unfold unchanged_slots in (refl, refl)

  finish-IsDispatched :
      (frozen : ℕ) (live : Option ℕ) (p : Pass) (reps : List Replacement)
      → All (IsPlanned (host.parse body) (Reachable host opts (host.parse body))) reps
      → IsDispatched host opts body (finish host opts (host.parse body) body frozen live p reps)
  unfolding finish
  finish-IsDispatched frozen live p [] inv = unchanged-IsDispatched frozen live p
  finish-IsDispatched frozen live p (r ∷ reps) inv = record {
    reps = r ∷ reps;
    planned = inv;
    splice = apply_replacements-IsSplice body (r ∷ reps);
    same = λ e. absurd (ground (arith, e));
  }

  passes-IsDispatched :
      (msgs : List Json) (st : ReplayState) (log : Log)
      → Outcome
          (λ log' r. IsDispatched host opts body r.0)
          log
          (passes host opts (host.parse body) body msgs st)
  unfolding passes
  passes-IsDispatched msgs st log =
      Outcome-bind (λ log' q. Inv root (Reachable host opts root) q) _
        (replay_all host opts root msgs _ >>= (λ p. fresh_pass host opts root live p)) _ log
        (Outcome-bind (λ log' q. Inv root (Reachable host opts root) q)
          (λ log' q. Inv root (Reachable host opts root) q) (replay_all host opts root msgs _) _ log
          (replay_all-Inv host opts root (Reachable host opts root) msgs _ log (λ on k. inl on) tt)
          (λ log' q kept.
            fresh_pass-Inv host opts root (Reachable host opts root) live q log' (λ k e. inr e)
              kept))
        (λ log' q kept. finish-IsDispatched (floor host opts root) live q q.reps kept)
    where
      root : Option Json
      root = host.parse body

      live : Option ℕ
      live = find_latest_user_message root (floor host opts root)

  -- Whatever the transforms do and the store answers, the output of a request is its input with JSON
  -- strings in the place of some of the planned slots, each of a kind that may be written and in the
  -- latest user message at or above the frozen floor, or, with a replay, in any message; the reported
  -- ranges are these; every byte outside them is the input's; and a request that reports that nothing
  -- was applied returns the input itself.
  pub dispatch-IsDispatched :
      (st : ReplayState) (log : Log)
      → Outcome (λ log' r. IsDispatched host opts body r.0) log (dispatch host opts body st)
  unfolding dispatch passthrough
  dispatch-IsDispatched st log = elim (Bool-cases (is_object (host.parse body))) [
    | inr no_object ↦ rw (no_object, dispatch) (passthrough-IsDispatched _ refl refl)
    | inl object ↦ elim (Option-cases (elements (member (codes "messages") (host.parse body)))) [
      | inl no_list ↦ rw (object, no_list, dispatch) (passthrough-IsDispatched _ refl refl)
      | inr (msgs, list) ↦ rw (object, list, dispatch) (passes-IsDispatched msgs st log)
    ]
  ]
