-- ===== src/LiveZone/Dispatch/Rounds.antt =====
-- What the fresh pass adds.
pub mod Order
pub mod Reported
use headroom_go.Common.{
  ℕ, ◌+◌, ◌≡◌, refl, ap, sym, subst, ◌∙◌, Bool, Bool-cases, Option-cases, inl, inr, true, false,
  not, ◌&&◌, ◌||◌, List, [], ◌∷◌, ◌++◌, Option, none, some, Bytes, codes, text_eq, keep,
  if◌then◌else◌, arith,
}
use headroom_go.Common.Maps.{Map}
use headroom_go.Ccr.Store.{Prog, done, ◌>>=◌, ◌>>◌, store_put}
use headroom_go.Ccr.Store.Outcome.{Log, Outcome, Outcome-bind, Outcome-then}
use headroom_go.CacheStab.Replay.{SessionReplay}
use headroom_go.Json.{Json}
use headroom_go.ToolPairs.Index.{ToolUse, index}
use headroom_go.LiveZone.Splice.{Replacement}
use headroom_go.LiveZone.Plan.{
  SlotKind, compressible, string_content, hot_zone, below_threshold, image, unreachable, PlanSlot,
  writes, plan_blocks,
}
use headroom_go.LiveZone.Plan.Spans.{writable, writable-append}
use headroom_go.LiveZone.Compress.{BlockResult, compress_block}
use headroom_go.LiveZone.Compress.Acts.{Acts, compress_block-Acts}
use headroom_go.LiveZone.Context.{block_context}
use headroom_go.LiveZone.Encode.{encode_json_string}
use headroom_go.LiveZone.Pass.{
  BlockOutcome, Host, Options, Pass, store_resolves, media_type, outcome_of, note, replace, claimed,
  record_for, image_replay_key,
}
use headroom_go.LiveZone.Steps.{
  is_rewriting, is_rewrite, Steps, Steps-append, still-Steps, quiet-Steps, take-Steps,
}
use headroom_go.LiveZone.Replay.Rounds.{Adds, in_turn}
use headroom_go.LiveZone.Dispatch.{
  rewritten_text, text_outcome, fresh_text, fresh_image, text_block, fresh_kind, fresh_slot,
  fresh_slots, fresh_pass,
}

-- The slots that no replay claimed.
abbrev pub unclaimed : List Replacement → List PlanSlot → List PlanSlot
unclaimed replays = keep (λ s. not (claimed replays s.start))

-- The slots of the fresh pass.
abbrev pub fresh_of : Option Json → List Replacement → Option ℕ → List PlanSlot
fresh_of root replays none = []
fresh_of root replays (some k) = writable (unclaimed replays (plan_blocks root k))

record_for_same :
    (o : Option SessionReplay) (hash compressed : Bytes) (p : Pass)
    → ((record_for o hash compressed p).reps ≡ p.reps)
      × ((record_for o hash compressed p).outcomes ≡ p.outcomes)
unfolding record_for
record_for_same none hash compressed p = (refl, refl)
record_for_same (some h) hash compressed p = (refl, refl)

if_Steps :
    (c : Bool) (ss : List PlanSlot) (p x y : Pass)
    → Steps ss p x
    → Steps ss p y
    → Steps ss p (if c then x else y)
if_Steps true ss p x y a b = a
if_Steps false ss p x y a b = b

-- A slot is rewritten, and the rewrite recorded for later turns.
written-Steps :
    (s : PlanSlot) (text : Bytes) (b a : ℕ) (h : Option SessionReplay) (hash compressed : Bytes)
    (p p' : Pass) (o : BlockOutcome)
    → p'.reps ≡ p.reps
    → p'.outcomes ≡ p.outcomes
    → is_rewrite o ≡ true
    → Steps (s ∷ []) p (replace s text b a (record_for h hash compressed (note o p')))
unfolding replace note
written-Steps s text b a h hash compressed p p' o e f same =
    let r : Replacement = record { start = s.start; end = s.end; repl = encode_json_string text } in
    let kept = record_for_same h hash compressed (note o p') in
    take-Steps s p (replace s text b a (record_for h hash compressed (note o p'))) r o (refl, refl)
      (ap (λ (l : List Replacement). l ++ (r ∷ [])) (kept.0 ∙ e))
      (kept.1 ∙ ap (λ (l : List BlockOutcome). l ++ (o ∷ [])) f) same

kept_slot : (s : PlanSlot) → writes s ≡ true → s ∷ [] ≡ writable (s ∷ [])
kept_slot s may = rw may refl

module _ (host : Host) (opts : Options host.fl) (root : Option Json) where
  -- The pass with its flag set.
  abbrev marked : Pass → BlockResult → Pass
  marked p br = record p { candidate = p.candidate || text_eq br.action (codes "rejected_tokens") }

  fresh_text-Steps :
      (k : ℕ) (s : PlanSlot) (p : Pass) (br : BlockResult) (log : Log)
      → Acts br
      → Adds host opts root (s ∷ []) p (fresh_text host opts root k s p br) log
  unfolding fresh_text rewritten_text note replace text_outcome text_eq
  fresh_text-Steps k s p br log acts = elim (Bool-cases (not br.accepted)) [
    | inl refused ↦
        rw refused (quiet-Steps (s ∷ []) p _ _ refl refl (ground (arith, acts, refused)))
    | inr accepted ↦
        let same : is_rewriting br.action ≡ true = ground (arith, acts, accepted) in
        elim (Bool-cases (opts.has_store && not (text_eq br.cache_key []))) [
          | inr no_store ↦
              rw (accepted, no_store)
                (unfold record_for in
                  written-Steps s br.replacement br.tokens_before br.tokens_after none [] [] p
                    (marked p br) (text_outcome host opts root k s br) refl refl same)
          | inl stored ↦
              rw (accepted, stored)
                (Outcome-then _
                  (store_put br.cache_key s.text
                    >> store_resolves br.cache_key s.text br.replacement)
                  _ log
                  (λ log' fine.
                    if_Steps fine (s ∷ []) p _ _
                      (written-Steps s br.replacement br.tokens_before br.tokens_after opts.replay
                        br.cache_key br.replacement p (marked p br)
                        (text_outcome host opts root k s br) refl refl same)
                      (quiet-Steps (s ∷ []) p _ _ refl refl refl)))
        ]
  ]

  fresh_image-Steps :
      (k : ℕ) (s : PlanSlot) (p : Pass) → Steps (s ∷ []) p (fresh_image host opts root k s p)
  unfolding fresh_image note replace outcome_of text_eq
  fresh_image-Steps k s p = elim (Bool-cases opts.image_fit) [
    | inr off ↦ rw off (quiet-Steps (s ∷ []) p _ _ refl refl refl)
    | inl on ↦
        elim (Option-cases
          (host.fit_image s.text (media_type root k s.block_index s.content_index))) [
            | inl unfit ↦ rw (on, unfit) (quiet-Steps (s ∷ []) p _ _ refl refl refl)
            | inr ((new_b64, b, a), fit) ↦
                rw (on, fit)
                  (written-Steps s new_b64 b a opts.replay
                    (image_replay_key host.sums (media_type root k s.block_index s.content_index)
                      s.text)
                    new_b64 p p _ refl refl refl)
          ]
  ]

  text_block-Steps :
      (tools : Map ToolUse) (k : ℕ) (s : PlanSlot) (p : Pass) (log : Log)
      → Adds host opts root (s ∷ []) p (text_block host opts root tools k s p) log
  unfolding text_block
  text_block-Steps tools k s p log =
      let ctx = block_context host.parse opts.query tools s.tool_use_id in
      Outcome-bind (λ log' br. Acts br) _
        (compress_block host.sums host.fl opts.count_text opts.router opts.has_store s.text ctx) _
        log
        (compress_block-Acts host.sums host.fl opts.count_text opts.router opts.has_store s.text ctx
          log)
        (λ log' br acts. fresh_text-Steps k s p br log' acts)

  fresh_kind-Steps :
      (tools : Map ToolUse) (k : ℕ) (s : PlanSlot) (p : Pass) (kind : SlotKind) (log : Log)
      → s.kind ≡ kind
      → Adds host opts root (writable (s ∷ [])) p (fresh_kind host opts root tools k s p kind) log
  unfolding fresh_kind note outcome_of text_eq
  fresh_kind-Steps tools k s p hot_zone log e = quiet-Steps (writable (s ∷ [])) p _ _ refl refl refl
  fresh_kind-Steps tools k s p below_threshold log e =
      quiet-Steps (writable (s ∷ [])) p _ _ refl refl refl
  fresh_kind-Steps tools k s p unreachable log e =
      quiet-Steps (writable (s ∷ [])) p _ _ refl refl refl
  fresh_kind-Steps tools k s p image log e =
      subst (λ ss. Steps ss p (fresh_image host opts root k s p)) (kept_slot s (rw e refl))
        (fresh_image-Steps k s p)
  fresh_kind-Steps tools k s p compressible log e =
      subst (λ ss. Adds host opts root ss p (text_block host opts root tools k s p) log)
        (kept_slot s (rw e refl)) (text_block-Steps tools k s p log)
  fresh_kind-Steps tools k s p string_content log e =
      subst (λ ss. Adds host opts root ss p (text_block host opts root tools k s p) log)
        (kept_slot s (rw e refl)) (text_block-Steps tools k s p log)

  fresh_slot-Steps :
      (replays : List Replacement) (tools : Map ToolUse) (k : ℕ) (s : PlanSlot) (p : Pass)
      (log : Log)
      → Adds host opts root
          (writable (unclaimed replays (s ∷ [])))
          p
          (fresh_slot host opts root replays tools k s p)
          log
  unfolding fresh_slot
  fresh_slot-Steps replays tools k s p log = elim (Bool-cases (claimed replays s.start)) [
    | inl done_before ↦ rw (done_before, fresh_slot) (still-Steps [] p p refl refl)
    | inr open_slot ↦ rw (open_slot, fresh_slot) (fresh_kind-Steps tools k s p s.kind log refl)
  ]

  unclaimed-append :
      (replays : List Replacement) (s : PlanSlot) (ss : List PlanSlot)
      → writable (unclaimed replays (s ∷ ss))
        ≡ writable (unclaimed replays (s ∷ [])) ++ writable (unclaimed replays ss)
  unclaimed-append replays s ss = elim (Bool-cases (claimed replays s.start)) [
    | inl before ↦ rw before refl
    | inr after ↦ rw after (writable-append (s ∷ []) (unclaimed replays ss))
  ]

  fresh_slots-Steps :
      (replays : List Replacement) (tools : Map ToolUse) (k : ℕ) (ss : List PlanSlot) (p : Pass)
      (log : Log)
      → Adds host opts root
          (writable (unclaimed replays ss))
          p
          (fresh_slots host opts root replays tools k ss p)
          log
  unfolding fresh_slots
  fresh_slots-Steps replays tools k [] p log = still-Steps [] p p refl refl
  fresh_slots-Steps replays tools k (s ∷ ss) p log =
      subst
        (λ l. Adds host opts root l p (fresh_slots host opts root replays tools k (s ∷ ss) p) log)
        (sym (unclaimed-append replays s ss))
        (in_turn host opts root (writable (unclaimed replays (s ∷ [])))
          (writable (unclaimed replays ss)) p (fresh_slot host opts root replays tools k s p)
          (fresh_slots host opts root replays tools k ss) log
          (fresh_slot-Steps replays tools k s p log)
          (λ log' q. fresh_slots-Steps replays tools k ss q log'))

  fresh_pass-Steps :
      (live : Option ℕ) (p : Pass) (log : Log)
      → Adds host opts root (fresh_of root p.reps live) p (fresh_pass host opts root live p) log
  unfolding fresh_pass
  fresh_pass-Steps none p log = still-Steps [] p p refl refl
  fresh_pass-Steps (some k) p log =
      fresh_slots-Steps p.reps (index root) k (plan_blocks root k) p log
