-- ===== src/LiveZone/Dispatch/Rounds/Reported.antt =====
-- Every rewrite that a request reports is in its body.
use headroom_go.Common.{
  ℕ, suc, ◌≡◌, refl, ap, sym, subst, ◌∙◌, Bool-cases, Option-cases, inl, inr, false, List, [], ◌∷◌,
  map, Option, none, some, Bytes, codes, arith, length, get_elem?, All, leb,
}
use headroom_go.Ccr.Store.{◌>>=◌}
use headroom_go.Ccr.Store.Outcome.{Log, Outcome, Outcome-bind, Outcome-weaken}
use headroom_go.CacheStab.Replay.{ReplayState}
use headroom_go.Json.{Json, member, elements, is_object}
use headroom_go.Json.Layout.{LaidOption, member-Laid, elements-Laid}
use headroom_go.LiveZone.Splice.{Replacement, insert_by_start, sort_by_start}
use headroom_go.LiveZone.Splice.Lockstep.{range_of}
use headroom_go.LiveZone.Splice.Complete.{IsSpan, AllApart, apply_replacements-All}
use headroom_go.LiveZone.Plan.{PlanSlot, find_latest_user_message, plan_blocks, nth}
use headroom_go.LiveZone.Plan.Spans.{Chain, plan_blocks-Chain}
use headroom_go.LiveZone.Pass.{Result, Host, Options, Pass}
use headroom_go.LiveZone.Picked.{Picked}
use headroom_go.LiveZone.Steps.{rewrites, Steps, length-append}
use headroom_go.LiveZone.Replay.{replay_all}
use headroom_go.LiveZone.Replay.Rounds.{slots_from, replay_all-Steps}
use headroom_go.LiveZone.Dispatch.{
  passthrough, fresh_pass, unchanged_slots, unchanged, finish, floor, passes, dispatch,
}
use headroom_go.LiveZone.Dispatch.Rounds.{fresh_of, fresh_pass-Steps}
use headroom_go.LiveZone.Dispatch.Rounds.Order.{Suffix, slots_from-Chain, passes-AllApart}

length-insert :
    (r : Replacement) (rs : List Replacement)
    → length (map range_of (insert_by_start r rs)) ≡ suc (length (map range_of rs))
unfolding insert_by_start
length-insert r [] = refl
length-insert r (x ∷ xs) = elim (Bool-cases (leb r.start x.start)) [
  | inl before ↦ rw (before, insert_by_start) refl
  | inr after ↦ rw (after, insert_by_start) (ap suc (length-insert r xs))
]

length-sort : (rs : List Replacement) → length (map range_of (sort_by_start rs)) ≡ length rs
unfolding sort_by_start
length-sort [] = refl
length-sort (r ∷ rs) = length-insert r (sort_by_start rs) ∙ ap suc (length-sort rs)

-- As many ranges as outcomes that report a rewrite.
abbrev pub Reported : Result → Type 0
Reported r = length r.rewritten ≡ rewrites r.blocks

module _ (host : Host) (opts : Options host.fl) (body : Bytes) where
  -- After both passes.
  record IsReady (p : Pass) : Type 0 where
    spans : All (IsSpan (length body)) p.reps
    apart : AllApart p.reps
    counted : rewrites p.outcomes ≡ length p.reps

  unchanged-Reported :
      (frozen : ℕ) (live : Option ℕ) (p : Pass)
      → rewrites p.outcomes ≡ 0
      → Reported (unchanged host opts (host.parse body) body frozen live p)
  unfolding unchanged passthrough
  unchanged-Reported frozen none p h = refl
  unchanged-Reported frozen (some k) p h = by_slots (plan_blocks (host.parse body) k)
    where
      by_slots :
          (ss : List PlanSlot)
          → Reported (unchanged_slots host opts (host.parse body) body frozen p ss)
      by_slots [] = unfold unchanged_slots in refl
      by_slots (s ∷ ss) = unfold unchanged_slots in sym h

  finish-Reported :
      (frozen : ℕ) (live : Option ℕ) (p : Pass) (reps : List Replacement)
      → All (IsSpan (length body)) reps
      → AllApart reps
      → rewrites p.outcomes ≡ length reps
      → Reported (finish host opts (host.parse body) body frozen live p reps)
  unfolding finish
  finish-Reported frozen live p [] spans apart counted = unchanged-Reported frozen live p counted
  finish-Reported frozen live p (r ∷ reps) spans apart counted =
      ap length (apply_replacements-All body (r ∷ reps) spans apart).0
      ∙ (length-sort (r ∷ reps) ∙ sym counted)

  passes-Reported :
      (msgs : List Json) (st : ReplayState) (log : Log)
      → LaidOption body 0 (length body) (host.parse body)
      → elements (member (codes "messages") (host.parse body)) ≡ some msgs
      → Outcome (λ log' r. Reported r.0) log (passes host opts (host.parse body) body msgs st)
  unfolding passes nth
  passes-Reported msgs st log laid list =
      Outcome-bind (λ log' q. IsReady q) _
        (replay_all host opts root msgs first >>= (λ p. fresh_pass host opts root live p)) _ log
        (Outcome-bind (λ log' q. Steps (slots_from root 0 msgs) first q) (λ log' q. IsReady q)
          (replay_all host opts root msgs first) _ log
          (replay_all-Steps host opts root msgs first log)
          (λ log' p x.
            Outcome-weaken (λ log'' q. Steps (fresh_of root p.reps live) p q) (λ log'' q. IsReady q)
              (fresh_pass host opts root live p) log' (λ log'' q y. ready p q x y)
              (fresh_pass-Steps host opts root live p log')))
        (λ log' q ready.
          finish-Reported (floor host opts root) live q q.reps ready.spans ready.apart
            ready.counted)
    where
      root : Option Json
      root = host.parse body

      live : Option ℕ
      live = find_latest_user_message root (floor host opts root)

      first : Pass
      first = record {
        reps = [];
        outcomes = [];
        before = 0;
        after = 0;
        candidate = false;
        replays = st;
      }

      suffix : Suffix root 0 msgs
      suffix i n e =
          let same : n ≡ i = omega arith in rw (list, nth) (ap (λ m. get_elem? msgs m) same)

      chain : Chain 0 (length body) (slots_from root 0 msgs)
      chain = slots_from-Chain body root 0 (length body) 0 msgs suffix (
          elements-Laid body 0 (length body) (member (codes "messages") root) msgs
            (member-Laid body (codes "messages") 0 (length body) root laid) list)

      ready :
          (p q : Pass)
          → Steps (slots_from root 0 msgs) first p
          → Steps (fresh_of root p.reps live) p q
          → IsReady q
      ready p q x y =
          let both =
            passes-AllApart root msgs (length body) suffix chain
              (λ k. plan_blocks-Chain body 0 (length body) k root (omega arith) laid) p.reps y.new
              live (subst (λ rs. Picked rs (slots_from root 0 msgs)) (sym x.added) x.picked)
              y.picked in
          record {
            spans = subst (λ rs. All (IsSpan (length body)) rs) (sym y.added) both.0;
            apart = subst (λ rs. AllApart rs) (sym y.added) both.1;
            counted = omega (
              arith,
              x.counted,
              y.counted,
              ap (λ (l : List Replacement). length l) x.added,
              ap (λ (l : List Replacement). length l) y.added,
              length-append p.reps y.new,
            );
          }

  -- In a body whose tree is laid out as gjson documents, the number of rewritten ranges of the result is
  -- the number of outcomes that report a rewrite, in the replay pass or the fresh pass: no planned
  -- replacement is dropped as overlapping or out of bounds.
  pub dispatch-Reported :
      (st : ReplayState) (log : Log)
      → LaidOption body 0 (length body) (host.parse body)
      → Outcome (λ log' r. Reported r.0) log (dispatch host opts body st)
  unfolding dispatch passthrough
  dispatch-Reported st log laid = elim (Bool-cases (is_object (host.parse body))) [
    | inr no_object ↦ rw (no_object, dispatch) refl
    | inl object ↦ elim (Option-cases (elements (member (codes "messages") (host.parse body)))) [
      | inl no_list ↦ rw (object, no_list, dispatch) refl
      | inr (msgs, list) ↦ rw (object, list, dispatch) (passes-Reported msgs st log laid list)
    ]
  ]
