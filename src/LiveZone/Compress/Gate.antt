-- ===== src/LiveZone/Compress/Gate.antt =====
-- What the token gate lets through, and what it leaves behind.
use headroom_go.Common.{
  ℕ, ◌+◌, ◌<◌, ◌≡◌, refl, sym, ltb→lt, Bool, Bool-cases, Option-cases, inl, inr, true, false, ◌||◌,
  List, [], ◌∷◌, ◌++◌, append_assoc, Option, none, some, Bytes, codes, text_eq, if◌then◌else◌,
  length,
}
use headroom_go.Common.Maps
use headroom_go.Common.Maps.{Map}
use headroom_go.Ccr.Key.{HashSums, compute_key}
use headroom_go.Ccr.Marker.{marker_for}
use headroom_go.Ccr.Store.{Prog, done, put, get, len}
use headroom_go.Ccr.Store.Outcome.{Log, Outcome, Outcome-bind}
use headroom_go.Transform.{CompressionContext}
use headroom_go.Pipeline.{Float, RunResult, Router, compress}
use headroom_go.LiveZone.Compress.{
  BlockResult, accepts_i5, ends_line, StagingStore, staging_put, stage, commit, staged_at,
  inject_ccr_marker, gate, compress_block,
}

-- Code on the staging store puts nothing into the backing store.
stage_quiet :
    {A : Type 0} (m : Prog A) (s : StagingStore) (log : Log)
    → Outcome (λ log' r. log' ≡ log) log (stage m s)
unfolding stage
stage_quiet (done a) s log = refl
stage_quiet (put h p m) s log = stage_quiet m (staging_put s h p) log
stage_quiet (get h k) s log = elim (Option-cases (Maps.get s.staged h)) [
  | inl miss ↦ rw (miss, stage) (λ r. stage_quiet (k r) s log)
  | inr (v, hit) ↦ rw (hit, stage) (stage_quiet (k (some v)) s log)
]
stage_quiet (len k) s log = λ n. stage_quiet (k (length s.staged + n)) s log

pub commit-Outcome :
    {A : Type 0} (Q : Log → A → Type 0) (m : Map Bytes) (hs : List Bytes) (a : A) (log : Log)
    → ((log' : Log) → Q log' a)
    → Outcome Q log (commit m hs (done a))
unfolding commit
commit-Outcome Q m [] a log h = h log
commit-Outcome Q m (x ∷ hs) a log h = commit-Outcome Q m hs a ((x, staged_at m x) ∷ log) h

-- Some lines, and on a line of its own at the end the marker.
abbrev pub EndsWithMarker : Bytes → Bytes → Type 0
EndsWithMarker hash text =
    (lines : Bytes) × (text ≡ lines ++ marker_for hash) × (ends_line lines ≡ true)

ends_line-append : (xs : Bytes) → ends_line (xs ++ codes "\n") ≡ true
unfolding ends_line text_eq
ends_line-append [] = refl
ends_line-append (x ∷ []) = refl
ends_line-append (x ∷ y ∷ ys) = ends_line-append (y ∷ ys)

module _ (sums : HashSums) where
  inject-EndsWithMarker :
      (original compressed : Bytes)
      → EndsWithMarker (compute_key sums original) (inject_ccr_marker sums original compressed).0
        × ((inject_ccr_marker sums original compressed).1 ≡ compute_key sums original)
  unfolding inject_ccr_marker
  inject-EndsWithMarker original compressed = elim (Bool-cases (ends_line compressed)) [
    | inl line ↦ rw line ((compressed, refl, line), refl)
    | inr open_line ↦ rw open_line (
      (
        compressed ++ codes "\n",
        sym (append_assoc compressed (codes "\n") (marker_for (compute_key sums original))),
        ends_line-append compressed,
      ),
      refl,
    )
  ]

  module _ (fl : Float) (count_text : Bytes → ℕ) where
    abbrev pub Accepted : Bytes → BlockResult → Type 0
    Accepted text r =
        (r.tokens_after < r.tokens_before)
        × (r.tokens_before ≡ count_text text)
        × (r.tokens_after ≡ count_text r.replacement)
        × (r.cache_key ≡ compute_key sums text)
        × EndsWithMarker r.cache_key r.replacement

    abbrev pub Judged : Bytes → Log → Log → BlockResult → Type 0
    Judged text log log' r = if r.accepted then Accepted text r else (log' ≡ log)

    gate-Judged :
        (text : Bytes) (res : RunResult) (staged : StagingStore) (log : Log)
        → Outcome (Judged text log) log (gate sums fl count_text text res staged)
    unfolding gate
    gate-Judged text res staged log =
        let (ends, key) = inject-EndsWithMarker text res.output in
        elim (Bool-cases (text_eq res.output [] || text_eq res.output text)) [
          | inl same ↦ rw same refl
          | inr changed ↦
              elim (Bool-cases (
                accepts_i5 (count_text text)
                  (count_text (inject_ccr_marker sums text res.output).0))) [
                    | inl fewer ↦
                        rw (changed, fewer)
                          (commit-Outcome (Judged text log) staged.staged staged.hashes _ log
                            (λ log'. (
                              unfold accepts_i5 in ltb→lt _ _ fewer,
                              refl,
                              refl,
                              key,
                              rw key ends,
                            )))
                    | inr more ↦ rw (changed, more) refl
                  ]
        ]

    -- Whatever the router does with the store that it is handed, and whatever the store answers: a block
    -- is accepted only with strictly fewer tokens than the text has, counted with the marker, which ends
    -- the replacement on a line of its own and names the key of the text; and a block that is not
    -- accepted has put nothing into the store.
    pub compress_block-Judged :
        (router : Option (Router fl)) (has_store : Bool) (text : Bytes) (ctx : CompressionContext)
        (log : Log)
        → Outcome
            (Judged text log)
            log
            (compress_block sums fl count_text router has_store text ctx)
    unfolding compress_block
    compress_block-Judged none has_store text ctx log = refl
    compress_block-Judged (some router) false text ctx log = refl
    compress_block-Judged (some router) true text ctx log =
        Outcome-bind _ (Judged text log) (stage (compress fl router text ctx) _) _ log
          (stage_quiet (compress fl router text ctx) _ log)
          (λ log' r same. rw same (gate-Judged text r.0 r.1 log))
