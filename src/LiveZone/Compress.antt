-- ===== src/LiveZone/Compress.antt =====
-- internal/livezone/compress.go: one block through the router, the marker, and the token gate. The
-- store of the options is the one that a `Prog` is run on; `has_store` is false for a nil store.
pub mod Gate
pub mod Acts
use headroom_go.Common.{
  ℕ, zero, suc, ◌+◌, ltb, Bool, true, false, ◌||◌, List, [], ◌∷◌, ◌++◌, Option, none, some, Bytes,
  codes, text_eq, is_some, if◌then◌else◌, length,
}
use headroom_go.Common.Maps
use headroom_go.Common.Maps.{Map}
use headroom_go.Ccr.Key.{HashSums, compute_key}
use headroom_go.Ccr.Marker.{marker_for}
use headroom_go.Ccr.Store.{Prog, done, put, get, len, ◌>>=◌}
use headroom_go.Transform.{CompressionContext}
use headroom_go.Pipeline.{Float, RunResult, Router, compress}

pub record BlockResult : Type 0 where
  pub accepted : Bool
  pub action : Bytes
  pub strategy : Bytes
  pub replacement : Bytes
  pub tokens_before : ℕ
  pub tokens_after : ℕ
  pub cache_key : Bytes

abbrev pub no_op : BlockResult
no_op = record {
  accepted = false;
  action = codes "no_op";
  strategy = [];
  replacement = [];
  tokens_before = 0;
  tokens_after = 0;
  cache_key = [];
}

unfoldable pub accepts_i5 : ℕ → ℕ → Bool
accepts_i5 tokens_before tokens_after = ltb tokens_after tokens_before

-- strings.HasSuffix(s, "\n")
unfoldable pub ends_line : Bytes → Bool
ends_line [] = false
ends_line (b ∷ []) = text_eq (b ∷ []) (codes "\n")
ends_line (b ∷ c ∷ bs) = ends_line (c ∷ bs)

-- strings.Join(steps, "+")
unfoldable pub join_steps : List Bytes → Bytes
join_steps [] = []
join_steps (s ∷ []) = s
join_steps (s ∷ t ∷ ts) = s ++ (codes "+" ++ join_steps (t ∷ ts))

-- The keys of `staged` in the order of their first Put.
pub record StagingStore : Type 0 where
  pub hashes : List Bytes
  pub staged : Map Bytes

unfoldable pub staging_put : StagingStore → Bytes → Bytes → StagingStore
staging_put s hash payload = record {
  hashes = if is_some (Maps.get s.staged hash) then s.hashes else s.hashes ++ (hash ∷ []);
  staged = Maps.put s.staged hash payload;
}

-- Code that is handed the staging store: it puts there, and what it does not find there it gets from
-- the backing store.
unfoldable pub stage : {A : Type 0} → Prog A → StagingStore → Prog (A × StagingStore)
stage (done a) s = done (a, s)
stage (put h p m) s = stage m (staging_put s h p)
stage (get h k) s = elim (Maps.get s.staged h) [
  | some v ↦ stage (k (some v)) s
  | none ↦ get h (λ r. stage (k r) s)
]
stage (len k) s = len (λ n. stage (k (length s.staged + n)) s)

-- s.staged[h], which is "" for a missing key.
staged_at : Map Bytes → Bytes → Bytes
staged_at m h = elim (Maps.get m h) [ none ↦ [] | some v ↦ v ]

unfoldable pub commit : {A : Type 0} → Map Bytes → List Bytes → Prog A → Prog A
unfolding staged_at
commit m [] next = next
commit m (h ∷ hs) next = put h (staged_at m h) (commit m hs next)

module _ (sums : HashSums) where
  -- For a store that is not nil.
  unfoldable pub inject_ccr_marker : Bytes → Bytes → Bytes × Bytes
  inject_ccr_marker original compressed =
      let hash = compute_key sums original in
      let marker = marker_for hash in
      if ends_line compressed
      then (compressed ++ marker, hash)
      else (compressed ++ (codes "\n" ++ marker), hash)

  module _ (fl : Float) (count_text : Bytes → ℕ) where
    -- What compressBlock makes of a run of the router.
    gate : Bytes → RunResult → StagingStore → Prog BlockResult
    gate text res staged =
        let (candidate, hash) = inject_ccr_marker text res.output in
        let strategy = join_steps res.steps_applied in
        let before = count_text text in
        let after = count_text candidate in
        if text_eq res.output [] || text_eq res.output text
        then done no_op
        else if accepts_i5 before after
        then commit staged.staged staged.hashes (
            done (record {
              accepted = true;
              action = codes "compressed";
              strategy = strategy;
              replacement = candidate;
              tokens_before = before;
              tokens_after = after;
              cache_key = hash;
            }))
        else done (record {
          accepted = false;
          action = codes "rejected_tokens";
          strategy = strategy;
          replacement = [];
          tokens_before = before;
          tokens_after = after;
          cache_key = [];
        })

    unfoldable pub compress_block :
        Option (Router fl) → Bool → Bytes → CompressionContext → Prog BlockResult
    unfolding gate
    compress_block none has_store text ctx = done no_op
    compress_block (some router) false text ctx = done no_op
    compress_block (some router) true text ctx =
        stage (compress fl router text ctx) (record { hashes = []; staged = [] }) >>= λ r.
        gate text r.0 r.1
