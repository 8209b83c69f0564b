-- ===== src/Pipeline.antt =====
-- internal/pipeline/pipeline.go and config.go, and internal/router/router.go: reformats, then at most
-- one offload, chosen by content type.
pub mod Lossless
pub mod Saturation
use Prim.Native.Nat.{compare}
use headroom_go.Common.{
  ℕ, ◌+◌, ◌-◌, ◌%◌, ◌^◌, ◌==◌, ltb, leb, Bool, true, false, ◌&&◌, ◌||◌, List, [], ◌∷◌, ◌++◌, Option,
  none, some, Bytes, if◌then◌else◌, length,
}
use headroom_go.Ccr.Store.{Prog, done, ◌>>=◌}
use headroom_go.Transform.{
  ContentType, json_array, source_code, search_results, build_output, git_diff, html, plain_text,
  other, CompressionContext, Result, ok, err, ReformatOutput, OffloadOutput, ReformatTransform,
  OffloadTransform,
}

-- Floating-point numbers: the type, the constants and the operations that the program uses.
pub record Float : Type 1 where
  pub F : Type 0
  pub zero : F
  pub one : F
  -- The quotient of two counts, each converted first.
  pub ratio : ℕ → ℕ → F
  pub le : F → F → Bool
  pub lt : F → F → Bool

unfoldable pub same_type : ContentType → ContentType → Bool
same_type json_array json_array = true
same_type source_code source_code = true
same_type search_results search_results = true
same_type build_output build_output = true
same_type git_diff git_diff = true
same_type html html = true
same_type plain_text plain_text = true
same_type (other m) (other n) = m == n
same_type _ _ = false

abbrev pub max_int : ℕ
max_int = 2 ^ 63 - 1

-- int addition wraps around; a sum with the sign bit set is negative, so below a.
unfoldable pub saturating_add : ℕ → ℕ → ℕ
saturating_add a b = let s = (a + b) % 2 ^ 64 in if leb (2 ^ 63) s || ltb s a then max_int else s

pub record RunResult : Type 0 where
  pub output : Bytes
  pub bytes_saved : ℕ
  pub steps_applied : List Bytes
  pub cache_keys : List Bytes

-- A map from content types to lists, which is empty where nothing was registered.
abbrev pub Table : Type 0 → Type 0
Table T = ContentType → List T

module _ {T : Type 0} where
  add_under : T → List ContentType → Table T → Table T
  add_under t [] table = table
  add_under t (ct ∷ cts) table =
      add_under t cts (λ c. if same_type ct c then table c ++ (t ∷ []) else table c)

  -- The loops of Build.
  unfoldable pub register : (T → List ContentType) → List T → Table T → Table T
  unfolding add_under
  register applies_to [] table = table
  register applies_to (t ∷ ts) table = register applies_to ts (add_under t (applies_to t) table)

module _ (fl : Float) where
  open fl use {F, zero, one, ratio, le, lt}

  pub record Config : Type 0 where
    pub reformat_target_ratio : F
    pub bloat_threshold : F
    pub offload_fallback_ratio : F

  pub record Pipeline : Type 0 where
    pub reformats_by_type : Table ReformatTransform
    pub offloads_by_type : Table (OffloadTransform F)
    pub config : Config

  unfoldable pub build : Config → List ReformatTransform → List (OffloadTransform F) → Pipeline
  build config reformats offloads = record {
    reformats_by_type = register (λ t. t.applies_to) reformats (λ _. []);
    offloads_by_type = register (λ t. t.applies_to) offloads (λ _. []);
    config = config;
  }

  -- What one reformat makes of the running result; an error or no saving changes nothing.
  -- A saving is an int; a negative one, which would count as a step, is left out.
  reformat_step : ReformatTransform → Result ReformatOutput → RunResult → RunResult
  reformat_step rf (err e) r = r
  reformat_step rf (ok out) r = if out.bytes_saved == 0 then r else record r {
    output = out.output;
    bytes_saved = saturating_add r.bytes_saved out.bytes_saved;
    steps_applied = r.steps_applied ++ (rf.name ∷ []);
  }

  unfoldable pub run_reformats : Config → ℕ → List ReformatTransform → RunResult → RunResult
  unfolding reformat_step
  run_reformats config original_len [] r = r
  run_reformats config original_len (rf ∷ rfs) r =
      let rest = run_reformats config original_len rfs (reformat_step rf (rf.apply r.output) r) in
      if ltb 0 original_len
        && le (ratio (length r.output) original_len) config.reformat_target_ratio
      then r
      else rest

  -- After an offload: the new result, and whether the loop stops.
  offload_step : OffloadTransform F → Result OffloadOutput → RunResult → RunResult × Bool
  offload_step off (err e) r = (r, false)
  offload_step off (ok out) r = if out.bytes_saved == 0 then (r, false) else (
    record r {
      output = out.output;
      bytes_saved = saturating_add r.bytes_saved out.bytes_saved;
      steps_applied = r.steps_applied ++ (off.name ∷ []);
      cache_keys = r.cache_keys ++ (out.cache_key ∷ []);
    },
    true,
  )

  -- The gate of an offload.
  should_run : Config → F → F → Bool
  should_run config reformat_ratio score =
      le config.bloat_threshold score
      || (lt config.offload_fallback_ratio reformat_ratio && lt zero score)

  unfoldable pub run_offloads :
      Config → F → CompressionContext → List (OffloadTransform F) → RunResult → Prog RunResult
  unfolding offload_step should_run
  run_offloads config reformat_ratio ctx [] r = done r
  run_offloads config reformat_ratio ctx (off ∷ offs) r =
      elim (should_run config reformat_ratio (off.estimate_bloat r.output)) [
        | false ↦ run_offloads config reformat_ratio ctx offs r
        | true ↦ off.apply r.output ctx >>= λ res.
            (let (r', stop) = offload_step off res r in
              elim stop [ true ↦ done r' | false ↦ run_offloads config reformat_ratio ctx offs r' ])
      ]

  unfoldable pub run : Pipeline → Bytes → ContentType → CompressionContext → Prog RunResult
  run p content ct ctx =
      let original_len = length content in
      let r =
        run_reformats p.config original_len (p.reformats_by_type ct)
          (record { output = content; bytes_saved = 0; steps_applied = []; cache_keys = [] }) in
      let reformat_ratio =
        if ltb 0 original_len then ratio (length r.output) original_len else one in
      run_offloads p.config reformat_ratio ctx (p.offloads_by_type ct) r

  -- router.go: the detector classifies, and the pipeline runs.
  pub record Router : Type 0 where
    pub pipeline : Pipeline
    pub detect : Bytes → ContentType

  unfoldable pub compress : Router → Bytes → CompressionContext → Prog RunResult
  unfolding run
  compress router content ctx = run router.pipeline content (router.detect content) ctx
