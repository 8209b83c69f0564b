-- ===== src/Offloads/Keys.antt =====
-- The keys that the offloads of internal/offloads return, and the pipeline of router/default.go.
use headroom_go.Common.{
  ◌≡◌, ◌⊎◌, inl, inr, refl, Bool, true, false, List, [], ◌∷◌, arith, Bytes, text_eq, text_eq_refl,
  is_in, All,
}
use headroom_go.Ccr.Key.{HashSums, compute_key_md5}
use headroom_go.Ccr.Store.{Prog}
use headroom_go.Ccr.Store.Outcome.{Log, Outcome, Outcome-bind}
use headroom_go.Transform.{
  ContentType, CompressionContext, Result, ok, err, skipped, OffloadOutput, ReformatTransform,
}
use headroom_go.Pipeline.{Float, Config, build, run}
use headroom_go.Pipeline.Lossless.{logged, Preserves, Stores, Kept, run-Kept}
use headroom_go.Compress.Diff.{Float64}
use headroom_go.Compress.Diff.Select.{Strings}
use headroom_go.Compress.Diff.Format.{DiffResult, compress_diff}
use headroom_go.Compress.Diff.Changes.{Stored, compress_diff-Stored}
use headroom_go.Compress.Log.Format.{LogResult, compress_log}
use headroom_go.Compress.Log.Format.Stored.{LogStored, compress_log-Stored}
use headroom_go.Offloads.{from_lengths, skip_when, store_original}
use headroom_go.Offloads.Noise.{apply_noise}
use headroom_go.Offloads.Engines.{
  Arithmetic, Engines, from_engine, apply_json, apply_diff, apply_log, apply_text, default_offloads,
}

-- An output's key has been put.
abbrev Keyed : Log → Result OffloadOutput → Type 0
Keyed log res = (out : OffloadOutput) → res ≡ ok out → is_in out.cache_key (logged log) ≡ true

skips : (log : Log) → Keyed log (err skipped)
skips log out e = absurd (ground (arith, e))

is_in_first : (key : Bytes) (keys : List Bytes) → is_in key (key ∷ keys) ≡ true
unfolding is_in
is_in_first key keys = rw (text_eq_refl key) refl

-- The offload puts the content itself, and returns that key.
puts :
    (log : Log) (key content output : Bytes) → Outcome Keyed log (store_original key content output)
unfolding store_original from_lengths
puts log key content output out e =
    let same : key ≡ out.cache_key = ground (arith, e) in rw (← same) (is_in_first key (logged log))

skip_if :
    (log : Log) (c : Bool) (m : Prog (Result OffloadOutput))
    → Outcome Keyed log m
    → Outcome Keyed log (skip_when c m)
unfolding skip_when
skip_if log true m h = skips log
skip_if log false m h = h

from_engine-Keyed :
    (log : Log) (content compressed key : Bytes)
    → (key ≡ []) ⊎ (is_in key (logged log) ≡ true)
    → Keyed log (from_engine content compressed key)
unfolding from_engine from_lengths text_eq
from_engine-Keyed log content compressed [] h out e = absurd (ground (arith, e))
from_engine-Keyed log content compressed (c ∷ key) (inl h) out e = absurd (ground (arith, h))
from_engine-Keyed log content compressed (c ∷ key) (inr h) out e =
    let same : (c ∷ key) ≡ out.cache_key = ground (arith, e) in rw (← same) h

module _ (sums : HashSums) (fl : Float) (f64 : Float64) (strings : Strings) (ar : Arithmetic fl)
    (engines : Engines) (get : Bytes → Bytes → Bytes) where
  put_key :
      (log log' : Log) (content context : Bytes) (r : DiffResult)
      → Stored sums f64 strings content context log log' r
      → (r.cache_key ≡ []) ⊎ (is_in r.cache_key (logged log') ≡ true)
  put_key log log' content context r (_, inl h) = inl h.1
  put_key log log' content context r (_, inr h) =
      inr (rw (h.0, h.1) (is_in_first (compute_key_md5 sums content) (logged log)))

  put_log_key :
      (log log' : Log) (content : Bytes) (r : LogResult fl.F)
      → LogStored fl sums ar.add ar.lit engines.optimal_k content log log' r
      → (r.cache_key ≡ []) ⊎ (is_in r.cache_key (logged log') ≡ true)
  put_log_key log log' content r (_, inl h) = inl h.1
  put_log_key log log' content r (_, inr h) =
      inr (rw (h.0, h.1) (is_in_first (compute_key_md5 sums content) (logged log)))

  apply_noise-Keyed :
      (content : Bytes) (ctx : CompressionContext) (log : Log)
      → Outcome Keyed log (apply_noise sums fl content ctx)
  unfolding apply_noise
  apply_noise-Keyed content ctx log = skip_if log _ _ (puts log _ content _)

  apply_json-Keyed :
      (content : Bytes) (ctx : CompressionContext) (log : Log)
      → Outcome Keyed log (apply_json sums fl f64 strings ar engines get content ctx)
  unfolding apply_json
  apply_json-Keyed content ctx log = skip_if log _ _ (skip_if log _ _ (puts log _ content _))

  apply_text-Keyed :
      (content : Bytes) (ctx : CompressionContext) (log : Log)
      → Outcome Keyed log (apply_text sums fl f64 strings ar engines get content ctx)
  unfolding apply_text
  apply_text-Keyed content ctx log = skip_if log _ _ (skip_if log _ _ (puts log _ content _))

  apply_log-Keyed :
      (content : Bytes) (ctx : CompressionContext) (log : Log)
      → Outcome Keyed log (apply_log sums fl f64 strings ar engines get content ctx)
  unfolding apply_log
  apply_log-Keyed content ctx log = skip_if log _ _ (
      Outcome-bind _ Keyed (compress_log fl sums ar.add ar.lit engines.optimal_k content) _ log
        (compress_log-Stored fl sums ar.add ar.lit engines.optimal_k content log)
        (λ log' r h.
          from_engine-Keyed log' content r.compressed r.cache_key
            (put_log_key log log' content r h)))

  apply_diff-Keyed :
      (content : Bytes) (ctx : CompressionContext) (log : Log)
      → Outcome Keyed log (apply_diff sums fl f64 strings ar engines get content ctx)
  unfolding apply_diff
  apply_diff-Keyed content ctx log =
      Outcome-bind _ Keyed (compress_diff sums f64 strings content ctx.query) _ log
        (compress_diff-Stored sums f64 strings content ctx.query log)
        (λ log' r h.
          from_engine-Keyed log' content r.compressed r.cache_key
            (put_key log log' content ctx.query r h))

  -- Every offload of the default pipeline returns only keys that it has put, whatever the store
  -- answers.
  pub default_offloads-Stores :
      {M : Type 0} (meaning : Bytes → M)
      → All (Stores fl meaning) (default_offloads sums fl f64 strings ar engines get)
  default_offloads-Stores meaning = (
    apply_noise-Keyed,
    (apply_diff-Keyed, (apply_json-Keyed, (apply_log-Keyed, (apply_text-Keyed, tt)))),
  )

  -- In a pipeline with the default offloads and with reformats that keep the meaning of the content,
  -- a run of any content has one of two outcomes, whatever the store answers: it returns no cache key
  -- and an output that means what the content means, or it returns exactly one cache key, which it
  -- has put in the store.
  pub default_offloads-Kept :
      {M : Type 0} (meaning : Bytes → M) (config : Config fl) (reformats : List ReformatTransform)
      (content : Bytes) (ct : ContentType) (ctx : CompressionContext) (log : Log)
      → All (Preserves fl meaning) reformats
      → Outcome (Kept fl meaning content) log (
          run fl
            (build fl config reformats (default_offloads sums fl f64 strings ar engines get))
            content
            ct
            ctx)
  default_offloads-Kept meaning config reformats content ct ctx log keeps =
      run-Kept fl meaning config reformats (default_offloads sums fl f64 strings ar engines get)
        content ct ctx log keeps (default_offloads-Stores meaning)
