-- ===== src/Tests/Pipeline.antt =====
-- A pipeline of one reformat and one offload.
use headroom_go.Common.{
  ◌+◌, leb, if◌then◌else◌, ℕ, ◌≡◌, refl, ◌==◌, Bool, not, [], ◌∷◌, none, Bytes, codes, text_eq_refl,
  is_in, keep, arith,
}
use headroom_go.Ccr.Key.{compute_key}
use headroom_go.Ccr.Store.{done, ◌>>◌, store_put}
use headroom_go.Ccr.Store.Outcome.{Outcome}
use headroom_go.Transform.{plain_text, CompressionContext, ok, ReformatTransform, OffloadTransform}
use headroom_go.Pipeline.{saturating_add, max_int, Config, build, run}
use headroom_go.Pipeline.Saturation.{saturating_add_lem}
use headroom_go.Pipeline.Lossless.{Preserves, Stores, Kept, run-Kept}
use headroom_go.Tests.Fixtures.{prefix_sums, percent}

abbrev visible : ℕ → Bool
visible b = not (b == 32)

abbrev pub words : Bytes → Bytes
words = keep visible

words_idem : (t : Bytes) → words (words t) ≡ words t
words_idem [] = refl
words_idem (b ∷ t) = ground (arith, words_idem t)

abbrev pub squeeze : ReformatTransform
squeeze = record {
  name = codes "squeeze";
  applies_to = plain_text ∷ [];
  apply = λ c. ok (record { output = words c; bytes_saved = 1 });
}

pub squeeze-Preserves : Preserves percent words squeeze
squeeze-Preserves c out e =
    let same : words c ≡ out.output = ground (arith, e) in rw (← same) (words_idem c)

abbrev pub stash : OffloadTransform ℕ
stash = record {
  name = codes "stash";
  applies_to = plain_text ∷ [];
  estimate_bloat = λ c. 90;
  apply = λ c ctx.
      store_put (compute_key prefix_sums c) c
      >> done (
          ok (record {
            output = codes "stashed";
            bytes_saved = 2;
            cache_key = compute_key prefix_sums c;
          }));
  confidence = 100;
}

stash-Stores : Stores percent words stash
unfolding is_in
stash-Stores c ctx log = λ out e.
    let same : compute_key prefix_sums c ≡ out.cache_key = ground (arith, e) in
    rw (← same, text_eq_refl (compute_key prefix_sums c)) refl

abbrev pub no_context : CompressionContext
no_context = record {
  query = [];
  token_budget = none;
  producing_tool = [];
  tool_command = [];
  tool_input = [];
  prior_reads = 0;
}

abbrev pub defaults : Config percent
defaults = record { reformat_target_ratio = 50; bloat_threshold = 50; offload_fallback_ratio = 85 }

run-Kept_example : Outcome (Kept percent words (codes "a b  c")) [] (
    run percent
      (build percent defaults (squeeze ∷ []) (stash ∷ []))
      (codes "a b  c")
      plain_text
      no_context)
run-Kept_example =
    run-Kept percent words defaults (squeeze ∷ []) (stash ∷ []) (codes "a b  c") plain_text
      no_context [] (squeeze-Preserves, tt) (stash-Stores, tt)

saturating_add_lem_example :
    saturating_add max_int 5 ≡ (if leb (max_int + 5) max_int then max_int + 5 else max_int)
saturating_add_lem_example = saturating_add_lem max_int 5 (omega arith) (omega arith)
