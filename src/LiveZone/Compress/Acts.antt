-- ===== src/LiveZone/Compress/Acts.antt =====
-- The action that a block reports.
use headroom_go.Common.{
  ℕ, ◌≡◌, refl, Bool, Bool-cases, inl, inr, true, false, ◌||◌, [], Option, none, some, Bytes,
  text_eq,
}
use headroom_go.Ccr.Key.{HashSums}
use headroom_go.Ccr.Store.Outcome.{Log, Outcome, Outcome-then}
use headroom_go.Transform.{CompressionContext}
use headroom_go.Pipeline.{Float, RunResult, Router, compress}
use headroom_go.LiveZone.Compress.{
  BlockResult, accepts_i5, StagingStore, stage, inject_ccr_marker, gate, compress_block,
}
use headroom_go.LiveZone.Compress.Gate.{commit-Outcome}
use headroom_go.LiveZone.Steps.{is_rewriting}

abbrev pub Acts : BlockResult → Type 0
Acts br = is_rewriting br.action ≡ br.accepted

module _ (sums : HashSums) (fl : Float) (count_text : Bytes → ℕ) where
  gate-Acts :
      (text : Bytes) (res : RunResult) (staged : StagingStore) (log : Log)
      → Outcome (λ log' br. Acts br) log (gate sums fl count_text text res staged)
  unfolding gate text_eq
  gate-Acts text res staged log =
      elim (Bool-cases (text_eq res.output [] || text_eq res.output text)) [
        | inl same ↦ rw same refl
        | inr changed ↦
            elim (Bool-cases (
              accepts_i5 (count_text text)
                (count_text (inject_ccr_marker sums text res.output).0))) [
                  | inl fewer ↦
                      rw (changed, fewer)
                        (commit-Outcome _ staged.staged staged.hashes _ log (λ log'. refl))
                  | inr more ↦ rw (changed, more) refl
                ]
      ]

  -- A block reports a rewrite exactly if it is accepted.
  pub compress_block-Acts :
      (router : Option (Router fl)) (has_store : Bool) (text : Bytes) (ctx : CompressionContext)
      (log : Log)
      → Outcome
          (λ log' br. Acts br)
          log
          (compress_block sums fl count_text router has_store text ctx)
  unfolding compress_block text_eq
  compress_block-Acts none has_store text ctx log = refl
  compress_block-Acts (some router) false text ctx log = refl
  compress_block-Acts (some router) true text ctx log =
      Outcome-then _ (stage (compress fl router text ctx) _) _ log
        (λ log' r. gate-Acts text r.0 r.1 log')
