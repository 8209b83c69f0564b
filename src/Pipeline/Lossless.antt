-- ===== src/Pipeline/Lossless.antt =====
-- What a run loses: nothing, or what one stored original keeps.
use headroom_go.Common.{
  ℕ, ◌≡◌, ◌∙◌, ◌⊎◌, inl, inr, refl, ap, sym, subst, ◌==◌, ltb, Bool, Bool-cases, true, false, ◌&&◌,
  List, [], ◌∷◌, ◌++◌, map, Bytes, if◌then◌else◌, length, All, All-append, is_in,
}
use headroom_go.Ccr.Store.{Prog, done}
use headroom_go.Ccr.Store.Outcome.{Log, Outcome, Outcome-bind}
use headroom_go.Transform.{
  ContentType, CompressionContext, Result, ok, err, ReformatOutput, OffloadOutput,
  ReformatTransform, OffloadTransform,
}
use headroom_go.Pipeline.{
  Float, RunResult, Table, same_type, add_under, register, Config, build, reformat_step,
  run_reformats, offload_step, should_run, run_offloads, run, saturating_add,
}

-- The keys put so far.
abbrev pub logged : Log → List Bytes
logged = map (λ e. e.0)

module _ {T : Type 0} (P : T → Type 0) where
  add_under-All :
      (t : T) (cts : List ContentType) (table : Table T)
      → P t
      → ((c : ContentType) → All P (table c))
      → (c : ContentType) → All P (add_under t cts table c)
  unfolding add_under
  add_under-All t [] table h a = a
  add_under-All t (ct ∷ cts) table h a = add_under-All t cts _ h (λ c. by_type c (same_type ct c))
    where
      by_type : (c : ContentType) (b : Bool) → All P (if b then table c ++ (t ∷ []) else table c)
      by_type c true = All-append P (table c) (t ∷ []) (a c) (h, tt)
      by_type c false = a c

  -- A table holds only what was registered.
  register-All :
      (applies_to : T → List ContentType) (ts : List T) (table : Table T)
      → All P ts
      → ((c : ContentType) → All P (table c))
      → (c : ContentType) → All P (register applies_to ts table c)
  unfolding register
  register-All applies_to [] table h a = a
  register-All applies_to (t ∷ ts) table h a =
      register-All applies_to ts _ h.1 (add_under-All t (applies_to t) table h.0 a)

module _ (fl : Float) {M : Type 0} (meaning : Bytes → M) where
  -- The contract of a reformat: its output means what its input means.
  abbrev pub Preserves : ReformatTransform → Type 0
  Preserves rf =
      (c : Bytes) (out : ReformatOutput) → rf.apply c ≡ ok out → meaning out.output ≡ meaning c

  -- The contract of an offload: the key that it returns has been put.
  abbrev pub Stores : OffloadTransform fl.F → Type 0
  Stores off =
      (c : Bytes) (ctx : CompressionContext) (log : Log)
      → Outcome
          (λ log' res.
            (out : OffloadOutput) → res ≡ ok out → is_in out.cache_key (logged log') ≡ true)
          log (off.apply c ctx)

  -- Nothing was offloaded and the meaning is kept, or one original was put under the one key.
  abbrev pub Kept : Bytes → Log → RunResult → Type 0
  Kept content log r =
      ((r.cache_keys ≡ []) × (meaning r.output ≡ meaning content))
      ⊎ ((key : Bytes) × (r.cache_keys ≡ key ∷ []) × (is_in key (logged log) ≡ true))

  abbrev Reformatted : Bytes → RunResult → Type 0
  Reformatted content r = (r.cache_keys ≡ []) × (meaning r.output ≡ meaning content)

  reformat_step-Reformatted :
      (content : Bytes) (rf : ReformatTransform) (r : RunResult)
      → Preserves rf
      → Reformatted content r
      → (res : Result ReformatOutput) → rf.apply r.output ≡ res
      → Reformatted content (reformat_step fl rf res r)
  unfolding reformat_step
  reformat_step-Reformatted content rf r keeps h (err x) e = h
  reformat_step-Reformatted content rf r keeps h (ok out) e =
      elim (Bool-cases (out.bytes_saved == 0)) [
        | inl nothing ↦ rw nothing h
        | inr saved ↦ rw saved (h.0, keeps r.output out e ∙ h.1)
      ]

  run_reformats-Reformatted :
      (content : Bytes) (config : Config fl) (n : ℕ) (rfs : List ReformatTransform) (r : RunResult)
      → All Preserves rfs
      → Reformatted content r
      → Reformatted content (run_reformats fl config n rfs r)
  unfolding run_reformats
  run_reformats-Reformatted content config n [] r a h = h
  run_reformats-Reformatted content config n (rf ∷ rfs) r a h =
      elim (Bool-cases
        (ltb 0 n && fl.le (fl.ratio (length r.output) n) config.reformat_target_ratio)) [
          | inl small ↦ rw small h
          | inr large ↦ rw large (
              run_reformats-Reformatted content config n rfs _ a.1
                (reformat_step-Reformatted content rf r a.0 h (rf.apply r.output) refl))
        ]

  abbrev offloaded : OffloadTransform fl.F → OffloadOutput → RunResult → RunResult
  offloaded off out r = record r {
    output = out.output;
    bytes_saved = saturating_add r.bytes_saved out.bytes_saved;
    steps_applied = r.steps_applied ++ (off.name ∷ []);
    cache_keys = r.cache_keys ++ (out.cache_key ∷ []);
  }

  step_ok :
      (off : OffloadTransform fl.F) (out : OffloadOutput) (r : RunResult)
      → offload_step fl off (ok out) r
        ≡ (if out.bytes_saved == 0 then (r, false) else (offloaded off out r, true))
  unfolding offload_step
  step_ok off out r = refl

  -- The end of the loop or its next round.
  abbrev resume : (RunResult → Prog RunResult) → RunResult × Bool → Prog RunResult
  resume m s = elim s.1 [ true ↦ done s.0 | false ↦ m s.0 ]

  after_offload :
      (content : Bytes) (off : OffloadTransform fl.F) (r : RunResult) (log : Log)
      (m : RunResult → Prog RunResult)
      → Reformatted content r
      → Outcome (Kept content) log (m r)
      → (res : Result OffloadOutput)
      → ((out : OffloadOutput) → res ≡ ok out → is_in out.cache_key (logged log) ≡ true)
      → (s : RunResult × Bool) → offload_step fl off res r ≡ s
      → Outcome (Kept content) log (resume m s)
  after_offload content off r log m h rest (err x) put s e =
      let same : s ≡ (r, false) = sym e ∙ (unfold offload_step in refl) in
      subst (λ x. Outcome (Kept content) log (resume m x)) (sym same) rest
  after_offload content off r log m h rest (ok out) put s e =
      elim (Bool-cases (out.bytes_saved == 0)) [
        | inl nothing ↦
            let same : s ≡ (r, false) = sym e ∙ (step_ok off out r ∙ (rw nothing)) in
            subst (λ x. Outcome (Kept content) log (resume m x)) (sym same) rest
        | inr saved ↦
            let same : s ≡ (offloaded off out r, true) = sym e ∙ (step_ok off out r ∙ (rw saved)) in
            subst (λ x. Outcome (Kept content) log (resume m x)) (sym same)
              (inr (
                out.cache_key,
                ap (λ (ks : List Bytes). ks ++ (out.cache_key ∷ [])) h.0,
                put out refl,
              ))
      ]

  run_offloads-Kept :
      (content : Bytes) (config : Config fl) (ratio : fl.F) (ctx : CompressionContext)
      (offs : List (OffloadTransform fl.F)) (r : RunResult) (log : Log)
      → All Stores offs
      → Reformatted content r
      → Outcome (Kept content) log (run_offloads fl config ratio ctx offs r)
  unfolding run_offloads
  run_offloads-Kept content config ratio ctx [] r log a h = inl h
  run_offloads-Kept content config ratio ctx (off ∷ offs) r log a h =
      elim (Bool-cases (should_run fl config ratio (off.estimate_bloat r.output))) [
        | inr skip ↦
            rw (skip, run_offloads) (run_offloads-Kept content config ratio ctx offs r log a.1 h)
        | inl go ↦
            rw (go, run_offloads)
              (Outcome-bind _ (Kept content) (off.apply r.output ctx) _ log (a.0 r.output ctx log)
                (λ log' res put.
                  after_offload content off r log' (run_offloads fl config ratio ctx offs) h
                    (run_offloads-Kept content config ratio ctx offs r log' a.1 h) res put
                    (offload_step fl off res r) refl))
      ]

  -- In a pipeline built from transforms that keep their contracts, a run of any content has one of
  -- two outcomes, whatever the store answers: it returns no cache key and an output that means what
  -- the content means, or it returns exactly one cache key, which it has put in the store.
  pub run-Kept :
      (config : Config fl) (reformats : List ReformatTransform)
      (offloads : List (OffloadTransform fl.F)) (content : Bytes) (ct : ContentType)
      (ctx : CompressionContext) (log : Log)
      → All Preserves reformats
      → All Stores offloads
      → Outcome (Kept content) log (run fl (build fl config reformats offloads) content ct ctx)
  unfolding run build
  run-Kept config reformats offloads content ct ctx log keeps stores =
      run_offloads-Kept content config _ ctx _ _ log
        (register-All Stores (λ t. t.applies_to) offloads (λ _. []) stores (λ c. tt) ct)
        (run_reformats-Reformatted content config (length content) _ _
          (register-All Preserves (λ t. t.applies_to) reformats (λ _. []) keeps (λ c. tt) ct)
          (refl, refl))
