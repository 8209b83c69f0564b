-- ===== src/Reformats/LogTemplate/Blocks.antt =====
-- What a reader of the output of log_template.go gets back of the lines.
use headroom_go.Common.{
  ◌+◌, ◌-◌, ◌<◌, ◌≡◌, ◌⊎◌, inl, inr, refl, sym, ap, ◌∙◌, subst, Bool-cases, ◌||◌, List, [], ◌∷◌,
  ◌++◌, append_assoc, append-nil, Option, Option-cases, none, some, arith, Bytes, ltb, leb, text_eq,
  length,
}
use headroom_go.Common.Space.{fields}
use headroom_go.Transform.{ok, err, skipped, ReformatOutput}
use headroom_go.Pipeline.{Float}
use headroom_go.Reformats.{split_lines_rust}
use headroom_go.Reformats.LogTemplate.{
  Run, start_run, flush_run, Mining, flush_active, fix_end, extends_run, extend_run, extended,
  mine_line, mine_lines, nothing_mined, log_template, no_fields, min_lines,
}
use headroom_go.Reformats.LogTemplate.Read.{verbatim}
use headroom_go.Reformats.LogTemplate.Fits.{IsRun, start_run-IsRun, extend_run-IsRun}
use headroom_go.Reformats.LogTemplate.Flushed.{Reads, Reads-append, flush_run-Reads}

abbrev pending : Option Run → List Bytes
pending none = []
pending (some r) = r.lines

abbrev ActiveIsRun : Option Run → Type 0
ActiveIsRun none = Unit
ActiveIsRun (some r) = IsRun r

-- What was written reads as the lines that have been seen, but for those of the active run.
abbrev Mined : Mining → List Bytes → Type 0
Mined m ls =
    (done : List Bytes) × Reads m.out done × (done ++ pending m.active ≡ ls) × ActiveIsRun m.active

flush-Mined : (m : Mining) (ls : List Bytes) → Mined m ls → Reads (flush_active m).out ls
unfolding flush_active
flush-Mined m ls (done, reads, seen, active) = go m.active refl
  where
    go : (a : Option Run) → m.active ≡ a → Reads (flush_active m).out ls
    go none e = rw e (
        subst (Reads m.out) (sym (append-nil done) ∙ (subst (λ x. done ++ pending x ≡ ls) e seen))
          reads)
    go (some r) e = rw e (
        subst (Reads (m.out ++ (flush_run r m.next_id).0))
          (subst (λ x. done ++ pending x ≡ ls) e seen)
          (Reads-append m.out _ done r.lines reads
            (flush_run-Reads r m.next_id (subst ActiveIsRun e active))))

flush_inactive : (m : Mining) → (flush_active m).active ≡ none
unfolding flush_active
flush_inactive m = go m.active refl
  where
    go : (a : Option Run) → m.active ≡ a → (flush_active m).active ≡ none
    go none e = rw e refl
    go (some r) e = rw e refl

some_inj : {A : Type 0} {a b : A} → some a ≡ some b → a ≡ b
some_inj e = ground (arith, e)

-- The output is a shorter text that reads as the lines of the content.
abbrev pub Packed : Bytes → ReformatOutput → Type 0
Packed content out =
    (text : Bytes) × Reads text (split_lines_rust content)
    × (out.output ≡ fix_end content text)
    × (length out.output + out.bytes_saved ≡ length content)
    × (0 < out.bytes_saved)

ok_inj : {a b : ReformatOutput} → ok a ≡ ok b → a ≡ b
ok_inj e = ground (arith, e)

module _ (fl : Float) (similarity : fl.F) where
  extended_lem :
      (a : Option Run) (line : Bytes) (r : Run)
      → ActiveIsRun a
      → extended fl similarity a line ≡ some r
      → IsRun r × (r.lines ≡ pending a ++ (line ∷ []))
  unfolding extended extend_run
  extended_lem none line r h e = absurd (ground (arith, e))
  extended_lem (some q) line r h e = elim (Bool-cases (extends_run fl similarity q (fields line))) [
    | inr stops ↦ absurd (let e' : none ≡ some r = sym (rw stops refl) ∙ e in ground (arith, e'))
    | inl goes ↦
        let same : extend_run fl similarity line q ≡ r = some_inj (sym (rw goes refl) ∙ e) in
        (
          subst IsRun same (extend_run-IsRun fl similarity q line h goes),
          sym (ap (λ x. x.lines) same),
        )
  ]

  extended-Mined :
      (line : Bytes) (m : Mining) (ls : List Bytes) (r : Run)
      → Mined m ls
      → extended fl similarity m.active line ≡ some r
      → Mined (record m { active = some r }) (ls ++ (line ∷ []))
  extended-Mined line m ls r (done, reads, seen, active) e =
      let (isrun, lines) = extended_lem m.active line r active e in
      (
        done,
        reads,
        rw (lines, ← append_assoc done (pending m.active) (line ∷ []), seen) refl,
        isrun,
      )

  -- A line that ends the active run, written or as the first of a new run.
  flushed-Mined :
      (m : Mining) (ls more : List Bytes) (text : Bytes) (a : Option Run)
      → Mined m ls
      → Reads text more
      → ActiveIsRun a
      → Mined
          (record (flush_active m) { out = (flush_active m).out ++ text; active = a })
          (ls ++ (more ++ pending a))
  flushed-Mined m ls more text a h reads active = (
    ls ++ more,
    Reads-append (flush_active m).out text ls more (flush-Mined m ls h) reads,
    append_assoc ls more (pending a),
    active,
  )

  mine_line-Mined :
      (line : Bytes) (m : Mining) (ls : List Bytes)
      → Mined m ls
      → Mined (mine_line fl similarity line m) (ls ++ (line ∷ []))
  unfolding start_run
  mine_line-Mined line m ls h = elim (Bool-cases (no_fields (fields line))) [
    | inl blank ↦
        let as_mined : mine_line fl similarity line m ≡ record (flush_active m) {
          out = (flush_active m).out ++ (line ++ (10 ∷ []));
          active = none;
        } =
          unfold mine_line in rw (blank, flush_inactive m) refl in
        subst (λ x. Mined x (ls ++ (line ∷ []))) (sym as_mined)
          (flushed-Mined m ls (line ∷ []) (line ++ (10 ∷ [])) none h
            (verbatim line ∷ [], sym (append-nil _), refl) tt)
    | inr tokens ↦ elim (Option-cases (extended fl similarity m.active line)) [
      | inl starts ↦
          let as_mined : mine_line fl similarity line m ≡ record (flush_active m) {
            out = (flush_active m).out ++ [];
            active = some (start_run line);
          } =
            unfold mine_line in rw (tokens, starts, append-nil (flush_active m).out) refl in
          subst (λ x. Mined x (ls ++ (line ∷ []))) (sym as_mined)
            (flushed-Mined m ls [] [] (some (start_run line)) h ([], refl, refl)
              (start_run-IsRun line))
      | inr (r, goes_on) ↦
          let as_mined : mine_line fl similarity line m ≡ record m { active = some r } =
            unfold mine_line in rw (tokens, goes_on) refl in
          subst (λ x. Mined x (ls ++ (line ∷ []))) (sym as_mined)
            (extended-Mined line m ls r h goes_on)
    ]
  ]

  mine_lines-Mined :
      (lines : List Bytes) (m : Mining) (ls : List Bytes)
      → Mined m ls
      → Mined (mine_lines fl similarity lines m) (ls ++ lines)
  unfolding mine_lines
  mine_lines-Mined [] m ls h = rw (append-nil ls) h
  mine_lines-Mined (line ∷ lines) m ls h =
      subst (Mined (mine_lines fl similarity (line ∷ lines) m)) (append_assoc ls (line ∷ []) lines)
        (mine_lines-Mined lines (mine_line fl similarity line m) (ls ++ (line ∷ []))
          (mine_line-Mined line m ls h))

  mined_text : Bytes → Bytes
  mined_text content =
      (flush_active (mine_lines fl similarity (split_lines_rust content) nothing_mined)).out

  mined_text-Reads : (content : Bytes) → Reads (mined_text content) (split_lines_rust content)
  unfolding mined_text
  mined_text-Reads content =
      flush-Mined (mine_lines fl similarity (split_lines_rust content) nothing_mined)
        (split_lines_rust content)
        (mine_lines-Mined (split_lines_rust content) nothing_mined []
          ([], ([], refl, refl), refl, tt))

  -- Where the reformat does not skip, it returns the content itself with no saving, or a text that,
  -- but for a last newline that the content lacks, is a sequence of lines as they are and of templates
  -- with a table: putting each row of a table, in order, in the place of its template's wildcards
  -- gives, with the lines as they are, the tokens of all lines of the content in their order. That text
  -- is shorter than the content by the saving, which is positive.
  pub log_template-Reads :
      (content : Bytes) (out : ReformatOutput)
      → log_template fl similarity content ≡ ok out
      → ((out.output ≡ content) × (out.bytes_saved ≡ 0)) ⊎ Packed content out
  unfolding log_template mined_text
  log_template-Reads content out e =
      elim (Bool-cases (text_eq content [] || ltb (length (split_lines_rust content)) min_lines)) [
        | inl skips ↦
            absurd (let e' : err skipped ≡ ok out = sym (rw skips refl) ∙ e in ground (arith, e'))
        | inr works ↦ elim (Bool-cases (leb (length content) (length result))) [
          | inl grows ↦
              let same : record { output = content; bytes_saved = 0 } ≡ out =
                ok_inj (sym (rw (works, grows) refl) ∙ e) in
              inl (sym (ap (λ x. x.output) same), sym (ap (λ x. x.bytes_saved) same))
          | inr shrinks ↦
              let same : record { output = result; bytes_saved = length content - length result }
                  ≡ out =
                ok_inj (sym (rw (works, shrinks) refl) ∙ e) in
              inr (
                subst (Packed content) same (
                  mined_text content,
                  mined_text-Reads content,
                  refl,
                  ground (arith, shrinks),
                  ground (arith, shrinks),
                ))
        ]
      ]
    where
      result : Bytes
      result = fix_end content (mined_text content)
