-- ===== src/TagProtect/RoundTrip.antt =====
-- RestoreTags of tagprotect.go on what ProtectTags gives.
use headroom_go.Common.{
  ℕ, zero, suc, ◌+◌, ◌≤◌, ◌<◌, ◌≡◌, ◌≢◌, inl, inr, refl, sym, ap, ◌∙◌, subst, Bool, Bool-cases,
  true, false, not, ◌&&◌, ◌||◌, List, [], ◌∷◌, ◌++◌, append_assoc, append-nil, reverse, arith,
  Bytes, codes, contains, text_eq, length, drop, slice,
}
use headroom_go.Ccr.Marker.{decimal}
use headroom_go.TagProtect.{
  Span, placeholder, placeholder_suffix, emit_spans, emit_if_any, replace_from, restore_tags,
  protect_tags, choose_prefix, collect_tags, fallback_prefix, default_prefix, salted_prefix,
  try_salts,
}
use headroom_go.TagProtect.Occurs.{
  borderless, Clear, Clear-append, replace_from-Clear, Stops, text-Clear, placeholder-Clear,
}
use headroom_go.TagProtect.Spans.{Chain, collect_tags-Chain}
use headroom_go.TagProtect.Replaced.{
  contains-left, contains-right, contains_middle, replace_occurrence, drop_split,
  restore_occurrence,
}

ne_of_lt : (i k : ℕ) → i < k → i ≢ k
ne_of_lt i k lt = λ e. absurd (omega arith)

module _ (prefix' : Bytes) (alone : borderless (b'{' ∷ prefix') ≡ true) where
  abbrev prefix : Bytes
  prefix = b'{' ∷ prefix'

  free-Clear :
      (a x : Bytes) (i : ℕ)
      → contains a prefix ≡ false
      → Stops prefix' alone x
      → Clear (placeholder prefix i) a x
  unfolding placeholder
  free-Clear a x i lacks stops =
      text-Clear prefix' alone (decimal i ++ placeholder_suffix) a x lacks stops

  placeholder-Stops : (i : ℕ) (x : Bytes) → Stops prefix' alone (placeholder prefix i ++ x)
  unfolding placeholder
  placeholder-Stops i x =
      let tail = decimal i ++ placeholder_suffix in inr (tail ++ x, append_assoc prefix tail x)

  replace-placeholder :
      (new b x : Bytes) (i : ℕ)
      → contains b prefix ≡ false
      → Clear (placeholder prefix i) x []
      → replace_from 0 (placeholder prefix i) new (b ++ (placeholder prefix i ++ x))
        ≡ b ++ (new ++ x)
  unfolding placeholder replace_from
  replace-placeholder new b x i lacks clear =
      let hidden = placeholder prefix i in
      let rest : replace_from 0 hidden new x ≡ x =
        ap (replace_from 0 hidden new) (sym (append-nil x))
        ∙ replace_from-Clear hidden new x [] clear
        ∙ append-nil x in
      replace_from-Clear hidden new b (hidden ++ x)
        (free-Clear b (hidden ++ x) i lacks (placeholder-Stops i x))
      ∙ ap (λ t. b ++ t)
          (replace_occurrence b'{' (prefix' ++ (decimal i ++ placeholder_suffix)) new x
            ∙ ap (λ t. new ++ t) rest)

  emit_spans-Stops :
      (text : Bytes) (k cursor : ℕ) (ss : List Span)
      → contains (drop cursor text) prefix ≡ false
      → (n : ℕ) → Chain n cursor ss
      → (i : ℕ) → i < k
      → Clear (placeholder prefix i) (emit_spans prefix text k cursor ss).0 []
  unfolding emit_spans
  emit_spans-Stops text k cursor [] lacks n c i lt =
      free-Clear (drop cursor text) [] i lacks (inl refl)
  emit_spans-Stops text k cursor (s ∷ ss) lacks n c i lt =
      let seg = slice cursor s.start text in
      let out = (emit_spans prefix text (k + 1) s.end ss).0 in
      let before : contains (seg ++ drop s.start text) prefix ≡ false =
        rw (drop_split cursor s.start text c.0) lacks in
      let after : contains (slice cursor s.end text ++ drop s.end text) prefix ≡ false =
        rw (drop_split cursor s.end text (omega arith)) lacks in
      Clear-append (placeholder prefix i) seg (placeholder prefix k ++ out) []
        (rw (append_assoc (placeholder prefix k) out []) (
          free-Clear seg (placeholder prefix k ++ (out ++ [])) i
            (contains-left seg (drop s.start text) prefix before)
            (placeholder-Stops k (out ++ []))))
        (Clear-append (placeholder prefix i) (placeholder prefix k) out []
          (placeholder-Clear prefix' alone i k (out ++ []) (ne_of_lt i k lt))
          (emit_spans-Stops text (k + 1) s.end ss
            (contains-right (slice cursor s.end text) (drop s.end text) prefix after) n c.2 i
            (omega arith)))

  restore_emitted :
      (text a : Bytes) (k cursor n : ℕ) (ss : List Span)
      → contains (a ++ drop cursor text) prefix ≡ false
      → Chain n cursor ss
      → restore_tags
          (a ++ (emit_spans prefix text k cursor ss).0)
          (emit_spans prefix text k cursor ss).1
        ≡ a ++ drop cursor text
  unfolding emit_spans restore_tags
  restore_emitted text a k cursor n [] lacks c = refl
  restore_emitted text a k cursor n (s ∷ ss) lacks c =
      let seg = slice cursor s.start text in
      let original = slice s.start s.end text in
      let b = a ++ seg in
      let hidden = placeholder prefix k in
      let out = (emit_spans prefix text (k + 1) s.end ss).0 in
      let original_here : original ++ drop s.end text ≡ drop s.start text =
        drop_split s.start s.end text c.1 in
      let whole : (b ++ original) ++ drop s.end text ≡ a ++ drop cursor text =
        append_assoc b original (drop s.end text)
        ∙ append_assoc a seg (original ++ drop s.end text)
        ∙ ap (λ t. a ++ (seg ++ t)) original_here
        ∙ ap (λ t. a ++ t) (drop_split cursor s.start text c.0) in
      let lacks' : contains ((b ++ original) ++ drop s.end text) prefix ≡ false = rw whole lacks in
      let free : contains b prefix ≡ false =
        contains-left b original prefix
          (contains-left (b ++ original) (drop s.end text) prefix lacks') in
      let clear : Clear hidden out [] =
        emit_spans-Stops text (k + 1) s.end ss
          (contains-right (b ++ original) (drop s.end text) prefix lacks') n c.2 k (omega arith) in
      let regroup : b ++ (hidden ++ out) ≡ a ++ (seg ++ (hidden ++ out)) =
        append_assoc a seg (hidden ++ out) in
      let replaced : replace_from 0 hidden original (b ++ (hidden ++ out))
          ≡ (b ++ original) ++ out =
        replace-placeholder original b out k free clear ∙ sym (append_assoc b original out) in
      restore_occurrence hidden original _ _ (emit_spans prefix text (k + 1) s.end ss).1
        (ap (λ w. contains w hidden) (sym regroup) ∙ contains_middle b hidden out)
        (ap (replace_from 0 hidden original) (sym regroup) ∙ replaced)
      ∙ restore_emitted text (b ++ original) (k + 1) s.end n ss lacks' c.2
      ∙ whole

-- A prefix that a text may be protected with.
abbrev IsUsable : Bytes → Bytes → Type 0
IsUsable text p =
    (q : Bytes) × (p ≡ b'{' ∷ q)
    × (borderless (b'{' ∷ q) ≡ true)
    × (contains text (b'{' ∷ q) ≡ false)

salts_alone : ℕ → Bool
salts_alone zero = true
salts_alone (suc n) = borderless (salted_prefix n) && salts_alone n

salts_alone_16 : salts_alone 16 ≡ true
unfolding salts_alone borderless salted_prefix decimal
salts_alone_16 = refl

fallback_alone : borderless fallback_prefix ≡ true
unfolding borderless
fallback_alone = refl

default_alone : borderless default_prefix ≡ true
unfolding borderless
default_alone = refl

salt_alone : (n salt : ℕ) → salts_alone n ≡ true → salt < n → borderless (salted_prefix salt) ≡ true
unfolding salts_alone
salt_alone zero salt h lt = absurd (omega arith)
salt_alone (suc n) salt h lt = ground (arith, salt_alone n salt)

salted_prefix-cons : (salt : ℕ) → (q : Bytes) × (salted_prefix salt ≡ b'{' ∷ q)
unfolding salted_prefix
salted_prefix-cons salt = (codes "{HEADROOM_TAG_" ++ (decimal salt ++ codes "_"), refl)

module _ (text : Bytes) (lacks : contains text fallback_prefix ≡ false) where
  try_salts-IsUsable :
      (attempts salt : ℕ) → salt + attempts ≤ 16 → IsUsable text (try_salts text attempts salt)
  unfolding try_salts
  try_salts-IsUsable zero salt le =
      (codes "{HEADROOM_TAG_FALLBACK_a4f1c7e2_", refl, fallback_alone, lacks)
  try_salts-IsUsable (suc attempts) salt le =
      elim (Bool-cases (contains text (salted_prefix salt))) [
        | inl has ↦ rw has (try_salts-IsUsable attempts (salt + 1) (omega arith))
        | inr free ↦
            let (q, e) = salted_prefix-cons salt in
            rw free
              (q, e, rw (← e) (salt_alone 16 salt salts_alone_16 (omega arith)), rw (← e) free)
      ]

  choose_prefix-IsUsable : IsUsable text (choose_prefix text).0
  unfolding choose_prefix
  choose_prefix-IsUsable = elim (Bool-cases (contains text default_prefix)) [
    | inl has ↦ rw has (try_salts-IsUsable 16 0 (omega arith))
    | inr free ↦ rw free (codes "{HEADROOM_TAG_", refl, default_alone, free)
  ]

  emit_if_any-restores :
      (p : Bytes) (ss : List Span)
      → IsUsable text p
      → Chain (length text) 0 ss
      → restore_tags (emit_if_any p text ss).0 (emit_if_any p text ss).1 ≡ text
  unfolding emit_if_any restore_tags
  emit_if_any-restores p [] usable c = refl
  emit_if_any-restores p (s ∷ ss) (q, e, alone, free) c =
      subst
        (λ r.
          restore_tags (emit_spans r text 0 0 (s ∷ ss)).0 (emit_spans r text 0 0 (s ∷ ss)).1 ≡ text)
        (sym e) (restore_emitted q alone text [] 0 0 (length text) (s ∷ ss) free c)

-- Restoring what was protected gives the text back, in both modes and whatever the tags in it, when the
-- text does not have the prefix of last resort: of the other prefixes one that it lacks is chosen.
pub restore_tags-protect_tags :
    (text : Bytes) (compress_tagged_content : Bool)
    → contains text fallback_prefix ≡ false
    → let (protected, blocks, _) = protect_tags text compress_tagged_content in
      restore_tags protected blocks ≡ text
unfolding protect_tags restore_tags
restore_tags-protect_tags text flag lacks =
    elim (Bool-cases (text_eq text [] || not (contains text (codes "<")))) [
      | inl plain ↦ rw plain refl
      | inr tagged ↦ rw tagged (
          emit_if_any-restores text lacks (choose_prefix text).0
            (reverse (collect_tags flag text).spans) (choose_prefix-IsUsable text lacks)
            (collect_tags-Chain flag text))
    ]
