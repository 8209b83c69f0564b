-- ===== src/LiveZone/Dispatch/Rounds/Order.antt =====
-- The slots of a body stand in its order, and the replacements of the two passes apart.
use headroom_go.Common.{
  ℕ, zero, suc, ◌+◌, ◌≡◌, ◌≢◌, ◌≤◌, ◌<◌, ◌⊎◌, inl, inr, refl, ap, sym, subst, ◌∙◌, Bool, true,
  false, not, List, [], ◌∷◌, ◌++◌, Option, none, some, Bytes, codes, keep, arith, get_elem?, All,
  All-append, if◌then◌else◌,
}
use headroom_go.Json.{Json, member, elements}
use headroom_go.Json.Layout.{LaidList, Laid-le, member-Laid}
use headroom_go.LiveZone.Splice.{Replacement}
use headroom_go.LiveZone.Splice.Complete.{Disjoint, IsSpan, AllApart}
use headroom_go.LiveZone.Plan.{PlanSlot, writes, plan_blocks, plan_content, nth}
use headroom_go.LiveZone.Plan.Spans.{Chain, Chain-append, writable, plan_content-Chain}
use headroom_go.LiveZone.Pass.{claimed}
use headroom_go.LiveZone.Planned.{Among}
use headroom_go.LiveZone.Picked.{
  Spans, Picked, passed_over, taken, Picked-bounds, Picked-AllApart, Picked-Among, Chain-Apart,
}
use headroom_go.LiveZone.Replay.Rounds.{slots_from}
use headroom_go.LiveZone.Dispatch.Rounds.{unclaimed, fresh_of}

-- A test's part in a list.
Among-keep :
    (p : PlanSlot → Bool) (t : PlanSlot) (xs : List PlanSlot)
    → Among t (keep p xs)
    → Among t xs × (p t ≡ true)
Among-keep p t [] a = absurd a
Among-keep p t (x ∷ xs) a = by_test (p x) refl a (Among-keep p t xs)
  where
    by_test :
        (b : Bool)
        → p x ≡ b
        → Among t (if b then x ∷ keep p xs else keep p xs)
        → (Among t (keep p xs) → Among t xs × (p t ≡ true))
        → Among t (x ∷ xs) × (p t ≡ true)
    by_test true e (inl same) rest = (inl same, rw same e)
    by_test true e (inr later) rest = let (b, c) = rest later in (inr b, c)
    by_test false e later rest = let (b, c) = rest later in (inr b, c)

keep-Among :
    (p : PlanSlot → Bool) (t : PlanSlot) (xs : List PlanSlot)
    → p t ≡ true
    → Among t xs
    → Among t (keep p xs)
keep-Among p t [] e a = a
keep-Among p t (x ∷ xs) e a = by_test (p x) refl a (keep-Among p t xs e)
  where
    by_test :
        (b : Bool)
        → p x ≡ b
        → Among t (x ∷ xs)
        → (Among t xs → Among t (keep p xs))
        → Among t (if b then x ∷ keep p xs else keep p xs)
    by_test true f (inl same) rest = inl same
    by_test true f (inr later) rest = inr (rest later)
    by_test false f (inl same) rest =
        let clash : true ≡ false = sym e ∙ (ap p same ∙ f) in absurd (ground (arith, clash))
    by_test false f (inr later) rest = rest later

Among-append_left : (t : PlanSlot) (xs ys : List PlanSlot) → Among t xs → Among t (xs ++ ys)
Among-append_left t [] ys a = absurd a
Among-append_left t (x ∷ xs) ys (inl e) = inl e
Among-append_left t (x ∷ xs) ys (inr a) = inr (Among-append_left t xs ys a)

Among-append_right : (t : PlanSlot) (xs ys : List PlanSlot) → Among t ys → Among t (xs ++ ys)
Among-append_right t [] ys a = a
Among-append_right t (x ∷ xs) ys a = inr (Among-append_right t xs ys a)

AllApart-append :
    (xs ys : List Replacement)
    → AllApart xs
    → AllApart ys
    → All (λ x. All (Disjoint x) ys) xs
    → AllApart (xs ++ ys)
AllApart-append [] ys a b c = b
AllApart-append (x ∷ xs) ys a b c =
    (All-append (Disjoint x) xs ys a.0 c.0, AllApart-append xs ys a.1 b c.1)

unclaimed_start : (rs : List Replacement) (x : ℕ) → claimed rs x ≡ false → All (λ r. r.start ≢ x) rs
unfolding claimed
unclaimed_start [] x h = tt
unclaimed_start (r ∷ rs) x h =
    ((λ e. ground (arith, e, h)), unclaimed_start rs x (ground (arith, h)))

-- The messages from `k` on.
abbrev pub Suffix : Option Json → ℕ → List Json → Type 0
Suffix root k msgs =
    (i n : ℕ) → n ≡ k + i → nth (elements (member (codes "messages") root)) n ≡ get_elem? msgs i

Suffix-next :
    (root : Option Json) (k : ℕ) (m : Json) (msgs : List Json)
    → Suffix root k (m ∷ msgs)
    → Suffix root (k + 1) msgs
Suffix-next root k m msgs h i n e = h (suc i) n (omega arith)

plan_of :
    (root : Option Json) (k : ℕ) (o : Option Json)
    → nth (elements (member (codes "messages") root)) k ≡ o
    → plan_blocks root k ≡ plan_content (member (codes "content") o)
unfolding plan_blocks
plan_of root k o e = ap (λ (x : Option Json). plan_content (member (codes "content") x)) e

pub slots_from-Chain :
    (body : Bytes) (root : Option Json) (lo hi k : ℕ) (msgs : List Json)
    → Suffix root k msgs
    → LaidList body lo hi msgs
    → Chain lo hi (slots_from root k msgs)
slots_from-Chain body root lo hi k [] h laid = laid
slots_from-Chain body root lo hi k (m ∷ msgs) h (mid, p, q) =
    Chain-append lo mid hi (writable (plan_blocks root k)) (slots_from root (k + 1) msgs)
      (rw (plan_of root k (some m) (h 0 k (omega arith))) (
        plan_content-Chain body lo mid (member (codes "content") (some m)) (Laid-le body lo mid m p)
          (member-Laid body (codes "content") lo mid (some m) p)))
      (slots_from-Chain body root mid hi (k + 1) msgs (Suffix-next root k m msgs h) q)

none_planned : plan_content (member (codes "content") none) ≡ []
unfolding plan_content member
none_planned = refl

slots_from-Among :
    (root : Option Json) (t : PlanSlot) (k i n : ℕ) (msgs : List Json)
    → Suffix root k msgs
    → n ≡ k + i
    → Among t (writable (plan_blocks root n))
    → Among t (slots_from root k msgs)
slots_from-Among root t k i n [] h e a =
    subst (λ ss. Among t (writable ss)) (plan_of root n none (h i n e) ∙ none_planned) a
slots_from-Among root t k zero n (m ∷ msgs) h e a =
    let same : n ≡ k = omega arith in
    Among-append_left t (writable (plan_blocks root k)) (slots_from root (k + 1) msgs)
      (subst (λ x. Among t (writable (plan_blocks root x))) same a)
slots_from-Among root t k (suc i) n (m ∷ msgs) h e a =
    Among-append_right t (writable (plan_blocks root k)) (slots_from root (k + 1) msgs)
      (slots_from-Among root t (k + 1) i n msgs (Suffix-next root k m msgs h) (omega arith) a)

keep-keep : (p q : PlanSlot → Bool) (xs : List PlanSlot) → keep p (keep q xs) ≡ keep q (keep p xs)
keep-keep p q [] = refl
keep-keep p q (x ∷ xs) = ground (arith, keep-keep p q xs)

Picked-keep :
    (p : PlanSlot → Bool) (rs : List Replacement) (ss : List PlanSlot)
    → Picked rs (keep p ss)
    → Picked rs ss
Picked-keep p rs [] h = h
Picked-keep p rs (s ∷ ss) h = by_test (p s) rs h (λ qs. Picked-keep p qs ss)
  where
    by_test :
        (b : Bool) (qs : List Replacement)
        → Picked qs (if b then s ∷ keep p ss else keep p ss)
        → ((qs : List Replacement) → Picked qs (keep p ss) → Picked qs ss)
        → Picked qs (s ∷ ss)
    by_test true qs (passed_over _ _ _ k) rest = passed_over s qs ss (rest qs k)
    by_test true _ (taken r _ qs _ e k) rest = taken r s qs ss e (rest qs k)
    by_test false qs k rest = passed_over s qs ss (rest qs k)

module _ (root : Option Json) (msgs : List Json) (hi : ℕ) (suffix : Suffix root 0 msgs)
    (chain : Chain 0 hi (slots_from root 0 msgs))
    (each : (k : ℕ) → Chain 0 hi (writable (plan_blocks root k))) where
  -- A replacement of the first pass and one of the second.
  apart :
      (rs : List Replacement) (live : Option ℕ) (r q : Replacement)
      → (s : PlanSlot) × Among s (slots_from root 0 msgs) × Spans r s
      → ((x : ℕ) → claimed rs x ≡ false → r.start ≢ x)
      → (t : PlanSlot) × Among t (fresh_of root rs live) × Spans q t
      → Disjoint r q
  apart rs none r q (s, a, e) free (t, b, f) = absurd b
  apart rs (some k) r q (s, a, e) free (t, b, f) =
      let (in_open, may) = Among-keep writes t (unclaimed rs (plan_blocks root k)) b in
      let (in_plan, is_open) =
        Among-keep (λ s. not (claimed rs s.start)) t (plan_blocks root k) in_open in
      let in_slots =
        slots_from-Among root t 0 k k msgs suffix (omega arith)
          (keep-Among writes t (plan_blocks root k) may in_plan) in
      by_order (
        Chain-Apart 0 hi (slots_from root 0 msgs) s t chain a in_slots
          (λ same. free t.start (ground (arith, is_open)) (e.0 ∙ same)))
    where
      by_order : (s.end ≤ t.start) ⊎ (t.end ≤ s.start) → Disjoint r q
      by_order (inl before) = inl (omega (arith, e.1, f.0))
      by_order (inr behind) = inr (omega (arith, e.0, f.1))

  one_apart :
      (rs : List Replacement) (live : Option ℕ) (r : Replacement) (qs : List Replacement)
      → (s : PlanSlot) × Among s (slots_from root 0 msgs) × Spans r s
      → ((x : ℕ) → claimed rs x ≡ false → r.start ≢ x)
      → All (λ q. (t : PlanSlot) × Among t (fresh_of root rs live) × Spans q t) qs
      → All (Disjoint r) qs
  one_apart rs live r [] from free h = tt
  one_apart rs live r (q ∷ qs) from free h =
      (apart rs live r q from free h.0, one_apart rs live r qs from free h.1)

  each_apart :
      (rs : List Replacement) (live : Option ℕ) (xs qs : List Replacement)
      → All (λ r. (s : PlanSlot) × Among s (slots_from root 0 msgs) × Spans r s) xs
      → ((x : ℕ) → claimed rs x ≡ false → All (λ r. r.start ≢ x) xs)
      → All (λ q. (t : PlanSlot) × Among t (fresh_of root rs live) × Spans q t) qs
      → All (λ r. All (Disjoint r) qs) xs
  each_apart rs live [] qs from free h = tt
  each_apart rs live (r ∷ xs) qs from free h = (
    one_apart rs live r qs from.0 (λ x c. (free x c).0) h,
    each_apart rs live xs qs from.1 (λ x c. (free x c).1) h,
  )

  -- The slots of the fresh pass in a chain.
  fresh-Picked :
      (rs qs : List Replacement) (live : Option ℕ)
      → Picked qs (fresh_of root rs live)
      → (ss : List PlanSlot) × Picked qs ss × Chain 0 hi ss
  fresh-Picked rs qs none h = ([], h, omega arith)
  fresh-Picked rs qs (some k) h = (
    writable (plan_blocks root k),
    Picked-keep (λ s. not (claimed rs s.start)) qs (writable (plan_blocks root k))
        (subst (λ ss. Picked qs ss)
          (keep-keep writes (λ s. not (claimed rs s.start)) (plan_blocks root k)) h),
    each k,
  )

  spans_of :
      (rs : List Replacement)
      → All (λ r. (0 ≤ r.start) × (r.start < r.end) × (r.end ≤ hi)) rs
      → All (IsSpan hi) rs
  spans_of [] h = tt
  spans_of (r ∷ rs) ((a, b, c), h) = ((b, c), spans_of rs h)

  -- The replacements of both passes together.
  pub passes-AllApart :
      (rs qs : List Replacement) (live : Option ℕ)
      → Picked rs (slots_from root 0 msgs)
      → Picked qs (fresh_of root rs live)
      → All (IsSpan hi) (rs ++ qs) × AllApart (rs ++ qs)
  passes-AllApart rs qs live pr pq =
      let (ss, pqs, fresh_chain) = fresh-Picked rs qs live pq in
      (
        All-append (IsSpan hi) rs qs
            (spans_of rs (Picked-bounds 0 hi rs (slots_from root 0 msgs) pr chain))
            (spans_of qs (Picked-bounds 0 hi qs ss pqs fresh_chain)),
        AllApart-append rs qs (Picked-AllApart 0 hi rs (slots_from root 0 msgs) pr chain)
            (Picked-AllApart 0 hi qs ss pqs fresh_chain)
            (each_apart rs live rs qs (Picked-Among rs (slots_from root 0 msgs) pr)
              (unclaimed_start rs) (Picked-Among qs (fresh_of root rs live) pq)),
      )
