-- ===== src/LiveZone/Plan/Spans.antt =====
-- Where the slots of a plan stand in the body, when the tree is laid out as gjson documents.
use headroom_go.Common.{
  ℕ, zero, suc, ◌+◌, ◌≤◌, ◌≡◌, refl, Bool, Bool-cases, Option-cases, inl, inr, ◌||◌, ltb, List, [],
  ◌∷◌, ◌++◌, Option, none, some, arith, Bytes, codes, length, keep, text_eq, is_some, get_elem?,
}
use headroom_go.Json.{Json, str, lit, arr, obj, member, elements, items_list, string_of}
use headroom_go.Json.Layout.{
  Laid, Laid-le, LaidOption, Laid-wider, LaidList, LaidList-le, LaidList-items, member-Laid,
  elements-Laid,
}
use headroom_go.LiveZone.Plan.{
  SlotKind, compressible, string_content, hot_zone, below_threshold, image, unreachable, PlanSlot,
  writes, block_byte_threshold, is_hot_zone, string_slot, classify, mark, nested_slot, plan_elem,
  plan_elems, field_slot, plan_tool_result, plan_block, plan_list, plan_string, plan_content, nth,
  plan_blocks,
}

-- Spans in order, apart, and with room for two quotes each.
abbrev pub Chain : ℕ → ℕ → List PlanSlot → Type 0
Chain lo hi [] = lo ≤ hi
Chain lo hi (s ∷ ss) = (lo ≤ s.start) × (s.start + 2 ≤ s.end) × Chain s.end hi ss

abbrev pub writable : List PlanSlot → List PlanSlot
writable = keep writes

keep-append {ℓ} :
    {A : Type ℓ} (p : A → Bool) (xs ys : List A) → keep p (xs ++ ys) ≡ keep p xs ++ keep p ys
keep-append p [] ys = refl
keep-append p (x ∷ xs) ys = ground (arith, keep-append p xs ys)

pub writable-append : (xs ys : List PlanSlot) → writable (xs ++ ys) ≡ writable xs ++ writable ys
writable-append xs ys = keep-append writes xs ys

pub Chain-le : (lo hi : ℕ) (ss : List PlanSlot) → Chain lo hi ss → lo ≤ hi
Chain-le lo hi [] h = h
Chain-le lo hi (s ∷ ss) (a, b, c) = omega (arith, Chain-le s.end hi ss c)

pub Chain-wider :
    (lo lo' hi hi' : ℕ) (ss : List PlanSlot)
    → lo' ≤ lo
    → hi ≤ hi'
    → Chain lo hi ss
    → Chain lo' hi' ss
Chain-wider lo lo' hi hi' [] a b h = omega arith
Chain-wider lo lo' hi hi' (s ∷ ss) a b (p, q, r) =
    (omega arith, q, Chain-wider s.end s.end hi hi' ss (omega arith) b r)

pub Chain-append :
    (lo m hi : ℕ) (xs ys : List PlanSlot) → Chain lo m xs → Chain m hi ys → Chain lo hi (xs ++ ys)
Chain-append lo m hi [] ys h k = Chain-wider m lo hi hi ys h (omega arith) k
Chain-append lo m hi (s ∷ xs) ys (p, q, r) k = (p, q, Chain-append s.end m hi xs ys r k)

module _ (body : Bytes) where
  string_slot-Laid :
      (lo hi : ℕ) (o : Option Json) (s e : ℕ) (t : Bytes)
      → LaidOption body lo hi o
      → string_slot o ≡ some (s, e, t)
      → (lo ≤ s) × (s + 2 ≤ e) × (e ≤ hi)
  unfolding string_slot Laid
  string_slot-Laid lo hi none s e t h k = absurd (ground (arith, k))
  string_slot-Laid lo hi (some (lit raw text)) s e t h k = absurd (ground (arith, k))
  string_slot-Laid lo hi (some (arr raw xs)) s e t h k = absurd (ground (arith, k))
  string_slot-Laid lo hi (some (obj raw fs)) s e t h k = absurd (ground (arith, k))
  string_slot-Laid lo hi (some (str index raw text)) s e t h k = ground (arith, k)

  -- A single slot: its span, if it is written, stands between two positions.
  abbrev Within : ℕ → ℕ → PlanSlot → Type 0
  Within lo hi s = Chain lo hi (writable (s ∷ []))

  Within-classify :
      (lo hi i : ℕ) (ty : Bytes) (k : SlotKind) (s e : ℕ) (t id : Bytes) (c : Option ℕ)
      → (lo ≤ s) × (s + 2 ≤ e) × (e ≤ hi)
      → Within lo hi (record (classify i ty (s, e, t) k) { tool_use_id = id; content_index = c })
  unfolding classify
  Within-classify lo hi i ty k s e t id c h =
      elim (Bool-cases (ltb (length t) block_byte_threshold)) [
        | inl short ↦ rw short (omega arith)
        | inr long ↦ rw long (by_kind k)
      ]
    where
      by_kind :
          (k : SlotKind)
          → Within lo hi (record {
            block_index = i;
            kind = k;
            block_type = ty;
            text = t;
            start = s;
            end = e;
            tool_use_id = id;
            content_index = c;
          })
      by_kind compressible = h
      by_kind string_content = h
      by_kind image = h
      by_kind hot_zone = omega arith
      by_kind below_threshold = omega arith
      by_kind unreachable = omega arith

  nested_slot-Within :
      (lo hi i j : ℕ) (id ty : Bytes) (k : SlotKind) (o : Option Json)
      → lo ≤ hi
      → LaidOption body lo hi o
      → Within lo hi (nested_slot i j id ty k (string_slot o))
  unfolding nested_slot mark
  nested_slot-Within lo hi i j id ty k o le h = elim (Option-cases (string_slot o)) [
    | inl miss ↦ rw miss le
    | inr ((s, e, t), hit) ↦
        rw hit
          (Within-classify lo hi i ty k s e t id (some j) (string_slot-Laid lo hi o s e t h hit))
  ]

  plan_elem-Within :
      (lo hi i j : ℕ) (id : Bytes) (elem : Json)
      → lo ≤ hi
      → Laid body lo hi elem
      → Within lo hi (plan_elem i j id elem)
  unfolding plan_elem mark
  plan_elem-Within lo hi i j id elem le h =
      let ty = string_of (member (codes "type") (some elem)) in
      elim (Bool-cases (is_some (member (codes "cache_control") (some elem)) || is_hot_zone ty)) [
        | inl hot ↦ rw hot le
        | inr cold ↦ elim (Bool-cases (text_eq ty (codes "text"))) [
          | inl is_text ↦
              rw (cold, is_text)
                (nested_slot-Within lo hi i j id ty compressible (member (codes "text") (some elem))
                  le (member-Laid body (codes "text") lo hi (some elem) h))
          | inr no_text ↦ elim (Bool-cases (text_eq ty (codes "image"))) [
            | inl is_image ↦
                rw (cold, no_text, is_image)
                  (nested_slot-Within lo hi i j id ty image _ le (
                    member-Laid body (codes "data") lo hi _
                      (member-Laid body (codes "source") lo hi (some elem) h)))
            | inr neither ↦ rw (cold, no_text, neither) le
          ]
        ]
      ]

  Chain-cons :
      (lo m hi : ℕ) (s : PlanSlot) (ss : List PlanSlot)
      → Within lo m s
      → Chain m hi (writable ss)
      → Chain lo hi (writable (s ∷ ss))
  Chain-cons lo m hi s ss h k =
      rw (keep-append writes (s ∷ []) ss)
        (Chain-append lo m hi (writable (s ∷ [])) (writable ss) h k)

  plan_elems-Chain :
      (lo hi i j : ℕ) (id : Bytes) (elems : List Json)
      → LaidList body lo hi elems
      → Chain lo hi (writable (plan_elems i j id elems))
  unfolding plan_elems
  plan_elems-Chain lo hi i j id [] h = h
  plan_elems-Chain lo hi i j id (elem ∷ elems) (m, p, q) =
      Chain-cons lo m hi (plan_elem i j id elem) (plan_elems i (j + 1) id elems)
        (plan_elem-Within lo m i j id elem (Laid-le body lo m elem p) p)
        (plan_elems-Chain m hi i (j + 1) id elems q)

  field_slot-Within :
      (lo hi i : ℕ) (ty id : Bytes) (k : SlotKind) (o : Option Json)
      → lo ≤ hi
      → LaidOption body lo hi o
      → Within lo hi (field_slot i ty id k (string_slot o))
  unfolding field_slot mark
  field_slot-Within lo hi i ty id k o le h = elim (Option-cases (string_slot o)) [
    | inl miss ↦ rw miss le
    | inr ((s, e, t), hit) ↦ rw hit (
        unfold classify in
        Within-classify lo hi i ty k s e t id none (string_slot-Laid lo hi o s e t h hit))
  ]

  plan_tool_result-Chain :
      (lo hi i : ℕ) (ty id : Bytes) (inner : Option Json)
      → lo ≤ hi
      → LaidOption body lo hi inner
      → Chain lo hi (writable (plan_tool_result i ty id inner (elements inner)))
  unfolding plan_tool_result
  plan_tool_result-Chain lo hi i ty id inner le h = elim (Option-cases (elements inner)) [
    | inl no_list ↦ rw no_list (field_slot-Within lo hi i ty id compressible inner le h)
    | inr (elems, list) ↦
        rw list (plan_elems-Chain lo hi i 0 id elems (elements-Laid body lo hi inner elems h list))
  ]

  plan_block-Chain :
      (lo hi i : ℕ) (block : Json)
      → Laid body lo hi block
      → Chain lo hi (writable (plan_block i block))
  unfolding plan_block mark
  plan_block-Chain lo hi i block h =
      let ty = string_of (member (codes "type") (some block)) in
      let le = Laid-le body lo hi block h in
      elim (Bool-cases (is_hot_zone ty)) [
        | inl hot ↦ rw hot le
        | inr cold ↦ elim (Bool-cases (text_eq ty (codes "text"))) [
          | inl is_text ↦
              rw (cold, is_text)
                (field_slot-Within lo hi i ty [] compressible (member (codes "text") (some block))
                  le (member-Laid body (codes "text") lo hi (some block) h))
          | inr no_text ↦ elim (Bool-cases (text_eq ty (codes "image"))) [
            | inl is_image ↦
                rw (cold, no_text, is_image)
                  (field_slot-Within lo hi i ty [] image _ le (
                    member-Laid body (codes "data") lo hi _
                      (member-Laid body (codes "source") lo hi (some block) h)))
            | inr no_image ↦ elim (Bool-cases (text_eq ty (codes "tool_result"))) [
              | inl result ↦
                  rw (cold, no_text, no_image, result)
                    (plan_tool_result-Chain lo hi i ty _ (member (codes "content") (some block)) le
                      (member-Laid body (codes "content") lo hi (some block) h))
              | inr unknown ↦ rw (cold, no_text, no_image, unknown) le
            ]
          ]
        ]
      ]

  plan_list-Chain :
      (lo hi i : ℕ) (blocks : List Json)
      → LaidList body lo hi blocks
      → Chain lo hi (writable (plan_list i blocks))
  unfolding plan_list
  plan_list-Chain lo hi i [] h = h
  plan_list-Chain lo hi i (b ∷ bs) (m, p, q) =
      rw (writable-append (plan_block i b) (plan_list (i + 1) bs))
        (Chain-append lo m hi _ _ (plan_block-Chain lo m i b p) (plan_list-Chain m hi (i + 1) bs q))

  pub plan_content-Chain :
      (lo hi : ℕ) (content : Option Json)
      → lo ≤ hi
      → LaidOption body lo hi content
      → Chain lo hi (writable (plan_content content))
  unfolding plan_content Laid
  plan_content-Chain lo hi none le h = le
  plan_content-Chain lo hi (some (lit raw text)) le h = le
  plan_content-Chain lo hi (some (obj raw fs)) le h = le
  plan_content-Chain lo hi (some (arr raw blocks)) le h =
      plan_list-Chain lo hi 0 (items_list blocks) (LaidList-items body lo hi blocks h)
  plan_content-Chain lo hi (some (str index raw text)) le h =
      by_slot (string_slot (some (str index raw text))) refl
    where
      by_slot :
          (o : Option (ℕ × ℕ × Bytes))
          → string_slot (some (str index raw text)) ≡ o
          → Chain lo hi (writable (plan_string o))
      by_slot none e = unfold plan_string in le
      by_slot (some (s, x, t)) e =
          unfold plan_string classify in
          Within-classify lo hi 0 [] string_content s x t [] none
            (string_slot-Laid lo hi (some (str index raw text)) s x t h e)

  nth-Laid :
      (lo hi : ℕ) (msgs : List Json) (i : ℕ)
      → lo ≤ hi
      → LaidList body lo hi msgs
      → LaidOption body lo hi (get_elem? msgs i)
  nth-Laid lo hi [] i le h = le
  nth-Laid lo hi (m ∷ msgs) zero le (mid, p, q) =
      Laid-wider body lo lo mid hi m (omega arith) (LaidList-le body mid hi msgs q) p
  nth-Laid lo hi (m ∷ msgs) (suc i) le (mid, p, q) =
      weaken (get_elem? msgs i) (nth-Laid mid hi msgs i (LaidList-le body mid hi msgs q) q)
    where
      weaken : (o : Option Json) → LaidOption body mid hi o → LaidOption body lo hi o
      weaken none h = le
      weaken (some j) h = Laid-wider body mid lo hi hi j (Laid-le body lo mid m p) (omega arith) h

  -- In a tree laid out as gjson documents, the slots that may be rewritten stand in the body in their
  -- order, one after the other and apart, each with room for its two quotes.
  pub plan_blocks-Chain :
      (lo hi i : ℕ) (root : Option Json)
      → lo ≤ hi
      → LaidOption body lo hi root
      → Chain lo hi (writable (plan_blocks root i))
  unfolding plan_blocks nth member
  plan_blocks-Chain lo hi i root le h =
      let msgs = member (codes "messages") root in
      let laid = member-Laid body (codes "messages") lo hi root h in
      elim (Option-cases (elements msgs)) [
        | inl no_list ↦ rw no_list le
        | inr (list, found) ↦ rw found (
            found_Chain list
              (nth-Laid lo hi list i le (elements-Laid body lo hi msgs list laid found)))
      ]
    where
      found_Chain :
          (list : List Json)
          → LaidOption body lo hi (get_elem? list i)
          → Chain lo hi (writable (plan_content (member (codes "content") (get_elem? list i))))
      found_Chain list k =
          plan_content-Chain lo hi (member (codes "content") (get_elem? list i)) le
            (member-Laid body (codes "content") lo hi (get_elem? list i) k)
