-- ===== src/SemCache/Index.antt =====
-- What a hit means, and how large the index is.
use headroom_go.Common.{
  not, ◌<◌, ◌-◌, ◌≤◌, ◌≡◌, ◌⊎◌, inl, inr, refl, sym, ◌∙◌, ap, Bool, Bool-cases, true, false, ◌||◌,
  List, [], ◌∷◌, Option, none, some, Bytes, text_eq, true≢false, arith, length, drop, length-drop,
  if◌then◌else◌,
}
use headroom_go.Ccr.Store.Outcome.{Log, Outcome, Outcome-weaken}
use headroom_go.SemCache.{
  Model, Vector, cosine, Request, IndexEntry, Cache, normalize, vector_for, payload_key, best_match,
  cosine, hit_key, append_entry, store_vector, store_response,
}

module _ (m : Model) where
  abbrev pub Indexed : IndexEntry m → List (IndexEntry m) → Type 0
  Indexed e [] = ⊥
  Indexed e (x ∷ xs) = (e ≡ x) ⊎ Indexed e xs

  -- An entry has this key, and its similarity to the vector is this.
  abbrev Matches : Vector m → List (IndexEntry m) → m.fl.F × Bytes → Type 0
  Matches vec es r = (e : IndexEntry m) × Indexed e es × (cosine m vec e.vec ≡ r.0) × (e.key ≡ r.1)

  best_match-Matches :
      (vec : Vector m) (es : List (IndexEntry m)) (best : m.fl.F) (key : Bytes)
      → (best_match m vec es best key ≡ (best, key)) ⊎ Matches vec es (best_match m vec es best key)
  unfolding best_match
  best_match-Matches vec [] best key = inl refl
  best_match-Matches vec (e ∷ es) best key = elim (Bool-cases (m.fl.lt best (cosine m vec e.vec))) [
    | inl closer ↦
        rw (closer, best_match) (inr (later (best_match-Matches vec es (cosine m vec e.vec) e.key)))
    | inr other ↦ rw (other, best_match) (kept (best_match-Matches vec es best key))
  ]
    where
      later :
          (best_match m vec es (cosine m vec e.vec) e.key ≡ (cosine m vec e.vec, e.key))
            ⊎ Matches vec es (best_match m vec es (cosine m vec e.vec) e.key)
          → Matches vec (e ∷ es) (best_match m vec es (cosine m vec e.vec) e.key)
      later (inl same) = (e, inl refl, ap (λ r. r.0) (sym same), ap (λ r. r.1) (sym same))
      later (inr (x, a, p, q)) = (x, inr a, p, q)

      kept :
          (best_match m vec es best key ≡ (best, key))
            ⊎ Matches vec es (best_match m vec es best key)
          → (best_match m vec es best key ≡ (best, key))
            ⊎ Matches vec (e ∷ es) (best_match m vec es best key)
      kept (inl same) = inl same
      kept (inr (x, a, p, q)) = inr (x, inr a, p, q)

  taken :
      (below empty : Bool) (found key : Bytes)
      → (if below || empty then none else some found) ≡ some key
      → (below ≡ false) × (empty ≡ false) × (found ≡ key)
  taken true empty found key h = ground (arith, h)
  taken false true found key h = ground (arith, h)
  taken false false found key h = (refl, refl, ground (arith, h))

  -- A hit asks for the key of an entry of the index whose similarity is not below the threshold.
  pub hit_key-Indexed :
      (c : Cache m) (vec : Vector m) (key : Bytes)
      → hit_key m c vec ≡ some key
      → (e : IndexEntry m) × Indexed e c.index
        × (e.key ≡ key)
        × (m.fl.lt (cosine m vec e.vec) c.threshold ≡ false)
  unfolding hit_key text_eq
  hit_key-Indexed c vec key h =
      let r = best_match m vec c.index m.fl.zero [] in
      by_match r (best_match-Matches vec c.index m.fl.zero []) h
    where
      by_match :
          (r : m.fl.F × Bytes)
          → (r ≡ (m.fl.zero, [])) ⊎ Matches vec c.index r
          → (if m.fl.lt r.0 c.threshold || text_eq r.1 [] then none else some r.1) ≡ some key
          → (e : IndexEntry m) × Indexed e c.index
            × (e.key ≡ key)
            × (m.fl.lt (cosine m vec e.vec) c.threshold ≡ false)
      by_match r (inl none_found) h =
          let (_, not_empty, _) = taken (m.fl.lt r.0 c.threshold) (text_eq r.1 []) r.1 key h in
          absurd (true≢false (sym (ap (λ s. text_eq s.1 []) none_found) ∙ not_empty))
      by_match r (inr (e, a, p, q)) h =
          let (reached, _, same) = taken (m.fl.lt r.0 c.threshold) (text_eq r.1 []) r.1 key h in
          (e, a, q ∙ same, rw p reached)

  store_response-vector :
      (c : Cache m) (req : Request) (response : Bytes) (log : Log)
      → length c.index ≤ c.max_entries
      → Outcome
          (λ log' c'.
            (length c'.index ≤ c'.max_entries)
            × (c'.max_entries ≡ c.max_entries)
            × (vector_for m c req ≡ none → (log' ≡ log) × (c' ≡ c))
            × ((vec : Vector m)
                → vector_for m c req ≡ some vec
                → log' ≡ (payload_key m c vec, response) ∷ log))
          log
          (store_response m c req response)
  unfolding store_response store_vector append_entry
  store_response-vector c req response log h = by_vector (vector_for m c req)
    where
      cut :
          (xs : List (IndexEntry m)) → length (drop (length xs - c.max_entries) xs) ≤ c.max_entries
      cut xs = rw (length-drop (length xs - c.max_entries) xs) (omega arith)

      by_vector :
          (found : Option (Vector m))
          → Outcome
              (λ log' c'.
                (length c'.index ≤ c'.max_entries)
                × (c'.max_entries ≡ c.max_entries)
                × (found ≡ none → (log' ≡ log) × (c' ≡ c))
                × ((vec : Vector m)
                    → found ≡ some vec
                    → log' ≡ (payload_key m c vec, response) ∷ log))
              log
              (store_vector m c found response)
      by_vector none = (h, refl, λ _. (refl, refl), λ vec ended. ground (arith, ended))
      by_vector (some vec) = (
        cut _,
        refl,
        λ ended. ground (arith, ended),
        λ other same. ap (λ v. (payload_key m c v, response) ∷ log) (ground (arith, same)),
      )

  -- Store has nothing to do: the cache is disabled, the request has tool results or no text, or the
  -- embedder fails or gives the empty vector.
  abbrev pub Skipped : Cache m → Request → Type 0
  Skipped c req =
      (c.enabled ≡ false)
      ⊎ ((req.has_tool_results ≡ true)
          ⊎ ((normalize m req.text ≡ [])
              ⊎ ((m.embed (normalize m req.text) ≡ none)
                  ⊎ (m.embed (normalize m req.text) ≡ some []))))

  -- The vector of an eligible request.
  abbrev pub Embeds : Cache m → Request → Vector m → Type 0
  Embeds c req vec =
      (c.enabled ≡ true)
      × (req.has_tool_results ≡ false)
      × (text_eq (normalize m req.text) [] ≡ false)
      × (m.embed (normalize m req.text) ≡ some vec)
      × (0 < length vec)

  nothing_left :
      (a b : Bool) (x : Option (Vector m))
      → x ≡ none
      → (if a then none else if b then none else x) ≡ none
  nothing_left a b x e = ground (arith, e)

  vector_for-Skipped : (c : Cache m) (req : Request) → Skipped c req → vector_for m c req ≡ none
  unfolding vector_for text_eq
  vector_for-Skipped c req (inl h) = rw h refl
  vector_for-Skipped c req (inr (inl h)) = elim (Bool-cases c.enabled) [
    | inl on ↦ rw (on, h) refl
    | inr off ↦ rw off refl
  ]
  vector_for-Skipped c req (inr (inr (inl h))) =
      rw h (nothing_left (not c.enabled || req.has_tool_results) true none refl)
  vector_for-Skipped c req (inr (inr (inr (inl h)))) = rw h (
      nothing_left (not c.enabled || req.has_tool_results) (text_eq (normalize m req.text) []) none
        refl)
  vector_for-Skipped c req (inr (inr (inr (inr h)))) = rw h (
      nothing_left (not c.enabled || req.has_tool_results) (text_eq (normalize m req.text) []) none
        refl)

  vector_for-Embeds :
      (c : Cache m) (req : Request) (vec : Vector m)
      → Embeds c req vec
      → vector_for m c req ≡ some vec
  unfolding vector_for
  vector_for-Embeds c req [] h = absurd (omega (arith, h.4))
  vector_for-Embeds c req (x ∷ xs) (on, plain, text, e, size) = rw (on, plain, text, e) refl

  -- From a cache within its bound, Store gives one within the same bound, whatever the store and the
  -- embedder answer. It puts nothing and changes nothing where the cache is disabled, the request has
  -- tool results or no text, or the embedder gives no vector or the empty one; otherwise it puts
  -- exactly the response, under the key of the vector.
  pub store_response_bounded :
      (c : Cache m) (req : Request) (response : Bytes) (log : Log)
      → length c.index ≤ c.max_entries
      → Outcome
          (λ log' c'.
            (length c'.index ≤ c'.max_entries)
            × (c'.max_entries ≡ c.max_entries)
            × (Skipped c req → (log' ≡ log) × (c' ≡ c))
            × ((vec : Vector m) → Embeds c req vec → log' ≡ (payload_key m c vec, response) ∷ log))
          log
          (store_response m c req response)
  store_response_bounded c req response log h =
      Outcome-weaken _ _ (store_response m c req response) log
        (λ log' c' (bounded, same, skips, stores). (
          bounded,
          same,
          (λ s. skips (vector_for-Skipped c req s)),
          (λ vec e. stores vec (vector_for-Embeds c req vec e)),
        ))
        (store_response-vector c req response log h)
