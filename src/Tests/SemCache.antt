-- ===== src/Tests/SemCache.antt =====
-- A cache of two answers, with vectors of bits for vectors of floats.
use headroom_go.Common.{
  ℕ, ◌*◌, ◌/◌, ◌+◌, ◌≤◌, ◌≡◌, refl, ◌==◌, true, false, [], ◌∷◌, some, codes, length, text_eq, arith,
}
use headroom_go.Ccr.Store.Outcome.{Outcome}
use headroom_go.SemCache.{
  Model, Request, IndexEntry, Cache, Vector, payload_key, hit_key, best_match, cosine,
  store_response,
}
use headroom_go.SemCache.Index.{Indexed, Skipped, Embeds, hit_key-Indexed, store_response_bounded}
use headroom_go.Tests.Fixtures.{prefix_sums, percent}

abbrev bit_model : Model
bit_model = record {
  sums = prefix_sums;
  fl = percent;
  F64 = ℕ;
  zero64 = 0;
  widen = λ n. n;
  narrow = λ n. n;
  add = λ a b. a + b;
  mul = λ a b. a * b;
  div = λ a b. 100 * a / b;
  sqrt = λ n. n;
  is_zero = λ n. n == 0;
  float_bits = λ n. n;
  to_lower = λ s. s;
  fields = λ s. s ∷ [];
  embed = λ text. some (1 ∷ 0 ∷ []);
  default_threshold = 97;
}

abbrev two_answers : Cache bit_model
two_answers = record {
  enabled = true;
  threshold = 97;
  max_entries = 2;
  model = codes "bits";
  index =
      record { vec = 0 ∷ 1 ∷ []; key = codes "other" }
      ∷ record { vec = 1 ∷ 0 ∷ []; key = codes "near" }
      ∷ [];
}

abbrev question : Request
question = record { text = codes "what is this"; has_tool_results = false }

hits_near : hit_key bit_model two_answers (1 ∷ 0 ∷ []) ≡ some (codes "near")
unfolding hit_key best_match cosine text_eq
hits_near = refl

hit_key-Indexed_example :
    (e : IndexEntry bit_model) × Indexed bit_model e two_answers.index
    × (e.key ≡ codes "near")
    × (percent.lt (cosine bit_model (1 ∷ 0 ∷ []) e.vec) 97 ≡ false)
hit_key-Indexed_example =
    hit_key-Indexed bit_model two_answers (1 ∷ 0 ∷ []) (codes "near") hits_near

store_response_bounded_example :
    Outcome
      (λ log c.
        (length c.index ≤ c.max_entries)
        × (c.max_entries ≡ 2)
        × (Skipped bit_model two_answers question → (log ≡ []) × (c ≡ two_answers))
        × ((vec : Vector bit_model)
            → Embeds bit_model two_answers question vec
            → log ≡ (payload_key bit_model two_answers vec, codes "answer") ∷ []))
      []
      (store_response bit_model two_answers question (codes "answer"))
store_response_bounded_example =
    store_response_bounded bit_model two_answers question (codes "answer") [] (omega arith)
