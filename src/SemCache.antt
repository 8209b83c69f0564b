-- ===== src/SemCache.antt =====
-- internal/semcache: cache.go, answers of earlier requests that embed close to a new one, cosine.go and
-- normalize.go. Floats, the embedder and the Unicode tables of package strings are parameters.
pub mod Index
use headroom_go.Common.{
  ℕ, ◌+◌, ◌-◌, ◌/◌, ◌%◌, ◌==◌, ltb, Bool, true, false, not, ◌||◌, List, [], ◌∷◌, ◌++◌, Option, none,
  some, Bytes, text_eq, if◌then◌else◌, length, drop,
}
use headroom_go.Common.Lines.{join}
use headroom_go.Common.Int.{ℤ, pos_part}
use headroom_go.Ccr.Key.{HashSums, compute_key}
use headroom_go.Ccr.Store.{Prog, done, ◌>>=◌, ◌>>◌, store_put, store_get}
use headroom_go.Pipeline.{Float}

abbrev pub default_max_entries : ℕ
default_max_entries = 2000

-- What the cache is built from. `fl` is float32, the fields of `F64` are Go's float64 and its operations,
-- `float_bits` is math.Float32bits, `to_lower` and `fields` are those of package strings. An embedder that
-- fails gives `none`.
pub record Model : Type 1 where
  pub sums : HashSums
  pub fl : Float
  pub F64 : Type 0
  pub zero64 : F64
  pub widen : fl.F → F64
  pub narrow : F64 → fl.F
  pub add : F64 → F64 → F64
  pub mul : F64 → F64 → F64
  pub div : F64 → F64 → F64
  pub sqrt : F64 → F64
  pub is_zero : F64 → Bool
  pub float_bits : fl.F → ℕ
  pub to_lower : Bytes → Bytes
  pub fields : Bytes → List Bytes
  pub embed : Bytes → Option (List fl.F)
  pub default_threshold : fl.F

-- binary.LittleEndian.AppendUint32.
little_endian : ℕ → Bytes
little_endian n = n % 256 ∷ n / 256 % 256 ∷ n / 65536 % 256 ∷ n / 16777216 % 256 ∷ []

pub record Request : Type 0 where
  pub text : Bytes
  pub has_tool_results : Bool

module _ (m : Model) where
  abbrev pub Vector : Type 0
  Vector = List m.fl.F

  unfoldable pub normalize : Bytes → Bytes
  unfolding join
  normalize s = join (32 ∷ []) (m.fields (m.to_lower s))

  -- The loop of Cosine, with its sums.
  sums_of : Vector → Vector → m.F64 → m.F64 → m.F64 → m.F64 × m.F64 × m.F64
  sums_of [] bs dot na nb = (dot, na, nb)
  sums_of (a ∷ as') [] dot na nb = (dot, na, nb)
  sums_of (a ∷ as') (b ∷ bs) dot na nb =
      let x = m.widen a in
      let y = m.widen b in
      sums_of as' bs (m.add dot (m.mul x y)) (m.add na (m.mul x x)) (m.add nb (m.mul y y))

  unfoldable pub cosine : Vector → Vector → m.fl.F
  unfolding sums_of
  cosine a b =
      let (dot, na, nb) = sums_of a b m.zero64 m.zero64 m.zero64 in
      if length a == 0 || not (length a == length b)
      then m.fl.zero
      else if m.is_zero na || m.is_zero nb
      then m.fl.zero
      else m.narrow (m.div dot (m.mul (m.sqrt na) (m.sqrt nb)))

  pub record CacheConfig : Type 0 where
    pub enabled : Bool
    pub threshold : m.fl.F
    pub max_entries : ℤ
    pub model : Bytes

  pub record IndexEntry : Type 0 where
    pub vec : Vector
    pub key : Bytes

  pub record Cache : Type 0 where
    pub enabled : Bool
    pub threshold : m.fl.F
    pub max_entries : ℕ
    pub model : Bytes
    pub index : List IndexEntry

  unfoldable pub new_cache : CacheConfig → Cache
  new_cache cfg = record {
    enabled = cfg.enabled;
    threshold = if m.fl.le cfg.threshold m.fl.zero then m.default_threshold else cfg.threshold;
    max_entries =
        if pos_part cfg.max_entries == 0 then default_max_entries else pos_part cfg.max_entries;
    model = cfg.model;
    index = [];
  }

  abbrev pub embedded : Option Vector → Option Vector
  embedded none = none
  embedded (some []) = none
  embedded (some (x ∷ xs)) = some (x ∷ xs)

  unfoldable pub vector_for : Cache → Request → Option Vector
  vector_for c req =
      let text = normalize req.text in
      if not c.enabled || req.has_tool_results
      then none
      else if text_eq text []
      then none
      else embedded (m.embed text)

  unfoldable pub float_bytes : Vector → Bytes
  unfolding little_endian
  float_bytes [] = []
  float_bytes (f ∷ fs) = little_endian (m.float_bits f) ++ float_bytes fs

  unfoldable pub payload_key : Cache → Vector → Bytes
  payload_key c vec = compute_key m.sums (c.model ++ (0 ∷ float_bytes vec))

  -- The loop of Lookup, with its variables best and bestKey.
  unfoldable pub best_match : Vector → List IndexEntry → m.fl.F → Bytes → m.fl.F × Bytes
  best_match vec [] best best_key = (best, best_key)
  best_match vec (e ∷ es) best best_key =
      let closer = best_match vec es (cosine vec e.vec) e.key in
      let same = best_match vec es best best_key in
      if m.fl.lt best (cosine vec e.vec) then closer else same

  -- The key that Lookup asks the store for.
  unfoldable pub hit_key : Cache → Vector → Option Bytes
  hit_key c vec =
      let (best, best_key) = best_match vec c.index m.fl.zero [] in
      if m.fl.lt best c.threshold || text_eq best_key [] then none else some best_key

  ask : Option Bytes → Prog (Option Bytes)
  ask none = done none
  ask (some key) = store_get key

  lookup_vector : Cache → Option Vector → Prog (Option Bytes)
  lookup_vector c none = done none
  lookup_vector c (some vec) = ask (hit_key c vec)

  unfoldable pub lookup_response : Cache → Request → Prog (Option Bytes)
  unfolding lookup_vector ask
  lookup_response c req = lookup_vector c (vector_for c req)

  -- The index after an append, cut at the front.
  unfoldable pub append_entry : Cache → IndexEntry → Cache
  append_entry c e =
      let index = c.index ++ (e ∷ []) in
      record c { index = drop (length index - c.max_entries) index }

  store_vector : Cache → Option Vector → Bytes → Prog Cache
  store_vector c none response = done c
  store_vector c (some vec) response =
      let key = payload_key c vec in
      store_put key response >> done (append_entry c (record { vec = vec; key = key }))

  unfoldable pub store_response : Cache → Request → Bytes → Prog Cache
  unfolding store_vector
  store_response c req response = store_vector c (vector_for c req) response
