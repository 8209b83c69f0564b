-- ===== src/CacheStab/Drift.antt =====
-- internal/cachestab/drift.go: whether the settled prefix of a session was rewritten.
-- The SHA-256 sum of a canonical text is a number here: only whether two sums are equal is used.
pub mod Observe
use headroom_go.Common.{
  ℕ, zero, suc, ◌==◌, leb, Bool, true, false, not, ◌&&◌, ◌||◌, List, [], ◌∷◌, ◌++◌, Option, none,
  some, Bytes, codes, text_eq, if◌then◌else◌, length, take,
}
use headroom_go.Common.Int.{ℤ, pos_part}
use headroom_go.Common.Maps
use headroom_go.Common.Maps.{Map}

abbrev pub early_messages_window : ℕ
early_messages_window = 3

abbrev pub default_drift_capacity : ℕ
default_drift_capacity = 1024

-- A slot of the window is nil, `none`, where the conversation has no such message.
pub record StructuralHash : Type 0 where
  pub system : ℕ
  pub tools : ℕ
  pub early_messages : List (Option ℕ)

-- encoding/json's value of a member, and what Unmarshal makes of it.
mutual
  pub data Value : Type 0 where
    scalar : Bytes → Value
    list : Values → Value
    object : Members → Value

  pub data Values : Type 0 where
    nil : Values
    cons : Value → Values → Values

  pub data Members : Type 0 where
    end : Members
    member : Bytes → Value → Members → Members

abbrev opaque_payload_key : Bytes → Bool
opaque_payload_key k =
    text_eq k (codes "input")
    || text_eq k (codes "arguments")
    || text_eq k (codes "json")
    || text_eq k (codes "input_schema")

unfoldable mutual
  pub strip_cache_control : Value → Bool → Value
  strip_cache_control (scalar s) in_opaque = scalar s
  strip_cache_control (list xs) in_opaque = list (strip_values xs in_opaque)
  strip_cache_control (object ms) in_opaque = object (strip_members ms in_opaque)

  pub strip_values : Values → Bool → Values
  strip_values nil in_opaque = nil
  strip_values (cons x xs) in_opaque =
      cons (strip_cache_control x in_opaque) (strip_values xs in_opaque)

  pub strip_members : Members → Bool → Members
  strip_members end in_opaque = end
  strip_members (member k v ms) in_opaque =
      if not in_opaque && text_eq k (codes "cache_control")
      then strip_members ms in_opaque
      else member k (strip_cache_control v (in_opaque || opaque_payload_key k))
          (strip_members ms in_opaque)

-- earlyWindowDrifted walks the two arrays, which have the same length.
unfoldable pub early_window_drifted : List (Option ℕ) → List (Option ℕ) → Bool
early_window_drifted [] curr = false
early_window_drifted (none ∷ prev) [] = early_window_drifted prev []
early_window_drifted (none ∷ prev) (c ∷ curr) = early_window_drifted prev curr
early_window_drifted (some p ∷ prev) [] = true
early_window_drifted (some p ∷ prev) (none ∷ curr) = true
early_window_drifted (some p ∷ prev) (some c ∷ curr) =
    if p == c then early_window_drifted prev curr else true

pub data Axis : Type 0 where
  system tools early_messages : Axis

unfoldable pub drifted : StructuralHash → StructuralHash → List Axis
drifted prev curr =
    (if prev.system == curr.system then [] else system ∷ [])
    ++ ((if prev.tools == curr.tools then [] else tools ∷ [])
        ++ (if early_window_drifted prev.early_messages curr.early_messages
            then early_messages ∷ []
            else []))

-- SessionDigest, a hash for the log, is not modelled.
pub record Observation : Type 0 where
  pub first_request : Bool
  pub dims : List Axis

unfoldable pub has_drifted : Observation → Bool
has_drifted o = elim o.dims [ [] ↦ false | _ ∷ _ ↦ not o.first_request ]

pub record DriftState : Type 0 where
  pub capacity : ℕ
  pub seen : Map StructuralHash
  pub order : List Bytes

unfoldable pub new_drift_state : ℤ → DriftState
new_drift_state capacity = record {
  capacity = if pos_part capacity == 0 then default_drift_capacity else pos_part capacity;
  seen = [];
  order = [];
}

evict : ℕ → Map StructuralHash → List Bytes → Map StructuralHash × List Bytes
evict capacity seen [] = (seen, [])
evict capacity seen (oldest ∷ order) =
    if leb capacity (length (oldest ∷ order))
    then (Maps.remove seen oldest, order)
    else (seen, oldest ∷ order)

unfoldable pub observe : DriftState → Bytes → StructuralHash → Observation × DriftState
unfolding evict
observe st key curr = elim (Maps.get st.seen key) [
  | none ↦
      let (seen, order) = evict st.capacity st.seen st.order in
      (
        record { first_request = true; dims = [] },
        record st { seen = Maps.put seen key curr; order = order ++ (key ∷ []) },
      )
  | some prev ↦ (
    record { first_request = false; dims = drifted prev curr },
    record st { seen = Maps.put st.seen key curr },
  )
]
