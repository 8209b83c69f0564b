-- ===== src/Ccr/Store/Build.antt =====
-- FromConfig: which backend is built, with which capacity and time to live.
pub mod Limits
use headroom_go.Common.{ℕ, ◌*◌, Option, none, some, Bytes, ltb, ◌==◌, if◌then◌else◌}
use headroom_go.Common.Int.{ℤ, pos, pos_part, to_int64}

pub data BackendKind : Type 0 where
  in_memory sqlite : BackendKind
  -- any other number
  other : ℕ → BackendKind

pub record BackendConfig : Type 0 where
  pub kind : BackendKind
  pub capacity : ℤ
  pub ttl_seconds : ℕ
  pub path : Bytes

abbrev pub default_capacity : ℕ
default_capacity = 1000

-- time.Second and DefaultTTL, in nanoseconds.
abbrev pub second : ℕ
second = 1_000_000_000

abbrev pub default_ttl : ℕ
default_ttl = 300 * second

pub data BuildError : Type 0 where
  in_memory_not_registered sqlite_not_registered unknown_kind sqlite_failed : BuildError

pub data Built (S : Type 0) : Type 0 where
  ok : S → Built S
  err : BuildError → Built S

module _ {S : Type 0} (new_in_memory : Option (ℕ → ℤ → S))
    (new_sqlite : Option (Bytes → ℤ → Option S)) where
  -- time.Duration(TTLSeconds) * time.Second is computed in int64.
  unfoldable pub ttl_of : BackendConfig → ℤ
  ttl_of cfg =
      if ltb 0 cfg.ttl_seconds then to_int64 (cfg.ttl_seconds * second) else pos default_ttl

  unfoldable pub capacity_of : BackendConfig → ℕ
  capacity_of cfg = if pos_part cfg.capacity == 0 then default_capacity else pos_part cfg.capacity

  build_sqlite : Option S → Built S
  build_sqlite none = err sqlite_failed
  build_sqlite (some s) = ok s

  build : BackendKind → BackendConfig → Built S
  build in_memory cfg = elim new_in_memory [
    | none ↦ err in_memory_not_registered
    | some new ↦ ok (new (capacity_of cfg) (ttl_of cfg))
  ]
  build sqlite cfg = elim new_sqlite [
    | none ↦ err sqlite_not_registered
    | some new ↦ build_sqlite (new cfg.path (ttl_of cfg))
  ]
  build (other n) cfg = err unknown_kind

  unfoldable pub from_config : BackendConfig → Built S
  unfolding build build_sqlite
  from_config cfg = build cfg.kind cfg
