-- ===== src/Ccr/Store/Build/Limits.antt =====
-- The limits of the in-memory store that is built.
use headroom_go.Common.{
  ℕ, ◌*◌, ◌≤◌, ◌<◌, ◌≡◌, refl, ap, arith, Bytes, Bool-cases, inl, inr, Option, some, ltb, ◌==◌,
  if◌then◌else◌,
}
use headroom_go.Common.Int.{ℤ, pos, pos_part, to_int64, to_int64_small}
use headroom_go.Ccr.Store.Build.{
  BackendConfig, in_memory, second, default_ttl, default_capacity, ok, ttl_of, capacity_of, build,
  from_config,
}

-- An in-memory configuration with a time to live of at most 9223372036 seconds, with any capacity and
-- with the backend registered, gives a store with a positive capacity, which is the configured one if
-- that is positive, and with exactly the configured time to live, or five minutes for zero.
pub from_config-in_memory :
    {S : Type 0} (new : ℕ → ℤ → S) (new_sqlite : Option (Bytes → ℤ → Option S))
    (cfg : BackendConfig)
    → cfg.kind ≡ in_memory
    → cfg.ttl_seconds ≤ 9_223_372_036
    → (capacity : ℕ) × (0 < capacity)
      × (0 < pos_part cfg.capacity → capacity ≡ pos_part cfg.capacity)
      × (from_config (some new) new_sqlite cfg
          ≡ ok (
              new capacity
                (pos (if ltb 0 cfg.ttl_seconds then cfg.ttl_seconds * second else default_ttl))))
unfolding from_config build capacity_of ttl_of
from_config-in_memory new new_sqlite cfg e le = (
  (if pos_part cfg.capacity == 0 then default_capacity else pos_part cfg.capacity),
  ground arith,
  (λ h. ground arith),
  rw e (
      ap
        (λ t.
          ok (
            new (if pos_part cfg.capacity == 0 then default_capacity else pos_part cfg.capacity) t))
        ttl),
)
  where
    ttl :
        (if ltb 0 cfg.ttl_seconds then to_int64 (cfg.ttl_seconds * second) else pos default_ttl)
        ≡ pos (if ltb 0 cfg.ttl_seconds then cfg.ttl_seconds * second else default_ttl)
    ttl = elim (Bool-cases (ltb 0 cfg.ttl_seconds)) [
      | inl set ↦ rw set (to_int64_small (cfg.ttl_seconds * second) (omega arith))
      | inr unset ↦ rw unset refl
    ]
