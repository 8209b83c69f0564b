-- ===== src/Offloads.antt =====
-- internal/offloads/offloads.go: what the offloads share.
pub mod Counts
pub mod Noise
pub mod Engines
pub mod Keys
use headroom_go.Common.{ℕ, ◌-◌, Bool, List, [], ◌∷◌, Bytes, length, ◌==◌, if◌then◌else◌}
use headroom_go.Ccr.Store.{Prog, done, ◌>>◌, store_put}
use headroom_go.Transform.{Result, ok, err, skipped, OffloadOutput}
use headroom_go.Pipeline.{Float}

-- fromLengths: the saving stops at 0, as `-` does.
unfoldable pub from_lengths : ℕ → Bytes → Bytes → OffloadOutput
from_lengths input_len output cache_key = record {
  output = output;
  bytes_saved = input_len - length output;
  cache_key = cache_key;
}

-- An early return with ErrSkipped.
unfoldable pub skip_when : Bool → Prog (Result OffloadOutput) → Prog (Result OffloadOutput)
skip_when c m = if c then done (err skipped) else m

-- The last steps of an offload that puts the content itself.
unfoldable pub store_original : Bytes → Bytes → Bytes → Prog (Result OffloadOutput)
unfolding from_lengths
store_original key content output =
    store_put key content >> done (ok (from_lengths (length content) output key))

unfoldable pub clamp01 : (fl : Float) → fl.F → fl.F
clamp01 fl x = if fl.lt x fl.zero then fl.zero else if fl.lt fl.one x then fl.one else x
