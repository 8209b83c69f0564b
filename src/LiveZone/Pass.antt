-- ===== src/LiveZone/Pass.antt =====
-- internal/livezone/livezone.go and image.go: what the two passes over a body share. Parsing and the
-- images' resizing and token counts are parameters.
use headroom_go.Common.{
  ℕ, ◌+◌, ◌==◌, Bool, true, false, ◌||◌, List, [], ◌∷◌, ◌++◌, Option, none, some, Bytes, codes,
  text_eq, is_some, if◌then◌else◌,
}
use headroom_go.Ccr.Key.{HashSums, compute_key}
use headroom_go.Ccr.Marker.{hashes_in}
use headroom_go.Ccr.Store.{Prog, done, ◌>>=◌, store_get}
use headroom_go.CacheStab.Replay.{ReplayState, SessionReplay, remember}
use headroom_go.Json.{Json, member, elements, string_of}
use headroom_go.Pipeline.{Float, Router}
use headroom_go.LiveZone.Splice.{Replacement, Range}
use headroom_go.LiveZone.Plan.{PlanSlot, nth}
use headroom_go.LiveZone.Encode.{encode_json_string}

pub data Reason : Type 0 where
  ok not_json no_messages no_live_zone no_candidates all_rejected : Reason

pub record BlockOutcome : Type 0 where
  pub message_index : ℕ
  pub index : ℕ
  pub block_type : Bytes
  pub action : Bytes
  pub strategy : Bytes
  pub tokens_before : ℕ
  pub tokens_after : ℕ
  pub cache_key : Bytes
  pub content_index : Option ℕ

pub record Result : Type 0 where
  pub body : Bytes
  pub applied : Bool
  pub reason : Reason
  pub frozen_count : ℕ
  pub rewritten : List Range
  pub blocks : List BlockOutcome
  pub tokens_before : ℕ
  pub tokens_after : ℕ

-- What the dispatcher calls and is not modelled: gjson.ParseBytes, none for what is not valid JSON;
-- fitImage, none where it declines; and visualTokensFromBase64.
pub record Host : Type 1 where
  pub sums : HashSums
  pub fl : Float
  pub parse : Bytes → Option Json
  pub fit_image : Bytes → Bytes → Option (Bytes × ℕ × ℕ)
  pub visual_tokens : Bytes → ℕ

-- A negative frozen count is `none`; a nil Tokenizer is the default one.
pub record Options (fl : Float) : Type 0 where
  pub router : Option (Router fl)
  pub has_store : Bool
  pub count_text : Bytes → ℕ
  pub frozen_count : Option ℕ
  pub query : Bytes
  pub replay : Option SessionReplay
  pub image_fit : Bool

-- The variables of Dispatch that its loops change, and the state behind opts.Replay.
pub record Pass : Type 0 where
  pub reps : List Replacement
  pub outcomes : List BlockOutcome
  pub before : ℕ
  pub after : ℕ
  pub candidate : Bool
  pub replays : ReplayState

all_stored : List Bytes → Prog Bool
all_stored [] = done true
all_stored (h ∷ hs) = store_get h >>= λ got. if is_some got then all_stored hs else done false

unfoldable pub store_resolves : Bytes → Bytes → Bytes → Prog Bool
unfolding all_stored
store_resolves hash original replacement = store_get hash >>= λ got. (elim got [
  | none ↦ done false
  | some p ↦ if text_eq p original then all_stored (hashes_in replacement) else done false
])

-- The media_type of the block that a slot stands for.
unfoldable pub media_type : Option Json → ℕ → ℕ → Option ℕ → Bytes
media_type root msg_idx block_index content_index =
    let msg = nth (elements (member (codes "messages") root)) msg_idx in
    let block = nth (elements (member (codes "content") msg)) block_index in
    let holder : Option Json = elim content_index [
      | none ↦ block
      | some j ↦ nth (elements (member (codes "content") block)) j
    ] in
    string_of (member (codes "media_type") (member (codes "source") holder))

unfoldable pub outcome_of : ℕ → PlanSlot → Bytes → BlockOutcome
outcome_of msg_idx s action = record {
  message_index = msg_idx;
  index = s.block_index;
  block_type = s.block_type;
  action = action;
  strategy = [];
  tokens_before = 0;
  tokens_after = 0;
  cache_key = [];
  content_index = s.content_index;
}

unfoldable pub note : BlockOutcome → Pass → Pass
note o p = record p { outcomes = p.outcomes ++ (o ∷ []) }

-- A rewritten slot, with its token counts.
unfoldable pub replace : PlanSlot → Bytes → ℕ → ℕ → Pass → Pass
replace s text b a p = record p {
  reps = p.reps ++ (record { start = s.start; end = s.end; repl = encode_json_string text } ∷ []);
  before = p.before + b;
  after = p.after + a;
}

unfoldable pub claimed : List Replacement → ℕ → Bool
claimed [] start = false
claimed (r ∷ reps) start = r.start == start || claimed reps start

-- opts.Replay.Record, where there is a Replay.
unfoldable pub record_for : Option SessionReplay → Bytes → Bytes → Pass → Pass
record_for none hash compressed p = p
record_for (some h) hash compressed p = record p { replays = remember h hash compressed p.replays }

unfoldable pub image_replay_key : HashSums → Bytes → Bytes → Bytes
image_replay_key sums media b64 = compute_key sums (codes "hr-image" ++ (0 ∷ (media ++ (0 ∷ b64))))
