-- ===== src/Tests/LiveZone.antt =====
-- Plans, blocks and requests on concrete bodies.
use headroom_go.Common.{
  ℕ, ◌≤◌, zero, suc, ◌≡◌, refl, true, false, List, [], ◌∷◌, ◌++◌, Option, none, some, Bytes, codes,
  text_eq, arith, length,
}
use headroom_go.Common.Int.{pos}
use headroom_go.Ccr.Key.{hex_digit, compute_key-IsHash, compute_key, compute_key_md5}
use headroom_go.Ccr.Marker.Parse.{IsHash}
use headroom_go.Ccr.Store.Outcome.{Outcome}
use headroom_go.CacheStab.Replay.{ReplayState, new_replay_state}
use headroom_go.Json.{
  Json, str, arr, obj, nil, cons, end, field, member, elements, items_list, find_field, string_of,
}
use headroom_go.Json.Layout.{Laid, LaidOption}
use headroom_go.Transform.{plain_text}
use headroom_go.Pipeline.{Router, build}
use headroom_go.LiveZone.Plan.{
  find_latest_user_message, plan_blocks, plan_content, plan_list, plan_block, plan_elem, plan_elems,
  string_slot, classify, mark, nth, is_hot_zone,
}
use headroom_go.LiveZone.Plan.Latest.{IsLatest, find_latest_user_message-IsLatest}
use headroom_go.LiveZone.Plan.Spans.{Chain, writable, plan_blocks-Chain}
use headroom_go.LiveZone.Compress.{compress_block}
use headroom_go.LiveZone.Compress.Gate.{Judged, compress_block-Judged}
use headroom_go.LiveZone.Encode.{
  encode_json_string, encode_from, encode_first, escape, tail_size, quote,
}
use headroom_go.LiveZone.Encode.Literal.{plain, scan, encode_json_string-scan}
use headroom_go.LiveZone.Pass.{Host, Options}
use headroom_go.LiveZone.Dispatch.{dispatch}
use headroom_go.LiveZone.Dispatch.Safe.{IsDispatched, dispatch-IsDispatched}
use headroom_go.LiveZone.Dispatch.Rounds.Reported.{Reported, dispatch-Reported}
use headroom_go.Tests.Fixtures.{
  prefix_sums, percent, three_messages, marked_message, tools_message, last_message,
}
use headroom_go.Tests.Pipeline.{no_context, stash, squeeze, defaults}

compute_key-IsHash_example :
    IsHash (compute_key prefix_sums (codes "text"))
    × IsHash (compute_key_md5 prefix_sums (codes "text"))
compute_key-IsHash_example = compute_key-IsHash prefix_sums (codes "text")

trees : Unit {0}
unfolding member elements items_list find_field string_of text_eq Laid plan_blocks plan_content
    plan_list plan_block plan_elem plan_elems string_slot classify mark nth is_hot_zone
trees = tt

abbrev messages : List Json
messages = marked_message ∷ tools_message ∷ last_message ∷ []

find_latest_user_message-IsLatest_example :
    IsLatest messages 1 3 (find_latest_user_message three_messages 1)
find_latest_user_message-IsLatest_example =
    find_latest_user_message-IsLatest three_messages 1 messages (unfold trees in refl)

abbrev many : ℕ → Bytes → Bytes
many zero rest = rest
many (suc n) rest = b'a' ∷ many n rest

-- A string of 512 letters and its quotes.
abbrev long_raw : Bytes
long_raw = quote ∷ many 512 (quote ∷ [])

abbrev before : Bytes
before = codes "{\"messages\":[{\"role\":\"user\",\"content\":"

abbrev long_body : Bytes
long_body = before ++ (long_raw ++ codes "}]}")

abbrev long_tree : Option Json
long_tree = some (
    obj [] (
      field (codes "messages")
        (arr [] (
          cons
            (obj [] (
              field (codes "role") (str 21 (codes "\"user\"") (codes "user"))
                (field (codes "content") (str 38 long_raw (many 512 [])) end)))
            nil))
        end))

laid : (hi : ℕ) → 552 ≤ hi → LaidOption long_body 0 hi long_tree
unfolding Laid
laid hi le = (
  552,
  (
    552,
    (
      27,
      (omega arith, omega arith, omega arith, refl),
      (552, (omega arith, omega arith, omega arith, refl), omega arith),
    ),
    omega arith,
  ),
  le,
)

plan_blocks-Chain_example : Chain 0 1000 (writable (plan_blocks long_tree 0))
plan_blocks-Chain_example =
    plan_blocks-Chain long_body 0 1000 0 long_tree (omega arith) (laid 1000 (omega arith))

abbrev router : Router percent
router = record {
  pipeline = build percent defaults (squeeze ∷ []) (stash ∷ []);
  detect = λ c. plain_text;
}

compress_block-Judged_example :
    Outcome
      (Judged prefix_sums percent length (many 512 []) [])
      []
      (compress_block prefix_sums percent length (some router) true (many 512 []) no_context)
compress_block-Judged_example =
    compress_block-Judged prefix_sums percent length (some router) true (many 512 []) no_context []

-- A quote, a backslash, a control character, an invalid byte, and a letter of two bytes.
abbrev odd : Bytes
odd = quote ∷ 92 ∷ 1 ∷ 255 ∷ 195 ∷ 169 ∷ []

literals : Unit {0}
unfolding encode_json_string encode_from encode_first escape tail_size hex_digit
literals = tt

odd_literal :
    encode_json_string odd
    ≡ quote ∷ 92 ∷ quote ∷ 92 ∷ 92 ∷ (codes "\\u0001\\ufffd" ++ (195 ∷ 169 ∷ quote ∷ []))
unfolding literals
odd_literal = refl

encode_json_string-scan_example :
    (body : Bytes) × (encode_json_string odd ++ codes ",1]" ≡ quote ∷ body)
    × (scan plain body ≡ some (codes ",1]"))
encode_json_string-scan_example = encode_json_string-scan odd (codes ",1]")

abbrev host : Host
host = record {
  sums = prefix_sums;
  fl = percent;
  parse = λ b. long_tree;
  fit_image = λ b64 media. none;
  visual_tokens = λ b64. 0;
}

abbrev options : Options percent
options = record {
  router = some router;
  has_store = true;
  count_text = length;
  frozen_count = none;
  query = [];
  replay = some (record { sess = 0; floor = 0; first = true; turn = 1 });
  image_fit = false;
}

abbrev sessions : ReplayState
sessions = new_replay_state (pos 1)

dispatch-IsDispatched_example :
    Outcome
      (λ log' r. IsDispatched host options long_body r.0)
      []
      (dispatch host options long_body sessions)
dispatch-IsDispatched_example = dispatch-IsDispatched host options long_body sessions []

dispatch-Reported_example :
    Outcome (λ log' r. Reported r.0) [] (dispatch host options long_body sessions)
dispatch-Reported_example =
    dispatch-Reported host options long_body sessions [] (laid (length long_body) (omega arith))
