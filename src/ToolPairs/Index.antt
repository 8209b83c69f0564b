-- ===== src/ToolPairs/Index.antt =====
-- internal/toolpairs/index.go: which tool_use produced a tool_result.
use headroom_go.Common.{
  ℕ, ◌+◌, ◌<◌, ◌≡◌, refl, Bool-cases, inl, inr, List, [], ◌∷◌, Option, none, some, arith, Bytes,
  codes, text_eq, text_eq_iff, if◌then◌else◌,
}
use headroom_go.Common.Maps
use headroom_go.Common.Maps.{Map, get-put}
use headroom_go.Json.{Json, member, elements, for_each, string_of, raw_of}

pub record ToolUse : Type 0 where
  pub name : Bytes
  pub input : Bytes
  pub seq : ℕ

-- One block of a message; the state is the map and the next seq.
unfoldable pub index_block : Json → Map ToolUse × ℕ → Map ToolUse × ℕ
index_block block (out, seq) =
    let id = string_of (member (codes "id") (some block)) in
    let use_of : ToolUse = record {
      name = string_of (member (codes "name") (some block));
      input = raw_of (member (codes "input") (some block));
      seq = seq;
    } in
    if text_eq (string_of (member (codes "type") (some block))) (codes "tool_use")
    then (if text_eq id [] then (out, seq) else (Maps.put out id use_of, seq + 1))
    else (out, seq)

unfoldable pub index_blocks : List Json → Map ToolUse × ℕ → Map ToolUse × ℕ
index_blocks [] s = s
index_blocks (block ∷ blocks) s = index_blocks blocks (index_block block s)

index_content : Option (List Json) → Map ToolUse × ℕ → Map ToolUse × ℕ
index_content none s = s
index_content (some blocks) s = index_blocks blocks s

unfoldable pub index_messages : List Json → Map ToolUse × ℕ → Map ToolUse × ℕ
unfolding index_content
index_messages [] s = s
index_messages (msg ∷ msgs) s =
    index_messages msgs (index_content (elements (member (codes "content") (some msg))) s)

unfoldable pub index : Option Json → Map ToolUse
index root = (index_messages (for_each (member (codes "messages") root)) ([], 0)).0

-- Every entry was numbered below the counter, and no two ids have one number.
record IsNumbered (s : Map ToolUse × ℕ) : Type 0 where
  below : (id : Bytes) (u : ToolUse) → Maps.get s.0 id ≡ some u → u.seq < s.1
  injective :
      (id j : Bytes) (u v : ToolUse)
      → Maps.get s.0 id ≡ some u
      → Maps.get s.0 j ≡ some v
      → u.seq ≡ v.seq
      → id ≡ j

put-IsNumbered :
    (out : Map ToolUse) (n : ℕ) (id : Bytes) (u : ToolUse)
    → u.seq ≡ n
    → IsNumbered (out, n)
    → IsNumbered (Maps.put out id u, n + 1)
put-IsNumbered out n id u e inv = record {
  below = λ j v g. ground (arith, get-put out id j u, inv.below j v);
  injective = λ j k v w g h same. ground (
    arith,
    get-put out id j u,
    get-put out id k u,
    text_eq_iff id j,
    text_eq_iff id k,
    inv.below j v,
    inv.below k w,
    inv.injective j k v w,
  );
}

index_block-IsNumbered :
    (b : Json) (s : Map ToolUse × ℕ) → IsNumbered s → IsNumbered (index_block b s)
unfolding index_block
index_block-IsNumbered b (out, n) inv =
    elim (Bool-cases (text_eq (string_of (member (codes "type") (some b))) (codes "tool_use"))) [
      | inr other ↦ rw other inv
      | inl tool ↦ elim (Bool-cases (text_eq (string_of (member (codes "id") (some b))) [])) [
        | inl empty ↦ rw (tool, empty) inv
        | inr named ↦ rw (tool, named) (put-IsNumbered out n _ _ refl inv)
      ]
    ]

index_blocks-IsNumbered :
    (bs : List Json) (s : Map ToolUse × ℕ) → IsNumbered s → IsNumbered (index_blocks bs s)
unfolding index_blocks
index_blocks-IsNumbered [] s inv = inv
index_blocks-IsNumbered (b ∷ bs) s inv =
    index_blocks-IsNumbered bs (index_block b s) (index_block-IsNumbered b s inv)

index_content-IsNumbered :
    (bs : Option (List Json)) (s : Map ToolUse × ℕ) → IsNumbered s → IsNumbered (index_content bs s)
unfolding index_content
index_content-IsNumbered none s inv = inv
index_content-IsNumbered (some bs) s inv = index_blocks-IsNumbered bs s inv

index_messages-IsNumbered :
    (ms : List Json) (s : Map ToolUse × ℕ) → IsNumbered s → IsNumbered (index_messages ms s)
unfolding index_messages
index_messages-IsNumbered [] s inv = inv
index_messages-IsNumbered (m ∷ ms) s inv =
    index_messages-IsNumbered ms _
      (index_content-IsNumbered (elements (member (codes "content") (some m))) s inv)

-- In the index of any body, two tool_use ids with the same sequence number are the same id: so
-- "earlier in the body" orders the tools of a request totally.
pub index_injective :
    (root : Option Json) (id j : Bytes) (u v : ToolUse)
    → Maps.get (index root) id ≡ some u
    → Maps.get (index root) j ≡ some v
    → u.seq ≡ v.seq
    → id ≡ j
unfolding index
index_injective root =
    (index_messages-IsNumbered (for_each (member (codes "messages") root)) ([], 0)
      (record {
        below = λ id u g. absurd (nothing id u g);
        injective = λ id j u v g h same. absurd (nothing id u g);
      })).injective
  where
    nothing : (id : Bytes) (u : ToolUse) → Maps.get [] id ≡ some u → ⊥
    nothing id u g = unfold Maps.get in cc
