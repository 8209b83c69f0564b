-- ===== src/Tests/CacheControl.antt =====
-- Breakpoints and tool uses of a concrete body.
use headroom_go.Common.{◌≡◌, ◌↔◌, refl, List, [], ◌∷◌, some, codes, text_eq}
use headroom_go.Common.Maps
use headroom_go.Json.{
  Json, member, elements, items_list, find_field, is_object, string_of, for_each, raw_of,
}
use headroom_go.CacheControl.{compute_frozen_count}
use headroom_go.CacheControl.Floor.{IsFloor, compute_frozen_count-IsFloor}
use headroom_go.CacheControl.Ttl.{InOrder, all_ttls, ttls_of}
use headroom_go.CacheControl.Ttl.Warns.{compute_frozen_count-warns}
use headroom_go.ToolPairs.Index.{
  ToolUse, index, index_messages, index_blocks, index_block, index_injective,
}
use headroom_go.Tests.Fixtures.{marked_message, tools_message, last_message, three_messages}

abbrev messages : List Json
messages = marked_message ∷ tools_message ∷ last_message ∷ []

bodies : Unit {0}
unfolding member elements items_list find_field is_object string_of for_each raw_of text_eq index
    index_messages index_blocks index_block Maps.get Maps.put
bodies = tt

is_list : elements (member (codes "messages") three_messages) ≡ some messages
unfolding bodies
is_list = refl

compute_frozen_count-IsFloor_example : IsFloor messages (compute_frozen_count three_messages).0
compute_frozen_count-IsFloor_example =
    compute_frozen_count-IsFloor three_messages messages (unfold is_object in refl) is_list

compute_frozen_count-warns_example : ((compute_frozen_count three_messages).1 ≡ []) ↔ (
    InOrder (all_ttls (elements (member (codes "messages") three_messages)))
    × InOrder (ttls_of (elements (member (codes "system") three_messages)))
    × InOrder (ttls_of (elements (member (codes "tools") three_messages))))
compute_frozen_count-warns_example =
    compute_frozen_count-warns three_messages (unfold is_object in refl)

abbrev second : ToolUse
second = record { name = codes "Read"; input = []; seq = 1 }

found : Maps.get (index three_messages) (codes "b") ≡ some second
unfolding bodies
found = refl

index_injective_example : codes "b" ≡ codes "b"
index_injective_example =
    index_injective three_messages (codes "b") (codes "b") second second found found refl
