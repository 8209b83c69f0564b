-- ===== src/Tests/TagProtect.antt =====
-- A text with a tool's block, an element of HTML5 and a tag that closes itself.
use headroom_go.Common.{
  ◌≡◌, refl, true, false, Bytes, codes, contains, length, reverse, text_eq, is_in,
}
use headroom_go.Ccr.Marker.{decimal}
use headroom_go.TagProtect.{
  protect_tags, restore_tags, collect_tags, choose_prefix, fallback_prefix, emit_spans, placeholder,
}
use headroom_go.TagProtect.Spans.{Chain, collect_tags-Chain}
use headroom_go.TagProtect.RoundTrip.{restore_tags-protect_tags}

abbrev tagged : Bytes
tagged = codes "a <p>b</p> <tool id='>'>c <x/></tool> <y/>"

protects : (protect_tags tagged false).0 ≡ codes "a <p>b</p> {{HEADROOM_TAG_0}} {{HEADROOM_TAG_1}}"
unfolding protect_tags collect_tags emit_spans placeholder choose_prefix contains text_eq is_in
    decimal
protects = refl

marks :
    (protect_tags tagged true).0
    ≡ codes "a <p>b</p> {{HEADROOM_TAG_0}}c {{HEADROOM_TAG_1}}{{HEADROOM_TAG_2}} {{HEADROOM_TAG_3}}"
unfolding protect_tags collect_tags emit_spans placeholder choose_prefix contains text_eq is_in
    decimal
marks = refl

no_fallback : contains tagged fallback_prefix ≡ false
unfolding contains
no_fallback = refl

restore_tags-protect_tags_example :
    let (protected, blocks, _) = protect_tags tagged false in restore_tags protected blocks ≡ tagged
restore_tags-protect_tags_example = restore_tags-protect_tags tagged false no_fallback

collect_tags-Chain_example : Chain (length tagged) 0 (reverse (collect_tags false tagged).spans)
collect_tags-Chain_example = collect_tags-Chain false tagged
