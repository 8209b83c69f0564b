-- ===== src/Tests/Volatile.antt =====
-- Volatile values in texts and bodies.
use headroom_go.Common.{
  ◌≡◌, ◌≤◌, ◌↔◌, refl, [], ◌∷◌, Option, some, codes, length, text_eq, contains, strip_prefix,
}
use headroom_go.Ccr.Marker.{decimal}
use headroom_go.Json.{
  Json, arr, obj, nil, cons, end, field, member, elements, items_list, find_field, is_object,
  raw_of,
}
use headroom_go.CacheStab.Volatile.{
  timestamp, uuid, id_field, looks_like_iso8601, looks_like_uuid_v4, truncate, is_full, scan_here,
  scan_from, scan_string, is_id_named_key, is_empty_value, sample_of, scan_recursive, scan_items,
  scan_fields, scan_value, scan_messages, detect_volatile,
}
use headroom_go.CacheStab.Volatile.Found.{length-detect_volatile, Silent, scan_string-Silent}
use headroom_go.Tests.Fixtures.{text_of}

scanner : Unit {0}
unfolding decimal member elements items_list find_field is_object raw_of text_eq contains
    strip_prefix looks_like_iso8601 looks_like_uuid_v4 truncate is_full scan_here scan_from
    scan_string is_id_named_key is_empty_value sample_of scan_recursive scan_items scan_fields
    scan_value scan_messages detect_volatile
scanner = tt

-- A timestamp in the system prompt, an identifier and a UUID in a message.
abbrev busy : Option Json
busy = some (
    obj [] (
      field (codes "system") (text_of "at 2026-03-09T09:00:00Z") (
        field (codes "messages")
          (arr [] (
            cons
              (obj [] (
                field (codes "content")
                  (arr [] (
                    cons
                      (obj [] (
                        field (codes "Trace_ID") (text_of "7") (
                          field (codes "text") (text_of "123e4567-e89b-42d3-a456-426614174000")
                            end)))
                      nil))
                  end))
              nil))
          end)))

found :
    detect_volatile busy
    ≡ record { kind = timestamp; location = codes "system"; sample = codes "2026-03-09T09:00:00" }
      ∷ record {
        kind = id_field;
        location = codes "messages[0].content[0].Trace_ID";
        sample = codes "7";
      }
      ∷ record {
        kind = uuid;
        location = codes "messages[0].content[0].text";
        sample = codes "123e4567-e89b-42d3-a456-426614174000";
      }
      ∷ []
unfolding scanner
found = refl

length-detect_volatile_example : length (detect_volatile busy) ≤ 10
length-detect_volatile_example = length-detect_volatile busy

scan_string-Silent_example :
    (scan_string (codes "at 2026-03-09T09:00:00Z") (codes "system") [] ≡ [])
    ↔ Silent (codes "at 2026-03-09T09:00:00Z")
scan_string-Silent_example = scan_string-Silent (codes "at 2026-03-09T09:00:00Z") (codes "system")
