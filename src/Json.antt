-- ===== src/Json.antt =====
-- A request body as github.com/tidwall/gjson presents it: the tree of its values, and the methods of
-- gjson.Result that the program calls. Parsing itself is a parameter of what uses it.
pub mod Layout
use headroom_go.Common.{
  ℕ, zero, suc, Bool, true, false, List, [], ◌∷◌, Option, none, some, Bytes, text_eq, if◌then◌else◌,
}

mutual
  -- A string has its Index in the body, its Raw bytes with the quotes, and its decoded Str. Other
  -- scalars have their Raw bytes and what String() returns of them.
  pub data Json : Type 0 where
    str : ℕ → Bytes → Bytes → Json
    lit : Bytes → Bytes → Json
    arr : Bytes → Items → Json
    obj : Bytes → Fields → Json

  pub data Items : Type 0 where
    nil : Items
    cons : Json → Items → Items

  pub data Fields : Type 0 where
    end : Fields
    field : Bytes → Json → Fields → Fields

unfoldable pub items_list : Items → List Json
items_list nil = []
items_list (cons x xs) = x ∷ items_list xs

unfoldable pub values : Fields → List Json
values end = []
values (field k v fs) = v ∷ values fs

-- The first member with a key.
unfoldable pub find_field : Bytes → Fields → Option Json
find_field key end = none
find_field key (field k v fs) = if text_eq k key then some v else find_field key fs

-- Get(key), where nothing is found in what is no object.
unfoldable pub member : Bytes → Option Json → Option Json
member key (some (obj raw fs)) = find_field key fs
member key _ = none

-- IsArray with Array().
unfoldable pub elements : Option Json → Option (List Json)
elements (some (arr raw xs)) = some (items_list xs)
elements _ = none

unfoldable pub is_object : Option Json → Bool
is_object (some (obj raw fs)) = true
is_object _ = false

-- The values that ForEach visits.
unfoldable pub for_each : Option Json → List Json
for_each none = []
for_each (some (arr raw xs)) = items_list xs
for_each (some (obj raw fs)) = values fs
for_each (some j) = j ∷ []

-- String(), which is empty for what does not exist.
unfoldable pub string_of : Option Json → Bytes
string_of none = []
string_of (some (str index raw text)) = text
string_of (some (lit raw text)) = text
string_of (some (arr raw xs)) = raw
string_of (some (obj raw fs)) = raw

unfoldable pub raw_of : Option Json → Bytes
raw_of none = []
raw_of (some (str index raw text)) = raw
raw_of (some (lit raw text)) = raw
raw_of (some (arr raw xs)) = raw
raw_of (some (obj raw fs)) = raw
