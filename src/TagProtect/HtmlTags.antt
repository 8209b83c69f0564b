-- ===== src/TagProtect/HtmlTags.antt =====
-- internal/tagprotect/html_tags.go: the elements of HTML5, which are never protected.
use headroom_go.Common.{
  ℕ, ◌+◌, Bool, ◌&&◌, List, [], ◌∷◌, map, Bytes, codes, is_in, leb, if◌then◌else◌,
}

unfoldable pub html5_allowlist_names : List Bytes
html5_allowlist_names =
    codes "html"
    ∷ codes "base"
    ∷ codes "head"
    ∷ codes "link"
    ∷ codes "meta"
    ∷ codes "style"
    ∷ codes "title"
    ∷ codes "body"
    ∷ codes "address"
    ∷ codes "article"
    ∷ codes "aside"
    ∷ codes "footer"
    ∷ codes "h1"
    ∷ codes "h2"
    ∷ codes "h3"
    ∷ codes "h4"
    ∷ codes "h5"
    ∷ codes "h6"
    ∷ codes "header"
    ∷ codes "hgroup"
    ∷ codes "main"
    ∷ codes "nav"
    ∷ codes "section"
    ∷ codes "search"
    ∷ codes "blockquote"
    ∷ codes "dd"
    ∷ codes "div"
    ∷ codes "dl"
    ∷ codes "dt"
    ∷ codes "figcaption"
    ∷ codes "figure"
    ∷ codes "hr"
    ∷ codes "li"
    ∷ codes "menu"
    ∷ codes "ol"
    ∷ codes "p"
    ∷ codes "pre"
    ∷ codes "ul"
    ∷ codes "a"
    ∷ codes "abbr"
    ∷ codes "b"
    ∷ codes "bdi"
    ∷ codes "bdo"
    ∷ codes "br"
    ∷ codes "cite"
    ∷ codes "code"
    ∷ codes "data"
    ∷ codes "dfn"
    ∷ codes "em"
    ∷ codes "i"
    ∷ codes "kbd"
    ∷ codes "mark"
    ∷ codes "q"
    ∷ codes "rp"
    ∷ codes "rt"
    ∷ codes "ruby"
    ∷ codes "s"
    ∷ codes "samp"
    ∷ codes "small"
    ∷ codes "span"
    ∷ codes "strong"
    ∷ codes "sub"
    ∷ codes "sup"
    ∷ codes "time"
    ∷ codes "u"
    ∷ codes "var"
    ∷ codes "wbr"
    ∷ codes "area"
    ∷ codes "audio"
    ∷ codes "img"
    ∷ codes "map"
    ∷ codes "track"
    ∷ codes "video"
    ∷ codes "embed"
    ∷ codes "iframe"
    ∷ codes "object"
    ∷ codes "param"
    ∷ codes "picture"
    ∷ codes "portal"
    ∷ codes "source"
    ∷ codes "svg"
    ∷ codes "math"
    ∷ codes "canvas"
    ∷ codes "noscript"
    ∷ codes "script"
    ∷ codes "del"
    ∷ codes "ins"
    ∷ codes "caption"
    ∷ codes "col"
    ∷ codes "colgroup"
    ∷ codes "table"
    ∷ codes "tbody"
    ∷ codes "td"
    ∷ codes "tfoot"
    ∷ codes "th"
    ∷ codes "thead"
    ∷ codes "tr"
    ∷ codes "button"
    ∷ codes "datalist"
    ∷ codes "fieldset"
    ∷ codes "form"
    ∷ codes "input"
    ∷ codes "label"
    ∷ codes "legend"
    ∷ codes "meter"
    ∷ codes "optgroup"
    ∷ codes "option"
    ∷ codes "output"
    ∷ codes "progress"
    ∷ codes "select"
    ∷ codes "textarea"
    ∷ codes "details"
    ∷ codes "dialog"
    ∷ codes "summary"
    ∷ codes "slot"
    ∷ codes "template"
    ∷ []

-- strings.ToLower of one byte of a tag's name, which is ASCII.
unfoldable pub to_lower : ℕ → ℕ
to_lower c = if leb b'A' c && leb c b'Z' then c + 32 else c

unfoldable pub is_known_html_tag : Bytes → Bool
unfolding to_lower html5_allowlist_names
is_known_html_tag name = is_in (map to_lower name) html5_allowlist_names
