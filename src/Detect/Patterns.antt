-- ===== src/Detect/Patterns.antt =====
-- The word lists and regular expressions of internal/detect/readprotect.go, the latter as matchers.
use headroom_go.Common.{
  has_prefix, ℕ, zero, suc, ◌+◌, Bool, true, false, not, ◌&&◌, ◌||◌, List, [], ◌∷◌, Option, none,
  some, Bytes, codes, leb, ◌==◌, if◌then◌else◌, strip_prefix,
}

abbrev pub read_verbs : List Bytes
read_verbs =
    codes "cat"
    ∷ codes "head"
    ∷ codes "tail"
    ∷ codes "nl"
    ∷ codes "bat"
    ∷ codes "less"
    ∷ codes "more"
    ∷ []

abbrev pub shell_wrappers : List Bytes
shell_wrappers =
    codes "rtk"
    ∷ codes "sudo"
    ∷ codes "env"
    ∷ codes "time"
    ∷ codes "nice"
    ∷ codes "ionice"
    ∷ codes "nohup"
    ∷ codes "stdbuf"
    ∷ codes "command"
    ∷ codes "timeout"
    ∷ codes "xargs"
    ∷ []

abbrev pub shells : List Bytes
shells = codes "sh" ∷ codes "bash" ∷ codes "zsh" ∷ codes "dash" ∷ []

abbrev pub command_flags : List Bytes
command_flags = codes "-c" ∷ codes "-lc" ∷ codes "-lic" ∷ codes "-ic" ∷ []

abbrev lockfile_names : List Bytes
lockfile_names =
    codes "bun.lock"
    ∷ codes "bun.lockb"
    ∷ codes "package-lock.json"
    ∷ codes "npm-shrinkwrap.json"
    ∷ codes "yarn.lock"
    ∷ codes "pnpm-lock.yaml"
    ∷ codes "uv.lock"
    ∷ codes "poetry.lock"
    ∷ codes "pipfile.lock"
    ∷ codes "cargo.lock"
    ∷ codes "go.sum"
    ∷ codes "gemfile.lock"
    ∷ codes "composer.lock"
    ∷ codes "flake.lock"
    ∷ codes "package.resolved"
    ∷ codes "gradle.lockfile"
    ∷ codes "packages.lock.json"
    ∷ []

abbrev pub code_extensions : List Bytes
code_extensions =
    codes ".go"
    ∷ codes ".py"
    ∷ codes ".ts"
    ∷ codes ".tsx"
    ∷ codes ".js"
    ∷ codes ".jsx"
    ∷ codes ".rs"
    ∷ codes ".java"
    ∷ codes ".rb"
    ∷ codes ".c"
    ∷ codes ".h"
    ∷ codes ".cpp"
    ∷ codes ".cc"
    ∷ codes ".hpp"
    ∷ []

-- [\t\n\f\r ]
is_re_space : ℕ → Bool
is_re_space c = c == 9 || c == 10 || c == 12 || c == 13 || c == 32

is_word_char : ℕ → Bool
is_word_char c =
    (leb b'a' c && leb c b'z')
    || (leb b'A' c && leb c b'Z')
    || (leb b'0' c && leb c b'9')
    || c == b'_'

-- (\s|$)
space_or_end : Bytes → Bool
unfolding is_re_space
space_or_end [] = true
space_or_end (c ∷ s) = is_re_space c

unfoldable pub skip_spaces : Bytes → Bytes
unfolding is_re_space
skip_spaces [] = []
skip_spaces (c ∷ s) = let rest = skip_spaces s in if is_re_space c then rest else c ∷ s

-- What follows [^&;|]*, and how many bytes that takes.
unfoldable pub to_separator : Bytes → ℕ × Bytes
to_separator [] = (0, [])
to_separator (c ∷ s) =
    let (n, rest) = to_separator s in
    if c == b'&' || c == b';' || c == b'|' then (0, c ∷ s) else (n + 1, rest)

unfoldable pub separator_end : Bytes → Option Bytes
separator_end s = elim (strip_prefix (codes "&&") s) [
  | none ↦ strip_prefix (codes ";") s
  | some rest ↦ some rest
]

unfoldable pub after_cd : Bytes → Option Bytes
unfolding is_re_space to_separator separator_end
after_cd [] = none
after_cd (c ∷ s) =
    let (n, rest) = to_separator s in
    if is_re_space c && not (n == 0) then separator_end rest else none

-- cdPrefixRe at the start of a command, cut off.
unfoldable pub strip_cd : Bytes → Option Bytes
unfolding skip_spaces after_cd
strip_cd c = elim (strip_prefix (codes "cd") (skip_spaces c)) [
  | none ↦ none
  | some s ↦ elim (after_cd s) [ none ↦ none | some rest ↦ some (skip_spaces rest) ]
]

-- The loop that strips, on fuel; the length of the command is enough.
unfoldable pub strip_cds : ℕ → Bytes → Bytes
unfolding strip_cd
strip_cds zero c = c
strip_cds (suc fuel) c = elim (strip_cd c) [ none ↦ c | some rest ↦ strip_cds fuel rest ]

redirects : Bytes → Bool
unfolding is_word_char
redirects s =
    has_prefix s (codes ">")
    || has_prefix s (codes "<<")
    || (elim (strip_prefix (codes "tee") s) [ none ↦ false | some rest ↦ not_word rest ])
  where
    not_word : Bytes → Bool
    not_word [] = true
    not_word (c ∷ s) = not (is_word_char c)

sed_prints : Bytes → Bool
unfolding space_or_end
sed_prints s = elim (strip_prefix (codes "-n") s) [ none ↦ false | some rest ↦ space_or_end rest ]

-- A match at the start or behind a byte of a class.
search_after : (ℕ → Bool) → (Bytes → Bool) → Bool → Bytes → Bool
search_after class found here [] = here && found []
search_after class found here (c ∷ s) =
    (here && found (c ∷ s)) || search_after class found (class c) s

unfoldable pub is_write : Bytes → Bool
unfolding search_after redirects is_re_space
is_write c = search_after is_re_space redirects true c

unfoldable pub is_sed_range : Bytes → Bool
unfolding search_after sed_prints is_re_space
is_sed_range c = search_after is_re_space sed_prints true c

-- Letters as (?i) of the lockfiles' names folds them: U+212A to k and U+017F to s besides ASCII.
fold_case : Bytes → Bytes
fold_case [] = []
fold_case (a ∷ []) = (if leb b'A' a && leb a b'Z' then a + 32 else a) ∷ []
fold_case (a ∷ b ∷ []) =
    let rest = fold_case (b ∷ []) in
    if a == 0xC5 && b == 0xBF
    then b's' ∷ []
    else (if leb b'A' a && leb a b'Z' then a + 32 else a) ∷ rest
fold_case (a ∷ b ∷ c ∷ s) =
    let rest = fold_case (b ∷ c ∷ s) in
    let long_s = fold_case (c ∷ s) in
    let kelvin = fold_case s in
    if a == 0xC5 && b == 0xBF
    then b's' ∷ long_s
    else if a == 0xE2 && b == 0x84 && c == 0xAA
    then b'k' ∷ kelvin
    else (if leb b'A' a && leb a b'Z' then a + 32 else a) ∷ rest

named_here : List Bytes → Bytes → Bool
unfolding space_or_end
named_here [] s = false
named_here (n ∷ ns) s =
    (elim (strip_prefix n s) [ none ↦ false | some rest ↦ space_or_end rest ]) || named_here ns s

unfoldable pub names_lockfile : Bytes → Bool
unfolding search_after named_here fold_case is_re_space
names_lockfile c =
    search_after (λ b. is_re_space b || b == b'/') (named_here lockfile_names) true (fold_case c)

-- strings.ToLower, as far as it makes ASCII letters: U+0130 becomes i and U+212A k.
unfoldable pub lower_from : Bytes → Bytes
lower_from [] = []
lower_from (a ∷ []) = (if leb b'A' a && leb a b'Z' then a + 32 else a) ∷ []
lower_from (a ∷ b ∷ []) =
    let rest = lower_from (b ∷ []) in
    if a == 0xC4 && b == 0xB0
    then b'i' ∷ []
    else (if leb b'A' a && leb a b'Z' then a + 32 else a) ∷ rest
lower_from (a ∷ b ∷ c ∷ s) =
    let rest = lower_from (b ∷ c ∷ s) in
    let dotted = lower_from (c ∷ s) in
    let kelvin = lower_from s in
    if a == 0xC4 && b == 0xB0
    then b'i' ∷ dotted
    else if a == 0xE2 && b == 0x84 && c == 0xAA
    then b'k' ∷ kelvin
    else (if leb b'A' a && leb a b'Z' then a + 32 else a) ∷ rest

-- What follows the last byte `c`, if there is one.
unfoldable pub after_last : ℕ → Bytes → Option Bytes
after_last c [] = none
after_last c (d ∷ s) = elim (after_last c s) [
  | none ↦ if d == c then some s else none
  | some rest ↦ some rest
]
