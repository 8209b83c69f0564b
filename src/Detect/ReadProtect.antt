-- ===== src/Detect/ReadProtect.antt =====
-- internal/detect/readprotect.go: which outputs of tools are file reads that must stay as they are.
pub mod Fuel
use headroom_go.Common.{
  has_prefix, ℕ, zero, suc, ◌+◌, ◌-◌, ◌≤◌, ◌<◌, ◌≡◌, refl, Bool, Bool-cases, true, false, ◌⊎◌, inl,
  inr, not, ◌&&◌, ◌||◌, List, [], ◌∷◌, ◌++◌, Option, none, some, arith, Bytes, codes, ltb, leb,
  ◌==◌, if◌then◌else◌, text_eq, strip_prefix, contains, is_in, length,
}
use headroom_go.Common.Lines.{join}
use headroom_go.Common.Space.{fields}
use headroom_go.Transform.{ContentType, json_array, search_results, build_output, git_diff, html}
use headroom_go.Detect.Patterns.{
  read_verbs, shell_wrappers, shells, command_flags, code_extensions, skip_spaces, to_separator,
  separator_end, after_cd, strip_cd, strip_cds, is_write, is_sed_range, names_lockfile, lower_from,
  after_last,
}

base_name : Bytes → Bytes
unfolding after_last lower_from
base_name tok = lower_from (elim (after_last b'/' tok) [ none ↦ tok | some rest ↦ rest ])

digits_and_dot : Bool → Bytes → Bool
digits_and_dot dot [] = true
digits_and_dot dot (c ∷ s) =
    (if leb b'0' c && leb c b'9' then true else c == b'.' && not dot)
    && digits_and_dot (dot || c == b'.') s

unfoldable pub is_numeric : Bytes → Bool
unfolding digits_and_dot
is_numeric s = not (text_eq s []) && digits_and_dot false s

-- Whether a token is passed over, and if so whether a wrapper's options are skipped behind it.
peel_token : Bool → Bytes → Option Bool
unfolding base_name is_numeric
peel_token skipping tok =
    let dash = has_prefix tok (codes "-") in
    if skipping && (dash || is_numeric tok)
    then some true
    else if contains tok (codes "=") && not dash
    then some false
    else if is_in (base_name tok) shell_wrappers
    then some true
    else none

-- The loop of bashProgram; the first argument says that a wrapper's options are being skipped.
program_from : Bool → List Bytes → Bytes × List Bytes
unfolding base_name peel_token
program_from skipping [] = ([], [])
program_from skipping (tok ∷ toks) = elim (peel_token skipping tok) [
  | none ↦ (base_name tok, toks)
  | some skips ↦ program_from skips toks
]

unfoldable pub bash_program : Bytes → Bytes × List Bytes
unfolding program_from fields
bash_program command = program_from false (fields command)

is_quote : ℕ → Bool
is_quote c = c == 39 || c == b'"'

trim_left_quotes : Bytes → Bytes
unfolding is_quote
trim_left_quotes [] = []
trim_left_quotes (c ∷ s) = let rest = trim_left_quotes s in if is_quote c then rest else c ∷ s

trim_right_quotes : Bytes → Bytes
unfolding is_quote
trim_right_quotes [] = []
trim_right_quotes (c ∷ s) =
    let rest = trim_right_quotes s in if is_quote c && text_eq rest [] then [] else c ∷ rest

-- strings.Trim(s, "'\"").
unfoldable pub trim_quotes : Bytes → Bytes
unfolding trim_left_quotes trim_right_quotes
trim_quotes s = trim_right_quotes (trim_left_quotes s)

-- The argument of the shell's -c: the tokens behind the first flag that has one.
unfoldable pub command_argument : List Bytes → Option Bytes
unfolding trim_quotes
command_argument [] = none
command_argument (tok ∷ []) = none
command_argument (tok ∷ next ∷ toks) =
    let rest = command_argument (next ∷ toks) in
    if is_in tok command_flags then some (trim_quotes (join (codes " ") (next ∷ toks))) else rest

-- A program that is no shell, in the command `c`.
prints_file : Bytes → Bytes → Bool
unfolding is_sed_range names_lockfile
prints_file prog c =
    (is_in prog read_verbs || (text_eq prog (codes "sed") && is_sed_range c))
    && not (names_lockfile c)

no_tokens : List Bytes → Bool
no_tokens [] = true
no_tokens (t ∷ ts) = false

-- One round of IsReadCommand: the answer, or the command inside the command.
unfoldable pub read_step : Bytes → Bool ⊎ Bytes
unfolding strip_cds is_write bash_program command_argument prints_file no_tokens
read_step command =
    let c = strip_cds (length command) command in
    let (prog, rest) = bash_program c in
    if text_eq command [] || is_write c || text_eq prog []
    then inl false
    else if is_in prog shells && not (no_tokens rest)
    then elim (command_argument rest) [ none ↦ inl false | some inner ↦ inr inner ]
    else inl (prints_file prog c)

-- The recursion, on fuel.
unfoldable pub read_command : ℕ → Bytes → Bool
unfolding read_step
read_command zero command = false
read_command (suc fuel) command = elim (read_step command) [
  | inl answer ↦ answer
  | inr inner ↦ read_command fuel inner
]

unfoldable pub is_read_command : Bytes → Bool
unfolding read_command
is_read_command command = read_command (suc (length command)) command

abbrev read_tools : List Bytes
read_tools =
    codes "Read"
    ∷ codes "read_file"
    ∷ codes "view"
    ∷ codes "cat"
    ∷ codes "mcp__filesystem__read_text_file"
    ∷ codes "mcp__fs__read_text_file"
    ∷ []

abbrev bash_tools : List Bytes
bash_tools = codes "Bash" ∷ codes "bash" ∷ codes "shell" ∷ codes "run_command" ∷ []

unfoldable pub is_releasable : ContentType → Bool
is_releasable json_array = true
is_releasable search_results = true
is_releasable build_output = true
is_releasable git_diff = true
is_releasable html = true
is_releasable _ = false

-- filepath.Ext: the last dot of the last element, and what follows.
extension : Bytes → Bytes
unfolding after_last
extension path = elim (after_last b'/' path) [ none ↦ dotted path | some name ↦ dotted name ]
  where
    dotted : Bytes → Bytes
    dotted name = elim (after_last b'.' name) [ none ↦ [] | some ext ↦ b'.' ∷ ext ]

unfoldable pub has_code_extension : Bytes → Bool
unfolding extension lower_from
has_code_extension path = is_in (lower_from (extension path)) code_extensions

unfoldable pub read_output_is_protected : Bytes → Bytes → Bytes → ContentType → Bool
unfolding is_read_command has_code_extension is_releasable
read_output_is_protected tool_name command file_path content_type =
    let is_read =
      is_in tool_name read_tools || (is_in tool_name bash_tools && is_read_command command) in
    is_read && (has_code_extension file_path || not (is_releasable content_type))
