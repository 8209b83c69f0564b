-- ===== src/Detect/ReadProtect/Fuel.antt =====
-- The recursion of IsReadCommand in internal/detect/readprotect.go ends: commands inside are shorter.

use headroom_go.Common.{
  ℕ, zero, suc, ◌+◌, ◌≤◌, ◌<◌, ◌≡◌, refl, ap, Bool, Bool-cases, false, ◌⊎◌, inl, inr, not, ◌&&◌,
  ◌||◌, List, [], ◌∷◌, ◌++◌, Option, Option-cases, none, some, arith, Bytes, codes, text_eq,
  strip_prefix, strip_prefix_sound, is_in, length, length-append,
}
use headroom_go.Common.Lines.{join}
use headroom_go.Common.Space.{fields, fields_size, words_size}
use headroom_go.Detect.ReadProtect.{
  peel_token, program_from, bash_program, trim_left_quotes, trim_right_quotes, trim_quotes,
  command_argument, read_step, read_command, no_tokens, is_read_command,
}
use headroom_go.Detect.Patterns.{
  skip_spaces, to_separator, separator_end, after_cd, strip_cd, strip_cds, is_write, shells,
}

strip_prefix_size : (p s r : Bytes) → strip_prefix p s ≡ some r → length r ≤ length s
strip_prefix_size p s r h =
    omega (arith, ap length (strip_prefix_sound p s r h), length-append {0} p r)

skip_spaces_size : (s : Bytes) → length (skip_spaces s) ≤ length s
unfolding skip_spaces
skip_spaces_size [] = omega arith
skip_spaces_size (c ∷ s) = ground (arith, skip_spaces_size s)

to_separator_size : (s : Bytes) → length (to_separator s).1 ≤ length s
unfolding to_separator
to_separator_size [] = omega arith
to_separator_size (c ∷ s) = ground (arith, to_separator_size s)

separator_end_size : (s r : Bytes) → separator_end s ≡ some r → length r ≤ length s
unfolding separator_end
separator_end_size s r h = elim (Option-cases (strip_prefix (codes "&&") s)) [
  | inl miss ↦ strip_prefix_size (codes ";") s r (ground (arith, miss, h))
  | inr (t, hit) ↦ strip_prefix_size (codes "&&") s r (ground (arith, hit, h))
]

after_cd_size : (s r : Bytes) → after_cd s ≡ some r → length r ≤ length s
unfolding after_cd
after_cd_size [] r h = cc
after_cd_size (c ∷ s) r h =
    ground (arith, to_separator_size s, separator_end_size (to_separator s).1 r)

strip_cd_size : (c r : Bytes) → strip_cd c ≡ some r → length r ≤ length c
unfolding strip_cd
strip_cd_size c r h = elim (Option-cases (strip_prefix (codes "cd") (skip_spaces c))) [
  | inl miss ↦ absurd (ground (arith, miss, h))
  | inr (s, hit) ↦ elim (Option-cases (after_cd s)) [
    | inl miss ↦ absurd (ground (arith, hit, miss, h))
    | inr (t, found) ↦
        let e : skip_spaces t ≡ r = ground (arith, hit, found, h) in
        omega (
          arith,
          ap length e,
          skip_spaces_size t,
          after_cd_size s t found,
          strip_prefix_size (codes "cd") (skip_spaces c) s hit,
          skip_spaces_size c,
        )
  ]
]

strip_cds_size : (fuel : ℕ) (c : Bytes) → length (strip_cds fuel c) ≤ length c
unfolding strip_cds
strip_cds_size zero c = omega arith
strip_cds_size (suc fuel) c =
    (elim (strip_cd c) as (λ o. strip_cd c ≡ o → length (next o) ≤ length c) [
      | none ↦ λ done. omega arith
      | some r ↦ λ cut. omega (arith, strip_cds_size fuel r, strip_cd_size c r cut)
    ])
      refl
  where
    next : Option Bytes → Bytes
    next none = c
    next (some r) = strip_cds fuel r

program_from_size :
    (skipping : Bool) (toks : List Bytes)
    → words_size (program_from skipping toks).1 ≤ words_size toks
unfolding program_from
program_from_size skipping [] = omega arith
program_from_size skipping (tok ∷ toks) = elim (Option-cases (peel_token skipping tok)) [
  | inl found ↦ rw (found, program_from) (omega arith)
  | inr (skips, over) ↦ rw (over, program_from) (omega (arith, program_from_size skips toks))
]

bash_program_size : (c : Bytes) → words_size (bash_program c).1 ≤ length c + 1
unfolding bash_program
bash_program_size c = omega (arith, program_from_size false (fields c), fields_size c)

trim_left_size : (s : Bytes) → length (trim_left_quotes s) ≤ length s
unfolding trim_left_quotes
trim_left_size [] = omega arith
trim_left_size (c ∷ s) = ground (arith, trim_left_size s)

trim_right_size : (s : Bytes) → length (trim_right_quotes s) ≤ length s
unfolding trim_right_quotes
trim_right_size [] = omega arith
trim_right_size (c ∷ s) = ground (arith, trim_right_size s)

trim_quotes_size : (s : Bytes) → length (trim_quotes s) ≤ length s
unfolding trim_quotes
trim_quotes_size s = omega (arith, trim_right_size (trim_left_quotes s), trim_left_size s)

join_size :
    (w : Bytes) (ws : List Bytes) → length (join (codes " ") (w ∷ ws)) + 1 ≡ words_size (w ∷ ws)
unfolding join
join_size w [] = omega arith
join_size w (v ∷ ws) =
    omega (arith, length-append {0} w (codes " " ++ join (codes " ") (v ∷ ws)), join_size v ws)

command_argument_size :
    (toks : List Bytes) (inner : Bytes)
    → command_argument toks ≡ some inner
    → length inner + 2 ≤ words_size toks
unfolding command_argument
command_argument_size [] inner h = cc
command_argument_size (tok ∷ []) inner h = cc
command_argument_size (tok ∷ next ∷ toks) inner h = ground (
  arith,
  command_argument_size (next ∷ toks) inner,
  join_size next toks,
  trim_quotes_size (join (codes " ") (next ∷ toks)),
)

read_step_size :
    (command inner : Bytes) → read_step command ≡ inr inner → length inner < length command
unfolding read_step
read_step_size command inner h =
    let c = strip_cds (length command) command in
    let r = bash_program c in
    let shorter : length c ≤ length command = strip_cds_size (length command) command in
    elim (Bool-cases (text_eq command [] || is_write c || text_eq r.0 [])) [
      | inl refused ↦ absurd (ground (arith, refused, h))
      | inr looks ↦ elim (Bool-cases (is_in r.0 shells && not (no_tokens r.1))) [
        | inl shell ↦ elim (Option-cases (command_argument r.1)) [
          | inl lacks ↦ absurd (ground (arith, looks, shell, lacks, h))
          | inr (x, has) ↦
              let e : x ≡ inner = ground (arith, looks, shell, has, h) in
              omega (arith, ap length e, command_argument_size r.1 x has, bash_program_size c)
        ]
        | inr other ↦ absurd (ground (arith, looks, other, h))
      ]
    ]

read_command_enough :
    (f g : ℕ) (command : Bytes)
    → length command < f
    → length command < g
    → read_command f command ≡ read_command g command
unfolding read_command
read_command_enough zero g command a b = absurd (omega arith)
read_command_enough (suc f) zero command a b = absurd (omega arith)
read_command_enough (suc f) (suc g) command a b =
    (elim (read_step command) as (λ o. read_step command ≡ o → next f o ≡ next g o) [
      | inl answer ↦ λ done. refl
      | inr inner ↦ λ more.
          let less = read_step_size command inner more in
          read_command_enough f g inner (omega arith) (omega arith)
    ])
      refl
  where
    next : ℕ → Bool ⊎ Bytes → Bool
    next fuel (inl answer) = answer
    next fuel (inr inner) = read_command fuel inner

-- With more fuel than the command has bytes, the answer of IsReadCommand does not depend on the fuel:
-- the recursion ends.
pub read_command_fuel :
    (fuel : ℕ) (command : Bytes)
    → length command < fuel
    → read_command fuel command ≡ is_read_command command
unfolding is_read_command
read_command_fuel fuel command lt =
    read_command_enough fuel (suc (length command)) command lt (omega arith)
