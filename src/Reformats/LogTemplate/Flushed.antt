-- ===== src/Reformats/LogTemplate/Flushed.antt =====
-- What flushRun of internal/reformats/log_template.go writes.
use headroom_go.Common.{
  ℕ, suc, ◌≡◌, inl, inr, refl, sym, ap, ◌∙◌, Bool-cases, List, [], ◌∷◌, ◌++◌, append_assoc,
  append-nil, map, some, Bytes, length, All,
}
use headroom_go.Common.Space.{fields}
use headroom_go.Reformats.LogTemplate.{Slot, Run, collapses, variants, ended_lines, flush_run}
use headroom_go.Reformats.LogTemplate.Read.{
  Block, blocks_text, fill, read_blocks, line_tokens, verbatim, packed,
}
use headroom_go.Reformats.LogTemplate.Fits.{Fits, fill-variants, IsRun}

ended_lines-verbatim : (ls : List Bytes) → ended_lines ls ≡ blocks_text (map verbatim ls)
unfolding ended_lines
ended_lines-verbatim [] = refl
ended_lines-verbatim (l ∷ ls) = simp (ended_lines-verbatim ls, append_assoc)

read-verbatim : (ls : List Bytes) → read_blocks (map verbatim ls) ≡ line_tokens ls
read-verbatim [] = refl
read-verbatim (l ∷ ls) = ap (λ x. some (fields l) ∷ x) (read-verbatim ls)

read-variants :
    (ss : List Slot) (ls : List Bytes)
    → All (λ l. Fits ss (fields l)) ls
    → map (fill ss) (map (λ l. variants ss (fields l)) ls) ≡ line_tokens ls
read-variants ss [] h = refl
read-variants ss (l ∷ ls) (h, rest) =
    rw (fill-variants ss (fields l) h) (ap (λ x. some (fields l) ∷ x) (read-variants ss ls rest))

blocks_text-append : (a b : List Block) → blocks_text (a ++ b) ≡ blocks_text a ++ blocks_text b
blocks_text-append [] b = refl
blocks_text-append (x ∷ a) b = simp (blocks_text-append a b, append_assoc)

read_blocks-append : (a b : List Block) → read_blocks (a ++ b) ≡ read_blocks a ++ read_blocks b
read_blocks-append [] b = refl
read_blocks-append (x ∷ a) b = simp (read_blocks-append a b, append_assoc)

line_tokens-append : (a b : List Bytes) → line_tokens (a ++ b) ≡ line_tokens a ++ line_tokens b
line_tokens-append [] b = refl
line_tokens-append (x ∷ a) b = ap (λ t. some (fields x) ∷ t) (line_tokens-append a b)

-- A text that reads as the tokens of the lines.
abbrev pub Reads : Bytes → List Bytes → Type 0
Reads text ls = (bs : List Block) × (text ≡ blocks_text bs) × (read_blocks bs ≡ line_tokens ls)

pub Reads-append :
    (a b : Bytes) (ls ms : List Bytes) → Reads a ls → Reads b ms → Reads (a ++ b) (ls ++ ms)
Reads-append a b ls ms (bs, ea, ra) (cs, eb, rb) = (
  bs ++ cs,
  rw (ea, eb) (sym (blocks_text-append bs cs)),
  read_blocks-append bs cs ∙ (rw (ra, rb) (sym (line_tokens-append ls ms))),
)

length-map : {A B : Type 0} (f : A → B) (l : List A) → length (map f l) ≡ length l
length-map f [] = refl
length-map f (x ∷ l) = ap suc (length-map f l)

map-map :
    {A B C : Type 0} (f : A → B) (g : B → C) (l : List A) → map g (map f l) ≡ map (λ x. g (f x)) l
map-map f g [] = refl
map-map f g (x ∷ l) = ap (λ t. g (f x) ∷ t) (map-map f g l)

pub flush_run-Reads : (r : Run) (id : ℕ) → IsRun r → Reads (flush_run r id).0 r.lines
unfolding flush_run
flush_run-Reads r id h = elim (Bool-cases (collapses r)) [
  | inl packs ↦ rw packs (
    packed id r.template (map (λ l. variants r.template (fields l)) r.lines) ∷ [],
    (simp (length-map, map-map, append-nil, blocks_text)),
    append-nil _ ∙ read-variants r.template r.lines h,
  )
  | inr keeps ↦ rw keeps (map verbatim r.lines, ended_lines-verbatim r.lines, read-verbatim r.lines)
]
