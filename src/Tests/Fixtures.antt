-- ===== src/Tests/Fixtures.antt =====
-- Concrete parameters and bodies.
use headroom_go.Common.{
  ℕ, zero, suc, ◌*◌, ◌/◌, ◌≤◌, ◌≡◌, refl, String, ltb, leb, [], ◌∷◌, ◌++◌, Option, some, Bytes,
  codes, length, take, arith,
}
use headroom_go.Ccr.Key.{HashSums}
use headroom_go.Json.{Json, str, arr, obj, nil, cons, end, field}
use headroom_go.Pipeline.{Float}

abbrev pub zeros : ℕ → Bytes
zeros zero = []
zeros (suc n) = 0 ∷ zeros n

padded : (n m : ℕ) (p : Bytes) → n ≤ m → length (take n (p ++ zeros m)) ≡ n
padded zero m p le = refl
padded (suc n) zero p le = omega arith
padded (suc n) (suc m) [] le = omega (arith, padded n m [] (omega arith))
padded (suc n) (suc m) (b ∷ p) le = omega (arith, padded n (suc m) p (omega arith))

pub padded_size : (n : ℕ) (p : Bytes) → length (take n (p ++ zeros n)) ≡ n
padded_size n p = padded n n p (omega arith)

-- The first bytes of a text as its sum.
abbrev pub prefix_sums : HashSums
prefix_sums = record {
  blake3 = λ p. take 32 (p ++ zeros 32);
  md5 = λ p. take 16 (p ++ zeros 16);
  blake3_size = padded_size 32;
  md5_size = padded_size 16;
}

-- Percentages.
abbrev pub percent : Float
percent = record { F = ℕ; zero = 0; one = 100; ratio = λ a b. 100 * a / b; le = leb; lt = ltb }

-- Two user messages, the first with a breakpoint, and an assistant's with two tools.
abbrev pub text_of : String → Json
text_of s = str 1 (codes s) (codes s)

abbrev pub tool_block : String → Json
tool_block id = obj [] (
    field (codes "type") (text_of "tool_use")
      (field (codes "id") (text_of id) (field (codes "name") (text_of "Read") end)))

abbrev pub marked_block : Json
marked_block = obj [] (
    field (codes "type") (text_of "text")
      (field (codes "cache_control") (obj [] (field (codes "type") (text_of "ephemeral") end)) end))

abbrev pub marked_message : Json
marked_message = obj [] (
    field (codes "role") (text_of "user")
      (field (codes "content") (arr [] (cons marked_block nil)) end))

abbrev pub tools_message : Json
tools_message = obj [] (
    field (codes "role") (text_of "assistant")
      (field (codes "content") (arr [] (cons (tool_block "a") (cons (tool_block "b") nil))) end))

abbrev pub last_message : Json
last_message =
    obj [] (field (codes "role") (text_of "user") (field (codes "content") (text_of "go on") end))

abbrev pub three_messages : Option Json
three_messages = some (
    obj [] (
      field (codes "messages")
        (arr [] (cons marked_message (cons tools_message (cons last_message nil)))) end))
