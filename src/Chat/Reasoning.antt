-- ===== src/Chat/Reasoning.antt =====
-- `strip_reasoning` and its two regular expressions, `<think>.*?</think>` and `<think>.*$`, both with
-- DOTALL and IGNORECASE. A match is the leftmost one, and the first ends as early as it can.
pub mod Laws
pub mod Block
use langgraph_temporal_agent.Prelude.{
  ℕ, zero, suc, ◌+◌, Bool, true, false, Option, none, some, [], ◌∷◌, ◌==◌, ◌&&◌, ◌||◌,
  if◌then◌else◌, ◌-◌,
}
use mathlib.Core.Option
use langgraph_temporal_agent.Text.{Text, codes, strip, lower_char}

-- What IGNORECASE compares. Beside the ASCII letters, the dotted I and the dotless i match an `i`, and
-- the Kelvin sign a `k`; the tags have no other letter with such a match.
abbrev pub fold_char : ℕ → ℕ
fold_char c = if c == 304 || c == 305 then b'i' else if c == 8490 then b'k' else lower_char c

-- Whether the text starts with the tag.
unfoldable pub starts_with_tag : Text → Text → Bool
starts_with_tag [] s = true
starts_with_tag (t ∷ tag) [] = false
starts_with_tag (t ∷ tag) (c ∷ s) = fold_char c == t && starts_with_tag tag s

abbrev pub open_tag : Text
open_tag = codes "<think>"

abbrev pub close_tag : Text
close_tag = codes "</think>"

-- The characters up to the end of the first closing tag.
unfoldable pub close_at : Text → Option ℕ
unfolding starts_with_tag
close_at [] = none
close_at (c ∷ s) =
    let rest = close_at s in
    if starts_with_tag close_tag (c ∷ s) then some 8 else Option.map suc rest

abbrev pub drop : ℕ → Text → Text
drop zero s = s
drop (suc n) [] = []
drop (suc n) (c ∷ s) = drop n s

-- The length of a match of _THINK_BLOCK at the start of the text.
unfoldable pub block_length : Text → Option ℕ
unfolding close_at starts_with_tag
block_length s =
    if starts_with_tag open_tag s then Option.map (λ n. n + 7) (close_at (drop 7 s)) else none

-- `_THINK_BLOCK.sub("", text)`, with as many characters of a match still to skip.
unfoldable pub sub_blocks : ℕ → Text → Text
unfolding block_length
sub_blocks skip [] = []
sub_blocks (suc skip) (c ∷ s) = sub_blocks skip s
sub_blocks zero (c ∷ s) = elim (block_length (c ∷ s)) [
  | none ↦ c ∷ sub_blocks zero s
  | some n ↦ sub_blocks (n - 1) s
]

-- `_THINK_OPEN.sub("", text)`
unfoldable pub sub_open : Text → Text
unfolding starts_with_tag
sub_open [] = []
sub_open (c ∷ s) =
    let rest = sub_open s in if starts_with_tag open_tag (c ∷ s) then [] else c ∷ rest

unfoldable pub strip_reasoning : Text → Text
unfolding sub_blocks sub_open strip
strip_reasoning text = strip (sub_open (sub_blocks 0 text))

-- Whether the text has an opening tag anywhere.
unfoldable pub contains_open : Text → Bool
unfolding starts_with_tag
contains_open [] = false
contains_open (c ∷ s) = starts_with_tag open_tag (c ∷ s) || contains_open s
