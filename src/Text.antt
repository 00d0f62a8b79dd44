-- ===== src/Text.antt =====
-- Python's `str` as the list of its code points, and the methods of it that app/ calls: `==`,
-- `upper`, `lower`, `strip`, `partition`, the format `:03d` and `int` of a run of digits.
-- Case, blanks and digits are those of ASCII.
pub mod Equality
pub mod Decimal
pub mod Partition
pub mod Regex
mod Tests
use Prim.Native.Char.{code}
use Prim.Native.String
use langgraph_temporal_agent.Prelude.{
  ℕ, zero, suc, ◌+◌, ◌-◌, ◌*◌, ◌/◌, ◌%◌, Bool, true, false, ◌&&◌, ◌||◌, Option, none, some, List,
  [], ◌∷◌, ◌++◌, map, String, ltb, leb, ◌==◌, if◌then◌else◌, length,
}
use mathlib.Core.List.{reverse}

abbrev pub Text : Type 0
Text = List ℕ

-- The code points of a literal.
abbrev pub codes : String → Text
codes String.[] = []
codes (String.◌∷◌ c s) = code c ∷ codes s

unfoldable pub text_eq : Text → Text → Bool
text_eq [] [] = true
text_eq (c ∷ s) (d ∷ t) = c == d && text_eq s t
text_eq _ _ = false

unfoldable pub is_digit : ℕ → Bool
is_digit c = leb b'0' c && leb c b'9'

-- Space, and the controls from tab to carriage return and from 28 to 31: what `str.strip` removes.
unfoldable pub is_blank : ℕ → Bool
is_blank c = c == 32 || (leb 9 c && leb c 13) || (leb 28 c && leb c 31)

unfoldable pub upper_char : ℕ → ℕ
upper_char c = if leb b'a' c && leb c b'z' then c - 32 else c

unfoldable pub lower_char : ℕ → ℕ
lower_char c = if leb b'A' c && leb c b'Z' then c + 32 else c

unfoldable pub upper : Text → Text
unfolding upper_char
upper s = map upper_char s

unfoldable pub lower : Text → Text
unfolding lower_char
lower s = map lower_char s

unfoldable pub lstrip : Text → Text
unfolding is_blank
lstrip [] = []
lstrip (c ∷ s) = if is_blank c then lstrip s else c ∷ s

unfoldable pub rstrip : Text → Text
unfolding lstrip
rstrip s = reverse (lstrip (reverse s))

unfoldable pub strip : Text → Text
unfolding lstrip rstrip
strip s = rstrip (lstrip s)

-- The decimal digits of `n`, put before `acc`; the fuel bounds the number of digits.
unfoldable pub decimal_from : ℕ → ℕ → Text → Text
decimal_from zero n acc = acc
decimal_from (suc f) n acc =
    let rest = decimal_from f (n / 10) ((b'0' + n % 10) ∷ acc) in
    if ltb n 10 then (b'0' + n) ∷ acc else rest

-- `str(n)`
unfoldable pub decimal : ℕ → Text
unfolding decimal_from
decimal n = decimal_from (suc n) n []

unfoldable pub pad_zeros : ℕ → Text → Text
pad_zeros zero s = s
pad_zeros (suc k) s = b'0' ∷ pad_zeros k s

-- `f"{n:03d}"`
unfoldable pub format_03d : ℕ → Text
unfolding decimal pad_zeros
format_03d n = pad_zeros (3 - length (decimal n)) (decimal n)

-- `int(s)` of a run of digits, read after digits worth `acc`.
unfoldable pub int_from : ℕ → Text → ℕ
int_from acc [] = acc
int_from acc (c ∷ s) = int_from (acc * 10 + (c - b'0')) s

-- `s.partition(sep)` at a single character: what stands before and after the first one, and
-- whether there is one.
unfoldable pub partition : ℕ → Text → Text × Bool × Text
partition sep [] = ([], false, [])
partition sep (c ∷ s) =
    let (before, found, after) = partition sep s in
    if c == sep then ([], true, s) else (c ∷ before, found, after)

abbrev pub is_empty : Text → Bool
is_empty [] = true
is_empty (_ ∷ _) = false
