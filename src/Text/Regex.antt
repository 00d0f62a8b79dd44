-- ===== src/Text/Regex.antt =====
-- The regular expressions of Python's `re` that app/ compiles, matched by backtracking: an
-- alternative is tried before the next one, and a repetition takes as much as it can. A state is the
-- character before and the text from there on.
pub mod Occurs
use langgraph_temporal_agent.Prelude.{
  [], false, ◌∷◌, some, none, zero, suc, ℕ, Option, Bool, if◌then◌else◌, List, ◌==◌, leb, not, ◌-◌,
  take, ◌&&◌, ◌||◌, length,
}
use langgraph_temporal_agent.Text.{Text, is_digit, lower_char}
use langgraph_temporal_agent.Database.Sql.{is_some}

pub data Regex : Type 0 where
  -- One character of a class.
  chars : (ℕ → Bool) → Regex
  -- The empty text.
  empty : Regex
  seq alt : Regex → Regex → Regex
  -- `r{least,most}`
  repeat : (least most : ℕ) → Regex → Regex
  -- `\b`
  boundary : Regex
  -- `(?<!c)` and `(?!c)`
  not_before not_after : (ℕ → Bool) → Regex

-- `\w`
abbrev pub is_word : ℕ → Bool
is_word c = (leb b'a' c && leb c b'z') || (leb b'A' c && leb c b'Z') || is_digit c || c == b'_'

abbrev pub holds_of : (ℕ → Bool) → Option ℕ → Bool
holds_of p none = false
holds_of p (some c) = p c

abbrev pub next_char : Text → Option ℕ
next_char [] = none
next_char (c ∷ s) = some c

abbrev pub at_boundary : Option ℕ → Text → Bool
at_boundary prev s =
    not (holds_of is_word prev && holds_of is_word (next_char s))
    && (holds_of is_word prev || holds_of is_word (next_char s))

-- What goes on from a state: the rest of the text after a match, if there is one.
abbrev pub Goal : Type 0
Goal = Option ℕ → Text → Option Text

abbrev pub or_try : Option Text → Option Text → Option Text
or_try none other = other
or_try (some rest) other = some rest

abbrev pub one_char : (ℕ → Bool) → Goal → Goal
one_char p goal prev [] = none
one_char p goal prev (c ∷ s) = if p c then goal (some c) s else none

unfoldable pub repeated : (Goal → Goal) → ℕ → ℕ → Goal → Goal
repeated m least zero goal prev s = if least == 0 then goal prev s else none
repeated m least (suc most) goal prev s =
    or_try (m (repeated m (least - 1) most goal) prev s) (if least == 0 then goal prev s else none)

unfoldable pub run_regex : Regex → Goal → Goal
unfolding repeated is_digit
run_regex (chars p) goal prev s = one_char p goal prev s
run_regex empty goal prev s = goal prev s
run_regex (seq r q) goal prev s = run_regex r (run_regex q goal) prev s
run_regex (alt r q) goal prev s = or_try (run_regex r goal prev s) (run_regex q goal prev s)
run_regex (repeat least most r) goal prev s = repeated (run_regex r) least most goal prev s
run_regex boundary goal prev s = if at_boundary prev s then goal prev s else none
run_regex (not_before p) goal prev s = if holds_of p prev then none else goal prev s
run_regex (not_after p) goal prev s = if holds_of p (next_char s) then none else goal prev s

abbrev pub rest_of : Goal
rest_of prev s = some s

-- `pattern.search(text) is not None`, from a state.
unfoldable pub search_from : Regex → Option ℕ → Text → Bool
unfolding run_regex
search_from r prev [] = is_some (run_regex r rest_of prev [])
search_from r prev (c ∷ s) = is_some (run_regex r rest_of prev (c ∷ s)) || search_from r (some c) s

unfoldable pub search_regex : Regex → Text → Bool
unfolding search_from
search_regex r text = search_from r none text

-- The characters of the match that was found, 0 for no match.
unfoldable pub match_length : Option Text → Text → ℕ
match_length none text = 0
match_length (some rest) text = length text - length rest

-- `[match.group() for match in pattern.finditer(text)]`, where `skip` characters belong to a match
-- that has been found. Every match here has a character.
unfoldable pub matches_from : Regex → ℕ → Option ℕ → Text → List Text
unfolding run_regex match_length
matches_from r skip prev [] = []
matches_from r (suc skip) prev (c ∷ s) = matches_from r skip (some c) s
matches_from r zero prev (c ∷ s) =
    let size = match_length (run_regex r rest_of prev (c ∷ s)) (c ∷ s) in
    let later = matches_from r (size - 1) (some c) s in
    if size == 0 then later else take size (c ∷ s) ∷ later

unfoldable pub find_all : Regex → Text → List Text
unfolding matches_from
find_all r text = matches_from r 0 none text

-- A literal, with re.IGNORECASE.
unfoldable pub literal : Text → Regex
unfolding lower_char
literal [] = empty
literal (c ∷ s) = seq (chars (λ x. lower_char x == lower_char c)) (literal s)

-- `r?`
abbrev pub optional : Regex → Regex
optional r = alt r empty

-- `r*` and `r+` on a text of a length: a repetition of characters is no longer than the text.
abbrev pub any_number : ℕ → Regex → Regex
any_number length_of r = repeat 0 length_of r

abbrev pub some_number : ℕ → Regex → Regex
some_number length_of r = repeat 1 length_of r
