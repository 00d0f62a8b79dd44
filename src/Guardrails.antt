-- ===== src/Guardrails.antt =====
-- app/guardrails.py: the patterns, the check of a card number, and the two validations.
pub mod Luhn
pub mod Cards
pub mod Judged
pub mod Nemo
mod Tests
use langgraph_temporal_agent.Prelude.{
  ◌∷◌, [], none, true, some, false, suc, List, Bool, ℕ, if◌then◌else◌, ◌+◌, leb, ◌||◌, Option, ◌-◌,
  ltb, ◌%◌, length, any, ◌*◌, ◌==◌, ◌&&◌, not,
}
use langgraph_temporal_agent.Text.{Text, is_digit, is_blank, codes}
use langgraph_temporal_agent.Text.Regex.{
  literal, Regex, search_regex, seq, find_all, boundary, not_before, alt, repeat, optional, chars,
  any_number, not_after, some_number,
}

-- `[int(character) for character in value if character.isdigit()]`
unfoldable pub digits_of : Text → List ℕ
unfolding is_digit
digits_of [] = []
digits_of (c ∷ s) = let rest = digits_of s in if is_digit c then (c - b'0') ∷ rest else rest

-- What a digit adds to the checksum; every second one is doubled.
unfoldable pub contribution : Bool → ℕ → ℕ
contribution false digit = digit
contribution true digit = if ltb 9 (digit * 2) then digit * 2 - 9 else digit * 2

-- The loop, from an index and the checksum so far.
unfoldable pub checksum : ℕ → ℕ → ℕ → List ℕ → ℕ
unfolding contribution
checksum parity index sum [] = sum
checksum parity index sum (digit ∷ digits) =
    checksum parity (suc index) (sum + contribution (index % 2 == parity) digit) digits

-- From the digits on.
unfoldable pub are_valid_digits : List ℕ → Bool
unfolding checksum
are_valid_digits digits =
    leb 13 (length digits)
    && leb (length digits) 19
    && checksum (length digits % 2) 0 0 digits % 10 == 0

unfoldable pub is_valid_card_number : Text → Bool
unfolding digits_of are_valid_digits
is_valid_card_number value = are_valid_digits (digits_of value)

pub data Violation : Type 0 where
  prompt_injection sensitive_data output_too_long : Violation

abbrev pub max_output_length : ℕ
max_output_length = 10000

-- PROMPT_INJECTION_PATTERNS
unfoldable pub prompt_injection_patterns : List Regex
unfolding literal
prompt_injection_patterns =
    seq boundary (
      seq (literal (codes "ignore ")) (
        seq (optional (alt (literal (codes "all ")) (literal (codes "the ")))) (
          seq
            (alt (literal (codes "previous"))
              (alt (literal (codes "prior")) (literal (codes "system"))))
            (seq (literal (codes " instruction"))
              (seq (optional (literal (codes "s"))) boundary)))))
    ∷ seq boundary (
        seq (literal (codes "reveal ")) (
          seq (optional (literal (codes "the "))) (
            seq (alt (literal (codes "system")) (literal (codes "hidden")))
              (seq (literal (codes " prompt")) boundary))))
    ∷ seq boundary (
        seq (literal (codes "show ")) (
          seq (optional (literal (codes "me "))) (
            seq (optional (literal (codes "your "))) (
              seq (alt (literal (codes "system")) (literal (codes "hidden"))) (
                seq (literal (codes " instruction"))
                  (seq (optional (literal (codes "s"))) boundary))))))
    ∷ []

-- `[_ -]`
abbrev pub is_joint : ℕ → Bool
is_joint c = c == b'_' || c == b' ' || c == b'-'

-- SECRET_PATTERN, on a text of a length.
unfoldable pub secret_pattern : ℕ → Regex
unfolding literal is_blank
secret_pattern size = seq boundary (
    seq
      (alt (seq (literal (codes "api")) (seq (optional (chars is_joint)) (literal (codes "key")))) (
        alt
          (seq (literal (codes "access"))
            (seq (optional (chars is_joint)) (literal (codes "token"))))
          (literal (codes "password"))))
      (seq (any_number size (chars is_blank)) (
        seq (chars (λ c. c == b':' || c == b'=')) (
          seq (any_number size (chars is_blank))
            (some_number size (chars (λ c. not (is_blank c))))))))

-- `[ -]`
abbrev pub is_separator : ℕ → Bool
is_separator c = c == b' ' || c == b'-'

-- CARD_PATTERN
unfoldable pub card_pattern : Regex
unfolding is_digit
card_pattern = seq (not_before is_digit) (
    seq (repeat 12 18 (seq (chars is_digit) (optional (chars is_separator))))
      (seq (chars is_digit) (not_after is_digit)))

unfoldable pub contains_sensitive_data : Text → Bool
unfolding is_valid_card_number secret_pattern card_pattern search_regex find_all
contains_sensitive_data text =
    search_regex (secret_pattern (length text)) text
    || any is_valid_card_number (find_all card_pattern text)

-- `none` where the function returns.
unfoldable pub validate_input : Text → Option Violation
unfolding contains_sensitive_data prompt_injection_patterns search_regex
validate_input text =
    if any (λ pattern_. search_regex pattern_ text) prompt_injection_patterns
    then some prompt_injection
    else if contains_sensitive_data text
    then some sensitive_data
    else none

unfoldable pub validate_output : Text → Option Violation
unfolding contains_sensitive_data
validate_output text =
    if ltb max_output_length (length text)
    then some output_too_long
    else if contains_sensitive_data text
    then some sensitive_data
    else none
