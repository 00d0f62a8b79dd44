-- ===== src/Tools/OrderId.antt =====
-- `order_id.strip().upper()`, `re.fullmatch(r"ORD-(\d+)", …)` and `int(match.group(1))`.
-- Python refuses to convert more than 4300 digits; that limit is left out.
pub mod Laws
use langgraph_temporal_agent.Prelude.{
  ◌∷◌, none, some, [], true, Bool, Option, ◌&&◌, ℕ, if◌then◌else◌,
}
use langgraph_temporal_agent.Text.{strip, Text, is_digit, text_eq, upper, int_from, codes}

unfoldable pub normalized : Text → Text
unfolding strip upper
normalized order_id = upper (strip order_id)

abbrev pub all_digits : Text → Bool
all_digits [] = true
all_digits (c ∷ s) = is_digit c && all_digits s

-- The digits of a match, read as a number.
digits_number : Text → Option ℕ
unfolding is_digit int_from
digits_number [] = none
digits_number (c ∷ s) = if all_digits (c ∷ s) then some (int_from 0 (c ∷ s)) else none

unfoldable pub match_order_id : Text → Option ℕ
unfolding digits_number text_eq
match_order_id (a ∷ b ∷ c ∷ d ∷ digits) =
    if text_eq (a ∷ b ∷ c ∷ d ∷ []) (codes "ORD-") then digits_number digits else none
match_order_id _ = none
