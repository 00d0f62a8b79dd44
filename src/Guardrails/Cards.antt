-- ===== src/Guardrails/Cards.antt =====
-- Which card numbers in a text the guardrails find.
pub mod Match
use langgraph_temporal_agent.Prelude.{
  [], false, ◌∷◌, some, none, refl, true, ℕ, Option, ◌≡◌, All, ◌≤◌, length, ◌++◌, arith, suc, zero,
  Bool, ◌==◌, if◌then◌else◌, ◌-◌, any, ◌+◌, take, ap, ◌≢◌, ◌||◌, List, ltb,
}
use langgraph_temporal_agent.Text.Regex.{
  Regex, Goal, run_regex, repeated, seq, rest_of, holds_of, chars, next_char, not_after, optional,
  matches_from, find_all, search_regex, match_length,
}
use langgraph_temporal_agent.Text.{Text, is_digit}
use langgraph_temporal_agent.Guardrails.{
  is_separator, card_pattern, is_valid_card_number, validate_input, validate_output,
  contains_sensitive_data, digits_of, are_valid_digits, prompt_injection, output_too_long,
  sensitive_data, secret_pattern, prompt_injection_patterns, max_output_length,
}
use langgraph_temporal_agent.Guardrails.Cards.Match.{
  length-++, IsPast, card_pattern-digits, take-++, card_pattern-none,
}

match_length-front :
    (xs ys : Text) (found : Option Text)
    → found ≡ some ys
    → match_length found (xs ++ ys) ≡ length xs
unfolding match_length
match_length-front xs ys found h = rw h (omega (arith, length-++ xs ys))

unmatched : (found : Option Text) (s : Text) → found ≡ none → match_length found s ≡ 0
unfolding match_length
unmatched found s h = rw h refl

matches_from-cons :
    (size : ℕ) (prev : Option ℕ) (c : ℕ) (s : Text)
    → match_length (run_regex card_pattern rest_of prev (c ∷ s)) (c ∷ s) ≡ size
    → matches_from card_pattern 0 prev (c ∷ s) ≡ (
        if size == 0
        then matches_from card_pattern (size - 1) (some c) s
        else take size (c ∷ s) ∷ matches_from card_pattern (size - 1) (some c) s)
unfolding matches_from
matches_from-cons size prev c s found = rw found refl

suc_ne_zero : (n : ℕ) → (suc n == 0) ≡ false
suc_ne_zero n = ground arith

any-first :
    (n : ℕ) (x : Text) (xs later : List Text)
    → is_valid_card_number x ≡ true
    → any is_valid_card_number (if suc n == 0 then later else x ∷ xs) ≡ true
any-first n x xs later h = rw (suc_ne_zero n) (rw h refl)

-- Before the digits no match begins, so that the first match is the card number.
matches_from-card :
    (before : Text) (d : ℕ) (ds : Text) (after : Text) (prev : Option ℕ)
    → All (λ c. is_digit c ≡ false) before
    → holds_of is_digit prev ≡ false
    → is_digit d ≡ true
    → All (λ c. is_digit c ≡ true) ds
    → 12 ≤ length ds
    → length ds ≤ 18
    → IsPast after
    → is_valid_card_number (d ∷ ds) ≡ true
    → any is_valid_card_number (matches_from card_pattern 0 prev (before ++ (d ∷ (ds ++ after))))
      ≡ true
matches_from-card [] d ds after prev none_before free digit digits low high past valid =
    rw
      (matches_from-cons (suc (length ds)) prev d (ds ++ after) (
        match_length-front (d ∷ ds) after _
          (card_pattern-digits d ds after prev free digit digits low high past)))
      (any-first (length ds) _ _ _ (rw (take-++ (d ∷ ds) after) valid))
matches_from-card (c ∷ before) d ds after prev (other, others) free digit digits low high past
      valid =
    rw
      (matches_from-cons 0 prev c (before ++ (d ∷ (ds ++ after)))
        (unmatched _ _ (card_pattern-none prev c (before ++ (d ∷ (ds ++ after))) other)))
      (matches_from-card before d ds after (some c) others other digit digits low high past valid)

length-digits_of : (s : Text) → All (λ c. is_digit c ≡ true) s → length (digits_of s) ≡ length s
unfolding digits_of
length-digits_of [] h = refl
length-digits_of (c ∷ s) (digit, digits) = rw digit (ap suc (length-digits_of s digits))

are_valid_digits-bounds :
    (digits : List ℕ) → are_valid_digits digits ≡ true → (13 ≤ length digits) × (length digits ≤ 19)
unfolding are_valid_digits
are_valid_digits-bounds digits h = (ground (arith, h), ground (arith, h))

-- A valid card number stands in the text between no other digits: 13 to 19 digits that the checksum
-- accepts, with no digit before them, and no digit among the next two characters.
pub record HoldsCard (text : Text) : Type 0 where
  pub before : Text
  pub first : ℕ
  pub others : Text
  pub after : Text
  pub whole : text ≡ before ++ (first ∷ (others ++ after))
  pub none_before : All (λ c. is_digit c ≡ false) before
  pub digits : All (λ c. is_digit c ≡ true) (first ∷ others)
  pub valid : is_valid_card_number (first ∷ others) ≡ true
  pub past : IsPast after

contains_sensitive_data-card :
    (before : Text) (d : ℕ) (ds : Text) (after : Text)
    → All (λ c. is_digit c ≡ false) before
    → All (λ c. is_digit c ≡ true) (d ∷ ds)
    → is_valid_card_number (d ∷ ds) ≡ true
    → IsPast after
    → contains_sensitive_data (before ++ (d ∷ (ds ++ after))) ≡ true
unfolding contains_sensitive_data find_all is_valid_card_number
contains_sensitive_data-card before d ds after none_before (digit, digits) valid past =
    let bounds = are_valid_digits-bounds (digits_of (d ∷ ds)) valid in
    let same = length-digits_of (d ∷ ds) (digit, digits) in
    or_true
      (search_regex (secret_pattern (length (before ++ (d ∷ (ds ++ after)))))
        (before ++ (d ∷ (ds ++ after))))
      (matches_from-card before d ds after none none_before refl digit digits
        (omega (arith, bounds.0, same)) (omega (arith, bounds.1, same)) past valid)
  where
    or_true : (a : Bool) {b : Bool} → b ≡ true → (a || b) ≡ true
    or_true a h = ground (arith, h)

-- What contains sensitive data passes neither validation.
validate_input-sensitive :
    (text : Text) → contains_sensitive_data text ≡ true → validate_input text ≢ none
unfolding validate_input
validate_input-sensitive text h =
    rw h (refused_anyway (any (λ pattern_. search_regex pattern_ text) prompt_injection_patterns))
  where
    refused_anyway : (b : Bool) → (if b then some prompt_injection else some sensitive_data) ≢ none
    refused_anyway b = ground arith

validate_output-sensitive :
    (text : Text) → contains_sensitive_data text ≡ true → validate_output text ≢ none
unfolding validate_output
validate_output-sensitive text h = rw h (refused_anyway (ltb max_output_length (length text)))
  where
    refused_anyway : (b : Bool) → (if b then some output_too_long else some sensitive_data) ≢ none
    refused_anyway b = ground arith

pub contains_sensitive_data-HoldsCard :
    (text : Text) → HoldsCard text → contains_sensitive_data text ≡ true
contains_sensitive_data-HoldsCard text h = rw h.whole (
    contains_sensitive_data-card h.before h.first h.others h.after h.none_before h.digits h.valid
      h.past)

-- Neither validation lets a text pass that holds a valid card number.
pub validate-HoldsCard :
    (text : Text) → HoldsCard text → (validate_input text ≢ none) × (validate_output text ≢ none)
validate-HoldsCard text h =
    let found = contains_sensitive_data-HoldsCard text h in
    (validate_input-sensitive text found, validate_output-sensitive text found)
