-- ===== src/Guardrails/Cards/Match.antt =====
-- Where CARD_PATTERN matches a run of digits, and where it matches nothing.
use langgraph_temporal_agent.Prelude.{
  ◌≡◌, false, suc, [], zero, arith, some, true, ◌∷◌, refl, none, Bool, length, take, Option, ℕ,
  ◌++◌, if◌then◌else◌, All, ◌+◌, ap, ◌==◌, ◌≤◌, ◌-◌,
}
use langgraph_temporal_agent.Text.Regex.{
  Regex, Goal, run_regex, repeated, seq, rest_of, holds_of, chars, next_char, optional, not_after,
}
use langgraph_temporal_agent.Text.{Text, is_digit}
use langgraph_temporal_agent.Guardrails.{card_pattern, is_separator}

-- The goal of the repetition: the last digit, with no digit after it.
abbrev last_digit : Regex
last_digit = seq (chars is_digit) (not_after is_digit)

abbrev joined_digit : Regex
joined_digit = seq (chars is_digit) (optional (chars is_separator))

-- No digit at the next two places, so that no digit follows, a separator skipped or not.
abbrev pub IsPast : Text → Type 0
IsPast [] = Unit
IsPast (c ∷ []) = is_digit c ≡ false
IsPast (c ∷ d ∷ s) = (is_digit c ≡ false) × (is_digit d ≡ false)

abbrev end_goal : Goal
end_goal = run_regex last_digit rest_of

pub length-++ : (xs ys : Text) → length (xs ++ ys) ≡ length xs + length ys
length-++ [] ys = omega arith
length-++ (x ∷ xs) ys = omega (arith, length-++ xs ys)

pub take-++ : (xs ys : Text) → take (length xs) (xs ++ ys) ≡ xs
take-++ [] ys = refl
take-++ (x ∷ xs) ys = ap (λ s. x ∷ s) (take-++ xs ys)

pub IsPast-next : (s : Text) → IsPast s → holds_of is_digit (next_char s) ≡ false
IsPast-next [] h = refl
IsPast-next (c ∷ []) h = h
IsPast-next (c ∷ d ∷ s) h = h.0

-- Past the digits there is no last digit, and the repetition finds no other one.
end_goal-past :
    (prev : Option ℕ) (s : Text) → holds_of is_digit (next_char s) ≡ false → end_goal prev s ≡ none
unfolding run_regex
end_goal-past prev [] h = refl
end_goal-past prev (c ∷ s) h = rw h refl

if_same : (b : Bool) (x : Option Text) → (if b then x else x) ≡ x
if_same true x = refl
if_same false x = refl

not_separator : (d : ℕ) → is_digit d ≡ true → is_separator d ≡ false
unfolding is_digit
not_separator d h = ground (arith, h)

joined_digit-past :
    (goal : Goal) (prev : Option ℕ) (s : Text)
    → holds_of is_digit (next_char s) ≡ false
    → run_regex joined_digit goal prev s ≡ none
unfolding run_regex
joined_digit-past goal prev [] h = refl
joined_digit-past goal prev (c ∷ s) h = rw h refl

repeated-past :
    (least most : ℕ) (prev : Option ℕ) (s : Text)
    → holds_of is_digit (next_char s) ≡ false
    → repeated (run_regex joined_digit) least most end_goal prev s ≡ none
unfolding repeated
repeated-past least zero prev s h = rw (end_goal-past prev s h) (if_same (least == 0) none)
repeated-past least (suc most) prev s h =
    rw (joined_digit-past (repeated (run_regex joined_digit) (least - 1) most end_goal) prev s h)
      (rw (end_goal-past prev s h) (if_same (least == 0) none))

-- A separator that is passed over when no digit follows it.
separated-past :
    (least most : ℕ) (prev : Option ℕ) (after : Text)
    → IsPast after
    → run_regex
        (optional (chars is_separator))
        (repeated (run_regex joined_digit) least most end_goal)
        prev
        after
      ≡ none
unfolding run_regex
separated-past least most prev [] past = repeated-past least most prev [] refl
separated-past least most prev (c ∷ []) past =
    rw (repeated-past least most (some c) [] refl)
      (rw (repeated-past least most prev (c ∷ []) past) (rw (if_same (is_separator c) none) refl))
separated-past least most prev (c ∷ d ∷ s) (not_now, not_next) =
    rw (repeated-past least most (some c) (d ∷ s) not_next) (
      rw (repeated-past least most prev (c ∷ d ∷ s) not_now)
        (rw (if_same (is_separator c) none) refl))

-- Before a digit no separator is passed over.
separated-digit :
    (goal : Goal) (prev : Option ℕ) (d : ℕ) (s : Text)
    → is_digit d ≡ true
    → run_regex (optional (chars is_separator)) goal prev (d ∷ s) ≡ goal prev (d ∷ s)
unfolding run_regex
separated-digit goal prev d s digit = rw (not_separator d digit) refl

end_goal-last :
    (prev : Option ℕ) (d : ℕ) (after : Text)
    → is_digit d ≡ true
    → IsPast after
    → end_goal prev (d ∷ after) ≡ some after
unfolding run_regex
end_goal-last prev d after digit past = rw digit (rw (IsPast-next after past) refl)

-- All digits but the last are taken by the repetition, the last one after it.
repeated-digits :
    (d : ℕ) (ds : Text) (after : Text) (least most : ℕ) (prev : Option ℕ)
    → is_digit d ≡ true
    → All (λ c. is_digit c ≡ true) ds
    → least ≤ length ds
    → length ds ≤ most
    → IsPast after
    → repeated (run_regex joined_digit) least most end_goal prev (d ∷ (ds ++ after)) ≡ some after
unfolding repeated run_regex
repeated-digits d [] after zero zero prev digit digits low high past =
    end_goal-last prev d after digit past
repeated-digits d [] after (suc n) most prev digit digits low high past = ground (arith, low)
repeated-digits d [] after zero (suc most) prev digit digits low high past =
    rw digit (rw (separated-past 0 most (some d) after past) (rw (IsPast-next after past) refl))
repeated-digits d (e ∷ ds) after least zero prev digit digits low high past = ground (arith, high)
repeated-digits d (e ∷ ds) after least (suc most) prev digit (next, digits) low high past =
    rw digit (
      rw
        (separated-digit (repeated (run_regex joined_digit) (least - 1) most end_goal) (some d) e
          (ds ++ after) next)
        (rw
          (repeated-digits e ds after (least - 1) most (some d) next digits (omega arith)
            (omega arith) past)
          refl))

-- A run of 13 to 19 digits is matched to its end.
pub card_pattern-digits :
    (d : ℕ) (ds : Text) (after : Text) (prev : Option ℕ)
    → holds_of is_digit prev ≡ false
    → is_digit d ≡ true
    → All (λ c. is_digit c ≡ true) ds
    → 12 ≤ length ds
    → length ds ≤ 18
    → IsPast after
    → run_regex card_pattern rest_of prev (d ∷ (ds ++ after)) ≡ some after
unfolding run_regex card_pattern
card_pattern-digits d ds after prev free digit digits low high past =
    rw free (repeated-digits d ds after 12 18 prev digit digits low high past)

pub card_pattern-none :
    (prev : Option ℕ) (c : ℕ) (s : Text)
    → is_digit c ≡ false
    → run_regex card_pattern rest_of prev (c ∷ s) ≡ none
unfolding run_regex card_pattern repeated
card_pattern-none prev c s h = rw h (if_same (holds_of is_digit prev) none)
