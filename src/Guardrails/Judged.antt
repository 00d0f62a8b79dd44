-- ===== src/Guardrails/Judged.antt =====
-- What the validation of an input decides, told by the matches of its patterns.
use langgraph_temporal_agent.Prelude.{
  ◌≡◌, inl, inr, arith, none, true, some, ◌∷◌, false, refl, [], Bool, Option, List, any, Bool-cases,
  Memᴰ, length, ◌⊎◌, ◌||◌, ap, sym, ◌∙◌,
}
use langgraph_temporal_agent.Text.{Text}
use langgraph_temporal_agent.Guardrails.{
  contains_sensitive_data, validate_input, secret_pattern, Violation, prompt_injection_patterns,
  prompt_injection, sensitive_data, is_valid_card_number, card_pattern,
}
use langgraph_temporal_agent.Text.Regex.{Regex, search_regex, find_all}
use langgraph_temporal_agent.Text.Regex.Occurs.{Occurs, search_regex-Occurs}

-- Some injection pattern matches a part of the text.
abbrev pub IsInjected : Text → Type 0
IsInjected text = (r : Regex) × Memᴰ r prompt_injection_patterns × Occurs r none text

-- An assignment to a key, a token or a password, or a match of the card pattern that the checksum
-- accepts.
abbrev pub IsSensitive : Text → Type 0
IsSensitive text =
    Occurs (secret_pattern (length text)) none text
    ⊎ ((card : Text) × Memᴰ card (find_all card_pattern text) × (is_valid_card_number card ≡ true))

pub data Judges (text : Text) : Option Violation → Type 0 where
  injected : IsInjected text → Judges text (some prompt_injection)
  revealed : ¬ IsInjected text → IsSensitive text → Judges text (some sensitive_data)
  allowed : ¬ IsInjected text → ¬ IsSensitive text → Judges text none

or_true : (a : Bool) {b : Bool} → b ≡ true → (a || b) ≡ true
or_true a h = ground (arith, h)

any-Memᴰ {ℓ} :
    {A : Type ℓ}
    → (p : A → Bool) (xs : List A) → any p xs ≡ true
    → (x : A) × Memᴰ x xs × (p x ≡ true)
any-Memᴰ p [] h = cc
any-Memᴰ p (x ∷ xs) h = elim (Bool-cases (p x)) [
  | inl now ↦ (x, Memᴰ.head refl, now)
  | inr not_now ↦
      let (y, found, good) = any-Memᴰ p xs (rw not_now at h) in (y, Memᴰ.tail found, good)
]

any-found {ℓ} :
    {A : Type ℓ} → (p : A → Bool) (xs : List A) (x : A) → Memᴰ x xs → p x ≡ true → any p xs ≡ true
any-found p [] x found h = elim found [ ]
any-found p (y ∷ xs) x (Memᴰ.head same) h = rw (ap p (sym same) ∙ h) refl
any-found p (y ∷ xs) x (Memᴰ.tail found) h = rw (any-found p xs x found h) (or_true (p y) refl)

any-IsInjected :
    (text : Text)
    → any (λ pattern_. search_regex pattern_ text) prompt_injection_patterns ≡ true
    → IsInjected text
any-IsInjected text h =
    let (r, listed, found) =
      any-Memᴰ (λ pattern_. search_regex pattern_ text) prompt_injection_patterns h in
    (r, listed, (search_regex-Occurs r text).0 found)

searched_if :
    (text : Text)
    → IsInjected text
    → any (λ pattern_. search_regex pattern_ text) prompt_injection_patterns ≡ true
searched_if text (r, listed, o) =
    any-found (λ pattern_. search_regex pattern_ text) prompt_injection_patterns r listed
      ((search_regex-Occurs r text).1 o)

contains_sensitive_data-IsSensitive :
    (text : Text) → contains_sensitive_data text ≡ true → IsSensitive text
unfolding contains_sensitive_data
contains_sensitive_data-IsSensitive text h =
    elim (Bool-cases (search_regex (secret_pattern (length text)) text)) [
      | inl secret ↦ inl ((search_regex-Occurs (secret_pattern (length text)) text).0 secret)
      | inr other ↦ inr (any-Memᴰ is_valid_card_number (find_all card_pattern text) (rw other at h))
    ]

contained_if : (text : Text) → IsSensitive text → contains_sensitive_data text ≡ true
unfolding contains_sensitive_data
contained_if text (inl o) = rw ((search_regex-Occurs (secret_pattern (length text)) text).1 o) refl
contained_if text (inr (card, found, valid)) =
    or_true (search_regex (secret_pattern (length text)) text)
      (any-found is_valid_card_number (find_all card_pattern text) card found valid)

-- The validation of an input refuses it as an injection just when one of the injection patterns
-- matches a part of it, else as sensitive just when an assignment to a key, a token or a password
-- matches or a match of the card pattern has a valid checksum, and returns for every other text.
pub validate_input-Judges : (text : Text) → Judges text (validate_input text)
unfolding validate_input
validate_input-Judges text =
    elim (Bool-cases (any (λ pattern_. search_regex pattern_ text) prompt_injection_patterns)) [
      | inl attack ↦ rw attack (injected (any-IsInjected text attack))
      | inr no_attack ↦ elim (Bool-cases (contains_sensitive_data text)) [
        | inl found ↦ rw no_attack (
            rw found (
              revealed (λ i. absurd_both (searched_if text i) no_attack)
                (contains_sensitive_data-IsSensitive text found)))
        | inr not_found ↦ rw no_attack (
            rw not_found (
              allowed (λ i. absurd_both (searched_if text i) no_attack)
                (λ s. absurd_both (contained_if text s) not_found)))
      ]
    ]
  where
    absurd_both : {b : Bool} → b ≡ true → b ≡ false → ⊥
    absurd_both h k = cc
