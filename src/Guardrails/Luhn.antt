-- ===== src/Guardrails/Luhn.antt =====
-- What the checksum of a card number detects.
use langgraph_temporal_agent.Prelude.{
  ◌∷◌, [], inr, true, arith, false, inl, suc, refl, ℕ, Bool, ◌++◌, List, ◌≡◌, ◌<◌, length, ◌+◌, ◌%◌,
  ap, ◌-◌, ◌≢◌, ◌==◌, Bool-cases, ◌∙◌,
}
use langgraph_temporal_agent.Text.{Text, is_digit}
use langgraph_temporal_agent.Guardrails.{
  digits_of, contribution, checksum, are_valid_digits, is_valid_card_number,
}

checksum-sum : (p i a : ℕ) (ds : List ℕ) → checksum p i a ds ≡ a + checksum p i 0 ds
unfolding checksum
checksum-sum p i a [] = omega arith
checksum-sum p i a (d ∷ ds) =
    let x = contribution (i % 2 == p) d in
    omega (arith, checksum-sum p (suc i) (a + x) ds, checksum-sum p (suc i) (0 + x) ds)

checksum-append :
    (p i a : ℕ) (ds es : List ℕ)
    → checksum p i a (ds ++ es) ≡ checksum p (i + length ds) (checksum p i a ds) es
unfolding checksum
checksum-append p i a [] es = ap (λ j. checksum p j a es) (omega arith)
checksum-append p i a (d ∷ ds) es =
    checksum-append p (suc i) (a + contribution (i % 2 == p) d) ds es
    ∙ ap (λ j. checksum p j (checksum p (suc i) (a + contribution (i % 2 == p) d) ds) es)
        (omega arith)

contribution-lt : (b : Bool) (d : ℕ) → d < 10 → contribution b d < 10
unfolding contribution
contribution-lt false d h = h
contribution-lt true d h = ground arith

contribution_inj :
    (b : Bool) (d e : ℕ) → d < 10 → e < 10 → contribution b d ≡ contribution b e → d ≡ e
unfolding contribution
contribution_inj false d e h k same = same
contribution_inj true d e h k same = ground arith

-- Two digits at one place of a number cannot both give a checksum that ends in 0.
checksum-digit :
    (p i a : ℕ) (d e : ℕ) (ds : List ℕ)
    → d < 10
    → e < 10
    → checksum p i a (d ∷ ds) % 10 ≡ 0
    → checksum p i a (e ∷ ds) % 10 ≡ 0
    → d ≡ e
unfolding checksum
checksum-digit p i a d e ds h k zero_d zero_e =
    let b = i % 2 == p in
    contribution_inj b d e h k (
      omega (
        arith,
        contribution-lt b d h,
        contribution-lt b e k,
        checksum-sum p (suc i) (a + contribution b d) ds,
        checksum-sum p (suc i) (a + contribution b e) ds,
        zero_d,
        zero_e,
      ))

digits_of-append : (s t : Text) → digits_of (s ++ t) ≡ digits_of s ++ digits_of t
unfolding digits_of
digits_of-append [] t = refl
digits_of-append (c ∷ s) t = ground (arith, digits_of-append s t)

length_same : (ds es : List ℕ) (d e : ℕ) → length (ds ++ d ∷ es) ≡ length (ds ++ e ∷ es)
length_same [] es d e = refl
length_same (x ∷ ds) es d e = ap suc (length_same ds es d e)

checksum_of_valid :
    (ds : List ℕ) → are_valid_digits ds ≡ true → checksum (length ds % 2) 0 0 ds % 10 ≡ 0
unfolding are_valid_digits
checksum_of_valid ds h = ground arith

digit_of_valid :
    (ds es : List ℕ) (d e : ℕ)
    → d < 10
    → e < 10
    → are_valid_digits (ds ++ d ∷ es) ≡ true
    → are_valid_digits (ds ++ e ∷ es) ≡ true
    → d ≡ e
digit_of_valid ds es d e h k valid_d valid_e =
    let p = length (ds ++ d ∷ es) % 2 in
    let at_e : checksum p 0 0 (ds ++ e ∷ es) % 10 ≡ 0 =
      rw (length_same ds es d e) (checksum_of_valid (ds ++ e ∷ es) valid_e) in
    let at_d = checksum_of_valid (ds ++ d ∷ es) valid_d in
    checksum-digit p (0 + length ds) (checksum p 0 0 ds) d e es h k
      (rw (checksum-append p 0 0 ds (d ∷ es)) at at_d)
      (rw (checksum-append p 0 0 ds (e ∷ es)) at at_e)

digits_of-digit :
    (c : ℕ) (t : Text) → is_digit c ≡ true → digits_of (c ∷ t) ≡ (c - b'0') ∷ digits_of t
unfolding digits_of
digits_of-digit c t h = rw h

-- A card number in which one digit is mistyped for another is not taken for a valid one: if a text
-- with the digit `c` at a place is a valid card number, the text with another digit there is not.
pub is_valid_card_number-mistyped :
    (before after : Text) (c c' : ℕ)
    → is_digit c ≡ true
    → is_digit c' ≡ true
    → c ≢ c'
    → is_valid_card_number (before ++ c ∷ after) ≡ true
    → is_valid_card_number (before ++ c' ∷ after) ≡ false
unfolding is_valid_card_number
is_valid_card_number-mistyped before after c c' h k ne valid =
    elim (Bool-cases (are_valid_digits (digits_of (before ++ c' ∷ after)))) [
      | inr invalid_number ↦ invalid_number
      | inl also ↦
          let digits : (x : ℕ)
              → is_digit x ≡ true
              → digits_of (before ++ x ∷ after) ≡ digits_of before ++ (x - b'0') ∷ digits_of after =
            λ x g.
              digits_of-append before (x ∷ after)
              ∙ ap (λ l. digits_of before ++ l) (digits_of-digit x after g) in
          let same =
            digit_of_valid (digits_of before) (digits_of after) (c - b'0') (c' - b'0')
              (digit-lt c h) (digit-lt c' k) (rw (digits c h) at valid)
              (rw (digits c' k) at also) in
          absurd (ne (same_digit c c' h k same))
    ]
  where
    digit-lt : (x : ℕ) → is_digit x ≡ true → x - b'0' < 10
    digit-lt x g = unfold is_digit in ground arith

    same_digit : (x y : ℕ) → is_digit x ≡ true → is_digit y ≡ true → x - b'0' ≡ y - b'0' → x ≡ y
    same_digit x y g g' e = unfold is_digit in ground arith
