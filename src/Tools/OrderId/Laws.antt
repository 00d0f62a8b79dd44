-- ===== src/Tools/OrderId/Laws.antt =====
-- An order id that the program prints is one that its tools read back.
use langgraph_temporal_agent.Prelude.{
  zero, refl, suc, arith, ◌∷◌, false, some, [], true, ℕ, All, ◌≡◌, ◌≢◌, ap, and_true, ◌/◌, ◌-◌, ◌∙◌,
  ◌+◌, length, ◌%◌, ◌++◌,
}
use langgraph_temporal_agent.Text.{
  upper, lstrip, strip, is_digit, Text, decimal_from, pad_zeros, format_03d, is_blank, rstrip,
  decimal, upper_char, int_from, codes,
}
use langgraph_temporal_agent.Tools.OrderId.{normalized, match_order_id, all_digits, digits_number}
use langgraph_temporal_agent.Database.Orders.{format_order_id}
use mathlib.Core.List.{reverse_aux, reverse, reverse-reverse}
use langgraph_temporal_agent.Text.Decimal.{int_from-format_03d}

-- A character of a printed order id: not a blank, and its own upper case.
abbrev IsPlain : ℕ → Type 0
IsPlain c = (is_blank c ≡ false) × (upper_char c ≡ c)

upper_plain : (s : Text) → All IsPlain s → upper s ≡ s
unfolding upper
upper_plain [] h = refl
upper_plain (c ∷ s) h = cc (h.0.1, upper_plain s h.1)

lstrip_plain : (s : Text) → All IsPlain s → lstrip s ≡ s
unfolding lstrip
lstrip_plain [] h = refl
lstrip_plain (c ∷ s) h = rw h.0.0 refl

All-reverse_aux : (P : ℕ → Type 0) (s t : Text) → All P s → All P t → All P (reverse_aux s t)
All-reverse_aux P [] t h k = k
All-reverse_aux P (c ∷ s) t h k = All-reverse_aux P s (c ∷ t) h.1 (h.0, k)

All-reverse : (P : ℕ → Type 0) (s : Text) → All P s → All P (reverse s)
All-reverse P s h = All-reverse_aux P s [] h tt

strip_plain : (s : Text) → All IsPlain s → strip s ≡ s
unfolding strip rstrip
strip_plain s h =
    ap rstrip (lstrip_plain s h)
    ∙ ap reverse (lstrip_plain (reverse s) (All-reverse IsPlain s h))
    ∙ reverse-reverse s

normalized_plain : (s : Text) → All IsPlain s → normalized s ≡ s
unfolding normalized
normalized_plain s h = ap upper (strip_plain s h) ∙ upper_plain s h

IsPlain-digit : (c : ℕ) → is_digit c ≡ true → IsPlain c
unfolding is_digit is_blank upper_char
IsPlain-digit c h = ground arith

all_digits-All : (s : Text) → all_digits s ≡ true → All IsPlain s
all_digits-All [] h = tt
all_digits-All (c ∷ s) h =
    let (first, rest) = and_true (is_digit c) (all_digits s) h in
    (IsPlain-digit c first, all_digits-All s rest)

all_digits-decimal_from :
    (f n : ℕ) (acc : Text) → all_digits acc ≡ true → all_digits (decimal_from f n acc) ≡ true
unfolding decimal_from is_digit
all_digits-decimal_from zero n acc h = h
all_digits-decimal_from (suc f) n acc h =
    ground (arith, all_digits-decimal_from f (n / 10) ((b'0' + n % 10) ∷ acc))

all_digits-pad_zeros : (k : ℕ) (s : Text) → all_digits s ≡ true → all_digits (pad_zeros k s) ≡ true
unfolding pad_zeros is_digit
all_digits-pad_zeros zero s h = h
all_digits-pad_zeros (suc k) s h = all_digits-pad_zeros k s h

all_digits-format_03d : (n : ℕ) → all_digits (format_03d n) ≡ true
unfolding format_03d decimal
all_digits-format_03d n =
    all_digits-pad_zeros (3 - length (decimal n)) (decimal n)
      (all_digits-decimal_from (suc n) n [] refl)

digits_number_lem :
    (s : Text) → s ≢ [] → all_digits s ≡ true → digits_number s ≡ some (int_from 0 s)
unfolding digits_number
digits_number_lem [] ne h = absurd (ne refl)
digits_number_lem (c ∷ s) ne h = rw h

decimal_from-ne-nil : (f n c : ℕ) (acc : Text) → decimal_from f n (c ∷ acc) ≢ []
unfolding decimal_from
decimal_from-ne-nil zero n c acc e = cc
decimal_from-ne-nil (suc f) n c acc e =
    ground (arith, decimal_from-ne-nil f (n / 10) (b'0' + n % 10) (c ∷ acc))

decimal-ne-nil : (n : ℕ) → decimal n ≢ []
unfolding decimal decimal_from
decimal-ne-nil n e = ground (arith, decimal_from-ne-nil n (n / 10) (b'0' + n % 10) [])

pad_zeros-ne-nil : (k : ℕ) (s : Text) → s ≢ [] → pad_zeros k s ≢ []
unfolding pad_zeros
pad_zeros-ne-nil zero s h = h
pad_zeros-ne-nil (suc k) s h = λ e. cc

IsPlain-order_id : (n : ℕ) → All IsPlain (codes "ORD-" ++ format_03d n)
unfolding is_blank upper_char
IsPlain-order_id n = (
  (refl, refl),
  (
    (refl, refl),
    ((refl, refl), ((refl, refl), all_digits-All (format_03d n) (all_digits-format_03d n))),
  ),
)

digits_number-format_03d : (n : ℕ) → digits_number (format_03d n) ≡ some n
digits_number-format_03d n =
    digits_number_lem (format_03d n)
      (unfold format_03d in
        pad_zeros-ne-nil (3 - length (decimal n)) (decimal n) (decimal-ne-nil n))
      (all_digits-format_03d n)
    ∙ ap some (int_from-format_03d n)

-- The id that the program prints for an order, `ORD-` and at least three digits, is read back as the
-- order's number by every tool.
pub match_order_id-format_order_id :
    (n : ℕ) → match_order_id (normalized (format_order_id n)) ≡ some n
unfolding match_order_id format_order_id
match_order_id-format_order_id n =
    ap match_order_id (normalized_plain (codes "ORD-" ++ format_03d n) (IsPlain-order_id n))
    ∙ digits_number-format_03d n
