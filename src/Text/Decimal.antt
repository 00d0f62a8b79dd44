-- ===== src/Text/Decimal.antt =====
-- Printing a number and reading it back.
use langgraph_temporal_agent.Prelude.{
  ℕ, zero, suc, ◌+◌, ◌/◌, ◌%◌, ◌<◌, ◌≡◌, refl, sym, ◌∙◌, ap, true, [], ◌∷◌, arith, All,
}
use langgraph_temporal_agent.Text.{
  Text, decimal_from, decimal, pad_zeros, format_03d, int_from, is_digit,
}

-- Reading back a printed number leaves the number as the accumulator for what follows.
int_from-decimal_from :
    (f n : ℕ) (acc : Text) → n < f → int_from 0 (decimal_from f n acc) ≡ int_from n acc
unfolding decimal_from int_from
int_from-decimal_from zero n acc h = elim h [ ]
int_from-decimal_from (suc f) n acc h =
    ground (arith, int_from-decimal_from f (n / 10) ((b'0' + n % 10) ∷ acc))

pub int_from-decimal : (n : ℕ) → int_from 0 (decimal n) ≡ n
unfolding decimal int_from
int_from-decimal n = int_from-decimal_from (suc n) n [] (omega arith)

pub decimal_inj : (m n : ℕ) → decimal m ≡ decimal n → m ≡ n
decimal_inj m n e = sym (int_from-decimal m) ∙ ap (int_from 0) e ∙ int_from-decimal n

int_from-pad_zeros : (k : ℕ) (s : Text) → int_from 0 (pad_zeros k s) ≡ int_from 0 s
unfolding pad_zeros int_from
int_from-pad_zeros zero s = refl
int_from-pad_zeros (suc k) s = int_from-pad_zeros k s

pub int_from-format_03d : (n : ℕ) → int_from 0 (format_03d n) ≡ n
unfolding format_03d
int_from-format_03d n = int_from-pad_zeros _ (decimal n) ∙ int_from-decimal n

pub AllDigits : Text → Type 0
AllDigits = All (λ c. is_digit c ≡ true)
