-- ===== src/Text/Equality.antt =====
-- `==` on texts decides equality.
use langgraph_temporal_agent.Prelude.{◌≡◌, refl, ◌↔◌, true, [], ◌∷◌, arith}
use langgraph_temporal_agent.Text.{Text, text_eq}

pub text_eq-path : (s t : Text) → text_eq s t ≡ true → s ≡ t
unfolding text_eq
text_eq-path [] [] h = refl
text_eq-path (c ∷ s) (d ∷ t) h = ground (arith, text_eq-path s t)
text_eq-path [] (d ∷ t) h = cc
text_eq-path (c ∷ s) [] h = cc

pub text_eq_refl : (s : Text) → text_eq s s ≡ true
unfolding text_eq
text_eq_refl [] = refl
text_eq_refl (c ∷ s) = ground (arith, text_eq_refl s)

pub text_eq_iff : (s t : Text) → (text_eq s t ≡ true) ↔ (s ≡ t)
text_eq_iff s t = (text_eq-path s t, λ e. rw (← e) (text_eq_refl s))
