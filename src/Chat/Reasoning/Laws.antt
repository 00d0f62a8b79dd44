-- ===== src/Chat/Reasoning/Laws.antt =====
-- What `strip_reasoning` leaves of a text.
use mathlib.Core.List.{reverse, reverse-append, reverse-reverse}
use langgraph_temporal_agent.Prelude.{
  true, false, ◌≡◌, [], ◌∷◌, ◌++◌, refl, arith, inl, inr, and_true, Bool-cases, sym, ap, ◌∙◌,
}
use langgraph_temporal_agent.Text.{Text, strip, lstrip, rstrip, is_blank}
use langgraph_temporal_agent.Chat.Reasoning.{
  starts_with_tag, open_tag, sub_blocks, sub_open, strip_reasoning, contains_open,
}

starts_with_tag-append :
    (tag s t : Text) → starts_with_tag tag s ≡ true → starts_with_tag tag (s ++ t) ≡ true
unfolding starts_with_tag
starts_with_tag-append [] s t h = refl
starts_with_tag-append (x ∷ tag) [] t h = cc
starts_with_tag-append (x ∷ tag) (c ∷ s) t h =
    let (first, rest) = and_true _ (starts_with_tag tag s) h in
    cc (first, starts_with_tag-append tag s t rest)

-- A part of a text without opening tags has none.
contains_open-prefix : (s t : Text) → contains_open s ≡ true → contains_open (s ++ t) ≡ true
unfolding contains_open
contains_open-prefix [] t h = cc
contains_open-prefix (c ∷ s) t h = elim (Bool-cases (starts_with_tag open_tag (c ∷ s))) [
  | inl here_ ↦ rw (starts_with_tag-append open_tag (c ∷ s) t here_) refl
  | inr later ↦ ground (arith, later, h, contains_open-prefix s t)
]

contains_open-suffix : (s t : Text) → contains_open t ≡ true → contains_open (s ++ t) ≡ true
unfolding contains_open
contains_open-suffix [] t h = h
contains_open-suffix (c ∷ s) t h = ground (arith, contains_open-suffix s t h)

-- What a `sub` leaves is a part of the text.
sub_open-prefix : (s : Text) → (t : Text) × (s ≡ sub_open s ++ t)
unfolding sub_open
sub_open-prefix [] = ([], refl)
sub_open-prefix (c ∷ s) = elim (Bool-cases (starts_with_tag open_tag (c ∷ s))) [
  | inl here_ ↦ (c ∷ s, rw here_ refl)
  | inr later ↦ let (t, e) = sub_open-prefix s in (t, rw later (ap (λ l. c ∷ l) e))
]

contains_open-sub_open : (s : Text) → contains_open (sub_open s) ≡ false
unfolding contains_open sub_open
contains_open-sub_open [] = refl
contains_open-sub_open (c ∷ s) = elim (Bool-cases (starts_with_tag open_tag (c ∷ s))) [
  | inl here_ ↦ rw here_ refl
  | inr later ↦ rw later (ground (arith, none_here later, contains_open-sub_open s))
]
  where
    none_here :
        starts_with_tag open_tag (c ∷ s) ≡ false → starts_with_tag open_tag (c ∷ sub_open s) ≡ false
    none_here later = elim (Bool-cases (starts_with_tag open_tag (c ∷ sub_open s))) [
      | inr absent ↦ absent
      | inl found_ ↦
          let (t, e) = sub_open-prefix s in
          cc (later, e, starts_with_tag-append open_tag (c ∷ sub_open s) t found_)
    ]

lstrip-suffix : (s : Text) → (b : Text) × (s ≡ b ++ lstrip s)
unfolding lstrip
lstrip-suffix [] = ([], refl)
lstrip-suffix (c ∷ s) = elim (Bool-cases (is_blank c)) [
  | inl blank ↦ let (b, e) = lstrip-suffix s in (c ∷ b, rw blank (ap (λ l. c ∷ l) e))
  | inr solid ↦ ([], rw solid refl)
]

rstrip-prefix : (s : Text) → (b : Text) × (s ≡ rstrip s ++ b)
unfolding rstrip
rstrip-prefix s =
    let (b, e) = lstrip-suffix (reverse s) in
    (reverse b, sym (reverse-reverse s) ∙ ap reverse e ∙ reverse-append b (lstrip (reverse s)))

contains_open-strip : (s : Text) → contains_open s ≡ false → contains_open (strip s) ≡ false
unfolding strip
contains_open-strip s h = elim (Bool-cases (contains_open (rstrip (lstrip s)))) [
  | inr absent ↦ absent
  | inl present ↦
      let (b, e) = lstrip-suffix s in
      let (b', e') = rstrip-prefix (lstrip s) in
      let wider = contains_open-prefix (rstrip (lstrip s)) b' present in
      let widest = contains_open-suffix b (lstrip s) (rw e' wider) in cc (h, e, widest)
]

-- Whatever the model has written, what is left of it has no opening tag, in any case of its letters.
pub contains_open-strip_reasoning : (text : Text) → contains_open (strip_reasoning text) ≡ false
unfolding strip_reasoning
contains_open-strip_reasoning text =
    contains_open-strip (sub_open (sub_blocks 0 text)) (contains_open-sub_open (sub_blocks 0 text))
