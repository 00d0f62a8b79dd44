-- ===== src/Chat/Reasoning/Block.antt =====
-- A text with one block of reasoning.
use langgraph_temporal_agent.Prelude.{
  ℕ, false, ◌≡◌, ◌≢◌, [], ◌∷◌, ◌++◌, refl, arith, All, some, ◌==◌, ap, length, All-append, ◌+◌,
  none, ◌-◌, ◌∙◌, length-append, sym,
}
use mathlib.Core.List.{append_assoc}
use langgraph_temporal_agent.Text.{Text, strip, lower_char, codes}
use langgraph_temporal_agent.Chat.Reasoning.{
  fold_char, starts_with_tag, open_tag, close_tag, close_at, block_length, sub_blocks, sub_open,
  strip_reasoning,
}

-- No `<`, so no tag begins here.
abbrev pub IsPlain : Text → Type 0
IsPlain s = All (λ c. c ≢ b'<') s

fold_char-ne : (c : ℕ) → c ≢ b'<' → (fold_char c == b'<') ≡ false
unfolding lower_char
fold_char-ne c h = ground arith

open_tag_absent : (c : ℕ) (s : Text) → c ≢ b'<' → starts_with_tag open_tag (c ∷ s) ≡ false
unfolding starts_with_tag
open_tag_absent c s h = rw (fold_char-ne c h) refl

close_tag_absent : (c : ℕ) (s : Text) → c ≢ b'<' → starts_with_tag close_tag (c ∷ s) ≡ false
unfolding starts_with_tag
close_tag_absent c s h = rw (fold_char-ne c h) refl

sub_blocks-none :
    (c : ℕ) (s : Text) → block_length (c ∷ s) ≡ none → sub_blocks 0 (c ∷ s) ≡ c ∷ sub_blocks 0 s
unfolding sub_blocks
sub_blocks-none c s e = rw (e, sub_blocks) refl

sub_blocks-some :
    (c n : ℕ) (s : Text)
    → block_length (c ∷ s) ≡ some n
    → sub_blocks 0 (c ∷ s) ≡ sub_blocks (n - 1) s
unfolding sub_blocks
sub_blocks-some c n s e = rw (e, sub_blocks) refl

block_length-plain : (c : ℕ) (s : Text) → c ≢ b'<' → block_length (c ∷ s) ≡ none
unfolding block_length
block_length-plain c s ne = ground (arith, open_tag_absent c s ne)

sub_blocks-plain : (s t : Text) → IsPlain s → sub_blocks 0 (s ++ t) ≡ s ++ sub_blocks 0 t
sub_blocks-plain [] t h = refl
sub_blocks-plain (c ∷ s) t (ne, h) =
    sub_blocks-none c (s ++ t) (block_length-plain c (s ++ t) ne)
    ∙ ap (λ l. c ∷ l) (sub_blocks-plain s t h)

sub_open-plain : (s : Text) → IsPlain s → sub_open s ≡ s
unfolding sub_open
sub_open-plain [] h = refl
sub_open-plain (c ∷ s) (ne, h) = rw (open_tag_absent c s ne) (ap (λ l. c ∷ l) (sub_open-plain s h))

sub_blocks-skip : (s t : Text) → sub_blocks (length s) (s ++ t) ≡ sub_blocks 0 t
unfolding sub_blocks
sub_blocks-skip [] t = refl
sub_blocks-skip (c ∷ s) t = sub_blocks-skip s t

close_at-block : (r t : Text) → IsPlain r → close_at (r ++ (close_tag ++ t)) ≡ some (length r + 8)
unfolding close_at starts_with_tag lower_char
close_at-block [] t h = refl
close_at-block (c ∷ r) t (ne, h) =
    rw (close_tag_absent c (r ++ (close_tag ++ t)) ne, close_at-block r t h) (ground arith)

block_length-block :
    (r t : Text)
    → IsPlain r
    → block_length (open_tag ++ (r ++ (close_tag ++ t))) ≡ some (length r + 15)
unfolding block_length starts_with_tag lower_char
block_length-block r t h = rw (close_at-block r t h) (ground arith)

-- The characters of a block after its first.
abbrev rest_of_block : Text → Text
rest_of_block r = codes "think>" ++ (r ++ close_tag)

sub_blocks-block :
    (r t : Text) → IsPlain r → sub_blocks 0 (open_tag ++ (r ++ (close_tag ++ t))) ≡ sub_blocks 0 t
sub_blocks-block r t h =
    sub_blocks-some b'<' (length r + 15) (codes "think>" ++ (r ++ (close_tag ++ t)))
      (block_length-block r t h)
    ∙ ap (λ n. sub_blocks n (codes "think>" ++ (r ++ (close_tag ++ t)))) (sizes r)
    ∙ ap (sub_blocks (length (rest_of_block r))) (shape r t)
    ∙ sub_blocks-skip (rest_of_block r) t
  where
    sizes : (r : Text) → length r + 15 - 1 ≡ length (rest_of_block r)
    sizes r = omega (arith, length-append r close_tag)

    shape : (r t : Text) → codes "think>" ++ (r ++ (close_tag ++ t)) ≡ rest_of_block r ++ t
    shape r t = ap (λ l. codes "think>" ++ l) (sym (append_assoc r close_tag t))

sub_blocks-all : (s : Text) → IsPlain s → sub_blocks 0 s ≡ s
unfolding sub_blocks
sub_blocks-all [] h = refl
sub_blocks-all (c ∷ s) (ne, h) =
    sub_blocks-none c s (block_length-plain c s ne) ∙ ap (λ l. c ∷ l) (sub_blocks-all s h)

IsPlain-append : (s t : Text) → IsPlain s → IsPlain t → IsPlain (s ++ t)
IsPlain-append s t h k = All-append (λ c. c ≢ b'<') s t h k

-- A block of reasoning in a text that has no other `<` is removed with its tags, and nothing else is
-- but the blanks at the two ends.
pub strip_reasoning-block :
    (before reasoning after : Text)
    → IsPlain before
    → IsPlain reasoning
    → IsPlain after
    → strip_reasoning (before ++ (open_tag ++ (reasoning ++ (close_tag ++ after))))
      ≡ strip (before ++ after)
unfolding strip_reasoning
strip_reasoning-block before reasoning after hb hr ha =
    let cut : sub_blocks 0 (before ++ (open_tag ++ (reasoning ++ (close_tag ++ after))))
        ≡ before ++ after =
      sub_blocks-plain before (open_tag ++ (reasoning ++ (close_tag ++ after))) hb
      ∙ ap (λ l. before ++ l) (sub_blocks-block reasoning after hr ∙ sub_blocks-all after ha) in
    ap (λ l. strip (sub_open l)) cut
    ∙ ap strip (sub_open-plain (before ++ after) (IsPlain-append before after hb ha))
