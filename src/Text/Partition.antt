-- ===== src/Text/Partition.antt =====
-- Splitting at a separator undoes joining with it.
use langgraph_temporal_agent.Prelude.{
  ℕ, ◌≡◌, ◌≢◌, true, [], ◌∷◌, ◌++◌, arith, All, inr, inl, false, Bool, Bool-cases, ◌==◌, ==_iff,
}
use langgraph_temporal_agent.Text.{Text, partition}

pub partition-append :
    (sep : ℕ) (s t : Text) → All (λ c. c ≢ sep) s → partition sep (s ++ sep ∷ t) ≡ (s, true, t)
unfolding partition
partition-append sep [] t h = ground arith
partition-append sep (c ∷ s) t h = ground (arith, partition-append sep s t h.1)

-- The two ways to split a text at a separator: at its first one, or not at all.
pub data Parts (sep : ℕ) : Text → Text × Bool × Text → Type 0 where
  unsplit : (s : Text) → Parts sep s (s, false, [])
  split :
      (before after : Text)
      → All (λ c. c ≢ sep) before
      → Parts sep (before ++ sep ∷ after) (before, true, after)

Parts-cons :
    {sep : ℕ} (c : ℕ) {s : Text} {parts : Text × Bool × Text}
    → Parts sep s parts
    → c ≢ sep
    → Parts sep (c ∷ s) (c ∷ parts.0, parts.1, parts.2)
Parts-cons c (unsplit s) ne = unsplit (c ∷ s)
Parts-cons c (split before after all) ne = split (c ∷ before) after (ne, all)

pub partition-Parts : (sep : ℕ) (s : Text) → Parts sep s (partition sep s)
unfolding partition
partition-Parts sep [] = unsplit []
partition-Parts sep (c ∷ s) = elim (Bool-cases (c == sep)) [
  | inl same ↦ rw (same, (==_iff c sep).0 same) (split [] s tt)
  | inr other ↦ rw other (Parts-cons c (partition-Parts sep s) (λ e. ground (arith, other, e)))
]
