-- ===== src/Memory/Sweep.antt =====
-- What a sweep leaves in the sorted set.
use langgraph_temporal_agent.Prelude.{
  ◌≡◌, [], ◌∷◌, true, refl, arith, ℕ, Option, List, Bool, any, All, All-map_of, ap, ◌||◌, ◌<◌, ltb,
}
use langgraph_temporal_agent.Text.{Text, text_eq, partition}
use langgraph_temporal_agent.Memory.{Activity, zrem, zrangebyscore, close_entry, sweep, sweep_idle}
use langgraph_temporal_agent.Text.Equality.{text_eq_iff}

-- A member that is still to be closed, or is not idle.
abbrev is_covered : ℕ → List Text → Text × ℕ → Bool
is_covered cutoff keys e = any (λ k. text_eq e.0 k) keys || ltb cutoff e.1

IsCovered : ℕ → List Text → Activity → Type 0
IsCovered cutoff keys z = All (λ e. is_covered cutoff keys e ≡ true) z

IsCovered-zrem :
    (cutoff : ℕ) (key : Text) (keys : List Text) (z : Activity)
    → IsCovered cutoff (key ∷ keys) z
    → IsCovered cutoff keys (zrem key z)
unfolding IsCovered
IsCovered-zrem cutoff key keys [] h = tt
IsCovered-zrem cutoff key keys (e ∷ z) h = ground (arith, IsCovered-zrem cutoff key keys z h.1)

IsCovered-zrangebyscore : (cutoff : ℕ) (z : Activity) → IsCovered cutoff (zrangebyscore cutoff z) z
unfolding IsCovered zrangebyscore
IsCovered-zrangebyscore cutoff [] = tt
IsCovered-zrangebyscore cutoff (e ∷ z) = (
  ground (arith, text_eq_iff e.0 e.0),
  All-map_of z (λ x h. ground (arith, h)) (IsCovered-zrangebyscore cutoff z),
)

module _ {W : Type 0}
    (summarise_and_store : Text → Text → Activity → W → Option Bool × Activity × W)
    (alone : (customer_id thread_id : Text) (z : Activity) (w : W)
      → (summarise_and_store customer_id thread_id z w).1 ≡ z)
    (cutoff : ℕ) where
  close_entry-zset :
      (entry : Text) (parts : Text × Bool × Text) (closed : ℕ) (z : Activity) (w : W)
      → (close_entry summarise_and_store entry parts closed z w).1 ≡ zrem entry z
  unfolding close_entry
  close_entry-zset entry (customer_id, _, []) closed z w = refl
  close_entry-zset entry (customer_id, _, c ∷ thread_id) closed z w =
      ap (zrem entry) (alone customer_id (c ∷ thread_id) z w)

  sweep-IsCovered :
      (keys : List Text) (closed : ℕ) (z : Activity) (w : W)
      → IsCovered cutoff keys z
      → IsCovered cutoff [] (sweep summarise_and_store keys closed z w).1
  unfolding sweep
  sweep-IsCovered [] closed z w h = h
  sweep-IsCovered (entry ∷ keys) closed z w h =
      let after = close_entry summarise_and_store entry (partition b':' entry) closed z w in
      sweep-IsCovered keys after.0 after.1 after.2 (
        rw (close_entry-zset entry (partition b':' entry) closed z w)
          (IsCovered-zrem cutoff entry keys z h))

-- Where no request touches a conversation meanwhile, no idle conversation is left in the set after a
-- sweep, whether its summary was stored, was empty or raised.
pub sweep_idle-closes :
    {W : Type 0} (summarise_and_store : Text → Text → Activity → W → Option Bool × Activity × W)
    (cutoff : ℕ) (z : Activity) (w : W)
    → ((customer_id thread_id : Text) (z : Activity) (w : W)
        → (summarise_and_store customer_id thread_id z w).1 ≡ z)
    → All (λ e. cutoff < e.1) (sweep_idle summarise_and_store cutoff z w).1
unfolding sweep_idle IsCovered
sweep_idle-closes summarise_and_store cutoff z w alone =
    All-map_of (sweep summarise_and_store (zrangebyscore cutoff z) 0 z w).1 (λ e h. ground arith)
      (sweep-IsCovered summarise_and_store alone cutoff (zrangebyscore cutoff z) 0 z w
        (IsCovered-zrangebyscore cutoff z))
