-- ===== src/Text/Regex/Occurs.antt =====
-- Which texts a regular expression matches, and that the search by backtracking finds just these.
use langgraph_temporal_agent.Prelude.{
  some, zero, none, refl, ◌∷◌, true, false, inr, inl, suc, Option, Bool, ℕ, ◌≡◌, ◌-◌, if◌then◌else◌,
  ◌⊎◌, [], arith, ◌==◌, ==_iff, ◌||◌, Bool-cases, ◌↔◌,
}
use langgraph_temporal_agent.Text.Regex.{
  Regex, run_regex, repeated, Goal, chars, or_try, repeat, empty, seq, alt, at_boundary, boundary,
  holds_of, not_before, not_after, next_char, rest_of, search_from, search_regex,
}
use langgraph_temporal_agent.Text.{Text}
use langgraph_temporal_agent.Database.Sql.{is_some}

pub data Derives : Regex → Option ℕ → Text → Option ℕ → Text → Type 0 where
  char :
      (p : ℕ → Bool) (prev : Option ℕ) (c : ℕ) (s : Text)
      → p c ≡ true
      → Derives (chars p) prev (c ∷ s) (some c) s
  nil : (prev : Option ℕ) (s : Text) → Derives empty prev s prev s
  both :
      (r q : Regex) (a : Option ℕ) (s : Text) (b : Option ℕ) (t : Text) (c : Option ℕ) (u : Text)
      → Derives r a s b t
      → Derives q b t c u
      → Derives (seq r q) a s c u
  left :
      (r q : Regex) (a : Option ℕ) (s : Text) (b : Option ℕ) (t : Text)
      → Derives r a s b t
      → Derives (alt r q) a s b t
  right :
      (r q : Regex) (a : Option ℕ) (s : Text) (b : Option ℕ) (t : Text)
      → Derives q a s b t
      → Derives (alt r q) a s b t
  enough :
      (most : ℕ) (r : Regex) (prev : Option ℕ) (s : Text) → Derives (repeat 0 most r) prev s prev s
  once_more :
      (least most : ℕ) (r : Regex) (a : Option ℕ) (s : Text) (b : Option ℕ) (t : Text)
      (c : Option ℕ) (u : Text)
      → Derives r a s b t
      → Derives (repeat (least - 1) most r) b t c u
      → Derives (repeat least (suc most) r) a s c u
  edge : (prev : Option ℕ) (s : Text) → at_boundary prev s ≡ true → Derives boundary prev s prev s
  unpreceded :
      (p : ℕ → Bool) (prev : Option ℕ) (s : Text)
      → holds_of p prev ≡ false
      → Derives (not_before p) prev s prev s
  unfollowed :
      (p : ℕ → Bool) (prev : Option ℕ) (s : Text)
      → holds_of p (next_char s) ≡ false
      → Derives (not_after p) prev s prev s

or_try_left : (x y : Option Text) → is_some x ≡ true → is_some (or_try x y) ≡ true
or_try_left none y h = cc
or_try_left (some _) y h = refl

or_try_right : (x y : Option Text) → is_some y ≡ true → is_some (or_try x y) ≡ true
or_try_right none y h = h
or_try_right (some _) y h = refl

or_try_cases :
    (x y : Option Text) → is_some (or_try x y) ≡ true → (is_some x ≡ true) ⊎ (is_some y ≡ true)
or_try_cases none y h = inr h
or_try_cases (some _) y h = inl refl

-- A match from which the goal succeeds is found, or another one.
pub run_regex-found :
    (r : Regex) (goal : Goal) (a : Option ℕ) (s : Text) (b : Option ℕ) (t : Text)
    → Derives r a s b t
    → is_some (goal b t) ≡ true
    → is_some (run_regex r goal a s) ≡ true
unfolding run_regex repeated
run_regex-found r goal a s b t (char p _ c _ h) k = rw h k
run_regex-found r goal a s b t (nil _ _) k = k
run_regex-found r goal a s b t (both r1 q _ _ b1 t1 _ _ d e) k =
    run_regex-found r1 (run_regex q goal) a s b1 t1 d (run_regex-found q goal b1 t1 b t e k)
run_regex-found r goal a s b t (left r1 q _ _ _ _ d) k =
    or_try_left _ _ (run_regex-found r1 goal a s b t d k)
run_regex-found r goal a s b t (right r1 q _ _ _ _ d) k =
    or_try_right _ _ (run_regex-found q goal a s b t d k)
run_regex-found r goal a s b t (enough zero r1 _ _) k = k
run_regex-found r goal a s b t (enough (suc most) r1 _ _) k = or_try_right _ _ k
run_regex-found r goal a s b t (once_more least most r1 _ _ b1 t1 _ _ d e) k = or_try_left _ _ (
    run_regex-found r1 (repeated (run_regex r1) (least - 1) most goal) a s b1 t1 d
      (run_regex-found (repeat (least - 1) most r1) goal b1 t1 b t e k))
run_regex-found r goal a s b t (edge _ _ h) k = rw h k
run_regex-found r goal a s b t (unpreceded p _ _ h) k = rw h k
run_regex-found r goal a s b t (unfollowed p _ _ h) k = rw h k

-- What a search that succeeds has found.
abbrev Found : Regex → Goal → Option ℕ → Text → Type 0
Found r goal a s = (b : Option ℕ) × (t : Text) × Derives r a s b t × (is_some (goal b t) ≡ true)

if_some :
    (b : Bool) (x : Option Text)
    → is_some (if b then x else none) ≡ true
    → (b ≡ true) × (is_some x ≡ true)
if_some true x h = (refl, h)
if_some false x h = cc

if_none :
    (b : Bool) (x : Option Text)
    → is_some (if b then none else x) ≡ true
    → (b ≡ false) × (is_some x ≡ true)
if_none true x h = cc
if_none false x h = (refl, h)

-- A repetition of a regular expression whose own search is sound.
repeated_sound :
    (r : Regex)
    → ((goal : Goal) (a : Option ℕ) (s : Text)
        → is_some (run_regex r goal a s) ≡ true
        → Found r goal a s)
    → (most least : ℕ) (goal : Goal) (a : Option ℕ) (s : Text)
    → is_some (repeated (run_regex r) least most goal a s) ≡ true
    → Found (repeat least most r) goal a s
unfolding repeated
repeated_sound r sound zero least goal a s h =
    let (over, k) = if_some (least == 0) (goal a s) h in
    (a, s, stopped least zero ((==_iff least 0).0 over), k)
  where
    stopped : (least most : ℕ) → least ≡ 0 → Derives (repeat least most r) a s a s
    stopped zero most e = enough most r a s
    stopped (suc n) most e = cc
repeated_sound r sound (suc most) least goal a s h =
    elim (or_try_cases (run_regex r (repeated (run_regex r) (least - 1) most goal) a s)
      (if least == 0 then goal a s else none) h) [
        | inl again ↦
            let (b, t, d, later) = sound (repeated (run_regex r) (least - 1) most goal) a s again in
            let (c, u, e, k) = repeated_sound r sound most (least - 1) goal b t later in
            (c, u, once_more least most r a s b t c u d e, k)
        | inr over ↦
            let (none_left, k) = if_some (least == 0) (goal a s) over in
            (a, s, stopped least (suc most) ((==_iff least 0).0 none_left), k)
      ]
  where
    stopped : (least most : ℕ) → least ≡ 0 → Derives (repeat least most r) a s a s
    stopped zero most e = enough most r a s
    stopped (suc n) most e = cc

pub run_regex_sound :
    (r : Regex) (goal : Goal) (a : Option ℕ) (s : Text)
    → is_some (run_regex r goal a s) ≡ true
    → Found r goal a s
unfolding run_regex
run_regex_sound (chars p) goal a [] h = cc
run_regex_sound (chars p) goal a (c ∷ s) h =
    let (good, k) = if_some (p c) (goal (some c) s) h in (some c, s, char p a c s good, k)
run_regex_sound empty goal a s h = (a, s, nil a s, h)
run_regex_sound (seq r q) goal a s h =
    let (b, t, d, later) = run_regex_sound r (run_regex q goal) a s h in
    let (c, u, e, k) = run_regex_sound q goal b t later in (c, u, both r q a s b t c u d e, k)
run_regex_sound (alt r q) goal a s h =
    elim (or_try_cases (run_regex r goal a s) (run_regex q goal a s) h) [
      | inl first ↦
          let (b, t, d, k) = run_regex_sound r goal a s first in (b, t, left r q a s b t d, k)
      | inr second ↦
          let (b, t, d, k) = run_regex_sound q goal a s second in (b, t, right r q a s b t d, k)
    ]
run_regex_sound (repeat least most r) goal a s h =
    repeated_sound r (run_regex_sound r) most least goal a s h
run_regex_sound boundary goal a s h =
    let (good, k) = if_some (at_boundary a s) (goal a s) h in (a, s, edge a s good, k)
run_regex_sound (not_before p) goal a s h =
    let (good, k) = if_none (holds_of p a) (goal a s) h in (a, s, unpreceded p a s good, k)
run_regex_sound (not_after p) goal a s h =
    let (good, k) = if_none (holds_of p (next_char s)) (goal a s) h in
    (a, s, unfollowed p a s good, k)

-- A match at this place of a text or later.
pub data Occurs (r : Regex) : Option ℕ → Text → Type 0 where
  at_once :
      (prev : Option ℕ) (s : Text) (b : Option ℕ) (t : Text)
      → Derives r prev s b t
      → Occurs r prev s
  further : (prev : Option ℕ) (c : ℕ) (s : Text) → Occurs r (some c) s → Occurs r prev (c ∷ s)

found_here :
    (r : Regex) (prev : Option ℕ) (s : Text) (b : Option ℕ) (t : Text)
    → Derives r prev s b t
    → is_some (run_regex r rest_of prev s) ≡ true
found_here r prev s b t d = run_regex-found r rest_of prev s b t d refl

search_from-found :
    (r : Regex) (prev : Option ℕ) (s : Text) → Occurs r prev s → search_from r prev s ≡ true
unfolding search_from
search_from-found r prev [] (at_once _ _ b t d) = found_here r prev [] b t d
search_from-found r prev (c ∷ s) (at_once _ _ b t d) = rw (found_here r prev (c ∷ s) b t d) refl
search_from-found r prev (c ∷ s) (further _ _ _ o) =
    or_true (is_some (run_regex r rest_of prev (c ∷ s))) (search_from-found r (some c) s o)
  where
    or_true : (a : Bool) {b : Bool} → b ≡ true → (a || b) ≡ true
    or_true a h = ground (arith, h)

search_from_sound :
    (r : Regex) (prev : Option ℕ) (s : Text) → search_from r prev s ≡ true → Occurs r prev s
unfolding search_from
search_from_sound r prev [] h =
    let (b, t, d, _) = run_regex_sound r rest_of prev [] h in at_once prev [] b t d
search_from_sound r prev (c ∷ s) h =
    elim (Bool-cases (is_some (run_regex r rest_of prev (c ∷ s)))) [
      | inl now ↦
          let (b, t, d, _) = run_regex_sound r rest_of prev (c ∷ s) now in
          at_once prev (c ∷ s) b t d
      | inr not_now ↦ further prev c s (search_from_sound r (some c) s (rw not_now at h))
    ]

-- The search by backtracking succeeds just where some part of the text matches.
pub search_regex-Occurs :
    (r : Regex) (text : Text) → (search_regex r text ≡ true) ↔ Occurs r none text
unfolding search_regex
search_regex-Occurs r text = (search_from_sound r none text, search_from-found r none text)
