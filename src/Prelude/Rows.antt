-- ===== src/Prelude/Rows.antt =====
-- Rows found by a test: after an update, under a stronger test, and where a key is unique.
use Prim.Native.Nat.{◌≤◌}
use mathlib.Core.Path.{◌≡◌, refl, fun_ext}
use mathlib.Core.Logic.{inl, inr}
use mathlib.Core.Bool.{Bool, true, ◌&&◌, false}
use mathlib.Core.List.{List, [], ◌∷◌}
use mathlib.Core.Option
use mathlib.Core.Option.{Option, none, some}
use native.Mathlib.Omega.{arith}
use langgraph_temporal_agent.Prelude.Tests.{if◌then◌else◌, Bool-cases}
use langgraph_temporal_agent.Prelude.Lists.{find?, update, count, count-eq-zero, All, filter}

-- No row passes the test that a row above it sets.
abbrev pub IsDistinct {ℓ} : {A : Type ℓ} → (A → A → Bool) → List A → Type ℓ
IsDistinct same [] = Unit
IsDistinct same (x ∷ xs) = (find? (same x) xs ≡ none) × IsDistinct same xs

abbrev pub changed {ℓ} : {A : Type ℓ} → (A → Bool) → (A → A) → A → A
changed p f x = if p x then f x else x

module _ {ℓ} {A : Type ℓ} where
  -- An update that the test cannot see changes the row that is found, and no other.
  pub find?-update :
      (p : A → Bool) (f : A → A) (q : A → Bool) (xs : List A)
      → ((x : A) → q (f x) ≡ q x)
      → find? q (update p f xs) ≡ Option.map (changed p f) (find? q xs)
  find?-update p f q [] same = refl
  find?-update p f q (x ∷ xs) same = ground (arith, same x, find?-update p f q xs same)

  pub IsDistinct-update :
      (key : A → A → Bool) (p : A → Bool) (f : A → A) (xs : List A)
      → ((x y : A) → key x (f y) ≡ key x y)
      → ((x y : A) → key (f x) y ≡ key x y)
      → IsDistinct key xs
      → IsDistinct key (update p f xs)
  IsDistinct-update key p f [] right left h = tt
  IsDistinct-update key p f (x ∷ xs) right left h =
      let e : key (changed p f x) ≡ key x = fun_ext λ y. ground (arith, left x y) in
      (
        rw (e, find?-update p f (key x) xs (right x), h.0),
        IsDistinct-update key p f xs right left h.1,
      )

  pub find?-and_none :
      (p q : A → Bool) (xs : List A) → find? p xs ≡ none → find? (λ x. p x && q x) xs ≡ none
  find?-and_none p q [] e = refl
  find?-and_none p q (x ∷ xs) e = ground (arith, find?-and_none p q xs)

  pub count-le-one :
      (key : A → A → Bool) (p : A → Bool) (xs : List A)
      → ((x y : A) → p x ≡ true → p y ≡ key x y)
      → IsDistinct key xs
      → count p xs ≤ 1
  count-le-one key p [] same h = omega arith
  count-le-one key p (x ∷ xs) same h = elim (Bool-cases (p x)) [
    | inl px ↦
        let e : p ≡ key x = fun_ext λ y. same x y px in
        rw px (omega (arith, count-eq-zero p xs (rw e h.0)))
    | inr npx ↦ rw npx (count-le-one key p xs same h.1)
  ]

module _ {ℓ} {A : Type ℓ} where
  pub find?-none : (p : A → Bool) (xs : List A) → find? p xs ≡ none → All (λ x. p x ≡ false) xs
  find?-none p [] e = tt
  find?-none p (x ∷ xs) e = elim (Bool-cases (p x)) [
    | inl px ↦ cc (rw px at e)
    | inr npx ↦ (npx, find?-none p xs (rw npx at e))
  ]

pub All-zip {ℓ κ μ ν} :
    {A : Type ℓ} {P : A → Type κ} {Q : A → Type μ} {R : A → Type ν} (xs : List A)
    → ((x : A) → P x → Q x → R x)
    → All P xs
    → All Q xs
    → All R xs
All-zip [] f h k = tt
All-zip (x ∷ xs) f h k = (f x h.0 k.0, All-zip xs f h.1 k.1)

pub find?-filter {ℓ} :
    {A : Type ℓ} (p q : A → Bool) (xs : List A) → find? (λ x. p x && q x) xs ≡ find? p (filter q xs)
find?-filter p q [] = refl
find?-filter p q (x ∷ xs) = ground (arith, find?-filter p q xs)
