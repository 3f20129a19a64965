-- ===== src/Base/Lists.antt =====
-- Searches, tests and predicates on lists, over the native numbers.
use Prim.Native.Nat.{ℕ, suc, ◌≤◌}
use mathlib.Core.Path.{◌≡◌, refl}
use mathlib.Core.Bool.{Bool, true, false, ◌&&◌, ◌||◌}
use mathlib.Core.Option.{Option, none, some}
use mathlib.Core.List.{List, [], ◌∷◌, map}
use native.Mathlib.Omega.{arith}
use vibecoding_dofe_ai.Base.Tests.{if◌then◌else◌}

module _ {ℓ} {A : Type ℓ} where
  abbrev pub length : List A → ℕ
  length [] = 0
  length (x ∷ xs) = suc (length xs)

  abbrev pub filter : (A → Bool) → List A → List A
  filter p [] = []
  filter p (x ∷ xs) = let rest = filter p xs in if p x then x ∷ rest else rest

  abbrev pub find : (A → Bool) → List A → Option A
  find p [] = none
  find p (x ∷ xs) = if p x then some x else find p xs

  abbrev pub any : (A → Bool) → List A → Bool
  any p [] = false
  any p (x ∷ xs) = p x || any p xs

  abbrev pub all : (A → Bool) → List A → Bool
  all p [] = true
  all p (x ∷ xs) = p x && all p xs

  -- How many elements pass the test.
  abbrev pub count : (A → Bool) → List A → ℕ
  count p [] = 0
  count p (x ∷ xs) = let rest = count p xs in if p x then suc rest else rest

  pub count-le-length : (p : A → Bool) (xs : List A) → count p xs ≤ length xs
  count-le-length p [] = omega arith
  count-le-length p (x ∷ xs) = ground (arith, count-le-length p xs)

  pub find-passes : (p : A → Bool) (xs : List A) (a : A) → find p xs ≡ some a → p a ≡ true
  find-passes p [] a h = ground arith
  find-passes p (x ∷ xs) a h = ground (arith, find-passes p xs a)

  pub find-any : (p : A → Bool) (xs : List A) (a : A) → find p xs ≡ some a → any p xs ≡ true
  find-any p [] a h = ground arith
  find-any p (x ∷ xs) a h = ground (arith, find-any p xs a)

module _ {ℓ κ} {A : Type ℓ} {B : Type κ} where
  pub length-map : (f : A → B) (xs : List A) → length (map f xs) ≡ length xs
  length-map f [] = refl
  length-map f (x ∷ xs) = ground (arith, length-map f xs)

module _ {ℓ κ} {A : Type ℓ} (P : A → Type κ) where
  abbrev pub All : List A → Type κ
  All [] = Unit
  All (x ∷ xs) = P x × All xs

module _ {ℓ κ λ' μ} {A : Type ℓ} {B : Type κ} (P : A → Type λ') (Q : B → Type μ) where
  -- What `f` makes of elements with `P` has `Q`.
  pub All-map :
      (f : A → B) (keep : (x : A) → P x → Q (f x)) (xs : List A) → All P xs → All Q (map f xs)
  All-map f keep [] h = tt
  All-map f keep (x ∷ xs) (p, h) = (keep x p, All-map f keep xs h)

module _ {ℓ κ λ'} {A : Type ℓ} (P : A → Type κ) (Q : A → Type λ') where
  pub All-weaken : (keep : (x : A) → P x → Q x) (xs : List A) → All P xs → All Q xs
  All-weaken keep [] h = tt
  All-weaken keep (x ∷ xs) (p, h) = (keep x p, All-weaken keep xs h)

module _ {ℓ} {A : Type ℓ} where
  pub find-All {κ} :
      (P : A → Type κ) (p : A → Bool) (xs : List A) (a : A) → find p xs ≡ some a → All P xs → P a
  find-All P p [] a h all = absurd (ground arith)
  find-All P p (x ∷ xs) a h all = ground (arith, find-All P p xs a)

  -- What is found among the kept elements is found in the whole list.
  pub any_of_find-filter :
      (p q r g : A → Bool) (xs : List A) (a : A)
      → find p (filter q xs) ≡ some a
      → r a ≡ true
      → ((x : A) → p x ≡ true → r x ≡ true → g x ≡ true)
      → any g xs ≡ true
  any_of_find-filter p q r g [] a e ra k = ground arith
  any_of_find-filter p q r g (x ∷ xs) a e ra k =
      ground (arith, any_of_find-filter p q r g xs a, k x)

module _ {ℓ κ} {A : Type ℓ} {B : Type κ} where
  pub any-map :
      (f : A → B) (p : B → Bool) (q : A → Bool) (xs : List A)
      → ((x : A) → p (f x) ≡ true → q x ≡ true)
      → any p (map f xs) ≡ true
      → any q xs ≡ true
  any-map f p q [] back h = h
  any-map f p q (x ∷ xs) back h = ground (arith, any-map f p q xs back, back x)

  pub any-map-never :
      (f : A → B) (p : B → Bool) (xs : List A)
      → ((x : A) → p (f x) ≡ false)
      → any p (map f xs) ≡ false
  any-map-never f p [] never = refl
  any-map-never f p (x ∷ xs) never = ground (arith, any-map-never f p xs never, never x)

module _ {ℓ} {A : Type ℓ} where
  pub find-any-other :
      (p q : A → Bool) (xs : List A) (a : A) → find p xs ≡ some a → q a ≡ true → any q xs ≡ true
  find-any-other p q [] a h k = ground arith
  find-any-other p q (x ∷ xs) a h k = ground (arith, find-any-other p q xs a)

  pub any-filter :
      (p q r : A → Bool) (xs : List A)
      → ((x : A) → p x ≡ true → q x ≡ true → r x ≡ true)
      → any p (filter q xs) ≡ true
      → any r xs ≡ true
  any-filter p q r [] k h = h
  any-filter p q r (x ∷ xs) k h = ground (arith, any-filter p q r xs k, k x)

  pub any-or :
      (p : A → Bool) (b : Bool) (xs : List A)
      → any (λ x. p x || b) xs ≡ true
      → (any p xs || b) ≡ true
  any-or p b [] h = ground arith
  any-or p b (x ∷ xs) h = ground (arith, any-or p b xs)
