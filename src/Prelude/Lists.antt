-- ===== src/Prelude/Lists.antt =====
-- Lists measured by native numbers, and the searches and updates of a document collection.
use Prim.Native.Nat.{ℕ, zero, suc, ◌+◌, ◌≤◌}
use mathlib.Core.Path.{◌≡◌, refl}
use mathlib.Core.Bool.{Bool, true, false, ◌||◌}
use mathlib.Core.Option.{Option, none, some}
use mathlib.Core.List.{List, [], ◌∷◌, ◌++◌}
use native.Mathlib.Omega.{arith}
use ecommerce_microservice.Prelude.Tests.{if◌then◌else◌}

-- Every element has the property.
abbrev pub All {ℓ κ} : {A : Type ℓ} → (A → Type κ) → List A → Type κ
All P [] = Unit
All P (x ∷ xs) = P x × All P xs

module _ {ℓ} {A : Type ℓ} where
  abbrev pub length : List A → ℕ
  length [] = 0
  length (_ ∷ xs) = suc (length xs)

  abbrev pub take : ℕ → List A → List A
  take zero _ = []
  take (suc _) [] = []
  take (suc n) (x ∷ xs) = x ∷ take n xs

  abbrev pub drop : ℕ → List A → List A
  drop zero xs = xs
  drop (suc _) [] = []
  drop (suc n) (_ ∷ xs) = drop n xs

  -- The first element that passes the test.
  abbrev pub filter : (A → Bool) → List A → List A
  filter f [] = []
  filter f (x ∷ xs) = let rest = filter f xs in if f x then x ∷ rest else rest

  abbrev pub find : (A → Bool) → List A → Option A
  find f [] = none
  find f (x ∷ xs) = if f x then some x else find f xs

  -- The list with its first element that passes the test replaced.
  abbrev pub update_first : (A → Bool) → (A → A) → List A → List A
  update_first f u [] = []
  update_first f u (x ∷ xs) = if f x then u x ∷ xs else x ∷ update_first f u xs

  abbrev pub any : (A → Bool) → List A → Bool
  any f [] = false
  any f (x ∷ xs) = f x || any f xs

module _ {ℓ} {A : Type ℓ} where
  pub length-append : (xs ys : List A) → length (xs ++ ys) ≡ length xs + length ys
  length-append [] ys = omega arith
  length-append (x ∷ xs) ys = omega (arith, length-append xs ys)

  pub length-take-le : (n : ℕ) (xs : List A) → length (take n xs) ≤ n
  length-take-le zero xs = omega arith
  length-take-le (suc n) [] = omega arith
  length-take-le (suc n) (x ∷ xs) = omega (arith, length-take-le n xs)

  pub find_sound : (f : A → Bool) (xs : List A) {a : A} → find f xs ≡ some a → f a ≡ true
  find_sound f [] e = cc
  find_sound f (x ∷ xs) {a} e = ground (arith, find_sound f xs {a = a})

  pub update_first-miss :
      (f : A → Bool) (u : A → A) (xs : List A) → find f xs ≡ none → update_first f u xs ≡ xs
  update_first-miss f u [] e = refl
  update_first-miss f u (x ∷ xs) e = ground (arith, update_first-miss f u xs)

  pub length-update_first :
      (f : A → Bool) (u : A → A) (xs : List A) → length (update_first f u xs) ≡ length xs
  length-update_first f u [] = refl
  length-update_first f u (x ∷ xs) = ground (arith, length-update_first f u xs)

  pub find-append_none :
      (f : A → Bool) (xs : List A) (a : A)
      → find f xs ≡ none
      → find f (xs ++ a ∷ []) ≡ (if f a then some a else none)
  find-append_none f [] a e = refl
  find-append_none f (x ∷ xs) a e = ground (arith, find-append_none f xs a)

  pub find-append_some :
      (f : A → Bool) (xs ys : List A) {a : A} → find f xs ≡ some a → find f (xs ++ ys) ≡ some a
  find-append_some f [] ys e = cc
  find-append_some f (x ∷ xs) ys {a} e = ground (arith, find-append_some f xs ys {a = a})

module _ {ℓ κ} {A : Type ℓ} (P : A → Type κ) where
  pub All-append : (xs ys : List A) → All P xs → All P ys → All P (xs ++ ys)
  All-append [] ys h k = k
  All-append (x ∷ xs) ys h k = (h.0, All-append xs ys h.1 k)

  pub All-find : (f : A → Bool) (xs : List A) {a : A} → All P xs → find f xs ≡ some a → P a
  All-find f [] h e = cc
  All-find f (x ∷ xs) {a} h e = ground (arith, All-find f xs {a = a} h.1)
