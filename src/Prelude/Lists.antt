-- ===== src/Prelude/Lists.antt =====
-- Lists measured by native numbers, with Boolean quantifiers and predicates by recursion.
use Prim.Native.Nat.{ℕ, zero, suc, ◌≤◌}
use mathlib.Core.Path.{◌≡◌, refl, ap}
use mathlib.Core.Logic.{◌⊎◌, inl, inr}
use mathlib.Core.Bool.{Bool, true, false, ◌&&◌, ◌||◌}
use mathlib.Core.List.{List, [], ◌∷◌, ◌++◌}
use native.Mathlib.Omega.{arith}
use mini_ai_cloud.Prelude.Tests.{if◌then◌else◌}

module _ {ℓ} {A : Type ℓ} where
  abbrev pub length : List A → ℕ
  length [] = 0
  length (x ∷ xs) = suc (length xs)

  abbrev pub take : ℕ → List A → List A
  take zero xs = []
  take (suc n) [] = []
  take (suc n) (x ∷ xs) = x ∷ take n xs

  abbrev pub drop : ℕ → List A → List A
  drop zero xs = xs
  drop (suc n) [] = []
  drop (suc n) (x ∷ xs) = drop n xs

  -- `any(test(x) for x in xs)` and `all(test(x) for x in xs)`.
  abbrev pub any : (A → Bool) → List A → Bool
  any test [] = false
  any test (x ∷ xs) = test x || any test xs

  abbrev pub all : (A → Bool) → List A → Bool
  all test [] = true
  all test (x ∷ xs) = test x && all test xs

  -- `[x for x in xs if test(x)]`.
  abbrev pub keep : (A → Bool) → List A → List A
  keep test [] = []
  keep test (x ∷ xs) = if test x then x ∷ keep test xs else keep test xs

  abbrev pub All {κ} : (A → Type κ) → List A → Type κ
  All P [] = Unit
  All P (x ∷ xs) = P x × All P xs

  abbrev pub Any : (A → Type 0) → List A → Type 0
  Any P [] = ⊥
  Any P (x ∷ xs) = P x ⊎ Any P xs

module _ {ℓ} {A : Type ℓ} where
  pub length-take-le : (n : ℕ) (xs : List A) → n ≤ length xs → length (take n xs) ≡ n
  length-take-le zero xs h = refl
  length-take-le (suc n) [] h = absurd (omega arith)
  length-take-le (suc n) (x ∷ xs) h = ap suc (length-take-le n xs (omega arith))

  pub length-keep-le : (test : A → Bool) (xs : List A) → length (keep test xs) ≤ length xs
  length-keep-le test [] = omega arith
  length-keep-le test (x ∷ xs) = ground (arith, length-keep-le test xs)

module _ {ℓ κ} {A : Type ℓ} (P : A → Type κ) where
  pub All-take : (n : ℕ) (xs : List A) → All P xs → All P (take n xs)
  All-take zero xs h = tt
  All-take (suc n) [] h = tt
  All-take (suc n) (x ∷ xs) h = (h.0, All-take n xs h.1)

  pub All-drop : (n : ℕ) (xs : List A) → All P xs → All P (drop n xs)
  All-drop zero xs h = h
  All-drop (suc n) [] h = tt
  All-drop (suc n) (x ∷ xs) h = All-drop n xs h.1

  -- What is kept satisfies the test, and whatever held of the list.
  pub All-keep : (test : A → Bool) (xs : List A) → All P xs → All P (keep test xs)
  All-keep test [] h = tt
  All-keep test (x ∷ xs) h = ground (arith, All-keep test xs h.1)

  pub All-map {μ} : (Q : A → Type μ) (xs : List A) → ((x : A) → P x → Q x) → All P xs → All Q xs
  All-map Q [] f h = tt
  All-map Q (x ∷ xs) f h = (f x h.0, All-map Q xs f h.1)

  pub All-zip {μ} : (Q : A → Type μ) (xs : List A) → All P xs → All Q xs → All (λ x. P x × Q x) xs
  All-zip Q [] h k = tt
  All-zip Q (x ∷ xs) h k = ((h.0, k.0), All-zip Q xs h.1 k.1)

  pub All-of : ((x : A) → P x) → (xs : List A) → All P xs
  All-of f [] = tt
  All-of f (x ∷ xs) = (f x, All-of f xs)

module _ {ℓ} {A : Type ℓ} where
  pub All-keep_test : (test : A → Bool) (xs : List A) → All (λ x. test x ≡ true) (keep test xs)
  All-keep_test test [] = tt
  All-keep_test test (x ∷ xs) = ground (arith, All-keep_test test xs)

  pub keep-All : (test : A → Bool) (xs : List A) → All (λ x. test x ≡ true) xs → keep test xs ≡ xs
  keep-All test [] h = refl
  keep-All test (x ∷ xs) h = ground (arith, keep-All test xs h.1)

  pub all→All : (test : A → Bool) (xs : List A) → all test xs ≡ true → All (λ x. test x ≡ true) xs
  all→All test [] h = tt
  all→All test (x ∷ xs) h = ground (arith, all→All test xs)

  pub All→all : (test : A → Bool) (xs : List A) → All (λ x. test x ≡ true) xs → all test xs ≡ true
  All→all test [] h = refl
  All→all test (x ∷ xs) h = ground (arith, All→all test xs h.1)

  pub keep-keep : (p q : A → Bool) (xs : List A) → keep p (keep q xs) ≡ keep (λ x. q x && p x) xs
  keep-keep p q [] = refl
  keep-keep p q (x ∷ xs) = ground (arith, keep-keep p q xs)

module _ {ℓ} {A : Type ℓ} where
  pub take-append-drop : (n : ℕ) (xs : List A) → take n xs ++ drop n xs ≡ xs
  take-append-drop zero xs = refl
  take-append-drop (suc n) [] = refl
  take-append-drop (suc n) (x ∷ xs) = rw (take-append-drop n xs)

  pub Any-map : {P Q : A → Type 0} (xs : List A) → ((x : A) → P x → Q x) → Any P xs → Any Q xs
  Any-map [] f h = elim h [ ]
  Any-map (x ∷ xs) f (inl h) = inl (f x h)
  Any-map (x ∷ xs) f (inr h) = inr (Any-map xs f h)
