-- ===== src/Prelude/Sets.antt =====
-- Finite sets of numbers, as lists: membership is a Boolean test.
use Prim.Native.Nat.{ℕ, suc, ◌≤◌}
use mathlib.Core.Path.{◌≡◌, refl, sym, ap, ◌∙◌}
use mathlib.Core.Logic.{◌⊎◌, inl, inr}
use mathlib.Core.Bool.{Bool, true, false, ◌||◌, ◌&&◌}
use mathlib.Core.List.{List, [], ◌∷◌}
use native.Mathlib.Omega.{arith}
use mini_ai_cloud.Prelude.Tests.{if◌then◌else◌, ◌==◌, ==_iff, Bool-cases}
use mini_ai_cloud.Prelude.Lists.{length, keep}

-- `v in xs`
abbrev pub has : ℕ → List ℕ → Bool
has v [] = false
has v (x ∷ xs) = x == v || has v xs

-- `xs.add(v)`
abbrev pub add_new : ℕ → List ℕ → List ℕ
add_new v xs = if has v xs then xs else v ∷ xs

abbrev pub IsDistinct : List ℕ → Type 0
IsDistinct [] = Unit
IsDistinct (x ∷ xs) = (has x xs ≡ false) × IsDistinct xs

abbrev pub IsSubset : List ℕ → List ℕ → Type 0
IsSubset xs ys = (v : ℕ) → has v xs ≡ true → has v ys ≡ true

pub has-add_new : (v w : ℕ) (xs : List ℕ) → has v (add_new w xs) ≡ (w == v || has v xs)
has-add_new v w xs = elim (Bool-cases (has w xs)) [
  | inl old ↦ elim (Bool-cases (w == v)) [
    | inl same ↦ rw (old, same) (ap (λ n. has n xs) (sym ((==_iff w v).0 same)) ∙ old)
    | inr other ↦ rw (old, other) refl
  ]
  | inr new ↦ rw new refl
]

pub add_new-IsDistinct : (w : ℕ) (xs : List ℕ) → IsDistinct xs → IsDistinct (add_new w xs)
add_new-IsDistinct w xs h = elim (Bool-cases (has w xs)) [
  | inl old ↦ rw old h
  | inr new ↦ rw new (new, h)
]

remove : ℕ → List ℕ → List ℕ
remove v [] = []
remove v (x ∷ xs) = if x == v then xs else x ∷ remove v xs

length-remove : (v : ℕ) (xs : List ℕ) → has v xs ≡ true → suc (length (remove v xs)) ≡ length xs
unfolding remove
length-remove v [] h = cc
length-remove v (x ∷ xs) h = ground (arith, length-remove v xs)

has-remove :
    (v w : ℕ) (xs : List ℕ) → (v == w) ≡ false → has w xs ≡ true → has w (remove v xs) ≡ true
unfolding remove
has-remove v w [] n h = cc
has-remove v w (x ∷ xs) n h = ground (arith, has-remove v w xs)

self : (v : ℕ) → (v == v) ≡ true
self v = ground arith

pub not_same : (x w : ℕ) (xs : List ℕ) → has x xs ≡ false → has w xs ≡ true → (x == w) ≡ false
not_same x w xs new old = elim (Bool-cases (x == w)) [
  | inl same ↦ cc (ap (λ n. has n xs) ((==_iff x w).0 same))
  | inr other ↦ other
]

-- Distinct items of a list are no more than its items.
pub length-le_of_subset : (xs ys : List ℕ) → IsDistinct xs → IsSubset xs ys → length xs ≤ length ys
length-le_of_subset [] ys d h = omega arith
length-le_of_subset (x ∷ xs) ys d h =
    let there = h x (ground (arith, self x)) in
    let fewer =
      length-le_of_subset xs (remove x ys) d.1
        (λ w k. has-remove x w ys (not_same x w xs d.0 k) (h w (ground (arith, k)))) in
    omega (arith, length-remove x ys there)

pub cons_in :
    (x v : ℕ) (xs ys : List ℕ)
    → has x ys ≡ true
    → IsSubset xs ys
    → has v (x ∷ xs) ≡ true
    → has v ys ≡ true
cons_in x v xs ys there rest h = elim (Bool-cases (x == v)) [
  | inl same ↦ ap (λ n. has n ys) (sym ((==_iff x v).0 same)) ∙ there
  | inr other ↦ rest v (ground (arith, h, other))
]

-- Either all of a list is in another, or an item is not.
pub subset_or :
    (xs ys : List ℕ) → IsSubset xs ys ⊎ ((v : ℕ) × (has v xs ≡ true) × (has v ys ≡ false))
subset_or [] ys = inl (λ v h. cc)
subset_or (x ∷ xs) ys = elim (subset_or xs ys) [
  | inr (v, there, missing) ↦ inr (v, ground (arith, there), missing)
  | inl rest ↦ elim (Bool-cases (has x ys)) [
    | inr missing ↦ inr (x, ground (arith, self x), missing)
    | inl there ↦ inl (λ v h. cons_in x v xs ys there rest h)
  ]
]

pub has-keep : (p : ℕ → Bool) (v : ℕ) (xs : List ℕ) → has v (keep p xs) ≡ (has v xs && p v)
has-keep p v [] = refl
has-keep p v (x ∷ xs) = elim (Bool-cases (x == v)) [
  | inl same ↦ let alike : p x ≡ p v = ap p ((==_iff x v).0 same) in ground (arith, has-keep p v xs)
  | inr other ↦ ground (arith, has-keep p v xs)
]

pub keep-IsDistinct : (p : ℕ → Bool) (xs : List ℕ) → IsDistinct xs → IsDistinct (keep p xs)
keep-IsDistinct p [] d = tt
keep-IsDistinct p (x ∷ xs) d = elim (Bool-cases (p x)) [
  | inl kept ↦ rw kept (has-keep p x xs ∙ ap (λ b. b && p x) d.0, keep-IsDistinct p xs d.1)
  | inr dropped ↦ rw dropped (keep-IsDistinct p xs d.1)
]
