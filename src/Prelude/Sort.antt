-- ===== src/Prelude/Sort.antt =====
-- `sorted(xs, key=...)`. Python's sort is stable, which fixes its result; this is the stable
-- insertion sort.
use Prim.Native.Nat.{ℕ, zero, suc}
use mathlib.Core.Path.{◌≡◌, refl, sym, ap, ◌∙◌, subst}
use mathlib.Core.Logic.{◌⊎◌, inl, inr}
use mathlib.Core.Bool.{true}
use mathlib.Core.List.{List, [], ◌∷◌, Perm}
use mathlib.Core.List.Perm
use native.Mathlib.Omega.{arith}
use mini_ai_cloud.Prelude.Tests.{if◌then◌else◌, Bool-cases}
use mini_ai_cloud.Prelude.Lists.{length, take, drop, All, Any, All-map, All-drop}
use mini_ai_cloud.Prelude.Order.{Order, le_of_not, le_refl}

module _ {ℓ} {A : Type ℓ} (o : Order A) where
  pub insert : A → List A → List A
  insert x [] = x ∷ []
  insert x (y ∷ ys) = if o.le x y then x ∷ y ∷ ys else y ∷ insert x ys

  unfoldable pub sort : List A → List A
  unfolding insert
  sort [] = []
  sort (x ∷ xs) = insert x (sort xs)

  -- Each item is below all that follow it.
  abbrev pub IsSorted : List A → Type 0
  IsSorted [] = Unit
  IsSorted (x ∷ xs) = All (λ y. o.le x y ≡ true) xs × IsSorted xs

  module _ {κ} (P : A → Type κ) where
    insert-All : (x : A) (xs : List A) → P x → All P xs → All P (insert x xs)
    unfolding insert
    insert-All x [] p h = (p, tt)
    insert-All x (y ∷ ys) p h = ground (arith, insert-All x ys p h.1)

    All-insert : (x : A) (xs : List A) → All P (insert x xs) → P x × All P xs
    unfolding insert
    All-insert x [] h = h
    All-insert x (y ∷ ys) h = ground (arith, All-insert x ys)

    pub sort-All : (xs : List A) → All P xs → All P (sort xs)
    unfolding sort
    sort-All [] h = tt
    sort-All (x ∷ xs) h = insert-All x (sort xs) h.0 (sort-All xs h.1)

    pub All-sort : (xs : List A) → All P (sort xs) → All P xs
    unfolding sort
    All-sort [] h = tt
    All-sort (x ∷ xs) h = let r = All-insert x (sort xs) h in (r.0, All-sort xs r.1)

  length-insert : (x : A) (xs : List A) → length (insert x xs) ≡ suc (length xs)
  unfolding insert
  length-insert x [] = refl
  length-insert x (y ∷ ys) = ground (arith, length-insert x ys)

  pub length-sort : (xs : List A) → length (sort xs) ≡ length xs
  unfolding sort
  length-sort [] = refl
  length-sort (x ∷ xs) = length-insert x (sort xs) ∙ ap suc (length-sort xs)

  All-le_trans :
      (x y : A) (zs : List A)
      → o.le x y ≡ true
      → All (λ z. o.le y z ≡ true) zs
      → All (λ z. o.le x z ≡ true) zs
  All-le_trans x y zs h =
      All-map (λ z. o.le y z ≡ true) (λ z. o.le x z ≡ true) zs (λ z. o.trans x y z h)

  insert-IsSorted : (x : A) (xs : List A) → IsSorted xs → IsSorted (insert x xs)
  unfolding insert
  insert-IsSorted x [] h = (tt, tt)
  insert-IsSorted x (y ∷ ys) h = ground (
    arith,
    All-le_trans x y ys,
    insert-IsSorted x ys h.1,
    insert-All (λ z. o.le y z ≡ true) x ys,
    le_of_not o x y,
  )

  pub sort-IsSorted : (xs : List A) → IsSorted (sort xs)
  unfolding sort
  sort-IsSorted [] = tt
  sort-IsSorted (x ∷ xs) = insert-IsSorted x (sort xs) (sort-IsSorted xs)

  -- The first of the sorted items is below every item.
  pub sort-head-le :
      (xs : List A) {x : A} {rest : List A} → sort xs ≡ x ∷ rest → All (λ y. o.le x y ≡ true) xs
  sort-head-le xs {x} {rest} e =
      All-sort (λ y. o.le x y ≡ true) xs
        (subst (All (λ y. o.le x y ≡ true)) (sym e) (le_refl o x, sorted.0))
    where
      sorted : IsSorted (x ∷ rest)
      sorted = subst IsSorted e (sort-IsSorted xs)

  -- The first `n` of the sorted items are below all that are left.
  pub IsSorted-take-drop :
      (n : ℕ) (xs : List A)
      → IsSorted xs
      → All (λ x. All (λ y. o.le x y ≡ true) (drop n xs)) (take n xs)
  IsSorted-take-drop zero xs h = tt
  IsSorted-take-drop (suc n) [] h = tt
  IsSorted-take-drop (suc n) (x ∷ xs) h =
      (All-drop (λ y. o.le x y ≡ true) n xs h.0, IsSorted-take-drop n xs h.1)

  insert-perm : (x : A) (xs : List A) → Perm (insert x xs) (x ∷ xs)
  unfolding insert
  insert-perm x [] = Perm.refl (x ∷ [])
  insert-perm x (y ∷ ys) = elim (Bool-cases (o.le x y)) [
    | inl below ↦ rw below (Perm.refl (x ∷ y ∷ ys))
    | inr above ↦ rw above (Perm.trans (Perm.cons y (insert-perm x ys)) (Perm.swap x y ys))
  ]

  pub sort-perm : (xs : List A) → Perm (sort xs) xs
  unfolding sort
  sort-perm [] = Perm.refl []
  sort-perm (x ∷ xs) = Perm.trans (insert-perm x (sort xs)) (Perm.cons x (sort-perm xs))

module _ {A : Type 0} (o : Order A) where
  module _ (P : A → Type 0) where
    Any-insert : (x : A) (xs : List A) → Any P (insert o x xs) → P x ⊎ Any P xs
    unfolding insert
    Any-insert x [] h = h
    Any-insert x (y ∷ ys) h = elim (Bool-cases (o.le x y)) [
      | inl below ↦ ground arith
      | inr above ↦ ground (arith, Any-insert x ys)
    ]

    pub Any-sort : (xs : List A) → Any P (sort o xs) → Any P xs
    unfolding sort
    Any-sort [] h = h
    Any-sort (x ∷ xs) h = elim (Any-insert x (sort o xs) h) [
      | inl p ↦ inl p
      | inr q ↦ inr (Any-sort xs q)
    ]

  -- The first of the sorted items is one of the items.
  pub sort-head-Any :
      (xs : List A) {x : A} {rest : List A} → sort o xs ≡ x ∷ rest → Any (λ y. x ≡ y) xs
  sort-head-Any xs {x} {rest} e =
      Any-sort (λ y. x ≡ y) xs (subst (Any (λ y. x ≡ y)) (sym e) (inl refl))

  pub sort-nil : (xs : List A) → sort o xs ≡ [] → xs ≡ []
  unfolding sort
  sort-nil [] e = refl
  sort-nil (x ∷ xs) e = absurd (omega (arith, ap length e, length-sort o (x ∷ xs)))
