-- ===== src/Prelude/Order.antt =====
-- Sort keys: a total preorder as a Boolean test, by key, and in lexicographic combination, as
-- Python compares tuples.
use Prim.Native.Nat.{ℕ}
use mathlib.Core.Path.{◌≡◌, refl}
use mathlib.Core.List.{List, [], ◌∷◌}
use mathlib.Core.Logic.{◌⊎◌, inl, inr}
use mathlib.Core.Bool.{Bool, true, false, not, ◌&&◌, ◌||◌}
use native.Mathlib.Omega.{arith}
use mini_ai_cloud.Prelude.Tests.{leb}

pub record Order {ℓ} (A : Type ℓ) : Type ℓ where
  pub le : A → A → Bool
  pub total : (a b : A) → (le a b ≡ true) ⊎ (le b a ≡ true)
  pub trans : (a b c : A) → le a b ≡ true → le b c ≡ true → le a c ≡ true

pub leb_total : (a b : ℕ) → (leb a b ≡ true) ⊎ (leb b a ≡ true)
leb_total a b = ground arith

pub leb_trans : (a b c : ℕ) → leb a b ≡ true → leb b c ≡ true → leb a c ≡ true
leb_trans a b c h k = ground arith

abbrev pub by_nat : Order ℕ
by_nat = record { le = leb; total = leb_total; trans = leb_trans }

-- The order of the keys.
abbrev pub on {ℓ κ} : {A : Type ℓ} {B : Type κ} → (A → B) → Order B → Order A
on f o = record {
  le = λ a b. o.le (f a) (f b);
  total = λ a b. o.total (f a) (f b);
  trans = λ a b c. o.trans (f a) (f b) (f c);
}

module _ {ℓ} {A : Type ℓ} where
  -- The larger first.
  abbrev pub descending : Order A → Order A
  descending o = record {
    le = λ a b. o.le b a;
    total = λ a b. o.total b a;
    trans = λ a b c h k. o.trans c b a k h;
  }

  abbrev pub lex_le : Order A → Order A → A → A → Bool
  lex_le o p a b = o.le a b && (not (o.le b a) || p.le a b)

  pub lex_total : (o p : Order A) (a b : A) → (lex_le o p a b ≡ true) ⊎ (lex_le o p b a ≡ true)
  lex_total o p a b = ground (arith, o.total a b, p.total a b)

  pub lex_trans :
      (o p : Order A) (a b c : A)
      → lex_le o p a b ≡ true
      → lex_le o p b c ≡ true
      → lex_le o p a c ≡ true
  lex_trans o p a b c h k =
      ground (arith, o.trans a b c, o.trans c a b, o.trans b c a, p.trans a b c)

  -- The first key decides, and the second where the first ties.
  infixr 30 ◌then_by◌
  abbrev pub ◌then_by◌ : Order A → Order A → Order A
  o then_by p = record { le = lex_le o p; total = lex_total o p; trans = lex_trans o p }

  pub le_refl : (o : Order A) (a : A) → o.le a a ≡ true
  le_refl o a = elim (o.total a a) [ inl h ↦ h | inr h ↦ h ]

  pub le_of_not : (o : Order A) (a b : A) → o.le a b ≡ false → o.le b a ≡ true
  le_of_not o a b h = ground (arith, o.total a b)

module _ {ℓ} {A : Type ℓ} where
  -- Sequences of one order, item by item; a prefix comes first.
  unfoldable pub list_le : Order A → List A → List A → Bool
  list_le o [] ys = true
  list_le o (x ∷ xs) [] = false
  list_le o (x ∷ xs) (y ∷ ys) = o.le x y && (not (o.le y x) || list_le o xs ys)

  pub list_total :
      (o : Order A) (xs ys : List A) → (list_le o xs ys ≡ true) ⊎ (list_le o ys xs ≡ true)
  unfolding list_le
  list_total o [] ys = inl refl
  list_total o (x ∷ xs) [] = inr refl
  list_total o (x ∷ xs) (y ∷ ys) = ground (arith, o.total x y, list_total o xs ys)

  pub list_trans :
      (o : Order A) (xs ys zs : List A)
      → list_le o xs ys ≡ true
      → list_le o ys zs ≡ true
      → list_le o xs zs ≡ true
  unfolding list_le
  list_trans o [] ys zs h k = refl
  list_trans o (x ∷ xs) [] zs h k = cc
  list_trans o (x ∷ xs) (y ∷ ys) [] h k = ground arith
  list_trans o (x ∷ xs) (y ∷ ys) (z ∷ zs) h k =
      ground (arith, o.trans x y z, o.trans z x y, o.trans y z x, list_trans o xs ys zs)

  abbrev pub by_list : Order A → Order (List A)
  by_list o = record { le = list_le o; total = list_total o; trans = list_trans o }
