-- ===== src/Prelude/Decide.antt =====
-- Tests on the items of a list decide what holds of some or of all of them.
use mini_ai_cloud.Prelude.{◌≡◌, ◌↔◌, refl, Bool, true, List, [], ◌∷◌, any, all, Any, All, arith}

pub any_iff :
    {A : Type 0} (p : A → Bool) (Q : A → Type 0)
    → ((x : A) → (p x ≡ true) ↔ Q x)
    → (xs : List A) → (any p xs ≡ true) ↔ Any Q xs
any_iff p Q f [] = (λ h. cc, λ h. absurd h)
any_iff p Q f (x ∷ xs) = ground (arith, f x, any_iff p Q f xs)

pub all_iff :
    {A : Type 0} (p : A → Bool) (Q : A → Type 0)
    → ((x : A) → (p x ≡ true) ↔ Q x)
    → (xs : List A) → (all p xs ≡ true) ↔ All Q xs
all_iff p Q f [] = (λ h. tt, λ h. refl)
all_iff p Q f (x ∷ xs) = ground (arith, f x, all_iff p Q f xs)
