-- ===== src/Prelude/Text.antt =====
-- Texts as Python orders and tests them: by code points.
use Prim.Native.Nat.{ℕ, zero, suc}
use Prim.Native.Char.{code}
use Prim.Native.String.{String, ◌++◌ as text_append}
use text.Mathlib.Text.{◌==◌}
use text.Mathlib.TextEquality.{eq_iff}
use mathlib.Core.Path.{◌≡◌, refl, sym, ap, ◌∙◌}
use mathlib.Core.Logic.{◌↔◌}
use mathlib.Core.Bool.{Bool, true, false, ◌||◌, ◌&&◌}
use mathlib.Core.List.{List, [], ◌∷◌}
use mathlib.Core.List.{◌++◌, append-nil, append_assoc}
use mathlib.Core.Option.{Option, none, some}
use native.Mathlib.Omega.{arith}
use mini_ai_cloud.Prelude.Tests.{if◌then◌else◌, leb, ◌==◌ as eqb}
use mini_ai_cloud.Prelude.Lists.{all}
use mini_ai_cloud.Prelude.Order.{Order, on, by_list, by_nat}
pub use Prim.Native.String.{String}

abbrev pub codes : String → List ℕ
codes String.[] = []
codes (String.◌∷◌ c s) = code c ∷ codes s

abbrev pub by_text : Order String
by_text = on codes (by_list by_nat)

infix 50 ◌===◌
abbrev pub ◌===◌ : String → String → Bool
s === t = s == t

-- `==` on values that may be `None`.
abbrev pub same_text : Option String → Option String → Bool
same_text none none = true
same_text none (some t) = false
same_text (some s) none = false
same_text (some s) (some t) = s == t

pub same_text_iff : (s t : Option String) → (same_text s t ≡ true) ↔ (s ≡ t)
same_text_iff none none = (λ h. refl, λ h. refl)
same_text_iff none (some t) = (λ h. cc, λ h. cc)
same_text_iff (some s) none = (λ h. cc, λ h. cc)
same_text_iff (some s) (some t) = ground (arith, eq_iff s t)

-- `s + t`
abbrev pub concat : String → String → String
concat s t = text_append s t

-- A `dict` with texts for keys, in the order in which the keys came.
abbrev pub Dict {ℓ} : Type ℓ → Type ℓ
Dict V = List (String × V)

module _ {ℓ} {V : Type ℓ} where
  -- `d.get(key)`
  unfoldable pub lookup : String → Dict V → Option V
  lookup key [] = none
  lookup key (entry ∷ rest) = if entry.0 == key then some entry.1 else lookup key rest

  -- `d[key] = value`
  unfoldable pub insert : String → V → Dict V → Dict V
  insert key value [] = (key, value) ∷ []
  insert key value (entry ∷ rest) =
      if entry.0 == key then (entry.0, value) ∷ rest else entry ∷ insert key value rest

  -- A write is read back under its key, and leaves the other keys alone.
  pub lookup-insert :
      (d : Dict V) (key value_key : String) (value : V)
      → lookup key (insert value_key value d)
        ≡ (if value_key == key then some value else lookup key d)
  unfolding lookup insert
  lookup-insert [] key at value = refl
  lookup-insert (entry ∷ rest) key at value =
      ground (
        arith,
        lookup-insert rest key at value,
        eq_iff entry.0 at,
        eq_iff entry.0 key,
        eq_iff at key,
      )

  -- `{key: value for ...}`: the entries are written one after the other.
  unfoldable pub write_all : Dict V → List (String × V) → Dict V
  write_all d [] = d
  write_all d (entry ∷ entries) = write_all (insert entry.0 entry.1 d) entries

  abbrev pub is_key : String → Dict V → Bool
  is_key key [] = false
  is_key key (entry ∷ rest) = entry.0 == key || is_key key rest

  -- No key is written twice.
  abbrev pub HasDistinctKeys : List (String × V) → Type 0
  HasDistinctKeys [] = Unit
  HasDistinctKeys (entry ∷ rest) = (is_key entry.0 rest ≡ false) × HasDistinctKeys rest

  insert_new :
      (d : Dict V) (key : String) (value : V)
      → is_key key d ≡ false
      → insert key value d ≡ d ++ (key, value) ∷ []
  unfolding insert
  insert_new [] key value h = refl
  insert_new (entry ∷ rest) key value h = ground (arith, insert_new rest key value)

  is_key-append :
      (d e : Dict V) (key : String) → is_key key (d ++ e) ≡ (is_key key d || is_key key e)
  is_key-append [] e key = refl
  is_key-append (entry ∷ rest) e key = ground (arith, is_key-append rest e key)

  -- No entry's key is among those of `d`.
  abbrev AllNew : Dict V → List (String × V) → Type 0
  AllNew d [] = Unit
  AllNew d (entry ∷ rest) = (is_key entry.0 d ≡ false) × AllNew d rest

  AllNew-append :
      (d : Dict V) (key : String) (value : V) (entries : List (String × V))
      → AllNew d entries
      → is_key key entries ≡ false
      → AllNew (d ++ (key, value) ∷ []) entries
  AllNew-append d key value [] h n = tt
  AllNew-append d key value (entry ∷ rest) h n = ground (
    arith,
    is_key-append d ((key, value) ∷ []) entry.0,
    AllNew-append d key value rest h.1,
    eq_iff key entry.0,
    eq_iff entry.0 key,
  )

  write_all-append :
      (d : Dict V) (entries : List (String × V))
      → AllNew d entries
      → HasDistinctKeys entries
      → write_all d entries ≡ d ++ entries
  unfolding write_all
  write_all-append d [] h n = sym (append-nil d)
  write_all-append d (entry ∷ rest) h n =
      ap (λ e. write_all e rest) (insert_new d entry.0 entry.1 h.0)
      ∙ write_all-append (d ++ (entry.0, entry.1) ∷ []) rest
          (AllNew-append d entry.0 entry.1 rest h.1 n.0) n.1
      ∙ append_assoc d ((entry.0, entry.1) ∷ []) rest

  AllNew-nil : (entries : List (String × V)) → AllNew [] entries
  AllNew-nil [] = tt
  AllNew-nil (entry ∷ rest) = (refl, AllNew-nil rest)

  pub write_all-distinct :
      (entries : List (String × V)) → HasDistinctKeys entries → write_all [] entries ≡ entries
  write_all-distinct entries n = write_all-append [] entries (AllNew-nil entries) n

-- The characters that `str.strip` takes off.
is_space : ℕ → Bool
is_space c =
    (leb 9 c && leb c 13)
    || (leb 28 c && leb c 32)
    || eqb c 133
    || eqb c 160
    || eqb c 5760
    || (leb 8192 c && leb c 8202)
    || eqb c 8232
    || eqb c 8233
    || eqb c 8239
    || eqb c 8287
    || eqb c 12_288

-- `not s.strip()`
unfoldable pub is_blank : String → Bool
unfolding is_space
is_blank s = all is_space (codes s)

-- `s.lstrip()`, `s.rstrip()` and `s.strip()`
unfoldable pub lstrip : String → String
unfolding is_space
lstrip String.[] = String.[]
lstrip (String.◌∷◌ c s) = let rest = lstrip s in if is_space (code c) then rest else String.◌∷◌ c s

abbrev pub is_empty_text : String → Bool
is_empty_text String.[] = true
is_empty_text (String.◌∷◌ c s) = false

unfoldable pub rstrip : String → String
unfolding is_space
rstrip String.[] = String.[]
rstrip (String.◌∷◌ c s) =
    let rest = rstrip s in
    if is_empty_text rest && is_space (code c) then String.[] else String.◌∷◌ c rest

unfoldable pub strip : String → String
unfolding lstrip rstrip
strip s = rstrip (lstrip s)

-- `s[:n]`
unfoldable pub take_text : ℕ → String → String
take_text zero s = String.[]
take_text (suc n) String.[] = String.[]
take_text (suc n) (String.◌∷◌ c s) = String.◌∷◌ c (take_text n s)
