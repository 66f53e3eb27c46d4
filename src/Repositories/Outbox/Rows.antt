-- ===== src/Repositories/Outbox/Rows.antt =====
-- repositories/outbox.py: the row that an ID is the key of, and passes over the table.
use mini_ai_cloud.Prelude.{
  found, passed, ℕ, ◌≡◌, sym, ap, ◌∙◌, subst, inl, inr, false, some, List, [], ◌∷◌, map, ◌==◌, All,
  All-map, ==_iff, Bool-cases, arith,
}
use mini_ai_cloud.Repositories.Outbox.Events.{OutboxEvent, get_event}

-- The primary key: no ID is that of two rows.
abbrev pub HasDistinctIds : List OutboxEvent → Type 0
HasDistinctIds [] = Unit
HasDistinctIds (e ∷ rest) = All (λ x. (x.id == e.id) ≡ false) rest × HasDistinctIds rest

-- The row `e` is in the table, and is the only one with its ID.
abbrev pub IsTheRow : OutboxEvent → List OutboxEvent → Type 0
IsTheRow e table = (get_event e.id table ≡ some e) × All (λ x. x.id ≡ e.id → x ≡ e) table

pub others :
    (e : OutboxEvent) (rest : List OutboxEvent)
    → All (λ x. (x.id == e.id) ≡ false) rest
    → All (λ x. x.id ≡ e.id → x ≡ e) rest
others e rest h =
    All-map (λ x. (x.id == e.id) ≡ false) (λ x. x.id ≡ e.id → x ≡ e) rest
      (λ x p q. absurd (ground (arith, ==_iff x.id e.id))) h

pub the_row :
    (e : OutboxEvent) (table : List OutboxEvent)
    → HasDistinctIds table
    → get_event e.id table ≡ some e
    → All (λ x. x.id ≡ e.id → x ≡ e) table
the_row e [] distinct h = tt
the_row e (x ∷ rest) distinct h = elim (Bool-cases (x.id == e.id)) [
  | inl hit ↦
      let same = found x e (get_event e.id rest) (x.id == e.id) hit h in
      (
        (λ p. same),
        others e rest
            (subst (λ (y : OutboxEvent). All (λ z. (z.id == y.id) ≡ false) rest) same distinct.0),
      )
  | inr miss ↦ (
    (λ p. absurd (ground (arith, ==_iff x.id e.id))),
    the_row e rest distinct.1 (passed x e (get_event e.id rest) (x.id == e.id) miss h),
  )
]

pub map-get_event :
    (f : OutboxEvent → OutboxEvent) (i : ℕ) (e : OutboxEvent) (table : List OutboxEvent)
    → ((x : OutboxEvent) → (f x).id ≡ x.id)
    → get_event i table ≡ some e
    → get_event i (map f table) ≡ some (f e)
map-get_event f i e [] ids h = cc
map-get_event f i e (x ∷ rest) ids h = elim (Bool-cases (x.id == i)) [
  | inl hit ↦
      rw (ap (λ n. n == i) (ids x) ∙ hit)
        (ap (λ y. some (f y)) (found x e (get_event i rest) (x.id == i) hit h))
  | inr miss ↦
      rw (ap (λ n. n == i) (ids x) ∙ miss)
        (map-get_event f i e rest ids (passed x e (get_event i rest) (x.id == i) miss h))
]

pub map-others :
    (f : OutboxEvent → OutboxEvent) (e : OutboxEvent) (table : List OutboxEvent)
    → ((x : OutboxEvent) → (f x).id ≡ x.id)
    → f e ≡ e
    → All (λ x. x.id ≡ e.id → x ≡ e) table
    → All (λ x. x.id ≡ e.id → x ≡ e) (map f table)
map-others f e [] ids same h = tt
map-others f e (x ∷ rest) ids same h =
    (λ p. ap f (h.0 (sym (ids x) ∙ p)) ∙ same, map-others f e rest ids same h.1)

-- A pass over the rows that keeps their IDs and leaves the row `e` as it is.
pub map-IsTheRow :
    (f : OutboxEvent → OutboxEvent) (e : OutboxEvent) (table : List OutboxEvent)
    → ((x : OutboxEvent) → (f x).id ≡ x.id)
    → f e ≡ e
    → IsTheRow e table
    → IsTheRow e (map f table)
map-IsTheRow f e table ids same h =
    (map-get_event f e.id e table ids h.0 ∙ ap some same, map-others f e table ids same h.1)

pub get_event-id :
    (i : ℕ) (table : List OutboxEvent) {x : OutboxEvent} → get_event i table ≡ some x → x.id ≡ i
get_event-id i [] h = cc
get_event-id i (y ∷ rest) {x} h = elim (Bool-cases (y.id == i)) [
  | inl hit ↦
      subst (λ (z : OutboxEvent). z.id ≡ i) (found y x (get_event i rest) (y.id == i) hit h)
        ((==_iff y.id i).0 hit)
  | inr miss ↦ get_event-id i rest (passed y x (get_event i rest) (y.id == i) miss h)
]
