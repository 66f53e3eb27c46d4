-- ===== src/Repositories/Outbox/Selection.antt =====
-- repositories/outbox.py: which events a query for pending ones returns.
use mini_ai_cloud.Prelude.{
  ℕ, zero, suc, ◌+◌, ◌&&◌, min, ◌≤◌, ◌<◌, ◌≡◌, subst, sym, inl, inr, Bool, true, false, not, none,
  some, List, [], ◌∷◌, ◌++◌, keep, length, take, drop, All, All-keep_test, take-append-drop,
  All-map, All-take, All-drop, Option-cases, Bool-cases, leb→le, arith,
}
use mini_ai_cloud.Prelude.Sort.{sort, sort-perm, sort-All, sort-IsSorted, IsSorted-take-drop}
use mathlib.Core.List.{Perm, append_assoc}
use mathlib.Core.List.Perm
use mini_ai_cloud.Repositories.Outbox.Events.{
  OutboxEvent, by_creation, is_pending, waiting, pending_query,
}

taken_many :
    {A : Type 0} (n : ℕ) (xs : List A)
    → length (take n xs) ≡ min n (length (take n xs) + length (drop n xs))
taken_many zero xs = omega arith
taken_many (suc n) [] = omega arith
taken_many (suc n) (x ∷ xs) = ground (arith, taken_many n xs)

-- What makes an event one that may be returned: it is not processed, it is due, no lease on it runs,
-- and no other transaction has locked its row.
pub record IsWaiting (busy : ℕ → Bool) (now : ℕ) (e : OutboxEvent) : Type 0 where
  pub unprocessed : e.processed_at ≡ none
  pub due : e.available_at ≤ now
  pub unleased : (until : ℕ) → e.locked_until ≡ some until → until < now
  pub free : busy e.id ≡ false

-- The events of the table are those `found`, those `left` that might have been returned too, and
-- others that might not; none of those left was created before one that is found.
pub record Selects (busy : ℕ → Bool) (limit now : ℕ) (table found : List OutboxEvent) : Type 0 where
  pub left : List OutboxEvent
  pub others : List OutboxEvent
  pub parts : Perm (found ++ (left ++ others)) table
  pub found_wait : All (IsWaiting busy now) found
  pub left_wait : All (IsWaiting busy now) left
  pub others_not : All (λ e. ¬ IsWaiting busy now e) others
  pub oldest : All (λ e. All (λ f. e.created_at ≤ f.created_at) left) found
  pub many : length found ≡ min limit (length found + length left)

perm_middle : {A : Type 0} (x : A) (xs ys : List A) → Perm (xs ++ x ∷ ys) (x ∷ (xs ++ ys))
perm_middle x [] ys = Perm.refl (x ∷ ys)
perm_middle x (y ∷ xs) ys =
    Perm.trans (Perm.cons y (perm_middle x xs ys)) (Perm.swap x y (xs ++ ys))

keep-perm :
    {A : Type 0} (test : A → Bool) (xs : List A)
    → Perm (keep test xs ++ keep (λ x. not (test x)) xs) xs
keep-perm test [] = Perm.refl []
keep-perm test (x ∷ xs) = elim (Bool-cases (test x)) [
  | inl passed ↦ rw passed (Perm.cons x (keep-perm test xs))
  | inr failed ↦ rw failed (
      Perm.trans (perm_middle x (keep test xs) (keep (λ y. not (test y)) xs))
        (Perm.cons x (keep-perm test xs)))
]

module _ (busy : ℕ → Bool) (now : ℕ) where
  abbrev may_return : OutboxEvent → Bool
  may_return e = is_pending now e && not (busy e.id)

  may_return-IsWaiting : (e : OutboxEvent) → may_return e ≡ true → IsWaiting busy now e
  may_return-IsWaiting e h = record {
    unprocessed = ground arith;
    due = ground arith;
    unleased = λ until leased. ground (arith, leased);
    free = ground arith;
  }

  IsWaiting-may_return : (e : OutboxEvent) → IsWaiting busy now e → may_return e ≡ true
  IsWaiting-may_return e h = elim (Option-cases e.locked_until) [
    | inl unlocked ↦ ground (arith, h.unprocessed, h.due, h.free, unlocked)
    | inr (until, leased) ↦
        ground (arith, h.unprocessed, h.due, h.free, leased, h.unleased until leased)
  ]

  other-waits : (e : OutboxEvent) → not (may_return e) ≡ true → ¬ IsWaiting busy now e
  other-waits e h w = absurd (ground (arith, h, IsWaiting-may_return e w))

  module _ (limit : ℕ) (table : List OutboxEvent) where
    abbrev sorted : List OutboxEvent
    sorted = sort by_creation (waiting busy now table)

    sorted_wait : All (IsWaiting busy now) sorted
    sorted_wait = sort-All by_creation (IsWaiting busy now) (waiting busy now table) (
        All-map (λ e. may_return e ≡ true) (IsWaiting busy now) (waiting busy now table)
          may_return-IsWaiting (All-keep_test may_return table))

    abbrev the_others : List OutboxEvent
    the_others = keep (λ e. not (may_return e)) table

    all_parts : Perm (take limit sorted ++ (drop limit sorted ++ the_others)) table
    all_parts =
        subst (λ xs. Perm xs table)
          (append_assoc (take limit sorted) (drop limit sorted) the_others)
          (subst (λ xs. Perm (xs ++ the_others) table) (sym (take-append-drop limit sorted))
            (Perm.trans
              (Perm.append_right the_others (sort-perm by_creation (waiting busy now table)))
              (keep-perm may_return table)))

-- The events that are returned, some that are left and some others make up the table: those returned
-- and those left are unprocessed, due, under no lease that still runs, and locked by no other
-- transaction, which none of the others are; none of those left was created before one returned; and
-- as many are returned as there are of both, up to the limit.
pub pending_query-oldest :
    (busy : ℕ → Bool) (limit now : ℕ) (table : List OutboxEvent)
    → Selects busy limit now table (pending_query busy limit now table)
unfolding pending_query
pending_query-oldest busy limit now table =
    let xs = sort by_creation (waiting busy now table) in
    record {
      left = drop limit xs;
      others = the_others busy now limit table;
      parts = all_parts busy now limit table;
      found_wait = All-take (IsWaiting busy now) limit xs (sorted_wait busy now limit table);
      left_wait = All-drop (IsWaiting busy now) limit xs (sorted_wait busy now limit table);
      others_not =
          All-map (λ e. not (may_return busy now e) ≡ true) (λ e. ¬ IsWaiting busy now e)
            (the_others busy now limit table) (other-waits busy now)
            (All-keep_test (λ e. not (may_return busy now e)) table);
      oldest =
          All-map (λ e. All (λ f. by_creation.le e f ≡ true) (drop limit xs))
            (λ e. All (λ f. e.created_at ≤ f.created_at) (drop limit xs)) (take limit xs)
            (λ e h.
              All-map (λ f. by_creation.le e f ≡ true) (λ f. e.created_at ≤ f.created_at)
                (drop limit xs) (λ f. leb→le e.created_at f.created_at) h)
            (IsSorted-take-drop by_creation limit xs
              (sort-IsSorted by_creation (waiting busy now table)));
      many = taken_many limit xs;
    }
