-- ===== src/Repositories/Outbox/Claims.antt =====
-- repositories/outbox.py: what a consumer that claims events can rely on.
use mini_ai_cloud.Prelude.{
  ℕ, ◌+◌, ◌≤◌, ◌≡◌, refl, ap, ◌∙◌, inl, inr, Bool, true, false, ◌&&◌, not, some, List, [], ◌∷◌, map,
  ◌==◌, if◌then◌else◌, All, All-keep, All-take, All-map, All-zip, ==_iff, Bool-cases, arith,
}
use mini_ai_cloud.Prelude.Sort.{sort-All}
use mini_ai_cloud.Repositories.Outbox.Events.{
  OutboxEvent, is_pending, by_creation, waiting, pending_query, has_id, lock, claim_batch,
  get_event, Call, run_all,
}
use mini_ai_cloud.Repositories.Outbox.Rows.{HasDistinctIds, map-get_event}
use mini_ai_cloud.Repositories.Outbox.Lease.{run_all-locked}
use mini_ai_cloud.Repositories.Outbox.Untouched.{if_id}

present_later :
    (e x : OutboxEvent) (rest : List OutboxEvent)
    → (x.id == e.id) ≡ false
    → get_event x.id rest ≡ some x
    → get_event x.id (e ∷ rest) ≡ some x
present_later e x rest other h = elim (Bool-cases (e.id == x.id)) [
  | inl hit ↦ absurd (ground (arith, ==_iff e.id x.id, ==_iff x.id e.id))
  | inr miss ↦ rw miss h
]

rows_present :
    (table : List OutboxEvent)
    → HasDistinctIds table
    → All (λ x. get_event x.id table ≡ some x) table
rows_present [] h = tt
rows_present (e ∷ rest) h = (
  ground arith,
  All-map (λ x. ((x.id == e.id) ≡ false) × (get_event x.id rest ≡ some x))
      (λ x. get_event x.id (e ∷ rest) ≡ some x) rest (λ x k. present_later e x rest k.0 k.1)
      (All-zip (λ x. (x.id == e.id) ≡ false) (λ x. get_event x.id rest ≡ some x) rest h.0
        (rows_present rest h.1)),
)

has_own : (events : List OutboxEvent) → All (λ x. has_id x.id events ≡ true) events
has_own [] = tt
has_own (e ∷ rest) = (
  ground arith,
  All-map (λ x. has_id x.id rest ≡ true) (λ x. has_id x.id (e ∷ rest) ≡ true) rest
      (λ x h. ground arith) (has_own rest),
)

map-fresh :
    (f : OutboxEvent → OutboxEvent) (n : ℕ) (xs : List OutboxEvent)
    → ((x : OutboxEvent) → (f x).id ≡ x.id)
    → All (λ x. (x.id == n) ≡ false) xs
    → All (λ x. (x.id == n) ≡ false) (map f xs)
map-fresh f n [] ids h = tt
map-fresh f n (x ∷ xs) ids h = (ap (λ m. m == n) (ids x) ∙ h.0, map-fresh f n xs ids h.1)

map-HasDistinctIds :
    (f : OutboxEvent → OutboxEvent) (xs : List OutboxEvent)
    → ((x : OutboxEvent) → (f x).id ≡ x.id)
    → HasDistinctIds xs
    → HasDistinctIds (map f xs)
map-HasDistinctIds f [] ids h = tt
map-HasDistinctIds f (x ∷ xs) ids h = (
  map-fresh f (f x).id xs ids (
      All-map (λ y. (y.id == x.id) ≡ false) (λ y. (y.id == (f x).id) ≡ false) xs
        (λ y k. ap (λ m. y.id == m) (ids x) ∙ k) h.0),
  map-HasDistinctIds f xs ids h.1,
)

All-of_map :
    (P : OutboxEvent → Type 0) (f : OutboxEvent → OutboxEvent) (xs : List OutboxEvent)
    → All (λ x. P (f x)) xs
    → All P (map f xs)
All-of_map P f [] h = tt
All-of_map P f (x ∷ xs) h = (h.0, All-of_map P f xs h.1)

if_true : (b : Bool) (x y : OutboxEvent) → b ≡ true → (if b then x else y) ≡ x
if_true true x y h = refl
if_true false x y h = cc

-- The events that a query returns are the rows of their IDs.
query_rows :
    (busy : ℕ → Bool) (limit now : ℕ) (table : List OutboxEvent)
    → HasDistinctIds table
    → All (λ x. get_event x.id table ≡ some x) (pending_query busy limit now table)
unfolding pending_query
query_rows busy limit now table h =
    All-take (λ x. get_event x.id table ≡ some x) limit _
      (sort-All by_creation (λ x. get_event x.id table ≡ some x) (waiting busy now table)
        (All-keep (λ x. get_event x.id table ≡ some x) (λ x. is_pending now x && not (busy x.id))
          table (rows_present table h)))

-- In a table whose IDs are distinct, each event that a consumer claims is in the table as claimed
-- after the claim and any calls of other consumers that are made before the lease has run out.
pub claim_batch-leases :
    (busy : ℕ → Bool) (owner limit lock_time now : ℕ) (table : List OutboxEvent) (calls : List Call)
    → HasDistinctIds table
    → All (λ c. ((owner == c.owner) ≡ false) × (c.now ≤ now + lock_time)) calls
    → All
        (λ e.
          get_event e.id (run_all calls (claim_batch busy owner limit lock_time now table).1)
          ≡ some e)
        (claim_batch busy owner limit lock_time now table).0
unfolding claim_batch
claim_batch-leases busy owner limit lock_time now table calls distinct others =
    let events = pending_query busy limit now table in
    let f =
      (λ (x : OutboxEvent). if has_id x.id events then lock owner (now + lock_time) x else x) in
    let ids =
      (λ (x : OutboxEvent). if_id (has_id x.id events) (lock owner (now + lock_time) x) x refl) in
    All-of_map (λ e. get_event e.id (run_all calls (map f table)) ≡ some e)
      (lock owner (now + lock_time)) events
      (All-map (λ x. (get_event x.id table ≡ some x) × (has_id x.id events ≡ true))
        (λ x. get_event x.id (run_all calls (map f table)) ≡ some (lock owner (now + lock_time) x))
        events
        (λ x k.
          run_all-locked (map f table) (lock owner (now + lock_time) x) owner (now + lock_time)
            calls (map-HasDistinctIds f table ids distinct)
            (map-get_event f x.id x table ids k.0
              ∙ ap some (if_true (has_id x.id events) (lock owner (now + lock_time) x) x k.1))
            refl refl others)
        (All-zip (λ x. get_event x.id table ≡ some x) (λ x. has_id x.id events ≡ true) events
          (query_rows busy limit now table distinct) (has_own events)))
