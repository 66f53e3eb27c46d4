-- ===== src/Repositories/Outbox/Untouched.antt =====
-- repositories/outbox.py: the rows that one call leaves as they are.
use mini_ai_cloud.Prelude.{
  ℕ, ◌+◌, ◌≡◌, refl, sym, ap, ◌∙◌, inl, inr, Bool, true, false, not, ◌&&◌, some, List, [], ◌∷◌,
  ◌==◌, if◌then◌else◌, All, All-keep, All-keep_test, All-take, All-map, ==_iff, &&_parts,
  Bool-cases, Option-cases, arith,
}
use mini_ai_cloud.Prelude.Sort.{sort-All}
use mini_ai_cloud.Prelude.Text.{String}
use mini_ai_cloud.Repositories.Outbox.Events.{
  OutboxEvent, is_pending, by_creation, waiting, pending_query, has_id, lock, claim_batch,
  get_event, write_event, is_stale, processed, mark_processed, failed, mark_failed,
}
use mini_ai_cloud.Repositories.Outbox.Rows.{IsTheRow, map-IsTheRow, get_event-id}

clash : true ≡ false → ⊥
clash h = cc

-- A row with another ID than those of the pending rows is not claimed.
unclaimed :
    (e : OutboxEvent) (now : ℕ) (events : List OutboxEvent)
    → is_pending now e ≡ false
    → All (λ x. is_pending now x ≡ true) events
    → All (λ x. x.id ≡ e.id → x ≡ e) events
    → has_id e.id events ≡ false
unclaimed e now [] h pending only = refl
unclaimed e now (x ∷ rest) h pending only = elim (Bool-cases (x.id == e.id)) [
  | inl hit ↦
      absurd (clash (sym pending.0 ∙ ap (is_pending now) (only.0 ((==_iff x.id e.id).0 hit)) ∙ h))
  | inr miss ↦ ground (arith, unclaimed e now rest h pending.1 only.1)
]

pub if_id : (b : Bool) (x y : OutboxEvent) → x.id ≡ y.id → (if b then x else y).id ≡ y.id
if_id true x y h = h
if_id false x y h = refl

if_false : (b : Bool) (x y : OutboxEvent) → b ≡ false → (if b then x else y) ≡ y
if_false true x y h = cc
if_false false x y h = refl

written_id : (x row : OutboxEvent) → (if x.id == row.id then row else x).id ≡ x.id
written_id x row = elim (Bool-cases (x.id == row.id)) [
  | inl hit ↦ rw hit (sym ((==_iff x.id row.id).0 hit))
  | inr miss ↦ rw miss refl
]

pending_only :
    (busy : ℕ → Bool) (limit now : ℕ) (table : List OutboxEvent)
    → All (λ x. is_pending now x ≡ true) (pending_query busy limit now table)
unfolding pending_query
pending_only busy limit now table =
    All-take (λ x. is_pending now x ≡ true) limit _
      (sort-All by_creation (λ x. is_pending now x ≡ true) (waiting busy now table)
        (All-map (λ x. (is_pending now x && not (busy x.id)) ≡ true) (λ x. is_pending now x ≡ true)
          _ (λ x h. (&&_parts _ _ h).0)
          (All-keep_test (λ x. is_pending now x && not (busy x.id)) table)))

only_row :
    (e : OutboxEvent) (busy : ℕ → Bool) (limit now : ℕ) (table : List OutboxEvent)
    → All (λ x. x.id ≡ e.id → x ≡ e) table
    → All (λ x. x.id ≡ e.id → x ≡ e) (pending_query busy limit now table)
unfolding pending_query
only_row e busy limit now table h =
    All-take (λ x. x.id ≡ e.id → x ≡ e) limit _
      (sort-All by_creation (λ x. x.id ≡ e.id → x ≡ e) (waiting busy now table)
        (All-keep (λ x. x.id ≡ e.id → x ≡ e) (λ x. is_pending now x && not (busy x.id)) table h))

pub claim-IsTheRow :
    (busy : ℕ → Bool) (owner limit lock_time now : ℕ) (e : OutboxEvent) (table : List OutboxEvent)
    → is_pending now e ≡ false
    → IsTheRow e table
    → IsTheRow e (claim_batch busy owner limit lock_time now table).1
unfolding claim_batch
claim-IsTheRow busy owner limit lock_time now e table h row =
    map-IsTheRow
      (λ x.
        if has_id x.id (pending_query busy limit now table)
        then lock owner (now + lock_time) x
        else x)
      e table
      (λ x.
        if_id (has_id x.id (pending_query busy limit now table)) (lock owner (now + lock_time) x) x
          refl)
      (if_false (has_id e.id (pending_query busy limit now table)) _ e (
        unclaimed e now (pending_query busy limit now table) h (pending_only busy limit now table)
          (only_row e busy limit now table row.1)))
      row

write-IsTheRow :
    (e row : OutboxEvent) (table : List OutboxEvent)
    → (e.id == row.id) ≡ false
    → IsTheRow e table
    → IsTheRow e (write_event row table)
write-IsTheRow e row table h =
    map-IsTheRow (λ x. if x.id == row.id then row else x) e table (λ x. written_id x row)
      (if_false (e.id == row.id) row e h)

stale_clash :
    {e x : OutboxEvent} (owner : ℕ)
    → some e ≡ some x
    → is_stale x owner ≡ false
    → is_stale e owner ≡ true
    → ⊥
stale_clash owner p h k = cc

-- A report that is not stale writes another row than `e`, for which it would be.
report-IsTheRow :
    (e x row : OutboxEvent) (i owner : ℕ) (table : List OutboxEvent)
    → get_event i table ≡ some x
    → row.id ≡ x.id
    → is_stale x owner ≡ false
    → is_stale e owner ≡ true
    → IsTheRow e table
    → IsTheRow e (write_event row table)
report-IsTheRow e x row i owner table got id fresh stale h = elim (Bool-cases (e.id == row.id)) [
  | inl hit ↦ absurd (
      stale_clash owner
        (sym h.0
          ∙ ap (λ n. get_event n table) ((==_iff e.id row.id).0 hit ∙ id ∙ get_event-id i table got)
          ∙ got)
        fresh stale)
  | inr miss ↦ write-IsTheRow e row table miss h
]

pub processed-IsTheRow :
    (e : OutboxEvent) (i owner now : ℕ) (table : List OutboxEvent)
    → is_stale e owner ≡ true
    → IsTheRow e table
    → IsTheRow e (mark_processed i owner now table).1
unfolding mark_processed
processed-IsTheRow e i owner now table stale h = elim (Option-cases (get_event i table)) [
  | inl missing ↦ rw (missing, mark_processed) h
  | inr (x, got) ↦ elim (Bool-cases (is_stale x owner)) [
    | inl over ↦ rw (got, mark_processed) (rw over h)
    | inr fresh ↦
        rw (got, mark_processed)
          (rw fresh (report-IsTheRow e x (processed now x) i owner table got refl fresh stale h))
  ]
]

pub failed-IsTheRow :
    (e : OutboxEvent) (i owner : ℕ) (error : String) (max_backoff now : ℕ)
    (table : List OutboxEvent)
    → is_stale e owner ≡ true
    → IsTheRow e table
    → IsTheRow e (mark_failed i owner error max_backoff now table)
unfolding mark_failed
failed-IsTheRow e i owner error max_backoff now table stale h =
    elim (Option-cases (get_event i table)) [
      | inl missing ↦ rw (missing, mark_failed) h
      | inr (x, got) ↦ elim (Bool-cases (is_stale x owner)) [
        | inl over ↦ rw (got, mark_failed) (rw over h)
        | inr fresh ↦
            rw (got, mark_failed)
              (rw fresh (
                report-IsTheRow e x (failed error max_backoff now x) i owner table got refl fresh
                  stale h))
      ]
    ]
