-- ===== src/Repositories/Outbox/Lease.antt =====
-- repositories/outbox.py: what other consumers and processed events leave as it is.
use mini_ai_cloud.Prelude.{
  ℕ, ◌≤◌, ◌≡◌, true, false, some, List, [], ◌∷◌, ◌==◌, is_some, All, All-map, All-of, arith,
}
use mini_ai_cloud.Repositories.Outbox.Events.{
  OutboxEvent, is_pending, get_event, is_stale, Action, claims, reports_processed, reports_failed,
  Call, act, run, run_all,
}
use mini_ai_cloud.Repositories.Outbox.Rows.{HasDistinctIds, IsTheRow, the_row}
use mini_ai_cloud.Repositories.Outbox.Untouched.{
  claim-IsTheRow, processed-IsTheRow, failed-IsTheRow,
}

-- A call that finds the row neither pending nor its own.
abbrev IsOutside : OutboxEvent → Call → Type 0
IsOutside e c = (is_pending c.now e ≡ false) × (is_stale e c.owner ≡ true)

act-IsTheRow :
    (e : OutboxEvent) (owner now : ℕ) (a : Action) (table : List OutboxEvent)
    → is_pending now e ≡ false
    → is_stale e owner ≡ true
    → IsTheRow e table
    → IsTheRow e (act owner now a table)
act-IsTheRow e owner now (claims busy limit lock_time) table late stale h =
    claim-IsTheRow busy owner limit lock_time now e table late h
act-IsTheRow e owner now (reports_processed i) table late stale h =
    processed-IsTheRow e i owner now table stale h
act-IsTheRow e owner now (reports_failed i error max_backoff) table late stale h =
    failed-IsTheRow e i owner error max_backoff now table stale h

run_all-IsTheRow :
    (e : OutboxEvent) (calls : List Call) (table : List OutboxEvent)
    → All (IsOutside e) calls
    → IsTheRow e table
    → IsTheRow e (run_all calls table)
run_all-IsTheRow e [] table outside h = h
run_all-IsTheRow e (c ∷ calls) table outside h =
    run_all-IsTheRow e calls (run c table) outside.1
      (act-IsTheRow e c.owner c.now c.action table outside.0.0 outside.0.1 h)

processed-late :
    (e : OutboxEvent) (now : ℕ) → is_some e.processed_at ≡ true → is_pending now e ≡ false
processed-late e now h = ground (arith, h)

locked-late :
    (e : OutboxEvent) (until now : ℕ)
    → e.locked_until ≡ some until
    → now ≤ until
    → is_pending now e ≡ false
locked-late e until now lease h = rw lease (ground arith)

locked-stale :
    (e : OutboxEvent) (owner other : ℕ)
    → e.locked_by ≡ some owner
    → (owner == other) ≡ false
    → is_stale e other ≡ true
locked-stale e owner other by h = rw by (ground arith)

-- In a table whose IDs are distinct, an event that is processed stays in the table as it is over
-- any calls, of any consumers and at any times.
pub run_all-processed :
    (table : List OutboxEvent) (e : OutboxEvent) (calls : List Call)
    → HasDistinctIds table
    → get_event e.id table ≡ some e
    → is_some e.processed_at ≡ true
    → get_event e.id (run_all calls table) ≡ some e
run_all-processed table e calls distinct there done =
    (run_all-IsTheRow e calls table
      (All-of (IsOutside e) (λ c. (processed-late e c.now done, ground (arith, done))) calls)
      (there, the_row e table distinct there)).0

-- In a table whose IDs are distinct, an event that a consumer has locked until a time stays in the
-- table as it is over any calls of other consumers that are made no later than that time.
pub run_all-locked :
    (table : List OutboxEvent) (e : OutboxEvent) (owner until : ℕ) (calls : List Call)
    → HasDistinctIds table
    → get_event e.id table ≡ some e
    → e.locked_by ≡ some owner
    → e.locked_until ≡ some until
    → All (λ c. ((owner == c.owner) ≡ false) × (c.now ≤ until)) calls
    → get_event e.id (run_all calls table) ≡ some e
run_all-locked table e owner until calls distinct there by lease others_call =
    (run_all-IsTheRow e calls table
      (All-map (λ c. ((owner == c.owner) ≡ false) × (c.now ≤ until)) (IsOutside e) calls
        (λ c h. (locked-late e until c.now lease h.1, locked-stale e owner c.owner by h.0))
        others_call)
      (there, the_row e table distinct there)).0
