-- ===== src/Repositories/Outbox/Events.antt =====
-- repositories/outbox.py: the operations on the table of events. Times are whole microseconds of
-- the database's clock, and `busy` says which rows another transaction has locked.
use mini_ai_cloud.Prelude.{
  ℕ, ◌+◌, ◌-◌, ◌*◌, ◌^◌, min, Bool, true, false, not, ◌&&◌, ◌||◌, Option, none, some, List, [], ◌∷◌,
  map, any, keep, take, ◌==◌, leb, ltb, if◌then◌else◌, is_some, is_none,
}
use mini_ai_cloud.Prelude.Order.{Order, on, by_nat}
use mini_ai_cloud.Prelude.Sort.{sort}
use mini_ai_cloud.Prelude.Text.{String, take_text}

-- The columns that the queue reads or writes.
pub record OutboxEvent : Type 0 where
  pub id : ℕ
  pub created_at : ℕ
  pub available_at : ℕ
  pub processed_at : Option ℕ
  pub locked_by : Option ℕ
  pub locked_until : Option ℕ
  pub attempts : ℕ
  pub last_error : Option String

-- `locked_until IS NULL OR locked_until < now`
abbrev pub is_unlocked : Option ℕ → ℕ → Bool
is_unlocked none now = true
is_unlocked (some until) now = ltb until now

abbrev pub is_pending : ℕ → OutboxEvent → Bool
is_pending now e =
    is_none e.processed_at && leb e.available_at now && is_unlocked e.locked_until now

abbrev pub by_creation : Order OutboxEvent
by_creation = on (λ e. e.created_at) by_nat

-- What the query may return: pending, and locked by no other transaction.
abbrev pub waiting : (ℕ → Bool) → ℕ → List OutboxEvent → List OutboxEvent
waiting busy now table = keep (λ e. is_pending now e && not (busy e.id)) table

unfoldable pub pending_query : (ℕ → Bool) → ℕ → ℕ → List OutboxEvent → List OutboxEvent
unfolding sort
pending_query busy limit now table = take limit (sort by_creation (waiting busy now table))

abbrev pub has_id : ℕ → List OutboxEvent → Bool
has_id i events = any (λ e. e.id == i) events

abbrev pub lock : ℕ → ℕ → OutboxEvent → OutboxEvent
lock owner until e = record e { locked_by = some owner; locked_until = some until }

-- The events that are claimed, and the table after that.
unfoldable pub claim_batch :
    (ℕ → Bool) → ℕ → ℕ → ℕ → ℕ → List OutboxEvent → List OutboxEvent × List OutboxEvent
unfolding pending_query
claim_batch busy owner limit lock_time now table =
    let events = pending_query busy limit now table in
    (
      map (lock owner (now + lock_time)) events,
      map (λ e. if has_id e.id events then lock owner (now + lock_time) e else e) table,
    )

-- `session.get`
abbrev pub get_event : ℕ → List OutboxEvent → Option OutboxEvent
get_event i [] = none
get_event i (e ∷ rest) = if e.id == i then some e else get_event i rest

-- The row is written back under its key.
abbrev pub write_event : OutboxEvent → List OutboxEvent → List OutboxEvent
write_event row table = map (λ e. if e.id == row.id then row else e) table

abbrev pub is_owner : Option ℕ → ℕ → Bool
is_owner none owner = false
is_owner (some by) owner = by == owner

-- Whether a report of `owner` on the event is passed over.
abbrev pub is_stale : OutboxEvent → ℕ → Bool
is_stale e owner = is_some e.processed_at || not (is_owner e.locked_by owner)

abbrev pub processed : ℕ → OutboxEvent → OutboxEvent
processed now e = record e {
  processed_at = some now;
  locked_by = none;
  locked_until = none;
  last_error = none;
}

unfoldable pub mark_processed : ℕ → ℕ → ℕ → List OutboxEvent → Option OutboxEvent × List OutboxEvent
mark_processed event_id owner now table = elim (get_event event_id table) [
  | none ↦ (none, table)
  | some e ↦
      if is_stale e owner
      then (none, table)
      else (some (processed now e), write_event (processed now e) table)
]

-- The seconds 1, 2, 4, … to 1024, or the greatest delay, in microseconds.
unfoldable pub backoff : ℕ → ℕ → ℕ
backoff attempts max_backoff = min (2 ^ min (attempts - 1) 10 * 1_000_000) max_backoff

unfoldable pub failed : String → ℕ → ℕ → OutboxEvent → OutboxEvent
unfolding take_text backoff
failed error max_backoff now e = record e {
  attempts = e.attempts + 1;
  available_at = now + backoff (e.attempts + 1) max_backoff;
  last_error = some (take_text 4000 error);
  locked_by = none;
  locked_until = none;
}

unfoldable pub mark_failed : ℕ → ℕ → String → ℕ → ℕ → List OutboxEvent → List OutboxEvent
unfolding failed
mark_failed event_id owner error max_backoff now table = elim (get_event event_id table) [
  | none ↦ table
  | some e ↦ if is_stale e owner then table else write_event (failed error max_backoff now e) table
]

-- A call on the table, with the consumer that makes it and the time of its transaction.
pub data Action : Type 0 where
  claims : (ℕ → Bool) → ℕ → ℕ → Action
  reports_processed : ℕ → Action
  reports_failed : ℕ → String → ℕ → Action

pub record Call : Type 0 where
  pub owner : ℕ
  pub now : ℕ
  pub action : Action

abbrev pub act : ℕ → ℕ → Action → List OutboxEvent → List OutboxEvent
act owner now (claims busy limit lock_time) table =
    (claim_batch busy owner limit lock_time now table).1
act owner now (reports_processed event_id) table = (mark_processed event_id owner now table).1
act owner now (reports_failed event_id error max_backoff) table =
    mark_failed event_id owner error max_backoff now table

abbrev pub run : Call → List OutboxEvent → List OutboxEvent
run c table = act c.owner c.now c.action table

abbrev pub run_all : List Call → List OutboxEvent → List OutboxEvent
run_all [] table = table
run_all (c ∷ calls) table = run_all calls (run c table)
