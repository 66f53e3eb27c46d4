-- ===== src/Repositories/Tasks/History.antt =====
-- repositories/tasks.py: what every change to a task keeps true of its row and of its events.
use mini_ai_cloud.Prelude.{
  ℕ, ◌+◌, ◌-◌, ◌≤◌, ◌≡◌, refl, sym, ap, ◌∙◌, subst, inl, inr, true, none, some, List, [], ◌∷◌,
  is_some, ok, ok_parts, ok_injective, Bool-cases, arith,
}
use mini_ai_cloud.Prelude.Text.{String}
use mini_ai_cloud.Prelude.Floats.{Floats}
use mini_ai_cloud.Core.Enums.{TaskStatus, is_in, is_final, same_status}
use mini_ai_cloud.Core.StateMachine.{can_transition, ensure_transition}
use mini_ai_cloud.Core.StateMachine.Runs.{ensure_transition_iff, final_retries}
use mini_ai_cloud.Repositories.Tasks.Model.{
  lifted-ok, TaskEvent, invalid_transition, lifted, Task, Moved, stamp, event_of, transition,
}

-- The events of a task, the latest first, when its status is `status` and its version `version`:
-- each leads from the status of the one before it along the graph of the statuses, under a number
-- that is greater than those before.
unfoldable pub Chained : TaskStatus → ℕ → List TaskEvent → Type 0
Chained status version [] = Unit
Chained status version (e ∷ es) =
    (e.status ≡ status) × (e.sequence ≤ version) × (elim e.from_status [
      | none ↦ es ≡ []
      | some from ↦
          (can_transition from status ≡ true) × (1 ≤ e.sequence) × Chained from (e.sequence - 1) es
    ])

Chained-later :
    (s : TaskStatus) (v w : ℕ) (es : List TaskEvent) → v ≤ w → Chained s v es → Chained s w es
unfolding Chained
Chained-later s v w [] h k = tt
Chained-later s v w (e ∷ es) h k = (k.0, omega (arith, h, k.1), k.2)

module _ (fl : Floats) where
  -- The row says when the task ended exactly while its status is a final one.
  abbrev pub Stamped : Task fl → Type 0
  Stamped t = is_some t.finished_at ≡ is_final t.status

  pub record Kept (t : Task fl) (events : List TaskEvent) : Type 0 where
    pub stamped : Stamped t
    pub chained : Chained t.status t.version events

  allowed_edge :
      (t : Task fl) (target : TaskStatus)
      → ensure_transition t.status target ≡ ok tt
      → can_transition t.status target ≡ true
  allowed_edge t target h = ground (arith, ensure_transition_iff t.status target)

  stamp-Stamped :
      (t : Task fl) (target : TaskStatus) (now : ℕ)
      → Stamped t
      → can_transition t.status target ≡ true
      → is_some
          (stamp fl (record t { status = target; version = t.version + 1 }) target now).finished_at
        ≡ is_final target
  unfolding stamp is_final is_in same_status can_transition
  stamp-Stamped t target now h k = elim (Bool-cases (is_final t.status)) [
    | inl final ↦ ground (arith, final_retries t.status target final k)
    | inr other ↦ ground arith
  ]

  pub stamp_same :
      (t : Task fl) (target : TaskStatus) (now : ℕ)
      → ((stamp fl t target now).status ≡ t.status) × ((stamp fl t target now).version ≡ t.version)
  unfolding stamp
  stamp_same t target now = ground arith

  moved-Kept :
      (t : Task fl) (events : List TaskEvent) (target : TaskStatus) (now : ℕ) (name : String)
      → Kept t events
      → can_transition t.status target ≡ true
      → Kept
          (stamp fl (record t { status = target; version = t.version + 1 }) target now)
          (event_of fl t target now name ∷ events)
  unfolding event_of Chained
  moved-Kept t events target now name kept edge =
      let after = record t { status = target; version = t.version + 1 } in
      let (status, version) = stamp_same after target now in
      let es = event_of fl t target now name ∷ events in
      let earlier =
        Chained-later t.status t.version (t.version + 1 - 1) events (omega arith) kept.chained in
      let base : Chained target (t.version + 1) es =
        (refl, omega arith, (edge, omega arith, earlier)) in
      record {
        stamped = stamp-Stamped t target now kept.stamped edge ∙ ap is_final (sym status);
        chained =
            subst (λ s. Chained s (stamp fl after target now).version es) (sym status)
              (Chained-later target (t.version + 1) (stamp fl after target now).version es
                (omega (arith, version)) base);
      }

  -- `_transition` goes along an edge of the graph, and keeps what a row and its events say.
  pub transition-Kept :
      (t : Task fl) (events : List TaskEvent) (target : TaskStatus) (now : ℕ) (name : String)
      {m : Moved fl}
      → Kept t events
      → transition fl t events target now name ≡ ok m
      → Kept m.task m.events
  unfolding transition
  transition-Kept t events target now name {m} kept h =
      let (u, allowed, same) =
        ok_parts (lifted invalid_transition (ensure_transition t.status target)) _ h in
      let edge =
        allowed_edge t target
          (lifted-ok invalid_transition (ensure_transition t.status target) allowed) in
      subst (λ (m : Moved fl). Kept m.task m.events) (ok_injective same)
        (moved-Kept t events target now name kept edge)

  pub transition-status :
      (t : Task fl) (events : List TaskEvent) (target : TaskStatus) (now : ℕ) (name : String)
      {m : Moved fl}
      → transition fl t events target now name ≡ ok m
      → m.task.status ≡ target
  unfolding transition
  transition-status t events target now name {m} h =
      let (u, allowed, same) =
        ok_parts (lifted invalid_transition (ensure_transition t.status target)) _ h in
      sym (ap (λ (m : Moved fl). m.task.status) (ok_injective same))
      ∙ (stamp_same (record t { status = target; version = t.version + 1 }) target now).0

  -- A change that leaves the status and the end of the task, and does not lower its version.
  pub same_Kept :
      (t u : Task fl) (events : List TaskEvent)
      → u.status ≡ t.status
      → u.finished_at ≡ t.finished_at
      → t.version ≤ u.version
      → Kept t events
      → Kept u events
  same_Kept t u events status finished version kept = record {
    stamped = ap is_some finished ∙ kept.stamped ∙ ap is_final (sym status);
    chained =
        subst (λ s. Chained s u.version events) (sym status)
          (Chained-later t.status t.version u.version events version kept.chained);
  }
