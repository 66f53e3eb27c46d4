-- ===== src/Repositories/Reservations/Once.antt =====
-- repositories/reservations.py: an observation is written once.
use mini_ai_cloud.Prelude.{
  ℕ, ◌+◌, ◌≡◌, refl, sym, ap, ◌∙◌, subst, inl, inr, Bool, true, false, ◌&&◌, ◌||◌, Option, none,
  some, List, [], ◌∷◌, is_some, is_none, ok, ok_parts, ok_injective, either_ok, &&_parts,
  Bool-cases, Option-cases, arith,
}
use mini_ai_cloud.Prelude.Text.{String}
use text.Mathlib.TextEquality.{eq_iff}
use mini_ai_cloud.Repositories.Reservations.Observation.{
  Observed, ResourceReservation, TaskExecution, Rows, AllocationError, no_active_reservation,
  missing_execution, Observation, normalize_observation, get_active_for_execution, required,
  check_rows, same_ids, holds, observed_of, write_observation, record_observed_allocation,
}

-- The two rows of an execution whose observation `o` was recorded.
pub record Recorded (db : Rows) (o : Observation) : Type 0 where
  pub reservation : ResourceReservation
  pub execution : TaskExecution
  pub active : get_active_for_execution db ≡ some reservation
  pub present : db.execution ≡ some execution
  pub checked : check_rows reservation execution db.exact_links o ≡ ok tt
  pub observed : (is_some reservation.observed.at || is_some execution.observed.at) ≡ true
  pub reservation_holds : holds reservation.observed o ≡ true
  pub execution_holds : holds execution.observed o ≡ true

same_ids_refl : (ids : List String) → same_ids ids ids ≡ true
same_ids_refl [] = refl
same_ids_refl (i ∷ ids) = ground (arith, (eq_iff i i).1 refl, same_ids_refl ids)

holds-observed_of : (o : Observation) (time : ℕ) → holds (observed_of o time) o ≡ true
holds-observed_of o time =
    ground (arith, (eq_iff o.vendor o.vendor).1 refl, same_ids_refl o.device_ids)

required-ok {ℓ} :
    {A : Type ℓ} (e : AllocationError) (o : Option A) {a : A} → required e o ≡ ok a → o ≡ some a
required-ok e none h = cc
required-ok e (some a) h = cc

-- What is written has the checked columns as they were.
active-written :
    (db : Rows) (r : ResourceReservation) (x : Observed) (n : ℕ) (e : TaskExecution)
    → get_active_for_execution db ≡ some r
    → get_active_for_execution (record db {
      reservation = some (record r { observed = x; version = n });
      execution = some e;
    })
      ≡ some (record r { observed = x; version = n })
unfolding get_active_for_execution
active-written db r x n e h = elim (Option-cases db.reservation) [
  | inl missing ↦ absurd (ground (arith, missing))
  | inr (row, there) ↦ elim (Bool-cases (is_none row.released_at)) [
    | inl free ↦ ground (arith, there, free)
    | inr gone ↦ absurd (ground (arith, there, gone))
  ]
]

checked-written :
    (r : ResourceReservation) (e : TaskExecution) (links n : ℕ) (o : Observation) (x y : Observed)
    → check_rows r e links o ≡ ok tt
    → check_rows (record r { observed = x; version = n }) (record e { observed = y }) links o
      ≡ ok tt
unfolding check_rows
checked-written r e links n o x y h = h

write_observation-Recorded :
    (db : Rows) (r : ResourceReservation) (e : TaskExecution) (o : Observation) (time : ℕ)
    {b : Bool} {after : Rows}
    → get_active_for_execution db ≡ some r
    → db.execution ≡ some e
    → check_rows r e db.exact_links o ≡ ok tt
    → write_observation db r e o time ≡ ok (b, after)
    → Recorded after o
unfolding write_observation
write_observation-Recorded db r e o time active present checked h =
    elim (either_ok (is_some r.observed.at || is_some e.observed.at) _ _ h) [
      | inl (there, h1) ↦ elim (either_ok (holds r.observed o && holds e.observed o) _ _ h1) [
        | inl (both, h2) ↦
            subst (λ (x : Bool × Rows). Recorded x.1 o) (ok_injective h2)
              (record {
                reservation = r;
                execution = e;
                active = active;
                present = present;
                checked = checked;
                observed = there;
                reservation_holds = (&&_parts _ _ both).0;
                execution_holds = (&&_parts _ _ both).1;
              })
        | inr (other, h2) ↦ cc
      ]
      | inr (fresh, h1) ↦
          subst (λ (x : Bool × Rows). Recorded x.1 o) (ok_injective h1)
            (record {
              reservation = record r { observed = observed_of o time; version = r.version + 1 };
              execution = record e { observed = observed_of o time };
              active =
                  active-written db r (observed_of o time) (r.version + 1)
                    (record e { observed = observed_of o time }) active;
              present = refl;
              checked =
                  checked-written r e db.exact_links (r.version + 1) o (observed_of o time)
                    (observed_of o time) checked;
              observed = refl;
              reservation_holds = holds-observed_of o time;
              execution_holds = holds-observed_of o time;
            })
    ]

recorded :
    (db : Rows) (vendor : String) (ids : List String) (time : ℕ) {b : Bool} {after : Rows}
    → record_observed_allocation db vendor ids time ≡ ok (b, after)
    → (o : Observation) × (normalize_observation vendor ids ≡ ok o) × Recorded after o
unfolding record_observed_allocation
recorded db vendor ids time h =
    let (o, normal, h1) = ok_parts (normalize_observation vendor ids) _ h in
    let (r, active, h2) =
      ok_parts (required no_active_reservation (get_active_for_execution db)) _ h1 in
    let (e, present, h3) = ok_parts (required missing_execution db.execution) _ h2 in
    let (u, checked, h4) = ok_parts (check_rows r e db.exact_links o) _ h3 in
    (
      o,
      normal,
      write_observation-Recorded db r e o time (required-ok no_active_reservation _ active)
          (required-ok missing_execution _ present) checked h4,
    )

-- What a later call may do with rows that are recorded.
again :
    (after : Rows) (o : Observation) (vendor : String) (ids : List String) (time : ℕ)
    → Recorded after o
    → normalize_observation vendor ids ≡ ok o
    → record_observed_allocation after vendor ids time ≡ ok (false, after)
unfolding record_observed_allocation write_observation
again after o vendor ids time d normal = ground (
  arith, normal, d.active, d.present, d.checked, d.observed, d.reservation_holds, d.execution_holds,
)

there-again :
    {r r2 : ResourceReservation} {e e2 : TaskExecution}
    → some r ≡ some r2
    → some e ≡ some e2
    → (is_some r2.observed.at || is_some e2.observed.at) ≡ true
    → (is_some r.observed.at || is_some e.observed.at) ≡ true
there-again p q h = cc

unchanged_write :
    (db : Rows) (r : ResourceReservation) (e : TaskExecution) (o : Observation) (time : ℕ)
    {b : Bool} {last : Rows}
    → (is_some r.observed.at || is_some e.observed.at) ≡ true
    → write_observation db r e o time ≡ ok (b, last)
    → (b ≡ false) × (last ≡ db)
unfolding write_observation
unchanged_write db r e o time there h =
    elim (either_ok (is_some r.observed.at || is_some e.observed.at) _ _ h) [
      | inl (_, h1) ↦ elim (either_ok (holds r.observed o && holds e.observed o) _ _ h1) [
        | inl (_, h2) ↦ (
          sym (ap (λ (x : Bool × Rows). x.0) (ok_injective h2)),
          sym (ap (λ (x : Bool × Rows). x.1) (ok_injective h2)),
        )
        | inr (_, h2) ↦ cc
      ]
      | inr (fresh, _) ↦ cc
    ]

later :
    (after : Rows) (o : Observation) (vendor : String) (ids : List String) (time : ℕ) {b : Bool}
    {last : Rows}
    → Recorded after o
    → record_observed_allocation after vendor ids time ≡ ok (b, last)
    → (b ≡ false) × (last ≡ after)
unfolding record_observed_allocation
later after o vendor ids time {b} {last} d h =
    let (o2, normal, h1) = ok_parts (normalize_observation vendor ids) _ h in
    let (r, active, h2) =
      ok_parts (required no_active_reservation (get_active_for_execution after)) _ h1 in
    let (e, present, h3) = ok_parts (required missing_execution after.execution) _ h2 in
    let (u, checked, h4) = ok_parts (check_rows r e after.exact_links o2) _ h3 in
    unchanged_write after r e o2 time
      (there-again (sym (required-ok no_active_reservation _ active) ∙ d.active)
        (sym (required-ok missing_execution _ present) ∙ d.present) d.observed)
      h4

-- Once an observation is recorded, a later call that succeeds says that nothing was written, and
-- writes nothing; and a call with the same vendor and the same IDs does succeed, at any time.
pub record_observed_allocation_once :
    (db : Rows) (vendor : String) (ids : List String) (time : ℕ) {b : Bool} {after : Rows}
    → record_observed_allocation db vendor ids time ≡ ok (b, after)
    → (vendor2 : String) (ids2 : List String) (time2 : ℕ)
    → ((b2 : Bool) (last : Rows)
        → record_observed_allocation after vendor2 ids2 time2 ≡ ok (b2, last)
        → (b2 ≡ false) × (last ≡ after))
      × (normalize_observation vendor2 ids2 ≡ normalize_observation vendor ids
          → record_observed_allocation after vendor2 ids2 time2 ≡ ok (false, after))
record_observed_allocation_once db vendor ids time {b} {after} h vendor2 ids2 time2 =
    let (o, normal, d) = recorded db vendor ids time h in
    (
      λ b2 last k. later after o vendor2 ids2 time2 d k,
      λ same. again after o vendor2 ids2 time2 d (same ∙ normal),
    )
