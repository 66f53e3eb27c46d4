-- ===== src/Repositories/Reservations/Observation.antt =====
-- repositories/reservations.py: `ReservationRepository.record_observed_allocation`. The row of an
-- execution's reservation is unique by a constraint of its table.
use mini_ai_cloud.Prelude.{
  ℕ, ◌+◌, Bool, true, false, not, ◌&&◌, ◌||◌, Option, none, some, List, [], ◌∷◌, map, any, length,
  ◌==◌, if◌then◌else◌, is_some, is_none, Result, ok, err, ◌>>=◌, ◌>>◌, raise_if,
}
use mini_ai_cloud.Prelude.Text.{String, ◌===◌, same_text, strip, is_empty_text}
use mini_ai_cloud.Scheduler.Admission.Model.{all_distinct}

-- The columns of an observation, which a reservation and an execution both have.
pub record Observed : Type 0 where
  pub device_ids : Option (List String)
  pub vendor : Option String
  pub at : Option ℕ

pub record ResourceReservation : Type 0 where
  pub allocation_authority : String
  pub requested_vendor : Option String
  pub gpu_count : ℕ
  pub released_at : Option ℕ
  pub observed : Observed
  pub version : ℕ

pub record TaskExecution : Type 0 where
  pub allocation_authority : Option String
  pub observed : Observed

-- The rows of one execution; of the exact-device bindings only their number plays a part.
pub record Rows : Type 0 where
  pub reservation : Option ResourceReservation
  pub execution : Option TaskExecution
  pub exact_links : ℕ

pub data AllocationError : Type 0 where
  unsupported_vendor blank_id duplicate_id no_active_reservation : AllocationError
  wrong_authority wrong_vendor wrong_count different_data : AllocationError
  missing_execution owns_bindings : AllocationError

abbrev pub authority_value : String
authority_value = "kubernetes_device_plugin"

-- What is observed, normalised: the vendor and the stripped IDs.
pub record Observation : Type 0 where
  pub vendor : String
  pub device_ids : List String

unfoldable pub normalize_observation : String → List String → Result AllocationError Observation
unfolding strip
normalize_observation vendor device_ids = do
  raise_if (not (vendor === "nvidia" || vendor === "huawei-ascend")) unsupported_vendor
  let ids = map strip device_ids
  raise_if (any is_empty_text ids) blank_id
  raise_if (not (all_distinct ids)) duplicate_id
  ok (record { vendor = vendor; device_ids = ids })

unfoldable pub get_active_for_execution : Rows → Option ResourceReservation
get_active_for_execution db = elim db.reservation [
  | none ↦ none
  | some r ↦ if is_none r.released_at then some r else none
]

abbrev pub required {ℓ} : {A : Type ℓ} → AllocationError → Option A → Result AllocationError A
required e none = err e
required e (some a) = ok a

unfoldable pub check_rows :
    ResourceReservation → TaskExecution → ℕ → Observation → Result AllocationError (Unit {0})
check_rows r e exact_links o = do
  raise_if
      (not (r.allocation_authority === authority_value)
        || not (same_text e.allocation_authority (some authority_value)))
      wrong_authority
  raise_if (not (same_text r.requested_vendor (some o.vendor))) wrong_vendor
  raise_if (not (length o.device_ids == r.gpu_count)) wrong_count
  raise_if (not (exact_links == 0)) owns_bindings

abbrev pub same_ids : List String → List String → Bool
same_ids [] [] = true
same_ids (i ∷ is) (j ∷ js) = (i === j) && same_ids is js
same_ids _ _ = false

abbrev pub has_ids : Option (List String) → List String → Bool
has_ids none ids = false
has_ids (some found) ids = same_ids found ids

abbrev pub holds : Observed → Observation → Bool
holds s o = same_text s.vendor (some o.vendor) && has_ids s.device_ids o.device_ids

abbrev pub observed_of : Observation → ℕ → Observed
observed_of o time = record {
  device_ids = some o.device_ids;
  vendor = some o.vendor;
  at = some time;
}

-- An observation that is there already is compared; otherwise the two rows are written.
unfoldable pub write_observation :
    Rows
    → ResourceReservation
    → TaskExecution
    → Observation
    → ℕ
    → Result AllocationError (Bool × Rows)
write_observation db r e o time =
    if is_some r.observed.at || is_some e.observed.at
    then (if holds r.observed o && holds e.observed o then ok (false, db) else err different_data)
    else ok (
      true,
      record db {
        reservation = some (record r { observed = observed_of o time; version = r.version + 1 });
        execution = some (record e { observed = observed_of o time });
      },
    )

unfoldable pub record_observed_allocation :
    Rows → String → List String → ℕ → Result AllocationError (Bool × Rows)
unfolding normalize_observation get_active_for_execution check_rows write_observation
record_observed_allocation db vendor device_ids observed_at = do
  o ← normalize_observation vendor device_ids
  r ← required no_active_reservation (get_active_for_execution db)
  e ← required missing_execution db.execution
  check_rows r e db.exact_links o
  write_observation db r e o observed_at
