-- ===== src/Scheduler/Admission/Total.antt =====
-- scheduler/admission.py: `choose_admission` makes a decision that passes its own checks.
use mini_ai_cloud.Prelude.{
  ℕ, ◌≤◌, ◌≡◌, refl, true, List, [], ◌∷◌, map, all, take, length, ok, All, All-map, All-take,
  All→all, length-take-le, arith,
}
use mini_ai_cloud.Prelude.Text.{String, by_text}
use text.Mathlib.TextEquality.{eq_iff}
use mini_ai_cloud.Prelude.Sort.{sort, sort-All, length-sort}
use mini_ai_cloud.Scheduler.Admission.Model.{
  AdmissionRequest, AdmissionCandidate, AdmissionRejection, AdmissionDecision, check_request,
  check_candidate, check_decision, check_authority, has_text, all_distinct, is_count,
  check_selected,
}
use mini_ai_cloud.Scheduler.Admission.Choose.{
  candidate_order, take_devices, decide, choose_admission,
}
use mini_ai_cloud.Scheduler.Admission.Eligible.{evaluate_admission_candidate_iff}
use mini_ai_cloud.Scheduler.Admission.Sifted.{Passes, eligible, sift-parts, eligible-parts}
use mini_ai_cloud.Scheduler.Admission.Decisions.{ranked, rejections}

-- What the constructors check that the decision rests on.
count_ok : (r : AdmissionRequest) → check_request r ≡ ok tt → is_count r.count ≡ true
unfolding check_request
count_ok r h = ground arith

authority_ok : (c : AdmissionCandidate) → check_candidate c ≡ ok tt → check_authority c ≡ ok tt
unfolding check_candidate
authority_ok c h = ground arith

has_text_head : (i : String) (ids : List String) → has_text i (i ∷ ids) ≡ true
has_text_head i ids = ground (arith, (eq_iff i i).1 refl)

has_text_self : (ids : List String) → All (λ i. has_text i ids ≡ true) ids
has_text_self [] = tt
has_text_self (i ∷ ids) = (
  has_text_head i ids,
  All-map (λ j. has_text j ids ≡ true) (λ j. has_text j (i ∷ ids) ≡ true) ids (λ j h. ground arith)
      (has_text_self ids),
)

-- The decision for a pool of exact devices takes as many distinct names of its devices as asked.
taken_length : (n : ℕ) (ids : List String) → n ≤ length ids → length (take n (sort by_text ids)) ≡ n
taken_length n ids h =
    length-take-le n (sort by_text ids) (omega (arith, h, length-sort by_text ids))

taken_known :
    (n : ℕ) (ids : List String) → all (λ i. has_text i ids) (take n (sort by_text ids)) ≡ true
taken_known n ids =
    All→all (λ i. has_text i ids) (take n (sort by_text ids))
      (All-take (λ i. has_text i ids ≡ true) n (sort by_text ids)
        (sort-All by_text (λ i. has_text i ids ≡ true) ids (has_text_self ids)))

module _ (r : AdmissionRequest) where
  selected_ok :
      (c : AdmissionCandidate) (cs : List AdmissionCandidate) (xs : List AdmissionRejection)
      → is_count r.count ≡ true
      → check_authority c ≡ ok tt
      → r.count ≤ c.available_capacity
      → check_decision (decide r (c ∷ cs) xs) ≡ ok tt
  unfolding check_decision decide check_selected take_devices check_authority
  selected_ok c cs xs n a h =
      ground (
        arith,
        taken_length r.count c.concrete_device_ids,
        taken_known r.count c.concrete_device_ids,
      )

  decide_ok :
      (es : List AdmissionCandidate) (xs : List AdmissionRejection)
      → is_count r.count ≡ true
      → All (λ c. (check_candidate c ≡ ok tt) × Passes r c) es
      → check_decision (decide r es xs) ≡ ok tt
  unfolding check_decision decide
  decide_ok [] xs n h = ground arith
  decide_ok (c ∷ es) xs n h =
      selected_ok c es xs n (authority_ok c h.0.0)
        ((evaluate_admission_candidate_iff r c).0 h.0.1).capacity_left

-- For a request and pools that passed their own checks, the pools under distinct names, a decision
-- is made.
pub choose_admission-total :
    (r : AdmissionRequest) (cs : List AdmissionCandidate)
    → check_request r ≡ ok tt
    → All (λ c. check_candidate c ≡ ok tt) cs
    → all_distinct (map (λ (c : AdmissionCandidate). c.candidate_id) cs) ≡ true
    → (d : AdmissionDecision) × (choose_admission r cs ≡ ok d)
unfolding choose_admission
choose_admission-total r cs q h distinct =
    let made = decide_ok r (ranked r cs) (rejections r cs) (count_ok r q) (
      sort-All (candidate_order r) (λ c. (check_candidate c ≡ ok tt) × Passes r c) (eligible r cs)
        (eligible-parts r (λ c. check_candidate c ≡ ok tt) cs h)) in
    (decide r (ranked r cs) (rejections r cs), ground (arith, sift-parts r [] [] cs))
