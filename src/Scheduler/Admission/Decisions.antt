-- ===== src/Scheduler/Admission/Decisions.antt =====
-- scheduler/admission.py: what `choose_admission` decides, and that its decision is well formed.
use mini_ai_cloud.Prelude.{
  ◌≡◌, refl, sym, ap, ◌∙◌, subst, ◌⊎◌, inl, inr, true, Option, none, some, List, [], ◌∷◌, map, leb,
  ok, All, All-map, Any, arith, &&_parts,
}
use mathlib.Core.List.{Perm}
use mini_ai_cloud.Prelude.Sort.{
  sort, IsSorted, sort-IsSorted, sort-head-le, sort-head-Any, sort-nil, sort-perm,
}
use mini_ai_cloud.Core.Enums.{
  AcceleratorVendor, nvidia, huawei_ascend, AcceleratorSelectionPolicy, prefer_nvidia,
  prefer_ascend,
}
use mini_ai_cloud.Scheduler.Admission.Model.{
  AdmissionRequest, AdmissionCandidate, AdmissionRejection, AdmissionDecision,
}
use mini_ai_cloud.Scheduler.Admission.Choose.{
  Rejected, candidate_order, rejected_order, to_rejection, take_devices, decide, choose_admission,
  preference_rank,
}
use mini_ai_cloud.Scheduler.Admission.Sifted.{
  Passes, eligible, rejected, sift-parts, eligible-Any, eligible-All, eligible-nil,
}

-- Each candidate is, in the order of the candidates, not after any that follows it.
abbrev pub InOrder : AdmissionRequest → List Rejected → Type 0
InOrder r [] = Unit
InOrder r (x ∷ xs) = All (λ y. (candidate_order r).le x.0 y.0 ≡ true) xs × InOrder r xs

-- The decision that `choose_admission` makes, before it is checked.
module _ (r : AdmissionRequest) (cs : List AdmissionCandidate) where
  abbrev pub ranked : List AdmissionCandidate
  ranked = sort (candidate_order r) (eligible r cs)

  abbrev pub rejections : List AdmissionRejection
  rejections = map to_rejection (sort (rejected_order r) (rejected r cs))

  pub choose-decide :
      {d : AdmissionDecision} → choose_admission r cs ≡ ok d → d ≡ decide r ranked rejections
  unfolding choose_admission
  choose-decide {d} h = ground (arith, sift-parts r [] [] cs)

  -- The pool that is selected passes, comes first in the order of the candidates among those that
  -- pass, and gives its devices.
  abbrev pub Selects : AdmissionDecision → AdmissionCandidate → Type 0
  Selects d s =
      (d.selected_candidate ≡ some s)
      × Any (λ c. (s ≡ c) × Passes r c) cs
      × All (λ c. Passes r c → (candidate_order r).le s c ≡ true) cs
      × (d.concrete_device_ids ≡ take_devices r s)

  abbrev pub RejectsAll : AdmissionDecision → Type 0
  RejectsAll d = (d.selected_candidate ≡ none) × All (λ c. ¬ Passes r c) cs

  decide-parts :
      (es : List AdmissionCandidate)
      → ranked ≡ es
      → RejectsAll (decide r es rejections)
        ⊎ ((s : AdmissionCandidate) × Selects (decide r es rejections) s)
  unfolding decide
  decide-parts [] e = inl (refl, eligible-nil r cs (sort-nil (candidate_order r) (eligible r cs) e))
  decide-parts (s ∷ rest) e = inr (
    s,
    (
      refl,
      eligible-Any r (λ c. s ≡ c) cs (sort-head-Any (candidate_order r) (eligible r cs) e),
      eligible-All r (λ c. (candidate_order r).le s c ≡ true) cs
          (sort-head-le (candidate_order r) (eligible r cs) e),
      refl,
    ),
  )

  decide-fixed :
      (es : List AdmissionCandidate)
      → ((decide r es rejections).accelerator_count ≡ r.count)
        × ((decide r es rejections).rejections ≡ rejections)
  unfolding decide
  decide-fixed [] = (refl, refl)
  decide-fixed (s ∷ rest) = (refl, refl)

-- The rejected candidates, each with its reason, as the decision reports them: ordered by the
-- candidates.
pub record Reports (r : AdmissionRequest) (cs : List AdmissionCandidate)
    (reported : List AdmissionRejection) : Type 0 where
  pub found : List Rejected
  pub all_rejected : Perm found (rejected r cs)
  pub in_order : InOrder r found
  pub as_reported : reported ≡ map to_rejection found

le_candidates :
    (r : AdmissionRequest) (x y : Rejected)
    → (rejected_order r).le x y ≡ true
    → (candidate_order r).le x.0 y.0 ≡ true
unfolding rejected_order
le_candidates r x y h = (&&_parts _ _ h).0

sorted-InOrder :
    (r : AdmissionRequest) (xs : List Rejected) → IsSorted (rejected_order r) xs → InOrder r xs
sorted-InOrder r [] h = tt
sorted-InOrder r (x ∷ xs) h = (
  All-map (λ y. (rejected_order r).le x y ≡ true) (λ y. (candidate_order r).le x.0 y.0 ≡ true) xs
      (λ y. le_candidates r x y) h.0,
  sorted-InOrder r xs h.1,
)

rejections-Reports :
    (r : AdmissionRequest) (cs : List AdmissionCandidate) → Reports r cs (rejections r cs)
rejections-Reports r cs = record {
  found = sort (rejected_order r) (rejected r cs);
  all_rejected = sort-perm (rejected_order r) (rejected r cs);
  in_order = sorted-InOrder r _ (sort-IsSorted (rejected_order r) (rejected r cs));
  as_reported = refl;
}

-- A decision names the requested count and all rejected candidates, each with its reason, in the
-- order of the candidates; and either it selects the first of the candidates that pass, with its
-- devices, or no candidate passes.
pub choose_admission-Decides :
    (r : AdmissionRequest) (cs : List AdmissionCandidate) {d : AdmissionDecision}
    → choose_admission r cs ≡ ok d
    → (d.accelerator_count ≡ r.count)
      × Reports r cs d.rejections
      × (RejectsAll r cs d ⊎ ((s : AdmissionCandidate) × Selects r cs d s))
choose_admission-Decides r cs {d} h =
    let e = choose-decide r cs h in
    (
      ap (λ (x : AdmissionDecision). x.accelerator_count) e ∙ (decide-fixed r cs (ranked r cs)).0,
      subst (Reports r cs)
          (sym
            (ap (λ (x : AdmissionDecision). x.rejections) e ∙ (decide-fixed r cs (ranked r cs)).1))
          (rejections-Reports r cs),
      subst (λ x. RejectsAll r cs x ⊎ ((s : AdmissionCandidate) × Selects r cs x s)) (sym e)
          (decide-parts r cs (ranked r cs) refl),
    )

unfoldable pub preferred : AcceleratorSelectionPolicy → Option AcceleratorVendor
preferred prefer_nvidia = some nvidia
preferred prefer_ascend = some huawei_ascend
preferred _ = none

ranks :
    (r : AdmissionRequest) (s c : AdmissionCandidate) (v : AcceleratorVendor)
    → preferred r.selection_policy ≡ some v
    → leb
        (preference_rank r.selection_policy s.vendor)
        (preference_rank r.selection_policy c.vendor)
      ≡ true
    → c.vendor ≡ v
    → s.vendor ≡ v
unfolding preference_rank preferred
ranks r s c v p h e = ground arith

rank_first :
    (r : AdmissionRequest) (s c : AdmissionCandidate) (v : AcceleratorVendor)
    → preferred r.selection_policy ≡ some v
    → (candidate_order r).le s c ≡ true
    → c.vendor ≡ v
    → s.vendor ≡ v
unfolding candidate_order preferred
rank_first r s c v p h e = ranks r s c v p (&&_parts _ _ h).0 e

none_and_some :
    (r : AdmissionRequest) (v : AcceleratorVendor) (cs : List AdmissionCandidate)
    → All (λ c. ¬ Passes r c) cs
    → Any (λ c. Passes r c × (c.vendor ≡ v)) cs
    → ⊥
none_and_some r v [] h k = k
none_and_some r v (c ∷ cs) h (inl k) = h.0 k.0
none_and_some r v (c ∷ cs) h (inr k) = none_and_some r v cs h.1 k

preferred_first :
    (r : AdmissionRequest) (s : AdmissionCandidate) (v : AcceleratorVendor)
    → preferred r.selection_policy ≡ some v
    → (cs : List AdmissionCandidate) → All (λ c. Passes r c → (candidate_order r).le s c ≡ true) cs
    → Any (λ c. Passes r c × (c.vendor ≡ v)) cs
    → s.vendor ≡ v
preferred_first r s v p [] h k = absurd k
preferred_first r s v p (c ∷ cs) h (inl k) = rank_first r s c v p (h.0 k.0) k.1
preferred_first r s v p (c ∷ cs) h (inr k) = preferred_first r s v p cs h.1 k

-- Under a preference for a vendor, a pool of that vendor is selected whenever one passes.
pub choose_admission-preferred :
    (r : AdmissionRequest) (cs : List AdmissionCandidate) {d : AdmissionDecision}
    (v : AcceleratorVendor)
    → preferred r.selection_policy ≡ some v
    → Any (λ c. Passes r c × (c.vendor ≡ v)) cs
    → choose_admission r cs ≡ ok d
    → (s : AdmissionCandidate) × (d.selected_candidate ≡ some s) × (s.vendor ≡ v)
choose_admission-preferred r cs {d} v p some_passes h = elim ((choose_admission-Decides r cs h).2) [
  | inl none_passes ↦ absurd (none_and_some r v cs none_passes.1 some_passes)
  | inr (s, selects) ↦ (s, selects.0, preferred_first r s v p cs selects.2 some_passes)
]
