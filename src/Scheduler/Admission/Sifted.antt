-- ===== src/Scheduler/Admission/Sifted.antt =====
-- scheduler/admission.py: the loop of `choose_admission` as two lists.
use mini_ai_cloud.Prelude.{
  ◌≡◌, refl, sym, subst, ◌⊎◌, inl, inr, Option, none, some, List, [], ◌∷◌, ◌++◌, All, Any, arith,
  Option-cases,
}
use mathlib.Core.List.{append_assoc, append-nil}
use mini_ai_cloud.Scheduler.Admission.Reasons.{AdmissionRejectionReason}
use mini_ai_cloud.Scheduler.Admission.Model.{AdmissionRequest, AdmissionCandidate}
use mini_ai_cloud.Scheduler.Admission.Choose.{evaluate_admission_candidate, Rejected, sift}

module _ (r : AdmissionRequest) where
  abbrev pub Passes : AdmissionCandidate → Type 0
  Passes c = evaluate_admission_candidate r c ≡ none

  pub eligible : List AdmissionCandidate → List AdmissionCandidate
  eligible [] = []
  eligible (c ∷ cs) = elim (evaluate_admission_candidate r c) [
    | none ↦ c ∷ eligible cs
    | some reason ↦ eligible cs
  ]

  -- The candidates that fail a filter, each with its reason.
  pub rejected : List AdmissionCandidate → List Rejected
  rejected [] = []
  rejected (c ∷ cs) = elim (evaluate_admission_candidate r c) [
    | none ↦ rejected cs
    | some reason ↦ (c, reason) ∷ rejected cs
  ]

  pub sift-parts :
      (es : List AdmissionCandidate) (xs : List Rejected) (cs : List AdmissionCandidate)
      → sift r (es, xs) cs ≡ (es ++ eligible cs, xs ++ rejected cs)
  unfolding sift eligible rejected
  sift-parts es xs [] = ground (arith, append-nil es, append-nil xs)
  sift-parts es xs (c ∷ cs) = elim (Option-cases (evaluate_admission_candidate r c)) [
    | inl passed ↦
        ground (arith, sift-parts (es ++ c ∷ []) xs cs, append_assoc es (c ∷ []) (eligible cs))
    | inr (reason, e) ↦ ground (
      arith,
      sift-parts es (xs ++ (c, reason) ∷ []) cs,
      append_assoc xs ((c, reason) ∷ []) (rejected cs),
    )
  ]

  pub eligible-Any :
      (P : AdmissionCandidate → Type 0) (cs : List AdmissionCandidate)
      → Any P (eligible cs)
      → Any (λ c. P c × Passes c) cs
  unfolding eligible
  eligible-Any P [] h = h
  eligible-Any P (c ∷ cs) h = go (evaluate_admission_candidate r c) refl h (eligible-Any P cs)
    where
      go :
          (o : Option AdmissionRejectionReason)
          → evaluate_admission_candidate r c ≡ o
          → Any P (elim o [ none ↦ c ∷ eligible cs | some reason ↦ eligible cs ])
          → (Any P (eligible cs) → Any (λ c. P c × Passes c) cs)
          → (P c × Passes c) ⊎ Any (λ c. P c × Passes c) cs
      go none e (inl p) ih = inl (p, e)
      go none e (inr q) ih = inr (ih q)
      go (some reason) e q ih = inr (ih q)

  pub eligible-All :
      (P : AdmissionCandidate → Type 0) (cs : List AdmissionCandidate)
      → All P (eligible cs)
      → All (λ c. Passes c → P c) cs
  unfolding eligible
  eligible-All P [] h = tt
  eligible-All P (c ∷ cs) h = go (evaluate_admission_candidate r c) refl h (eligible-All P cs)
    where
      go :
          (o : Option AdmissionRejectionReason)
          → evaluate_admission_candidate r c ≡ o
          → All P (elim o [ none ↦ c ∷ eligible cs | some reason ↦ eligible cs ])
          → (All P (eligible cs) → All (λ c. Passes c → P c) cs)
          → (Passes c → P c) × All (λ c. Passes c → P c) cs
      go none e q ih = ((λ _. q.0), ih q.1)
      go (some reason) e q ih = ((λ p. cc), ih q)

  pub eligible-nil : (cs : List AdmissionCandidate) → eligible cs ≡ [] → All (λ c. ¬ Passes c) cs
  unfolding eligible
  eligible-nil cs h = eligible-All (λ c. ⊥) cs (subst (All (λ c. ⊥)) (sym h) tt)

  pub eligible-parts :
      (P : AdmissionCandidate → Type 0) (cs : List AdmissionCandidate)
      → All P cs
      → All (λ c. P c × Passes c) (eligible cs)
  unfolding eligible
  eligible-parts P [] h = tt
  eligible-parts P (c ∷ cs) h = elim (Option-cases (evaluate_admission_candidate r c)) [
    | inl passed ↦ ground (arith, eligible-parts P cs h.1)
    | inr (reason, e) ↦ ground (arith, eligible-parts P cs h.1)
  ]
