-- ===== src/Repositories/Reservations/Used.antt =====
-- repositories/reservations.py: how the use of an execution is entered and paid for.
use mathlib.Core.Option.{some_inj}
use mini_ai_cloud.Prelude.{
  ℕ, ◌+◌, ◌-◌, ◌≤◌, ◌≡◌, ◌≢◌, refl, ap, ◌∙◌, subst, inl, inr, ◌⊎◌, true, Option, none, some, List,
  [], ◌∷◌, length, is_some, ok, ok_parts, ok_injective, arith,
}
use mini_ai_cloud.Prelude.Floats.{Floats}
use mini_ai_cloud.Repositories.Reservations.Settlement.{
  Reserved, Execution, UsageLedger, SettlementRows, exact_cost, duration_of, ledger_entry,
  released_quota, enter_use,
}
use mini_ai_cloud.Repositories.Reservations.Returned.{add_zero}

-- The cost of all entries.
abbrev pub costs : List UsageLedger → ℕ
costs [] = 0
costs (entry ∷ entries) = entry.cost + costs entries

module _ (fl : Floats) (quantize : ℕ → ℕ) (cost_float : ℕ → fl.F) where
  abbrev pub Db : Type 0
  Db = SettlementRows fl quantize cost_float

  -- What the use of an execution costs, and what the row of the task says of that: a use that is not
  -- entered yet is priced, from the start of the task on.
  abbrev pub Prices :
      Execution → ℕ → Option ℕ → List UsageLedger → ℕ → Option fl.F → Option fl.F → Type 0
  Prices e now started entries cost before estimated =
      ((start : ℕ)
        → started ≡ some start
        → entries ≡ []
        → (cost ≡ quantize (exact_cost e (now - start)))
          × (estimated ≡ some (cost_float (exact_cost e (now - start)))))
      × (((started ≡ none) ⊎ (entries ≢ [])) → (cost ≡ 0) × (estimated ≡ before))

  -- The use of the execution is entered and paid for, and the other rows are left.
  pub record Used (db : Db) (r : Reserved) (e : Execution) (now : ℕ) (started : Option ℕ)
      (entries : List UsageLedger) (after : Db) : Type 0 where
    pub cost : ℕ
    pub paid : released_quota fl quantize cost_float db.quota r cost ≡ ok after.quota
    pub entered : costs after.ledger ≡ costs entries + cost
    pub recorded : is_some started ≡ true → 1 ≤ length after.ledger
    pub few : length entries ≤ 1 → length after.ledger ≤ 1
    pub workers : after.workers ≡ db.workers
    pub reservation : after.reservation ≡ db.reservation
    pub links : after.links ≡ db.links
    pub task : (c : Option fl.F) × (after.task ≡ record (db.task) { estimated_cost = c })
    pub prices : Prices e now started entries cost db.task.estimated_cost after.task.estimated_cost

  priced :
      (e : Execution) (now : ℕ) {started_at start : ℕ}
      → started_at ≡ start
      → (quantize (exact_cost e (duration_of started_at now))
          ≡ quantize (exact_cost e (now - start)))
        × (◌≡◌ {A = Option fl.F}
            (some (cost_float (exact_cost e (duration_of started_at now))))
            (some (cost_float (exact_cost e (now - start)))))
  priced e now same = (
    ap (λ n. quantize (exact_cost e (now - n))) same,
    ap (λ n. some (cost_float (exact_cost e (now - n)))) same,
  )

  pub enter_use-Used :
      (db : Db) (r : Reserved) (e : Execution) (now : ℕ) (started : Option ℕ)
      (entries : List UsageLedger) {after : Db}
      → db.ledger ≡ entries
      → enter_use fl quantize cost_float db r e now started entries ≡ ok after
      → Used db r e now started entries after
  unfolding enter_use
  enter_use-Used db r e now none entries same h =
      let (quota, paid, made) = ok_parts (released_quota fl quantize cost_float db.quota r 0) _ h in
      subst (Used db r e now none entries) (ok_injective made) (record {
        cost = 0;
        paid = paid;
        entered = ap costs same ∙ add_zero (costs entries);
        recorded = λ k. cc;
        few = λ k. omega (arith, ap length same);
        workers = refl;
        reservation = refl;
        links = refl;
        task = (db.task.estimated_cost, refl);
        prices = (λ start known fresh. cc, λ other. (refl, refl));
      })
  enter_use-Used db r e now (some started_at) [] same h =
      let entry = ledger_entry fl quantize cost_float e started_at now in
      let (quota, paid, made) =
        ok_parts (released_quota fl quantize cost_float db.quota r entry.cost) _ h in
      subst (Used db r e now (some started_at) []) (ok_injective made) (record {
        cost = entry.cost;
        paid = paid;
        entered = omega arith;
        recorded = λ k. omega arith;
        few = λ k. omega arith;
        workers = refl;
        reservation = refl;
        links = refl;
        task = (some (cost_float (exact_cost e (duration_of started_at now))), refl);
        prices = (
          λ start known fresh. priced e now ((some_inj).0 known),
          λ other. elim other [ inl k ↦ cc | inr k ↦ absurd (k refl) ],
        );
      })
  enter_use-Used db r e now (some started_at) (entry ∷ entries) same h =
      let (quota, paid, made) = ok_parts (released_quota fl quantize cost_float db.quota r 0) _ h in
      subst (Used db r e now (some started_at) (entry ∷ entries)) (ok_injective made) (record {
        cost = 0;
        paid = paid;
        entered = ap costs same ∙ add_zero (costs (entry ∷ entries));
        recorded = λ k. omega (arith, ap length same);
        few = λ k. omega (arith, ap length same);
        workers = refl;
        reservation = refl;
        links = refl;
        task = (db.task.estimated_cost, refl);
        prices = (λ start known fresh. cc, λ other. (refl, refl));
      })
