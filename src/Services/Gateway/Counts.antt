-- ===== src/Services/Gateway/Counts.antt =====
-- api/services/gateway.py: the counts are those of the open requests.
use mini_ai_cloud.Prelude.{
  ℕ, ◌+◌, ◌-◌, ◌≡◌, refl, sym, ap, ◌∙◌, ◌⊎◌, inl, inr, Bool, true, false, ◌&&◌, Option, none, some,
  List, [], ◌∷◌, ◌++◌, is_some, leb, ◌==◌, ==_iff, if◌then◌else◌, Bool-cases, arith,
}
use mini_ai_cloud.Services.Gateway.{
  GatewayMetrics, get_or_zero, put, start_replica, request_started, finish_replica,
  request_finished, Request, Trace, nothing, starts, finishes,
}

-- The number of the requests of a service, and of those sent to one of its replicas.
abbrev pub one_if : Bool → ℕ
one_if true = 1
one_if false = 0

abbrev pub is_replica : Option ℕ → ℕ → Bool
is_replica none j = false
is_replica (some k) j = j == k

abbrev pub requests_of : ℕ → List Request → ℕ
requests_of i [] = 0
requests_of i (r ∷ rest) = one_if (i == r.service) + requests_of i rest

abbrev pub replica_requests_of : ℕ → ℕ → List Request → ℕ
replica_requests_of i j [] = 0
replica_requests_of i j (r ∷ rest) =
    one_if ((i == r.service) && is_replica r.replica j) + replica_requests_of i j rest

requests_of-insert :
    (i : ℕ) (before : List Request) (r : Request) (after : List Request)
    → requests_of i (before ++ r ∷ after)
      ≡ one_if (i == r.service) + requests_of i (before ++ after)
requests_of-insert i [] r after = refl
requests_of-insert i (x ∷ before) r after =
    let e = requests_of-insert i before r after in omega arith

replica_requests_of-insert :
    (i j : ℕ) (before : List Request) (r : Request) (after : List Request)
    → replica_requests_of i j (before ++ r ∷ after)
      ≡ one_if ((i == r.service) && is_replica r.replica j)
        + replica_requests_of i j (before ++ after)
replica_requests_of-insert i j [] r after = refl
replica_requests_of-insert i j (x ∷ before) r after =
    let e = replica_requests_of-insert i j before r after in omega arith

pub record Counted (m : GatewayMetrics) (open_requests : List Request) : Type 0 where
  pub services : (i : ℕ) → get_or_zero (m.active i) ≡ requests_of i open_requests
  pub replicas :
      (i j : ℕ) → get_or_zero (m.replica_active i j) ≡ replica_requests_of i j open_requests
  pub observed : (i : ℕ) → (is_some (m.observed_at i) ≡ true) ⊎ (requests_of i open_requests ≡ 0)

put_count :
    (d : ℕ → Option ℕ) (key value i : ℕ)
    → get_or_zero (put d key value i) ≡ (if i == key then value else get_or_zero (d i))
put_count d key value i = ground arith

-- What one entry of the counts becomes, read at the key (i, j).
hit_count :
    (d : ℕ → ℕ → Option ℕ) (service k i j : ℕ)
    → (i == service) ≡ true
    → (j == k) ≡ true
    → d service k ≡ d i j
hit_count d service k i j h1 h2 =
    ap (λ n. d n k) (sym ((==_iff i service).0 h1)) ∙ ap (d i) (sym ((==_iff j k).0 h2))

started-replicas :
    (d : ℕ → ℕ → Option ℕ) (service : ℕ) (replica : Option ℕ) (i j : ℕ)
    → get_or_zero (start_replica d service replica i j)
      ≡ one_if ((i == service) && is_replica replica j) + get_or_zero (d i j)
started-replicas d service none i j = ground arith
started-replicas d service (some k) i j = elim (Bool-cases (i == service)) [
  | inl h1 ↦ elim (Bool-cases (j == k)) [
    | inl h2 ↦ rw (hit_count d service k i j h1 h2) (ground arith)
    | inr h2 ↦ ground arith
  ]
  | inr h1 ↦ ground arith
]

finished-replicas :
    (d : ℕ → ℕ → Option ℕ) (service : ℕ) (replica : Option ℕ) (i j : ℕ)
    → get_or_zero (finish_replica d service replica i j)
      ≡ get_or_zero (d i j) - one_if ((i == service) && is_replica replica j)
finished-replicas d service none i j = ground arith
finished-replicas d service (some k) i j = elim (Bool-cases (i == service)) [
  | inl h1 ↦ elim (Bool-cases (j == k)) [
    | inl h2 ↦ rw (hit_count d service k i j h1 h2) (ground arith)
    | inr h2 ↦ ground arith
  ]
  | inr h1 ↦ ground arith
]

add_sub : (a b : ℕ) → (a + b) - a ≡ b
add_sub a b = omega arith

started-service :
    (d : ℕ → Option ℕ) (service i : ℕ) {n : ℕ}
    → get_or_zero (d i) ≡ n
    → get_or_zero (put d service (get_or_zero (d service) + 1) i) ≡ one_if (i == service) + n
started-service d service i h = elim (Bool-cases (i == service)) [
  | inl hit ↦ rw (ap d (sym ((==_iff i service).0 hit))) (ground arith)
  | inr miss ↦ ground arith
]

finished-service :
    (d : ℕ → Option ℕ) (service i : ℕ) {n : ℕ}
    → get_or_zero (d i) ≡ one_if (i == service) + n
    → get_or_zero (put d service (get_or_zero (d service) - 1) i) ≡ n
finished-service d service i h = elim (Bool-cases (i == service)) [
  | inl hit ↦ rw (ap d (sym ((==_iff i service).0 hit))) (ground arith)
  | inr miss ↦ ground arith
]

finished-observed :
    (d : ℕ → Option ℕ) (service now i : ℕ) {n k : ℕ}
    → n ≡ one_if (i == service) + k
    → (is_some (d i) ≡ true) ⊎ (n ≡ 0)
    → (is_some (put d service now i) ≡ true) ⊎ (k ≡ 0)
finished-observed d service now i e h = ground arith

own_positive :
    (m : GatewayMetrics) (r : Request) (rest : List Request)
    → get_or_zero (m.active r.service)
      ≡ one_if (r.service == r.service) + requests_of r.service rest
    → leb (get_or_zero (m.active r.service)) 0 ≡ false
own_positive m r rest h = ground arith

started-Counted :
    (m : GatewayMetrics) (open_requests : List Request) (r : Request) (now : ℕ)
    → Counted m open_requests
    → Counted (request_started m r.service r.replica now) (r ∷ open_requests)
unfolding request_started
started-Counted m open_requests r now c = record {
  services = λ i. started-service m.active r.service i (c.services i);
  replicas = λ i j.
      started-replicas m.replica_active r.service r.replica i j
      ∙ ap (λ n. one_if ((i == r.service) && is_replica r.replica j) + n) (c.replicas i j);
  observed = λ i. ground (arith, c.observed i);
}

finished-Counted :
    (m : GatewayMetrics) (before : List Request) (r : Request) (after : List Request) (now : ℕ)
    → Counted m (before ++ r ∷ after)
    → Counted (request_finished m r.service r.replica now) (before ++ after)
unfolding request_finished
finished-Counted m before r after now c =
    let own : (leb (get_or_zero (m.active r.service)) 0 ≡ false) =
      own_positive m r (before ++ after)
        (c.services r.service ∙ requests_of-insert r.service before r after) in
    rw own (record {
      services = λ i.
          finished-service m.active r.service i
            (c.services i ∙ requests_of-insert i before r after);
      replicas = λ i j.
          finished-replicas m.replica_active r.service r.replica i j
          ∙ ap (λ n. n - one_if ((i == r.service) && is_replica r.replica j))
              (c.replicas i j ∙ replica_requests_of-insert i j before r after)
          ∙ add_sub (one_if ((i == r.service) && is_replica r.replica j))
              (replica_requests_of i j (before ++ after));
      observed = λ i.
          finished-observed m.observed_at r.service now i (requests_of-insert i before r after)
            (c.observed i);
    })

pub Trace-Counted :
    {m : GatewayMetrics} {open_requests : List Request}
    → Trace m open_requests
    → Counted m open_requests
Trace-Counted nothing = record {
  services = λ i. refl;
  replicas = λ i j. refl;
  observed = λ i. inr refl;
}
Trace-Counted (starts {m} {open_requests} t r now) =
    started-Counted m open_requests r now (Trace-Counted t)
Trace-Counted (finishes {m} before r after t now) =
    finished-Counted m before r after now (Trace-Counted t)
