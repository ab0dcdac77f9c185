-- ===== src/Status/Totals.antt =====
-- The sums that `status_handler` in gowan/src/api.go answers with.
use luci_app_gowan.Common.{
  ℕ, ◌+◌, ◌%◌, ◌≤◌, ◌≡◌, refl, ap, ◌∙◌, ℤ, pos, ◌+ℤ◌, Bool, true, false, none, some, List, [], ◌∷◌,
  map, arith, u64, int_max, add64, if◌then◌else◌,
}
use luci_app_gowan.Balancer.{Fleet}
use luci_app_gowan.Status.{
  BackendState, backend_state, snapshot_backends, wrap_int64, ApiStatus, add_all, status_handler,
}

-- The sum of a count over the places of a list of backends.
unfoldable pub sum_over : (ℕ → ℕ) → List ℕ → ℕ
sum_over f [] = 0
sum_over f (a ∷ l) = f a + sum_over f l

unfoldable pub conns_of : Fleet → ℕ → ℕ
conns_of g a = (g.cells a).total_conns

abbrev answer : ℤ → List BackendState → ℕ → ℤ → ApiStatus
answer uptime states total active = record {
  uptime_seconds = uptime;
  total_connections = total;
  active_connections = active;
  backends = states;
}

answer_same :
    (uptime : ℤ) (states : List BackendState) {t u : ℕ} {n m : ℤ}
    → t ≡ u
    → n ≡ m
    → answer uptime states t n ≡ answer uptime states u m
answer_same uptime states p q = λ i. answer uptime states (p i) (q i)

-- An answer with these sums, the first modulo 2 ^ 64.
abbrev pub summed : ℤ → List BackendState → ℕ → ℕ → ApiStatus
summed uptime states t n = answer uptime states (t % u64) (pos n)

summed_same :
    (uptime : ℤ) (states : List BackendState) {t u n m : ℕ}
    → t ≡ u
    → n ≡ m
    → summed uptime states t n ≡ summed uptime states u m
summed_same uptime states p q = λ i. summed uptime states (p i) (q i)

wrap_int64-sum :
    (n m : ℕ) (c : ℤ) → c ≡ pos m → n + m ≤ int_max → wrap_int64 (pos n +ℤ c) ≡ pos (n + m)
unfolding ◌+ℤ◌
wrap_int64-sum n m c e h = rw e (ground arith)

add64-sum : (t x : ℕ) → add64 (t % u64) x ≡ (t + x) % u64
add64-sum t x = omega arith

add_all-summed :
    (g : Fleet) (active : ℕ → ℕ) (uptime : ℤ) (states : List BackendState)
    → ((a : ℕ) → (g.cells a).active_conns ≡ pos (active a))
    → (l : List ℕ) (t n : ℕ) → n + sum_over active l ≤ int_max
    → add_all (summed uptime states t n) (map (λ a. backend_state (g.cells a)) l)
      ≡ summed uptime states (t + sum_over (conns_of g) l) (n + sum_over active l)
unfolding add_all sum_over conns_of backend_state
add_all-summed g active uptime states k [] t n h =
    summed_same uptime states (omega arith) (omega arith)
add_all-summed g active uptime states k (a ∷ l) t n h =
    ap (λ r. add_all r (map (λ b. backend_state (g.cells b)) l))
      (answer_same uptime states (add64-sum t (g.cells a).total_conns)
        (wrap_int64-sum n (active a) (g.cells a).active_conns (k a) (omega arith)))
    ∙ add_all-summed g active uptime states k l (t + (g.cells a).total_conns) (n + active a)
        (omega arith)
    ∙ summed_same uptime states (omega arith) (omega arith)

-- The answer to a GET sums up the whole snapshot: the connections of all listed backends modulo
-- 2 ^ 64, and the active ones exactly, where no backend counts fewer than 0 and the sum is an int64;
-- any other method is refused.
pub status_handler-sums :
    (get : Bool) (uptime : ℤ) (g : Fleet) (active : ℕ → ℕ)
    → ((a : ℕ) → (g.cells a).active_conns ≡ pos (active a))
    → sum_over active g.lb_list ≤ int_max
    → status_handler get uptime g ≡ (
        if get
        then some (
            summed uptime
              (snapshot_backends g)
              (sum_over (conns_of g) g.lb_list)
              (sum_over active g.lb_list))
        else none)
unfolding status_handler snapshot_backends
status_handler-sums false uptime g active k h = refl
status_handler-sums true uptime g active k h = ap some (
    add_all-summed g active uptime (snapshot_backends g) k g.lb_list 0 0 (omega (arith, h))
    ∙ summed_same uptime (snapshot_backends g) (omega arith) (omega arith))
