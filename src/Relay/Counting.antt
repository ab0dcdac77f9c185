-- ===== src/Relay/Counting.antt =====
-- The flows of a table that use a backend, and what their opening and closing does to its count.
use luci_app_gowan.Common.{
  ℕ, zero, suc, ◌+◌, ◌<◌, ◌≡◌, refl, sym, ap, subst, ◌∙◌, inl, inr, ℤ, pos, negsuc, incr, decr,
  InInt64, decr-incr, Bool, true, false, none, List, [], ◌∷◌, arith, Bytes, Dict, lookup, insert,
  text_eq, All, ◌==◌, ==_iff, if◌then◌else◌, Bool-cases,
}
use luci_app_gowan.Balancer.{Backend, Fleet, update, conn_started, conn_finished}
use luci_app_gowan.Balancer.Connections.{started-here, started-there, finished-here, finished-there}
use luci_app_gowan.Flows.{UdpFlow, UdpTable, is_idle, sweep, with_closefn}
use luci_app_gowan.Relay.{close_flows}
use luci_app_gowan.Relay.Effects.{added}

-- `x++` so many times.
abbrev pub raised : ℕ → ℤ → ℤ
raised zero z = z
raised (suc n) z = incr (raised n z)

incr-InInt64 : (z : ℤ) → InInt64 z → InInt64 (incr z)
incr-InInt64 (pos n) h = ground (arith, h)
incr-InInt64 (negsuc zero) h = omega arith
incr-InInt64 (negsuc (suc n)) h = omega (arith, h)

pub raised-InInt64 : (n : ℕ) (z : ℤ) → InInt64 z → InInt64 (raised n z)
raised-InInt64 zero z h = h
raised-InInt64 (suc n) z h = incr-InInt64 (raised n z) (raised-InInt64 n z h)

abbrev pub one_if : Bool → ℕ
one_if b = if b then 1 else 0

-- The flows of a table that are relayed through a backend.
abbrev pub users : (ℕ → UdpFlow) → ℕ → Dict ℕ → ℕ
users cells b [] = 0
users cells b ((key, a) ∷ m) = one_if (b == (cells a).lb) + users cells b m

abbrev dead_users : (ℕ → UdpFlow) → ℕ → List ℕ → ℕ
dead_users cells b [] = 0
dead_users cells b (a ∷ dead) = one_if (b == (cells a).lb) + dead_users cells b dead

pub users-same :
    (cells cells' : ℕ → UdpFlow) (b : ℕ) (m : Dict ℕ)
    → ((a : ℕ) → (cells' a).lb ≡ (cells a).lb)
    → users cells' b m ≡ users cells b m
users-same cells cells' b [] same = refl
users-same cells cells' b ((key, a) ∷ m) same =
    ap (λ x. one_if (b == x) + users cells' b m) (same a)
    ∙ ap (λ n. one_if (b == (cells a).lb) + n) (users-same cells cells' b m same)

abbrev Below : ℕ → Bytes × ℕ → Type 0
Below fresh e = e.1 < fresh

users-update :
    (cells : ℕ → UdpFlow) (f : UdpFlow) (fresh b : ℕ) (m : Dict ℕ)
    → All (Below fresh) m
    → users (update cells fresh f) b m ≡ users cells b m
users-update cells f fresh b [] h = refl
users-update cells f fresh b ((key, a) ∷ m) h =
    let there : (a == fresh) ≡ false = ground (arith, h.0) in
    rw there (ap (λ n. one_if (b == (cells a).lb) + n) (users-update cells f fresh b m h.1))

users-insert :
    (cells : ℕ → UdpFlow) (b : ℕ) (key : Bytes) (a : ℕ) (m : Dict ℕ)
    → lookup key m ≡ none
    → users cells b (insert key a m) ≡ one_if (b == (cells a).lb) + users cells b m
unfolding lookup insert
users-insert cells b key a [] e = refl
users-insert cells b key a ((j, c) ∷ m) e = elim (Bool-cases (text_eq j key)) [
  | inl hit ↦ cc (rw hit at e)
  | inr miss ↦ rw miss (
      ap (λ n. one_if (b == (cells c).lb) + n) (users-insert cells b key a m (rw miss at e))
      ∙ omega arith)
]

pub users-added :
    (t : UdpTable) (key : Bytes) (f : UdpFlow) (b : ℕ)
    → All (Below t.fresh_flow) t.flows
    → lookup key t.flows ≡ none
    → users (added t key f).flow_cells b (added t key f).flows
      ≡ one_if (b == f.lb) + users t.flow_cells b t.flows
users-added t key f b below absent =
    let here : (t.fresh_flow == t.fresh_flow) ≡ true = (==_iff t.fresh_flow t.fresh_flow).1 refl in
    users-insert (update t.flow_cells t.fresh_flow f) b key t.fresh_flow t.flows absent
    ∙ rw here (
        ap (λ n. one_if (b == f.lb) + n) (users-update t.flow_cells f t.fresh_flow b t.flows below))

-- A reap splits the flows into those it keeps and the dead.
pub users-sweep :
    (cells : ℕ → UdpFlow) (timeout now : ℤ) (b : ℕ) (m : Dict ℕ)
    → users cells b m
      ≡ dead_users cells b (sweep cells timeout now m).dead
        + users cells b (sweep cells timeout now m).kept
unfolding sweep
users-sweep cells timeout now b [] = refl
users-sweep cells timeout now b ((key, a) ∷ m) = elim (Bool-cases (is_idle timeout now (cells a))) [
  | inl idle ↦ rw idle (omega (arith, users-sweep cells timeout now b m))
  | inr busy ↦ rw busy (omega (arith, users-sweep cells timeout now b m))
]

abbrev Closes : (ℕ → UdpFlow) → Bytes × ℕ → Type 0
Closes cells e = (cells e.1).closes ≡ true

pub with_closefn-sweep :
    (cells : ℕ → UdpFlow) (timeout now : ℤ) (m : Dict ℕ)
    → All (Closes cells) m
    → with_closefn cells (sweep cells timeout now m).dead ≡ (sweep cells timeout now m).dead
unfolding sweep with_closefn
with_closefn-sweep cells timeout now [] h = refl
with_closefn-sweep cells timeout now ((key, a) ∷ m) h =
    elim (Bool-cases (is_idle timeout now (cells a))) [
      | inl idle ↦ rw (idle, h.0) (ap (◌∷◌ a) (with_closefn-sweep cells timeout now m h.1))
      | inr busy ↦ rw busy (with_closefn-sweep cells timeout now m h.1)
    ]

pub started_count :
    (g : Fleet) (a b : ℕ)
    → ((conn_started g a).cells b).active_conns ≡ raised (one_if (b == a)) (g.cells b).active_conns
started_count g a b = elim (Bool-cases (b == a)) [
  | inl same ↦ rw same (
      subst (λ x. ((conn_started g a).cells x).active_conns ≡ incr (g.cells x).active_conns)
        (sym ((==_iff b a).0 same)) (started-here g a).1)
  | inr other ↦ rw other (ap (λ (lb : Backend). lb.active_conns) (started-there g b a other))
]

finished_count :
    (g : Fleet) (a b n : ℕ) (z : ℤ)
    → InInt64 z
    → (g.cells b).active_conns ≡ raised (one_if (b == a) + n) z
    → ((conn_finished g a).cells b).active_conns ≡ raised n z
finished_count g a b n z h e = elim (Bool-cases (b == a)) [
  | inl same ↦
      subst (λ x. ((conn_finished g a).cells x).active_conns ≡ decr (g.cells x).active_conns)
        (sym ((==_iff b a).0 same)) (finished-here g a).1
      ∙ ap decr (counted same)
      ∙ decr-incr (raised n z) (raised-InInt64 n z h)
  | inr other ↦
      ap (λ (lb : Backend). lb.active_conns) (finished-there g b a other)
      ∙ e
      ∙ rw other (ap (λ k. raised k z) (none_more n))
]
  where
    one_more : (n : ℕ) → 1 + n ≡ suc n
    one_more n = omega arith

    none_more : (n : ℕ) → 0 + n ≡ n
    none_more n = omega arith

    counted : (b == a) ≡ true → (g.cells b).active_conns ≡ raised (suc n) z
    counted same = e ∙ rw same (ap (λ k. raised k z) (one_more n))

-- The closing of flows takes back what they were counted as.
pub close_flows-active :
    (g : Fleet) (cells : ℕ → UdpFlow) (dead : List ℕ) (b n : ℕ) (z : ℤ)
    → InInt64 z
    → (g.cells b).active_conns ≡ raised (dead_users cells b dead + n) z
    → ((close_flows g cells dead).cells b).active_conns ≡ raised n z
unfolding close_flows
close_flows-active g cells [] b n z h e = e ∙ ap (λ k. raised k z) (none_more n)
  where
    none_more : (n : ℕ) → 0 + n ≡ n
    none_more n = omega arith
close_flows-active g cells (a ∷ dead) b n z h e =
    close_flows-active (conn_finished g (cells a).lb) cells dead b n z h (
      finished_count g (cells a).lb b (dead_users cells b dead + n) z h (
        e
        ∙ ap (λ k. raised k z) (together (one_if (b == (cells a).lb)) (dead_users cells b dead) n)))
  where
    together : (x y z : ℕ) → x + y + z ≡ x + (y + z)
    together x y z = omega arith
