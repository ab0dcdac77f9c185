-- ===== src/Balancer.antt =====
-- The backend set of gowan/src/main.go and the weighted round robin over it: `load_balancer`,
-- `lb_list`, `lb_index`, `get_load_balancer`, `advance_lb_index`, `conn_started`, `conn_finished`.
-- Backends are shared by pointer, so they lie in a store and `lb_list` holds their addresses; each
-- function holds the mutex from its first line to its last, and is one step here.
pub mod Rotation
pub mod Tier
pub mod Pick
pub mod Choice
pub mod Cycle
pub mod Fairness
pub mod Connections
use luci_app_gowan.Common.{
  ℕ, zero, suc, ◌+◌, ℤ, pos, Bool, true, false, not, ◌&&◌, ◌||◌, Option, none, some, List, [], ◌∷◌,
  Bytes, incr, decr, add64, ltb_ℤ, leb_ℤ, eq_ℤ, ◌==◌, if◌then◌else◌, length, get_elem?, contains,
}

pub record Backend : Type 0 where
  pub name : Bytes
  pub address : Bytes
  pub iface : Bytes
  pub contention_ratio : ℤ
  pub metric : ℤ
  pub current_connections : ℤ
  pub up : Bool
  pub status_since : ℤ
  pub checks_ok : ℕ  -- uint64
  pub checks_failed : ℕ  -- uint64
  pub total_conns : ℕ  -- uint64
  pub active_conns : ℤ

-- The package's variables: the store, its first free address, `lb_list` and `lb_index`.
pub record Fleet : Type 0 where
  pub cells : ℕ → Backend
  pub fresh : ℕ
  pub lb_list : List ℕ
  pub lb_index : ℕ

abbrev pub update {ℓ} : {A : Type ℓ} → (ℕ → A) → ℕ → A → ℕ → A
update f a v b = if b == a then v else f b

-- A write through the pointer `a`.
abbrev pub modify : Fleet → ℕ → (Backend → Backend) → Fleet
modify g a f = record g { cells = update g.cells a (f (g.cells a)) }

-- An index out of range is a panic.
pub data Run {ℓ} (A : Type ℓ) : Type ℓ where
  panics : Run A
  returns : A → Run A

unfoldable pub conn_started : Fleet → ℕ → Fleet
conn_started g a =
    modify g a
      λ lb. record lb { total_conns = add64 lb.total_conns 1; active_conns = incr lb.active_conns }

unfoldable pub conn_finished : Fleet → ℕ → Fleet
conn_finished g a = modify g a λ lb. record lb { active_conns = decr lb.active_conns }

abbrev pub next_index : ℕ → ℕ → ℕ
next_index count i = if (i + 1) == count then 0 else i + 1

unfoldable pub advance_lb_index : Fleet → Fleet
advance_lb_index g = record g { lb_index = next_index (length g.lb_list) g.lb_index }

-- The variables of the first loop of `get_load_balancer`.
pub record ActiveTier : Type 0 where
  pub all_down : Bool
  pub active_metric : ℤ

unfoldable pub scan_tier : (ℕ → Backend) → List ℕ → ActiveTier → ActiveTier
scan_tier cells [] t = t
scan_tier cells (a ∷ rest) t =
    let lb = cells a in
    scan_tier cells rest (
      if lb.up
      then record {
        all_down = false;
        active_metric =
            if t.all_down || ltb_ℤ lb.metric t.active_metric then lb.metric else t.active_metric;
      }
      else t)

unfoldable pub active_tier : Fleet → ActiveTier
active_tier g = scan_tier g.cells g.lb_list (record { all_down = true; active_metric = pos 0 })

-- A `*big.Int` that marks indices: `nil`, or the indices whose bit is set.
abbrev pub Exclude : Type 0
Exclude = Option (List ℕ)

abbrev pub is_excluded : Exclude → ℕ → Bool
is_excluded none i = false
is_excluded (some tried) i = contains tried i

unfoldable pub eligible : ActiveTier → Exclude → Backend → ℕ → Bool
eligible t exclude lb i =
    not (is_excluded exclude i) && (t.all_down || (lb.up && eq_ℤ lb.metric t.active_metric))

-- A backend that is passed over gives up what is left of its turn.
unfoldable pub pass_over : Fleet → ℕ → Fleet
unfolding advance_lb_index
pass_over g a = advance_lb_index (modify g a λ lb. record lb { current_connections = pos 0 })

unfoldable pub hand_out : Fleet → ℕ → Fleet
unfolding advance_lb_index
hand_out g a =
    let n = incr (g.cells a).current_connections in
    if leb_ℤ (g.cells a).contention_ratio n
    then advance_lb_index (modify g a λ lb. record lb { current_connections = pos 0 })
    else modify g a λ lb. record lb { current_connections = n }

-- The second loop, over the rounds left. The result is a backend's address and its index.
unfoldable pub pick_loop : ℕ → ActiveTier → Exclude → Fleet → Run (Fleet × Option (ℕ × ℕ))
pick_loop zero t exclude g = returns (g, none)
pick_loop (suc tries) t exclude g = elim (get_elem? g.lb_list g.lb_index) [
  | none ↦ panics
  | some a ↦
      let rest = pick_loop tries t exclude (pass_over g a) in
      if eligible t exclude (g.cells a) g.lb_index
      then returns (hand_out g a, some (a, g.lb_index))
      else rest
]

unfoldable pub get_load_balancer : Fleet → Exclude → Run (Fleet × Option (ℕ × ℕ))
get_load_balancer g exclude = pick_loop (length g.lb_list) (active_tier g) exclude g
