-- ===== src/Reload.antt =====
-- The reload of gowan/src/reload.go, `apply_backends`, with `backend_ip` of gowan/src/state.go and
-- the settings of gowan/src/config.go: `backend_json`, the checks of `load_backends_file`, and
-- `merged_check_config`. The interface of an address comes from the system and is an argument.
pub mod Survivors
pub mod Outcome
pub mod Signal
use luci_app_gowan.Common.{
  ℕ, suc, ◌-◌, ◌*◌, ◌%◌, ℤ, pos, negsuc, pos_part, ltb_ℤ, ltb, u64, int_max, Bool, true, false, not,
  ◌&&◌, Option, none, some, List, [], ◌∷◌, ◌++◌, map, Bytes, codes, is_blank, Dict, lookup, insert,
  length, if◌then◌else◌,
}
use luci_app_gowan.Net.{is_ipv4, split_host_port}
use luci_app_gowan.Balancer.{Backend, Fleet, update, modify}
use luci_app_gowan.Health.{at_least_one}
use luci_app_gowan.Checkers.{CheckConfig, Watch, start_health_checks, stop_health_checks}

pub record BackendCheckJson : Type 0 where
  pub ctype : Bytes
  pub target : Bytes
  pub interval : ℤ
  pub timeout : ℤ
  pub fail : ℤ
  pub rise : ℤ

pub record BackendJson : Type 0 where
  pub name : Bytes
  pub ip : Bytes
  pub ratio : ℤ
  pub metric : ℤ
  pub check : Option BackendCheckJson

-- What `load_backends_file` makes of the backends of a document; none is an error.
unfoldable pub load_backends : List BackendJson → Option (List BackendJson)
load_backends [] = none
load_backends (b ∷ bs) =
    some (map (λ (x : BackendJson). record x { ratio = at_least_one x.ratio }) (b ∷ bs))

-- `time.Duration(n) * time.Second` for a count above 0, in nanoseconds, with int64's wrap.
unfoldable pub seconds : ℕ → ℤ
seconds n = let m = (n * 1000000000) % u64 in if ltb int_max m then negsuc (u64 - 1 - m) else pos m

abbrev pub above_zero : ℤ → Bool
above_zero n = ltb_ℤ (pos 0) n

merge_check : CheckConfig → BackendCheckJson → CheckConfig
unfolding seconds
merge_check cfg c = record {
  ctype = if is_blank c.ctype then cfg.ctype else c.ctype;
  target = if is_blank c.target then cfg.target else c.target;
  interval = if above_zero c.interval then seconds (pos_part c.interval) else cfg.interval;
  timeout = if above_zero c.timeout then seconds (pos_part c.timeout) else cfg.timeout;
  fail = if above_zero c.fail then c.fail else cfg.fail;
  rise = if above_zero c.rise then c.rise else cfg.rise;
}

unfoldable pub merged_check_config : CheckConfig → BackendJson → CheckConfig
unfolding merge_check
merged_check_config global b = elim b.check [ none ↦ global | some c ↦ merge_check global c ]

pub record Candidate : Type 0 where
  pub bj : BackendJson
  pub iface : Bytes

-- The backends with an IPv4 address on some interface.
unfoldable pub candidates : (Bytes → Bytes) → List BackendJson → List Candidate
candidates iface_of [] = []
candidates iface_of (b ∷ list) =
    let rest = candidates iface_of list in
    if not (is_ipv4 b.ip)
    then rest
    else if is_blank (iface_of b.ip)
    then rest
    else record { bj = b; iface = iface_of b.ip } ∷ rest

unfoldable pub backend_ip : Backend → Bytes
backend_ip lb = elim (split_host_port lb.address) [ none ↦ lb.address | some (host, port) ↦ host ]

-- The map `old`, from addresses of hosts to backends.
unfoldable pub old_backends : (ℕ → Backend) → List ℕ → Dict ℕ → Dict ℕ
unfolding backend_ip
old_backends cells [] m = m
old_backends cells (a ∷ l) m = old_backends cells l (insert (backend_ip (cells a)) a m)

-- `if lb.name == "" { … }`
abbrev with_name : Candidate → Backend → Backend
with_name c lb = if is_blank lb.name then record lb { name = c.bj.ip } else lb

-- A backend that survives gets the new settings.
unfoldable pub refit : Candidate → Backend → Backend
refit c lb = with_name c (record lb {
  name = c.bj.name;
  iface = c.iface;
  contention_ratio = c.bj.ratio;
  metric = c.bj.metric;
  current_connections = pos 0;
})

unfoldable pub new_backend : Candidate → ℤ → Backend
new_backend c now = with_name c (record {
  name = c.bj.name;
  address = c.bj.ip ++ codes ":0";
  iface = c.iface;
  contention_ratio = c.bj.ratio;
  metric = c.bj.metric;
  current_connections = pos 0;
  up = true;
  status_since = now;
  checks_ok = 0;
  checks_failed = 0;
  total_conns = 0;
  active_conns = pos 0;
})

-- One round of the loop over the candidates; `lb_list` collects `newlist`.
unfoldable pub place : Dict ℕ → ℤ → Fleet → Candidate → Fleet
unfolding refit new_backend
place old now g c = elim (lookup c.bj.ip old) [
  | some a ↦ record g {
    cells = update g.cells a (refit c (g.cells a));
    lb_list = g.lb_list ++ a ∷ [];
  }
  | none ↦ record g {
    cells = update g.cells g.fresh (new_backend c now);
    fresh = suc g.fresh;
    lb_list = g.lb_list ++ g.fresh ∷ [];
  }
]

unfoldable pub place_all : Dict ℕ → ℤ → Fleet → List Candidate → Fleet
unfolding place
place_all old now g [] = g
place_all old now g (c ∷ cands) = place_all old now (place old now g c) cands

-- The backends behind a reload, where there is a candidate.
unfoldable pub new_fleet : ℤ → Fleet → List Candidate → Fleet
unfolding old_backends place_all
new_fleet now g cands =
    record (place_all (old_backends g.cells g.lb_list []) now (record g { lb_list = [] }) cands) {
      lb_index = 0;
    }

-- The result is the number of active backends.
unfoldable pub apply_backends :
    (Bytes → Bytes) → CheckConfig → ℤ → Watch → List BackendJson → Watch × ℕ
unfolding candidates new_fleet merged_check_config
apply_backends iface_of global now w list = elim (candidates iface_of list) [
  | [] ↦ (w, 0)
  | c ∷ cands ↦
      let g = new_fleet now w.fleet (c ∷ cands) in
      (
        start_health_checks (record (stop_health_checks w) { fleet = g })
            (map (λ x. merged_check_config global x.bj) (c ∷ cands)),
        length g.lb_list,
      )
]
