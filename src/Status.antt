-- ===== src/Status.antt =====
-- The views of the backends in gowan/src/state.go, `snapshot_backends` and `write_state_file`, and in
-- gowan/src/api.go, `status_handler`. The JSON encoder, and whether a call of the file system
-- succeeds, are given.
pub mod StateFile
pub mod Totals
use luci_app_gowan.Common.{
  ℕ, ◌-◌, ℤ, pos, negsuc, ◌+ℤ◌, add64, u64, int_max, leb, Bool, true, false, Option, none, some,
  List, [], ◌∷◌, ◌++◌, map, Bytes, codes, is_blank, Dict, lookup, insert, delete, if◌then◌else◌,
}
use luci_app_gowan.Balancer.{Backend, Fleet}
use luci_app_gowan.Reload.{backend_ip}

pub record BackendState : Type 0 where
  pub name : Bytes
  pub ip : Bytes
  pub iface : Bytes
  pub ratio : ℤ
  pub metric : ℤ
  pub status : Bytes
  pub since : ℤ
  pub checks_ok : ℕ
  pub checks_failed : ℕ
  pub total_conns : ℕ
  pub active_conns : ℤ

unfoldable pub backend_state : Backend → BackendState
unfolding backend_ip
backend_state lb = record {
  name = lb.name;
  ip = backend_ip lb;
  iface = lb.iface;
  ratio = lb.contention_ratio;
  metric = lb.metric;
  status = if lb.up then codes "up" else codes "down";
  since = lb.status_since;
  checks_ok = lb.checks_ok;
  checks_failed = lb.checks_failed;
  total_conns = lb.total_conns;
  active_conns = lb.active_conns;
}

unfoldable pub snapshot_backends : Fleet → List BackendState
unfolding backend_state
snapshot_backends g = map (λ a. backend_state (g.cells a)) g.lb_list

-- `a + b` on an int64.
abbrev pub wrap_int64 : ℤ → ℤ
wrap_int64 (pos n) = if leb n int_max then pos n else negsuc (u64 - 1 - n)
wrap_int64 (negsuc n) = if leb n int_max then negsuc n else pos (u64 - 1 - n)

pub record ApiStatus : Type 0 where
  pub uptime_seconds : ℤ
  pub total_connections : ℕ  -- uint64
  pub active_connections : ℤ
  pub backends : List BackendState

-- One round of the loop over the snapshot.
abbrev add_to : ApiStatus → BackendState → ApiStatus
add_to r b = record r {
  total_connections = add64 r.total_connections b.total_conns;
  active_connections = wrap_int64 (r.active_connections +ℤ b.active_conns);
}

unfoldable pub add_all : ApiStatus → List BackendState → ApiStatus
unfolding ◌+ℤ◌
add_all r [] = r
add_all r (b ∷ bs) = add_all (add_to r b) bs

-- The answer to a request, whose method is GET or not; none is the error 405.
unfoldable pub status_handler : Bool → ℤ → Fleet → Option ApiStatus
unfolding snapshot_backends add_all
status_handler false uptime g = none
status_handler true uptime g =
    let backends = snapshot_backends g in
    some (
      add_all
        (record {
          uptime_seconds = uptime;
          total_connections = 0;
          active_connections = pos 0;
          backends = backends;
        })
        backends)

abbrev pub Disk : Type 0
Disk = Dict Bytes

-- What becomes of the calls: what stands in the file while it is written, whether the write succeeds
-- and what it leaves if not, and whether the renaming succeeds. None is for a file that was not
-- opened.
pub record DiskCalls : Type 0 where
  pub torn : Option Bytes
  pub writes : Bool
  pub left : Option Bytes
  pub renames : Bool

-- The contents of a file, if it was opened.
abbrev pub put : Disk → Bytes → Option Bytes → Disk
put disk path none = disk
put disk path (some contents) = insert path contents disk

-- `os.Rename`: what stands in the file moves.
rename : Disk → Bytes → Bytes → Disk
rename disk tmp path = elim (lookup tmp disk) [
  | none ↦ disk
  | some contents ↦ insert path contents (delete tmp disk)
]

-- The disk after each change.
stages : Disk → Bytes → Bytes → DiskCalls → List Disk
unfolding rename
stages disk path contents x =
    let tmp = path ++ codes ".tmp" in
    let during = put disk tmp x.torn in
    let after = put during tmp (if x.writes then some contents else x.left) in
    if x.writes
    then if x.renames then during ∷ after ∷ rename after tmp path ∷ [] else during ∷ after ∷ []
    else during ∷ after ∷ []

encoded : Disk → Bytes → Option Bytes → DiskCalls → List Disk
unfolding stages
encoded disk path none x = []
encoded disk path (some json) x = stages disk path (json ++ (10 ∷ [])) x

unfoldable pub write_state_file :
    (List BackendState → Option Bytes) → Disk → Bytes → Fleet → DiskCalls → List Disk
unfolding encoded snapshot_backends
write_state_file marshal disk path g x =
    if is_blank path then [] else encoded disk path (marshal (snapshot_backends g)) x
