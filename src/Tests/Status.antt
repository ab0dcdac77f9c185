-- ===== src/Tests/Status.antt =====
-- The state file of two backends, written where an older one stands, and the totals of two that are
-- in use.
use luci_app_gowan.Common.{
  ℕ, ◌==◌, ◌≡◌, pos, arith, if◌then◌else◌, ◌⊎◌, true, false, Option, none, some, List, [], ◌∷◌,
  Bytes, codes, lookup, All,
}
use luci_app_gowan.Balancer.{Fleet}
use luci_app_gowan.Status.{
  status_handler, BackendState, snapshot_backends, Disk, DiskCalls, write_state_file,
}
use luci_app_gowan.Status.StateFile.{IsWhole, line, is_written, latest, write_state_file-IsWhole}
use luci_app_gowan.Status.Totals.{sum_over, conns_of, summed, status_handler-sums}
use luci_app_gowan.Tests.Sample.{two_wans, wan1, wan2}

-- An encoder that knows one document.
abbrev marshal : List BackendState → Option Bytes
marshal states = some (codes "{}")

abbrev path : Bytes
path = codes "/tmp/gowan.json"

abbrev disk : Disk
disk = (path, codes "old") ∷ []

abbrev calls : DiskCalls
calls = record { torn = some (codes "{"); writes = true; left = none; renames = true }

write_state_file-IsWhole_example :
    All
      (IsWhole disk path (line (marshal (snapshot_backends two_wans))))
      (write_state_file marshal disk path two_wans calls)
    × ((is_written path (marshal (snapshot_backends two_wans)) calls ≡ false)
        ⊎ (lookup path (latest disk (write_state_file marshal disk path two_wans calls))
            ≡ line (marshal (snapshot_backends two_wans))))
write_state_file-IsWhole_example = write_state_file-IsWhole marshal disk path two_wans calls

abbrev busy : Fleet
busy = record two_wans {
  cells = λ a.
      if a == 0
      then record wan1 { total_conns = 5; active_conns = pos 2 }
      else record wan2 { total_conns = 7; active_conns = pos 1 };
}

abbrev busy_active : ℕ → ℕ
busy_active a = if a == 0 then 2 else 1

busy_counts : (a : ℕ) → (busy.cells a).active_conns ≡ pos (busy_active a)
busy_counts a = ground arith

status_handler-sums_example :
    status_handler true (pos 60) busy ≡ some (summed (pos 60) (snapshot_backends busy) 12 3)
unfolding sum_over conns_of
status_handler-sums_example =
    status_handler-sums true (pos 60) busy busy_active busy_counts (omega arith)
