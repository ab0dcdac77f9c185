-- ===== src/Tests/Reload.antt =====
-- A reload that keeps "wan2" and adds a backend.
use luci_app_gowan.Common.{pos, none, some, List, [], ◌∷◌, Bytes, codes}
use luci_app_gowan.Reload.{BackendJson}
use luci_app_gowan.Reload.Signal.{Files, reload_backends, IsAnswered, reload_backends-Reloaded}
use luci_app_gowan.Tests.Checkers.{watch, tcp_check}

abbrev entry : Bytes → BackendJson
entry ip = record { name = []; ip = ip; ratio = pos 1; metric = pos 0; check = none }

abbrev config : List BackendJson
config = entry (codes "10.0.2.52") ∷ entry (codes "10.0.3.53") ∷ []

abbrev iface_of : Bytes → Bytes
iface_of ip = codes "eth0"

abbrev files : Files
files = record {
  backends_path = codes "/tmp/backends.json";
  backends = some config;
  policy_path = [];
  policies = none;
}

reload_backends-Reloaded_example :
    IsAnswered iface_of files watch [] (reload_backends iface_of tcp_check (pos 9) files watch [])
reload_backends-Reloaded_example =
    reload_backends-Reloaded iface_of tcp_check (pos 9) files watch []
