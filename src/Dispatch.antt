-- ===== src/Dispatch.antt =====
-- The dialling of gowan/src/dispatch.go, `dispatch`, and of gowan/src/main.go,
-- `handle_tunnel_connection`: pick a backend, dial through it, and on a failure mark it as tried and
-- pick again. What the network answers, what the clock shows, and what other goroutines do to the
-- program's variables between two attempts come from an environment.
pub mod Tried
pub mod Attempts
pub mod Replies
use luci_app_gowan.Common.{
  ℕ, zero, suc, ◌+◌, ℤ, pos, Bool, true, false, Option, none, some, List, [], ◌∷◌, ◌++◌, Bytes,
  atoi_value, if◌then◌else◌, length, is_blank,
}
use luci_app_gowan.Net.{parse_ip, split_host_port}
use luci_app_gowan.Balancer.{Run, panics, returns, conn_started}
use luci_app_gowan.Selection.{World, Request, Readings, pick_backend, round_robin_pick}

-- Attempts are counted from 0.
pub record Env : Type 0 where
  -- the readings of the clock in the pick of an attempt
  pub readings : ℕ → Readings
  -- whether the dial of an attempt succeeds, through the backend at an address
  pub dials : ℕ → ℕ → Bool
  -- what others do to the variables after the failed dial of an attempt, its health report included
  pub between : ℕ → World → World

-- How the loop ends: with the indices that failed, the latest first, and the backend that answered.
pub record Dialled : Type 0 where
  pub world : World
  pub tried : List ℕ
  pub backend : Option (ℕ × ℕ)

abbrev pub Pick : Type 0
Pick = ℕ → World → List ℕ → Run (World × Option (ℕ × ℕ))

-- `for { … }`; none if the fuel runs out.
unfoldable pub dial_loop : ℕ → Pick → Env → ℕ → World → List ℕ → Option (Run Dialled)
dial_loop zero pick env k w tried = none
dial_loop (suc fuel) pick env k w tried = elim (pick k w tried) [
  | panics ↦ some panics
  | returns (v, none) ↦ some (returns (record { world = v; tried = tried; backend = none }))
  | returns (v, some (a, i)) ↦ elim (env.dials k a) [
    | true ↦ some (
        returns (record {
          world = record v { fleet = conn_started v.fleet a };
          tried = tried;
          backend = some (a, i);
        }))
    | false ↦ dial_loop fuel pick env (suc k) (env.between k v) (i ∷ tried)
  ]
]

-- Every index fails at most once, so a round more than there are backends is enough.
abbrev pub rounds : World → ℕ
rounds w = suc (length w.fleet.lb_list)

-- What the client and the backend see of a dispatch.
pub record Dispatched : Type 0 where
  pub dialled : Dialled
  pub to_client : Bytes
  pub to_backend : Bytes
  pub closed : Bool

-- A SOCKS5 reply with an all-zero address.
abbrev pub socks_reply : ℕ → Bytes
socks_reply status = 5 ∷ status ∷ 0 ∷ 1 ∷ 0 ∷ 0 ∷ 0 ∷ 0 ∷ 0 ∷ 0 ∷ []

abbrev pub success : ℕ
success = 0

abbrev pub network_unreachable : ℕ
network_unreachable = 3

answer : Bool → Bytes → Dialled → Dispatched
answer socks prebuf d = elim d.backend [
  | none ↦ record {
    dialled = d;
    to_client = if socks then socks_reply network_unreachable else [];
    to_backend = [];
    closed = true;
  }
  | some _ ↦ record {
    dialled = d;
    to_client = if socks then socks_reply success else [];
    to_backend = prebuf;
    closed = false;
  }
]

abbrev pub map_run : {A B : Type 0} → (A → B) → Option (Run A) → Option (Run B)
map_run f none = none
map_run f (some panics) = some panics
map_run f (some (returns a)) = some (returns (f a))

-- The host of a peer's address, empty if it has none.
unfoldable pub client_ip_of : Bytes → Bytes
client_ip_of address = elim (split_host_port address) [ none ↦ [] | some (host, port) ↦ host ]

-- What `dispatch` takes from the address to dial, before its loop.
unfoldable pub request_of : Bytes → Bytes → Bytes → Request
unfolding client_ip_of
request_of peer dial_addr policy_host =
    let parts = elim (split_host_port dial_addr) as (λ _. Bytes × ℤ) [
      | none ↦ ([], pos 0)
      | some (h, p) ↦ (h, atoi_value p)
    ] in
    let (host, port) = parts in
    elim (parse_ip host) [
      | some _ ↦ record {
        client_ip = client_ip_of peer;
        dest_ip = host;
        dest_host = policy_host;
        dest_port = port;
      }
      | none ↦ record {
        client_ip = client_ip_of peer;
        dest_ip = [];
        dest_host = if is_blank policy_host then host else policy_host;
        dest_port = port;
      }
    ]

abbrev pub backend_pick : Env → Request → Pick
backend_pick env r k w tried = pick_backend w r tried (env.readings k)

abbrev pub tunnel_pick : Pick
tunnel_pick k w tried = round_robin_pick w tried

unfoldable pub dispatch :
    Env → World → Bytes → Bytes → Bytes → Bool → Bytes → Option (Run Dispatched)
unfolding dial_loop answer request_of
dispatch env w peer dial_addr policy_host socks prebuf =
    map_run (answer socks prebuf)
      (dial_loop (rounds w) (backend_pick env (request_of peer dial_addr policy_host)) env 0 w [])

-- In tunnel mode nothing is written and no policy is asked.
unfoldable pub handle_tunnel_connection : Env → World → Option (Run Dispatched)
unfolding dial_loop answer
handle_tunnel_connection env w =
    map_run (answer false []) (dial_loop (rounds w) tunnel_pick env 0 w [])
