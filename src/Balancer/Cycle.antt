-- ===== src/Balancer/Cycle.antt =====
-- The weights: how often each backend is handed out in a full turn of the round robin.
use luci_app_gowan.Common.{
  ℕ, suc, ◌≤◌, ◌<◌, ◌≡◌, ap, ◌∙◌, pos, false, some, List, [], ◌∷◌, ◌++◌, arith, get_elem?, length,
  int_max, lt_length_of_get_elem?, ◌-◌, ◌≢◌,
}
use luci_app_gowan.Balancer.{
  Fleet, Exclude, returns, is_excluded, hand_out, pick_loop, active_tier, get_load_balancer,
  next_index,
}
use luci_app_gowan.Balancer.Pick.{pick_loop-hit}
use luci_app_gowan.Balancer.Choice.{IsActive, active-eligible}

-- Connections one after the other, none of them a retry: the indices handed out, in order.
pub data Serves (exclude : Exclude) : Fleet → List ℕ → Fleet → Type 0 where
  rest : {g : Fleet} → Serves exclude g [] g
  serve :
      {g h f : Fleet} {a i : ℕ} {is : List ℕ}
      → get_load_balancer g exclude ≡ returns (h, some (a, i))
      → Serves exclude h is f
      → Serves exclude g (i ∷ is) f

pub Serves-append :
    {exclude : Exclude} {g h f : Fleet} {is js : List ℕ}
    → Serves exclude g is h
    → Serves exclude h js f
    → Serves exclude g (is ++ js) f
Serves-append rest q = q
Serves-append (serve e p) q = serve e (Serves-append p q)

-- The first call hands out the entry at `lb_index`, if it is eligible.
pub serve_here :
    (g : Fleet) (exclude : Exclude) {a : ℕ}
    → get_elem? g.lb_list g.lb_index ≡ some a
    → IsActive g a
    → is_excluded exclude g.lb_index ≡ false
    → get_load_balancer g exclude ≡ returns (hand_out g a, some (a, g.lb_index))
unfolding get_load_balancer
serve_here g exclude entry active free =
    let lt = lt_length_of_get_elem? g.lb_list g.lb_index entry in
    let e : length g.lb_list ≡ suc (length g.lb_list - 1) = omega arith in
    ap (λ n. pick_loop n (active_tier g) exclude g) e
    ∙ pick_loop-hit (active_tier g) exclude g entry (length g.lb_list - 1)
        (active-eligible g exclude g.lb_index _ entry active free)

-- `hand_out` in the middle of a turn, and at its end.
pub hand_out_more :
    (g : Fleet) (a c r : ℕ)
    → (g.cells a).current_connections ≡ pos c
    → (g.cells a).contention_ratio ≡ pos r
    → suc c < r
    → r ≤ int_max
    → ((hand_out g a).lb_index ≡ g.lb_index)
      × (((hand_out g a).cells a).current_connections ≡ pos (suc c))
      × ((b : ℕ)
          → b ≢ a
          → ((hand_out g a).cells b).current_connections ≡ (g.cells b).current_connections)
unfolding hand_out
hand_out_more g a c r e w lt m = (ground arith, ground arith, λ b ne. ground arith)

pub hand_out_last :
    (g : Fleet) (a c r : ℕ)
    → (g.cells a).current_connections ≡ pos c
    → (g.cells a).contention_ratio ≡ pos r
    → suc c ≡ r
    → r ≤ int_max
    → ((hand_out g a).lb_index ≡ next_index (length g.lb_list) g.lb_index)
      × (((hand_out g a).cells a).current_connections ≡ pos 0)
      × ((b : ℕ)
          → b ≢ a
          → ((hand_out g a).cells b).current_connections ≡ (g.cells b).current_connections)
unfolding hand_out
hand_out_last g a c r e w lt m = (ground arith, ground arith, λ b ne. ground arith)
