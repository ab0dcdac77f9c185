-- ===== src/Startup/Backends.antt =====
-- What the arguments "a.b.c.d@weight" make of the fleet.
use luci_app_gowan.Common.{
  ℕ, zero, suc, ◌+◌, ◌/◌, ◌^◌, ◌≤◌, ◌<◌, ◌≡◌, ◌≢◌, refl, ap, ◌∙◌, inr, ℤ, pos, int_max, true, false,
  some, List, [], ◌∷◌, ◌++◌, map, arith, Bytes, is_blank, split, itoa, length, length-append, All,
  ◌==◌, ==_iff,
}
use luci_app_gowan.Net.{is_ipv4, v4_prefix}
use luci_app_gowan.Net.Print.{
  quad, host_port, Without, All-append, All-map, itoa-Without, split-append, split_whole,
  parse_ip-quad, atoi-itoa, value32,
}
use luci_app_gowan.Balancer.{Backend, Fleet, update}
use luci_app_gowan.Startup.Args.{
  Interface, get_iface_from_ip, contention_ratio_of, parse_parts, parse_all, allocate,
  parse_load_balancers,
}

-- An argument: an address and a weight.
pub record Spec : Type 0 where
  pub a : ℕ
  pub b : ℕ
  pub c : ℕ
  pub d : ℕ
  pub weight : ℕ

abbrev pub ip_text : Spec → Bytes
ip_text s = quad s.a s.b s.c s.d

abbrev pub spelled : Spec → Bytes
spelled s = ip_text s ++ (b'@' ∷ itoa s.weight)

-- The parts are bytes and a weight above 0, and the address is one of an interface.
pub record IsSpec (ifaces : List Interface) (s : Spec) : Type 0 where
  pub a_ok : s.a ≤ 255
  pub b_ok : s.b ≤ 255
  pub c_ok : s.c ≤ 255
  pub d_ok : s.d ≤ 255
  pub positive : 0 < s.weight
  pub small : s.weight ≤ int_max
  pub local : is_blank (get_iface_from_ip ifaces (ip_text s)) ≡ false

abbrev pub spec_backend : List Interface → ℤ → Spec → Backend
spec_backend ifaces now s = record {
  name = ip_text s;
  address = host_port (ip_text s) 0;
  iface = get_iface_from_ip ifaces (ip_text s);
  contention_ratio = pos s.weight;
  metric = pos 0;
  current_connections = pos 0;
  up = true;
  status_since = now;
  checks_ok = 0;
  checks_failed = 0;
  total_conns = 0;
  active_conns = pos 0;
}

abbrev pub spec_backends : List Interface → (ℕ → ℤ) → ℕ → List Spec → List Backend
spec_backends ifaces clock k [] = []
spec_backends ifaces clock k (s ∷ specs) =
    spec_backend ifaces (clock k) s ∷ spec_backends ifaces clock (suc k) specs

quad-Without : (sep a b c d : ℕ) → 57 < sep → Without sep (quad a b c d)
unfolding quad
quad-Without sep a b c d h =
    let free : (n : ℕ) → Without sep (itoa n) = λ n. itoa-Without sep n (inr h) in
    let app : (x y : Bytes) → Without sep x → Without sep y → Without sep (x ++ y) =
      λ x y. All-append (λ e. e ≢ sep) x y in
    let dot : b'.' ≢ sep = λ e. omega (arith, h, e) in
    app _ _ (free a) (dot, app _ _ (free b) (dot, app _ _ (free c) (dot, free d)))

split-spelled : (s : Spec) → split b'@' (spelled s) ≡ ip_text s ∷ itoa s.weight ∷ []
split-spelled s =
    split-append b'@' (ip_text s) (itoa s.weight) (quad-Without b'@' s.a s.b s.c s.d (omega arith))
    ∙ ap (◌∷◌ (ip_text s))
        (split_whole b'@' (itoa s.weight) (itoa-Without b'@' s.weight (inr (omega arith))))

is_ipv4-quad : (a b c d : ℕ) → a ≤ 255 → b ≤ 255 → c ≤ 255 → d ≤ 255 → is_ipv4 (quad a b c d) ≡ true
unfolding is_ipv4
is_ipv4-quad a b c d ka kb kc kd =
    rw (parse_ip-quad a b c d ka kb kc kd, is_ipv4)
      ((==_iff ((v4_prefix + value32 a b c d) / 2 ^ 32) 0xffff).1 (omega arith))

contention_ratio_of-itoa :
    (n : ℕ) → 0 < n → n ≤ int_max → contention_ratio_of (itoa n ∷ []) ≡ some (pos n)
unfolding contention_ratio_of
contention_ratio_of-itoa n p h = rw (contention_ratio_of, atoi-itoa n h) (ground (arith, p, h))

parse_parts-spec :
    (ifaces : List Interface) (now : ℤ) (s : Spec)
    → IsSpec ifaces s
    → parse_parts false ifaces now (split b'@' (spelled s)) ≡ some (spec_backend ifaces now s)
unfolding parse_parts
parse_parts-spec ifaces now s h =
    ap (parse_parts false ifaces now) (split-spelled s)
    ∙ rw
        (
          is_ipv4-quad s.a s.b s.c s.d h.a_ok h.b_ok h.c_ok h.d_ok,
          h.local,
          contention_ratio_of-itoa s.weight h.positive h.small,
        )
        refl

parse_all-spelled :
    (ifaces : List Interface) (clock : ℕ → ℤ) (k : ℕ) (specs : List Spec)
    → All (IsSpec ifaces) specs
    → parse_all false ifaces clock k (map spelled specs) ≡ some (spec_backends ifaces clock k specs)
unfolding parse_all
parse_all-spelled ifaces clock k [] h = refl
parse_all-spelled ifaces clock k (s ∷ specs) h =
    rw (parse_parts-spec ifaces (clock k) s h.0, parse_all-spelled ifaces clock (suc k) specs h.1)
      refl

-- A backend whose turn has not begun, in the only tier and up.
pub record IsRested (b : Backend) : Type 0 where
  pub is_up : b.up ≡ true
  pub tier : b.metric ≡ pos 0
  pub unused : b.current_connections ≡ pos 0
  pub ratio : (r : ℕ) × (b.contention_ratio ≡ pos (suc r)) × (suc r ≤ int_max)

spec_backend-IsRested :
    (ifaces : List Interface) (now : ℤ) (s : Spec)
    → IsSpec ifaces s
    → IsRested (spec_backend ifaces now s)
spec_backend-IsRested ifaces now s h = record {
  is_up = refl;
  tier = refl;
  unused = refl;
  ratio = positive s.weight h.positive h.small;
}
  where
    positive : (n : ℕ) → 0 < n → n ≤ int_max → (r : ℕ) × (pos n ≡ pos (suc r)) × (suc r ≤ int_max)
    positive zero p q = absurd (omega (arith, p))
    positive (suc n) p q = (n, refl, q)

spec_backends-IsRested :
    (ifaces : List Interface) (clock : ℕ → ℤ) (k : ℕ) (specs : List Spec)
    → All (IsSpec ifaces) specs
    → All IsRested (spec_backends ifaces clock k specs)
spec_backends-IsRested ifaces clock k [] h = tt
spec_backends-IsRested ifaces clock k (s ∷ specs) h = (
  spec_backend-IsRested ifaces (clock k) s h.0,
  spec_backends-IsRested ifaces clock (suc k) specs h.1,
)

abbrev Placed : (ℕ → Backend) → ℕ → ℕ → Type 0
Placed cells fresh a = (a < fresh) × IsRested (cells a)

update-Placed :
    (cells : ℕ → Backend) (fresh : ℕ) (b : Backend) (a : ℕ)
    → Placed cells fresh a
    → Placed (update cells fresh b) (suc fresh) a
update-Placed cells fresh b a (l, h) =
    let there : (a == fresh) ≡ false = ground (arith, l) in (omega (arith, l), rw there h)

allocate-IsRested :
    (g : Fleet) (bs : List Backend)
    → All IsRested bs
    → All (Placed g.cells g.fresh) g.lb_list
    → All (Placed (allocate g bs).cells (allocate g bs).fresh) (allocate g bs).lb_list
unfolding allocate
allocate-IsRested g [] h k = k
allocate-IsRested g (b ∷ bs) h k =
    let here : (g.fresh == g.fresh) ≡ true = (==_iff g.fresh g.fresh).1 refl in
    let cells : ℕ → Backend = update g.cells g.fresh b in
    allocate-IsRested
      (record g { cells = cells; fresh = suc g.fresh; lb_list = g.lb_list ++ g.fresh ∷ [] }) bs h.1
      (All-append (Placed cells (suc g.fresh)) g.lb_list (g.fresh ∷ [])
        (All-map g.lb_list (λ a p. update-Placed g.cells g.fresh b a p) k)
        ((omega arith, rw here h.0), tt))

length-allocate :
    (g : Fleet) (bs : List Backend) → length (allocate g bs).lb_list ≡ length g.lb_list + length bs
unfolding allocate
length-allocate g [] = omega arith
length-allocate g (b ∷ bs) =
    length-allocate
      (record g {
        cells = update g.cells g.fresh b;
        fresh = suc g.fresh;
        lb_list = g.lb_list ++ g.fresh ∷ [];
      })
      bs
    ∙ omega (arith, length-append g.lb_list (g.fresh ∷ []))

allocate-index : (g : Fleet) (bs : List Backend) → (allocate g bs).lb_index ≡ g.lb_index
unfolding allocate
allocate-index g [] = refl
allocate-index g (b ∷ bs) =
    allocate-index
      (record g {
        cells = update g.cells g.fresh b;
        fresh = suc g.fresh;
        lb_list = g.lb_list ++ g.fresh ∷ [];
      })
      bs

length-spec_backends :
    (ifaces : List Interface) (clock : ℕ → ℤ) (k : ℕ) (specs : List Spec)
    → length (spec_backends ifaces clock k specs) ≡ length specs
length-spec_backends ifaces clock k [] = refl
length-spec_backends ifaces clock k (s ∷ specs) =
    omega (arith, length-spec_backends ifaces clock (suc k) specs)

-- The fleet that well-formed arguments give.
pub record Rests (n : ℕ) (index : ℕ) (g : Fleet) : Type 0 where
  pub count : length g.lb_list ≡ n
  pub at_index : g.lb_index ≡ index
  pub rested : All (λ a. IsRested (g.cells a)) g.lb_list

pub parse_load_balancers-Rests :
    (ifaces : List Interface) (clock : ℕ → ℤ) (g : Fleet) (s : Spec) (specs : List Spec)
    → All (IsSpec ifaces) (s ∷ specs)
    → (h : Fleet) × (parse_load_balancers (map spelled (s ∷ specs)) false ifaces clock g ≡ some h)
      × Rests (length (s ∷ specs)) g.lb_index h
unfolding parse_load_balancers
parse_load_balancers-Rests ifaces clock g s specs h =
    let bs = spec_backends ifaces clock 0 (s ∷ specs) in
    let g0 : Fleet = record g { lb_list = [] } in
    (
      allocate g0 bs,
      rw (parse_all-spelled ifaces clock 0 (s ∷ specs) h, parse_load_balancers) refl,
      record {
        count =
            length-allocate g0 bs ∙ omega (arith, length-spec_backends ifaces clock 0 (s ∷ specs));
        at_index = allocate-index g0 bs;
        rested =
            All-map (allocate g0 bs).lb_list (λ a p. p.1)
              (allocate-IsRested g0 bs (spec_backends-IsRested ifaces clock 0 (s ∷ specs) h) tt);
      },
    )
