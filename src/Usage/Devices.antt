-- ===== src/Usage/Devices.antt =====
-- The device names that `backend_devices` lists: none twice, and exactly those of the list.
use luci_app_gowan.Common.{
  ℕ, zero, suc, ◌≡◌, refl, ◌∙◌, ◌≢◌, inl, inr, Bool, true, false, not, ◌&&◌, ◌||◌, some, List, [],
  ◌∷◌, ◌++◌, arith, Bytes, text_eq, text_eq_iff, text_eq_refl, get_elem?, if◌then◌else◌, Bool-cases,
  is_blank,
}
use luci_app_gowan.Balancer.{Backend}
use luci_app_gowan.Usage.{member, add_devices}

-- No name stands twice.
abbrev pub Distinct : List Bytes → Type 0
Distinct [] = Unit {0}
Distinct (d ∷ ds) = (member d ds ≡ false) × Distinct ds

member-snoc :
    (d e : Bytes) (ds : List Bytes) → member d (ds ++ e ∷ []) ≡ (member d ds || text_eq e d)
member-snoc d e [] = ground arith
member-snoc d e (c ∷ ds) = ground (arith, member-snoc d e ds)

Distinct-snoc :
    (e : Bytes) (ds : List Bytes) → member e ds ≡ false → Distinct ds → Distinct (ds ++ e ∷ [])
Distinct-snoc e [] m h = (refl, tt)
Distinct-snoc e (c ∷ ds) m (n, h) = (
  member-snoc c e ds ∙ ground (arith, text_eq_iff c e, text_eq_iff e c, text_eq_refl e),
  Distinct-snoc e ds (ground arith) h,
)

-- The body of the loop of `backend_devices`.
abbrev add_device : Bytes → List Bytes → List Bytes
add_device dev devs = if not (is_blank dev) && not (member dev devs) then devs ++ dev ∷ [] else devs

add_device-Distinct :
    (dev : Bytes) (devs : List Bytes) → Distinct devs → Distinct (add_device dev devs)
add_device-Distinct dev devs h = elim (Bool-cases (not (is_blank dev) && not (member dev devs))) [
  | inl new ↦ rw new (Distinct-snoc dev devs (ground arith) h)
  | inr old ↦ rw old h
]

pub add_devices-Distinct :
    (cells : ℕ → Backend) (l : List ℕ) (devs : List Bytes)
    → Distinct devs
    → Distinct (add_devices cells l devs)
unfolding add_devices
add_devices-Distinct cells [] devs h = h
add_devices-Distinct cells (a ∷ l) devs h =
    add_devices-Distinct cells l (add_device (cells a).iface devs)
      (add_device-Distinct (cells a).iface devs h)

-- A name is added if it is not blank, and no other name comes or goes.
member-add_device :
    (d dev : Bytes) (devs : List Bytes)
    → member d (add_device dev devs) ≡ (member d devs || (not (is_blank dev) && text_eq dev d))
member-add_device d dev devs = elim (Bool-cases (not (is_blank dev) && not (member dev devs))) [
  | inl new ↦ rw new (member-snoc d dev devs ∙ ground arith)
  | inr old ↦ rw old (ground (arith, text_eq_iff dev d))
]

-- Some listed backend has the device.
pub has_device : (ℕ → Backend) → List ℕ → Bytes → Bool
has_device cells [] d = false
has_device cells (a ∷ l) d =
    (not (is_blank (cells a).iface) && text_eq (cells a).iface d) || has_device cells l d

pub member-add_devices :
    (cells : ℕ → Backend) (l : List ℕ) (devs : List Bytes) (d : Bytes)
    → member d (add_devices cells l devs) ≡ (member d devs || has_device cells l d)
unfolding add_devices has_device
member-add_devices cells [] devs d = ground arith
member-add_devices cells (a ∷ l) devs d =
    member-add_devices cells l (add_device (cells a).iface devs) d
    ∙ ground (arith, member-add_device d (cells a).iface devs)

pub has_device_entry :
    (cells : ℕ → Backend) (l : List ℕ) (i a : ℕ)
    → get_elem? l i ≡ some a
    → is_blank (cells a).iface ≡ false
    → has_device cells l (cells a).iface ≡ true
unfolding has_device
has_device_entry cells [] i a e b = cc
has_device_entry cells (c ∷ l) zero a e b = ground (arith, text_eq_refl (cells a).iface)
has_device_entry cells (c ∷ l) (suc i) a e b = ground (arith, has_device_entry cells l i a e b)

pub no_device :
    (cells : ℕ → Backend) (l : List ℕ) (d : Bytes)
    → ((i a : ℕ) → get_elem? l i ≡ some a → (cells a).iface ≢ d)
    → has_device cells l d ≡ false
unfolding has_device
no_device cells [] d h = refl
no_device cells (c ∷ l) d h =
    let here : (cells c).iface ≢ d = h 0 c refl in
    ground
      (arith, here, text_eq_iff (cells c).iface d, no_device cells l d (λ i a e. h (suc i) a e))
