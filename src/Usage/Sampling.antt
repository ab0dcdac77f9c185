-- ===== src/Usage/Sampling.antt =====
-- One round of the sampler: devices shared by several backends are counted once.
use luci_app_gowan.Common.{
  ℕ, ◌≡◌, refl, sym, ap, ◌∙◌, ◌≢◌, inl, inr, true, false, Option, none, some, List, [], ◌∷◌, arith,
  Bytes, text_eq, text_eq_iff, text_eq_refl, Dict, lookup, insert, lookup-insert, get_elem?,
  Bool-cases, is_blank,
}
use luci_app_gowan.Balancer.{Fleet}
use luci_app_gowan.Usage.{
  Date, DevUsage, apply_sample, usage_get, member, add_devices, backend_devices, sample_device,
  sample_devices, sample_usage,
}
use luci_app_gowan.Usage.Devices.{
  Distinct, add_devices-Distinct, member-add_devices, has_device_entry, no_device,
}

module _ (counters : Dict (ℕ × ℕ)) (now : Date) where
  sample_device_self :
      (d : Bytes) (m : Dict DevUsage) {rx tx : ℕ}
      → lookup d counters ≡ some (rx, tx)
      → lookup d (sample_device counters now d m) ≡ some (apply_sample (usage_get d m) rx tx now)
  unfolding sample_device
  sample_device_self d m {rx} {tx} e =
      rw (e, sample_device)
        (lookup-insert d d (apply_sample (usage_get d m) rx tx now) m ∙ rw (text_eq_refl d) refl)

  sample_device-other :
      (d e : Bytes) (m : Dict DevUsage)
      → text_eq e d ≡ false
      → lookup d (sample_device counters now e m) ≡ lookup d m
  unfolding sample_device
  sample_device-other d e m n =
      elim (lookup e counters)
        as (λ (o : Option (ℕ × ℕ)).
          lookup d (elim o [
            | none ↦ m
            | some (rx, tx) ↦ insert e (apply_sample (usage_get e m) rx tx now) m
          ])
          ≡ lookup d m) [
            | none ↦ refl
            | some p ↦ lookup-insert e d (apply_sample (usage_get e m) p.0 p.1 now) m ∙ rw n refl
          ]

  sample_devices-absent :
      (d : Bytes) (devs : List Bytes) (m : Dict DevUsage)
      → member d devs ≡ false
      → lookup d (sample_devices counters now devs m) ≡ lookup d m
  unfolding sample_devices
  sample_devices-absent d [] m n = refl
  sample_devices-absent d (e ∷ devs) m n =
      sample_devices-absent d devs (sample_device counters now e m) (ground arith)
      ∙ sample_device-other d e m (ground arith)

  usage_get-same :
      (d : Bytes) (m k : Dict DevUsage) → lookup d m ≡ lookup d k → usage_get d m ≡ usage_get d k
  unfolding usage_get
  usage_get-same d m k e = rw (e, usage_get) refl

  sample_devices-present :
      (d : Bytes) (devs : List Bytes) (m : Dict DevUsage) {rx tx : ℕ}
      → Distinct devs
      → member d devs ≡ true
      → lookup d counters ≡ some (rx, tx)
      → lookup d (sample_devices counters now devs m)
        ≡ some (apply_sample (usage_get d m) rx tx now)
  unfolding sample_devices
  sample_devices-present d [] m h p e = cc
  sample_devices-present d (c ∷ devs) m {rx} {tx} (n, h) p e = elim (Bool-cases (text_eq c d)) [
    | inl same ↦
        let eq : c ≡ d = (text_eq_iff c d).0 same in
        sample_devices-absent d devs (sample_device counters now c m)
          (ap (λ x. member x devs) (sym eq) ∙ n)
        ∙ rw eq (sample_device_self d m e)
    | inr other ↦
        sample_devices-present d devs (sample_device counters now c m) h (ground arith) e
        ∙ ap (λ u. some (apply_sample u rx tx now))
            (usage_get-same d (sample_device counters now c m) m (sample_device-other d c m other))
  ]

  sample_devices-unread :
      (d : Bytes) (devs : List Bytes) (m : Dict DevUsage)
      → lookup d counters ≡ none
      → lookup d (sample_devices counters now devs m) ≡ lookup d m
  unfolding sample_devices sample_device
  sample_devices-unread d [] m e = refl
  sample_devices-unread d (c ∷ devs) m e =
      sample_devices-unread d devs (sample_device counters now c m) e
      ∙ elim (Bool-cases (text_eq c d)) [
        | inl same ↦ rw ((text_eq_iff c d).0 same) (rw (e, sample_device) refl)
        | inr other ↦ sample_device-other d c m other
      ]

-- One round of the sampler folds the reading of a device into its usage exactly once, however many
-- backends are on the device; the usage of a device that no listed backend is on, and that of a
-- device with no reading, stay.
pub sample_usage-lookup :
    (g : Fleet) (counters : Dict (ℕ × ℕ)) (now : Date) (m : Dict DevUsage)
    → ((i a rx tx : ℕ)
        → get_elem? g.lb_list i ≡ some a
        → is_blank (g.cells a).iface ≡ false
        → lookup (g.cells a).iface counters ≡ some (rx, tx)
        → lookup (g.cells a).iface (sample_usage g counters now m)
          ≡ some (apply_sample (usage_get (g.cells a).iface m) rx tx now))
      × ((d : Bytes)
          → ((i a : ℕ) → get_elem? g.lb_list i ≡ some a → (g.cells a).iface ≢ d)
          → lookup d (sample_usage g counters now m) ≡ lookup d m)
      × ((d : Bytes)
          → lookup d counters ≡ none
          → lookup d (sample_usage g counters now m) ≡ lookup d m)
unfolding sample_usage backend_devices
sample_usage-lookup g counters now m = (
  λ i a rx tx entry shown e.
      sample_devices-present counters now (g.cells a).iface (add_devices g.cells g.lb_list []) m
        (add_devices-Distinct g.cells g.lb_list [] tt)
        (member-add_devices g.cells g.lb_list [] (g.cells a).iface
          ∙ has_device_entry g.cells g.lb_list i a entry shown)
        e,
  λ d none_on.
      sample_devices-absent counters now d (add_devices g.cells g.lb_list []) m
        (member-add_devices g.cells g.lb_list [] d ∙ no_device g.cells g.lb_list d none_on),
  λ d unread. sample_devices-unread counters now d (add_devices g.cells g.lb_list []) m unread,
)
