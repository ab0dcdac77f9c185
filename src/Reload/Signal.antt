-- ===== src/Reload/Signal.antt =====
-- The answer to SIGHUP in gowan/src/reload.go: `reload_backends` and `reload_policies`, with
-- `load_backends_file` of gowan/src/config.go. What is read and decoded from the two files is given,
-- none for an error.
use luci_app_gowan.Common.{
  ℕ, ◌≡◌, ◌≢◌, refl, ap, subst, ◌∙◌, ◌⊎◌, inl, inr, ℤ, Bool, true, false, Option, none, some, List,
  [], arith, Bytes, is_blank, length, ◌==◌, if◌then◌else◌, Bool-cases, Option-cases,
}
use luci_app_gowan.Policy.{PolicyJson, PolicyRule, set_policies}
use luci_app_gowan.Checkers.{CheckConfig, Watch}
use luci_app_gowan.Reload.{BackendJson, load_backends, candidates, apply_backends}
use luci_app_gowan.Reload.Outcome.{Reloads, apply_backends-Reloads}

unfoldable pub load_backends_file : Option (List BackendJson) → Option (List BackendJson)
unfolding load_backends
load_backends_file none = none
load_backends_file (some doc) = load_backends doc

-- A file of policies that cannot be read leaves the rules as they are.
unfoldable pub reload_policies :
    Bytes → Option (List PolicyJson) → List PolicyRule → List PolicyRule
reload_policies path none rules = rules
reload_policies path (some list) rules = if is_blank path then rules else set_policies list

-- The paths of the two files, and what stands in them.
pub record Files : Type 0 where
  pub backends_path : Bytes
  pub backends : Option (List BackendJson)
  pub policy_path : Bytes
  pub policies : Option (List PolicyJson)

-- The program's variables, and whether the state file is written again.
pub record Live : Type 0 where
  pub watch : Watch
  pub policy_rules : List PolicyRule
  pub reported : Bool

after_apply : Files → List PolicyRule → Watch × ℕ → Live
unfolding reload_policies
after_apply x rules (v, n) =
    if n == 0 then record { watch = v; policy_rules = rules; reported = false } else record {
      watch = v;
      policy_rules = reload_policies x.policy_path x.policies rules;
      reported = true;
    }

after_load :
    (Bytes → Bytes)
    → CheckConfig
    → ℤ
    → Files
    → Watch
    → List PolicyRule
    → Option (List BackendJson)
    → Live
unfolding after_apply apply_backends
after_load iface_of global now x w rules none = record {
  watch = w;
  policy_rules = rules;
  reported = false;
}
after_load iface_of global now x w rules (some list) =
    after_apply x rules (apply_backends iface_of global now w list)

unfoldable pub reload_backends :
    (Bytes → Bytes) → CheckConfig → ℤ → Files → Watch → List PolicyRule → Live
unfolding after_load load_backends_file
reload_backends iface_of global now x w rules =
    if is_blank x.backends_path
    then record { watch = w; policy_rules = rules; reported = false }
    else after_load iface_of global now x w rules (load_backends_file x.backends)

-- There is nothing to reload: no file is configured, it cannot be loaded, or it has no usable entry.
abbrev pub IsVain : (Bytes → Bytes) → Files → Type 0
IsVain iface_of x =
    (is_blank x.backends_path ≡ true)
    ⊎ ((load_backends_file x.backends ≡ none)
        ⊎ ((list : List BackendJson) × (load_backends_file x.backends ≡ some list)
            × (candidates iface_of list ≡ [])))

-- A file was configured and loaded, and its usable entries are the backends now.
pub record Reloaded (iface_of : Bytes → Bytes) (x : Files) (w : Watch) (rules : List PolicyRule)
    (after : Live) : Type 0 where
  pub configured : is_blank x.backends_path ≡ false
  pub list : List BackendJson
  pub loaded : load_backends_file x.backends ≡ some list
  pub usable : candidates iface_of list ≢ []
  pub reloads : Reloads w.fleet (candidates iface_of list) after.watch.fleet
  pub policies_kept :
      (is_blank x.policy_path ≡ true) ⊎ (x.policies ≡ none) → after.policy_rules ≡ rules
  pub policies_read :
      (ps : List PolicyJson)
      → is_blank x.policy_path ≡ false
      → x.policies ≡ some ps
      → after.policy_rules ≡ set_policies ps
  pub reported : after.reported ≡ true

-- Nothing changed, for a reason, or the backends were reloaded.
abbrev pub IsAnswered : (Bytes → Bytes) → Files → Watch → List PolicyRule → Live → Type 0
IsAnswered iface_of x w rules after =
    (IsVain iface_of x × (after ≡ record { watch = w; policy_rules = rules; reported = false }))
    ⊎ Reloaded iface_of x w rules after

reload_policies-kept :
    (path : Bytes) (file : Option (List PolicyJson)) (rules : List PolicyRule)
    → (is_blank path ≡ true) ⊎ (file ≡ none)
    → reload_policies path file rules ≡ rules
unfolding reload_policies
reload_policies-kept path none rules why = refl
reload_policies-kept path (some ps) rules (inl off) = rw off refl
reload_policies-kept path (some ps) rules (inr e) = cc e

reload_policies-read :
    (path : Bytes) (file : Option (List PolicyJson)) (rules : List PolicyRule)
    (ps : List PolicyJson)
    → is_blank path ≡ false
    → file ≡ some ps
    → reload_policies path file rules ≡ set_policies ps
unfolding reload_policies
reload_policies-read path file rules ps on e = rw e (rw on refl)

after_load-some :
    (iface_of : Bytes → Bytes) (global : CheckConfig) (now : ℤ) (x : Files) (w : Watch)
    (rules : List PolicyRule) (list : List BackendJson)
    → is_blank x.backends_path ≡ false
    → load_backends_file x.backends ≡ some list
    → IsAnswered iface_of x w rules (after_load iface_of global now x w rules (some list))
unfolding after_load after_apply
after_load-some iface_of global now x w rules list on e =
    elim (apply_backends-Reloads iface_of global now w list) [
      | inl (unusable, same) ↦ inl (inr (inr (list, e, unusable)), rw (same, after_apply) refl)
      | inr (some_left, count, r) ↦
          let changed : ((apply_backends iface_of global now w list).1 == 0) ≡ false =
            ground (arith, some_left) in
          inr (record {
            configured = on;
            list = list;
            loaded = e;
            usable = λ none_left. some_left (count ∙ ap length none_left);
            reloads = rw changed r;
            policies_kept =
                λ why. rw changed (reload_policies-kept x.policy_path x.policies rules why);
            policies_read = λ ps on' file.
                rw changed (reload_policies-read x.policy_path x.policies rules ps on' file);
            reported = rw changed refl;
          })
    ]

-- A reload for which no file is configured, whose file cannot be loaded or has no usable entry changes
-- nothing, and the state file is not written. Any other lists as many backends as there are usable
-- entries, at least one, with `lb_index` at 0; keeps the verdict and the counters of every backend
-- that was there, listed or not; goes on with the single listed backend that has an entry's host, at
-- the entry's place; and takes the rules of the policies file, or keeps the old ones if no such file is
-- configured or it cannot be read.
pub reload_backends-Reloaded :
    (iface_of : Bytes → Bytes) (global : CheckConfig) (now : ℤ) (x : Files) (w : Watch)
    (rules : List PolicyRule)
    → IsAnswered iface_of x w rules (reload_backends iface_of global now x w rules)
unfolding reload_backends
reload_backends-Reloaded iface_of global now x w rules =
    elim (Bool-cases (is_blank x.backends_path)) [
      | inl off ↦ inl (inl off, rw off refl)
      | inr on ↦ elim (Option-cases (load_backends_file x.backends)) [
        | inl e ↦ inl (inr (inl e), rw (on, e) (unfold after_load in refl))
        | inr (list, e) ↦
            let run : after_load iface_of global now x w rules (some list)
                ≡ reload_backends iface_of global now x w rules =
              rw (reload_backends, on, e) refl in
            subst (IsAnswered iface_of x w rules) run
              (after_load-some iface_of global now x w rules list on e)
      ]
    ]
