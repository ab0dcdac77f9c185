-- ===== src/Selection/Picks.antt =====
-- `pick_backend` as a whole.
use luci_app_gowan.Common.{
  ℕ, ◌≡◌, refl, sym, subst, ◌∙◌, Option, none, some, List, [], ◌∷◌, arith, Bytes, get_elem?, ℤ,
}
use luci_app_gowan.Balancer.{Fleet, Run, returns}
use luci_app_gowan.Balancer.Pick.{DifferInTurns, DifferInTurns-refl}
use luci_app_gowan.Balancer.Choice.{IsReady, IsActive}
use luci_app_gowan.Selection.{
  World, Request, Readings, request_flow, policy_backend, sticky_lookup, sticky_remember,
  round_robin_pick, pick_and_remember, after_lookup, after_policy, pick_backend,
}
use luci_app_gowan.Selection.Sound.{
  IsChoice, Picked, policy_backend-IsChoice, round_robin_pick-Picked,
}
use luci_app_gowan.Selection.Lookups.{Looked, sticky_lookup-Looked}

-- A choice that leaves the fleet as it was.
Picked-at_once :
    (w v : World) (c : ℕ × ℕ) (r : Looked w (v, some c))
    → IsReady w.fleet
    → Picked w [] (returns (v, some c))
Picked-at_once w v c r ready = record {
  after = v;
  chosen = some c;
  result = refl;
  choice = r.found;
  exhausted = λ e. cc;
  turns = rw r.same_fleet (DifferInTurns-refl w.fleet);
  ready = rw r.same_fleet ready;
  same_rules = r.same_rules;
  same_enabled = r.same_enabled;
  same_ttl = r.same_ttl;
}

sticky_remember_keeps :
    (w : World) (client : Bytes) (i : ℕ) (now : ℤ)
    → ((sticky_remember w client i now).fleet ≡ w.fleet)
      × ((sticky_remember w client i now).policy_rules ≡ w.policy_rules)
      × ((sticky_remember w client i now).sticky_enabled ≡ w.sticky_enabled)
      × ((sticky_remember w client i now).sticky_ttl ≡ w.sticky_ttl)
unfolding sticky_remember
sticky_remember_keeps w client i now = ground arith

pick_and_remember-Picked :
    (w : World) (client : Bytes) (now : ℤ)
    → IsReady w.fleet
    → Picked w [] (pick_and_remember w client now)
unfolding pick_and_remember
pick_and_remember-Picked w client now ready = by_choice p.chosen refl
  where
    p : Picked w [] (round_robin_pick w [])
    p = round_robin_pick-Picked w [] ready

    by_choice : (c : Option (ℕ × ℕ)) → p.chosen ≡ c → Picked w [] (pick_and_remember w client now)
    by_choice none e = record {
      after = p.after;
      chosen = none;
      result = rw (p.result, pick_and_remember) (rw (e, pick_and_remember) refl);
      choice = λ c q. cc;
      exhausted = λ q. p.exhausted e;
      turns = p.turns;
      ready = p.ready;
      same_rules = p.same_rules;
      same_enabled = p.same_enabled;
      same_ttl = p.same_ttl;
    }
    by_choice (some (a, i)) e =
        let (f, r, n, t) = sticky_remember_keeps p.after client i now in
        record {
          after = sticky_remember p.after client i now;
          chosen = some (a, i);
          result = rw (p.result, pick_and_remember) (rw (e, pick_and_remember) refl);
          choice = λ c q. p.choice c (e ∙ q);
          exhausted = λ q. cc;
          turns = rw f p.turns;
          ready = rw f p.ready;
          same_rules = r ∙ p.same_rules;
          same_enabled = n ∙ p.same_enabled;
          same_ttl = t ∙ p.same_ttl;
        }

-- A pick after a look at the mappings.
Picked-after_look :
    {w v : World} {o : Option (ℕ × ℕ)} {r : Run (World × Option (ℕ × ℕ))}
    → Looked w (v, o)
    → Picked v [] r
    → Picked w [] r
Picked-after_look {w} {v} {o} {r} l p = record {
  after = p.after;
  chosen = p.chosen;
  result = p.result;
  choice = λ c e. subst (λ g. IsChoice g [] c) l.same_fleet (p.choice c e);
  exhausted = λ e i a entry active.
      p.exhausted e i a
        (subst (λ (g : Fleet). get_elem? g.lb_list i ≡ some a) (sym l.same_fleet) entry)
        (subst (λ g. IsActive g a) (sym l.same_fleet) active);
  turns = subst (λ g. DifferInTurns g p.after.fleet) l.same_fleet p.turns;
  ready = p.ready;
  same_rules = p.same_rules ∙ l.same_rules;
  same_enabled = p.same_enabled ∙ l.same_enabled;
  same_ttl = p.same_ttl ∙ l.same_ttl;
}

after_lookup-Picked :
    (w v : World) (o : Option (ℕ × ℕ)) (client : Bytes) (t : Readings)
    → Looked w (v, o)
    → IsReady w.fleet
    → Picked w [] (after_lookup (v, o) client t)
unfolding after_lookup
after_lookup-Picked w v (some c) client t l ready = Picked-at_once w v c l ready
after_lookup-Picked w v none client t l ready =
    Picked-after_look l
      (pick_and_remember-Picked v client t.at_remember (subst IsReady (sym l.same_fleet) ready))

-- With `lb_index` in range a call never panics and leaves it in range. What it hands out is an entry
-- of the list that was not tried for this connection, and is up unless every backend is down; it
-- hands out nothing only if every active backend was tried. Of the fleet only turns and `lb_index`
-- change, and the rules and the sticky settings stay.
pub pick_backend-Picked :
    (w : World) (r : Request) (tried : List ℕ) (t : Readings)
    → IsReady w.fleet
    → Picked w tried (pick_backend w r tried t)
unfolding pick_backend
pick_backend-Picked w r (i ∷ is) t ready = round_robin_pick-Picked w (i ∷ is) ready
pick_backend-Picked w r [] t ready = by_policy (policy_backend w (request_flow r)) refl
  where
    by_policy :
        (o : Option (ℕ × ℕ))
        → policy_backend w (request_flow r) ≡ o
        → Picked w [] (after_policy o w r.client_ip t)
    by_policy (some c) e =
        Picked-at_once w w c
          (record {
            same_fleet = refl;
            same_rules = refl;
            same_enabled = refl;
            same_ttl = refl;
            found = λ d q. policy_backend-IsChoice w r (e ∙ q);
          })
          ready
    by_policy none e =
        after_lookup-Picked w (sticky_lookup w r.client_ip t).0 (sticky_lookup w r.client_ip t).1
          r.client_ip t (sticky_lookup-Looked w r.client_ip t) ready
