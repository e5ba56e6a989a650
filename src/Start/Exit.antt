-- ===== src/Start/Exit.antt =====
-- The exit status of `main` in cmd/main.go.
use mailu_operator.Common.{
  ℕ, String, ◌≡◌, refl, ◌↔◌, ◌≤◌, inl, inr, Option-cases, sym, subst, List, [], ◌∷◌, Option, none,
  some, arith,
}
use mailu_operator.Common.Run.{Run}
use mailu_operator.Common.Result.{Result-cases, ok}
use mailu_operator.Http.{Net}
use mailu_operator.Start.{Settings, configure, new_reconciler}
use mailu_operator.Start.Main.{
  Flags, domain, user, alias, Runtime, manager_options, or_exit, run_manager, make_manager, main,
}

module _ {W : Type 0} where
  -- All calls succeed, one after the other, from `w` to `v`.
  abbrev pub AllSucceed : List (Run W (Option String)) → W → W → Type 0
  AllSucceed [] w v = w ≡ v
  AllSucceed (c ∷ cs) w v = ((c w).0 ≡ none) × AllSucceed cs (c w).1 v

  -- A program that ends with status 0 if and only if `S` holds of the world it leaves, and else with 1.
  abbrev Ends : (W → Type 0) → ℕ × W → Type 0
  Ends S r = (r.0 ≡ 0 ↔ S r.1) × (r.0 ≤ 1)

  Ends-failed : (S : W → Type 0) (r : ℕ × W) (v : W) → r ≡ (1, v) → ¬ S v → Ends S r
  Ends-failed S r v p fails =
      subst (Ends S) (sym p) ((λ q. absurd (omega (arith, q)), λ q. absurd (fails q)), omega arith)

  Ends-same :
      (S T : W → Type 0) (r q : ℕ × W)
      → r ≡ q
      → ((v : W) → S v → T v)
      → ((v : W) → T v → S v)
      → Ends S q
      → Ends T r
  Ends-same S T r q p forth back ((to, from), bound) =
      subst (Ends T) (sym p) ((λ e. forth q.1 (to e), λ t. from (back q.1 t)), bound)

  abbrev in_order : List (Run W (Option String)) → Run W ℕ
  in_order [] w = (0, w)
  in_order (c ∷ cs) w = or_exit c (in_order cs) w

  or_exit-none :
      (c : Run W (Option String)) (rest : Run W ℕ) (w : W)
      → (c w).0 ≡ none
      → or_exit c rest w ≡ rest (c w).1
  unfolding or_exit
  or_exit-none c rest w p = rw (or_exit, p) refl

  or_exit-some :
      (c : Run W (Option String)) (rest : Run W ℕ) (w : W) (e : String)
      → (c w).0 ≡ some e
      → or_exit c rest w ≡ (1, (c w).1)
  unfolding or_exit
  or_exit-some c rest w e p = rw (or_exit, p) refl

  in_order-Ends :
      (cs : List (Run W (Option String))) (w : W) → Ends (AllSucceed cs w) (in_order cs w)
  in_order-Ends [] w = ((λ p. refl, λ p. refl), omega arith)
  in_order-Ends (c ∷ cs) w = elim (Option-cases (c w).0) [
    | inl p ↦
        Ends-same (AllSucceed cs (c w).1) (AllSucceed (c ∷ cs) w) (in_order (c ∷ cs) w)
          (in_order cs (c w).1) (or_exit-none c (in_order cs) w p) (λ v s. (p, s)) (λ v s. s.1)
          (in_order-Ends cs (c w).1)
    | inr (e, p) ↦
        Ends-failed (AllSucceed (c ∷ cs) w) (in_order (c ∷ cs) w) (c w).1
          (or_exit-some c (in_order cs) w e p) (λ q. absurd (cc (p, q.0)))
  ]

module _ (net : Net) {Config Manager : Type 0} (runtime : Runtime net Config Manager) where
  -- The calls on the manager.
  abbrev pub manager_calls : Settings → Manager → List (Run net.World (Option String))
  manager_calls c mgr =
      runtime.complete domain (new_reconciler net c) mgr
      ∷ runtime.complete user (new_reconciler net c) mgr
      ∷ runtime.complete alias (new_reconciler net c) mgr
      ∷ runtime.add_healthz_check "healthz" mgr
      ∷ runtime.add_readyz_check "readyz" mgr
      ∷ runtime.start mgr
      ∷ []

  abbrev Ran : net.World → Settings → Config → Manager → Flags → net.World → Type 0
  Ran w1 c k m flags =
      AllSucceed (manager_calls c m) (runtime.new_manager k (manager_options flags) w1).1

  -- The settings are complete, there is a configuration, the manager is made by it and the flags, and all
  -- calls on it succeed; `v` is the world after them.
  pub record Succeeds (lookup_env : String → Option String) (flags : Flags) (w v : net.World)
      : Type 0 where
    pub settings : Settings
    pub configured : configure lookup_env flags.settings ≡ some settings
    pub config : Config
    pub found : (runtime.get_config w).0 ≡ some config
    pub mgr : Manager
    pub made :
        (runtime.new_manager config (manager_options flags) (runtime.get_config w).1).0 ≡ ok mgr
    pub ran :
        AllSucceed
          (manager_calls settings mgr)
          (runtime.new_manager config (manager_options flags) (runtime.get_config w).1).1
          v

  -- Whatever the calls of controller-runtime do, `main` ends with status 0 or 1; and it ends with status 0
  -- if and only if the settings are complete, a configuration is found, the manager is made, and the
  -- reconcilers of domains, users and aliases are registered, both health checks added and the manager run,
  -- in this order and each without an error.
  pub main_ends :
      (lookup_env : String → Option String) (flags : Flags) (w : net.World)
      → let r = main net runtime lookup_env flags w in
        ((r.0 ≡ 0) ↔ Succeeds lookup_env flags w r.1) × (r.0 ≤ 1)
  unfolding main make_manager run_manager
  main_ends lookup_env flags w =
      let S = Succeeds lookup_env flags w in
      let r = main net runtime lookup_env flags w in
      let (found, w1) = runtime.get_config w in
      elim (Option-cases (configure lookup_env flags.settings)) [
        | inl p ↦ Ends-failed S r w (rw (main, p) refl) (λ q. absurd (cc (p, q.configured)))
        | inr (c, p) ↦ elim (Option-cases (runtime.get_config w).0) [
          | inl n ↦
              Ends-failed S r (runtime.get_config w).1 (rw (main, p, make_manager, n) refl)
                (λ q. absurd (cc (n, q.found)))
          | inr (k, g) ↦ elim (Result-cases (runtime.new_manager k (manager_options flags) w1).0) [
            | inl (e, n) ↦
                Ends-failed S r (runtime.new_manager k (manager_options flags) w1).1
                  (rw (main, p, make_manager, g, n) refl) (λ q. absurd (cc (n, g, q.found, q.made)))
            | inr (m, n) ↦
                Ends-same (Ran w1 c k m flags) S r
                  (in_order (manager_calls c m)
                    (runtime.new_manager k (manager_options flags) w1).1)
                  (rw (main, p, make_manager, g, n) refl)
                  (λ v ran. record {
                    settings = c;
                    configured = p;
                    config = k;
                    found = g;
                    mgr = m;
                    made = n;
                    ran = ran;
                  })
                  (λ v q.
                    let same_config : q.config ≡ k = cc (g, q.found) in
                    let same_mgr : q.mgr ≡ m = cc (n, q.made, same_config) in
                    let same_settings : q.settings ≡ c = cc (p, q.configured) in
                    subst (λ z. Ran w1 z k m flags v) same_settings
                      (subst (λ z. Ran w1 q.settings z m flags v) same_config
                        (subst (λ z. Ran w1 q.settings q.config z flags v) same_mgr q.ran)))
                  (in_order-Ends (manager_calls c m)
                    (runtime.new_manager k (manager_options flags) w1).1)
          ]
        ]
      ]
