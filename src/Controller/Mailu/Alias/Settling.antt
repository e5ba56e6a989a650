-- ===== src/Controller/Mailu/Alias/Settling.antt =====
-- Reconciliations of aliases by internal/controller/alias_controller.go against a Mailu server that serves
-- its requests: when they are over, and what they touch.
use mailu_operator.Common.{
  ℕ, suc, String, ◌≡◌, ◌≢◌, refl, sym, ap, subst, ◌∙◌, true, false, Option, none, some, repeat,
  repeat-suc,
}
use mailu_operator.Http.{Net}
use mailu_operator.Client.{Client}
use mailu_operator.Api.Alias.{Alias}
use mailu_operator.Api.Alias.RoundTrip.{IsWritable}
use mailu_operator.Resource.{Object, Cluster, IsLawful, finalizer_name}
use mailu_operator.Resource.Specs.{AliasSpec}
use mailu_operator.Controller.{Ctx, Outcome, finished}
use mailu_operator.Controller.Alias as AliasController
use mailu_operator.Controller.Flow
use mailu_operator.Controller.Flow.{Plan, unchanged, change}
use mailu_operator.Controller.Flow.Finalizers.{patched}
use mailu_operator.Controller.Flow.Served.Rounds.{empties, settles_in_one, repeat-IsLive}
use mailu_operator.Controller.Flow.Untouched.{reconcile_keeps}
use mailu_operator.Controller.Updates.{alias_up_to_date}
use mailu_operator.Controller.Finalizer.{alias_finalizer_live}
use mathlib.Core.Path.{fun_ext}
use mailu_operator.Controller.Flow.Kinds.Alias.{
  alias_kind, alias_kind-IsTame, alias_plan, alias_reconcile_refines,
}
use mailu_operator.Controller.Mailu.Alias as AliasServer
use mailu_operator.Controller.Mailu.Alias.{IsAliasServer}

module _ (net : Net) (cluster : Cluster net.World AliasSpec) (api : Client net)
    (stored : net.World → String → Option Alias) (mailu : IsAliasServer net api stored)
    (patches_keep : (o original : Object AliasSpec) (w : net.World) (n : String)
      → stored (patched cluster original o w) n ≡ stored w n) where
  -- Against a Mailu server that serves every request as pkg/mailu/openapi.yaml promises, and a cluster
  -- whose patches leave the server alone: `Reconcile` of an alias with a client at hand leaves what Mailu
  -- stores under any other name as it is.
  pub alias_others_kept :
      (s : Ctx net AliasSpec) (m : String)
      → s.reconciler.api_client ≡ some api
      → m ≢ (AliasController.alias_email s.object.spec)
      → stored (AliasController.reconcile net cluster s).1.world m ≡ stored s.world m
  alias_others_kept s m client other = rw alias_reconcile_refines (
      reconcile_keeps net cluster (alias_kind net cluster) (alias_kind-IsTame net cluster) api
        (λ w. stored w m) s.object.spec
        ((AliasServer.alias_kind-IsUntouched net cluster api stored mailu patches_keep)
          s.object.spec m other)
        s client refl)

  -- Against a Mailu server that serves every request as pkg/mailu/openapi.yaml promises, and a cluster
  -- whose patches leave the server alone: `Reconcile` of an alias that is being deleted, with a client at
  -- hand, leaves nothing stored under its name, and removes the finalizer.
  pub alias_deletion_completes :
      (s : Ctx net AliasSpec) (d : ℕ)
      → s.reconciler.api_client ≡ some api
      → s.object.meta.deletion_timestamp ≡ some d
      → let t = (AliasController.reconcile net cluster s).1 in
        (stored t.world (AliasController.alias_email s.object.spec) ≡ none)
        × (t.object.meta.finalizers
            ≡ cluster.remove_finalizer s.object.meta.finalizers finalizer_name)
  alias_deletion_completes s d client deleted = rw alias_reconcile_refines (
      empties net cluster (alias_kind net cluster) (alias_kind-IsTame net cluster) api
        (AliasServer.stored_at net cluster api stored mailu patches_keep)
        (AliasServer.IsReady net cluster api stored mailu patches_keep)
        (AliasServer.Made net cluster api stored mailu patches_keep)
        (AliasServer.alias_kind-IsServed net cluster api stored mailu patches_keep) s d client
        deleted)

  abbrev next : Ctx net AliasSpec → Ctx net AliasSpec
  next s = (AliasController.reconcile net cluster s).1

  next-eq-flow : next ≡ (λ s. (Flow.reconcile net cluster (alias_kind net cluster) s).1)
  next-eq-flow =
      fun_ext
        λ s. ap (λ (p : Outcome × Ctx net AliasSpec). p.1) (alias_reconcile_refines net cluster s)

  alias_is_live :
      (n : ℕ) (s : Ctx net AliasSpec)
      → s.reconciler.api_client ≡ some api
      → s.object.meta.deletion_timestamp ≡ none
      → let t = repeat next n s in
        (t.reconciler.api_client ≡ some api)
        × (t.object.meta.deletion_timestamp ≡ none)
        × (t.object.spec ≡ s.object.spec)
  alias_is_live n s client live = rw next-eq-flow (
      repeat-IsLive net cluster (alias_kind net cluster) (alias_kind-IsTame net cluster) api
        (AliasServer.stored_at net cluster api stored mailu patches_keep)
        (AliasServer.IsReady net cluster api stored mailu patches_keep)
        (AliasServer.Made net cluster api stored mailu patches_keep)
        (AliasServer.alias_kind-IsServed net cluster api stored mailu patches_keep) n s.object.spec
        s (client, live, refl))

  creation_is_settled :
      (spec : AliasSpec) (a : Alias)
      → (AliasServer.Made net cluster api stored mailu patches_keep) spec a
      → alias_plan net cluster api spec a ≡ unchanged
  creation_is_settled spec a made =
      rw (AliasServer.wanted_is_covered spec a made)
        ((AliasServer.alias_unchanged net cluster api stored mailu patches_keep) spec)

  alias_is_stored :
      (n : ℕ) (s : Ctx net AliasSpec)
      → s.reconciler.api_client ≡ some api
      → s.object.meta.deletion_timestamp ≡ none
      → (AliasServer.IsReady net cluster api stored mailu patches_keep) s.object.spec
      → stored (repeat next (suc n) s).world (AliasController.alias_email s.object.spec)
        ≡ some (AliasController.new_alias s.object.spec)
  alias_is_stored n s client live ready = rw next-eq-flow (
      let (b, kept, same) =
        settles_in_one net cluster (alias_kind net cluster) (alias_kind-IsTame net cluster) api
          (AliasServer.stored_at net cluster api stored mailu patches_keep)
          (AliasServer.IsReady net cluster api stored mailu patches_keep)
          (AliasServer.Made net cluster api stored mailu patches_keep)
          (AliasServer.alias_kind-IsServed net cluster api stored mailu patches_keep)
          creation_is_settled n s.object.spec s (client, live, refl) ready in
      kept
      ∙ ap some (
          (AliasServer.alias_plan_is_wanted net cluster api stored mailu patches_keep) s.object.spec
            b same))

  -- Against a Mailu server that serves every request as pkg/mailu/openapi.yaml promises, and a cluster
  -- whose patches leave the server alone: take a live alias whose update is writable, a client at hand, and
  -- a lawful cluster. After one reconciliation or more, whatever Mailu stored before: the spec is the same,
  -- Mailu stores the alias that the spec asks for, and one more `Reconcile` finishes.
  pub alias_settles_in_one :
      IsLawful cluster
      → (n : ℕ) (s : Ctx net AliasSpec) → s.reconciler.api_client ≡ some api
      → s.object.meta.deletion_timestamp ≡ none
      → IsWritable (AliasController.new_alias s.object.spec)
      → let t = repeat (λ u. (AliasController.reconcile net cluster u).1) (suc n) s in
        (t.object.spec ≡ s.object.spec)
        × (stored t.world (AliasController.alias_email s.object.spec)
            ≡ some (AliasController.new_alias s.object.spec))
        × ((AliasController.reconcile net cluster t).0 ≡ finished)
  alias_settles_in_one lawful n s client live ready =
      let t = repeat next (suc n) s in
      let u = repeat next n s in
      let (client', live', same) = alias_is_live (suc n) s client live in
      let (_, before, _) = alias_is_live n s client live in
      let kept = alias_is_stored n s client live ready in
      (
        same,
        kept,
        (alias_up_to_date net cluster t api client' live'
            (subst
              (λ (x : Ctx net AliasSpec).
                cluster.contains_finalizer x.object.meta.finalizers finalizer_name ≡ true)
              (sym (repeat-suc next n s)) (alias_finalizer_live net cluster lawful u before))
            ((AliasServer.alias_lookup net cluster api stored mailu patches_keep) t
              ∙ ap (λ (o : Option Alias). record { found = o; retry = false; error = none })
                  (ap (λ (x : AliasSpec). stored t.world (AliasController.alias_email x)) same
                    ∙ kept
                    ∙ ap (λ (x : AliasSpec). some (AliasController.new_alias x)) (sym same)))).0,
      )
