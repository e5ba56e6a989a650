-- ===== src/Controller/Mailu/Domain/Settling.antt =====
-- Reconciliations of domains by internal/controller/domain_controller.go against a Mailu server that serves
-- its requests: when they are over, and what they touch.
use mailu_operator.Common.{
  ℕ, suc, String, ◌≡◌, ◌≢◌, refl, sym, ap, subst, ◌∙◌, true, false, Option, none, some, repeat,
  repeat-suc,
}
use mailu_operator.Http.{Net}
use mailu_operator.Client.{Client}
use mailu_operator.Api.Domain.{Domain}
use mailu_operator.Api.Domain.RoundTrip.{IsWritable}
use mailu_operator.Resource.{Object, Cluster, IsLawful, finalizer_name}
use mailu_operator.Resource.Specs.{DomainSpec}
use mailu_operator.Controller.{Ctx, Outcome, finished}
use mailu_operator.Controller.Domain as DomainController
use mailu_operator.Controller.Flow
use mailu_operator.Controller.Flow.{Plan, unchanged, change}
use mailu_operator.Controller.Flow.Finalizers.{patched}
use mailu_operator.Controller.Flow.Served.Rounds.{empties, settles_in_two, repeat-IsLive}
use mailu_operator.Controller.Flow.Untouched.{reconcile_keeps}
use mailu_operator.Controller.Updates.{domain_up_to_date}
use mailu_operator.Controller.Finalizer.{domain_finalizer_live}
use mathlib.Core.Path.{fun_ext}
use mailu_operator.Controller.Flow.Kinds.Domain.{
  domain_kind, domain_kind-IsTame, domain_reconcile_refines,
}
use mailu_operator.Controller.Mailu.Domain as DomainServer
use mailu_operator.Controller.Mailu.Domain.{IsDomainServer}

module _ (net : Net) (cluster : Cluster net.World DomainSpec) (api : Client net)
    (stored : net.World → String → Option Domain) (mailu : IsDomainServer net api stored)
    (patches_keep : (o original : Object DomainSpec) (w : net.World) (n : String)
      → stored (patched cluster original o w) n ≡ stored w n) where
  -- Against a Mailu server that serves every request as pkg/mailu/openapi.yaml promises, and a cluster
  -- whose patches leave the server alone: `Reconcile` of a domain with a client at hand leaves what Mailu
  -- stores under any other name as it is.
  pub domain_others_kept :
      (s : Ctx net DomainSpec) (m : String)
      → s.reconciler.api_client ≡ some api
      → m ≢ s.object.spec.name
      → stored (DomainController.reconcile net cluster s).1.world m ≡ stored s.world m
  domain_others_kept s m client other = rw domain_reconcile_refines (
      reconcile_keeps net cluster (domain_kind net cluster) (domain_kind-IsTame net cluster) api
        (λ w. stored w m) s.object.spec
        ((DomainServer.domain_kind-IsUntouched net cluster api stored mailu patches_keep)
          s.object.spec m other)
        s client refl)

  -- Against a Mailu server that serves every request as pkg/mailu/openapi.yaml promises, and a cluster
  -- whose patches leave the server alone: `Reconcile` of a domain that is being deleted, with a client at
  -- hand, leaves nothing stored under its name, and removes the finalizer.
  pub domain_deletion_completes :
      (s : Ctx net DomainSpec) (d : ℕ)
      → s.reconciler.api_client ≡ some api
      → s.object.meta.deletion_timestamp ≡ some d
      → let t = (DomainController.reconcile net cluster s).1 in
        (stored t.world s.object.spec.name ≡ none)
        × (t.object.meta.finalizers
            ≡ cluster.remove_finalizer s.object.meta.finalizers finalizer_name)
  domain_deletion_completes s d client deleted = rw domain_reconcile_refines (
      empties net cluster (domain_kind net cluster) (domain_kind-IsTame net cluster) api
        (DomainServer.stored_at net cluster api stored mailu patches_keep)
        (DomainServer.IsReady net cluster api stored mailu patches_keep)
        (DomainServer.Made net cluster api stored mailu patches_keep)
        (DomainServer.domain_kind-IsServed net cluster api stored mailu patches_keep) s d client
        deleted)

  abbrev next : Ctx net DomainSpec → Ctx net DomainSpec
  next s = (DomainController.reconcile net cluster s).1

  next-eq-flow : next ≡ (λ s. (Flow.reconcile net cluster (domain_kind net cluster) s).1)
  next-eq-flow =
      fun_ext
        λ s. ap (λ (p : Outcome × Ctx net DomainSpec). p.1) (domain_reconcile_refines net cluster s)

  domain_is_live :
      (n : ℕ) (s : Ctx net DomainSpec)
      → s.reconciler.api_client ≡ some api
      → s.object.meta.deletion_timestamp ≡ none
      → let t = repeat next n s in
        (t.reconciler.api_client ≡ some api)
        × (t.object.meta.deletion_timestamp ≡ none)
        × (t.object.spec ≡ s.object.spec)
  domain_is_live n s client live = rw next-eq-flow (
      repeat-IsLive net cluster (domain_kind net cluster) (domain_kind-IsTame net cluster) api
        (DomainServer.stored_at net cluster api stored mailu patches_keep)
        (DomainServer.IsReady net cluster api stored mailu patches_keep)
        (DomainServer.Made net cluster api stored mailu patches_keep)
        (DomainServer.domain_kind-IsServed net cluster api stored mailu patches_keep) n
        s.object.spec s (client, live, refl))

  domain_is_stored :
      (n : ℕ) (s : Ctx net DomainSpec)
      → s.reconciler.api_client ≡ some api
      → s.object.meta.deletion_timestamp ≡ none
      → (DomainServer.IsReady net cluster api stored mailu patches_keep) s.object.spec
      → stored (repeat next (suc (suc n)) s).world s.object.spec.name
        ≡ some (DomainController.new_domain s.object.spec)
  domain_is_stored n s client live ready = rw next-eq-flow (
      let (d, kept, same) =
        settles_in_two net cluster (domain_kind net cluster) (domain_kind-IsTame net cluster) api
          (DomainServer.stored_at net cluster api stored mailu patches_keep)
          (DomainServer.IsReady net cluster api stored mailu patches_keep)
          (DomainServer.Made net cluster api stored mailu patches_keep)
          (DomainServer.domain_kind-IsServed net cluster api stored mailu patches_keep) n
          s.object.spec s (client, live, refl) ready in
      kept
      ∙ ap some (
          (DomainServer.domain_plan_is_wanted net cluster api stored mailu patches_keep)
            s.object.spec d same))

  -- Against a Mailu server that serves every request as pkg/mailu/openapi.yaml promises, and a cluster
  -- whose patches leave the server alone: take a live domain whose update is writable, a client at hand,
  -- and a lawful cluster. After two reconciliations or more, whatever Mailu stored before: the spec is the
  -- same, Mailu stores the domain that the spec asks for, and one more `Reconcile` finishes.
  pub domain_settles_in_two :
      IsLawful cluster
      → (n : ℕ) (s : Ctx net DomainSpec) → s.reconciler.api_client ≡ some api
      → s.object.meta.deletion_timestamp ≡ none
      → IsWritable (DomainController.new_domain s.object.spec)
      → let t = repeat (λ u. (DomainController.reconcile net cluster u).1) (suc (suc n)) s in
        (t.object.spec ≡ s.object.spec)
        × (stored t.world s.object.spec.name ≡ some (DomainController.new_domain s.object.spec))
        × ((DomainController.reconcile net cluster t).0 ≡ finished)
  domain_settles_in_two lawful n s client live ready =
      let t = repeat next (suc (suc n)) s in
      let u = repeat next (suc n) s in
      let (client', live', same) = domain_is_live (suc (suc n)) s client live in
      let (_, before, _) = domain_is_live (suc n) s client live in
      let kept = domain_is_stored n s client live ready in
      (
        same,
        kept,
        (domain_up_to_date net cluster t api client' live'
            (subst
              (λ (x : Ctx net DomainSpec).
                cluster.contains_finalizer x.object.meta.finalizers finalizer_name ≡ true)
              (sym (repeat-suc next (suc n) s)) (domain_finalizer_live net cluster lawful u before))
            ((DomainServer.domain_lookup net cluster api stored mailu patches_keep) t
              ∙ ap (λ (o : Option Domain). record { found = o; retry = false; error = none })
                  (ap (λ (x : DomainSpec). stored t.world x.name) same
                    ∙ kept
                    ∙ ap (λ (x : DomainSpec). some (DomainController.new_domain x)) (sym same)))).0,
      )
