-- ===== src/Controller/Sequel/Domain.antt =====
-- Reconciliations of internal/controller/domain_controller.go that follow one another: what one `Reconcile`
-- leaves to the next.
use mailu_operator.Common.{◌≡◌, refl, ap, ◌∙◌, true, none, some, arith, [], ◌∷◌}
use mailu_operator.Common.Result.{Result, ok, err}
use mailu_operator.Http.{Net, document}
use mailu_operator.Client.{Client, has_slash_suffix, with_request_editor_fn}
use mailu_operator.Client.Construction.{new_client_again, new_client_complete}
use mailu_operator.Controller.Sequel.{Same}
use mailu_operator.Client.Calls
use mailu_operator.Api.Domain
use mailu_operator.Api.Domain.{Domain}
use mailu_operator.Api.Domain.RoundTrip as DomainWritten
use mailu_operator.Resource.{Object, Cluster, IsLawful}
use mailu_operator.Resource.Specs.{DomainSpec}
use mailu_operator.Controller.{
  Ctx, Outcome, Lookup, finished, ensure_client, apply_patches, authorize,
}
use mailu_operator.Controller.Replies.{answer}
use mailu_operator.Controller.Flow.Finalizers.{patched}
use mailu_operator.Controller.Flow.Outcomes.{ensure_client_keeps}
use mailu_operator.Controller.Domain as DomainController
use mailu_operator.Controller.Finalizer.{domain_finalizer_live}
use mailu_operator.Controller.Convergence.{domain_echo_converges}

module _ (net : Net) (cluster : Cluster net.World DomainSpec) where
  decide_domain-Same :
      (api : Client net) (l : Lookup Domain) (s : Ctx net DomainSpec)
      → Same s (DomainController.decide net cluster api l s).1
  unfolding DomainController.decide DomainController.create DomainController.update
      DomainController.delete DomainController.create_domain DomainController.update_domain
      DomainController.delete_domain
  decide_domain-Same api l s = (ground arith, ground arith, ground arith)

  proceed_domain-Same :
      (r : Result (Client net)) (s : Ctx net DomainSpec)
      → Same s (DomainController.proceed net cluster r s).1
  unfolding DomainController.proceed DomainController.get_domain
  proceed_domain-Same (err e) s = (refl, refl, refl)
  proceed_domain-Same (ok api) s =
      let (l, t) = DomainController.get_domain net cluster api s in
      let (x, y, z) = decide_domain-Same api l t in (x, y, z)

  guard_domain-Same :
      (s : Ctx net DomainSpec) → Same s (DomainController.guard_finalizer net cluster s)
  unfolding DomainController.guard_finalizer
  guard_domain-Same s = (ground arith, ground arith, ground arith)

  release_domain-Same :
      (o : Object DomainSpec) (r : Outcome) (s : Ctx net DomainSpec)
      → Same s (DomainController.release_finalizer net cluster o r s)
  unfolding DomainController.release_finalizer
  release_domain-Same o r s = (ground arith, ground arith, ground arith)

  -- Behind the creation of the client, the steps of a reconciliation keep all of these.
  after_client :
      (s : Ctx net DomainSpec)
      → Same
          (ensure_client (DomainController.guard_finalizer net cluster s)).1
          (DomainController.reconcile net cluster s).1
  unfolding DomainController.reconcile DomainController.reconcile_steps apply_patches
  after_client s =
      let (r, t) = ensure_client (DomainController.guard_finalizer net cluster s) in
      let (x, u) = DomainController.proceed net cluster r t in
      let (a, b, c) = proceed_domain-Same r t in
      let (d, e, f) = release_domain-Same s.object x u in (d ∙ a, e ∙ b, f ∙ c)

  domain_spec_kept :
      (s : Ctx net DomainSpec)
      → (DomainController.reconcile net cluster s).1.object.spec ≡ s.object.spec
  domain_spec_kept s =
      (after_client s).0
      ∙ ap (λ o. o.spec) (ensure_client_keeps (DomainController.guard_finalizer net cluster s))
      ∙ (guard_domain-Same s).0

  domain_deletion_kept :
      (s : Ctx net DomainSpec)
      → (DomainController.reconcile net cluster s).1.object.meta.deletion_timestamp
        ≡ s.object.meta.deletion_timestamp
  domain_deletion_kept s =
      (after_client s).1
      ∙ ap (λ o. o.meta.deletion_timestamp)
          (ensure_client_keeps (DomainController.guard_finalizer net cluster s))
      ∙ (guard_domain-Same s).1

  -- Take a live domain, any answers of Mailu to a first `Reconcile`, and a lawful cluster, where
  -- `AddFinalizer` adds the finalizer. If Mailu then answers the lookup of a second `Reconcile`, made by the
  -- client that the first one left, with the document that the spec asks for, and that document is writable,
  -- the second one finishes with the spec of the first and the metadata that the first one left, and after
  -- its lookup the world changes by the two patches alone.
  pub domain_settles_next :
      IsLawful cluster
      → (s : Ctx net DomainSpec) (api : Client net) → s.object.meta.deletion_timestamp ≡ none
      → DomainWritten.IsWritable (DomainController.new_domain s.object.spec)
      → (DomainController.reconcile net cluster s).1.reconciler.api_client ≡ some api
      → (Calls.find_domain net api s.object.spec.name []
          (DomainController.reconcile net cluster s).1.world).0
        ≡ answer 200 (document (Domain.marshal (DomainController.new_domain s.object.spec)))
      → let (_, t) = DomainController.reconcile net cluster s in
        let (r, u) = DomainController.reconcile net cluster t in
        (r ≡ finished)
        × (u.object.spec ≡ s.object.spec)
        × (u.object.meta ≡ t.object.meta)
        × (u.world
            ≡ patched cluster t.object u.object
                (Calls.find_domain net api s.object.spec.name [] t.world).1)
  domain_settles_next lawful s api live writable client echoed =
      let (_, t) = DomainController.reconcile net cluster s in
      let (_, u) = DomainController.reconcile net cluster t in
      let same = domain_spec_kept s in
      let (a, b, c, d) =
        domain_echo_converges net cluster t api client (domain_deletion_kept s ∙ live)
          (domain_finalizer_live net cluster lawful s live) (rw same writable) (rw same echoed) in
      (
        a,
        b ∙ same,
        c,
        d
            ∙ ap
                (λ x.
                  patched cluster t.object u.object (Calls.find_domain net api x.name [] t.world).1)
                same,
      )

  -- The first `Reconcile` of a domain leaves a client whose server ends with a slash, and whose one editor
  -- adds the authorization header of the token, whatever Mailu answers.
  pub domain_client_kept :
      (s : Ctx net DomainSpec)
      → s.reconciler.api_client ≡ none
      → (c : Client net) × ((DomainController.reconcile net cluster s).1.reconciler.api_client
          ≡ some c)
        × (has_slash_suffix c.server ≡ true)
        × (c.request_editors ≡ authorize s.reconciler.api_token ∷ [])
  unfolding ensure_client DomainController.guard_finalizer
  domain_client_kept s h =
      let fn = authorize s.reconciler.api_token in
      let (c, made, editors, doer, again) = new_client_again net s.reconciler.api_url fn in
      let slash =
        (new_client_complete net s.reconciler.api_url (with_request_editor_fn net fn ∷ []) c
          made).0 in
      (c, ground (arith, (after_client s).2), slash, editors)

  -- With a client at hand, it is kept, with the spec and the time of deletion.
  pub domain_run_kept :
      (s : Ctx net DomainSpec) (api : Client net)
      → s.reconciler.api_client ≡ some api
      → let t = (DomainController.reconcile net cluster s).1 in
        (t.object.spec ≡ s.object.spec)
        × (t.object.meta.deletion_timestamp ≡ s.object.meta.deletion_timestamp)
        × (t.reconciler.api_client ≡ some api)
  unfolding ensure_client DomainController.guard_finalizer
  domain_run_kept s api h =
      (domain_spec_kept s, domain_deletion_kept s, ground (arith, (after_client s).2))
