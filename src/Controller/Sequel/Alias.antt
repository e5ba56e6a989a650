-- ===== src/Controller/Sequel/Alias.antt =====
-- Reconciliations of internal/controller/alias_controller.go that follow one another: what one `Reconcile`
-- leaves to the next.
use mailu_operator.Common.{◌≡◌, refl, ap, ◌∙◌, true, none, some, arith, [], ◌∷◌}
use mailu_operator.Common.Result.{Result, ok, err}
use mailu_operator.Http.{Net, document}
use mailu_operator.Client.{Client, has_slash_suffix, with_request_editor_fn}
use mailu_operator.Client.Construction.{new_client_again, new_client_complete}
use mailu_operator.Controller.Sequel.{Same}
use mailu_operator.Client.Calls
use mailu_operator.Api.Alias
use mailu_operator.Api.Alias.{Alias}
use mailu_operator.Api.Alias.RoundTrip as AliasWritten
use mailu_operator.Resource.{Object, Cluster, IsLawful}
use mailu_operator.Resource.Specs.{AliasSpec}
use mailu_operator.Controller.{
  Ctx, Outcome, Lookup, finished, ensure_client, apply_patches, authorize,
}
use mailu_operator.Controller.Replies.{answer}
use mailu_operator.Controller.Flow.Finalizers.{patched}
use mailu_operator.Controller.Flow.Outcomes.{ensure_client_keeps}
use mailu_operator.Controller.Alias as AliasController
use mailu_operator.Controller.Finalizer.{alias_finalizer_live}
use mailu_operator.Controller.Convergence.{alias_echo_converges}

module _ (net : Net) (cluster : Cluster net.World AliasSpec) where
  decide_alias-Same :
      (api : Client net) (l : Lookup Alias) (s : Ctx net AliasSpec)
      → Same s (AliasController.decide net cluster api l s).1
  unfolding AliasController.decide AliasController.create AliasController.update
      AliasController.delete AliasController.create_alias AliasController.update_alias
      AliasController.delete_alias
  decide_alias-Same api l s = (ground arith, ground arith, ground arith)

  proceed_alias-Same :
      (r : Result (Client net)) (s : Ctx net AliasSpec)
      → Same s (AliasController.proceed net cluster r s).1
  unfolding AliasController.proceed AliasController.get_alias
  proceed_alias-Same (err e) s = (refl, refl, refl)
  proceed_alias-Same (ok api) s =
      let (l, t) = AliasController.get_alias net cluster api s in
      let (x, y, z) = decide_alias-Same api l t in (x, y, z)

  guard_alias-Same :
      (s : Ctx net AliasSpec) → Same s (AliasController.guard_finalizer net cluster s)
  unfolding AliasController.guard_finalizer
  guard_alias-Same s = (ground arith, ground arith, ground arith)

  release_alias-Same :
      (o : Object AliasSpec) (r : Outcome) (s : Ctx net AliasSpec)
      → Same s (AliasController.release_finalizer net cluster o r s)
  unfolding AliasController.release_finalizer
  release_alias-Same o r s = (ground arith, ground arith, ground arith)

  -- Behind the creation of the client, the steps of a reconciliation keep all of these.
  after_client :
      (s : Ctx net AliasSpec)
      → Same
          (ensure_client (AliasController.guard_finalizer net cluster s)).1
          (AliasController.reconcile net cluster s).1
  unfolding AliasController.reconcile AliasController.reconcile_steps apply_patches
  after_client s =
      let (r, t) = ensure_client (AliasController.guard_finalizer net cluster s) in
      let (x, u) = AliasController.proceed net cluster r t in
      let (a, b, c) = proceed_alias-Same r t in
      let (d, e, f) = release_alias-Same s.object x u in (d ∙ a, e ∙ b, f ∙ c)

  alias_spec_kept :
      (s : Ctx net AliasSpec)
      → (AliasController.reconcile net cluster s).1.object.spec ≡ s.object.spec
  alias_spec_kept s =
      (after_client s).0
      ∙ ap (λ o. o.spec) (ensure_client_keeps (AliasController.guard_finalizer net cluster s))
      ∙ (guard_alias-Same s).0

  alias_deletion_kept :
      (s : Ctx net AliasSpec)
      → (AliasController.reconcile net cluster s).1.object.meta.deletion_timestamp
        ≡ s.object.meta.deletion_timestamp
  alias_deletion_kept s =
      (after_client s).1
      ∙ ap (λ o. o.meta.deletion_timestamp)
          (ensure_client_keeps (AliasController.guard_finalizer net cluster s))
      ∙ (guard_alias-Same s).1

  -- Take a live alias, any answers of Mailu to a first `Reconcile`, and a lawful cluster, where
  -- `AddFinalizer` adds the finalizer. If Mailu then answers the lookup of a second `Reconcile`, made by the
  -- client that the first one left, with the document that the spec asks for, and that document is writable,
  -- the second one finishes with the spec of the first and the metadata that the first one left, and after
  -- its lookup the world changes by the two patches alone.
  pub alias_settles_next :
      IsLawful cluster
      → (s : Ctx net AliasSpec) (api : Client net) → s.object.meta.deletion_timestamp ≡ none
      → AliasWritten.IsWritable (AliasController.new_alias s.object.spec)
      → (AliasController.reconcile net cluster s).1.reconciler.api_client ≡ some api
      → (Calls.find_alias net api
          (AliasController.alias_email s.object.spec)
          []
          (AliasController.reconcile net cluster s).1.world).0
        ≡ answer 200 (document (Alias.marshal (AliasController.new_alias s.object.spec)))
      → let (_, t) = AliasController.reconcile net cluster s in
        let (r, u) = AliasController.reconcile net cluster t in
        (r ≡ finished)
        × (u.object.spec ≡ s.object.spec)
        × (u.object.meta ≡ t.object.meta)
        × (u.world
            ≡ patched cluster t.object u.object
                (Calls.find_alias net api (AliasController.alias_email s.object.spec) [] t.world).1)
  alias_settles_next lawful s api live writable client echoed =
      let (_, t) = AliasController.reconcile net cluster s in
      let (_, u) = AliasController.reconcile net cluster t in
      let same = alias_spec_kept s in
      let (a, b, c, d) =
        alias_echo_converges net cluster t api client (alias_deletion_kept s ∙ live)
          (alias_finalizer_live net cluster lawful s live) (rw same writable) (rw same echoed) in
      (
        a,
        b ∙ same,
        c,
        d
            ∙ ap
                (λ x.
                  patched cluster t.object u.object
                    (Calls.find_alias net api (AliasController.alias_email x) [] t.world).1)
                same,
      )

  -- The first `Reconcile` of an alias leaves a client whose server ends with a slash, and whose one editor
  -- adds the authorization header of the token, whatever Mailu answers.
  pub alias_client_kept :
      (s : Ctx net AliasSpec)
      → s.reconciler.api_client ≡ none
      → (c : Client net) × ((AliasController.reconcile net cluster s).1.reconciler.api_client
          ≡ some c)
        × (has_slash_suffix c.server ≡ true)
        × (c.request_editors ≡ authorize s.reconciler.api_token ∷ [])
  unfolding ensure_client AliasController.guard_finalizer
  alias_client_kept s h =
      let fn = authorize s.reconciler.api_token in
      let (c, made, editors, doer, again) = new_client_again net s.reconciler.api_url fn in
      let slash =
        (new_client_complete net s.reconciler.api_url (with_request_editor_fn net fn ∷ []) c
          made).0 in
      (c, ground (arith, (after_client s).2), slash, editors)

  -- With a client at hand, it is kept, with the spec and the time of deletion.
  pub alias_run_kept :
      (s : Ctx net AliasSpec) (api : Client net)
      → s.reconciler.api_client ≡ some api
      → let t = (AliasController.reconcile net cluster s).1 in
        (t.object.spec ≡ s.object.spec)
        × (t.object.meta.deletion_timestamp ≡ s.object.meta.deletion_timestamp)
        × (t.reconciler.api_client ≡ some api)
  unfolding ensure_client AliasController.guard_finalizer
  alias_run_kept s api h =
      (alias_spec_kept s, alias_deletion_kept s, ground (arith, (after_client s).2))
