-- ===== src/Controller/Sequel/User.antt =====
-- Reconciliations of internal/controller/user_controller.go that follow one another: what one `Reconcile`
-- leaves to the next.
use mailu_operator.Common.{String, ◌≡◌, refl, ap, ◌∙◌, true, Option, none, some, arith, [], ◌∷◌}
use mailu_operator.Common.Result.{Result, ok, err}
use mailu_operator.Http.{Net, document}
use mailu_operator.Client.{Client, has_slash_suffix, with_request_editor_fn}
use mailu_operator.Client.Construction.{new_client_again, new_client_complete}
use mailu_operator.Controller.Sequel.{SameRun}
use mailu_operator.Client.Calls
use mailu_operator.Api.User
use mailu_operator.Api.User.{User}
use mailu_operator.Api.User.RoundTrip.{IsWritable}
use mailu_operator.Api.Dates.{Dates, IsLawful as IsLawfulDates}
use mailu_operator.Common.Int.{ℤ}
use mailu_operator.Controller.User.Password.{Secrets}
use mailu_operator.Controller.User.FromSpec.{user_from_spec, user_email}
use mailu_operator.Resource.{Object, Cluster, IsLawful}
use mailu_operator.Resource.Specs.{UserSpec}
use mailu_operator.Controller.{
  Ctx, Outcome, Lookup, finished, ensure_client, apply_patches, authorize,
}
use mailu_operator.Controller.Replies.{answer}
use mailu_operator.Controller.Flow.Finalizers.{patched}
use mailu_operator.Controller.Flow.Outcomes.{ensure_client_keeps}
use mailu_operator.Controller.User as UserController
use mailu_operator.Controller.Finalizer.{user_finalizer_live}
use mailu_operator.Controller.Convergence.{user_echo_converges}

module _ (net : Net) (dates : Dates) (secrets : Secrets net.World)
    (cluster : Cluster net.World UserSpec) where
  decide_user-SameRun :
      (api : Client net) (l : Lookup (User dates)) (s : Ctx net UserSpec)
      → SameRun s (UserController.decide net dates secrets cluster api l s).1
  unfolding UserController.decide UserController.create UserController.update UserController.delete
      UserController.create_user UserController.update_user UserController.delete_user
      UserController.require_password UserController.store_password
  decide_user-SameRun api l s = (ground arith, ground arith)

  proceed_user-SameRun :
      (r : Result (Client net)) (s : Ctx net UserSpec)
      → SameRun s (UserController.proceed net dates secrets cluster r s).1
  unfolding UserController.proceed UserController.get_user
  proceed_user-SameRun (err e) s = (refl, refl)
  proceed_user-SameRun (ok api) s =
      let (l, t) = UserController.get_user net dates secrets cluster api s in
      let (x, y) = decide_user-SameRun api l t in (x, y)

  guard_user-SameRun :
      (s : Ctx net UserSpec)
      → SameRun s (UserController.guard_finalizer net dates secrets cluster s)
  unfolding UserController.guard_finalizer
  guard_user-SameRun s = (ground arith, ground arith)

  release_user-SameRun :
      (o : Object UserSpec) (r : Outcome) (s : Ctx net UserSpec)
      → SameRun s (UserController.release_finalizer net dates secrets cluster o r s)
  unfolding UserController.release_finalizer
  release_user-SameRun o r s = (ground arith, ground arith)

  -- Behind the creation of the client, the steps of a reconciliation keep all of these.
  after_client :
      (s : Ctx net UserSpec)
      → SameRun
          (ensure_client (UserController.guard_finalizer net dates secrets cluster s)).1
          (UserController.reconcile net dates secrets cluster s).1
  unfolding UserController.reconcile UserController.reconcile_steps apply_patches
  after_client s =
      let (r, t) = ensure_client (UserController.guard_finalizer net dates secrets cluster s) in
      let (x, u) = UserController.proceed net dates secrets cluster r t in
      let (a, b) = proceed_user-SameRun r t in
      let (d, e) = release_user-SameRun s.object x u in (d ∙ a, e ∙ b)

  user_deletion_kept :
      (s : Ctx net UserSpec)
      → (UserController.reconcile net dates secrets cluster s).1.object.meta.deletion_timestamp
        ≡ s.object.meta.deletion_timestamp
  user_deletion_kept s =
      (after_client s).0
      ∙ ap (λ o. o.meta.deletion_timestamp)
          (ensure_client_keeps (UserController.guard_finalizer net dates secrets cluster s))
      ∙ (guard_user-SameRun s).0

  -- Take a live user, any answers of Mailu to a first `Reconcile`, and a lawful cluster, where
  -- `AddFinalizer` adds the finalizer. If the spec that it leaves converts, and Mailu answers the lookup of
  -- a second `Reconcile`, made by the client that the first one left, with the document of the user that an
  -- update would send, with any password hash and used quota added, if that document is writable, and dates
  -- are read as they were written, then the second one finishes, keeps the spec and the metadata that the
  -- first one left, and after its lookup the world changes by the two patches alone.
  pub user_settles_next :
      IsLawful cluster
      → (s : Ctx net UserSpec) (api : Client net) (v : User dates) (hash : Option String)
        (used : Option ℤ)
      → IsLawfulDates dates
      → s.object.meta.deletion_timestamp ≡ none
      → (UserController.reconcile net dates secrets cluster s).1.reconciler.api_client ≡ some api
      → user_from_spec dates (UserController.reconcile net dates secrets cluster s).1.object.spec
        ≡ ok v
      → IsWritable dates (record (UserController.wanted_user net dates secrets cluster v) {
        password = hash;
        quota_bytes_used = used;
      })
      → (Calls.find_user net api
          (user_email (UserController.reconcile net dates secrets cluster s).1.object.spec)
          []
          (UserController.reconcile net dates secrets cluster s).1.world).0
        ≡ answer 200 (
            document (
              User.marshal dates (record (UserController.wanted_user net dates secrets cluster v) {
                password = hash;
                quota_bytes_used = used;
              })))
      → let (_, t) = UserController.reconcile net dates secrets cluster s in
        let (r, u) = UserController.reconcile net dates secrets cluster t in
        (r ≡ finished)
        × (u.object.spec ≡ t.object.spec)
        × (u.object.meta ≡ t.object.meta)
        × (u.world
            ≡ patched cluster t.object u.object
                (Calls.find_user net api (user_email t.object.spec) [] t.world).1)
  user_settles_next lawful s api v hash used reads live client good writable echoed =
      let (_, t) = UserController.reconcile net dates secrets cluster s in
      user_echo_converges net dates secrets cluster t api v hash used reads client
        (user_deletion_kept s ∙ live) (user_finalizer_live net dates secrets cluster lawful s live)
        good writable echoed

  -- The first `Reconcile` of a user leaves a client whose server ends with a slash, and whose one editor adds
  -- the authorization header of the token, whatever Mailu answers.
  pub user_client_kept :
      (s : Ctx net UserSpec)
      → s.reconciler.api_client ≡ none
      → (c : Client net) × ((UserController.reconcile net dates secrets cluster
            s).1.reconciler.api_client
          ≡ some c)
        × (has_slash_suffix c.server ≡ true)
        × (c.request_editors ≡ authorize s.reconciler.api_token ∷ [])
  unfolding ensure_client UserController.guard_finalizer
  user_client_kept s h =
      let fn = authorize s.reconciler.api_token in
      let (c, made, editors, doer, again) = new_client_again net s.reconciler.api_url fn in
      let slash =
        (new_client_complete net s.reconciler.api_url (with_request_editor_fn net fn ∷ []) c
          made).0 in
      (c, ground (arith, (after_client s).1), slash, editors)
