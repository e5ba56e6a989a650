-- ===== src/Controller/Authorized/Alias.antt =====
-- The requests that internal/controller/alias_controller.go sends.
use mailu_operator.Common.{String, ◌≡◌, refl, subst, [], ◌∷◌, some, arith}
use mailu_operator.Common.Run.{Run}
use mailu_operator.Http.{Net, Request}
use mailu_operator.Client.{Client}
use mailu_operator.Client.Calls
use mailu_operator.Client.Requests.{
  new_find_alias_request, new_create_alias_request, new_update_alias_request,
  new_delete_alias_request,
}
use mailu_operator.Api.Alias.{Alias}
use mailu_operator.Resource.{Object, Cluster}
use mailu_operator.Resource.Specs.{AliasSpec}
use mailu_operator.Controller.{Attempt, Ctx, authorize}
use mailu_operator.Controller.Alias as AliasController
use mailu_operator.Controller.Flow.{change}
use mailu_operator.Controller.Flow.Finalizers.{patched}
use mailu_operator.Controller.Flow.Untouched.{IsInvariant, reconcile_holds}
use mailu_operator.Controller.Flow.Kinds.Alias.{
  alias_kind, alias_kind-IsTame, alias_plan, alias_reconcile_refines,
}
use mailu_operator.Controller.Authorized.{Carries, perform_holds}

module _ (net : Net) (api : Client net) (token : String) (doer : net.Doer)
    (made : api.client ≡ some doer) (editors : api.request_editors ≡ authorize token ∷ [])
    (I : net.World → Type 0)
    (sending : (req : Request) (w : net.World)
      → Carries token req
      → I w
      → I (net.do_request doer req w).1)
    (cluster : Cluster net.World AliasSpec)
    (patching : (o original : Object AliasSpec) (w : net.World)
      → I w
      → I (patched cluster original o w)) where
  alias_change_keeps :
      (spec : AliasSpec) (a : Alias) (m : Run (Ctx net AliasSpec) Attempt) (s : Ctx net AliasSpec)
      → alias_plan net cluster api spec a ≡ change m
      → I s.world
      → I (m s).1.world
  unfolding AliasController.update_alias Calls.update_alias
  alias_change_keeps spec a m s planned i =
      let wanted = AliasController.new_alias spec in
      let same : AliasController.update_alias net cluster api wanted ≡ m = ground arith in
      subst (λ (k : Run (Ctx net AliasSpec) Attempt). I (k s).1.world) same
        (perform_holds net api token doer made editors I sending
          (new_update_alias_request net api.server (AliasController.alias_email spec) wanted)
          s.world i)

  alias_kind-IsInvariant :
      (spec : AliasSpec) → IsInvariant cluster (alias_kind net cluster) api I spec
  unfolding AliasController.get_alias AliasController.create_alias AliasController.delete_alias
      Calls.find_alias Calls.create_alias Calls.delete_alias
  alias_kind-IsInvariant spec = record {
    get_keeps = λ s h i.
        perform_holds net api token doer made editors I sending
          (new_find_alias_request net api.server (AliasController.alias_email s.object.spec))
          s.world i;
    create_keeps = λ s h i.
        perform_holds net api token doer made editors I sending
          (new_create_alias_request net api.server (AliasController.created_alias s.object.spec))
          s.world i;
    delete_keeps = λ s h i.
        perform_holds net api token doer made editors I sending
          (new_delete_alias_request net api.server (AliasController.alias_email s.object.spec))
          s.world i;
    change_keeps = λ a m s h planned i. alias_change_keeps spec a m s planned i;
    patches_keep = patching;
  }

  -- Take a client that sends by `doer` and has the one editor that authorizes with the token, and anything
  -- about the world that every request with the token as its last header preserves, and that the patches
  -- preserve. Then `Reconcile` of an alias with that client at hand preserves it, whatever the answers are.
  pub alias_requests_authorized :
      (s : Ctx net AliasSpec)
      → s.reconciler.api_client ≡ some api
      → I s.world
      → I (AliasController.reconcile net cluster s).1.world
  alias_requests_authorized s client i = rw alias_reconcile_refines (
      reconcile_holds net cluster (alias_kind net cluster) (alias_kind-IsTame net cluster) api I
        s.object.spec (alias_kind-IsInvariant s.object.spec) s client refl i)
