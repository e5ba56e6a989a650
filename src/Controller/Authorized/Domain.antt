-- ===== src/Controller/Authorized/Domain.antt =====
-- The requests that internal/controller/domain_controller.go sends.
use mailu_operator.Common.{String, ◌≡◌, refl, subst, [], ◌∷◌, some, arith}
use mailu_operator.Common.Run.{Run}
use mailu_operator.Http.{Net, Request}
use mailu_operator.Client.{Client}
use mailu_operator.Client.Calls
use mailu_operator.Client.Requests.{
  new_find_domain_request, new_create_domain_request, new_update_domain_request,
  new_delete_domain_request,
}
use mailu_operator.Api.Domain.{Domain}
use mailu_operator.Resource.{Object, Cluster}
use mailu_operator.Resource.Specs.{DomainSpec}
use mailu_operator.Controller.{Attempt, Ctx, authorize}
use mailu_operator.Controller.Domain as DomainController
use mailu_operator.Controller.Flow.{change}
use mailu_operator.Controller.Flow.Finalizers.{patched}
use mailu_operator.Controller.Flow.Untouched.{IsInvariant, reconcile_holds}
use mailu_operator.Controller.Flow.Kinds.Domain.{
  domain_kind, domain_kind-IsTame, domain_plan, domain_reconcile_refines,
}
use mailu_operator.Controller.Authorized.{Carries, perform_holds}

module _ (net : Net) (api : Client net) (token : String) (doer : net.Doer)
    (made : api.client ≡ some doer) (editors : api.request_editors ≡ authorize token ∷ [])
    (I : net.World → Type 0)
    (sending : (req : Request) (w : net.World)
      → Carries token req
      → I w
      → I (net.do_request doer req w).1)
    (cluster : Cluster net.World DomainSpec)
    (patching : (o original : Object DomainSpec) (w : net.World)
      → I w
      → I (patched cluster original o w)) where
  domain_change_keeps :
      (spec : DomainSpec) (a : Domain) (m : Run (Ctx net DomainSpec) Attempt)
      (s : Ctx net DomainSpec)
      → domain_plan net cluster api spec a ≡ change m
      → I s.world
      → I (m s).1.world
  unfolding DomainController.update_domain Calls.update_domain
  domain_change_keeps spec a m s planned i =
      let wanted = DomainController.new_domain spec in
      let same : DomainController.update_domain net cluster api wanted ≡ m = ground arith in
      subst (λ (k : Run (Ctx net DomainSpec) Attempt). I (k s).1.world) same
        (perform_holds net api token doer made editors I sending
          (new_update_domain_request net api.server spec.name wanted) s.world i)

  domain_kind-IsInvariant :
      (spec : DomainSpec) → IsInvariant cluster (domain_kind net cluster) api I spec
  unfolding DomainController.get_domain DomainController.create_domain
      DomainController.delete_domain Calls.find_domain Calls.create_domain Calls.delete_domain
  domain_kind-IsInvariant spec = record {
    get_keeps = λ s h i.
        perform_holds net api token doer made editors I sending
          (new_find_domain_request net api.server s.object.spec.name) s.world i;
    create_keeps = λ s h i.
        perform_holds net api token doer made editors I sending
          (new_create_domain_request net api.server (DomainController.created_domain s.object.spec))
          s.world i;
    delete_keeps = λ s h i.
        perform_holds net api token doer made editors I sending
          (new_delete_domain_request net api.server s.object.spec.name) s.world i;
    change_keeps = λ a m s h planned i. domain_change_keeps spec a m s planned i;
    patches_keep = patching;
  }

  -- Take a client that sends by `doer` and has the one editor that authorizes with the token, and anything
  -- about the world that every request with the token as its last header preserves, and that the patches
  -- preserve. Then `Reconcile` of a domain with that client at hand preserves it, whatever the answers are.
  pub domain_requests_authorized :
      (s : Ctx net DomainSpec)
      → s.reconciler.api_client ≡ some api
      → I s.world
      → I (DomainController.reconcile net cluster s).1.world
  domain_requests_authorized s client i = rw domain_reconcile_refines (
      reconcile_holds net cluster (domain_kind net cluster) (domain_kind-IsTame net cluster) api I
        s.object.spec (domain_kind-IsInvariant s.object.spec) s client refl i)
