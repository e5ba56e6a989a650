-- ===== src/Tests/Domains.antt =====
-- The domain reconciler in the scripted world.
use mailu_operator.Common.{
  ◌≡◌, ◌≢◌, refl, none, some, [], ◌∷◌, true, false, Option, String, List, ℕ,
}
use mailu_operator.Common.Int.{pos, negsuc}
use mailu_operator.Json.{Json, null}
use mailu_operator.Http.{document}
use mailu_operator.Client.Calls
use mailu_operator.Api.Domain
use mailu_operator.Api.Domain.{Domain}
use mailu_operator.Resource.{Object, Cluster, finalizer_name}
use mailu_operator.Resource.Specs.{DomainSpec}
use mailu_operator.Controller.{Ctx}
use mailu_operator.Controller.Reply.{find_reply, create_reply, delete_reply}
use mailu_operator.Controller.Domain as DomainController
use mailu_operator.Controller.Finalizer.{domain_finalizer_live, domain_finalizer_deleted}
use mailu_operator.Controller.Creation.{domain_creation_drops_alternatives}
use mailu_operator.Controller.Results.{domain_result}
use mailu_operator.Tests.World.{World, net, cluster, cluster-IsLawful, api, answer_of, start}

abbrev pub spec : DomainSpec
spec = record {
  name = "example.com";
  comment = "";
  max_users = pos 5;
  max_aliases = negsuc 0;
  max_quota_bytes = pos 0;
  signup_enabled = false;
  alternatives = some ("example.org" ∷ []);
}

abbrev mail : Cluster World DomainSpec
mail = cluster

-- A domain with the given deletion time, finalizers and spec.
abbrev pub resource : Option ℕ → List String → DomainSpec → Object DomainSpec
resource deleted finalizers wanted = record {
  meta = record {
    name = "example";
    namespace = "mail";
    deletion_timestamp = deleted;
    finalizers = finalizers;
  };
  spec = wanted;
  conditions = [];
}

abbrev stored_domain : Domain
stored_domain = DomainController.new_domain spec

abbrev stored : Json
stored = Domain.marshal stored_domain

abbrev pub fresh : Ctx net DomainSpec
fresh =
    start (resource none [] spec)
      (answer_of 404 (document null) ∷ answer_of 201 (document null) ∷ [])

abbrev deleting : Ctx net DomainSpec
deleting =
    start (resource (some 1) (finalizer_name ∷ []) spec)
      (answer_of 200 (document stored) ∷ answer_of 200 (document null) ∷ [])

domain_finalizer_live_example :
    mail.contains_finalizer
      (DomainController.reconcile net mail fresh).1.object.meta.finalizers
      finalizer_name
    ≡ true
domain_finalizer_live_example = domain_finalizer_live net mail cluster-IsLawful fresh refl

domain_finalizer_deleted_example :
    (DomainController.reconcile net mail deleting).1.object.meta.finalizers ≡ []
unfolding DomainController.get_domain DomainController.delete_domain Calls.find_domain
    Calls.delete_domain find_reply delete_reply Domain.unmarshal Domain.marshal
domain_finalizer_deleted_example = domain_finalizer_deleted net mail deleting api 1 refl refl

domain_creation_drops_alternatives_example :
    ((DomainController.create_domain net mail api fresh).1.world
      ≡ (Calls.create_domain net api (DomainController.created_domain spec) [] fresh.world).1)
    × (DomainController.created_domain spec ≢ DomainController.new_domain spec)
domain_creation_drops_alternatives_example = domain_creation_drops_alternatives net mail api fresh

-- The creation meets a conflict: it is tried again in five seconds.
abbrev conflicting : Ctx net DomainSpec
conflicting =
    start (resource none (finalizer_name ∷ []) spec)
      (answer_of 404 (document null) ∷ answer_of 409 (document null) ∷ [])

domain_result_example :
    (DomainController.reconcile net mail conflicting).0
    ≡ record { requeue_after = 5000000000; error = none }
unfolding DomainController.guard_finalizer DomainController.get_domain
    DomainController.create_domain Calls.find_domain Calls.create_domain find_reply create_reply
domain_result_example = domain_result net mail conflicting api refl
