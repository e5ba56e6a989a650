-- ===== src/Tests/Aliases.antt =====
-- The alias reconciler in the scripted world.
use mailu_operator.Common.{◌≡◌, refl, none, some, [], ◌∷◌, true, false, Option, String, List, ℕ}
use mailu_operator.Json.{Json, null}
use mailu_operator.Http.{document}
use mailu_operator.Client.Calls
use mailu_operator.Api.Alias
use mailu_operator.Api.Alias.{Alias}
use mailu_operator.Resource.{Object, Cluster, finalizer_name}
use mailu_operator.Resource.Specs.{AliasSpec}
use mailu_operator.Controller.{Ctx}
use mailu_operator.Controller.Reply.{find_reply, create_reply, delete_reply}
use mailu_operator.Controller.Alias as AliasController
use mailu_operator.Controller.Finalizer.{alias_finalizer_live, alias_finalizer_deleted}
use mailu_operator.Controller.Results.{alias_result}
use mailu_operator.Tests.World.{World, net, cluster, cluster-IsLawful, api, answer_of, start}

abbrev pub spec : AliasSpec
spec = record {
  name = "postmaster";
  domain = "example.com";
  comment = "";
  destination = some ("admin@example.com" ∷ []);
  wildcard = false;
}

abbrev mail : Cluster World AliasSpec
mail = cluster

-- A alias with the given deletion time, finalizers and spec.
abbrev pub resource : Option ℕ → List String → AliasSpec → Object AliasSpec
resource deleted finalizers wanted = record {
  meta = record {
    name = "example";
    namespace = "mail";
    deletion_timestamp = deleted;
    finalizers = finalizers;
  };
  spec = wanted;
  conditions = [];
}

abbrev stored_alias : Alias
stored_alias = AliasController.new_alias spec

abbrev stored : Json
stored = Alias.marshal stored_alias

abbrev fresh : Ctx net AliasSpec
fresh =
    start (resource none [] spec)
      (answer_of 404 (document null) ∷ answer_of 201 (document null) ∷ [])

abbrev deleting : Ctx net AliasSpec
deleting =
    start (resource (some 1) (finalizer_name ∷ []) spec)
      (answer_of 200 (document stored) ∷ answer_of 200 (document null) ∷ [])

alias_finalizer_live_example :
    mail.contains_finalizer
      (AliasController.reconcile net mail fresh).1.object.meta.finalizers
      finalizer_name
    ≡ true
alias_finalizer_live_example = alias_finalizer_live net mail cluster-IsLawful fresh refl

alias_finalizer_deleted_example :
    (AliasController.reconcile net mail deleting).1.object.meta.finalizers ≡ []
unfolding AliasController.get_alias AliasController.delete_alias Calls.find_alias Calls.delete_alias
    find_reply delete_reply Alias.unmarshal Alias.marshal
alias_finalizer_deleted_example = alias_finalizer_deleted net mail deleting api 1 refl refl

-- The creation meets a conflict: it is tried again in five seconds.
abbrev conflicting : Ctx net AliasSpec
conflicting =
    start (resource none (finalizer_name ∷ []) spec)
      (answer_of 404 (document null) ∷ answer_of 409 (document null) ∷ [])

alias_result_example :
    (AliasController.reconcile net mail conflicting).0
    ≡ record { requeue_after = 5000000000; error = none }
unfolding AliasController.guard_finalizer AliasController.get_alias AliasController.create_alias
    Calls.find_alias Calls.create_alias find_reply create_reply
alias_result_example = alias_result net mail conflicting api refl
