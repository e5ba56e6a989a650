-- ===== src/Controller/Status.antt =====
-- The Ready condition that the three reconcilers of internal/controller write.
use mailu_operator.Common.{String, ◌≡◌, subst, none, some, is_some, if◌then◌else◌}
use mailu_operator.Http.{Net}
use mailu_operator.Client.{Client}
use mailu_operator.Api.Dates.{Dates}
use mailu_operator.Api.User.{User}
use mailu_operator.Api.Domain.{Domain}
use mailu_operator.Api.Alias.{Alias}
use mailu_operator.Controller.User.Password.{Secrets}
use mailu_operator.Resource.{Cluster, IsLawful, condition_false, condition_true}
use mailu_operator.Resource.Specs.{DomainSpec, AliasSpec, UserSpec}
use mailu_operator.Controller.{Lookup, Ctx, finished}
use mailu_operator.Controller.Flow
use mailu_operator.Controller.Flow.Status.{Reports, reconcile-Failures}
use mailu_operator.Controller.Flow.Success.{decide-success, success_cases}
use mailu_operator.Controller.Domain as DomainController
use mailu_operator.Controller.Flow.Kinds.Domain.{
  domain_kind, domain_decide_refines, domain_reconcile_refines,
}
use mailu_operator.Controller.Alias as AliasController
use mailu_operator.Controller.Flow.Kinds.Alias.{
  alias_kind, alias_decide_refines, alias_reconcile_refines,
}
use mailu_operator.Controller.User as UserController
use mailu_operator.Controller.Flow.Kinds.User.{
  user_kind, user_decide_refines, user_reconcile_refines,
}

module _ (net : Net) (cluster : Cluster net.World DomainSpec) where
  -- Any error that `Reconcile` of a domain returns is the message of its Ready condition, which is False
  -- with reason Error, if the cluster is lawful: `SetStatusCondition` sets the condition that it is given,
  -- and `AddFinalizer` adds the finalizer.
  pub domain_failure_reported :
      IsLawful cluster
      → (s : Ctx net DomainSpec) (e : String)
      → (DomainController.reconcile net cluster s).0.error ≡ some e
      → Reports
          (DomainController.reconcile net cluster s).1.object.conditions
          (DomainController.get_domain_ready_condition condition_false "Error" e)
  domain_failure_reported lawful s e =
      rw domain_reconcile_refines
        (reconcile-Failures net cluster (domain_kind net cluster) lawful s e)

  -- If the lookup of a live domain made no error and what follows is finished, then the Ready condition is
  -- True: with reason Updated if the lookup found an object, and with reason Created if it did not, if the
  -- cluster is lawful: `SetStatusCondition` sets the condition that it is given, and `AddFinalizer` adds the
  -- finalizer.
  pub domain_success_reported :
      IsLawful cluster
      → (api : Client net) (l : Lookup (Domain)) (s : Ctx net DomainSpec)
      → s.object.meta.deletion_timestamp ≡ none
      → l.error ≡ none
      → (DomainController.decide net cluster api l s).0 ≡ finished
      → Reports (DomainController.decide net cluster api l s).1.object.conditions (
          if is_some l.found
          then DomainController.get_domain_ready_condition condition_true "Updated"
              "Domain updated in MailU"
          else DomainController.get_domain_ready_condition condition_true "Created"
              "Domain created in MailU")
  domain_success_reported lawful api l s live fine = rw domain_decide_refines (
      subst
        (λ c.
          (Flow.decide net cluster (domain_kind net cluster) api l s).0 ≡ finished
          → Reports (Flow.decide net cluster (domain_kind net cluster) api l s).1.object.conditions
              c)
        (success_cases net cluster (domain_kind net cluster) lawful l.found)
        (decide-success net cluster (domain_kind net cluster) lawful api l s live fine))

module _ (net : Net) (cluster : Cluster net.World AliasSpec) where
  -- Any error that `Reconcile` of an alias returns is the message of its Ready condition, which is False
  -- with reason Error, if the cluster is lawful: `SetStatusCondition` sets the condition that it is given,
  -- and `AddFinalizer` adds the finalizer.
  pub alias_failure_reported :
      IsLawful cluster
      → (s : Ctx net AliasSpec) (e : String)
      → (AliasController.reconcile net cluster s).0.error ≡ some e
      → Reports
          (AliasController.reconcile net cluster s).1.object.conditions
          (AliasController.get_alias_ready_condition condition_false "Error" e)
  alias_failure_reported lawful s e =
      rw alias_reconcile_refines
        (reconcile-Failures net cluster (alias_kind net cluster) lawful s e)

  -- If the lookup of a live alias made no error and what follows is finished, then the Ready condition is
  -- True: with reason Updated if the lookup found an object, and with reason Created if it did not, if the
  -- cluster is lawful: `SetStatusCondition` sets the condition that it is given, and `AddFinalizer` adds the
  -- finalizer.
  pub alias_success_reported :
      IsLawful cluster
      → (api : Client net) (l : Lookup (Alias)) (s : Ctx net AliasSpec)
      → s.object.meta.deletion_timestamp ≡ none
      → l.error ≡ none
      → (AliasController.decide net cluster api l s).0 ≡ finished
      → Reports (AliasController.decide net cluster api l s).1.object.conditions (
          if is_some l.found
          then AliasController.get_alias_ready_condition condition_true "Updated"
              "Alias updated in MailU"
          else AliasController.get_alias_ready_condition condition_true "Created"
              "Alias created in MailU")
  alias_success_reported lawful api l s live fine = rw alias_decide_refines (
      subst
        (λ c.
          (Flow.decide net cluster (alias_kind net cluster) api l s).0 ≡ finished
          → Reports (Flow.decide net cluster (alias_kind net cluster) api l s).1.object.conditions
              c)
        (success_cases net cluster (alias_kind net cluster) lawful l.found)
        (decide-success net cluster (alias_kind net cluster) lawful api l s live fine))

module _ (net : Net) (dates : Dates) (secrets : Secrets net.World)
    (cluster : Cluster net.World UserSpec) where
  -- Any error that `Reconcile` of a user returns is the message of its Ready condition, which is False with
  -- reason Error, if the cluster is lawful: `SetStatusCondition` sets the condition that it is given, and
  -- `AddFinalizer` adds the finalizer.
  pub user_failure_reported :
      IsLawful cluster
      → (s : Ctx net UserSpec) (e : String)
      → (UserController.reconcile net dates secrets cluster s).0.error ≡ some e
      → Reports
          (UserController.reconcile net dates secrets cluster s).1.object.conditions
          (UserController.get_user_ready_condition condition_false "Error" e)
  user_failure_reported lawful s e =
      rw user_reconcile_refines
        (reconcile-Failures net cluster (user_kind net dates secrets cluster) lawful s e)

  -- If the lookup of a live user made no error and what follows is finished, then the Ready condition is
  -- True: with reason Updated if the lookup found an object, and with reason Created if it did not, if the
  -- cluster is lawful: `SetStatusCondition` sets the condition that it is given, and `AddFinalizer` adds the
  -- finalizer.
  pub user_success_reported :
      IsLawful cluster
      → (api : Client net) (l : Lookup (User dates)) (s : Ctx net UserSpec)
      → s.object.meta.deletion_timestamp ≡ none
      → l.error ≡ none
      → (UserController.decide net dates secrets cluster api l s).0 ≡ finished
      → Reports (UserController.decide net dates secrets cluster api l s).1.object.conditions (
          if is_some l.found
          then UserController.get_user_ready_condition condition_true "Updated"
              "User updated in MailU"
          else UserController.get_user_ready_condition condition_true "Created"
              "User created in MailU")
  user_success_reported lawful api l s live fine = rw user_decide_refines (
      subst
        (λ c.
          (Flow.decide net cluster (user_kind net dates secrets cluster) api l s).0 ≡ finished
          → Reports
              (Flow.decide net cluster (user_kind net dates secrets cluster) api l
                s).1.object.conditions
              c)
        (success_cases net cluster (user_kind net dates secrets cluster) lawful l.found)
        (decide-success net cluster (user_kind net dates secrets cluster) lawful api l s live fine))
