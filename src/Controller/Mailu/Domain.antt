-- ===== src/Controller/Mailu/Domain.antt =====
-- The domain reconciler of internal/controller/domain_controller.go against a Mailu server that serves its
-- requests: it keeps what the common reconciler needs.
pub mod Settling
use mailu_operator.Common.{
  ℕ, zero, suc, String, ◌≡◌, ◌≢◌, refl, sym, ap, subst, ◌∙◌, ◌⊎◌, inl, inr, Bool, true, false,
  Option, none, some, arith, Option-cases, Bool-cases, if◌then◌else◌, repeat, repeat-suc, [],
}
use mailu_operator.Common.Run.{Run}
use mailu_operator.Json.{deep_equal, deep_equal_iff}
use mailu_operator.Http.{Net, document}
use mailu_operator.Client.{Client}
use mailu_operator.Client.Calls
use mailu_operator.Api.Domain
use mailu_operator.Api.Domain.{Domain}
use mailu_operator.Api.Domain.RoundTrip.{IsWritable}
use mailu_operator.Resource.{Object, Cluster, IsLawful, finalizer_name}
use mailu_operator.Resource.Specs.{DomainSpec}
use mailu_operator.Controller.{Attempt, Lookup, Ctx, Outcome, finished}
use mailu_operator.Controller.Reply.{find_reply, create_reply, update_reply, delete_reply}
use mailu_operator.Controller.Replies.{answer}
use mailu_operator.Controller.Domain as DomainController
use mailu_operator.Controller.Mailu.{IsMailu, Kept}
use mailu_operator.Controller.Flow
use mailu_operator.Controller.Flow.{Plan, unchanged, change}
use mailu_operator.Controller.Flow.Finalizers.{patched}
use mailu_operator.Controller.Flow.Served.{IsServed, done}
use mailu_operator.Controller.Flow.Served.Rounds.{empties, settles_in_two, repeat-IsLive}
use mailu_operator.Controller.Flow.Untouched.{IsUntouched, reconcile_keeps}
use mailu_operator.Controller.Updates.{domain_up_to_date}
use mailu_operator.Controller.Finalizer.{domain_finalizer_live}
use mathlib.Core.Path.{fun_ext}
use mailu_operator.Controller.Flow.Kinds.Domain.{
  domain_kind, domain_kind-IsTame, domain_plan, domain_reconcile_refines,
}
use mailu_operator.Controller.Sequel.Domain.{domain_run_kept}

-- `e` has what was sent with `d`.
pub record Covers (d e : Domain) : Type 0 where
  pub same_name : e.name ≡ d.name
  pub kept_alternatives : Kept d.alternatives e.alternatives
  pub kept_comment : Kept d.comment e.comment
  pub kept_max_aliases : Kept d.max_aliases e.max_aliases
  pub kept_max_quota_bytes : Kept d.max_quota_bytes e.max_quota_bytes
  pub kept_max_users : Kept d.max_users e.max_users
  pub kept_signup_enabled : Kept d.signup_enabled e.signup_enabled

-- An update sends every field, so what covers it is what was sent.
wanted_is_covered :
    (spec : DomainSpec) (e : Domain)
    → Covers (DomainController.new_domain spec) e
    → e ≡ DomainController.new_domain spec
wanted_is_covered spec e c = λ i. record {
  alternatives = c.kept_alternatives i;
  comment = c.kept_comment i;
  max_aliases = c.kept_max_aliases i;
  max_quota_bytes = c.kept_max_quota_bytes i;
  max_users = c.kept_max_users i;
  name = c.same_name i;
  signup_enabled = c.kept_signup_enabled i;
}

-- A creation is writable where an update is.
creation-IsWritable :
    (spec : DomainSpec)
    → IsWritable (DomainController.new_domain spec)
    → IsWritable (DomainController.created_domain spec)
creation-IsWritable spec w = record {
  alternatives_not_nil = tt;
  max_aliases_fits = w.max_aliases_fits;
  max_quota_bytes_fits = w.max_quota_bytes_fits;
  max_users_fits = w.max_users_fits;
}

-- The server that answers the calls of a client for domains.
abbrev pub IsDomainServer : (net : Net) → Client net → (net.World → String → Option Domain) → Type 0
IsDomainServer net api stored =
    IsMailu net Domain.unmarshal (λ d. d.name) IsWritable Covers
      (λ n. Calls.find_domain net api n []) (λ d. Calls.create_domain net api d [])
      (λ n d. Calls.update_domain net api n d []) (λ n. Calls.delete_domain net api n []) stored

module _ (net : Net) (cluster : Cluster net.World DomainSpec) (api : Client net)
    (stored : net.World → String → Option Domain) (mailu : IsDomainServer net api stored)
    (patches_keep : (o original : Object DomainSpec) (w : net.World) (n : String)
      → stored (patched cluster original o w) n ≡ stored w n) where
  pub domain_lookup :
      (s : Ctx net DomainSpec)
      → (DomainController.get_domain net cluster api s).0
        ≡ record { found = stored s.world s.object.spec.name; retry = false; error = none }
  unfolding DomainController.get_domain find_reply
  domain_lookup s = elim (Option-cases (stored s.world s.object.spec.name)) [
    | inl absent ↦ let (p, e) = mailu.find_missing s.object.spec.name s.world absent in ground arith
    | inr (d, present) ↦
        let (j, read, e) = mailu.find_stored s.object.spec.name s.world d present in ground arith
  ]

  domain_plan_valid :
      (spec : DomainSpec) (d : Domain)
      → (domain_plan net cluster api spec d ≡ unchanged)
        ⊎ ((m : Run (Ctx net DomainSpec) Attempt) × (domain_plan net cluster api spec d ≡ change m))
  domain_plan_valid spec d =
      elim (Bool-cases
        (deep_equal (Domain.marshal (DomainController.new_domain spec)) (Domain.marshal d))) [
          | inl same ↦ inl (rw same refl)
          | inr other ↦ inr (
            DomainController.update_domain net cluster api (DomainController.new_domain spec),
            rw other refl,
          )
        ]

  domain_unchanged :
      (spec : DomainSpec)
      → domain_plan net cluster api spec (DomainController.new_domain spec) ≡ unchanged
  domain_unchanged spec =
      let d = Domain.marshal (DomainController.new_domain spec) in
      rw ((deep_equal_iff d d).1 refl) refl

  pub domain_plan_is_wanted :
      (spec : DomainSpec) (d : Domain)
      → domain_plan net cluster api spec d ≡ unchanged
      → d ≡ DomainController.new_domain spec
  domain_plan_is_wanted spec d h =
      let wanted = DomainController.new_domain spec in
      let e = deep_equal_iff (Domain.marshal wanted) (Domain.marshal d) in
      sym (Domain.marshal-injective wanted d (e.0 (ground arith)))

  domain_creation_works :
      (s : Ctx net DomainSpec)
      → IsWritable (DomainController.new_domain s.object.spec)
      → stored s.world s.object.spec.name ≡ none
      → (DomainController.create_domain net cluster api s).0 ≡ done
  unfolding DomainController.create_domain create_reply
  domain_creation_works s w absent =
      let d = DomainController.created_domain s.object.spec in
      let (p, e) = mailu.create_answers d s.world (creation-IsWritable s.object.spec w) absent in
      ground arith

  domain_update_works :
      (s : Ctx net DomainSpec) (d : Domain)
      → IsWritable (DomainController.new_domain s.object.spec)
      → stored s.world s.object.spec.name ≡ some d
      → (DomainController.update_domain net cluster api
          (DomainController.new_domain s.object.spec)
          s).0
        ≡ done
  unfolding DomainController.update_domain update_reply
  domain_update_works s d w present =
      let wanted = DomainController.new_domain s.object.spec in
      let (p, e) = mailu.update_answers wanted d s.world w present in ground arith

  domain_update_stores :
      (s : Ctx net DomainSpec) (d : Domain)
      → IsWritable (DomainController.new_domain s.object.spec)
      → stored s.world s.object.spec.name ≡ some d
      → stored
          (DomainController.update_domain net cluster api
            (DomainController.new_domain s.object.spec)
            s).1.world
          s.object.spec.name
        ≡ some (DomainController.new_domain s.object.spec)
  unfolding DomainController.update_domain
  domain_update_stores s d w present =
      let wanted = DomainController.new_domain s.object.spec in
      let (e, kept, covers) = mailu.update_stores wanted d s.world w present in
      kept ∙ ap some (wanted_is_covered s.object.spec e covers)

  domain_deletion_works :
      (s : Ctx net DomainSpec) → (DomainController.delete_domain net cluster api s).0 ≡ done
  unfolding DomainController.delete_domain delete_reply
  domain_deletion_works s =
      let (c, p, gone, e) = mailu.delete_answers s.object.spec.name s.world in ground arith

  change_is_update :
      (spec : DomainSpec) (d : Domain) (m : Run (Ctx net DomainSpec) Attempt)
      → domain_plan net cluster api spec d ≡ change m
      → DomainController.update_domain net cluster api (DomainController.new_domain spec) ≡ m
  change_is_update spec d m h = ground arith

  abbrev pub stored_at : net.World → DomainSpec → Option Domain
  stored_at w spec = stored w spec.name

  abbrev pub IsReady : DomainSpec → Type 0
  IsReady spec = IsWritable (DomainController.new_domain spec)

  abbrev pub Made : DomainSpec → Domain → Type 0
  Made spec d = Covers (DomainController.created_domain spec) d

  pub domain_kind-IsServed : IsServed cluster (domain_kind net cluster) api stored_at IsReady Made
  unfolding DomainController.get_domain DomainController.create_domain
      DomainController.delete_domain
  domain_kind-IsServed = record {
    get_finds = domain_lookup;
    get_keeps_stored = λ s spec. mailu.find_keeps s.object.spec.name spec.name s.world;
    create_works = domain_creation_works;
    create_stores = λ s w absent.
        mailu.create_stores (DomainController.created_domain s.object.spec) s.world
          (creation-IsWritable s.object.spec w) absent;
    plan_valid = λ spec d w. domain_plan_valid spec d;
    change_works = λ s d m w present planned.
        subst (λ (k : Run (Ctx net DomainSpec) Attempt). (k s).0 ≡ done)
          (change_is_update s.object.spec d m planned) (domain_update_works s d w present);
    change_stores = λ s d m w present planned. (
      DomainController.new_domain s.object.spec,
      subst
          (λ (k : Run (Ctx net DomainSpec) Attempt).
            stored (k s).1.world s.object.spec.name
            ≡ some (DomainController.new_domain s.object.spec))
          (change_is_update s.object.spec d m planned) (domain_update_stores s d w present),
      domain_unchanged s.object.spec,
    );
    delete_works = domain_deletion_works;
    delete_stores = λ s. mailu.delete_empties s.object.spec.name s.world;
    patches_keep = λ o original w spec. patches_keep o original w spec.name;
    reconcile_keeps = λ s client.
        rw (sym (domain_reconcile_refines net cluster s))
          (domain_run_kept net cluster s api client);
  }

  -- The operations of one domain keep what is stored under another name.
  pub domain_kind-IsUntouched :
      (spec : DomainSpec) (m : String)
      → m ≢ spec.name
      → IsUntouched cluster (domain_kind net cluster) api (λ w. stored w m) spec
  unfolding DomainController.get_domain DomainController.create_domain
      DomainController.delete_domain DomainController.update_domain
  domain_kind-IsUntouched spec m other = record {
    get_keeps = λ s h. mailu.find_keeps s.object.spec.name m s.world;
    create_keeps = λ s h.
        mailu.create_keeps (DomainController.created_domain s.object.spec) s.world m
          (λ p. other (p ∙ ap (λ x. x.name) h));
    delete_keeps = λ s h.
        mailu.delete_keeps s.object.spec.name s.world m (λ p. other (p ∙ ap (λ x. x.name) h));
    change_keeps = λ d k s h planned.
        subst (λ (k : Run (Ctx net DomainSpec) Attempt). stored (k s).1.world m ≡ stored s.world m)
          (change_is_update spec d k planned)
          (mailu.update_keeps spec.name (DomainController.new_domain spec) s.world m other);
    patches_keep = λ o original w. patches_keep o original w m;
  }
