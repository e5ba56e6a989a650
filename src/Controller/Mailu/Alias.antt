-- ===== src/Controller/Mailu/Alias.antt =====
-- The alias reconciler of internal/controller/alias_controller.go against a Mailu server that serves its
-- requests: it keeps what the common reconciler needs.
pub mod Settling
use mailu_operator.Common.{
  ℕ, zero, suc, String, ◌≡◌, ◌≢◌, refl, sym, ap, subst, ◌∙◌, ◌⊎◌, inl, inr, Bool, true, false,
  Option, none, some, arith, Option-cases, Bool-cases, if◌then◌else◌, repeat, repeat-suc, [],
}
use mailu_operator.Common.Run.{Run}
use mailu_operator.Json.{deep_equal, deep_equal_iff}
use mailu_operator.Http.{Net, document}
use mailu_operator.Client.{Client}
use mailu_operator.Client.Calls
use mailu_operator.Api.Alias
use mailu_operator.Api.Alias.{Alias}
use mailu_operator.Api.Alias.RoundTrip.{IsWritable}
use mailu_operator.Resource.{Object, Cluster, IsLawful, finalizer_name}
use mailu_operator.Resource.Specs.{AliasSpec}
use mailu_operator.Controller.{Attempt, Lookup, Ctx, Outcome, finished}
use mailu_operator.Controller.Reply.{find_reply, create_reply, update_reply, delete_reply}
use mailu_operator.Controller.Replies.{answer}
use mailu_operator.Controller.Alias as AliasController
use mailu_operator.Controller.Mailu.{IsMailu, Kept}
use mailu_operator.Controller.Flow
use mailu_operator.Controller.Flow.{Plan, unchanged, change}
use mailu_operator.Controller.Flow.Finalizers.{patched}
use mailu_operator.Controller.Flow.Served.{IsServed, done}
use mailu_operator.Controller.Flow.Served.Rounds.{empties, settles_in_two, repeat-IsLive}
use mailu_operator.Controller.Flow.Untouched.{IsUntouched, reconcile_keeps}
use mailu_operator.Controller.Updates.{alias_up_to_date}
use mailu_operator.Controller.Finalizer.{alias_finalizer_live}
use mathlib.Core.Path.{fun_ext}
use mailu_operator.Controller.Flow.Kinds.Alias.{
  alias_kind, alias_kind-IsTame, alias_plan, alias_reconcile_refines,
}
use mailu_operator.Controller.Sequel.Alias.{alias_run_kept}

-- `b` has what was sent with `a`.
pub record Covers (a b : Alias) : Type 0 where
  pub same_email : b.email ≡ a.email
  pub kept_comment : Kept a.comment b.comment
  pub kept_destination : Kept a.destination b.destination
  pub kept_wildcard : Kept a.wildcard b.wildcard

-- A creation and an update send every field, so what covers one is what was sent.
pub wanted_is_covered :
    (spec : AliasSpec) (b : Alias)
    → Covers (AliasController.new_alias spec) b
    → b ≡ AliasController.new_alias spec
wanted_is_covered spec b c = λ i. record {
  comment = c.kept_comment i;
  destination = c.kept_destination i;
  email = c.same_email i;
  wildcard = c.kept_wildcard i;
}

-- The server that answers the calls of a client for aliass.
abbrev pub IsAliasServer : (net : Net) → Client net → (net.World → String → Option Alias) → Type 0
IsAliasServer net api stored =
    IsMailu net Alias.unmarshal (λ a. a.email) IsWritable Covers
      (λ n. Calls.find_alias net api n []) (λ d. Calls.create_alias net api d [])
      (λ n d. Calls.update_alias net api n d []) (λ n. Calls.delete_alias net api n []) stored

module _ (net : Net) (cluster : Cluster net.World AliasSpec) (api : Client net)
    (stored : net.World → String → Option Alias) (mailu : IsAliasServer net api stored)
    (patches_keep : (o original : Object AliasSpec) (w : net.World) (n : String)
      → stored (patched cluster original o w) n ≡ stored w n) where
  pub alias_lookup :
      (s : Ctx net AliasSpec)
      → (AliasController.get_alias net cluster api s).0 ≡ record {
        found = stored s.world (AliasController.alias_email s.object.spec);
        retry = false;
        error = none;
      }
  unfolding AliasController.get_alias find_reply
  alias_lookup s =
      elim (Option-cases (stored s.world (AliasController.alias_email s.object.spec))) [
        | inl absent ↦
            let (p, e) =
              mailu.find_missing (AliasController.alias_email s.object.spec) s.world absent in
            ground arith
        | inr (d, present) ↦
            let (j, read, e) =
              mailu.find_stored (AliasController.alias_email s.object.spec) s.world d present in
            ground arith
      ]

  alias_plan_valid :
      (spec : AliasSpec) (d : Alias)
      → (alias_plan net cluster api spec d ≡ unchanged)
        ⊎ ((m : Run (Ctx net AliasSpec) Attempt) × (alias_plan net cluster api spec d ≡ change m))
  alias_plan_valid spec d =
      elim (Bool-cases
        (deep_equal (Alias.marshal (AliasController.new_alias spec)) (Alias.marshal d))) [
          | inl same ↦ inl (rw same refl)
          | inr other ↦ inr (
            AliasController.update_alias net cluster api (AliasController.new_alias spec),
            rw other refl,
          )
        ]

  pub alias_unchanged :
      (spec : AliasSpec)
      → alias_plan net cluster api spec (AliasController.new_alias spec) ≡ unchanged
  alias_unchanged spec =
      let d = Alias.marshal (AliasController.new_alias spec) in
      rw ((deep_equal_iff d d).1 refl) refl

  pub alias_plan_is_wanted :
      (spec : AliasSpec) (d : Alias)
      → alias_plan net cluster api spec d ≡ unchanged
      → d ≡ AliasController.new_alias spec
  alias_plan_is_wanted spec d h =
      let wanted = AliasController.new_alias spec in
      let e = deep_equal_iff (Alias.marshal wanted) (Alias.marshal d) in
      sym (Alias.marshal-injective wanted d (e.0 (ground arith)))

  alias_creation_works :
      (s : Ctx net AliasSpec)
      → IsWritable (AliasController.new_alias s.object.spec)
      → stored s.world (AliasController.alias_email s.object.spec) ≡ none
      → (AliasController.create_alias net cluster api s).0 ≡ done
  unfolding AliasController.create_alias create_reply
  alias_creation_works s w absent =
      let d = AliasController.created_alias s.object.spec in
      let (p, e) = mailu.create_answers d s.world w absent in ground arith

  alias_update_works :
      (s : Ctx net AliasSpec) (d : Alias)
      → IsWritable (AliasController.new_alias s.object.spec)
      → stored s.world (AliasController.alias_email s.object.spec) ≡ some d
      → (AliasController.update_alias net cluster api (AliasController.new_alias s.object.spec) s).0
        ≡ done
  unfolding AliasController.update_alias update_reply
  alias_update_works s d w present =
      let wanted = AliasController.new_alias s.object.spec in
      let (p, e) = mailu.update_answers wanted d s.world w present in ground arith

  alias_update_stores :
      (s : Ctx net AliasSpec) (d : Alias)
      → IsWritable (AliasController.new_alias s.object.spec)
      → stored s.world (AliasController.alias_email s.object.spec) ≡ some d
      → stored
          (AliasController.update_alias net cluster api
            (AliasController.new_alias s.object.spec)
            s).1.world
          (AliasController.alias_email s.object.spec)
        ≡ some (AliasController.new_alias s.object.spec)
  unfolding AliasController.update_alias
  alias_update_stores s d w present =
      let wanted = AliasController.new_alias s.object.spec in
      let (e, kept, covers) = mailu.update_stores wanted d s.world w present in
      kept ∙ ap some (wanted_is_covered s.object.spec e covers)

  alias_deletion_works :
      (s : Ctx net AliasSpec) → (AliasController.delete_alias net cluster api s).0 ≡ done
  unfolding AliasController.delete_alias delete_reply
  alias_deletion_works s =
      let (c, p, gone, e) =
        mailu.delete_answers (AliasController.alias_email s.object.spec) s.world in
      ground arith

  change_is_update :
      (spec : AliasSpec) (d : Alias) (m : Run (Ctx net AliasSpec) Attempt)
      → alias_plan net cluster api spec d ≡ change m
      → AliasController.update_alias net cluster api (AliasController.new_alias spec) ≡ m
  change_is_update spec d m h = ground arith

  abbrev pub stored_at : net.World → AliasSpec → Option Alias
  stored_at w spec = stored w (AliasController.alias_email spec)

  abbrev pub IsReady : AliasSpec → Type 0
  IsReady spec = IsWritable (AliasController.new_alias spec)

  abbrev pub Made : AliasSpec → Alias → Type 0
  Made spec d = Covers (AliasController.created_alias spec) d

  pub alias_kind-IsServed : IsServed cluster (alias_kind net cluster) api stored_at IsReady Made
  unfolding AliasController.get_alias AliasController.create_alias AliasController.delete_alias
  alias_kind-IsServed = record {
    get_finds = alias_lookup;
    get_keeps_stored = λ s spec.
        mailu.find_keeps (AliasController.alias_email s.object.spec)
          (AliasController.alias_email spec) s.world;
    create_works = alias_creation_works;
    create_stores = λ s w absent.
        mailu.create_stores (AliasController.created_alias s.object.spec) s.world w absent;
    plan_valid = λ spec d w. alias_plan_valid spec d;
    change_works = λ s d m w present planned.
        subst (λ (k : Run (Ctx net AliasSpec) Attempt). (k s).0 ≡ done)
          (change_is_update s.object.spec d m planned) (alias_update_works s d w present);
    change_stores = λ s d m w present planned. (
      AliasController.new_alias s.object.spec,
      subst
          (λ (k : Run (Ctx net AliasSpec) Attempt).
            stored (k s).1.world (AliasController.alias_email s.object.spec)
            ≡ some (AliasController.new_alias s.object.spec))
          (change_is_update s.object.spec d m planned) (alias_update_stores s d w present),
      alias_unchanged s.object.spec,
    );
    delete_works = alias_deletion_works;
    delete_stores = λ s. mailu.delete_empties (AliasController.alias_email s.object.spec) s.world;
    patches_keep =
        λ o original w spec. patches_keep o original w (AliasController.alias_email spec);
    reconcile_keeps = λ s client.
        rw (sym (alias_reconcile_refines net cluster s)) (alias_run_kept net cluster s api client);
  }

  -- The operations of one alias keep what is stored under another name.
  pub alias_kind-IsUntouched :
      (spec : AliasSpec) (m : String)
      → m ≢ (AliasController.alias_email spec)
      → IsUntouched cluster (alias_kind net cluster) api (λ w. stored w m) spec
  unfolding AliasController.get_alias AliasController.create_alias AliasController.delete_alias
      AliasController.update_alias
  alias_kind-IsUntouched spec m other = record {
    get_keeps = λ s h. mailu.find_keeps (AliasController.alias_email s.object.spec) m s.world;
    create_keeps = λ s h.
        mailu.create_keeps (AliasController.created_alias s.object.spec) s.world m
          (λ p. other (p ∙ ap (λ x. (AliasController.alias_email x)) h));
    delete_keeps = λ s h.
        mailu.delete_keeps (AliasController.alias_email s.object.spec) s.world m
          (λ p. other (p ∙ ap (λ x. (AliasController.alias_email x)) h));
    change_keeps = λ d k s h planned.
        subst (λ (k : Run (Ctx net AliasSpec) Attempt). stored (k s).1.world m ≡ stored s.world m)
          (change_is_update spec d k planned)
          (mailu.update_keeps (AliasController.alias_email spec) (AliasController.new_alias spec)
            s.world m other);
    patches_keep = λ o original w. patches_keep o original w m;
  }
