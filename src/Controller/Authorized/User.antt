-- ===== src/Controller/Authorized/User.antt =====
-- The requests that internal/controller/user_controller.go sends.
use mailu_operator.Common.{
  String, ◌≡◌, refl, sym, subst, [], ◌∷◌, some, arith, Bool-cases, inl, inr, false, Option-cases,
  str_eq, not, ◌&&◌,
}
use mailu_operator.Common.Result.{Result-cases}
use mailu_operator.Common.Run.{Run}
use mailu_operator.Api.Dates.{Dates}
use mailu_operator.Controller.User.FromSpec.{user_email, user_from_spec}
use mailu_operator.Controller.User.Password.{Secrets, get_user_password, get_raw_user_password}
use mailu_operator.Http.{Net, Request}
use mailu_operator.Client.{Client}
use mailu_operator.Client.Calls
use mailu_operator.Client.Calls.{perform}
use mailu_operator.Client.Requests.{
  new_find_user_request, new_create_user_request, new_update_user_request, new_delete_user_request,
}
use mailu_operator.Api.User.{User}
use mailu_operator.Resource.{Object, Cluster}
use mailu_operator.Resource.Specs.{UserSpec}
use mailu_operator.Controller.{Attempt, Ctx, authorize}
use mailu_operator.Controller.User as UserController
use mailu_operator.Controller.Flow.{change}
use mailu_operator.Controller.Flow.Finalizers.{patched}
use mailu_operator.Controller.Flow.Untouched.{IsInvariant, reconcile_holds}
use mailu_operator.Controller.Flow.Kinds.User.{
  user_kind, user_kind-IsTame, user_plan, user_reconcile_refines,
}
use mailu_operator.Controller.Authorized.{Carries, perform_holds}

module _ (net : Net) (dates : Dates) (secrets : Secrets net.World) (api : Client net)
    (token : String) (doer : net.Doer) (made : api.client ≡ some doer)
    (editors : api.request_editors ≡ authorize token ∷ []) (I : net.World → Type 0)
    (sending : (req : Request) (w : net.World)
      → Carries token req
      → I w
      → I (net.do_request doer req w).1)
    (cluster : Cluster net.World UserSpec)
    (patching : (o original : Object UserSpec) (w : net.World)
      → I w
      → I (patched cluster original o w))
    (secret_reading : (n k : String) (w : net.World) → I w → I (secrets.get_secret n k w).1)
    (generating : (w : net.World) → I w → I (secrets.generate 20 2 2 false false w).1) where
  secret_keeps :
      (namespace secret key : String) (w : net.World)
      → I w
      → I (get_user_password secrets namespace secret key w).1
  unfolding get_user_password
  secret_keeps namespace secret key w i =
      let w1 = (secrets.get_secret namespace secret w).1 in
      let j : I w1 = secret_reading namespace secret w i in
      let after = (get_user_password secrets namespace secret key w).1 in
      elim (Result-cases (secrets.get_secret namespace secret w).0) [
        | inl (e, failed) ↦ let same : after ≡ w1 = ground arith in subst I (sym same) j
        | inr (entries, found) ↦ let same : after ≡ w1 = ground arith in subst I (sym same) j
      ]

  raw_password_keeps :
      (o : Object UserSpec) (w : net.World) → I w → I (get_raw_user_password secrets o w).1
  unfolding get_raw_user_password
  raw_password_keeps o w i =
      elim (Bool-cases
        (not (str_eq o.spec.password_secret "") && not (str_eq o.spec.password_key ""))) [
          | inl given ↦
              rw given
                (secret_keeps o.meta.namespace o.spec.password_secret o.spec.password_key w i)
          | inr missing ↦ rw missing (generating w i)
        ]

  password_keeps :
      (s : Ctx net UserSpec)
      → I s.world
      → I (UserController.require_password net dates secrets cluster s).1.world
  unfolding UserController.require_password UserController.store_password
  password_keeps s i = elim (Bool-cases (str_eq s.object.spec.raw_password "")) [
    | inl empty ↦ rw empty (raw_password_keeps s.object s.world i)
    | inr given ↦ rw given i
  ]

  user_create_keeps :
      (s : Ctx net UserSpec)
      → I s.world
      → I (UserController.create_user net dates secrets cluster api s).1.world
  unfolding UserController.create_user Calls.create_user
  user_create_keeps s i =
      let (missing, t) = UserController.require_password net dates secrets cluster s in
      let after = (UserController.create_user net dates secrets cluster api s).1.world in
      let j : I t.world = password_keeps s i in
      elim (Option-cases missing) [
        | inr (e, p) ↦ let same : after ≡ t.world = ground arith in subst I (sym same) j
        | inl p ↦ elim (Result-cases (user_from_spec dates t.object.spec)) [
          | inl (e, bad) ↦ let same : after ≡ t.world = ground arith in subst I (sym same) j
          | inr (u, good) ↦
              let built = new_create_user_request net dates api.server u in
              let same : after ≡ (perform net api built [] t.world).1 = ground arith in
              subst I (sym same)
                (perform_holds net api token doer made editors I sending built t.world j)
        ]
      ]

  user_change_keeps :
      (spec : UserSpec) (a : User dates) (m : Run (Ctx net UserSpec) Attempt) (s : Ctx net UserSpec)
      → user_plan net dates secrets cluster api spec a ≡ change m
      → I s.world
      → I (m s).1.world
  unfolding UserController.update_user Calls.update_user
  user_change_keeps spec a m s planned i = elim (Result-cases (user_from_spec dates spec)) [
    | inl (e, bad) ↦ absurd (ground arith)
    | inr (u, good) ↦
        let wanted = UserController.wanted_user net dates secrets cluster u in
        let same : UserController.update_user net dates secrets cluster api wanted ≡ m =
          ground arith in
        subst (λ (k : Run (Ctx net UserSpec) Attempt). I (k s).1.world) same
          (perform_holds net api token doer made editors I sending
            (new_update_user_request net dates api.server wanted.email wanted) s.world i)
  ]

  user_kind-IsInvariant :
      (spec : UserSpec) → IsInvariant cluster (user_kind net dates secrets cluster) api I spec
  unfolding UserController.get_user UserController.delete_user Calls.find_user Calls.delete_user
  user_kind-IsInvariant spec = record {
    get_keeps = λ s h i.
        perform_holds net api token doer made editors I sending
          (new_find_user_request net api.server (user_email s.object.spec)) s.world i;
    create_keeps = λ s h i. user_create_keeps s i;
    delete_keeps = λ s h i.
        perform_holds net api token doer made editors I sending
          (new_delete_user_request net api.server (user_email s.object.spec)) s.world i;
    change_keeps = λ a m s h planned i. user_change_keeps spec a m s planned i;
    patches_keep = patching;
  }

  -- Take a client that sends by `doer` and has the one editor that authorizes with the token, and anything
  -- about the world that every request with the token as its last header preserves, that the patches
  -- preserve, and that the reading of secrets and the generator of passwords preserve. Then `Reconcile` of
  -- a user with that client at hand preserves it, whatever the answers are.
  pub user_requests_authorized :
      (s : Ctx net UserSpec)
      → s.reconciler.api_client ≡ some api
      → I s.world
      → I (UserController.reconcile net dates secrets cluster s).1.world
  user_requests_authorized s client i = rw user_reconcile_refines (
      reconcile_holds net cluster (user_kind net dates secrets cluster)
        (user_kind-IsTame net dates secrets cluster) api I s.object.spec
        (user_kind-IsInvariant s.object.spec) s client refl i)
