-- ===== src/Tests/Users.antt =====
-- The user reconciler in the scripted world.
use mailu_operator.Common.{
  ◌≡◌, ◌≢◌, ◌⊎◌, refl, none, some, [], ◌∷◌, true, false, Option, String, List, ℕ,
}
use mailu_operator.Common.Int.{pos, negsuc}
use mailu_operator.Json.{Json, null}
use mailu_operator.Http.{document}
use mailu_operator.Client.Calls
use mailu_operator.Api.User
use mailu_operator.Api.User.{User}
use mailu_operator.Api.User.Documents.{Alike}
use mailu_operator.Resource.{Object, Cluster, finalizer_name, condition_false, condition_true}
use mailu_operator.Resource.Specs.{UserSpec}
use mailu_operator.Controller.{Ctx, finished, apply_patches, ensure_client}
use mailu_operator.Controller.Reply.{itoa, find_reply, create_reply, delete_reply}
use mailu_operator.Controller.Flow.Finalizers.{patched}
use mailu_operator.Controller.Flow.Status.{Reports}
use mailu_operator.Controller.User as UserController
use mailu_operator.Controller.Finalizer.{
  user_finalizer_live, user_finalizer_deleted, user_deletion_abandoned,
}
use mailu_operator.Controller.Status.{user_failure_reported, user_success_reported}
use mailu_operator.Controller.Sequel.User.{user_settles_next}
use mailu_operator.Controller.Updates.{user_update_sent}
use mailu_operator.Controller.Creation.{create_user_spec, created_user_keeps_password}
use mailu_operator.Controller.User.FromSpec.{user_from_spec, user_email}
use mailu_operator.Controller.User.Password.{get_raw_user_password}
use mailu_operator.Controller.Results.{user_result}
use mailu_operator.Tests.World.{
  World, net, cluster, cluster-IsLawful, dates, dates-IsLawful, secrets, api, answer_of, start,
}

abbrev pub spec : UserSpec
spec = record {
  name = "admin";
  domain = "example.com";
  allow_spoofing = false;
  change_password = true;
  comment = "";
  displayed_name = "Admin";
  enabled = true;
  enable_imap = true;
  enable_pop = true;
  forward_enabled = false;
  forward_destination = some [];
  forward_keep = false;
  global_admin = false;
  password_secret = "mail";
  password_key = "password";
  quota_bytes = negsuc 0;
  raw_password = "";
  reply_enabled = false;
  reply_subject = "";
  reply_body = "";
  reply_start_date = "2024-06-01";
  reply_end_date = "";
  spam_enabled = true;
  spam_mark_as_read = true;
  spam_threshold = pos 80;
}

-- What the spec converts to.
abbrev converted : User dates
converted = record {
  allow_spoofing = some false;
  change_pw_next_login = some true;
  comment = some "";
  displayed_name = some "Admin";
  email = "admin@example.com";
  enabled = some true;
  enable_imap = some true;
  enable_pop = some true;
  forward_destination = some (some []);
  forward_enabled = some false;
  forward_keep = some false;
  global_admin = some false;
  password = none;
  quota_bytes = some (negsuc 0);
  quota_bytes_used = none;
  raw_password = some "";
  reply_body = some "";
  reply_enabled = some false;
  reply_end_date = none;
  reply_start_date = some "2024-06-01";
  reply_subject = some "";
  spam_enabled = some true;
  spam_mark_as_read = some true;
  spam_threshold = some (pos 80);
}

abbrev mail : Cluster World UserSpec
mail = cluster

-- A user with the given deletion time, finalizers and spec.
abbrev resource : Option ℕ → List String → UserSpec → Object UserSpec
resource deleted finalizers wanted = record {
  meta = record {
    name = "example";
    namespace = "mail";
    deletion_timestamp = deleted;
    finalizers = finalizers;
  };
  spec = wanted;
  conditions = [];
}

-- What Mailu stores: it adds a password hash and the used quota.
abbrev stored_user : User dates
stored_user = record (UserController.wanted_user net dates secrets mail converted) {
  password = some "hash";
  quota_bytes_used = some (pos 0);
}

abbrev stored : Json
stored = User.marshal dates stored_user

abbrev pub fresh : Ctx net UserSpec
fresh =
    start (resource none [] spec)
      (answer_of 404 (document null) ∷ answer_of 201 (document null) ∷ [])

abbrev forbidden : Ctx net UserSpec
forbidden =
    start (resource none [] spec)
      (answer_of 404 (document null) ∷ answer_of 403 (document null) ∷ [])

abbrev deleting : Ctx net UserSpec
deleting =
    start (resource (some 1) (finalizer_name ∷ []) spec)
      (answer_of 200 (document stored) ∷ answer_of 200 (document null) ∷ [])

abbrev settled : Ctx net UserSpec
settled = start (resource none (finalizer_name ∷ []) spec) (answer_of 200 (document stored) ∷ [])

abbrev created : Ctx net UserSpec
created = start (resource none (finalizer_name ∷ []) spec) (answer_of 201 (document null) ∷ [])

abbrev absent : Ctx net UserSpec
absent =
    start (resource none (finalizer_name ∷ []) spec)
      (answer_of 404 (document null) ∷ answer_of 201 (document null) ∷ [])

user_finalizer_live_example :
    mail.contains_finalizer
      (UserController.reconcile net dates secrets mail fresh).1.object.meta.finalizers
      finalizer_name
    ≡ true
user_finalizer_live_example = user_finalizer_live net dates secrets mail cluster-IsLawful fresh refl

user_finalizer_deleted_example :
    (UserController.reconcile net dates secrets mail deleting).1.object.meta.finalizers ≡ []
unfolding UserController.get_user UserController.delete_user Calls.find_user Calls.delete_user
    find_reply delete_reply User.unmarshal User.marshal
user_finalizer_deleted_example =
    user_finalizer_deleted net dates secrets mail deleting api 1 refl refl

abbrev unauthorized : Ctx net UserSpec
unauthorized =
    start (resource (some 1) (finalizer_name ∷ []) spec) (answer_of 401 (document null) ∷ [])

user_deletion_abandoned_example :
    ((UserController.reconcile net dates secrets mail unauthorized).0 ≡ finished)
    × ((UserController.reconcile net dates secrets mail unauthorized).1.object.meta.finalizers ≡ [])
    × ((UserController.reconcile net dates secrets mail unauthorized).1.world
        ≡ patched mail unauthorized.object
            (UserController.reconcile net dates secrets mail unauthorized).1.object
            (UserController.get_user net dates secrets mail api unauthorized).1.world)
unfolding UserController.get_user Calls.find_user find_reply itoa
user_deletion_abandoned_example =
    user_deletion_abandoned net dates secrets mail unauthorized api 1 "unknown status: 401" refl
      refl refl

user_failure_reported_example :
    Reports
      (UserController.reconcile net dates secrets mail forbidden).1.object.conditions
      (UserController.get_user_ready_condition condition_false "Error" "unknown status: 403")
unfolding UserController.reconcile UserController.reconcile_steps UserController.get_user
    UserController.create_user Calls.find_user Calls.create_user find_reply create_reply itoa
    ensure_client apply_patches user_from_spec
user_failure_reported_example =
    user_failure_reported net dates secrets mail cluster-IsLawful forbidden "unknown status: 403"
      refl

user_success_reported_example :
    Reports
      (UserController.decide net dates secrets mail api
        (record { found = none; retry = false; error = none })
        created).1.object.conditions
      (UserController.get_user_ready_condition condition_true "Created" "User created in MailU")
unfolding UserController.decide UserController.create_user Calls.create_user create_reply
    get_raw_user_password user_from_spec
user_success_reported_example =
    user_success_reported net dates secrets mail cluster-IsLawful api
      (record { found = none; retry = false; error = none }) created refl refl refl

abbrev wanted : Json
wanted = User.marshal dates (UserController.wanted_user net dates secrets mail converted)

create_user_spec_example :
    ((spec.raw_password ≢ "")
      × ((UserController.create_user net dates secrets mail api fresh).1.object.spec ≡ spec))
    ⊎ ((spec.raw_password ≡ "")
        × ((UserController.create_user net dates secrets mail api fresh).1.object.spec
            ≡ record spec { raw_password = "hunter2" }))
unfolding get_raw_user_password
create_user_spec_example = create_user_spec net dates secrets mail api fresh

created_user_keeps_password_example :
    (UserController.reconcile net dates secrets mail absent).1.object.spec
    ≡ record spec { raw_password = "hunter2" }
unfolding get_raw_user_password UserController.get_user Calls.find_user find_reply
created_user_keeps_password_example =
    created_user_keeps_password net dates secrets mail absent api refl refl refl refl refl

-- Mailu knows nothing, creates the user, and then answers with what an update sends.
abbrev repeated : Ctx net UserSpec
repeated = start (resource none [] spec) (
    answer_of 404 (document null)
    ∷ answer_of 201 (document null)
    ∷ answer_of 200 (document stored)
    ∷ [])

user_settles_next_example :
    let (_, t) = UserController.reconcile net dates secrets mail repeated in
    let (r, u) = UserController.reconcile net dates secrets mail t in
    (r ≡ finished)
    × (u.object.spec ≡ t.object.spec)
    × (u.object.meta ≡ t.object.meta)
    × (u.world
        ≡ patched mail t.object u.object
            (Calls.find_user net api (user_email t.object.spec) [] t.world).1)
unfolding UserController.reconcile UserController.reconcile_steps UserController.get_user
    UserController.create_user Calls.find_user Calls.create_user find_reply create_reply
    ensure_client apply_patches user_from_spec get_raw_user_password
user_settles_next_example =
    user_settles_next net dates secrets mail cluster-IsLawful repeated api
      (record converted { raw_password = some "hunter2" }) (some "hash") (some (pos 0))
      dates-IsLawful refl refl refl
      (record {
        forward_destination_not_nil = tt;
        quota_bytes_fits = refl;
        quota_bytes_used_fits = refl;
        reply_end_date_was_read = tt;
        reply_start_date_was_read = ("2024-06-01", refl);
        spam_threshold_fits = refl;
      })
      refl

-- The creation meets a conflict: it is tried again in five seconds.
abbrev conflicting : Ctx net UserSpec
conflicting =
    start (resource none (finalizer_name ∷ []) spec)
      (answer_of 404 (document null) ∷ answer_of 409 (document null) ∷ [])

user_result_example :
    (UserController.reconcile net dates secrets mail conflicting).0
    ≡ record { requeue_after = 5000000000; error = none }
unfolding UserController.guard_finalizer UserController.get_user UserController.create_user
    Calls.find_user Calls.create_user find_reply create_reply user_from_spec get_raw_user_password
user_result_example = user_result net dates secrets mail conflicting api refl

abbrev IsSettled : Type 0
IsSettled =
    Alike dates (record converted { raw_password = none })
      (record stored_user { password = none; quota_bytes_used = none })

user_update_sent_example :
    let after = (UserController.update net dates secrets mail api stored_user settled).1.world in
    (IsSettled × (after ≡ settled.world))
    ⊎ ((¬ IsSettled)
        × (after
            ≡ (Calls.update_user net dates api "admin@example.com"
                (record converted { raw_password = none })
                []
                settled.world).1))
unfolding user_from_spec
user_update_sent_example =
    user_update_sent net dates secrets mail api stored_user converted settled refl
