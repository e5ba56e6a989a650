-- ===== src/Controller/User/FromSpec.antt =====
-- `userFromSpec` of internal/controller/user_controller.go
use mailu_operator.Common.{String, ◌<>◌, Option, none, some, str_eq, if◌then◌else◌}
use mailu_operator.Common.Result.{Result, ok, ◌>>=◌}
use mailu_operator.Api.Dates.{Dates}
use mailu_operator.Api.User.{User}
use mailu_operator.Resource.Specs.{UserSpec}

-- `user.Spec.Name+"@"+user.Spec.Domain`
abbrev pub user_email : UserSpec → String
user_email spec = spec.name <> "@" <> spec.domain

module _ (dates : Dates) where
  -- A date is converted if it is set.
  abbrev pub optional_date : String → Result (Option dates.Date)
  optional_date text =
      if str_eq text "" then ok none else (do d ← dates.unmarshal_text text; ok (some d))

  -- The start date comes first, so that its error is the one that is returned.
  unfoldable pub user_from_spec : UserSpec → Result (User dates)
  user_from_spec spec = do
    start ← optional_date spec.reply_start_date
    end ← optional_date spec.reply_end_date
    ok (record {
      allow_spoofing = some spec.allow_spoofing;
      change_pw_next_login = some spec.change_password;
      comment = some spec.comment;
      displayed_name = some spec.displayed_name;
      email = user_email spec;
      enabled = some spec.enabled;
      enable_imap = some spec.enable_imap;
      enable_pop = some spec.enable_pop;
      forward_destination = some spec.forward_destination;
      forward_enabled = some spec.forward_enabled;
      forward_keep = some spec.forward_keep;
      global_admin = some spec.global_admin;
      password = none;
      quota_bytes = some spec.quota_bytes;
      quota_bytes_used = none;
      raw_password = some spec.raw_password;
      reply_body = some spec.reply_body;
      reply_enabled = some spec.reply_enabled;
      reply_end_date = end;
      reply_start_date = start;
      reply_subject = some spec.reply_subject;
      spam_enabled = some spec.spam_enabled;
      spam_mark_as_read = some spec.spam_mark_as_read;
      spam_threshold = some spec.spam_threshold;
    })
