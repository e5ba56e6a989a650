-- ===== src/Api/User.antt =====
-- `mailu.User` of pkg/mailu/client.go, and its documents.
pub mod RoundTrip
pub mod Documents
use mathlib.Core.Option
use mailu_operator.Common.{String, Bool, List, [], ◌∷◌, Option, none, some, if◌then◌else◌}
use mailu_operator.Common.Int.{ℤ}
use mailu_operator.Json.{Json, str, obj, items}
use mailu_operator.Json.Object.{Fields, members, bool_field, string_field, int_field, strings_field}
use mailu_operator.Json.Decode.{
  same_key, decode_bool, decode_string, decode_int, decode_strings, decode_text, decode_object,
}
use mailu_operator.Api.Dates.{Dates}

module _ (dates : Dates) where
  -- `none` is a nil pointer. A slice behind a pointer is nil too, or a list.
  pub record User : Type 0 where
    pub allow_spoofing : Option Bool
    pub change_pw_next_login : Option Bool
    pub comment : Option String
    pub displayed_name : Option String
    pub email : String
    pub enabled : Option Bool
    pub enable_imap : Option Bool
    pub enable_pop : Option Bool
    pub forward_destination : Option (Option (List String))
    pub forward_enabled : Option Bool
    pub forward_keep : Option Bool
    pub global_admin : Option Bool
    pub password : Option String
    pub quota_bytes : Option ℤ
    pub quota_bytes_used : Option ℤ
    pub raw_password : Option String
    pub reply_body : Option String
    pub reply_enabled : Option Bool
    pub reply_end_date : Option dates.Date
    pub reply_start_date : Option dates.Date
    pub reply_subject : Option String
    pub spam_enabled : Option Bool
    pub spam_mark_as_read : Option Bool
    pub spam_threshold : Option ℤ

  -- `mailu.User{}`
  abbrev pub empty : User
  empty = record {
    allow_spoofing = none;
    change_pw_next_login = none;
    comment = none;
    displayed_name = none;
    email = "";
    enabled = none;
    enable_imap = none;
    enable_pop = none;
    forward_destination = none;
    forward_enabled = none;
    forward_keep = none;
    global_admin = none;
    password = none;
    quota_bytes = none;
    quota_bytes_used = none;
    raw_password = none;
    reply_body = none;
    reply_enabled = none;
    reply_end_date = none;
    reply_start_date = none;
    reply_subject = none;
    spam_enabled = none;
    spam_mark_as_read = none;
    spam_threshold = none;
  }

  -- A field of type `*openapi_types.Date`.
  abbrev date_field : Option dates.Date → Option Json
  date_field none = none
  date_field (some d) = some (str (dates.format d))

  abbrev decode_date : Json → Option (Option dates.Date)
  decode_date Json.null = some none
  decode_date j = Option.map some (dates.unmarshal_json j)

  -- The tagged fields, in the order of the struct.
  abbrev fields : User → Fields
  fields u =
      ("allow_spoofing", bool_field u.allow_spoofing)
      ∷ ("change_pw_next_login", bool_field u.change_pw_next_login)
      ∷ ("comment", string_field u.comment)
      ∷ ("displayed_name", string_field u.displayed_name)
      ∷ ("email", some (str u.email))
      ∷ ("enabled", bool_field u.enabled)
      ∷ ("enable_imap", bool_field u.enable_imap)
      ∷ ("enable_pop", bool_field u.enable_pop)
      ∷ ("forward_destination", strings_field u.forward_destination)
      ∷ ("forward_enabled", bool_field u.forward_enabled)
      ∷ ("forward_keep", bool_field u.forward_keep)
      ∷ ("global_admin", bool_field u.global_admin)
      ∷ ("password", string_field u.password)
      ∷ ("quota_bytes", int_field u.quota_bytes)
      ∷ ("quota_bytes_used", int_field u.quota_bytes_used)
      ∷ ("raw_password", string_field u.raw_password)
      ∷ ("reply_body", string_field u.reply_body)
      ∷ ("reply_enabled", bool_field u.reply_enabled)
      ∷ ("reply_enddate", date_field u.reply_end_date)
      ∷ ("reply_startdate", date_field u.reply_start_date)
      ∷ ("reply_subject", string_field u.reply_subject)
      ∷ ("spam_enabled", bool_field u.spam_enabled)
      ∷ ("spam_mark_as_read", bool_field u.spam_mark_as_read)
      ∷ ("spam_threshold", int_field u.spam_threshold)
      ∷ []

  -- `json.Marshal(user)`
  unfoldable pub marshal : User → Json
  unfolding members items
  marshal u = obj (members (fields u))

  set_member : User → String → Json → Option User
  unfolding same_key decode_bool decode_string decode_int decode_strings decode_text
  set_member u k j =
      if same_key "allow_spoofing" k
      then Option.map (λ x. record u { allow_spoofing = x }) (decode_bool j)
      else if same_key "change_pw_next_login" k
      then Option.map (λ x. record u { change_pw_next_login = x }) (decode_bool j)
      else if same_key "comment" k
      then Option.map (λ x. record u { comment = x }) (decode_string j)
      else if same_key "displayed_name" k
      then Option.map (λ x. record u { displayed_name = x }) (decode_string j)
      else if same_key "email" k
      then Option.map (λ x. record u { email = x }) (decode_text u.email j)
      else if same_key "enabled" k
      then Option.map (λ x. record u { enabled = x }) (decode_bool j)
      else if same_key "enable_imap" k
      then Option.map (λ x. record u { enable_imap = x }) (decode_bool j)
      else if same_key "enable_pop" k
      then Option.map (λ x. record u { enable_pop = x }) (decode_bool j)
      else if same_key "forward_destination" k
      then Option.map (λ x. record u { forward_destination = Option.map some x }) (decode_strings j)
      else if same_key "forward_enabled" k
      then Option.map (λ x. record u { forward_enabled = x }) (decode_bool j)
      else if same_key "forward_keep" k
      then Option.map (λ x. record u { forward_keep = x }) (decode_bool j)
      else if same_key "global_admin" k
      then Option.map (λ x. record u { global_admin = x }) (decode_bool j)
      else if same_key "password" k
      then Option.map (λ x. record u { password = x }) (decode_string j)
      else if same_key "quota_bytes" k
      then Option.map (λ x. record u { quota_bytes = x }) (decode_int j)
      else if same_key "quota_bytes_used" k
      then Option.map (λ x. record u { quota_bytes_used = x }) (decode_int j)
      else if same_key "raw_password" k
      then Option.map (λ x. record u { raw_password = x }) (decode_string j)
      else if same_key "reply_body" k
      then Option.map (λ x. record u { reply_body = x }) (decode_string j)
      else if same_key "reply_enabled" k
      then Option.map (λ x. record u { reply_enabled = x }) (decode_bool j)
      else if same_key "reply_enddate" k
      then Option.map (λ x. record u { reply_end_date = x }) (decode_date j)
      else if same_key "reply_startdate" k
      then Option.map (λ x. record u { reply_start_date = x }) (decode_date j)
      else if same_key "reply_subject" k
      then Option.map (λ x. record u { reply_subject = x }) (decode_string j)
      else if same_key "spam_enabled" k
      then Option.map (λ x. record u { spam_enabled = x }) (decode_bool j)
      else if same_key "spam_mark_as_read" k
      then Option.map (λ x. record u { spam_mark_as_read = x }) (decode_bool j)
      else if same_key "spam_threshold" k
      then Option.map (λ x. record u { spam_threshold = x }) (decode_int j)
      else some u

  -- `foundUser := &mailu.User{}; json.Unmarshal(body, &foundUser)`
  unfoldable pub unmarshal : Json → Option (Option User)
  unfolding set_member decode_object
  unmarshal = decode_object set_member empty
