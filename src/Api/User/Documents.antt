-- ===== src/Api/User/Documents.antt =====
-- When two users of pkg/mailu/client.go have the same document.
use mailu_operator.Common.{
  ℕ, zero, suc, String, ◌≡◌, ◌↔◌, refl, ap, [], ◌∷◌, Option, none, some, arith,
}
use mailu_operator.Json.{Json, str, obj}
use mailu_operator.Json.Object.{
  Fields, members, members-injective, bool_field, string_field, int_field, strings_field,
  bool_field-injective, string_field-injective, int_field-injective, strings_field-injective,
}
use mailu_operator.Api.Dates.{Dates}
use mailu_operator.Api.User.{User, fields, marshal, date_field}

-- The value of the field at a position.
value_at : ℕ → Fields → Option Json
value_at n [] = none
value_at zero ((k, x) ∷ fs) = x
value_at (suc n) ((k, x) ∷ fs) = value_at n fs

email_injective : (s t : String) → some (str s) ≡ some (str t) → s ≡ t
email_injective s t h = cc

module _ (dates : Dates) where
  abbrev pub date_text : Option dates.Date → Option String
  date_text none = none
  date_text (some d) = some (dates.format d)

  -- The same fields, with dates that are written alike.
  pub record Alike (a b : User dates) : Type 0 where
    pub same_allow_spoofing : a.allow_spoofing ≡ b.allow_spoofing
    pub same_change_pw_next_login : a.change_pw_next_login ≡ b.change_pw_next_login
    pub same_comment : a.comment ≡ b.comment
    pub same_displayed_name : a.displayed_name ≡ b.displayed_name
    pub same_email : a.email ≡ b.email
    pub same_enabled : a.enabled ≡ b.enabled
    pub same_enable_imap : a.enable_imap ≡ b.enable_imap
    pub same_enable_pop : a.enable_pop ≡ b.enable_pop
    pub same_forward_destination : a.forward_destination ≡ b.forward_destination
    pub same_forward_enabled : a.forward_enabled ≡ b.forward_enabled
    pub same_forward_keep : a.forward_keep ≡ b.forward_keep
    pub same_global_admin : a.global_admin ≡ b.global_admin
    pub same_password : a.password ≡ b.password
    pub same_quota_bytes : a.quota_bytes ≡ b.quota_bytes
    pub same_quota_bytes_used : a.quota_bytes_used ≡ b.quota_bytes_used
    pub same_raw_password : a.raw_password ≡ b.raw_password
    pub same_reply_body : a.reply_body ≡ b.reply_body
    pub same_reply_enabled : a.reply_enabled ≡ b.reply_enabled
    pub same_reply_end_date : date_text a.reply_end_date ≡ date_text b.reply_end_date
    pub same_reply_start_date : date_text a.reply_start_date ≡ date_text b.reply_start_date
    pub same_reply_subject : a.reply_subject ≡ b.reply_subject
    pub same_spam_enabled : a.spam_enabled ≡ b.spam_enabled
    pub same_spam_mark_as_read : a.spam_mark_as_read ≡ b.spam_mark_as_read
    pub same_spam_threshold : a.spam_threshold ≡ b.spam_threshold

  date_field-injective :
      (x y : Option dates.Date)
      → date_field dates x ≡ date_field dates y
      → date_text x ≡ date_text y
  date_field-injective x y h = ground arith

  date_field-text :
      (x y : Option dates.Date)
      → date_text x ≡ date_text y
      → date_field dates x ≡ date_field dates y
  date_field-text x y h = ground arith

  fields-injective : (a b : User dates) → fields dates a ≡ fields dates b → Alike a b
  unfolding value_at
  fields-injective a b h = record {
    same_allow_spoofing =
        bool_field-injective a.allow_spoofing b.allow_spoofing (ap (value_at 0) h);
    same_change_pw_next_login =
        bool_field-injective a.change_pw_next_login b.change_pw_next_login (ap (value_at 1) h);
    same_comment = string_field-injective a.comment b.comment (ap (value_at 2) h);
    same_displayed_name =
        string_field-injective a.displayed_name b.displayed_name (ap (value_at 3) h);
    same_email = email_injective a.email b.email (ap (value_at 4) h);
    same_enabled = bool_field-injective a.enabled b.enabled (ap (value_at 5) h);
    same_enable_imap = bool_field-injective a.enable_imap b.enable_imap (ap (value_at 6) h);
    same_enable_pop = bool_field-injective a.enable_pop b.enable_pop (ap (value_at 7) h);
    same_forward_destination =
        strings_field-injective a.forward_destination b.forward_destination (ap (value_at 8) h);
    same_forward_enabled =
        bool_field-injective a.forward_enabled b.forward_enabled (ap (value_at 9) h);
    same_forward_keep = bool_field-injective a.forward_keep b.forward_keep (ap (value_at 10) h);
    same_global_admin = bool_field-injective a.global_admin b.global_admin (ap (value_at 11) h);
    same_password = string_field-injective a.password b.password (ap (value_at 12) h);
    same_quota_bytes = int_field-injective a.quota_bytes b.quota_bytes (ap (value_at 13) h);
    same_quota_bytes_used =
        int_field-injective a.quota_bytes_used b.quota_bytes_used (ap (value_at 14) h);
    same_raw_password = string_field-injective a.raw_password b.raw_password (ap (value_at 15) h);
    same_reply_body = string_field-injective a.reply_body b.reply_body (ap (value_at 16) h);
    same_reply_enabled = bool_field-injective a.reply_enabled b.reply_enabled (ap (value_at 17) h);
    same_reply_end_date =
        date_field-injective a.reply_end_date b.reply_end_date (ap (value_at 18) h);
    same_reply_start_date =
        date_field-injective a.reply_start_date b.reply_start_date (ap (value_at 19) h);
    same_reply_subject =
        string_field-injective a.reply_subject b.reply_subject (ap (value_at 20) h);
    same_spam_enabled = bool_field-injective a.spam_enabled b.spam_enabled (ap (value_at 21) h);
    same_spam_mark_as_read =
        bool_field-injective a.spam_mark_as_read b.spam_mark_as_read (ap (value_at 22) h);
    same_spam_threshold =
        int_field-injective a.spam_threshold b.spam_threshold (ap (value_at 23) h);
  }

  Alike-fields : (a b : User dates) → Alike a b → fields dates a ≡ fields dates b
  Alike-fields a b same = λ i.
      ("allow_spoofing", bool_field (same.same_allow_spoofing i))
      ∷ ("change_pw_next_login", bool_field (same.same_change_pw_next_login i))
      ∷ ("comment", string_field (same.same_comment i))
      ∷ ("displayed_name", string_field (same.same_displayed_name i))
      ∷ ("email", some (str (same.same_email i)))
      ∷ ("enabled", bool_field (same.same_enabled i))
      ∷ ("enable_imap", bool_field (same.same_enable_imap i))
      ∷ ("enable_pop", bool_field (same.same_enable_pop i))
      ∷ ("forward_destination", strings_field (same.same_forward_destination i))
      ∷ ("forward_enabled", bool_field (same.same_forward_enabled i))
      ∷ ("forward_keep", bool_field (same.same_forward_keep i))
      ∷ ("global_admin", bool_field (same.same_global_admin i))
      ∷ ("password", string_field (same.same_password i))
      ∷ ("quota_bytes", int_field (same.same_quota_bytes i))
      ∷ ("quota_bytes_used", int_field (same.same_quota_bytes_used i))
      ∷ ("raw_password", string_field (same.same_raw_password i))
      ∷ ("reply_body", string_field (same.same_reply_body i))
      ∷ ("reply_enabled", bool_field (same.same_reply_enabled i))
      ∷ (
        "reply_enddate",
        date_field-text a.reply_end_date b.reply_end_date same.same_reply_end_date i,
      )
      ∷ (
        "reply_startdate",
        date_field-text a.reply_start_date b.reply_start_date same.same_reply_start_date i,
      )
      ∷ ("reply_subject", string_field (same.same_reply_subject i))
      ∷ ("spam_enabled", bool_field (same.same_spam_enabled i))
      ∷ ("spam_mark_as_read", bool_field (same.same_spam_mark_as_read i))
      ∷ ("spam_threshold", int_field (same.same_spam_threshold i))
      ∷ []

  -- Users have the same document exactly if they are alike.
  pub marshal_iff : (a b : User dates) → (marshal dates a ≡ marshal dates b) ↔ Alike a b
  unfolding marshal
  marshal_iff a b = (
    λ h. fields-injective a b (members-injective (fields dates a) (fields dates b) refl refl (cc)),
    λ same. ap (λ f. obj (members f)) (Alike-fields a b same),
  )
