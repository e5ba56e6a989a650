-- ===== src/Api/User/RoundTrip.antt =====
-- The documents of `mailu.User` are read back as they were written.
use mailu_operator.Common.{String, ◌≡◌, refl, ◌∙◌, ◌∷◌, Option, none, some}
use mailu_operator.Common.Result.{ok}
use mailu_operator.Json.{str}
use mailu_operator.Json.Object.{Fields, members}
use mailu_operator.Json.Decode.{decode_members, decode_strings-items, decode_int-num}
use mailu_operator.Json.Fields.{
  Fits, NotNil, read_value, read_bool, read_string, read_int, read_strings, read_end,
  decode_object_members,
}
use mailu_operator.Api.Dates.{Dates, IsLawful}
use mailu_operator.Api.User.{User, empty, fields, set_member, marshal, unmarshal, date_field}

module _ (dates : Dates) where
  -- The date, if there is one, was read from a text.
  abbrev pub WasRead : Option dates.Date → Type 0
  WasRead none = Unit
  WasRead (some d) = (s : String) × (dates.unmarshal_text s ≡ ok d)

  -- The integers are ones that an `int` holds, no pointer leads to a nil slice, and the dates were read.
  pub record IsWritable (u : User dates) : Type 0 where
    pub forward_destination_not_nil : NotNil u.forward_destination
    pub quota_bytes_fits : Fits u.quota_bytes
    pub quota_bytes_used_fits : Fits u.quota_bytes_used
    pub reply_end_date_was_read : WasRead u.reply_end_date
    pub reply_start_date_was_read : WasRead u.reply_start_date
    pub spam_threshold_fits : Fits u.spam_threshold

  read_date :
      (n : String) (fs : Fields) (set : Option dates.Date → User dates) (x : Option dates.Date)
      → IsLawful dates
      → WasRead x
      → ((d : dates.Date)
          → dates.unmarshal_json (str (dates.format d)) ≡ some d
          → set_member dates (set none) n (str (dates.format d)) ≡ some (set (some d)))
      → decode_members (set_member dates) (members ((n, date_field dates x) ∷ fs)) (set none)
        ≡ decode_members (set_member dates) (members fs) (set x)
  unfolding members
  read_date n fs set none lawful k h = refl
  read_date n fs set (some d) lawful (s, read) h =
      read_value (set_member dates) n fs (str (dates.format d)) (set none) (set (some d))
        (h d (lawful.unmarshal_json-format s d read))

  abbrev with_allow_spoofing : User dates → User dates
  with_allow_spoofing u = record (empty dates) { allow_spoofing = u.allow_spoofing }

  abbrev with_change_pw_next_login : User dates → User dates
  with_change_pw_next_login u = record (with_allow_spoofing u) {
    change_pw_next_login = u.change_pw_next_login;
  }

  abbrev with_comment : User dates → User dates
  with_comment u = record (with_change_pw_next_login u) { comment = u.comment }

  abbrev with_displayed_name : User dates → User dates
  with_displayed_name u = record (with_comment u) { displayed_name = u.displayed_name }

  abbrev with_email : User dates → User dates
  with_email u = record (with_displayed_name u) { email = u.email }

  abbrev with_enabled : User dates → User dates
  with_enabled u = record (with_email u) { enabled = u.enabled }

  abbrev with_enable_imap : User dates → User dates
  with_enable_imap u = record (with_enabled u) { enable_imap = u.enable_imap }

  abbrev with_enable_pop : User dates → User dates
  with_enable_pop u = record (with_enable_imap u) { enable_pop = u.enable_pop }

  abbrev with_forward_destination : User dates → User dates
  with_forward_destination u = record (with_enable_pop u) {
    forward_destination = u.forward_destination;
  }

  abbrev with_forward_enabled : User dates → User dates
  with_forward_enabled u = record (with_forward_destination u) {
    forward_enabled = u.forward_enabled;
  }

  abbrev with_forward_keep : User dates → User dates
  with_forward_keep u = record (with_forward_enabled u) { forward_keep = u.forward_keep }

  abbrev with_global_admin : User dates → User dates
  with_global_admin u = record (with_forward_keep u) { global_admin = u.global_admin }

  abbrev with_password : User dates → User dates
  with_password u = record (with_global_admin u) { password = u.password }

  abbrev with_quota_bytes : User dates → User dates
  with_quota_bytes u = record (with_password u) { quota_bytes = u.quota_bytes }

  abbrev with_quota_bytes_used : User dates → User dates
  with_quota_bytes_used u = record (with_quota_bytes u) { quota_bytes_used = u.quota_bytes_used }

  abbrev with_raw_password : User dates → User dates
  with_raw_password u = record (with_quota_bytes_used u) { raw_password = u.raw_password }

  abbrev with_reply_body : User dates → User dates
  with_reply_body u = record (with_raw_password u) { reply_body = u.reply_body }

  abbrev with_reply_enabled : User dates → User dates
  with_reply_enabled u = record (with_reply_body u) { reply_enabled = u.reply_enabled }

  abbrev with_reply_end_date : User dates → User dates
  with_reply_end_date u = record (with_reply_enabled u) { reply_end_date = u.reply_end_date }

  abbrev with_reply_start_date : User dates → User dates
  with_reply_start_date u = record (with_reply_end_date u) { reply_start_date = u.reply_start_date }

  abbrev with_reply_subject : User dates → User dates
  with_reply_subject u = record (with_reply_start_date u) { reply_subject = u.reply_subject }

  abbrev with_spam_enabled : User dates → User dates
  with_spam_enabled u = record (with_reply_subject u) { spam_enabled = u.spam_enabled }

  abbrev with_spam_mark_as_read : User dates → User dates
  with_spam_mark_as_read u = record (with_spam_enabled u) {
    spam_mark_as_read = u.spam_mark_as_read;
  }

  abbrev with_spam_threshold : User dates → User dates
  with_spam_threshold u = record (with_spam_mark_as_read u) { spam_threshold = u.spam_threshold }

  read_fields :
      IsLawful dates
      → (u : User dates) → IsWritable u
      → decode_members (set_member dates) (members (fields dates u)) (empty dates) ≡ some u
  unfolding set_member
  read_fields lawful u w =
      read_bool (set_member dates) "allow_spoofing" _
        (λ x. record (empty dates) { allow_spoofing = x }) u.allow_spoofing (λ b. refl)
      ∙ read_bool (set_member dates) "change_pw_next_login" _
          (λ x. record (with_allow_spoofing u) { change_pw_next_login = x }) u.change_pw_next_login
          (λ b. refl)
      ∙ read_string (set_member dates) "comment" _
          (λ x. record (with_change_pw_next_login u) { comment = x }) u.comment (λ s. refl)
      ∙ read_string (set_member dates) "displayed_name" _
          (λ x. record (with_comment u) { displayed_name = x }) u.displayed_name (λ s. refl)
      ∙ read_value (set_member dates) "email" _ (str u.email) (with_displayed_name u) (with_email u)
          refl
      ∙ read_bool (set_member dates) "enabled" _ (λ x. record (with_email u) { enabled = x })
          u.enabled (λ b. refl)
      ∙ read_bool (set_member dates) "enable_imap" _
          (λ x. record (with_enabled u) { enable_imap = x }) u.enable_imap (λ b. refl)
      ∙ read_bool (set_member dates) "enable_pop" _
          (λ x. record (with_enable_imap u) { enable_pop = x }) u.enable_pop (λ b. refl)
      ∙ read_strings (set_member dates) "forward_destination" _
          (λ x. record (with_enable_pop u) { forward_destination = x }) u.forward_destination
          w.forward_destination_not_nil (λ l. rw (decode_strings-items l))
      ∙ read_bool (set_member dates) "forward_enabled" _
          (λ x. record (with_forward_destination u) { forward_enabled = x }) u.forward_enabled
          (λ b. refl)
      ∙ read_bool (set_member dates) "forward_keep" _
          (λ x. record (with_forward_enabled u) { forward_keep = x }) u.forward_keep (λ b. refl)
      ∙ read_bool (set_member dates) "global_admin" _
          (λ x. record (with_forward_keep u) { global_admin = x }) u.global_admin (λ b. refl)
      ∙ read_string (set_member dates) "password" _
          (λ x. record (with_global_admin u) { password = x }) u.password (λ s. refl)
      ∙ read_int (set_member dates) "quota_bytes" _
          (λ x. record (with_password u) { quota_bytes = x }) u.quota_bytes w.quota_bytes_fits
          (λ z fits. rw (decode_int-num z fits))
      ∙ read_int (set_member dates) "quota_bytes_used" _
          (λ x. record (with_quota_bytes u) { quota_bytes_used = x }) u.quota_bytes_used
          w.quota_bytes_used_fits (λ z fits. rw (decode_int-num z fits))
      ∙ read_string (set_member dates) "raw_password" _
          (λ x. record (with_quota_bytes_used u) { raw_password = x }) u.raw_password (λ s. refl)
      ∙ read_string (set_member dates) "reply_body" _
          (λ x. record (with_raw_password u) { reply_body = x }) u.reply_body (λ s. refl)
      ∙ read_bool (set_member dates) "reply_enabled" _
          (λ x. record (with_reply_body u) { reply_enabled = x }) u.reply_enabled (λ b. refl)
      ∙ read_date "reply_enddate" _ (λ x. record (with_reply_enabled u) { reply_end_date = x })
          u.reply_end_date lawful w.reply_end_date_was_read (λ d read. rw read)
      ∙ read_date "reply_startdate" _ (λ x. record (with_reply_end_date u) { reply_start_date = x })
          u.reply_start_date lawful w.reply_start_date_was_read (λ d read. rw read)
      ∙ read_string (set_member dates) "reply_subject" _
          (λ x. record (with_reply_start_date u) { reply_subject = x }) u.reply_subject (λ s. refl)
      ∙ read_bool (set_member dates) "spam_enabled" _
          (λ x. record (with_reply_subject u) { spam_enabled = x }) u.spam_enabled (λ b. refl)
      ∙ read_bool (set_member dates) "spam_mark_as_read" _
          (λ x. record (with_spam_enabled u) { spam_mark_as_read = x }) u.spam_mark_as_read
          (λ b. refl)
      ∙ read_int (set_member dates) "spam_threshold" _
          (λ x. record (with_spam_mark_as_read u) { spam_threshold = x }) u.spam_threshold
          w.spam_threshold_fits (λ z fits. rw (decode_int-num z fits))
      ∙ read_end (set_member dates) (with_spam_threshold u)

  -- A user that is marshalled unmarshals to itself, if its integers are ones that an `int` holds, it has no
  -- pointer to a nil slice, its dates were read from texts, and dates are read back as they were written.
  pub unmarshal-marshal_user :
      IsLawful dates
      → (u : User dates) → IsWritable u
      → unmarshal dates (marshal dates u) ≡ some (some u)
  unfolding marshal unmarshal
  unmarshal-marshal_user lawful u w =
      decode_object_members (set_member dates) (members (fields dates u)) (empty dates) u
        (read_fields lawful u w)
