-- ===== src/Resource/Specs.antt =====
-- The desired states: `DomainSpec`, `UserSpec` and `AliasSpec` of api/v1alpha1. `L` is the type of
-- their slices: as values, a slice is nil or a list.
use mailu_operator.Common.{String, Bool, List, Option}
use mailu_operator.Common.Int.{ℤ}

pub record DomainSpecOf (L : Type 0) : Type 0 where
  pub name : String
  pub comment : String
  pub max_users : ℤ
  pub max_aliases : ℤ
  pub max_quota_bytes : ℤ
  pub signup_enabled : Bool
  pub alternatives : L

pub record UserSpecOf (L : Type 0) : Type 0 where
  pub name : String
  pub domain : String
  pub allow_spoofing : Bool
  pub change_password : Bool
  pub comment : String
  pub displayed_name : String
  pub enabled : Bool
  pub enable_imap : Bool
  pub enable_pop : Bool
  pub forward_enabled : Bool
  pub forward_destination : L
  pub forward_keep : Bool
  pub global_admin : Bool
  pub password_secret : String
  pub password_key : String
  pub quota_bytes : ℤ
  pub raw_password : String
  pub reply_enabled : Bool
  pub reply_subject : String
  pub reply_body : String
  pub reply_start_date : String
  pub reply_end_date : String
  pub spam_enabled : Bool
  pub spam_mark_as_read : Bool
  pub spam_threshold : ℤ

pub record AliasSpecOf (L : Type 0) : Type 0 where
  pub name : String
  pub domain : String
  pub comment : String
  pub destination : L
  pub wildcard : Bool

abbrev pub DomainSpec : Type 0
DomainSpec = DomainSpecOf (Option (List String))

abbrev pub AliasSpec : Type 0
AliasSpec = AliasSpecOf (Option (List String))

abbrev pub UserSpec : Type 0
UserSpec = UserSpecOf (Option (List String))
