-- ===== src/Api/Dates.antt =====
-- The dates of github.com/oapi-codegen/runtime/types, which `mailu.User` uses for its reply dates.
use mailu_operator.Common.{String, ◌≡◌, Option, some}
use mailu_operator.Common.Result.{Result, ok}
use mailu_operator.Json.{Json, str}

pub record Dates : Type 1 where
  pub Date : Type 0
  -- `UnmarshalText`, of a text `YYYY-MM-DD`
  pub unmarshal_text : String → Result Date
  -- the text that `MarshalJSON` quotes
  pub format : Date → String
  pub unmarshal_json : Json → Option Date

-- A date that was read from a text is written as a text that reads as the same date.
pub record IsLawful (dates : Dates) : Type 0 where
  pub unmarshal_json-format :
      (s : String) (d : dates.Date)
      → dates.unmarshal_text s ≡ ok d
      → dates.unmarshal_json (str (dates.format d)) ≡ some d
