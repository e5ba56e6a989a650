-- ===== src/Controller/Reply.antt =====
-- How the reconcilers read the answer of the Mailu API. The `switch` statements of the three files
-- internal/controller/*_controller.go are the same, method by method, and stand here once: each function is
-- what follows the call in `getX`, `createX`, `updateX` and `deleteX`.
use mailu_operator.Common.{
  ℕ, zero, suc, String, ◌<>◌, Bool, true, false, Option, none, some, ◌==◌, leb, if◌then◌else◌,
}
use Prim.Native.Nat.{◌/◌, ◌%◌}
use mailu_operator.Common.Result.{Result, ok, err}
use mailu_operator.Json.{Json}
use mailu_operator.Http.{
  Response, Payload, document, malformed, Net, status_ok, status_created, status_no_content,
  status_bad_request, status_not_found, status_conflict, status_internal_server_error,
  status_bad_gateway, status_service_unavailable, status_gateway_timeout,
}
use mailu_operator.Controller.{Attempt, Lookup}

digit : ℕ → String
digit n =
    if n == 0
    then "0"
    else if n == 1
    then "1"
    else if n == 2
    then "2"
    else if n == 3
    then "3"
    else if n == 4
    then "4"
    else if n == 5
    then "5"
    else if n == 6
    then "6"
    else if n == 7
    then "7"
    else if n == 8
    then "8"
    else "9"

digits_of : ℕ → ℕ → String
digits_of zero n = digit n
digits_of (suc fuel) n =
    let front = digits_of fuel (n / 10) in if leb n 9 then digit n else front <> digit (n % 10)

-- `strconv.Itoa`, for the status codes, which are not negative.
unfoldable pub itoa : ℕ → String
unfolding digits_of digit
itoa n = digits_of n n

abbrev pub unknown_status : ℕ → String
unknown_status c = "unknown status: " <> itoa c

abbrev stop : Option String → Attempt
stop e = record { retry = false; error = e }

abbrev again : Option String → Attempt
again e = record { retry = true; error = e }

-- The cases that end every `switch` but that of `getX`.
server_errors : ℕ → Attempt
server_errors c =
    if c == status_internal_server_error
    then stop (some "internal server error")
    else if c == status_bad_gateway
    then again (some "gateway timeout")
    else if c == status_gateway_timeout
    then again (some "gateway timeout")
    else if c == status_service_unavailable
    then again (some "service unavailable")
    else stop (some (unknown_status c))

-- The error of the call, then that of `io.ReadAll`, then the `switch`.
abbrev answered : (ℕ → Attempt) → Result Response → Attempt
answered switch (err e) = stop (some e)
answered switch (ok r) = elim r.body [ err e ↦ stop (some e) | ok _ ↦ switch r.status_code ]

create_switch : ℕ → Attempt
create_switch c =
    if c == status_created
    then stop none
    else if c == status_ok
    then stop none
    else if c == status_conflict
    then again none
    else server_errors c

unfoldable pub create_reply : Result Response → Attempt
unfolding create_switch server_errors
create_reply = answered create_switch

update_switch : ℕ → Attempt
update_switch c =
    if c == status_no_content
    then stop none
    else if c == status_ok
    then stop none
    else server_errors c

unfoldable pub update_reply : Result Response → Attempt
unfolding update_switch server_errors
update_reply = answered update_switch

delete_switch : ℕ → Attempt
delete_switch c =
    if c == status_not_found
    then stop none
    else if c == status_ok
    then stop none
    else server_errors c

unfoldable pub delete_reply : Result Response → Attempt
unfolding delete_switch server_errors
delete_reply = answered delete_switch

module _ (net : Net) {A : Type 0} (unmarshal : Json → Option (Option A)) where
  abbrev missing : Bool → Option String → Lookup A
  missing again e = record { found = none; retry = again; error = e }

  -- `found := &T{}; err = json.Unmarshal(body, &found)`
  decode_found : Payload → Lookup A
  decode_found (malformed e) = missing true (some e)
  decode_found (document j) = elim (unmarshal j) [
    | none ↦ missing true (some (net.mismatch j))
    | some found ↦ record { found = found; retry = false; error = none }
  ]

  find_switch : ℕ → Payload → Lookup A
  unfolding decode_found
  find_switch c body =
      if c == status_ok
      then decode_found body
      else if c == status_not_found
      then missing false none
      else if c == status_bad_request
      then missing false (some "bad request")
      else if c == status_bad_gateway
      then missing true (some "gateway timeout")
      else if c == status_gateway_timeout
      then missing true (some "gateway timeout")
      else if c == status_service_unavailable
      then missing true (some "service unavailable")
      else missing false (some (unknown_status c))

  unfoldable pub find_reply : Result Response → Lookup A
  unfolding find_switch
  find_reply (err e) = missing false (some e)
  find_reply (ok r) = elim r.body [
    | err e ↦ missing true (some e)
    | ok body ↦ find_switch r.status_code body
  ]
