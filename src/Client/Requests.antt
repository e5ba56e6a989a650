-- ===== src/Client/Requests.antt =====
-- The request builders of pkg/mailu/client.go. Each formats the path, resolves it against the server's URL
-- and makes the request; a body is marshalled first, and goes with its content type.
use Prim.Native.Char.{code}
use mailu_operator.Common.{String, ◌<>◌, Bool, false, none, some, ◌==◌, if◌then◌else◌}
use mailu_operator.Common.Result.{Result, ok, ◌>>=◌}
use mailu_operator.Json.{Json}
use mailu_operator.Http.{
  Request, Net, new_request, add_header, content_type, get, post, patch, delete,
}
use mailu_operator.Api.Dates.{Dates}
use mailu_operator.Api.Domain
use mailu_operator.Api.Alias
use mailu_operator.Api.User
use mailu_operator.Api.Domain.{Domain}
use mailu_operator.Api.Alias.{Alias}
use mailu_operator.Api.User.{User}

-- `operationPath[0] == '/'`
begins_with_slash : String → Bool
begins_with_slash String.[] = false
begins_with_slash (String.◌∷◌ c s) = code c == 47

-- `if operationPath[0] == '/' { operationPath = "." + operationPath }`
unfoldable pub operation_path : String → String
unfolding begins_with_slash
operation_path p = if begins_with_slash p then "." <> p else p

module _ (net : Net) where
  unfoldable pub new_find_domain_request : String → String → Result Request
  unfolding operation_path new_request
  new_find_domain_request server domain = do
    param ← net.style_param "domain" domain
    base ← net.parse_url server
    query ← net.resolve base (operation_path ("/domain/" <> param))
    new_request net get (net.url_text query) none

  unfoldable pub new_create_domain_request_with_body : String → String → Json → Result Request
  unfolding operation_path new_request
  new_create_domain_request_with_body server kind body = do
    base ← net.parse_url server
    query ← net.resolve base (operation_path "/domain")
    req ← new_request net post (net.url_text query) (some body)
    ok (add_header "Content-Type" kind req)

  unfoldable pub new_create_domain_request : String → Domain → Result Request
  unfolding new_create_domain_request_with_body
  new_create_domain_request server body =
      new_create_domain_request_with_body server content_type (Domain.marshal body)

  unfoldable pub new_update_domain_request_with_body :
      String → String → String → Json → Result Request
  unfolding operation_path new_request
  new_update_domain_request_with_body server domain kind body = do
    param ← net.style_param "domain" domain
    base ← net.parse_url server
    query ← net.resolve base (operation_path ("/domain/" <> param))
    req ← new_request net patch (net.url_text query) (some body)
    ok (add_header "Content-Type" kind req)

  unfoldable pub new_update_domain_request : String → String → Domain → Result Request
  unfolding new_update_domain_request_with_body
  new_update_domain_request server domain body =
      new_update_domain_request_with_body server domain content_type (Domain.marshal body)

  unfoldable pub new_delete_domain_request : String → String → Result Request
  unfolding operation_path new_request
  new_delete_domain_request server domain = do
    param ← net.style_param "domain" domain
    base ← net.parse_url server
    query ← net.resolve base (operation_path ("/domain/" <> param))
    new_request net delete (net.url_text query) none

  unfoldable pub new_find_user_request : String → String → Result Request
  unfolding operation_path new_request
  new_find_user_request server email = do
    param ← net.style_param "email" email
    base ← net.parse_url server
    query ← net.resolve base (operation_path ("/user/" <> param))
    new_request net get (net.url_text query) none

  unfoldable pub new_create_user_request_with_body : String → String → Json → Result Request
  unfolding operation_path new_request
  new_create_user_request_with_body server kind body = do
    base ← net.parse_url server
    query ← net.resolve base (operation_path "/user")
    req ← new_request net post (net.url_text query) (some body)
    ok (add_header "Content-Type" kind req)

  unfoldable pub new_create_user_request : (dates : Dates) → String → User dates → Result Request
  unfolding new_create_user_request_with_body
  new_create_user_request dates server body =
      new_create_user_request_with_body server content_type (User.marshal dates body)

  unfoldable pub new_update_user_request_with_body :
      String → String → String → Json → Result Request
  unfolding operation_path new_request
  new_update_user_request_with_body server email kind body = do
    param ← net.style_param "email" email
    base ← net.parse_url server
    query ← net.resolve base (operation_path ("/user/" <> param))
    req ← new_request net patch (net.url_text query) (some body)
    ok (add_header "Content-Type" kind req)

  unfoldable pub new_update_user_request :
      (dates : Dates) → String → String → User dates → Result Request
  unfolding new_update_user_request_with_body
  new_update_user_request dates server email body =
      new_update_user_request_with_body server email content_type (User.marshal dates body)

  unfoldable pub new_delete_user_request : String → String → Result Request
  unfolding operation_path new_request
  new_delete_user_request server email = do
    param ← net.style_param "email" email
    base ← net.parse_url server
    query ← net.resolve base (operation_path ("/user/" <> param))
    new_request net delete (net.url_text query) none

  unfoldable pub new_find_alias_request : String → String → Result Request
  unfolding operation_path new_request
  new_find_alias_request server alias = do
    param ← net.style_param "alias" alias
    base ← net.parse_url server
    query ← net.resolve base (operation_path ("/alias/" <> param))
    new_request net get (net.url_text query) none

  unfoldable pub new_create_alias_request_with_body : String → String → Json → Result Request
  unfolding operation_path new_request
  new_create_alias_request_with_body server kind body = do
    base ← net.parse_url server
    query ← net.resolve base (operation_path "/alias")
    req ← new_request net post (net.url_text query) (some body)
    ok (add_header "Content-Type" kind req)

  unfoldable pub new_create_alias_request : String → Alias → Result Request
  unfolding new_create_alias_request_with_body
  new_create_alias_request server body =
      new_create_alias_request_with_body server content_type (Alias.marshal body)

  unfoldable pub new_update_alias_request_with_body :
      String → String → String → Json → Result Request
  unfolding operation_path new_request
  new_update_alias_request_with_body server alias kind body = do
    param ← net.style_param "alias" alias
    base ← net.parse_url server
    query ← net.resolve base (operation_path ("/alias/" <> param))
    req ← new_request net patch (net.url_text query) (some body)
    ok (add_header "Content-Type" kind req)

  unfoldable pub new_update_alias_request : String → String → Alias → Result Request
  unfolding new_update_alias_request_with_body
  new_update_alias_request server alias body =
      new_update_alias_request_with_body server alias content_type (Alias.marshal body)

  unfoldable pub new_delete_alias_request : String → String → Result Request
  unfolding operation_path new_request
  new_delete_alias_request server alias = do
    param ← net.style_param "alias" alias
    base ← net.parse_url server
    query ← net.resolve base (operation_path ("/alias/" <> param))
    new_request net delete (net.url_text query) none

  unfoldable pub new_delete_alternative_request : String → String → Result Request
  unfolding operation_path new_request
  new_delete_alternative_request server alt = do
    param ← net.style_param "alt" alt
    base ← net.parse_url server
    query ← net.resolve base (operation_path ("/alternative/" <> param))
    new_request net delete (net.url_text query) none
