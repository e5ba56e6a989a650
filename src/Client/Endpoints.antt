-- ===== src/Client/Endpoints.antt =====
-- The addresses of the API calls of pkg/mailu/client.go.
use text.Mathlib.TextLemmas.{cons-append}
use mailu_operator.Common.{String, ◌<>◌, ◌≡◌, List, [], ◌∷◌, none, some, arith}
use mailu_operator.Common.Result.{ok}
use mailu_operator.Http.{Net, get, post, patch, delete}
use mailu_operator.Api.Dates.{Dates}
use mailu_operator.Api.Domain
use mailu_operator.Api.Alias
use mailu_operator.Api.User
use mailu_operator.Api.Domain.{Domain}
use mailu_operator.Api.Alias.{Alias}
use mailu_operator.Api.User.{User}
use mailu_operator.Client.Requests

pub operation_path_domain :
    (p : String) → Requests.operation_path ("/domain/" <> p) ≡ "." <> ("/domain/" <> p)
unfolding Requests.operation_path
operation_path_domain p = rw (cons-append _ _ p)

operation_path_user :
    (p : String) → Requests.operation_path ("/user/" <> p) ≡ "." <> ("/user/" <> p)
unfolding Requests.operation_path
operation_path_user p = rw (cons-append _ _ p)

pub operation_path_alias :
    (p : String) → Requests.operation_path ("/alias/" <> p) ≡ "." <> ("/alias/" <> p)
unfolding Requests.operation_path
operation_path_alias p = rw (cons-append _ _ p)

abbrev pub json_header : List (String × String)
json_header = ("Content-Type", "application/json") ∷ []

module _ (net : Net) where
  -- If the name of a domain and the server's URL parse, and `./domain/name` and `./domain` resolve against
  -- it and give valid requests, then the requests that find, update and delete the domain go to the first
  -- address, with the methods GET, PATCH and DELETE, and the one that creates it goes by POST to the
  -- second; those that update and create carry the document of the domain and its content type, and the
  -- others no body.
  pub domain_endpoints :
      (server domain : String) (body : Domain) (param : String) (base item list : net.Url)
      → net.style_param "domain" domain ≡ ok param
      → net.parse_url server ≡ ok base
      → net.resolve base ("." <> ("/domain/" <> param)) ≡ ok item
      → net.resolve base "./domain" ≡ ok list
      → net.request_error get (net.url_text item) ≡ none
      → net.request_error patch (net.url_text item) ≡ none
      → net.request_error delete (net.url_text item) ≡ none
      → net.request_error post (net.url_text list) ≡ none
      → let at = net.url_text item in
        (Requests.new_find_domain_request net server domain
          ≡ ok (record { method = get; url = at; header = []; body = none }))
        × (Requests.new_update_domain_request net server domain body
            ≡ ok (record {
              method = patch;
              url = at;
              header = json_header;
              body = some (Domain.marshal body);
            }))
        × (Requests.new_delete_domain_request net server domain
            ≡ ok (record { method = delete; url = at; header = []; body = none }))
        × (Requests.new_create_domain_request net server body
            ≡ ok (record {
              method = post;
              url = net.url_text list;
              header = json_header;
              body = some (Domain.marshal body);
            }))
  unfolding Requests.new_find_domain_request Requests.new_update_domain_request
      Requests.new_delete_domain_request Requests.new_create_domain_request
  domain_endpoints server domain body param base item list styled parsed at_item at_list g u d c = (
    ground (arith, operation_path_domain param),
    ground (arith, operation_path_domain param),
    ground (arith, operation_path_domain param),
    ground arith,
  )

  -- If the name of a user and the server's URL parse, and `./user/name` and `./user` resolve against it and
  -- give valid requests, then the requests that find, update and delete the user go to the first address,
  -- with the methods GET, PATCH and DELETE, and the one that creates it goes by POST to the second; those
  -- that update and create carry the document of the user and its content type, and the others no body.
  pub user_endpoints :
      (dates : Dates) (server email : String) (body : User dates) (param : String)
      (base item list : net.Url)
      → net.style_param "email" email ≡ ok param
      → net.parse_url server ≡ ok base
      → net.resolve base ("." <> ("/user/" <> param)) ≡ ok item
      → net.resolve base "./user" ≡ ok list
      → net.request_error get (net.url_text item) ≡ none
      → net.request_error patch (net.url_text item) ≡ none
      → net.request_error delete (net.url_text item) ≡ none
      → net.request_error post (net.url_text list) ≡ none
      → let at = net.url_text item in
        (Requests.new_find_user_request net server email
          ≡ ok (record { method = get; url = at; header = []; body = none }))
        × (Requests.new_update_user_request net dates server email body
            ≡ ok (record {
              method = patch;
              url = at;
              header = json_header;
              body = some (User.marshal dates body);
            }))
        × (Requests.new_delete_user_request net server email
            ≡ ok (record { method = delete; url = at; header = []; body = none }))
        × (Requests.new_create_user_request net dates server body
            ≡ ok (record {
              method = post;
              url = net.url_text list;
              header = json_header;
              body = some (User.marshal dates body);
            }))
  unfolding Requests.new_find_user_request Requests.new_update_user_request
      Requests.new_delete_user_request Requests.new_create_user_request
  user_endpoints dates server email body param base item list styled parsed at_item at_list g u d
        c =
      (
        ground (arith, operation_path_user param),
        ground (arith, operation_path_user param),
        ground (arith, operation_path_user param),
        ground arith,
      )

  -- If the name of an alias and the server's URL parse, and `./alias/name` and `./alias` resolve against it
  -- and give valid requests, then the requests that find, update and delete the alias go to the first
  -- address, with the methods GET, PATCH and DELETE, and the one that creates it goes by POST to the
  -- second; those that update and create carry the document of the alias and its content type, and the
  -- others no body.
  pub alias_endpoints :
      (server alias : String) (body : Alias) (param : String) (base item list : net.Url)
      → net.style_param "alias" alias ≡ ok param
      → net.parse_url server ≡ ok base
      → net.resolve base ("." <> ("/alias/" <> param)) ≡ ok item
      → net.resolve base "./alias" ≡ ok list
      → net.request_error get (net.url_text item) ≡ none
      → net.request_error patch (net.url_text item) ≡ none
      → net.request_error delete (net.url_text item) ≡ none
      → net.request_error post (net.url_text list) ≡ none
      → let at = net.url_text item in
        (Requests.new_find_alias_request net server alias
          ≡ ok (record { method = get; url = at; header = []; body = none }))
        × (Requests.new_update_alias_request net server alias body
            ≡ ok (record {
              method = patch;
              url = at;
              header = json_header;
              body = some (Alias.marshal body);
            }))
        × (Requests.new_delete_alias_request net server alias
            ≡ ok (record { method = delete; url = at; header = []; body = none }))
        × (Requests.new_create_alias_request net server body
            ≡ ok (record {
              method = post;
              url = net.url_text list;
              header = json_header;
              body = some (Alias.marshal body);
            }))
  unfolding Requests.new_find_alias_request Requests.new_update_alias_request
      Requests.new_delete_alias_request Requests.new_create_alias_request
  alias_endpoints server alias body param base item list styled parsed at_item at_list g u d c = (
    ground (arith, operation_path_alias param),
    ground (arith, operation_path_alias param),
    ground (arith, operation_path_alias param),
    ground arith,
  )
