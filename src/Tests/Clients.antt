-- ===== src/Tests/Clients.antt =====
-- The API client and the reading of its answers in the scripted world.
use mailu_operator.Common.{
  ◌≡◌, refl, none, some, [], ◌∷◌, true, false, is_some, ◌⊎◌, ◌↔◌, ◌++◌, ℕ, String,
}
use mailu_operator.Common.Int.{pos, negsuc}
use mailu_operator.Common.Result.{Result, ok, err}
use mailu_operator.Json.{null}
use mailu_operator.Http.{document, malformed, Request, get, post, patch, delete}
use mailu_operator.Api.Domain
use mailu_operator.Api.Domain.{Domain}
use mailu_operator.Client.{RequestEditorFn, new_client, has_slash_suffix, with_request_editor_fn}
use mailu_operator.Client.Calls.{perform}
use mailu_operator.Client.Requests
use mailu_operator.Client.Construction.{new_client_complete}
use mailu_operator.Client.Sending.{Edits, Fails, perform_ends}
use mailu_operator.Client.Endpoints.{domain_endpoints, json_header}
use mailu_operator.Controller.{authorize}
use mailu_operator.Controller.Reply.{create_reply, update_reply, delete_reply, find_reply}
use mailu_operator.Controller.Replies.{
  create_reply_table, update_reply_table, delete_reply_table, find_reply_table, answer, IsTransient,
  Decodes, Undecodable,
}
use mailu_operator.Tests.World.{net, api, server, world}

abbrev fine : ℕ
fine = 200

abbrev not_found : ℕ
not_found = 404

abbrev conflict : ℕ
conflict = 409

abbrev unavailable : ℕ
unavailable = 503

create_reply_table_example :
    ((create_reply (answer conflict (document null))).error ≡ none
      ↔ ((conflict ≡ 200) ⊎ ((conflict ≡ 201) ⊎ (conflict ≡ 409))))
    × ((create_reply (answer conflict (document null))).retry ≡ true
        ↔ ((conflict ≡ 409) ⊎ IsTransient conflict))
create_reply_table_example = create_reply_table conflict (document null)

update_reply_table_example :
    ((update_reply (answer unavailable (document null))).error ≡ none
      ↔ ((unavailable ≡ 200) ⊎ (unavailable ≡ 204)))
    × ((update_reply (answer unavailable (document null))).retry ≡ true ↔ IsTransient unavailable)
    × (((update_reply (answer 500 (malformed "EOF"))).retry ≡ false)
        ⊎ (is_some (update_reply (answer 500 (malformed "EOF"))).error ≡ true))
update_reply_table_example =
    update_reply_table unavailable (document null) (answer 500 (malformed "EOF"))

delete_reply_table_example :
    ((delete_reply (answer not_found (document null))).error ≡ none
      ↔ ((not_found ≡ 200) ⊎ (not_found ≡ 404)))
    × ((delete_reply (answer not_found (document null))).retry ≡ true ↔ IsTransient not_found)
    × (((delete_reply (answer 502 (malformed "EOF"))).retry ≡ false)
        ⊎ (is_some (delete_reply (answer 502 (malformed "EOF"))).error ≡ true))
delete_reply_table_example =
    delete_reply_table not_found (document null) (answer 502 (malformed "EOF"))

abbrev known : Domain
known = record {
  alternatives = none;
  comment = some "";
  max_aliases = some (negsuc 0);
  max_quota_bytes = none;
  max_users = some (pos 5);
  name = "example.com";
  signup_enabled = some false;
}

find_reply_table_example :
    let body = document (Domain.marshal known) in
    let l = find_reply net Domain.unmarshal (answer fine body) in
    (((l.found ≡ none) × (l.error ≡ none))
      ↔ ((fine ≡ 404) ⊎ ((fine ≡ 200) × Decodes net Domain.unmarshal body none)))
    × ((l.found ≡ some known) ↔ ((fine ≡ 200) × Decodes net Domain.unmarshal body (some known)))
    × ((l.retry ≡ true)
        ↔ (IsTransient fine ⊎ ((fine ≡ 200) × Undecodable net Domain.unmarshal body)))
    × (find_reply net Domain.unmarshal (err "connection refused")
        ≡ record { found = none; retry = false; error = some "connection refused" })
    × (find_reply net Domain.unmarshal
          (ok (record { status_code = fine; body = err "connection refused" }))
        ≡ record { found = none; retry = true; error = some "connection refused" })
find_reply_table_example =
    find_reply_table net Domain.unmarshal fine (document (Domain.marshal known)) known
      "connection refused"

abbrev editor : RequestEditorFn
editor = authorize "token"

new_client_complete_example : (has_slash_suffix server ≡ true) × (is_some api.client ≡ true)
unfolding new_client with_request_editor_fn
new_client_complete_example =
    new_client_complete net "http://mailu/api/v1" (with_request_editor_fn net editor ∷ []) api refl

abbrev request : Request
request = record { method = get; url = "http://mailu/api/v1/domain"; header = []; body = none }

perform_ends_example :
    let es = api.request_editors ++ [] in
    let end = perform net api (ok request) [] (world []) in
    ((x : String) × (Result.ok request ≡ err x) × (end ≡ (err x, world [])))
    ⊎ ((req : Request) × (Result.ok request ≡ ok req)
        × (((x : String) × Fails es req x × (end ≡ (err x, world [])))
            ⊎ ((edited : Request) × Edits es req edited
                × (end ≡ net.do_request tt edited (world [])))))
perform_ends_example = perform_ends net api (ok request) [] (world []) tt refl

domain_endpoints_example :
    (Requests.new_find_domain_request net server "example.com"
      ≡ ok (record {
        method = get;
        url = "http://mailu/api/v1/domain/example.com";
        header = [];
        body = none;
      }))
    × (Requests.new_update_domain_request net server "example.com" known
        ≡ ok (record {
          method = patch;
          url = "http://mailu/api/v1/domain/example.com";
          header = json_header;
          body = some (Domain.marshal known);
        }))
    × (Requests.new_delete_domain_request net server "example.com"
        ≡ ok (record {
          method = delete;
          url = "http://mailu/api/v1/domain/example.com";
          header = [];
          body = none;
        }))
    × (Requests.new_create_domain_request net server known
        ≡ ok (record {
          method = post;
          url = "http://mailu/api/v1/domain";
          header = json_header;
          body = some (Domain.marshal known);
        }))
domain_endpoints_example =
    domain_endpoints net server "example.com" known "example.com" server
      "http://mailu/api/v1/domain/example.com" "http://mailu/api/v1/domain" refl refl refl refl refl
      refl refl refl
