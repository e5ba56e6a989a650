-- ===== src/Http.antt =====
-- What pkg/mailu/client.go uses of net/http, net/url and github.com/oapi-codegen/runtime. Requests and
-- responses are data; the network, the Mailu server behind it and the parsing of URLs are parameters.
use mailu_operator.Common.{ℕ, String, List, [], ◌∷◌, ◌++◌, Option, none, some}
use mailu_operator.Common.Result.{Result, ok, err}
use mailu_operator.Json.{Json}

pub data Method : Type 0 where
  get post patch delete : Method

-- `*http.Request`. The body is the document whose text is sent.
pub record Request : Type 0 where
  pub method : Method
  pub url : String
  pub header : List (String × String)
  pub body : Option Json

-- What a body holds: a document, or a text that is none, with the error of `json.Unmarshal`.
pub data Payload : Type 0 where
  document : Json → Payload
  malformed : String → Payload

-- `*http.Response`. `body` is the result of `io.ReadAll`.
pub record Response : Type 0 where
  pub status_code : ℕ
  pub body : Result Payload

pub record Net : Type 1 where
  -- everything outside of the operator, the Mailu server and the cluster included
  pub World : Type 0
  -- an `HttpRequestDoer`
  pub Doer : Type 0
  -- `&http.Client{}`
  pub http_client : Doer
  pub do_request : Doer → Request → World → Result Response × World
  pub Url : Type 0
  -- `runtime.StyleParamWithLocation("simple", false, name, runtime.ParamLocationPath, value)`
  pub style_param : String → String → Result String
  -- `url.Parse(text)`, `base.Parse(reference)` and `u.String()`
  pub parse_url : String → Result Url
  pub resolve : Url → String → Result Url
  pub url_text : Url → String
  -- the error of `http.NewRequest(method, url, …)`, which parses the URL again
  pub request_error : Method → String → Option String
  -- the error of `json.Unmarshal` for a document that does not fit the struct
  pub mismatch : Json → String

-- The HTTP status codes that the controllers name.
abbrev pub status_ok : ℕ
status_ok = 200

abbrev pub status_created : ℕ
status_created = 201

abbrev pub status_no_content : ℕ
status_no_content = 204

abbrev pub status_bad_request : ℕ
status_bad_request = 400

abbrev pub status_not_found : ℕ
status_not_found = 404

abbrev pub status_conflict : ℕ
status_conflict = 409

abbrev pub status_internal_server_error : ℕ
status_internal_server_error = 500

abbrev pub status_bad_gateway : ℕ
status_bad_gateway = 502

abbrev pub status_service_unavailable : ℕ
status_service_unavailable = 503

abbrev pub status_gateway_timeout : ℕ
status_gateway_timeout = 504

-- `http.NewRequest(method, url, body)`
unfoldable pub new_request : (net : Net) → Method → String → Option Json → Result Request
new_request net m url body = elim (net.request_error m url) [
  | some e ↦ err e
  | none ↦ ok (record { method = m; url = url; header = []; body = body })
]

-- `req.Header.Add(key, value)`
abbrev pub add_header : String → String → Request → Request
add_header key value req = record req { header = req.header ++ (key, value) ∷ [] }

-- The values of a header, in order.
abbrev pub content_type : String
content_type = "application/json"
