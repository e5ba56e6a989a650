-- ===== src/Client.antt =====
-- The API client of pkg/mailu/client.go: its construction here, the requests and the calls below.
pub mod Requests
pub mod Calls
pub mod Construction
pub mod Sending
pub mod Endpoints
use Prim.Native.Char.{code}
use mailu_operator.Common.{
  ℕ, String, ◌≡◌, refl, Bool, true, false, not, List, [], ◌∷◌, ◌++◌, ◌<>◌, Option, none, some, ◌==◌,
  if◌then◌else◌,
}
use mailu_operator.Common.Result.{Result, ok, err, ◌>>=◌}
use mailu_operator.Http.{Request, Net, Response, add_header}

-- `RequestEditorFn`: the request as the callback leaves it, or its error.
abbrev pub RequestEditorFn : Type 0
RequestEditorFn = Request → Result Request

-- `strings.HasSuffix(s, "/")`
unfoldable pub has_slash_suffix : String → Bool
has_slash_suffix String.[] = false
has_slash_suffix (String.◌∷◌ c String.[]) = code c == 47
has_slash_suffix (String.◌∷◌ c s) = has_slash_suffix s

-- `for _, r := range editors { if err := r(ctx, req); err != nil { return err } }`
unfoldable pub run_editors : List RequestEditorFn → Request → Result Request
run_editors [] req = ok req
run_editors (r ∷ rest) req = r req >>= run_editors rest

module _ (net : Net) where
  pub record Client : Type 0 where
    pub server : String
    pub client : Option net.Doer
    pub request_editors : List RequestEditorFn

  abbrev pub ClientOption : Type 0
  ClientOption = Client → Result Client

  unfoldable pub with_http_client : net.Doer → ClientOption
  with_http_client doer c = ok (record c { client = some doer })

  unfoldable pub with_request_editor_fn : RequestEditorFn → ClientOption
  with_request_editor_fn fn c = ok (record c { request_editors = c.request_editors ++ fn ∷ [] })

  -- The loop over the options.
  apply_options : List ClientOption → Client → Result Client
  apply_options [] c = ok c
  apply_options (o ∷ opts) c = o c >>= apply_options opts

  -- The trailing slash.
  ensure_slash : Client → Client
  unfolding has_slash_suffix
  ensure_slash c =
      if not (has_slash_suffix c.server) then record c { server = c.server <> "/" } else c

  ensure_doer : Client → Client
  ensure_doer c = elim c.client [
    | none ↦ record c { client = some net.http_client }
    | some doer ↦ c
  ]

  unfoldable pub new_client : String → List ClientOption → Result Client
  unfolding apply_options ensure_slash ensure_doer
  new_client server opts =
      apply_options opts (record { server = server; client = none; request_editors = [] }) >>= λ c.
      ok (ensure_doer (ensure_slash c))

  -- `applyEditors`: first the editors of the client, then those of the call.
  unfoldable pub apply_editors : Client → Request → List RequestEditorFn → Result Request
  unfolding run_editors
  apply_editors c req additional = run_editors c.request_editors req >>= run_editors additional

  -- `c.Client.Do(req)`. A client with no doer is a nil pointer, and Go panics.
  unfoldable pub send : Client → Request → net.World → Result Response × net.World
  send c req w = elim c.client [
    | none ↦ (err "invalid memory address or nil pointer dereference", w)
    | some doer ↦ net.do_request doer req w
  ]
