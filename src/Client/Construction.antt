-- ===== src/Client/Construction.antt =====
-- What `NewClient` of pkg/mailu/client.go makes.
use text.Mathlib.TextLemmas.{cons-append}
use mailu_operator.Common.{
  String, ◌<>◌, ◌≡◌, refl, ap, sym, ◌∙◌, true, not, List, [], ◌∷◌, none, some, is_some, arith,
  Bool-cases, inl, inr, if◌then◌else◌,
}
use mailu_operator.Common.Result.{ok, Result-cases}
use mailu_operator.Http.{Net}
use mailu_operator.Client.{
  Client, ClientOption, RequestEditorFn, has_slash_suffix, apply_options, ensure_slash, ensure_doer,
  new_client, with_request_editor_fn,
}

has_slash_suffix-append : (s : String) → has_slash_suffix (s <> "/") ≡ true
unfolding has_slash_suffix
has_slash_suffix-append String.[] = refl
has_slash_suffix-append (String.◌∷◌ c String.[]) = rw cons-append
has_slash_suffix-append (String.◌∷◌ c (String.◌∷◌ d s)) =
    ap has_slash_suffix (cons-append c (String.◌∷◌ d s) "/")
    ∙ ap (λ t. has_slash_suffix (String.◌∷◌ c t)) (cons-append d s "/")
    ∙ sym (ap has_slash_suffix (cons-append d s "/"))
    ∙ has_slash_suffix-append (String.◌∷◌ d s)

module _ (net : Net) where
  ensure_slash_lem : (c : Client net) → has_slash_suffix (ensure_slash net c).server ≡ true
  unfolding ensure_slash
  ensure_slash_lem c = elim (Bool-cases (has_slash_suffix c.server)) [
    | inl there ↦ rw there there
    | inr missing ↦ rw missing (has_slash_suffix-append c.server)
  ]

  completed :
      (made c : Client net)
      → c ≡ ensure_doer net (ensure_slash net made)
      → (has_slash_suffix c.server ≡ true) × (is_some c.client ≡ true)
  unfolding ensure_doer
  completed made c h = (ground (arith, ensure_slash_lem made), ground arith)

  -- A client that `NewClient` returns has a server that ends with a slash, and a doer, whatever the server
  -- and the options are.
  pub new_client_complete :
      (server : String) (opts : List (ClientOption net)) (c : Client net)
      → new_client net server opts ≡ ok c
      → (has_slash_suffix c.server ≡ true) × (is_some c.client ≡ true)
  unfolding new_client
  new_client_complete server opts c h =
      elim (Result-cases (
        apply_options net opts (record { server = server; client = none; request_editors = [] }))) [
          | inl (e, failed) ↦ absurd (ground arith)
          | inr (made, fine) ↦ completed made c (ground arith)
        ]

  -- With one request editor and no other option, `NewClient` makes a client of that editor and of the
  -- default HTTP client, and a second client made from the server of the first has the same server.
  pub new_client_again :
      (server : String) (fn : RequestEditorFn)
      → (c : Client net) × (new_client net server (with_request_editor_fn net fn ∷ []) ≡ ok c)
        × (c.request_editors ≡ fn ∷ [])
        × (c.client ≡ some net.http_client)
        × (new_client net c.server (with_request_editor_fn net fn ∷ []) ≡ ok c)
  unfolding new_client with_request_editor_fn
  new_client_again server fn =
      let c : Client net = record {
        server = if not (has_slash_suffix server) then server <> "/" else server;
        client = some net.http_client;
        request_editors = fn ∷ [];
      } in
      (c, ground arith, refl, refl, ground (arith, has_slash_suffix-append server))
