-- ===== src/Client/Calls.antt =====
-- The calls of pkg/mailu/client.go: build the request, run the editors on it, and send it.
use mailu_operator.Common.{String, List}
use mailu_operator.Common.Result.{Result, ok, err, ◌>>=◌}
use mailu_operator.Http.{Request, Response, Net}
use mailu_operator.Client.{Client, RequestEditorFn, apply_editors, send}
use mailu_operator.Client.Requests.{
  new_find_domain_request, new_create_domain_request, new_update_domain_request,
  new_delete_domain_request, new_find_user_request, new_create_user_request,
  new_update_user_request, new_delete_user_request, new_find_alias_request,
  new_create_alias_request, new_update_alias_request, new_delete_alias_request,
  new_delete_alternative_request,
}
use mailu_operator.Api.Dates.{Dates}
use mailu_operator.Api.Domain.{Domain}
use mailu_operator.Api.Alias.{Alias}
use mailu_operator.Api.User.{User}

module _ (net : Net) where
  -- An HTTP call: it fails before anything is sent, or the world answers.
  abbrev pub Call : Type 0
  Call = net.World → Result Response × net.World

  -- What follows the builder in each call.
  unfoldable pub perform : Client net → Result Request → List RequestEditorFn → Call
  unfolding apply_editors send
  perform c built editors w = elim (built >>= λ req. apply_editors net c req editors) [
    | err e ↦ (err e, w)
    | ok req ↦ send net c req w
  ]

  unfoldable pub find_domain : Client net → String → List RequestEditorFn → Call
  unfolding perform new_find_domain_request
  find_domain c domain editors = perform c (new_find_domain_request net c.server domain) editors

  unfoldable pub create_domain : Client net → Domain → List RequestEditorFn → Call
  unfolding perform new_create_domain_request
  create_domain c body editors = perform c (new_create_domain_request net c.server body) editors

  unfoldable pub update_domain : Client net → String → Domain → List RequestEditorFn → Call
  unfolding perform new_update_domain_request
  update_domain c domain body editors =
      perform c (new_update_domain_request net c.server domain body) editors

  unfoldable pub delete_domain : Client net → String → List RequestEditorFn → Call
  unfolding perform new_delete_domain_request
  delete_domain c domain editors = perform c (new_delete_domain_request net c.server domain) editors

  unfoldable pub find_user : Client net → String → List RequestEditorFn → Call
  unfolding perform new_find_user_request
  find_user c email editors = perform c (new_find_user_request net c.server email) editors

  unfoldable pub create_user :
      (dates : Dates) → Client net → User dates → List RequestEditorFn → Call
  unfolding perform new_create_user_request
  create_user dates c body editors =
      perform c (new_create_user_request net dates c.server body) editors

  unfoldable pub update_user :
      (dates : Dates) → Client net → String → User dates → List RequestEditorFn → Call
  unfolding perform new_update_user_request
  update_user dates c email body editors =
      perform c (new_update_user_request net dates c.server email body) editors

  unfoldable pub delete_user : Client net → String → List RequestEditorFn → Call
  unfolding perform new_delete_user_request
  delete_user c email editors = perform c (new_delete_user_request net c.server email) editors

  unfoldable pub find_alias : Client net → String → List RequestEditorFn → Call
  unfolding perform new_find_alias_request
  find_alias c alias editors = perform c (new_find_alias_request net c.server alias) editors

  unfoldable pub create_alias : Client net → Alias → List RequestEditorFn → Call
  unfolding perform new_create_alias_request
  create_alias c body editors = perform c (new_create_alias_request net c.server body) editors

  unfoldable pub update_alias : Client net → String → Alias → List RequestEditorFn → Call
  unfolding perform new_update_alias_request
  update_alias c alias body editors =
      perform c (new_update_alias_request net c.server alias body) editors

  unfoldable pub delete_alias : Client net → String → List RequestEditorFn → Call
  unfolding perform new_delete_alias_request
  delete_alias c alias editors = perform c (new_delete_alias_request net c.server alias) editors

  unfoldable pub delete_alternative : Client net → String → List RequestEditorFn → Call
  unfolding perform new_delete_alternative_request
  delete_alternative c alt editors =
      perform c (new_delete_alternative_request net c.server alt) editors
