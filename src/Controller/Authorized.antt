-- ===== src/Controller/Authorized.antt =====
-- The requests that the reconcilers of internal/controller send: all carry the token.
pub mod Domain
pub mod Alias
pub mod User
use mailu_operator.Common.{String, ◌<>◌, ◌≡◌, refl, List, [], ◌∷◌, ◌++◌, some}
use mailu_operator.Common.Result.{Result, ok, err}
use mailu_operator.Http.{Net, Request, add_header}
use mailu_operator.Client.{Client, run_editors}
use mailu_operator.Client.Calls.{perform}
use mailu_operator.Client.Sending.{perform_lem}
use mailu_operator.Controller.{authorize}

-- The last header of a request is the token.
abbrev pub Carries : String → Request → Type 0
Carries token req =
    (before : List (String × String)) × (req.header
      ≡ before ++ ("Authorization", "Bearer " <> token) ∷ [])

module _ (net : Net) (api : Client net) (token : String) (doer : net.Doer)
    (made : api.client ≡ some doer) (editors : api.request_editors ≡ authorize token ∷ [])
    (I : net.World → Type 0)
    (sending : (req : Request) (w : net.World)
      → Carries token req
      → I w
      → I (net.do_request doer req w).1) where
  pub perform_holds :
      (built : Result Request) (w : net.World) → I w → I (perform net api built [] w).1
  unfolding run_editors
  perform_holds (err e) w i = rw (perform_lem net api (err e) [] w doer made) i
  perform_holds (ok r) w i =
      rw (perform_lem net api (ok r) [] w doer made, editors)
        (sending (add_header "Authorization" ("Bearer " <> token) r) w (r.header, refl) i)
